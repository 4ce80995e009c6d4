-- ===== src/Baselines/Codes.antt =====
-- services/baseline_comparison.py: which codes a comparison lists.
use defense_pm_tool.Prelude.{
  ℕ, ◌≡◌, ◌↔◌, refl, sym, ◌∙◌, ap, arith, Bool, true, false, not, ◌&&◌, ◌||◌, ◌==◌, leb,
  if◌then◌else◌, Option, none, some, List, [], ◌∷◌, foldl, Bool-cases, Option-cases, inl, inr,
  ==_to_eq,
}
use defense_pm_tool.Prelude.Int.{ℤ, eqb_ℤ}
use defense_pm_tool.Prelude.Dict.{Dict, keys, lookup, insert, lookup-insert}
use defense_pm_tool.Prelude.Sort.{any, any-sort_by}
use defense_pm_tool.Decimal.{equal}
use defense_pm_tool.Dates.{Date}
use defense_pm_tool.Baselines.{
  Activity, Snapshot, contains, minus, common, by_codes, differ, xor, activity_modified,
}
use defense_pm_tool.Baselines.Compare.{is_modified, pick, compare_schedule}
use defense_pm_tool.Baselines.Counts.{has_code, contains-by_codes}

-- The code is listed.
abbrev pub lists : ℕ → List ℕ → Bool
lists k l = any (λ x. x == k) l

at_key : (p : ℕ → Bool) (x k : ℕ) → ((x == k) && p x) ≡ ((x == k) && p k)
at_key p x k = elim (Bool-cases (x == k)) [
  | inl e ↦ rw e (ap p (==_to_eq x k e))
  | inr e ↦ rw e refl
]

and_or : (a b c : Bool) → ((a && c) || (b && c)) ≡ ((a || b) && c)
and_or a b c = ground arith

-- The items that pass a test, in the order of the list.
pub lists-pick : (p : ℕ → Bool) (k : ℕ) (l : List ℕ) → lists k (pick p l) ≡ (lists k l && p k)
unfolding pick
lists-pick p k [] = refl
lists-pick p k (x ∷ l) = elim (Bool-cases (p x)) [
  | inl e ↦ rw e (
      ap (λ b. b || lists k (pick p l)) (kept (x == k) (p x) e ∙ at_key p x k)
      ∙ ap (λ b. ((x == k) && p k) || b) (lists-pick p k l)
      ∙ and_or (x == k) (lists k l) (p k))
  | inr e ↦ rw e (
      lists-pick p k l
      ∙ ap (λ b. b || (lists k l && p k)) (dropped (x == k) (p x) e ∙ at_key p x k)
      ∙ and_or (x == k) (lists k l) (p k))
]
  where
    kept : (a b : Bool) → b ≡ true → a ≡ (a && b)
    kept a b h = ground arith

    dropped : (a b : Bool) → b ≡ false → false ≡ (a && b)
    dropped a b h = ground arith

pub minus-pick : (xs ys : List ℕ) → minus xs ys ≡ pick (λ k. not (contains k ys)) xs
unfolding minus pick
minus-pick [] ys = refl
minus-pick (x ∷ xs) ys = let rest = minus-pick xs ys in ground (arith, rest)

pub common-pick : (xs ys : List ℕ) → common xs ys ≡ pick (λ k. contains k ys) xs
unfolding common pick
common-pick [] ys = refl
common-pick (x ∷ xs) ys = let rest = common-pick xs ys in ground (arith, rest)

pub contains-lists : (k : ℕ) (l : List ℕ) → lists k l ≡ contains k l
unfolding contains
contains-lists k [] = refl
contains-lists k (x ∷ l) = ap (λ b. (x == k) || b) (contains-lists k l)

pub lists-minus :
    (k : ℕ) (xs ys : List ℕ) → lists k (minus xs ys) ≡ (contains k xs && not (contains k ys))
lists-minus k xs ys =
    ap (lists k) (minus-pick xs ys)
    ∙ lists-pick (λ j. not (contains j ys)) k xs
    ∙ ap (λ b. b && not (contains k ys)) (contains-lists k xs)

pub lists-common :
    (k : ℕ) (xs ys : List ℕ) → lists k (common xs ys) ≡ (contains k xs && contains k ys)
lists-common k xs ys =
    ap (lists k) (common-pick xs ys)
    ∙ lists-pick (λ j. contains j ys) k xs
    ∙ ap (λ b. b && contains k ys) (contains-lists k xs)

abbrev pub or_else : Option Activity → Option Activity → Option Activity
or_else none o = o
or_else (some a) o = some a

-- The last activity of the list with the code.
abbrev pub last_with : ℕ → List Activity → Option Activity
last_with k [] = none
last_with k (a ∷ l) = or_else (last_with k l) (if a.code == k then some a else none)

-- Two dates agree unless both are given and differ.
abbrev pub Agree : Option Date → Option Date → Type 0
Agree none d = Unit
Agree (some b) none = Unit
Agree (some b) (some c) = b ≡ c

-- Nothing about the activity has changed that counts.
abbrev pub IsSame : Activity → Activity → Type 0
IsSame b c =
    (b.duration ≡ c.duration)
    × (equal b.budgeted_cost c.budgeted_cost ≡ true)
    × Agree b.early_start c.early_start
    × Agree b.early_finish c.early_finish
    × (b.is_critical ≡ c.is_critical)

differ-Agree : (b c : Option Date) → (differ b c ≡ false) ↔ Agree b c
unfolding differ
differ-Agree none c = ((λ h. tt), (λ h. refl))
differ-Agree (some b) none = ((λ h. tt), (λ h. refl))
differ-Agree (some b) (some c) = ((λ h. ground arith), (λ h. ground arith))

modified_parts :
    (a b c d e : Bool)
    → (if not a
        then true
        else (if not b then true else (if c then true else (if d then true else e))))
      ≡ false
    → (a ≡ true) × (b ≡ true) × (c ≡ false) × (d ≡ false) × (e ≡ false)
modified_parts a b c d e h = ground arith

parts_unmodified :
    (a b c d e : Bool)
    → a ≡ true
    → b ≡ true
    → c ≡ false
    → d ≡ false
    → e ≡ false
    → (if not a
        then true
        else (if not b then true else (if c then true else (if d then true else e))))
      ≡ false
parts_unmodified a b c d e h1 h2 h3 h4 h5 = ground arith

same_ints : (a b : ℤ) → (eqb_ℤ a b ≡ true) ↔ (a ≡ b)
same_ints a b = ((λ h. ground arith), (λ h. ground arith))

same_flags : (a b : Bool) → (xor a b ≡ false) ↔ (a ≡ b)
same_flags true true = ((λ h. refl), (λ h. refl))
same_flags true false = ((λ h. cc), (λ h. cc))
same_flags false true = ((λ h. cc), (λ h. cc))
same_flags false false = ((λ h. refl), (λ h. refl))

activity_modified-IsSame : (b c : Activity) → (activity_modified b c ≡ false) ↔ IsSame b c
unfolding activity_modified
activity_modified-IsSame b c = (
  (λ h.
      let (h1, h2, h3, h4, h5) =
        modified_parts (eqb_ℤ b.duration c.duration) (equal b.budgeted_cost c.budgeted_cost)
          (differ b.early_start c.early_start) (differ b.early_finish c.early_finish)
          (xor b.is_critical c.is_critical) h in
      (
        (same_ints b.duration c.duration).0 h1,
        h2,
        (differ-Agree b.early_start c.early_start).0 h3,
        (differ-Agree b.early_finish c.early_finish).0 h4,
        (same_flags b.is_critical c.is_critical).0 h5,
      )),
  (λ (h1, h2, h3, h4, h5).
      parts_unmodified (eqb_ℤ b.duration c.duration) (equal b.budgeted_cost c.budgeted_cost)
        (differ b.early_start c.early_start) (differ b.early_finish c.early_finish)
        (xor b.is_critical c.is_critical) ((same_ints b.duration c.duration).1 h1) h2
        ((differ-Agree b.early_start c.early_start).1 h3)
        ((differ-Agree b.early_finish c.early_finish).1 h4)
        ((same_flags b.is_critical c.is_critical).1 h5)),
)

lookup_from :
    (k : ℕ) (l : List Activity) (d : Dict Activity)
    → lookup k (foldl (λ e a. insert a.code a e) d l) ≡ or_else (last_with k l) (lookup k d)
lookup_from k [] d = refl
lookup_from k (a ∷ l) d =
    lookup_from k l (insert a.code a d)
    ∙ ap (or_else (last_with k l)) (lookup-insert a.code k a d)
    ∙ later (last_with k l) (a.code == k)
  where
    later :
        (o : Option Activity) (b : Bool)
        → or_else o (if b then some a else lookup k d)
          ≡ or_else (or_else o (if b then some a else none)) (lookup k d)
    later none true = refl
    later none false = refl
    later (some x) b = refl

lookup-by_codes : (k : ℕ) (l : List Activity) → lookup k (by_codes l) ≡ last_with k l
unfolding by_codes lookup
lookup-by_codes k l = lookup_from k l [] ∙ nothing_after (last_with k l)
  where
    nothing_after : (o : Option Activity) → or_else o none ≡ o
    nothing_after none = refl
    nothing_after (some x) = refl

contains_of_lookup :
    (k : ℕ) (a : Activity) (d : Dict Activity) → lookup k d ≡ some a → contains k (keys d) ≡ true
unfolding contains lookup
contains_of_lookup k a [] h = cc
contains_of_lookup k a ((j, b) ∷ d) h = elim (Bool-cases (j == k)) [
  | inl e ↦ rw e refl
  | inr e ↦ rw e (contains_of_lookup k a d (rw e at h))
]

-- Both dictionaries have an activity with the code, and the two are not the same.
abbrev Changed : Dict Activity → Dict Activity → ℕ → Type 0
Changed baseline current k =
    (b : Activity) × (c : Activity) × (lookup k baseline ≡ some b)
    × (lookup k current ≡ some c)
    × ¬ IsSame b c

is_modified-Changed :
    (baseline current : Dict Activity) (k : ℕ)
    → (is_modified baseline current k ≡ true) ↔ Changed baseline current k
unfolding is_modified
is_modified-Changed baseline current k = (
  (λ h. elim (Option-cases (lookup k baseline)) [
    | inl e ↦ let missing = rw (is_modified, e) at h in cc
    | inr (b, e) ↦ elim (Option-cases (lookup k current)) [
      | inl f ↦ let missing = rw (is_modified, e, f) at h in cc
      | inr (c, f) ↦ (
        b,
        c,
        e,
        f,
        (λ same.
            let modified : activity_modified b c ≡ true = rw (is_modified, e, f) at h in
            let unmodified = (activity_modified-IsSame b c).1 same in cc),
      )
    ]
  ]),
  (λ (b, c, e, f, changed).
      rw (is_modified, e, f)
        (elim (Bool-cases (activity_modified b c)) [
          | inl modified ↦ modified
          | inr unmodified ↦ absurd (changed ((activity_modified-IsSame b c).0 unmodified))
        ])),
)

both_hold : (a b c : Bool) → a ≡ true → b ≡ true → c ≡ true → ((a && b) && c) ≡ true
both_hold a b c h k g = ground arith

third_of : (a b : Bool) → (a && b) ≡ true → b ≡ true
third_of a b h = ground arith

-- A code is listed as added just if the program has an activity of that code and the baseline has none,
-- as removed just if it is the other way round, and as modified just if both have one and the last one of
-- the program with the code differs from the last one of the baseline in duration, in budget, in being
-- critical, or in an early start or finish that both have.
pub compare_schedule-lists :
    (snapshot : Snapshot) (activities : List Activity) (include_details : Bool) (k : ℕ)
    → let r = compare_schedule snapshot activities include_details in
      let before = has_code k snapshot.activities in
      let now = has_code k activities in
      (lists k r.added_activity_codes ≡ (now && not before))
      × (lists k r.removed_activity_codes ≡ (before && not now))
      × ((lists k r.modified_activity_codes ≡ true) ↔ (
          (b : Activity) × (c : Activity) × (last_with k snapshot.activities ≡ some b)
          × (last_with k activities ≡ some c)
          × ¬ IsSame b c))
unfolding compare_schedule
compare_schedule-lists snapshot activities include_details k =
    let baseline = by_codes snapshot.activities in
    let current = by_codes activities in
    let before = contains-by_codes k snapshot.activities in
    let now = contains-by_codes k activities in
    let modified =
      any-sort_by leb (λ x. x == k) _
      ∙ lists-pick (is_modified baseline current) k _
      ∙ ap (λ b. b && is_modified baseline current k)
          (lists-common k (keys baseline) (keys current)) in
    let last_before = lookup-by_codes k snapshot.activities in
    let last_now = lookup-by_codes k activities in
    (
      any-sort_by leb (λ x. x == k) _
          ∙ lists-minus k (keys current) (keys baseline)
          ∙ rw (before, now) refl,
      any-sort_by leb (λ x. x == k) _
          ∙ lists-minus k (keys baseline) (keys current)
          ∙ rw (before, now) refl,
      (
        (λ h.
            let (b, c, e, f, changed) =
              (is_modified-Changed baseline current k).0 (third_of _ _ (sym modified ∙ h)) in
            (b, c, sym last_before ∙ e, sym last_now ∙ f, changed)),
        (λ (b, c, e, f, changed).
            let at_before = last_before ∙ e in
            let at_now = last_now ∙ f in
            modified
            ∙ both_hold _ _ _ (contains_of_lookup k b baseline at_before)
                (contains_of_lookup k c current at_now)
                ((is_modified-Changed baseline current k).1 (b, c, at_before, at_now, changed))),
      ),
    )
