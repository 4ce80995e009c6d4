-- ===== src/Baselines/Counts.antt =====
-- services/baseline_comparison.py: the codes that a comparison lists, and how many there are.
use defense_pm_tool.Prelude.{
  ℕ, suc, ◌+◌, ◌≡◌, refl, sym, ◌∙◌, ap, arith, Bool, false, not, ◌||◌, ◌==◌, if◌then◌else◌, List,
  [], ◌∷◌, foldl, length, Bool-cases, inl, inr, ==_to_eq, subst,
}
use defense_pm_tool.Prelude.Dict.{Dict, keys, insert}
use defense_pm_tool.Prelude.Sort.{any}
use defense_pm_tool.Baselines.{Activity, Snapshot, contains, minus, common, by_codes}
use defense_pm_tool.Baselines.Compare.{is_modified, pick, compare_schedule}

abbrev pub IsDistinct : List ℕ → Type 0
IsDistinct [] = Unit
IsDistinct (x ∷ l) = (contains x l ≡ false) × IsDistinct l

module _ {V : Type 0} where
  contains-insert :
      (j k : ℕ) (v : V) (d : Dict V)
      → contains j (keys (insert k v d)) ≡ ((k == j) || contains j (keys d))
  unfolding contains insert
  contains-insert j k v [] = refl
  contains-insert j k v ((i, w) ∷ d) = ground (arith, contains-insert j k v d)

  IsDistinct-insert :
      (k : ℕ) (v : V) (d : Dict V) → IsDistinct (keys d) → IsDistinct (keys (insert k v d))
  unfolding contains insert
  IsDistinct-insert k v [] h = (refl, tt)
  IsDistinct-insert k v ((i, w) ∷ d) h = elim (Bool-cases (i == k)) [
    | inl e ↦ rw e h
    | inr e ↦ rw e (contains-insert i k v d ∙ ground arith, IsDistinct-insert k v d h.1)
  ]

pub IsDistinct-from :
    {V : Type 0} (key : V → ℕ) (l : List V) (d : Dict V)
    → IsDistinct (keys d)
    → IsDistinct (keys (foldl (λ e v. insert (key v) v e) d l))
IsDistinct-from key [] d h = h
IsDistinct-from key (v ∷ l) d h =
    IsDistinct-from key l (insert (key v) v d) (IsDistinct-insert (key v) v d h)

by_codes-IsDistinct : (l : List Activity) → IsDistinct (keys (by_codes l))
unfolding by_codes
by_codes-IsDistinct l = IsDistinct-from (λ a. a.code) l [] tt

-- An activity of the list has the code.
abbrev pub has_code : ℕ → List Activity → Bool
has_code k l = any (λ a. a.code == k) l

contains_from :
    (k : ℕ) (l : List Activity) (d : Dict Activity)
    → contains k (keys (foldl (λ e a. insert a.code a e) d l))
      ≡ (contains k (keys d) || has_code k l)
contains_from k [] d = ground arith
contains_from k (a ∷ l) d =
    contains_from k l (insert a.code a d)
    ∙ ap (λ b. b || has_code k l) (contains-insert k a.code a d)
    ∙ or_later (a.code == k) (contains k (keys d)) (has_code k l)
  where
    or_later : (a b c : Bool) → ((a || b) || c) ≡ (b || (a || c))
    or_later a b c = ground arith

pub contains-by_codes : (k : ℕ) (l : List Activity) → contains k (keys (by_codes l)) ≡ has_code k l
unfolding by_codes contains
contains-by_codes k l = contains_from k l []

pub length-minus : (xs ys : List ℕ) → length (minus xs ys) + length (common xs ys) ≡ length xs
unfolding minus common
length-minus [] ys = refl
length-minus (x ∷ xs) ys = let rest = length-minus xs ys in ground (arith, rest)

pub length-pick :
    (p : ℕ → Bool) (l : List ℕ) → length (pick p l) + length (pick (λ k. not (p k)) l) ≡ length l
unfolding pick
length-pick p [] = refl
length-pick p (k ∷ l) = let rest = length-pick p l in ground (arith, rest)

-- How often `k` stands in the list, and how often all of `xs` do.
abbrev times : ℕ → List ℕ → ℕ
times k [] = 0
times k (x ∷ l) = let rest = times k l in if x == k then suc rest else rest

abbrev weight : List ℕ → List ℕ → ℕ
weight [] ys = 0
weight (x ∷ xs) ys = times x ys + weight xs ys

weight_nothing : (ys : List ℕ) → weight ys [] ≡ 0
weight_nothing [] = refl
weight_nothing (y ∷ ys) = let rest = weight_nothing ys in omega arith

weight-cons : (x : ℕ) (xs ys : List ℕ) → weight ys (x ∷ xs) ≡ times x ys + weight ys xs
weight-cons x xs [] = refl
weight-cons x xs (y ∷ ys) = let rest = weight-cons x xs ys in ground (arith, rest)

weight_comm : (xs ys : List ℕ) → weight xs ys ≡ weight ys xs
weight_comm [] ys = sym (weight_nothing ys)
weight_comm (x ∷ xs) ys = ap (λ n. times x ys + n) (weight_comm xs ys) ∙ sym (weight-cons x xs ys)

times-absent : (k : ℕ) (l : List ℕ) → contains k l ≡ false → times k l ≡ 0
unfolding contains
times-absent k [] h = refl
times-absent k (x ∷ l) h = let rest = times-absent k l (ground arith) in ground arith

times-distinct : (k : ℕ) (l : List ℕ) → IsDistinct l → times k l ≡ (if contains k l then 1 else 0)
unfolding contains
times-distinct k [] h = refl
times-distinct k (x ∷ l) h = elim (Bool-cases (x == k)) [
  | inl e ↦
      let absent = times-absent x l h.0 in
      let same = ==_to_eq x k e in rw e (ap suc (subst (λ j. times j l ≡ 0) same absent))
  | inr e ↦ rw e (times-distinct k l h.1)
]

length-common : (xs ys : List ℕ) → IsDistinct ys → length (common xs ys) ≡ weight xs ys
unfolding common
length-common [] ys h = refl
length-common (x ∷ xs) ys h =
    let rest = length-common xs ys h in let one = times-distinct x ys h in ground (arith, rest, one)

pub length-common_comm :
    (xs ys : List ℕ) → IsDistinct xs → IsDistinct ys → length (common xs ys) ≡ length (common ys xs)
length-common_comm xs ys h k =
    length-common xs ys k ∙ weight_comm xs ys ∙ sym (length-common ys xs h)

pub total :
    (added modified unchanged common_here common_there whole : ℕ)
    → added + common_here ≡ whole
    → common_here ≡ common_there
    → modified + unchanged ≡ common_there
    → added + modified + unchanged ≡ whole
total a m u c c' w h k g = omega (arith, h, k, g)

-- The activities of the program are those added, modified and unchanged; the activities of the baseline
-- are those removed, modified and unchanged. Both count an activity once for each code.
pub compare_schedule-counts :
    (snapshot : Snapshot) (activities : List Activity) (include_details : Bool)
    → let r = compare_schedule snapshot activities include_details in
      (r.activities_added + r.activities_modified + r.activities_unchanged ≡ r.activities_current)
      × (r.activities_removed + r.activities_modified + r.activities_unchanged
          ≡ r.activities_baseline)
unfolding compare_schedule
compare_schedule-counts snapshot activities include_details =
    let baseline = by_codes snapshot.activities in
    let current = by_codes activities in
    let both = common (keys baseline) (keys current) in
    let parts = length-pick (is_modified baseline current) both in
    (
      total _ _ _ _ _ _ (length-minus (keys current) (keys baseline))
          (length-common_comm (keys current) (keys baseline) (by_codes-IsDistinct activities)
            (by_codes-IsDistinct snapshot.activities))
          parts,
      total _ _ _ _ _ _ (length-minus (keys baseline) (keys current)) refl parts,
    )
