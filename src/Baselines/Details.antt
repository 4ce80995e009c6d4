-- ===== src/Baselines/Details.antt =====
-- services/baseline_comparison.py: the variances of a comparison, one for each code that is listed.
use defense_pm_tool.Prelude.{
  ℕ, suc, ◌+◌, ◌≡◌, refl, sym, ◌∙◌, ap, arith, Bool, true, false, ◌&&◌, ◌==◌, ==_refl, some, List,
  [], ◌∷◌, ◌++◌, map, length, Bool-cases, inl, inr,
}
use defense_pm_tool.Prelude.Dict.{Dict, keys, lookup}
use defense_pm_tool.Baselines.{
  Activity, Snapshot, contains, minus, common, by_codes, added_variance, removed_variance,
}
use defense_pm_tool.Baselines.Compare.{
  is_modified, pick, entries_at, modified_variances, details, compare_schedule,
}
use defense_pm_tool.Baselines.Codes.{contains-lists, lists-minus, lists-common, lists-pick}

-- All the codes are keys of the dictionary.
abbrev pub IsListed : {V : Type 0} → Dict V → List ℕ → Type 0
IsListed d l = (k : ℕ) → contains k l ≡ true → contains k (keys d) ≡ true

pub lookup_of_contains :
    {V : Type 0} (k : ℕ) (d : Dict V) → contains k (keys d) ≡ true → (a : V) × (lookup k d ≡ some a)
unfolding contains lookup
lookup_of_contains k [] h = cc
lookup_of_contains k ((j, a) ∷ d) h = elim (Bool-cases (j == k)) [
  | inl e ↦ (a, rw e refl)
  | inr e ↦ let (b, found) = lookup_of_contains k d (rw e at h) in (b, rw e found)
]

pub here : (x : ℕ) (l : List ℕ) → contains x (x ∷ l) ≡ true
unfolding contains
here x l = rw (==_refl x) refl

pub further : (k x : ℕ) (l : List ℕ) → contains k l ≡ true → contains k (x ∷ l) ≡ true
unfolding contains
further k x l h = ground arith

pub length-entries_at :
    {V : Type 0} (d : Dict V) (l : List ℕ) → IsListed d l → length (entries_at d l) ≡ length l
unfolding entries_at
length-entries_at d [] h = refl
length-entries_at d (k ∷ l) h =
    let (a, found) = lookup_of_contains k d (h k (here k l)) in
    rw (entries_at, found) (ap suc (length-entries_at d l λ j g. h j (further j k l g)))

length-modified_variances :
    (baseline current : Dict Activity) (l : List ℕ)
    → IsListed baseline l
    → IsListed current l
    → length (modified_variances baseline current l) ≡ length l
unfolding modified_variances
length-modified_variances baseline current [] h g = refl
length-modified_variances baseline current (k ∷ l) h g =
    let (b, before) = lookup_of_contains k baseline (h k (here k l)) in
    let (c, now) = lookup_of_contains k current (g k (here k l)) in
    rw (modified_variances, before, now)
      (ap suc (
        length-modified_variances baseline current l (λ j e. h j (further j k l e))
          (λ j e. g j (further j k l e))))

pub length-map : {A B : Type 0} (f : A → B) (l : List A) → length (map f l) ≡ length l
length-map f [] = refl
length-map f (x ∷ l) = ap suc (length-map f l)

pub length-append : {A : Type 0} (xs ys : List A) → length (xs ++ ys) ≡ length xs + length ys
length-append [] ys = omega arith
length-append (x ∷ xs) ys = let rest = length-append xs ys in omega (arith, rest)

pub left_of : (a b : Bool) → (a && b) ≡ true → a ≡ true
left_of a b h = ground arith

pub right_of : (a b : Bool) → (a && b) ≡ true → b ≡ true
right_of a b h = ground arith

pub minus-subset : (k : ℕ) (xs ys : List ℕ) → contains k (minus xs ys) ≡ true → contains k xs ≡ true
minus-subset k xs ys h =
    left_of (contains k xs) _ (sym (lists-minus k xs ys) ∙ contains-lists k (minus xs ys) ∙ h)

pub pick-subset :
    (k : ℕ) (p : ℕ → Bool) (xs ys : List ℕ)
    → contains k (pick p (common xs ys)) ≡ true
    → (contains k xs && contains k ys) ≡ true
pick-subset k p xs ys h =
    sym (lists-common k xs ys)
    ∙ left_of _ (p k)
        (sym (lists-pick p k (common xs ys)) ∙ contains-lists k (pick p (common xs ys)) ∙ h)

added_up : (t s p q r a b c : ℕ) → t ≡ s + r → s ≡ p + q → p ≡ a → q ≡ b → r ≡ c → t ≡ a + b + c
added_up t s p q r a b c h k x y z = omega (arith, h, k, x, y, z)

length-details :
    (baseline current : Dict Activity) (a b c : List ℕ)
    → IsListed current a
    → IsListed baseline b
    → IsListed baseline c
    → IsListed current c
    → length (details baseline current a b c) ≡ length a + length b + length c
unfolding details
length-details baseline current a b c h g k m =
    let xs = map added_variance (entries_at current a) in
    let ys = map removed_variance (entries_at baseline b) in
    let zs = modified_variances baseline current c in
    let first = length-append (xs ++ ys) zs in
    let second = length-append xs ys in
    let of_a = length-map added_variance (entries_at current a) ∙ length-entries_at current a h in
    let of_b =
      length-map removed_variance (entries_at baseline b) ∙ length-entries_at baseline b g in
    let of_c = length-modified_variances baseline current c k m in
    added_up _ _ _ _ _ _ _ _ first second of_a of_b of_c

-- With details, the variances are as many as the activities added, removed and modified; without,
-- there are none.
pub compare_schedule-details :
    (snapshot : Snapshot) (activities : List Activity)
    → let r = compare_schedule snapshot activities true in
      (length r.activity_variances
        ≡ r.activities_added + r.activities_removed + r.activities_modified)
      × ((compare_schedule snapshot activities false).activity_variances ≡ [])
unfolding compare_schedule
compare_schedule-details snapshot activities =
    let baseline = by_codes snapshot.activities in
    let current = by_codes activities in
    (
      length-details baseline current _ _ _ (λ k. minus-subset k (keys current) (keys baseline))
          (λ k. minus-subset k (keys baseline) (keys current))
          (λ k h.
            left_of _ _
              (pick-subset k (is_modified baseline current) (keys baseline) (keys current) h))
          (λ k h.
            right_of _ _
              (pick-subset k (is_modified baseline current) (keys baseline) (keys current) h)),
      refl,
    )
