-- ===== src/Baselines/Same.antt =====
-- services/baseline_comparison.py: a program that has not changed since its baseline.
use defense_pm_tool.Prelude.{
  ℕ, ◌≡◌, refl, ap, arith, Bool, true, false, if◌then◌else◌, ==_refl, Option, none, some, List, [],
  ◌∷◌, length, Option-cases, inl, inr,
}
use defense_pm_tool.Prelude.Int.{ℤ, eqb_ℤ}
use defense_pm_tool.Prelude.Dict.{Dict, keys, lookup}
use defense_pm_tool.Decimal.{Decimal, equal, scale}
use defense_pm_tool.Dates.{Date}
use defense_pm_tool.Baselines.{
  Activity, Snapshot, contains, minus, by_codes, differ, xor, activity_modified,
}
use defense_pm_tool.Baselines.Counts.{compare_schedule-counts}
use defense_pm_tool.Baselines.Compare.{
  is_modified, pick, details, entries_at, modified_variances, compare_schedule,
}

eqb_refl : (a : ℤ) → eqb_ℤ a a ≡ true
eqb_refl a = ground arith

pub equal_refl : (x : Decimal) → equal x x ≡ true
unfolding equal
equal_refl x = eqb_refl (scale x.den x.num)

differ_self : (o : Option Date) → differ o o ≡ false
unfolding differ
differ_self none = refl
differ_self (some d) = rw (eqb_refl d) refl

xor_self : (b : Bool) → xor b b ≡ false
xor_self true = refl
xor_self false = refl

activity_modified_self : (a : Activity) → activity_modified a a ≡ false
unfolding activity_modified
activity_modified_self a =
    rw
      (
        eqb_refl a.duration,
        equal_refl a.budgeted_cost,
        differ_self a.early_start,
        differ_self a.early_finish,
      )
      (xor_self a.is_critical)

is_modified_self : (d : Dict Activity) (k : ℕ) → is_modified d d k ≡ false
unfolding is_modified
is_modified_self d k = elim (Option-cases (lookup k d)) [
  | inl e ↦ rw (is_modified, e) refl
  | inr (a, e) ↦ rw (is_modified, e) (rw e (activity_modified_self a))
]

pub minus-subset :
    (xs ys : List ℕ) → ((k : ℕ) → contains k xs ≡ true → contains k ys ≡ true) → minus xs ys ≡ []
unfolding minus contains
minus-subset [] ys h = refl
minus-subset (x ∷ xs) ys h =
    rw (h x (ground (arith, ==_refl x))) (minus-subset xs ys λ k g. h k (ground arith))

pub pick_none : (p : ℕ → Bool) (l : List ℕ) → ((k : ℕ) → p k ≡ false) → pick p l ≡ []
unfolding pick
pick_none p [] h = refl
pick_none p (k ∷ l) h = rw (h k) (pick_none p l h)

no_details :
    (baseline current : Dict Activity) (include_details : Bool) (a b c : List ℕ)
    → a ≡ []
    → b ≡ []
    → c ≡ []
    → (if include_details then details baseline current a b c else []) ≡ []
unfolding details entries_at modified_variances
no_details baseline current true a b c h k g = rw (h, k, g) refl
no_details baseline current false a b c h k g = refl

module _ (snapshot : Snapshot) (activities : List Activity)
    (same : snapshot.activities ≡ activities) where
  abbrev baseline : Dict Activity
  baseline = by_codes snapshot.activities

  abbrev current : Dict Activity
  current = by_codes activities

  none_added : minus (keys current) (keys baseline) ≡ []
  none_added =
      rw same (minus-subset (keys (by_codes activities)) (keys (by_codes activities)) λ k h. h)

  none_removed : minus (keys baseline) (keys current) ≡ []
  none_removed =
      rw same (minus-subset (keys (by_codes activities)) (keys (by_codes activities)) λ k h. h)

  none_modified : (l : List ℕ) → pick (is_modified baseline current) l ≡ []
  none_modified l =
      pick_none (is_modified baseline current) l
        λ k. rw same (is_modified_self (by_codes activities) k)

-- Compared with a baseline that has the activities of the program, the program has no activity added,
-- removed or modified, and there are no variances.
pub compare_schedule-unchanged :
    (snapshot : Snapshot) (activities : List Activity) (include_details : Bool)
    → snapshot.activities ≡ activities
    → let r = compare_schedule snapshot activities include_details in
      (r.activities_added ≡ 0)
      × (r.activities_removed ≡ 0)
      × (r.activities_modified ≡ 0)
      × (r.activities_unchanged ≡ r.activities_current)
      × (r.activity_variances ≡ [])
unfolding compare_schedule
compare_schedule-unchanged snapshot activities include_details same =
    let added = none_added snapshot activities same in
    let removed = none_removed snapshot activities same in
    let modified = none_modified snapshot activities same _ in
    let counts = (compare_schedule-counts snapshot activities include_details).0 in
    let no_added = ap length added in
    let no_modified = ap length modified in
    (
      no_added,
      ap length removed,
      no_modified,
      omega (arith, counts, no_added, no_modified),
      no_details (by_codes snapshot.activities) (by_codes activities) include_details _ _ _ added
          removed modified,
    )
