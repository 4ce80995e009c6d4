-- ===== src/Baselines/Whole.antt =====
-- services/baseline_comparison.py: a program that is as it was when the baseline was made.
use native.Mathlib.Nat.{zero-div, zero-mod}
use defense_pm_tool.Prelude.{
  ℕ, ◌≡◌, refl, sym, ◌∙◌, ap, subst, arith, Bool, true, false, not, if◌then◌else◌, some, List, [],
  length, Option-cases, inl, inr,
}
use defense_pm_tool.Prelude.Int.{ℤ, pos, eqb_ℤ, int_laws, ◌-ℤ◌, ◌*ℤ◌}
use defense_pm_tool.Prelude.Dict.{Dict, keys, values, lookup}
use defense_pm_tool.Decimal.{
  Decimal, cents, whole, scale, equal, ◌-ᴰ◌, ◌*ᴰ◌, ◌/ᴰ◌, is_positive, half_even, hundredths_even,
  quantize, with_sign, abs_ℤ,
}
use defense_pm_tool.Baselines.{Activity, Snapshot, common}
use defense_pm_tool.Baselines.Compare.{ComparisonResult, entries_at, compare_schedule}
use defense_pm_tool.Baselines.Same.{compare_schedule-unchanged, equal_refl, minus-subset, pick_none}
use defense_pm_tool.Baselines.Wbs.{
  WbsElement, BudgetResult, Baseline, by_wbs_codes, total_bac, budget_differs, modified_wbs_at,
  wbs_details, compare_cost_wbs, calculate_summaries, or_wbs, schedule_of, budget_of,
  compare_to_current,
}

same_num : (a : ℤ) → (a -ℤ a) ≡ pos 0
same_num a = grind int_laws

equal_ints : (a b : ℤ) → eqb_ℤ a b ≡ true → a ≡ b
equal_ints a b h = ground arith

minus-equal : (x y : Decimal) → equal y x ≡ true → (x -ᴰ y).num ≡ pos 0
unfolding ◌-ᴰ◌ equal
minus-equal x y h =
    ap (λ z. scale y.den x.num -ℤ z) (equal_ints (scale x.den y.num) (scale y.den x.num) h)
    ∙ same_num (scale y.den x.num)

half_even_zero : (d : ℕ) → half_even 0 d ≡ 0
unfolding half_even
half_even_zero d = ground (arith, zero-div d, zero-mod d)

scale_zero : (d : ℕ) → scale d (pos 0) ≡ pos 0
scale_zero d = ground arith

zero_times : (z : ℤ) → (pos 0 *ℤ z) ≡ pos 0
unfolding ◌*ℤ◌
zero_times z = ground arith

-- No percentage of nothing.
no_percent : (x y : Decimal) → x.num ≡ pos 0 → quantize (x /ᴰ y *ᴰ whole 100) ≡ cents (pos 0)
unfolding ◌/ᴰ◌ ◌*ᴰ◌ hundredths_even
no_percent x y h = ap cents (
    rounded (scale y.den (x.num *ℤ with_sign y.num 1) *ℤ pos 100) _ (
      ap (λ z. scale y.den (z *ℤ with_sign y.num 1) *ℤ pos 100) h
      ∙ ap (λ z. scale y.den z *ℤ pos 100) (zero_times (with_sign y.num 1))
      ∙ ap (λ z. z *ℤ pos 100) (scale_zero y.den)
      ∙ zero_times (pos 100)))
  where
    rounded : (z : ℤ) (d : ℕ) → z ≡ pos 0 → with_sign z (half_even (abs_ℤ z) d) ≡ pos 0
    rounded z d h = ap (λ w. with_sign w (half_even (abs_ℤ w) d)) h ∙ ap pos (half_even_zero d)

budget_differs_self : (d : Dict WbsElement) (k : ℕ) → budget_differs d d k ≡ false
unfolding budget_differs
budget_differs_self d k = elim (Option-cases (lookup k d)) [
  | inl e ↦ rw (budget_differs, e) refl
  | inr (x, e) ↦ rw (budget_differs, e) (rw e (ap not (equal_refl x.budget_at_completion)))
]

no_wbs_details :
    (d : Dict WbsElement) (include_details : Bool) (a b c : List ℕ)
    → a ≡ []
    → b ≡ []
    → c ≡ []
    → (if include_details then wbs_details d d a b c else []) ≡ []
unfolding wbs_details entries_at modified_wbs_at
no_wbs_details d true a b c h k g = rw (h, k, g) refl
no_wbs_details d false a b c h k g = refl

-- No activity is added, removed or modified.
abbrev pub IsSameSchedule : ComparisonResult → Type 0
IsSameSchedule r =
    (r.activities_added ≡ 0)
    × (r.activities_removed ≡ 0)
    × (r.activities_modified ≡ 0)
    × (r.activities_unchanged ≡ r.activities_current)
    × (r.activity_variances ≡ [])

-- No element is added, removed or modified, and the budget is the same.
abbrev pub IsSameBudget : BudgetResult → Type 0
IsSameBudget r =
    (r.wbs_added ≡ 0)
    × (r.wbs_removed ≡ 0)
    × (r.wbs_modified ≡ 0)
    × (r.wbs_variances ≡ [])
    × (r.bac_variance.num ≡ pos 0)
    × (r.bac_variance_percent ≡ cents (pos 0))

same_budget :
    (total : Decimal) (l : List WbsElement) (include_details : Bool)
    → equal total (total_bac (values (by_wbs_codes l))) ≡ true
    → IsSameBudget (calculate_summaries (budget_of total (some l) l include_details))
unfolding calculate_summaries compare_cost_wbs
same_budget total l include_details h =
    let d = by_wbs_codes l in
    let nothing = minus-subset (keys d) (keys d) (λ k g. g) in
    let unmodified =
      pick_none (budget_differs d d) (common (keys d) (keys d)) (budget_differs_self d) in
    let zero = minus-equal (total_bac (values d)) total h in
    (
      ap length nothing,
      ap length nothing,
      ap length unmodified,
      no_wbs_details d include_details _ _ _ unmodified nothing nothing,
      zero,
      by_total (is_positive total) zero,
    )
  where
    by_total :
        (b : Bool)
        → (total_bac (values (by_wbs_codes l)) -ᴰ total).num ≡ pos 0
        → (if b
            then quantize ((total_bac (values (by_wbs_codes l)) -ᴰ total) /ᴰ total *ᴰ whole 100)
            else cents (pos 0))
          ≡ cents (pos 0)
    by_total true zero = no_percent _ total zero
    by_total false zero = refl

-- Let the snapshots of a baseline have the activities and the WBS elements of the program, and its total be
-- theirs, counting one element for each code. Then the comparison finds no activity and no element added,
-- removed or modified, no variances, and no difference of the budgets.
pub compare_to_current-unchanged :
    (b : Baseline) (s : Snapshot) (activities : List Activity) (elements : List WbsElement)
    (include_details : Bool)
    → b.schedule_snapshot ≡ some s
    → s.activities ≡ activities
    → or_wbs b.cost_snapshot b.wbs_snapshot ≡ some elements
    → equal b.total_bac (total_bac (values (by_wbs_codes elements))) ≡ true
    → let (schedule, budget) = compare_to_current b activities elements include_details in
      ((r : ComparisonResult) × (schedule ≡ some r) × IsSameSchedule r) × IsSameBudget budget
unfolding compare_to_current
compare_to_current-unchanged b s activities elements include_details has_schedule same has_budget
      total =
    (
      (
        compare_schedule s activities include_details,
        ap (λ o. schedule_of o activities include_details) has_schedule,
        compare_schedule-unchanged s activities include_details same,
      ),
      subst
          (λ o.
            IsSameBudget (calculate_summaries (budget_of b.total_bac o elements include_details)))
          (sym has_budget) (same_budget b.total_bac elements include_details total),
    )
