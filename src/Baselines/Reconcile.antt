-- ===== src/Baselines/Reconcile.antt =====
-- services/baseline_comparison.py: the variances of the WBS elements add up to that of the budget.
use native.Mathlib.Nat.{eq_of_mul-eq-mul_left}
use defense_pm_tool.Prelude.{
  ℕ, ◌≡◌, sym, ◌∙◌, subst, arith, Bool, true, false, not, ==_to_eq, List, ◌++◌, map, All, ◌+◌,
}
use defense_pm_tool.Prelude.Int.{ℤ, pos, pos_part, neg_part, eqb_ℤ, ◌+ℤ◌, ◌-ℤ◌, int_laws}
use defense_pm_tool.Prelude.Dict.{Dict, keys, values}
use defense_pm_tool.Decimal.{Decimal, scale, equal}
use defense_pm_tool.Decimal.Worth.{IsWorth, scale_parts, sub-IsWorth, equal-IsWorth}
use defense_pm_tool.Baselines.{contains, minus, common}
use defense_pm_tool.Baselines.Compare.{pick, entries_at}
use defense_pm_tool.Baselines.Codes.{lists, contains-lists, lists-pick}
use defense_pm_tool.Baselines.Counts.{IsDistinct}
use defense_pm_tool.Baselines.Details.{lookup_of_contains, pick-subset, left_of, right_of}
use defense_pm_tool.Baselines.Budget.{by_wbs_codes-IsDistinct}
use defense_pm_tool.Baselines.Sums.{
  sum, sum-pick, sum-minus-common, sum_cong, sum_zeros, sum-difference, sum-common_comm,
}
use defense_pm_tool.Baselines.Amounts.{
  InCents, AllInCents, amount, lookup-InCents, by_wbs_codes-AllInCents, total_bac-IsWorth,
}
use defense_pm_tool.Baselines.Changes.{
  growth, total_change, Adds, Adds-IsWorth, Adds-append, added-Adds, removed-Adds, modified-Adds,
}
use defense_pm_tool.Baselines.Wbs.{
  WbsElement, BudgetResult, by_wbs_codes, total_bac, budget_differs, added_wbs, removed_wbs,
  modified_wbs_at, wbs_details, compare_cost_wbs, calculate_summaries,
}

same_cents :
    (x y : Decimal) → x.den ≡ 100 → y.den ≡ 100 → equal x y ≡ true → (y.num -ℤ x.num) ≡ pos 0
unfolding equal
same_cents x y hx hy h =
    let e : eqb_ℤ (scale 100 x.num) (scale 100 y.num) ≡ true = rw (hx, hy) at h in
    let same = ==_to_eq _ _ e in
    let of_x = scale_parts 100 x.num in
    let of_y = scale_parts 100 y.num in nothing x.num y.num (omega (arith, same, of_x, of_y))
  where
    nothing : (a b : ℤ) → pos_part a + neg_part b ≡ pos_part b + neg_part a → (b -ℤ a) ≡ pos 0
    nothing a b h = grind (int_laws, h)

is_true_of : (b : Bool) → not b ≡ false → b ≡ true
is_true_of b h = ground arith

is_false_of : (b : Bool) → not b ≡ true → b ≡ false
is_false_of b h = ground arith

balance :
    (fx gy a b cf cf' cg m u d r z : ℤ)
    → fx ≡ (cf +ℤ a)
    → cf ≡ cf'
    → gy ≡ (cg +ℤ b)
    → d ≡ (cf' -ℤ cg)
    → d ≡ (m +ℤ u)
    → u ≡ pos 0
    → r ≡ (z -ℤ b)
    → z ≡ pos 0
    → ((m +ℤ a) +ℤ r) ≡ (fx -ℤ gy)
balance fx gy a b cf cf' cg m u d r z h1 h2 h3 h4 h5 h6 h7 h8 =
    grind (int_laws, h1, h2, h3, h4, h5, h6, h7, h8)

module _ (baseline current : Dict WbsElement) (before : AllInCents baseline)
    (now : AllInCents current) where
  -- An element whose budget is not found to differ has not grown.
  same_amount :
      (k : ℕ)
      → contains k (keys baseline) ≡ true
      → contains k (keys current) ≡ true
      → budget_differs baseline current k ≡ false
      → growth baseline current before now k ≡ pos 0
  unfolding budget_differs
  same_amount k h g same =
      let (b, e) = lookup_of_contains k baseline h in
      let (c, f) = lookup_of_contains k current g in
      rw (e, f)
        (same_cents b.budget_at_completion c.budget_at_completion
          (lookup-InCents k b baseline before e) (lookup-InCents k c current now f)
          (is_true_of (equal b.budget_at_completion c.budget_at_completion)
            (rw (budget_differs, e, f) at same)))

  abbrev shared : List ℕ
  shared = common (keys baseline) (keys current)

  unmodified :
      sum
        (growth baseline current before now)
        (pick (λ k. not (budget_differs baseline current k)) shared)
      ≡ pos 0
  unmodified =
      sum_cong (growth baseline current before now) (λ k. pos 0) (pick same shared)
        (λ k h.
          let within = pick-subset k same (keys baseline) (keys current) h in
          same_amount k (left_of _ _ within) (right_of _ _ within) (
            is_false_of (budget_differs baseline current k) (
              right_of (lists k shared) (same k)
                (sym (lists-pick same k shared) ∙ contains-lists k (pick same shared) ∙ h))))
      ∙ sum_zeros (pick same shared)
    where
      same : ℕ → Bool
      same k = not (budget_differs baseline current k)

  details-Adds :
      Adds
        ((sum (growth baseline current before now) (pick (budget_differs baseline current) shared)
            +ℤ sum (amount current) (minus (keys current) (keys baseline)))
          +ℤ sum (λ k. pos 0 -ℤ amount baseline k) (minus (keys baseline) (keys current)))
        (wbs_details baseline current
          (pick (budget_differs baseline current) shared)
          (minus (keys current) (keys baseline))
          (minus (keys baseline) (keys current)))
  unfolding wbs_details
  details-Adds =
      let changed = pick (budget_differs baseline current) shared in
      let within =
        λ (k : ℕ). pick-subset k (budget_differs baseline current) (keys baseline) (keys current) in
      let new = minus (keys current) (keys baseline) in
      let gone = minus (keys baseline) (keys current) in
      Adds-append
        (modified_wbs_at baseline current changed ++ map added_wbs (entries_at current new))
        (map removed_wbs (entries_at baseline gone)) _ _
        (Adds-append (modified_wbs_at baseline current changed)
          (map added_wbs (entries_at current new)) _ _
          (modified-Adds baseline current before now changed (λ k h. left_of _ _ (within k h))
            (λ k h. right_of _ _ (within k h)))
          (added-Adds current new now))
        (removed-Adds baseline gone before)

  details-IsWorth :
      IsDistinct (keys baseline)
      → IsDistinct (keys current)
      → IsWorth (sum (amount current) (keys current) -ℤ sum (amount baseline) (keys baseline)) (
          total_change (
            wbs_details baseline current
              (pick (budget_differs baseline current) shared)
              (minus (keys current) (keys baseline))
              (minus (keys baseline) (keys current))))
  details-IsWorth once_before once_now = Adds-IsWorth _ _ (
      subst
        (λ z. Adds z (
          wbs_details baseline current (pick (budget_differs baseline current) shared)
            (minus (keys current) (keys baseline)) (minus (keys baseline) (keys current))))
        (balance _ _ _ _ _ _ _ _ _ _ _ _
          (sum-minus-common (amount current) (keys current) (keys baseline))
          (sum-common_comm (amount current) (keys current) (keys baseline) once_now once_before)
          (sum-minus-common (amount baseline) (keys baseline) (keys current))
          (sum-difference (amount current) (amount baseline) shared)
          (sum-pick (growth baseline current before now) (budget_differs baseline current) shared)
          unmodified
          (sum-difference (λ k. pos 0) (amount baseline) (minus (keys baseline) (keys current)))
          (sum_zeros (minus (keys baseline) (keys current))))
        details-Adds)

-- A number of cents that equals a fraction worth z is z.
cents-IsWorth :
    (total x : Decimal) (z : ℤ)
    → total.den ≡ 100
    → IsWorth z x
    → equal total x ≡ true
    → IsWorth z total
unfolding equal
cents-IsWorth total x z h (some_den, worth) e =
    let e' : eqb_ℤ (scale x.den total.num) (scale 100 x.num) ≡ true = rw h at e in
    let same = ==_to_eq _ _ e' in
    let of_total = scale_parts x.den total.num in
    let of_x = scale_parts 100 x.num in
    let cancelled =
      eq_of_mul-eq-mul_left x.den some_den (pos_part total.num + neg_part z)
        (neg_part total.num + pos_part z) (omega (arith, same, of_total, of_x, worth)) in
    (omega (arith, h), rw h (omega (arith, cancelled)))

-- Let all budgets be in cents, and the baseline's total be that of its snapshot, counting one element for
-- each code. Then the variances of the elements, of which an added one counts with its budget and a
-- removed one with what it had, add up to the variance of the budget.
pub compare_cost_wbs-reconciles :
    (total : Decimal) (snapshot elements : List WbsElement) (result : BudgetResult)
    → All InCents snapshot
    → All InCents elements
    → total.den ≡ 100
    → equal total (total_bac (values (by_wbs_codes snapshot))) ≡ true
    → let r = calculate_summaries (compare_cost_wbs total snapshot elements true result) in
      equal (total_change r.wbs_variances) r.bac_variance ≡ true
unfolding compare_cost_wbs calculate_summaries
compare_cost_wbs-reconciles total snapshot elements result h g t e =
    let baseline = by_wbs_codes snapshot in
    let current = by_wbs_codes elements in
    let before = by_wbs_codes-AllInCents snapshot h in
    let now = by_wbs_codes-AllInCents elements g in
    let once_before = by_wbs_codes-IsDistinct snapshot in
    let once_now = by_wbs_codes-IsDistinct elements in
    let of_total =
      cents-IsWorth total (total_bac (values baseline)) (sum (amount baseline) (keys baseline)) t
        (total_bac-IsWorth baseline before once_before) e in
    equal-IsWorth (sum (amount current) (keys current) -ℤ sum (amount baseline) (keys baseline)) _ _
      (details-IsWorth baseline current before now once_before once_now)
      (sub-IsWorth _ _ (total_bac (values current)) total (total_bac-IsWorth current now once_now)
        of_total)
