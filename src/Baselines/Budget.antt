-- ===== src/Baselines/Budget.antt =====
-- services/baseline_comparison.py: the counts and the variances of the comparison of budgets.
use defense_pm_tool.Prelude.{
  ℕ, suc, ◌+◌, ◌≡◌, refl, ◌∙◌, ap, arith, true, false, not, List, [], ◌∷◌, ◌++◌, map, length,
}
use defense_pm_tool.Prelude.Dict.{Dict, keys}
use defense_pm_tool.Decimal.{Decimal}
use defense_pm_tool.Baselines.{common}
use defense_pm_tool.Baselines.Compare.{pick, entries_at}
use defense_pm_tool.Baselines.Counts.{
  IsDistinct, IsDistinct-from, length-minus, length-pick, length-common_comm, total,
}
use defense_pm_tool.Baselines.Details.{
  IsListed, lookup_of_contains, length-entries_at, here, further, length-map, length-append,
  minus-subset, pick-subset, left_of, right_of,
}
use defense_pm_tool.Baselines.Wbs.{
  WbsElement, BudgetResult, by_wbs_codes, budget_differs, added_wbs, removed_wbs, modified_wbs_at,
  wbs_details, compare_cost_wbs,
}

pub by_wbs_codes-IsDistinct : (l : List WbsElement) → IsDistinct (keys (by_wbs_codes l))
unfolding by_wbs_codes
by_wbs_codes-IsDistinct l = IsDistinct-from (λ e. e.wbs_code) l [] tt

length-modified_wbs_at :
    (baseline current : Dict WbsElement) (l : List ℕ)
    → IsListed baseline l
    → IsListed current l
    → length (modified_wbs_at baseline current l) ≡ length l
unfolding modified_wbs_at
length-modified_wbs_at baseline current [] h g = refl
length-modified_wbs_at baseline current (k ∷ l) h g =
    let (b, before) = lookup_of_contains k baseline (h k (here k l)) in
    let (c, now) = lookup_of_contains k current (g k (here k l)) in
    rw (modified_wbs_at, before, now)
      (ap suc (
        length-modified_wbs_at baseline current l (λ j e. h j (further j k l e))
          (λ j e. g j (further j k l e))))

added_up : (t s p q r a b c : ℕ) → t ≡ s + r → s ≡ p + q → p ≡ a → q ≡ b → r ≡ c → t ≡ a + b + c
added_up t s p q r a b c h k x y z = omega (arith, h, k, x, y, z)

length-wbs_details :
    (baseline current : Dict WbsElement) (a b c : List ℕ)
    → IsListed baseline a
    → IsListed current a
    → IsListed current b
    → IsListed baseline c
    → length (wbs_details baseline current a b c) ≡ length a + length b + length c
unfolding wbs_details
length-wbs_details baseline current a b c h g k m =
    let ys = map added_wbs (entries_at current b) in
    let zs = map removed_wbs (entries_at baseline c) in
    let xs = modified_wbs_at baseline current a in
    added_up (length (xs ++ ys ++ zs)) (length (xs ++ ys)) (length xs) (length ys) (length zs) _ _ _
      (length-append (xs ++ ys) zs) (length-append xs ys)
      (length-modified_wbs_at baseline current a h g)
      (length-map added_wbs (entries_at current b) ∙ length-entries_at current b k)
      (length-map removed_wbs (entries_at baseline c) ∙ length-entries_at baseline c m)

-- The elements of the program are those added, those with another budget and the rest; the elements of
-- the baseline are those removed, those with another budget and the rest. With details there is a
-- variance for each element added, removed or with another budget; without, there is none.
pub compare_cost_wbs-counts :
    (total_bac : Decimal) (snapshot elements : List WbsElement) (result : BudgetResult)
    → let r = compare_cost_wbs total_bac snapshot elements true result in
      ((rest : ℕ) × (r.wbs_added + r.wbs_modified + rest ≡ r.wbs_current)
        × (r.wbs_removed + r.wbs_modified + rest ≡ r.wbs_baseline))
      × (length r.wbs_variances ≡ r.wbs_modified + r.wbs_added + r.wbs_removed)
      × ((compare_cost_wbs total_bac snapshot elements false result).wbs_variances ≡ [])
unfolding compare_cost_wbs
compare_cost_wbs-counts total_bac snapshot elements result =
    let baseline = by_wbs_codes snapshot in
    let current = by_wbs_codes elements in
    let both = common (keys baseline) (keys current) in
    let differs = budget_differs baseline current in
    let parts = length-pick differs both in
    (
      (
        length (pick (λ k. not (differs k)) both),
        total _ _ _ _ _ _ (length-minus (keys current) (keys baseline))
            (length-common_comm (keys current) (keys baseline) (by_wbs_codes-IsDistinct elements)
              (by_wbs_codes-IsDistinct snapshot))
            parts,
        total _ _ _ _ _ _ (length-minus (keys baseline) (keys current)) refl parts,
      ),
      length-wbs_details baseline current _ _ _
          (λ k h. left_of _ _ (pick-subset k differs (keys baseline) (keys current) h))
          (λ k h. right_of _ _ (pick-subset k differs (keys baseline) (keys current) h))
          (λ k. minus-subset k (keys current) (keys baseline))
          (λ k. minus-subset k (keys baseline) (keys current)),
      refl,
    )
