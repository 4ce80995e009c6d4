-- ===== src/Baselines/Tests.antt =====
-- A baseline of three activities, of which one is gone, one is longer, and a new one has come.
use defense_pm_tool.Prelude.{none, ℕ, ◌+◌, ◌≡◌, ◌↔◌, refl, true, not, ◌&&◌, some, List, [], ◌∷◌}
use defense_pm_tool.Prelude.Int.{ℤ, pos, ◌-ℤ◌, ◌+ℤ◌, max_ℤ}
use defense_pm_tool.Prelude.Dict.{values, lookup, insert}
use defense_pm_tool.Prelude.Sort.{sort_by, insert_by}
use defense_pm_tool.Decimal.{cents, equal, ◌+ᴰ◌}
use defense_pm_tool.Baselines
use defense_pm_tool.Baselines.Compare
use defense_pm_tool.Baselines.Counts
use defense_pm_tool.Baselines.Codes
use defense_pm_tool.Baselines.Wbs
use defense_pm_tool.Baselines.Changes
use defense_pm_tool.Baselines.Reconcile
use defense_pm_tool.Baselines.Whole

abbrev activity : ℕ → ℤ → ℤ → Baselines.Activity
activity k start duration = record {
  id = 100 + k;
  code = k;
  duration = duration;
  early_start = some start;
  early_finish = some (start +ℤ duration);
  budgeted_cost = cents (pos 500);
  is_critical = true;
}

abbrev before : List Baselines.Activity
before =
    activity 1 (pos 10) (pos 5) ∷ activity 2 (pos 15) (pos 2) ∷ activity 3 (pos 17) (pos 1) ∷ []

abbrev now : List Baselines.Activity
now = activity 1 (pos 10) (pos 5) ∷ activity 3 (pos 15) (pos 4) ∷ activity 4 (pos 19) (pos 1) ∷ []

abbrev snapshot : Baselines.Snapshot
snapshot = record {
  activities = before;
  critical_path_ids = 101 ∷ 102 ∷ 103 ∷ [];
  project_finish = some (pos 18);
}

modified_codes : (Compare.compare_schedule snapshot now true).modified_activity_codes ≡ 3 ∷ []
unfolding Compare.compare_schedule Compare.pick Compare.is_modified Baselines.by_codes
    Baselines.common Baselines.contains Baselines.activity_modified Baselines.differ lookup insert
    sort_by insert_by equal ◌+ℤ◌
modified_codes = refl

finish_slips : (Compare.compare_schedule snapshot now true).schedule_variance_days ≡ pos 2
unfolding Compare.compare_schedule Compare.latest_early_finish Baselines.by_codes
    Baselines.days_between insert ◌+ℤ◌ ◌-ℤ◌ max_ℤ
finish_slips = refl

compare_schedule-counts_example :
    let r = Compare.compare_schedule snapshot now true in
    (r.activities_added + r.activities_modified + r.activities_unchanged ≡ r.activities_current)
    × (r.activities_removed + r.activities_modified + r.activities_unchanged
        ≡ r.activities_baseline)
compare_schedule-counts_example = Counts.compare_schedule-counts snapshot now true

compare_schedule-lists_example :
    let r = Compare.compare_schedule snapshot now true in
    let here = Counts.has_code 3 before in
    let there = Counts.has_code 3 now in
    (Codes.lists 3 r.added_activity_codes ≡ (there && not here))
    × (Codes.lists 3 r.removed_activity_codes ≡ (here && not there))
    × ((Codes.lists 3 r.modified_activity_codes ≡ true) ↔ (
        (b : Baselines.Activity) × (c : Baselines.Activity) × (Codes.last_with 3 before ≡ some b)
        × (Codes.last_with 3 now ≡ some c)
        × ¬ Codes.IsSame b c))
compare_schedule-lists_example = Codes.compare_schedule-lists snapshot now true 3

abbrev element : ℕ → ℤ → Wbs.WbsElement
element k budget = record { id = 200 + k; wbs_code = k; budget_at_completion = cents budget }

abbrev elements : List Wbs.WbsElement
elements = element 1 (pos 50000) ∷ element 2 (pos 70000) ∷ []

abbrev baseline : Wbs.Baseline
baseline = record {
  total_bac = cents (pos 120000);
  schedule_snapshot = some snapshot;
  cost_snapshot = none;
  wbs_snapshot = some elements;
}

same_total : equal (cents (pos 120000)) (Wbs.total_bac (values (Wbs.by_wbs_codes elements))) ≡ true
unfolding equal Wbs.total_bac Wbs.by_wbs_codes insert ◌+ᴰ◌ ◌+ℤ◌
same_total = refl

compare_to_current-unchanged_example :
    let (schedule, budget) = Wbs.compare_to_current baseline before elements true in
    ((r : Compare.ComparisonResult) × (schedule ≡ some r) × Whole.IsSameSchedule r)
    × Whole.IsSameBudget budget
compare_to_current-unchanged_example =
    Whole.compare_to_current-unchanged baseline snapshot before elements true refl refl refl
      same_total

-- The first element is gone, the second costs more, and a third has come.
abbrev later : List Wbs.WbsElement
later = element 2 (pos 80000) ∷ element 3 (pos 10000) ∷ []

one_modified :
    (Wbs.compare_cost_wbs (cents (pos 120000)) elements later true Wbs.no_budget).wbs_modified ≡ 1
unfolding Wbs.compare_cost_wbs Wbs.by_wbs_codes Wbs.budget_differs Compare.pick Baselines.common
    Baselines.contains lookup insert equal
one_modified = refl

-- 500.00 are gone, 100.00 more are asked for the second and 100.00 for the third.
compare_cost_wbs-reconciles_example :
    let r =
      Wbs.calculate_summaries
        (Wbs.compare_cost_wbs (cents (pos 120000)) elements later true Wbs.no_budget) in
    equal (Changes.total_change r.wbs_variances) r.bac_variance ≡ true
compare_cost_wbs-reconciles_example =
    Reconcile.compare_cost_wbs-reconciles (cents (pos 120000)) elements later Wbs.no_budget
      (refl, (refl, tt)) (refl, (refl, tt)) refl same_total
