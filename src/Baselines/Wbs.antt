-- ===== src/Baselines/Wbs.antt =====
-- services/baseline_comparison.py: the budgets of WBS elements against those of a baseline, and the whole
-- comparison. A snapshot that is empty is `none`, as both are false in the source.
use defense_pm_tool.Prelude.{
  ℕ, Bool, false, not, if◌then◌else◌, Option, none, some, List, [], ◌∷◌, ◌++◌, foldl, map, length,
}
use defense_pm_tool.Prelude.Int.{pos}
use defense_pm_tool.Prelude.Dict.{Dict, keys, values, lookup, insert}
use defense_pm_tool.Decimal.{
  Decimal, cents, whole, equal, ◌+ᴰ◌, ◌-ᴰ◌, ◌*ᴰ◌, ◌/ᴰ◌, is_positive, quantize,
}
use defense_pm_tool.Baselines.{
  Activity, ChangeType, added, removed, modified, Snapshot, minus, common,
}
use defense_pm_tool.Baselines.Compare.{ComparisonResult, pick, entries_at, compare_schedule}

-- A WBS element, or its entry in a snapshot, with its budget.
pub record WbsElement : Type 0 where
  pub id : ℕ
  pub wbs_code : ℕ
  pub budget_at_completion : Decimal

pub record WbsVariance : Type 0 where
  pub wbs_id : ℕ
  pub wbs_code : ℕ
  pub change_type : ChangeType
  pub bac_baseline : Option Decimal
  pub bac_current : Option Decimal
  pub bac_variance : Option Decimal

-- The fields of ComparisonResult that concern the budget.
pub record BudgetResult : Type 0 where
  pub total_bac_baseline : Decimal
  pub total_bac_current : Decimal
  pub bac_variance : Decimal
  pub bac_variance_percent : Decimal
  pub wbs_baseline : ℕ
  pub wbs_current : ℕ
  pub wbs_added : ℕ
  pub wbs_removed : ℕ
  pub wbs_modified : ℕ
  pub wbs_variances : List WbsVariance

abbrev pub no_budget : BudgetResult
no_budget = record {
  total_bac_baseline = cents (pos 0);
  total_bac_current = cents (pos 0);
  bac_variance = cents (pos 0);
  bac_variance_percent = cents (pos 0);
  wbs_baseline = 0;
  wbs_current = 0;
  wbs_added = 0;
  wbs_removed = 0;
  wbs_modified = 0;
  wbs_variances = [];
}

-- `{e.wbs_code: e for e in elements}`
unfoldable pub by_wbs_codes : List WbsElement → Dict WbsElement
by_wbs_codes l = foldl (λ d e. insert e.wbs_code e d) [] l

unfoldable pub total_bac : List WbsElement → Decimal
total_bac l = foldl (λ total e. total +ᴰ e.budget_at_completion) (whole 0) l

unfoldable pub budget_differs : Dict WbsElement → Dict WbsElement → ℕ → Bool
budget_differs baseline current k = elim (lookup k baseline) [
  | none ↦ false
  | some b ↦ elim (lookup k current) [
    | none ↦ false
    | some c ↦ not (equal b.budget_at_completion c.budget_at_completion)
  ]
]

abbrev pub modified_wbs : WbsElement → WbsElement → WbsVariance
modified_wbs b c = record {
  wbs_id = c.id;
  wbs_code = c.wbs_code;
  change_type = modified;
  bac_baseline = some b.budget_at_completion;
  bac_current = some c.budget_at_completion;
  bac_variance = some (c.budget_at_completion -ᴰ b.budget_at_completion);
}

abbrev pub added_wbs : WbsElement → WbsVariance
added_wbs e = record {
  wbs_id = e.id;
  wbs_code = e.wbs_code;
  change_type = added;
  bac_baseline = none;
  bac_current = some e.budget_at_completion;
  bac_variance = none;
}

abbrev pub removed_wbs : WbsElement → WbsVariance
removed_wbs e = record {
  wbs_id = e.id;
  wbs_code = e.wbs_code;
  change_type = removed;
  bac_baseline = some e.budget_at_completion;
  bac_current = none;
  bac_variance = none;
}

unfoldable pub modified_wbs_at : Dict WbsElement → Dict WbsElement → List ℕ → List WbsVariance
modified_wbs_at baseline current [] = []
modified_wbs_at baseline current (k ∷ l) =
    let rest = modified_wbs_at baseline current l in
    elim (lookup k baseline) [
      | none ↦ rest
      | some b ↦ elim (lookup k current) [ none ↦ rest | some c ↦ modified_wbs b c ∷ rest ]
    ]

unfoldable pub wbs_details :
    Dict WbsElement → Dict WbsElement → List ℕ → List ℕ → List ℕ → List WbsVariance
unfolding entries_at modified_wbs_at
wbs_details baseline current modified_codes added_codes removed_codes =
    modified_wbs_at baseline current modified_codes
    ++ map added_wbs (entries_at current added_codes)
    ++ map removed_wbs (entries_at baseline removed_codes)

-- `_compare_cost_wbs` for a snapshot that there is, with the baseline's own total.
unfoldable pub compare_cost_wbs :
    Decimal → List WbsElement → List WbsElement → Bool → BudgetResult → BudgetResult
unfolding total_bac budget_differs pick wbs_details
compare_cost_wbs total snapshot elements include_details result =
    let baseline = by_wbs_codes snapshot in
    let current = by_wbs_codes elements in
    let added_codes = minus (keys current) (keys baseline) in
    let removed_codes = minus (keys baseline) (keys current) in
    let modified_codes =
      pick (budget_differs baseline current) (common (keys baseline) (keys current)) in
    record result {
      total_bac_baseline = total;
      total_bac_current = total_bac (values current);
      wbs_baseline = length (keys baseline);
      wbs_current = length (keys current);
      wbs_added = length added_codes;
      wbs_removed = length removed_codes;
      wbs_modified = length modified_codes;
      wbs_variances =
          if include_details
          then wbs_details baseline current modified_codes added_codes removed_codes
          else [];
    }

unfoldable pub calculate_summaries : BudgetResult → BudgetResult
calculate_summaries r =
    let variance = r.total_bac_current -ᴰ r.total_bac_baseline in
    record r {
      bac_variance = variance;
      bac_variance_percent =
          if is_positive r.total_bac_baseline
          then quantize (variance /ᴰ r.total_bac_baseline *ᴰ whole 100)
          else r.bac_variance_percent;
    }

pub record Baseline : Type 0 where
  pub total_bac : Decimal
  pub schedule_snapshot : Option Snapshot
  pub cost_snapshot : Option (List WbsElement)
  pub wbs_snapshot : Option (List WbsElement)

-- `baseline.cost_snapshot or baseline.wbs_snapshot`
abbrev pub or_wbs : Option (List WbsElement) → Option (List WbsElement) → Option (List WbsElement)
or_wbs none w = w
or_wbs (some l) w = some l

abbrev pub schedule_of : Option Snapshot → List Activity → Bool → Option ComparisonResult
schedule_of none activities include_details = none
schedule_of (some s) activities include_details =
    some (compare_schedule s activities include_details)

abbrev pub budget_of : Decimal → Option (List WbsElement) → List WbsElement → Bool → BudgetResult
budget_of total none elements include_details = no_budget
budget_of total (some l) elements include_details =
    compare_cost_wbs total l elements include_details no_budget

-- The part on the schedule, `none` where all its fields keep their defaults, and the part on the budget.
unfoldable pub compare_to_current :
    Baseline → List Activity → List WbsElement → Bool → Option ComparisonResult × BudgetResult
unfolding compare_cost_wbs calculate_summaries
compare_to_current b activities elements include_details = (
  schedule_of b.schedule_snapshot activities include_details,
  calculate_summaries
      (budget_of b.total_bac (or_wbs b.cost_snapshot b.wbs_snapshot) elements include_details),
)
