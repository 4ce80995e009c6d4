-- ===== src/Variance/Analyze.antt =====
-- services/variance_analysis.py: the analysis of a program, with the counts of its alerts.
use defense_pm_tool.Prelude.{
  ℕ, suc, Bool, true, false, ◌&&◌, ◌==◌, if◌then◌else◌, Option, none, some, List, [], ◌∷◌, ◌++◌,
  foldl, map, length,
}
use defense_pm_tool.Prelude.Dict.{Dict, lookup}
use defense_pm_tool.Variance.{
  VarianceType, schedule, cost, VarianceSeverity, minor, moderate, significant, critical,
  VarianceAlert, VarianceTrend, VarianceThresholds, Period, build_variance_trend,
  detect_significant_variances,
}

pub record VarianceAnalysisResult : Type 0 where
  pub total_wbs_analyzed : ℕ
  pub alerts : List VarianceAlert
  pub trends : List VarianceTrend
  pub critical_count : ℕ
  pub significant_count : ℕ
  pub moderate_count : ℕ
  pub minor_count : ℕ
  pub schedule_variance_count : ℕ
  pub cost_variance_count : ℕ
  pub explanations_required : ℕ
  pub explanations_provided : ℕ

abbrev pub is_type : VarianceType → VarianceType → Bool
is_type schedule schedule = true
is_type schedule cost = false
is_type cost schedule = false
is_type cost cost = true

abbrev pub is_severity : VarianceSeverity → VarianceSeverity → Bool
is_severity minor minor = true
is_severity moderate moderate = true
is_severity significant significant = true
is_severity critical critical = true
is_severity x y = false

abbrev pub is_some : Option ℕ → Bool
is_some none = false
is_some (some x) = true

-- `sum(1 for a in alerts if ...)`
unfoldable pub count : (VarianceAlert → Bool) → List VarianceAlert → ℕ
count p [] = 0
count p (a ∷ l) = let rest = count p l in if p a then suc rest else rest

unfoldable pub set_add : List ℕ → ℕ → List ℕ
set_add [] k = k ∷ []
set_add (x ∷ l) k = if x == k then x ∷ l else x ∷ set_add l k

-- `alert.trend = trend.trend_direction` for the alerts of the element and the type.
unfoldable pub set_trend : VarianceTrend → VarianceAlert → VarianceAlert
set_trend t a =
    if (a.wbs_id == t.wbs_id) && is_type a.variance_type t.variance_type
    then record a { trend = t.trend_direction }
    else a

-- The trends so far, and the alerts with their trends.
abbrev pub Found : Type 0
Found = List VarianceTrend × List VarianceAlert

-- `if trend.values`
unfoldable pub add_trend : VarianceTrend → Found → Found
unfolding set_trend
add_trend t found = elim t.values [
  | [] ↦ found
  | x ∷ l ↦ (found.0 ++ (t ∷ []), map (set_trend t) found.1)
]

-- The rounds of the loop over the elements; the loop over the types is written out.
unfoldable pub add_trends : VarianceThresholds → ℕ → Option (List Period) → Found → Found
unfolding add_trend
add_trends thresholds k none found = found
add_trends thresholds k (some history) found =
    add_trend (build_variance_trend thresholds k cost history none)
      (add_trend (build_variance_trend thresholds k schedule history none) found)

unfoldable pub counted : ℕ → Found → VarianceAnalysisResult
unfolding count
counted n found = record {
  total_wbs_analyzed = n;
  alerts = found.1;
  trends = found.0;
  critical_count = count (λ a. is_severity a.severity critical) found.1;
  significant_count = count (λ a. is_severity a.severity significant) found.1;
  moderate_count = count (λ a. is_severity a.severity moderate) found.1;
  minor_count = count (λ a. is_severity a.severity minor) found.1;
  schedule_variance_count = count (λ a. is_type a.variance_type schedule) found.1;
  cost_variance_count = count (λ a. is_type a.variance_type cost) found.1;
  explanations_required = count (λ a. a.explanation_required) found.1;
  explanations_provided = count (λ a. is_some a.existing_explanation) found.1;
}

-- `set_order` is the order in which the set of the alerts' elements is gone through.
unfoldable pub analyze_program_variances :
    (List ℕ → List ℕ)
    → VarianceThresholds
    → List Period
    → Dict (List Period)
    → VarianceAnalysisResult
unfolding set_add add_trends counted
analyze_program_variances set_order thresholds period_data historical_data =
    let alerts = detect_significant_variances thresholds period_data none [] in
    let ids = set_order (foldl (λ l a. set_add l a.wbs_id) [] alerts) in
    counted (length period_data)
      (foldl (λ found k. add_trends thresholds k (lookup k historical_data) found) ([], alerts) ids)
