-- ===== src/Variance/Tests.antt =====
-- Two WBS elements, of which the second is behind its plan and above its budget.
use defense_pm_tool.Prelude.{ℕ, ◌+◌, ◌≡◌, refl, leb, none, List, [], ◌∷◌, All, length, map}
use defense_pm_tool.Prelude.Int.{ℤ, pos, negsuc, ◌+ℤ◌, ◌-ℤ◌, ◌*ℤ◌}
use defense_pm_tool.Prelude.Sort.{any, IsSorted, sort_by, insert_by}
use defense_pm_tool.Decimal.{cents, ◌*ᴰ◌, ◌/ᴰ◌, hundredths_even, half_even, less}
use defense_pm_tool.Variance
use defense_pm_tool.Variance.Alerts
use defense_pm_tool.Variance.Breach
use defense_pm_tool.Variance.Analyze
use defense_pm_tool.Variance.Counts

abbrev period : ℕ → ℤ → ℤ → Variance.Period
period k sv cv = record {
  wbs_id = k;
  period_name = 1;
  cumulative_bcws = cents (pos 100000);
  sv = cents sv;
  cv = cents cv;
}

abbrev thresholds : Variance.VarianceThresholds
thresholds = Variance.default_thresholds

abbrev period_data : List Variance.Period
period_data = period 1 (pos 2000) (pos 3000) ∷ period 2 (negsuc 11999) (negsuc 29999) ∷ []

abbrev history : List Variance.Period
history = period 2 (pos 0) (negsuc 9999) ∷ period 2 (negsuc 999) (negsuc 19999) ∷ []

alerts :
    map {B = ℕ × ℤ × Variance.VarianceSeverity}
      (λ a. (a.wbs_id, a.variance_percent, a.severity))
      (Variance.detect_significant_variances thresholds period_data none [])
    ≡ (2, negsuc 2999, Variance.critical) ∷ (2, negsuc 1199, Variance.significant) ∷ []
unfolding Variance.detect_significant_variances Variance.alerts_for Variance.alert_if Variance.alert
    Variance.percent Variance.variance_of Variance.classify_severity Variance.comes_first
    Variance.threshold_or sort_by insert_by hundredths_even half_even ◌*ᴰ◌ ◌/ᴰ◌ ◌*ℤ◌
alerts = refl

trend :
    (Variance.build_variance_trend thresholds 2 Variance.cost history none).trend_direction
    ≡ Variance.worsening
unfolding Variance.build_variance_trend Variance.calculate_trend Variance.direction
    Variance.sum_changes Variance.last_few Variance.percent_of Variance.percent Variance.variance_of
    hundredths_even half_even less ◌*ᴰ◌ ◌/ᴰ◌ ◌*ℤ◌ ◌-ℤ◌ ◌+ℤ◌
trend = refl

detect_significant_variances-exact_example :
    let found = Variance.detect_significant_variances thresholds period_data none [] in
    let threshold = Variance.threshold_or none 1000 in
    ((k : ℕ) (t : Variance.VarianceType)
      → any (Alerts.is_about k t) found ≡ any (Alerts.is_due threshold k t) period_data)
    × All (Alerts.IsSound thresholds threshold) found
    × IsSorted Alerts.no_smaller found
detect_significant_variances-exact_example =
    Alerts.detect_significant_variances-exact thresholds period_data none []

has_run-periods_in_breach_example :
    let found = Variance.build_variance_trend thresholds 2 Variance.cost history none in
    Breach.has_run (Variance.threshold_or none 1000) 2 found.percentages
    ≡ leb 2 found.periods_in_breach
has_run-periods_in_breach_example =
    Breach.has_run-periods_in_breach thresholds 2 Variance.cost history none 2

analyze_program_variances-counts_example :
    let r =
      Analyze.analyze_program_variances (λ ids. ids) thresholds period_data ((2, history) ∷ []) in
    let n = length (Variance.detect_significant_variances thresholds period_data none []) in
    (length r.alerts ≡ n)
    × (r.critical_count + r.significant_count + r.moderate_count + r.minor_count ≡ n)
    × (r.schedule_variance_count + r.cost_variance_count ≡ n)
    × (r.explanations_required ≡ n)
    × (r.explanations_provided ≡ 0)
analyze_program_variances-counts_example =
    Counts.analyze_program_variances-counts (λ ids. ids) thresholds period_data ((2, history) ∷ [])
