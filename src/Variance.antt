-- ===== src/Variance.antt =====
-- services/variance_analysis.py: alerts for variances beyond a threshold, and their trend. A percentage
-- is a whole number of hundredths, as `quantize` leaves it; thresholds are too. The codes and names of
-- WBS elements are left out, and a period's name is a number.
pub mod Analyze
pub mod Severity
pub mod Alerts
pub mod Breach
pub mod Counts
mod Tests
use defense_pm_tool.Prelude.{
  ℕ, zero, suc, ◌+◌, ◌-◌, Bool, true, false, not, ◌&&◌, ◌==◌, leb, ltb, if◌then◌else◌, Option, none,
  some, List, [], ◌∷◌, ◌++◌, foldl, map, length,
}
use defense_pm_tool.Prelude.Int.{ℤ, pos, ◌+ℤ◌, ◌-ℤ◌, ltb_ℤ, eqb_ℤ}
use defense_pm_tool.Prelude.Dict.{Dict, lookup}
use defense_pm_tool.Prelude.Sort.{sort_by}
use defense_pm_tool.Decimal.{
  Decimal, whole, cents, abs_ℤ, ◌*ᴰ◌, ◌/ᴰ◌, hundredths_even, is_positive, less,
}

pub data VarianceType : Type 0 where
  schedule : VarianceType
  cost : VarianceType

pub data VarianceSeverity : Type 0 where
  minor : VarianceSeverity
  moderate : VarianceSeverity
  significant : VarianceSeverity
  critical : VarianceSeverity

pub data TrendDirection : Type 0 where
  improving : TrendDirection
  stable : TrendDirection
  worsening : TrendDirection

pub record VarianceAlert : Type 0 where
  pub wbs_id : ℕ
  pub variance_type : VarianceType
  pub variance_amount : Decimal
  pub variance_percent : ℤ
  pub severity : VarianceSeverity
  pub period_name : ℕ
  pub trend : TrendDirection
  pub explanation_required : Bool
  pub existing_explanation : Option ℕ

pub record VarianceTrend : Type 0 where
  pub wbs_id : ℕ
  pub variance_type : VarianceType
  pub periods : List ℕ
  pub values : List Decimal
  pub percentages : List ℤ
  pub trend_direction : TrendDirection
  pub periods_in_breach : ℕ

pub record VarianceThresholds : Type 0 where
  pub minor_threshold : ℕ
  pub moderate_threshold : ℕ
  pub significant_threshold : ℕ
  pub explanation_required_threshold : ℕ

abbrev pub default_thresholds : VarianceThresholds
default_thresholds = record {
  minor_threshold = 500;
  moderate_threshold = 1000;
  significant_threshold = 1500;
  explanation_required_threshold = 1000;
}

-- A row of `period_data` or of a history.
pub record Period : Type 0 where
  pub wbs_id : ℕ
  pub period_name : ℕ
  pub cumulative_bcws : Decimal
  pub sv : Decimal
  pub cv : Decimal

-- `threshold_percent or ...`, for which 0 is as good as none.
unfoldable pub threshold_or : Option ℕ → ℕ → ℕ
threshold_or none d = d
threshold_or (some t) d = if t == 0 then d else t

unfoldable pub variance_of : VarianceType → Period → Decimal
variance_of schedule p = p.sv
variance_of cost p = p.cv

-- `(variance / bcws * 100).quantize(Decimal("0.01"))`
unfoldable pub percent : Decimal → Decimal → ℤ
percent variance bcws = hundredths_even (variance /ᴰ bcws *ᴰ whole 100)

-- The changes from one value to the next, added up.
unfoldable pub sum_changes : List ℤ → ℤ
sum_changes [] = pos 0
sum_changes (x ∷ []) = pos 0
sum_changes (x ∷ y ∷ l) = (y -ℤ x) +ℤ sum_changes (y ∷ l)

-- `variance_history[-window:]`, for a window of 1 or more
unfoldable pub last_few : ℕ → List ℤ → List ℤ
last_few window [] = []
last_few window (x ∷ l) = if leb (length (x ∷ l)) window then x ∷ l else last_few window l

-- The direction for the recent values.
unfoldable pub direction : List ℤ → TrendDirection
unfolding sum_changes
direction recent =
    let changes = length recent - 1 in
    let average = cents (sum_changes recent) /ᴰ whole changes in
    if changes == 0
    then stable
    else (if less (cents (pos 50)) average
        then improving
        else (if less average (cents (pos 0 -ℤ pos 50)) then worsening else stable))

unfoldable pub calculate_trend : List ℤ → ℕ → TrendDirection
unfolding last_few direction
calculate_trend variance_history window =
    if ltb (length variance_history) 2 then stable else direction (last_few window variance_history)

unfoldable pub percent_of : VarianceType → Period → ℤ
unfolding percent variance_of
percent_of t p =
    if is_positive p.cumulative_bcws then percent (variance_of t p) p.cumulative_bcws else pos 0

abbrev pub is_breach : ℕ → ℤ → Bool
is_breach threshold x = leb threshold (abs_ℤ x)

-- `consecutive_breach` after the loop, from it and `current_breach_count`
unfoldable pub longest_breach : ℕ → ℕ → ℕ → List ℤ → ℕ
longest_breach threshold consecutive current [] = consecutive
longest_breach threshold consecutive current (x ∷ l) =
    let reset = longest_breach threshold consecutive 0 l in
    let more =
      longest_breach threshold (if ltb consecutive (suc current) then suc current else consecutive)
        (suc current) l in
    if is_breach threshold x then more else reset

-- `severity_order`
abbrev pub severity_order : VarianceSeverity → ℕ
severity_order critical = 0
severity_order significant = 1
severity_order moderate = 2
severity_order minor = 3

-- The key `(severity_order[a.severity], -abs(a.variance_percent))` is no greater.
unfoldable pub comes_first : VarianceAlert → VarianceAlert → Bool
comes_first a b =
    if severity_order a.severity == severity_order b.severity
    then leb (abs_ℤ b.variance_percent) (abs_ℤ a.variance_percent)
    else ltb (severity_order a.severity) (severity_order b.severity)

module _ (thresholds : VarianceThresholds) where
  unfoldable pub classify_severity : ℤ → VarianceSeverity
  classify_severity x =
      if ltb (abs_ℤ x) thresholds.minor_threshold
      then minor
      else (if ltb (abs_ℤ x) thresholds.moderate_threshold
          then moderate
          else (if ltb (abs_ℤ x) thresholds.significant_threshold then significant else critical))

  unfoldable pub requires_explanation : ℤ → Bool
  requires_explanation x = leb thresholds.explanation_required_threshold (abs_ℤ x)

  unfoldable pub build_variance_trend : ℕ → VarianceType → List Period → Option ℕ → VarianceTrend
  unfolding percent_of longest_breach calculate_trend threshold_or
  build_variance_trend wbs_id t history threshold_percent =
      let percentages = map (percent_of t) history in
      record {
        wbs_id = wbs_id;
        variance_type = t;
        periods = map (λ p. p.period_name) history;
        values = map (variance_of t) history;
        percentages = percentages;
        trend_direction = calculate_trend percentages 3;
        periods_in_breach =
            longest_breach
              (threshold_or threshold_percent thresholds.explanation_required_threshold) 0 0
              percentages;
      }

  -- The trend of an element that has a history.
  unfoldable pub trend_of : VarianceType → ℕ → Option (List Period) → TrendDirection
  unfolding build_variance_trend
  trend_of t k none = stable
  trend_of t k (some history) = (build_variance_trend k t history none).trend_direction

  unfoldable pub alert : Dict (List Period) → VarianceType → Period → VarianceAlert
  unfolding classify_severity requires_explanation trend_of
  alert historical_data t p =
      let x = percent (variance_of t p) p.cumulative_bcws in
      record {
        wbs_id = p.wbs_id;
        variance_type = t;
        variance_amount = variance_of t p;
        variance_percent = x;
        severity = classify_severity x;
        period_name = p.period_name;
        trend = trend_of t p.wbs_id (lookup p.wbs_id historical_data);
        explanation_required = requires_explanation x;
        existing_explanation = none;
      }

  -- The alert of one type, if the variance reaches the threshold, before `rest`.
  unfoldable pub alert_if :
      Dict (List Period) → ℕ → VarianceType → Period → List VarianceAlert → List VarianceAlert
  unfolding alert
  alert_if historical_data threshold t p rest =
      if is_breach threshold (percent (variance_of t p) p.cumulative_bcws)
      then alert historical_data t p ∷ rest
      else rest

  unfoldable pub alerts_for : Dict (List Period) → ℕ → List Period → List VarianceAlert
  unfolding alert_if
  alerts_for historical_data threshold [] = []
  alerts_for historical_data threshold (p ∷ l) =
      let rest = alerts_for historical_data threshold l in
      if is_positive p.cumulative_bcws
      then alert_if historical_data threshold schedule p
          (alert_if historical_data threshold cost p rest)
      else rest

  unfoldable pub detect_significant_variances :
      List Period → Option ℕ → Dict (List Period) → List VarianceAlert
  unfolding alerts_for comes_first threshold_or
  detect_significant_variances period_data threshold_percent historical_data = sort_by comes_first (
      alerts_for historical_data
        (threshold_or threshold_percent thresholds.explanation_required_threshold) period_data)
