-- ===== src/Variance/Alerts.antt =====
-- services/variance_analysis.py: the alerts that the detection gives.
use defense_pm_tool.Prelude.{
  ℕ, ◌≡◌, ◌≤◌, refl, ◌∙◌, ap, arith, Bool, true, false, ◌&&◌, ◌||◌, ◌==◌, leb, ltb, if◌then◌else◌,
  Option, none, List, [], ◌∷◌, All, Bool-cases, inl, inr,
}
use defense_pm_tool.Prelude.Dict.{Dict}
use defense_pm_tool.Prelude.Sort.{
  any, any-sort_by, All-sort_by, sort_by, IsSorted, IsSortedFrom, sort_by-IsSorted,
}
use defense_pm_tool.Decimal.{abs_ℤ, is_positive}
use defense_pm_tool.Variance.{
  VarianceType, schedule, cost, VarianceAlert, VarianceThresholds, Period, percent, variance_of,
  is_breach, classify_severity, requires_explanation, alert, alert_if, alerts_for, severity_order,
  comes_first, threshold_or, detect_significant_variances,
}
use defense_pm_tool.Variance.Analyze.{is_type}
use defense_pm_tool.Variance.Severity.{classify_severity-antitone}

-- The alert is of an element and a type.
abbrev pub is_about : ℕ → VarianceType → VarianceAlert → Bool
is_about k t a = (a.wbs_id == k) && is_type a.variance_type t

-- The row is of the element, has a planned value, and the variance of the type reaches the threshold.
abbrev pub is_due : ℕ → ℕ → VarianceType → Period → Bool
is_due threshold k t p =
    (p.wbs_id == k)
    && (is_positive p.cumulative_bcws
        && is_breach threshold (percent (variance_of t p) p.cumulative_bcws))

-- The first is no smaller than the second, in absolute value.
abbrev pub no_smaller : VarianceAlert → VarianceAlert → Bool
no_smaller a b = leb (abs_ℤ b.variance_percent) (abs_ℤ a.variance_percent)

and_true : (a r : Bool) → (a || r) ≡ ((a && true) || r)
and_true a r = ground arith

and_false : (a r : Bool) → r ≡ ((a && false) || r)
and_false a r = ground arith

not_due : (k r : Bool) → r ≡ ((k && false) || r)
not_due k r = ground arith

schedule_only :
    (k s c r : Bool) → (((k && true) && s) || (((k && false) && c) || r)) ≡ ((k && s) || r)
schedule_only k s c r = ground arith

cost_only : (k s c r : Bool) → (((k && false) && s) || (((k && true) && c) || r)) ≡ ((k && c) || r)
cost_only k s c r = ground arith

-- Of the two alerts of a row one is of the type.
of_type :
    (k : Bool) (reached : VarianceType → Bool) (t : VarianceType) (r : Bool)
    → (((k && is_type schedule t) && reached schedule)
        || (((k && is_type cost t) && reached cost) || r))
      ≡ ((k && reached t) || r)
of_type k reached schedule r = schedule_only k (reached schedule) (reached cost) r
of_type k reached cost r = cost_only k (reached schedule) (reached cost) r

-- Of two keys in order, the percentages are, since a larger percentage has no greater severity order.
key_order :
    (o p x y : ℕ) → (if o == p then leb y x else ltb o p) ≡ true → (x ≤ y → p ≤ o) → leb y x ≡ true
key_order o p x y h k = elim (Bool-cases (leb y x)) [
  | inl e ↦ e
  | inr e ↦ let g = k (ground arith) in ground arith
]

module _ (thresholds : VarianceThresholds) (threshold : ℕ) where
  -- An alert as it should be.
  abbrev pub IsSound : VarianceAlert → Type 0
  IsSound a =
      (a.severity ≡ classify_severity thresholds a.variance_percent)
      × (a.explanation_required ≡ requires_explanation thresholds a.variance_percent)
      × (is_breach threshold a.variance_percent ≡ true)
      × (a.existing_explanation ≡ none)

  abbrev reaches : Period → VarianceType → Bool
  reaches p t = is_breach threshold (percent (variance_of t p) p.cumulative_bcws)

  module _ (historical_data : Dict (List Period)) where
    alert-IsSound :
        (t : VarianceType) (p : Period)
        → is_breach threshold (percent (variance_of t p) p.cumulative_bcws) ≡ true
        → IsSound (alert thresholds historical_data t p)
    unfolding alert
    alert-IsSound t p h = (refl, refl, h, refl)

    alert_if-IsSound :
        (t : VarianceType) (p : Period) (rest : List VarianceAlert)
        → All IsSound rest
        → All IsSound (alert_if thresholds historical_data threshold t p rest)
    unfolding alert_if
    alert_if-IsSound t p rest h =
        elim (Bool-cases (is_breach threshold (percent (variance_of t p) p.cumulative_bcws))) [
          | inl e ↦ rw e (alert-IsSound t p e, h)
          | inr e ↦ rw e h
        ]

    alerts_for-IsSound :
        (l : List Period) → All IsSound (alerts_for thresholds historical_data threshold l)
    unfolding alerts_for
    alerts_for-IsSound [] = tt
    alerts_for-IsSound (p ∷ l) = elim (Bool-cases (is_positive p.cumulative_bcws)) [
      | inl e ↦
          rw e (alert_if-IsSound schedule p _ (alert_if-IsSound cost p _ (alerts_for-IsSound l)))
      | inr e ↦ rw e (alerts_for-IsSound l)
    ]

    alert_if-any :
        (k : ℕ) (t u : VarianceType) (p : Period) (rest : List VarianceAlert)
        → any (is_about k t) (alert_if thresholds historical_data threshold u p rest) ≡ (
            (((p.wbs_id == k) && is_type u t)
              && is_breach threshold (percent (variance_of u p) p.cumulative_bcws))
            || any (is_about k t) rest)
    unfolding alert_if alert
    alert_if-any k t u p rest =
        elim (Bool-cases (is_breach threshold (percent (variance_of u p) p.cumulative_bcws))) [
          | inl e ↦ rw e (and_true ((p.wbs_id == k) && is_type u t) (any (is_about k t) rest))
          | inr e ↦ rw e (and_false ((p.wbs_id == k) && is_type u t) (any (is_about k t) rest))
        ]

    alerts_for-any :
        (k : ℕ) (t : VarianceType) (l : List Period)
        → any (is_about k t) (alerts_for thresholds historical_data threshold l)
          ≡ any (is_due threshold k t) l
    unfolding alerts_for
    alerts_for-any k t [] = refl
    alerts_for-any k t (p ∷ l) = elim (Bool-cases (is_positive p.cumulative_bcws)) [
      | inl e ↦ rw e (
          alert_if-any k t schedule p _
          ∙ ap (λ b. (((p.wbs_id == k) && is_type schedule t) && reaches p schedule) || b)
              (alert_if-any k t cost p _
                ∙ ap (λ b. (((p.wbs_id == k) && is_type cost t) && reaches p cost) || b)
                    (alerts_for-any k t l))
          ∙ of_type (p.wbs_id == k) (reaches p) t (any (is_due threshold k t) l))
      | inr e ↦ rw e (alerts_for-any k t l ∙ not_due (p.wbs_id == k) _)
    ]

comes_first-total : (a b : VarianceAlert) → comes_first a b ≡ false → comes_first b a ≡ true
unfolding comes_first
comes_first-total a b h = ground arith

-- Sound alerts in the order of the sort stand in the order of the percentages.
in_order :
    (thresholds : VarianceThresholds) (threshold : ℕ) (a b : VarianceAlert)
    → IsSound thresholds threshold a
    → IsSound thresholds threshold b
    → comes_first a b ≡ true
    → no_smaller a b ≡ true
unfolding comes_first
in_order thresholds threshold a b h k first =
    key_order (severity_order a.severity) (severity_order b.severity) (abs_ℤ a.variance_percent)
      (abs_ℤ b.variance_percent) first
      λ le.
        rw (h.0, k.0)
          (classify_severity-antitone thresholds a.variance_percent b.variance_percent le)

IsSortedFrom-no_smaller :
    (thresholds : VarianceThresholds) (threshold : ℕ) (a : VarianceAlert) (l : List VarianceAlert)
    → IsSound thresholds threshold a
    → All (IsSound thresholds threshold) l
    → IsSortedFrom comes_first a l
    → IsSortedFrom no_smaller a l
IsSortedFrom-no_smaller thresholds threshold a [] h k sorted = tt
IsSortedFrom-no_smaller thresholds threshold a (b ∷ l) h k sorted = (
  in_order thresholds threshold a b h k.0 sorted.0,
  IsSortedFrom-no_smaller thresholds threshold b l k.0 k.1 sorted.1,
)

IsSorted-no_smaller :
    (thresholds : VarianceThresholds) (threshold : ℕ) (l : List VarianceAlert)
    → All (IsSound thresholds threshold) l
    → IsSorted comes_first l
    → IsSorted no_smaller l
IsSorted-no_smaller thresholds threshold [] k sorted = tt
IsSorted-no_smaller thresholds threshold (a ∷ l) k sorted =
    IsSortedFrom-no_smaller thresholds threshold a l k.0 k.1 sorted

-- Whatever the thresholds, an element gets an alert of a type just if one of its rows has a planned
-- value above 0 and a variance of that type that reaches the threshold. Every alert has the severity
-- and the need of an explanation that its percentage asks for, reaches the threshold, and has no
-- explanation yet. The alerts stand from the largest percentage, in absolute value, to the smallest.
pub detect_significant_variances-exact :
    (thresholds : VarianceThresholds) (period_data : List Period) (threshold_percent : Option ℕ)
    (historical_data : Dict (List Period))
    → let alerts =
        detect_significant_variances thresholds period_data threshold_percent historical_data in
      let threshold = threshold_or threshold_percent thresholds.explanation_required_threshold in
      ((k : ℕ) (t : VarianceType)
        → any (is_about k t) alerts ≡ any (is_due threshold k t) period_data)
      × All (IsSound thresholds threshold) alerts
      × IsSorted no_smaller alerts
unfolding detect_significant_variances
detect_significant_variances-exact thresholds period_data threshold_percent historical_data =
    let threshold = threshold_or threshold_percent thresholds.explanation_required_threshold in
    let found = alerts_for thresholds historical_data threshold period_data in
    let sound =
      All-sort_by comes_first (IsSound thresholds threshold) found
        (alerts_for-IsSound thresholds threshold historical_data period_data) in
    (
      λ k t.
          any-sort_by comes_first (is_about k t) found
          ∙ alerts_for-any thresholds threshold historical_data k t period_data,
      sound,
      IsSorted-no_smaller thresholds threshold (sort_by comes_first found) sound
          (sort_by-IsSorted comes_first comes_first-total found),
    )
