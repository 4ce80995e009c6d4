-- ===== src/Variance/Severity.antt =====
-- services/variance_analysis.py: severities and percentages rank alike.
use defense_pm_tool.Prelude.{ℕ, ◌≡◌, ◌≤◌, arith, ltb, if◌then◌else◌}
use defense_pm_tool.Prelude.Int.{ℤ}
use defense_pm_tool.Decimal.{abs_ℤ}
use defense_pm_tool.Variance.{VarianceThresholds, classify_severity, severity_order}

abbrev order_for : ℕ → ℕ → ℕ → ℕ → ℕ
order_for a x y z = if ltb a x then 3 else (if ltb a y then 2 else (if ltb a z then 1 else 0))

order_of :
    (thresholds : VarianceThresholds) (x : ℤ)
    → severity_order (classify_severity thresholds x)
      ≡ order_for
          (abs_ℤ x)
          thresholds.minor_threshold
          thresholds.moderate_threshold
          thresholds.significant_threshold
unfolding classify_severity
order_of thresholds x = ground arith

order_for-antitone : (a b x y z : ℕ) → a ≤ b → order_for b x y z ≤ order_for a x y z
order_for-antitone a b x y z h = ground arith

-- Whatever the thresholds, the larger of two percentages, in absolute value, is at least as severe.
pub classify_severity-antitone :
    (thresholds : VarianceThresholds) (a b : ℤ)
    → abs_ℤ a ≤ abs_ℤ b
    → severity_order (classify_severity thresholds b)
      ≤ severity_order (classify_severity thresholds a)
classify_severity-antitone thresholds a b h =
    rw (order_of thresholds a, order_of thresholds b)
      (order_for-antitone (abs_ℤ a) (abs_ℤ b) thresholds.minor_threshold
        thresholds.moderate_threshold thresholds.significant_threshold h)
