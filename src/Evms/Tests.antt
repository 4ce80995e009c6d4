-- ===== src/Evms/Tests.antt =====
-- Programs at concrete figures.
use defense_pm_tool.Prelude.{◌≡◌, refl, false, some, none, [], ◌∷◌, map, arith}
use defense_pm_tool.Prelude.Int.{◌*ℤ◌, pos, ◌-ℤ◌}
use defense_pm_tool.Decimal.{cents, ◌/ᴰ◌, hundredths_up, half_up}
use defense_pm_tool.Evms
use defense_pm_tool.Evms.Balance
use defense_pm_tool.Evms.Methods
use defense_pm_tool.Evms.Earned

-- 400.00 earned and 500.00 spent of 1,000.00: the cost index is 0.80.
estimate :
    Evms.calculate_eac (cents (pos 100000)) (cents (pos 50000)) (cents (pos 40000)) Evms.by_cpi
    ≡ some (cents (pos 125000))
unfolding Evms.calculate_eac Evms.usable Evms.calculate_cpi hundredths_up half_up ◌/ᴰ◌ ◌*ℤ◌
estimate = refl

calculate_eac_advanced-IsBalanced_example :
    Balance.WhenOk (pos 50000) (pos 100000) (Balance.IsBalanced (pos 50000) (pos 100000)) (
      Evms.calculate_eac_advanced
        (cents (pos 60000))
        (cents (pos 40000))
        (cents (pos 50000))
        (cents (pos 100000))
        Evms.mathematical
        none)
calculate_eac_advanced-IsBalanced_example =
    Balance.calculate_eac_advanced-IsBalanced (pos 50000) (pos 100000) (pos 60000) (pos 40000)
      Evms.mathematical none

calculate_all_eac_methods-applicable_example :
    let results =
      Evms.calculate_all_eac_methods
        (cents (pos 60000))
        (cents (pos 40000))
        (cents (pos 50000))
        (cents (pos 100000))
        none in
    let methods =
      Evms.cpi ∷ Evms.typical ∷ Evms.mathematical ∷ Evms.comprehensive ∷ Evms.composite ∷ [] in
    (map (λ r. Evms.ok r) results
      ≡ map
          (λ method.
            Evms.calculate_eac_advanced
              (cents (pos 60000))
              (cents (pos 40000))
              (cents (pos 50000))
              (cents (pos 100000))
              method
              none)
          methods)
    × (map (λ r. r.method) results ≡ methods)
unfolding Evms.usable Evms.calculate_cpi Evms.calculate_spi hundredths_up half_up ◌/ᴰ◌ ◌*ℤ◌
calculate_all_eac_methods-applicable_example =
    Methods.calculate_all_eac_methods-applicable (cents (pos 60000)) (cents (pos 40000))
      (cents (pos 50000)) (cents (pos 100000)) none

calculate_earned_value-IsWithin_example :
    Earned.IsWithin
      (Evms.calculate_earned_value
        (cents (pos 33333))
        (cents (pos 3333))
        Evms.percent_complete
        false)
      (cents (pos 33333))
calculate_earned_value-IsWithin_example =
    Earned.calculate_earned_value-IsWithin 33333 3333 Evms.percent_complete false (omega arith)

calculate_all_metrics_lem_example :
    let m =
      Evms.calculate_all_metrics
        (cents (pos 60000))
        (cents (pos 40000))
        (cents (pos 50000))
        (cents (pos 100000)) in
    (m.cost_variance ≡ cents (pos 40000 -ℤ pos 50000))
    × (m.schedule_variance ≡ cents (pos 40000 -ℤ pos 60000))
    × Earned.Follows (pos 50000) (pos 100000) m m.estimate_at_completion
calculate_all_metrics_lem_example =
    Earned.calculate_all_metrics_lem (pos 60000) (pos 40000) (pos 50000) (pos 100000)
