-- ===== src/EvMethods/Tests.antt =====
-- The methods at concrete figures.
use defense_pm_tool.Prelude.{◌≡◌, refl, true, false, some, none, [], ◌∷◌, arith, if◌then◌else◌}
use defense_pm_tool.Prelude.Int.{pos}
use defense_pm_tool.Decimal.{cents}
use defense_pm_tool.Evms.Earned.{IsWithin}
use defense_pm_tool.EvMethods
use defense_pm_tool.EvMethods.Supplied
use defense_pm_tool.EvMethods.Bounds

-- A third of 333.33, started, with two milestones.
abbrev input : EvMethods.EvCalculationInput
input = record {
  bac = cents (pos 33333);
  bcws = cents (pos 20000);
  percent = cents (pos 3333);
  is_started = true;
  is_completed = false;
  milestones = some (
      record { weight = cents (pos 40); is_complete = true }
      ∷ record { weight = cents (pos 60); is_complete = false }
      ∷ []);
  base_bcwp = none;
  apportionment_factor = none;
}

calculate-supplied_example :
    Supplied.method_of (EvMethods.calculate EvMethods.apportioned input)
    ≡ (if Supplied.supplied EvMethods.apportioned input then some EvMethods.apportioned else none)
calculate-supplied_example = Supplied.calculate-supplied EvMethods.apportioned input

calculate-IsWithin_example :
    (IsWithin (EvMethods.calculate_zero_hundred input).bcwp (cents (pos 33333)))
    × (IsWithin (EvMethods.calculate_fifty_fifty input).bcwp (cents (pos 33333)))
    × (IsWithin (EvMethods.calculate_percent_complete input).bcwp (cents (pos 33333)))
calculate-IsWithin_example = Bounds.calculate-IsWithin input 33333 3333 refl refl (omega arith)
