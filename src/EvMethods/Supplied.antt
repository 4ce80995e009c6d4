-- ===== src/EvMethods/Supplied.antt =====
-- services/ev_methods.py: when `calculate` returns and when it raises ValueError.
use defense_pm_tool.Prelude.{
  ◌≡◌, refl, Bool, true, false, if◌then◌else◌, Option, none, some, List, [], ◌∷◌,
}
use defense_pm_tool.Evms.{Outcome, ok, raise}
use defense_pm_tool.EvMethods.{
  EvMethod, zero_hundred, fifty_fifty, percent_complete, milestone_weight, loe, apportioned,
  requires_milestones, requires_base_activity, Milestone, EvCalculationInput, EvCalculationResult,
  calculate, calculate_zero_hundred, calculate_fifty_fifty, calculate_percent_complete,
  milestone_result, calculate_milestone_weight, calculate_loe, apportion, calculate_apportioned,
}

abbrev pub method_of : Outcome EvCalculationResult → Option EvMethod
method_of (ok r) = some r.method_used
method_of (raise e) = none

abbrev pub has_milestones : Option (List Milestone) → Bool
has_milestones none = false
has_milestones (some []) = false
has_milestones (some (m ∷ ms)) = true

abbrev pub given : {A : Type 0} → Option A → Bool
given none = false
given (some a) = true

-- What the method needs is there.
abbrev pub supplied : EvMethod → EvCalculationInput → Bool
supplied method x =
    if requires_milestones method
    then has_milestones x.milestones
    else (if requires_base_activity method
        then (if given x.base_bcwp then given x.apportionment_factor else false)
        else true)

milestones_lem :
    (bac : _) (ms : Option (List Milestone))
    → method_of (milestone_result bac ms)
      ≡ (if has_milestones ms then some milestone_weight else none)
unfolding milestone_result
milestones_lem bac none = refl
milestones_lem bac (some []) = refl
milestones_lem bac (some (m ∷ ms)) = refl

apportion_lem :
    (bac : _) (base factor : _)
    → method_of (apportion bac base factor)
      ≡ (if (if given base then given factor else false) then some apportioned else none)
unfolding apportion
apportion_lem bac none factor = refl
apportion_lem bac (some b) none = refl
apportion_lem bac (some b) (some f) = refl

-- `calculate` returns, and reports the method that it was asked for, exactly if a method that
-- requires milestones has at least one and a method that requires a base activity has that
-- activity's earned value and the factor.
pub calculate-supplied :
    (method : EvMethod) (x : EvCalculationInput)
    → method_of (calculate method x) ≡ (if supplied method x then some method else none)
unfolding calculate requires_milestones requires_base_activity calculate_zero_hundred
    calculate_fifty_fifty calculate_percent_complete calculate_loe calculate_milestone_weight
    calculate_apportioned
calculate-supplied zero_hundred x = refl
calculate-supplied fifty_fifty x = refl
calculate-supplied percent_complete x = refl
calculate-supplied milestone_weight x = milestones_lem x.bac x.milestones
calculate-supplied loe x = refl
calculate-supplied apportioned x = apportion_lem x.bac x.base_bcwp x.apportionment_factor
