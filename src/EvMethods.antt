-- ===== src/EvMethods.antt =====
-- services/ev_methods.py: the earned value of an activity by each of six methods, with the
-- method type of models/enums.py. Names and notes, which are texts, are left out.
pub mod Bounds
pub mod Supplied
pub mod Weights
mod Tests
use defense_pm_tool.Prelude.{
  ◌≡◌, Bool, true, false, if◌then◌else◌, Option, none, some, List, [], ◌∷◌, foldl,
}
use defense_pm_tool.Prelude.Int.{pos}
use defense_pm_tool.Decimal.{
  Decimal, cents, whole, ◌+ᴰ◌, ◌-ᴰ◌, ◌*ᴰ◌, ◌/ᴰ◌, is_positive, less, quantize, abs_ℤ,
}
use defense_pm_tool.Evms.{Outcome, ok, raise, value_error}

pub data EvMethod : Type 0 where
  zero_hundred fifty_fifty percent_complete milestone_weight loe apportioned : EvMethod

unfoldable pub requires_milestones : EvMethod → Bool
requires_milestones milestone_weight = true
requires_milestones _ = false

unfoldable pub requires_base_activity : EvMethod → Bool
requires_base_activity apportioned = true
requires_base_activity _ = false

pub record Milestone : Type 0 where
  pub weight : Decimal
  pub is_complete : Bool

pub record EvCalculationInput : Type 0 where
  pub bac : Decimal
  pub bcws : Decimal
  pub percent : Decimal
  pub is_started : Bool
  pub is_completed : Bool
  pub milestones : Option (List Milestone)
  pub base_bcwp : Option Decimal
  pub apportionment_factor : Option Decimal

pub record EvCalculationResult : Type 0 where
  pub bcwp : Decimal
  pub method_used : EvMethod
  pub earned_percent : Decimal

abbrev hundred : Decimal
hundred = cents (pos 10000)

unfoldable pub calculate_zero_hundred : EvCalculationInput → EvCalculationResult
calculate_zero_hundred x =
    let done = x.is_completed in
    record {
      bcwp = quantize (if done then x.bac else cents (pos 0));
      method_used = zero_hundred;
      earned_percent = if done then hundred else cents (pos 0);
    }

unfoldable pub calculate_fifty_fifty : EvCalculationInput → EvCalculationResult
calculate_fifty_fifty x =
    let bcwp =
      if x.is_completed
      then x.bac
      else (if x.is_started then x.bac *ᴰ cents (pos 50) else cents (pos 0)) in
    let earned =
      if x.is_completed
      then hundred
      else (if x.is_started then cents (pos 5000) else cents (pos 0)) in
    record { bcwp = quantize bcwp; method_used = fifty_fifty; earned_percent = earned }

unfoldable pub calculate_percent_complete : EvCalculationInput → EvCalculationResult
calculate_percent_complete x = record {
  bcwp = quantize (x.bac *ᴰ x.percent /ᴰ hundred);
  method_used = percent_complete;
  earned_percent = x.percent;
}

-- `sum(m.weight for m in milestones if m.is_complete)`
unfoldable pub completed_weight : List Milestone → Decimal
completed_weight milestones =
    foldl (λ total m. if m.is_complete then total +ᴰ m.weight else total) (whole 0) milestones

abbrev weighted : Decimal → Decimal → EvCalculationResult
weighted bac total = record {
  bcwp = quantize (bac *ᴰ total);
  method_used = milestone_weight;
  earned_percent = quantize (total *ᴰ hundred);
}

unfoldable pub milestone_result : Decimal → Option (List Milestone) → Outcome EvCalculationResult
milestone_result bac none = raise value_error
milestone_result bac (some []) = raise value_error
milestone_result bac (some (m ∷ ms)) = ok (weighted bac (completed_weight (m ∷ ms)))

unfoldable pub calculate_milestone_weight : EvCalculationInput → Outcome EvCalculationResult
unfolding milestone_result
calculate_milestone_weight x = milestone_result x.bac x.milestones

-- A share of the budget in percent, or zero where the budget is not positive.
unfoldable pub share : Decimal → Decimal → Decimal
share amount bac = if is_positive bac then (amount /ᴰ bac) *ᴰ hundred else cents (pos 0)

unfoldable pub calculate_loe : EvCalculationInput → EvCalculationResult
unfolding share
calculate_loe x = record {
  bcwp = quantize x.bcws;
  method_used = loe;
  earned_percent = quantize (share x.bcws x.bac);
}

unfoldable pub apportion : Decimal → Option Decimal → Option Decimal → Outcome EvCalculationResult
apportion bac none factor = raise value_error
apportion bac (some base) none = raise value_error
apportion bac (some base) (some factor) =
    let bcwp = base *ᴰ factor in
    ok (record {
      bcwp = quantize bcwp;
      method_used = apportioned;
      earned_percent = quantize (share bcwp bac);
    })

unfoldable pub calculate_apportioned : EvCalculationInput → Outcome EvCalculationResult
unfolding apportion
calculate_apportioned x = apportion x.bac x.base_bcwp x.apportionment_factor

unfoldable pub calculate : EvMethod → EvCalculationInput → Outcome EvCalculationResult
calculate zero_hundred x = ok (calculate_zero_hundred x)
calculate fifty_fifty x = ok (calculate_fifty_fifty x)
calculate percent_complete x = ok (calculate_percent_complete x)
calculate milestone_weight x = calculate_milestone_weight x
calculate loe x = ok (calculate_loe x)
calculate apportioned x = calculate_apportioned x

-- `sum(Decimal(str(m.get("weight", 0))) for m in milestones)`; `none` is a missing key.
unfoldable pub total_weight : Decimal → List (Option Decimal) → Decimal
total_weight total [] = total
total_weight total (none ∷ ws) = total_weight (total +ᴰ whole 0) ws
total_weight total (some w ∷ ws) = total_weight (total +ᴰ w) ws

unfoldable pub validate_milestone_weights : List (Option Decimal) → Bool
validate_milestone_weights milestones =
    let difference = total_weight (whole 0) milestones -ᴰ record { num = pos 10; den = 10 } in
    less (record { num = pos (abs_ℤ difference.num); den = difference.den })
      (record { num = pos 1; den = 1000 })
