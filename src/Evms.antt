-- ===== src/Evms.antt =====
-- services/evms.py: the earned-value metrics and the six ways to estimate the cost at completion.
-- The description texts are left out. An exception is an outcome `raise`.
pub mod Balance
pub mod Methods
pub mod Earned
mod Tests
use defense_pm_tool.Prelude.{
  ◌≡◌, Bool, true, false, if◌then◌else◌, Option, none, some, List, [], ◌∷◌, not, ◌||◌, ◌&&◌,
}
use defense_pm_tool.Prelude.Int.{ℤ, pos}
use defense_pm_tool.Decimal.{
  Decimal, cents, whole, ◌+ᴰ◌, ◌-ᴰ◌, ◌*ᴰ◌, ◌/ᴰ◌, is_zero, is_positive, less, equal, round,
}

pub data EvMethod : Type 0 where
  zero_hundred fifty_fifty percent_complete milestone : EvMethod

pub data EacMethod : Type 0 where
  cpi typical mathematical comprehensive independent composite : EacMethod

pub data Error : Type 0 where
  zero_division : Error
  value_error : Error

pub data Outcome (A : Type 0) : Type 0 where
  ok : A → Outcome A
  raise : Error → Outcome A

pub record EacResult : Type 0 where
  pub method : EacMethod
  pub eac : Decimal
  pub etc : Decimal
  pub vac : Decimal

pub record EvmsMetrics : Type 0 where
  pub bcws : Decimal
  pub bcwp : Decimal
  pub acwp : Decimal
  pub cost_variance : Decimal
  pub schedule_variance : Decimal
  pub cost_performance_index : Option Decimal
  pub schedule_performance_index : Option Decimal
  pub budget_at_completion : Decimal
  pub estimate_at_completion : Option Decimal
  pub estimate_to_complete : Option Decimal
  pub variance_at_completion : Option Decimal
  pub to_complete_performance_index : Option Decimal

unfoldable pub calculate_earned_value : Decimal → Decimal → EvMethod → Bool → Decimal
calculate_earned_value budgeted_cost percent zero_hundred milestone_achieved =
    if equal percent (whole 100) then budgeted_cost else whole 0
calculate_earned_value budgeted_cost percent fifty_fifty milestone_achieved =
    if equal percent (whole 100)
    then budgeted_cost
    else (if is_positive percent
        then round (budgeted_cost *ᴰ record { num = pos 5; den = 10 })
        else whole 0)
calculate_earned_value budgeted_cost percent milestone milestone_achieved =
    if milestone_achieved then budgeted_cost else whole 0
calculate_earned_value budgeted_cost percent percent_complete milestone_achieved =
    round (budgeted_cost *ᴰ percent /ᴰ whole 100)

unfoldable pub calculate_cost_variance : Decimal → Decimal → Decimal
calculate_cost_variance bcwp acwp = round (bcwp -ᴰ acwp)

unfoldable pub calculate_schedule_variance : Decimal → Decimal → Decimal
calculate_schedule_variance bcwp bcws = round (bcwp -ᴰ bcws)

unfoldable pub calculate_cpi : Decimal → Decimal → Option Decimal
calculate_cpi bcwp acwp = if is_zero acwp then none else some (round (bcwp /ᴰ acwp))

unfoldable pub calculate_spi : Decimal → Decimal → Option Decimal
calculate_spi bcwp bcws = if is_zero bcws then none else some (round (bcwp /ᴰ bcws))

-- The strings that `calculate_eac` takes; `unknown` is any other.
pub data EacOption : Type 0 where
  by_cpi by_typical unknown : EacOption

-- `cpi is None or cpi == 0` is the test that leads to `none` here.
unfoldable pub usable : Option Decimal → Option Decimal
usable none = none
usable (some index) = if is_zero index then none else some index

-- `raise ZeroDivisionError` where the index is not usable.
abbrev pub require : Option Decimal → (Decimal → Outcome EacResult) → Outcome EacResult
require none f = raise zero_division
require (some index) f = f index

unfoldable pub calculate_eac : Decimal → Decimal → Decimal → EacOption → Option Decimal
unfolding usable
calculate_eac bac acwp bcwp by_cpi = elim (usable (calculate_cpi bcwp acwp)) [
  | none ↦ none
  | some index ↦ some (round (bac /ᴰ index))
]
calculate_eac bac acwp bcwp by_typical = some (round (acwp +ᴰ (bac -ᴰ bcwp)))
calculate_eac bac acwp bcwp unknown = none

unfoldable pub calculate_etc : Decimal → Decimal → Decimal
calculate_etc eac acwp = round (eac -ᴰ acwp)

unfoldable pub calculate_vac : Decimal → Decimal → Decimal
calculate_vac bac eac = round (bac -ᴰ eac)

-- The strings that `calculate_tcpi` takes; `other_target` is any other.
pub data Target : Type 0 where
  bac_target eac_target other_target : Target

unfoldable pub remaining_budget : Decimal → Decimal → Target → Option Decimal → Option Decimal
remaining_budget bac acwp bac_target eac = some (bac -ᴰ acwp)
remaining_budget bac acwp eac_target none = none
remaining_budget bac acwp eac_target (some eac) = some (eac -ᴰ acwp)
remaining_budget bac acwp other_target eac = none

unfoldable pub calculate_tcpi :
    Decimal → Decimal → Decimal → Target → Option Decimal → Option Decimal
unfolding remaining_budget
calculate_tcpi bac bcwp acwp target eac = elim (remaining_budget bac acwp target eac) [
  | none ↦ none
  | some budget ↦ if is_zero budget then none else some (round ((bac -ᴰ bcwp) /ᴰ budget))
]

-- `... if eac else None`: a Decimal of zero counts as absent.
unfoldable pub if_truthy : Option Decimal → (Decimal → Decimal) → Option Decimal
if_truthy none f = none
if_truthy (some eac) f = if is_zero eac then none else some (f eac)

unfoldable pub calculate_all_metrics : Decimal → Decimal → Decimal → Decimal → EvmsMetrics
unfolding if_truthy
calculate_all_metrics bcws bcwp acwp bac =
    let eac = calculate_eac bac acwp bcwp by_cpi in
    record {
      bcws = bcws;
      bcwp = bcwp;
      acwp = acwp;
      cost_variance = calculate_cost_variance bcwp acwp;
      schedule_variance = calculate_schedule_variance bcwp bcws;
      cost_performance_index = calculate_cpi bcwp acwp;
      schedule_performance_index = calculate_spi bcwp bcws;
      budget_at_completion = bac;
      estimate_at_completion = eac;
      estimate_to_complete = if_truthy eac (λ e. calculate_etc e acwp);
      variance_at_completion = if_truthy eac (λ e. calculate_vac bac e);
      to_complete_performance_index = calculate_tcpi bac bcwp acwp bac_target none;
    }

-- The estimate of a method with its rounded distance to the budget.
abbrev result : EacMethod → Decimal → Decimal → Decimal → EacResult
result method bac eac etc = record {
  method = method;
  eac = eac;
  etc = etc;
  vac = round (bac -ᴰ eac);
}

unfoldable pub eac_cpi_method : Decimal → Decimal → Option Decimal → Outcome EacResult
eac_cpi_method acwp bac index =
    require (usable index)
      λ c. let eac = round (bac /ᴰ c) in ok (result cpi bac eac (round (eac -ᴰ acwp)))

unfoldable pub eac_typical_method : Decimal → Decimal → Decimal → EacResult
eac_typical_method acwp bcwp bac =
    result typical bac (round (acwp +ᴰ (bac -ᴰ bcwp))) (round (bac -ᴰ bcwp))

unfoldable pub eac_mathematical_method :
    Decimal → Decimal → Decimal → Option Decimal → Outcome EacResult
eac_mathematical_method acwp bcwp bac index = require (usable index) λ c.
    let etc = round ((bac -ᴰ bcwp) /ᴰ c) in ok (result mathematical bac (round (acwp +ᴰ etc)) etc)

unfoldable pub eac_comprehensive_method :
    Decimal → Decimal → Decimal → Option Decimal → Option Decimal → Outcome EacResult
eac_comprehensive_method acwp bcwp bac cost_index schedule_index = require (usable cost_index) λ c.
    require (usable schedule_index) λ s.
      let etc = round ((bac -ᴰ bcwp) /ᴰ (c *ᴰ s)) in
      ok (result comprehensive bac (round (acwp +ᴰ etc)) etc)

unfoldable pub eac_independent_method : Decimal → Decimal → Option Decimal → Outcome EacResult
eac_independent_method acwp bac none = raise value_error
eac_independent_method acwp bac (some etc) = ok (result independent bac (round (acwp +ᴰ etc)) etc)

pub record Weights : Type 0 where
  pub cpi_weight : Decimal
  pub typical_weight : Decimal
  pub math_weight : Decimal

unfoldable pub weights : Decimal → Weights
weights percent =
    if less percent (cents (pos 25))
    then record {
      cpi_weight = cents (pos 20);
      typical_weight = cents (pos 50);
      math_weight = cents (pos 30);
    }
    else (if less percent (cents (pos 75))
        then record {
          cpi_weight = cents (pos 35);
          typical_weight = cents (pos 30);
          math_weight = cents (pos 35);
        }
        else record {
          cpi_weight = cents (pos 50);
          typical_weight = cents (pos 20);
          math_weight = cents (pos 30);
        })

-- The composite method's fall-back where the index is not usable.
abbrev pub with_fallback : Option Decimal → EacResult → (Decimal → EacResult) → EacResult
with_fallback none fallback f = fallback
with_fallback (some index) fallback f = f index

unfoldable pub eac_composite_method : Decimal → Decimal → Decimal → Option Decimal → EacResult
eac_composite_method bcwp acwp bac index =
    with_fallback (usable index) (eac_typical_method acwp bcwp bac) λ c.
      let eac_cpi = round (bac /ᴰ c) in
      let eac_typical = round (acwp +ᴰ (bac -ᴰ bcwp)) in
      let eac_math = round (acwp +ᴰ (bac -ᴰ bcwp) /ᴰ c) in
      let w = weights (if is_zero bac then whole 0 else bcwp /ᴰ bac) in
      let eac =
        round (
          w.cpi_weight *ᴰ eac_cpi
          +ᴰ w.typical_weight *ᴰ eac_typical
          +ᴰ w.math_weight *ᴰ eac_math) in
      result composite bac eac (round (eac -ᴰ acwp))

unfoldable pub calculate_eac_advanced :
    Decimal → Decimal → Decimal → Decimal → EacMethod → Option Decimal → Outcome EacResult
calculate_eac_advanced bcws bcwp acwp bac method manager_etc =
    let index = calculate_cpi bcwp acwp in
    let schedule_index = calculate_spi bcwp bcws in
    elim method [
      | cpi ↦ eac_cpi_method acwp bac index
      | typical ↦ ok (eac_typical_method acwp bcwp bac)
      | mathematical ↦ eac_mathematical_method acwp bcwp bac index
      | comprehensive ↦ eac_comprehensive_method acwp bcwp bac index schedule_index
      | independent ↦ eac_independent_method acwp bac manager_etc
      | composite ↦ ok (eac_composite_method bcwp acwp bac index)
    ]

-- `method == EACMethod.INDEPENDENT and manager_etc is None`
abbrev pub is_skipped : EacMethod → Option Decimal → Bool
is_skipped independent none = true
is_skipped _ _ = false

unfoldable pub collect :
    (EacMethod → Outcome EacResult) → Option Decimal → List EacMethod → List EacResult
collect run manager_etc [] = []
collect run manager_etc (method ∷ methods) =
    let rest = collect run manager_etc methods in
    if is_skipped method manager_etc
    then rest
    else (elim (run method) [ ok r ↦ r ∷ rest | raise _ ↦ rest ])

unfoldable pub calculate_all_eac_methods :
    Decimal → Decimal → Decimal → Decimal → Option Decimal → List EacResult
calculate_all_eac_methods bcws bcwp acwp bac manager_etc =
    collect (λ method. calculate_eac_advanced bcws bcwp acwp bac method manager_etc) manager_etc
      (cpi ∷ typical ∷ mathematical ∷ comprehensive ∷ independent ∷ composite ∷ [])
