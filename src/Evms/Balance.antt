-- ===== src/Evms/Balance.antt =====
-- services/evms.py: the estimates of every method balance, to the cent.
use defense_pm_tool.Prelude.{◌≡◌, refl, ap, Option, none, some}
use defense_pm_tool.Prelude.Int.{ℤ, ◌+ℤ◌, ◌-ℤ◌, int_laws}
use mathlib.Core.Option
use defense_pm_tool.Decimal.{Decimal, cents, ◌+ᴰ◌, ◌-ᴰ◌, hundredths_up}
use defense_pm_tool.Decimal.Rounding.{hundredths-sub, hundredths-add, hundredths-add_sub}
use defense_pm_tool.Evms.{
  EacMethod, cpi, typical, mathematical, comprehensive, independent, composite, Outcome, ok, raise,
  EacResult, usable, require, with_fallback, eac_cpi_method, eac_typical_method,
  eac_mathematical_method, eac_comprehensive_method, eac_independent_method, eac_composite_method,
  calculate_eac_advanced,
}

-- An estimate in cents: the cost so far and the cost to come, and what the budget leaves.
pub record IsBalanced (acwp bac : ℤ) (r : EacResult) : Type 0 where
  pub total : ℤ
  pub remaining : ℤ
  pub eac_is : r.eac ≡ cents total
  pub etc_is : r.etc ≡ cents remaining
  pub adds_up : total ≡ acwp +ℤ remaining
  pub vac_is : r.vac ≡ cents (bac -ℤ total)

sub_then_add : (a e : ℤ) → e ≡ a +ℤ (e -ℤ a)
sub_then_add a e = omega int_laws

module _ (acwp bac : ℤ) where
  -- The estimate comes first and the cost to come is the difference.
  by_total :
      (method : EacMethod) (e : ℤ)
      → IsBalanced acwp bac (record {
        method = method;
        eac = cents e;
        etc = cents (hundredths_up (cents e -ᴰ cents acwp));
        vac = cents (hundredths_up (cents bac -ᴰ cents e));
      })
  by_total method e = record {
    total = e;
    remaining = e -ℤ acwp;
    eac_is = refl;
    etc_is = ap cents (hundredths-sub e acwp);
    adds_up = sub_then_add acwp e;
    vac_is = ap cents (hundredths-sub bac e);
  }

  -- The cost to come is first and the estimate is the sum.
  by_remaining :
      (method : EacMethod) (t : ℤ)
      → IsBalanced acwp bac (record {
        method = method;
        eac = cents (hundredths_up (cents acwp +ᴰ cents t));
        etc = cents t;
        vac = cents (hundredths_up (cents bac -ᴰ cents (hundredths_up (cents acwp +ᴰ cents t))));
      })
  by_remaining method t = record {
    total = hundredths_up (cents acwp +ᴰ cents t);
    remaining = t;
    eac_is = refl;
    etc_is = refl;
    adds_up = hundredths-add acwp t;
    vac_is = ap cents (hundredths-sub bac (hundredths_up (cents acwp +ᴰ cents t)));
  }

  typical-IsBalanced :
      (bcwp : ℤ) → IsBalanced acwp bac (eac_typical_method (cents acwp) (cents bcwp) (cents bac))
  unfolding eac_typical_method
  typical-IsBalanced bcwp = record {
    total = hundredths_up (cents acwp +ᴰ (cents bac -ᴰ cents bcwp));
    remaining = bac -ℤ bcwp;
    eac_is = refl;
    etc_is = ap cents (hundredths-sub bac bcwp);
    adds_up = hundredths-add_sub acwp bac bcwp;
    vac_is = ap cents (hundredths-sub bac _);
  }

  -- What an outcome's estimate, if there is one, satisfies.
  abbrev pub WhenOk : (EacResult → Type 0) → Outcome EacResult → Type 0
  WhenOk P (ok r) = P r
  WhenOk P (raise e) = Unit

  require-WhenOk :
      (P : EacResult → Type 0) (f : Decimal → Outcome EacResult)
      → ((c : Decimal) → WhenOk P (f c))
      → (o : Option Decimal) → WhenOk P (require o f)
  require-WhenOk P f h none = tt
  require-WhenOk P f h (some c) = h c

  abbrev Balanced : Outcome EacResult → Type 0
  Balanced = WhenOk (IsBalanced acwp bac)

  cpi-IsBalanced : (c : Option Decimal) → Balanced (eac_cpi_method (cents acwp) (cents bac) c)
  unfolding eac_cpi_method
  cpi-IsBalanced c = require-WhenOk (IsBalanced acwp bac) _ (λ i. by_total cpi _) (usable c)

  mathematical-IsBalanced :
      (bcwp : ℤ) (c : Option Decimal)
      → Balanced (eac_mathematical_method (cents acwp) (cents bcwp) (cents bac) c)
  unfolding eac_mathematical_method
  mathematical-IsBalanced bcwp c =
      require-WhenOk (IsBalanced acwp bac) _ (λ i. by_remaining mathematical _) (usable c)

  comprehensive-IsBalanced :
      (bcwp : ℤ) (c s : Option Decimal)
      → Balanced (eac_comprehensive_method (cents acwp) (cents bcwp) (cents bac) c s)
  unfolding eac_comprehensive_method
  comprehensive-IsBalanced bcwp c s =
      require-WhenOk (IsBalanced acwp bac) _
        (λ i. require-WhenOk (IsBalanced acwp bac) _ (λ j. by_remaining comprehensive _) (usable s))
        (usable c)

  independent-IsBalanced :
      (t : Option ℤ)
      → Balanced (eac_independent_method (cents acwp) (cents bac) (Option.map cents t))
  unfolding eac_independent_method
  independent-IsBalanced none = tt
  independent-IsBalanced (some t) = by_remaining independent t

  with_fallback_lem :
      (P : EacResult → Type 0) (fallback : EacResult) (f : Decimal → EacResult)
      → P fallback
      → ((c : Decimal) → P (f c))
      → (o : Option Decimal) → P (with_fallback o fallback f)
  with_fallback_lem P fallback f h k none = h
  with_fallback_lem P fallback f h k (some c) = k c

  composite-IsBalanced :
      (bcwp : ℤ) (c : Option Decimal)
      → IsBalanced acwp bac (eac_composite_method (cents bcwp) (cents acwp) (cents bac) c)
  unfolding eac_composite_method
  composite-IsBalanced bcwp c =
      with_fallback_lem (IsBalanced acwp bac) _ _ (typical-IsBalanced bcwp)
        (λ i. by_total composite _) (usable c)

  -- In whole cents, the estimate that any method returns is the cost so far and the cost to come,
  -- and its variance is the budget less the estimate, to the cent.
  pub calculate_eac_advanced-IsBalanced :
      (bcws bcwp : ℤ) (method : EacMethod) (manager_etc : Option ℤ)
      → WhenOk (IsBalanced acwp bac) (
          calculate_eac_advanced
            (cents bcws)
            (cents bcwp)
            (cents acwp)
            (cents bac)
            method
            (Option.map cents manager_etc))
  unfolding calculate_eac_advanced
  calculate_eac_advanced-IsBalanced bcws bcwp cpi t = cpi-IsBalanced _
  calculate_eac_advanced-IsBalanced bcws bcwp typical t = typical-IsBalanced bcwp
  calculate_eac_advanced-IsBalanced bcws bcwp mathematical t = mathematical-IsBalanced bcwp _
  calculate_eac_advanced-IsBalanced bcws bcwp comprehensive t = comprehensive-IsBalanced bcwp _ _
  calculate_eac_advanced-IsBalanced bcws bcwp independent t = independent-IsBalanced t
  calculate_eac_advanced-IsBalanced bcws bcwp composite t = composite-IsBalanced bcwp _
