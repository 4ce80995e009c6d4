-- ===== src/EvMethods/Bounds.antt =====
-- services/ev_methods.py: earned value stays between nothing and the budget.
use native.Mathlib.Nat.{mul-le-mul_left}
use defense_pm_tool.Prelude.{ℕ, ◌*◌, ◌≤◌, ◌≡◌, sym, subst, arith}
use defense_pm_tool.Prelude.Int.{pos, ◌*ℤ◌}
use defense_pm_tool.Decimal.{Decimal, cents, ◌*ᴰ◌, ◌/ᴰ◌, half_even, hundredths_even, quantize}
use defense_pm_tool.Evms.Earned.{IsWithin, cents-IsWithin, in_both}
use defense_pm_tool.EvMethods.{
  EvCalculationInput, calculate_zero_hundred, calculate_fifty_fifty, calculate_percent_complete,
}

pub quantize-cents : (b : ℕ) → hundredths_even (cents (pos b)) ≡ pos b
unfolding hundredths_even half_even
quantize-cents b = ground arith

half_is :
    (b : ℕ) → hundredths_even (cents (pos b) *ᴰ cents (pos 50)) ≡ pos (half_even (50 * b) 10000)
unfolding hundredths_even half_even ◌*ᴰ◌ ◌*ℤ◌
half_is b = ground arith

half_le : (b : ℕ) → half_even (50 * b) 10000 ≤ b
unfolding half_even
half_le b = ground arith

part_is :
    (b p : ℕ)
    → hundredths_even (cents (pos b) *ᴰ cents (pos p) /ᴰ cents (pos 10000))
      ≡ pos (half_even (100 * (b * p)) 100000000)
unfolding hundredths_even half_even ◌*ᴰ◌ ◌*ℤ◌ ◌/ᴰ◌
part_is b p = ground arith

part_le_of : (n b : ℕ) → n ≤ b * 10000 → half_even (100 * n) 100000000 ≤ b
unfolding half_even
part_le_of n b h = ground arith

module _ (b : ℕ) where
  quantize_lem :
      (n : ℕ)
      → n ≤ b
      → (x : Decimal) → hundredths_even x ≡ pos n
      → IsWithin (quantize x) (cents (pos b))
  quantize_lem n h x e =
      subst (λ z. IsWithin (cents z) (cents (pos b))) (sym e) (cents-IsWithin n b h)

  abbrev Fits : Decimal → Type 0
  Fits x = IsWithin (quantize x) (cents (pos b))

  budget-Fits : Fits (cents (pos b))
  budget-Fits = quantize_lem b (omega arith) (cents (pos b)) (quantize-cents b)

  nothing-Fits : Fits (cents (pos 0))
  nothing-Fits = quantize_lem 0 (omega arith) (cents (pos 0)) (quantize-cents 0)

-- For an activity with a budget in cents that is not negative and a percentage in hundredths from
-- 0 to 100, the earned value of the 0/100, the 50/50 and the percent-complete method lies between
-- nothing and the budget.
pub calculate-IsWithin :
    (x : EvCalculationInput) (b p : ℕ)
    → x.bac ≡ cents (pos b)
    → x.percent ≡ cents (pos p)
    → p ≤ 10000
    → (IsWithin (calculate_zero_hundred x).bcwp x.bac)
      × (IsWithin (calculate_fifty_fifty x).bcwp x.bac)
      × (IsWithin (calculate_percent_complete x).bcwp x.bac)
unfolding calculate_zero_hundred calculate_fifty_fifty calculate_percent_complete
calculate-IsWithin x b p budget percent h =
    rw (budget, percent)
      (
        in_both (Fits b) x.is_completed (budget-Fits b) (nothing-Fits b),
        in_both (Fits b) x.is_completed (budget-Fits b) (
            in_both (Fits b) x.is_started
              (quantize_lem b _ (half_le b) (cents (pos b) *ᴰ cents (pos 50)) (half_is b))
              (nothing-Fits b)),
        quantize_lem b _ (part_le_of (b * p) b (mul-le-mul_left b h))
            (cents (pos b) *ᴰ cents (pos p) /ᴰ cents (pos 10000)) (part_is b p),
      )
