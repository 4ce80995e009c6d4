-- ===== src/Decimal.antt =====
-- Python's decimal.Decimal as an exact fraction. Sums, differences, products and quotients are
-- exact here; the source computes them to 28 digits, more than the amounts of a program have
-- (Numeric(15, 2) columns). A quotient is taken only after the source has tested its divisor.
pub mod Rounding
pub mod Worth
use defense_pm_tool.Prelude.{ℕ, ◌+◌, ◌*◌, ◌/◌, ◌%◌, Bool, true, false, ltb, ◌==◌, if◌then◌else◌}
use defense_pm_tool.Prelude.Int.{
  ℤ, pos, negsuc, ◌+ℤ◌, ◌-ℤ◌, ◌*ℤ◌, sub_ℕ, pos_part, neg_part, ltb_ℤ, eqb_ℤ,
}

-- The number num / den.
pub record Decimal : Type 0 where
  pub num : ℤ
  pub den : ℕ

abbrev pub cents : ℤ → Decimal
cents z = record { num = z; den = 100 }

abbrev pub whole : ℕ → Decimal
whole n = record { num = pos n; den = 1 }

-- k times an integer.
abbrev pub scale : ℕ → ℤ → ℤ
scale k a = sub_ℕ (k * pos_part a) (k * neg_part a)

abbrev pub abs_ℤ : ℤ → ℕ
abs_ℤ a = pos_part a + neg_part a

-- The integer of the given size with the sign of `a`.
abbrev pub with_sign : ℤ → ℕ → ℤ
with_sign (pos n) m = pos m
with_sign (negsuc n) m = sub_ℕ 0 m

infixl 65 ◌+ᴰ◌ ◌-ᴰ◌
infixl 70 ◌*ᴰ◌ ◌/ᴰ◌
unfoldable pub ◌+ᴰ◌ : Decimal → Decimal → Decimal
x +ᴰ y = record { num = scale y.den x.num +ℤ scale x.den y.num; den = x.den * y.den }

unfoldable pub ◌-ᴰ◌ : Decimal → Decimal → Decimal
x -ᴰ y = record { num = scale y.den x.num -ℤ scale x.den y.num; den = x.den * y.den }

unfoldable pub ◌*ᴰ◌ : Decimal → Decimal → Decimal
x *ᴰ y = record { num = x.num *ℤ y.num; den = x.den * y.den }

unfoldable pub ◌/ᴰ◌ : Decimal → Decimal → Decimal
x /ᴰ y = record { num = scale y.den (x.num *ℤ with_sign y.num 1); den = x.den * abs_ℤ y.num }

abbrev pub is_zero : Decimal → Bool
is_zero x = eqb_ℤ x.num (pos 0)

abbrev pub is_positive : Decimal → Bool
is_positive x = ltb_ℤ (pos 0) x.num

unfoldable pub less : Decimal → Decimal → Bool
less x y = ltb_ℤ (scale y.den x.num) (scale x.den y.num)

unfoldable pub equal : Decimal → Decimal → Bool
equal x y = eqb_ℤ (scale y.den x.num) (scale x.den y.num)

-- The hundredths nearest to n / d, the upper of two that are equally near.
unfoldable pub half_up : ℕ → ℕ → ℕ
half_up n d = (2 * (100 * n) + d) / (2 * d)

-- The hundredths nearest to n / d, the even of two that are equally near.
unfoldable pub half_even : ℕ → ℕ → ℕ
half_even n d =
    let q = 100 * n / d in
    let twice = 2 * (100 * n % d) in
    if ltb twice d then q else (if ltb d twice then q + 1 else (if q % 2 == 0 then q else q + 1))

unfoldable pub hundredths_up : Decimal → ℤ
unfolding half_up
hundredths_up x = with_sign x.num (half_up (abs_ℤ x.num) x.den)

unfoldable pub hundredths_even : Decimal → ℤ
unfolding half_even
hundredths_even x = with_sign x.num (half_even (abs_ℤ x.num) x.den)

-- `value.quantize(Decimal("0.01"), rounding=ROUND_HALF_UP)`: a tie goes away from zero.
abbrev pub round : Decimal → Decimal
round x = cents (hundredths_up x)

-- `value.quantize(Decimal("0.01"))`: a tie goes to the even digit.
abbrev pub quantize : Decimal → Decimal
quantize x = cents (hundredths_even x)
