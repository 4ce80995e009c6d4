-- ===== src/Decimal/Rounding.antt =====
-- What rounding keeps: amounts that are whole cents stay as they are.
use defense_pm_tool.Prelude.{ap, ◌∙◌, ℕ, ◌+◌, ◌*◌, ◌≡◌, arith, ◌≤◌}
use native.Mathlib.Nat.{mul-div-le, lt-mul-div-succ}
use defense_pm_tool.Prelude.Int.{ℤ, ◌+ℤ◌, ◌-ℤ◌}
use defense_pm_tool.Decimal.{Decimal, cents, half_up, hundredths_up, scale, ◌+ᴰ◌, ◌-ᴰ◌}

pub hundredths-cents : (a : ℤ) → hundredths_up (cents a) ≡ a
unfolding hundredths_up half_up
hundredths-cents a = ground arith

pub hundredths-sub : (a b : ℤ) → hundredths_up (cents a -ᴰ cents b) ≡ (a -ℤ b)
unfolding hundredths_up half_up ◌-ᴰ◌ ◌-ℤ◌
hundredths-sub a b = ground arith

pub hundredths-add : (a b : ℤ) → hundredths_up (cents a +ᴰ cents b) ≡ (a +ℤ b)
unfolding hundredths_up half_up ◌+ᴰ◌ ◌+ℤ◌
hundredths-add a b = ground arith

-- An amount of whole cents over a larger denominator.
abbrev hundredfold : ℤ → Decimal
hundredfold z = record { num = scale 100 z; den = 10000 }

cents-sub : (b c : ℤ) → (cents b -ᴰ cents c) ≡ hundredfold (b -ℤ c)
unfolding ◌-ᴰ◌ ◌-ℤ◌
cents-sub b c = ground arith

hundredths-add_hundredfold : (a z : ℤ) → hundredths_up (cents a +ᴰ hundredfold z) ≡ (a +ℤ z)
unfolding hundredths_up half_up ◌+ᴰ◌ ◌+ℤ◌
hundredths-add_hundredfold a z = ground arith

pub hundredths-add_sub :
    (a b c : ℤ) → hundredths_up (cents a +ᴰ (cents b -ᴰ cents c)) ≡ (a +ℤ (b -ℤ c))
hundredths-add_sub a b c =
    ap (λ x. hundredths_up (cents a +ᴰ x)) (cents-sub b c) ∙ hundredths-add_hundredfold a (b -ℤ c)

-- For a denominator of one or more, rounding n / d half up gives a whole number of hundredths that is
-- at most half a hundredth away.
pub half_up-near :
    (n d : ℕ)
    → 1 ≤ d
    → (2 * (100 * n) ≤ 2 * (d * half_up n d) + d) × (2 * (d * half_up n d) ≤ 2 * (100 * n) + d)
unfolding half_up
half_up-near n d h =
    let below = mul-div-le (2 * (100 * n) + d) (2 * d) in
    let above = lt-mul-div-succ (2 * (100 * n) + d) {b = 2 * d} (omega arith) in
    (omega (arith, above), omega (arith, below))
