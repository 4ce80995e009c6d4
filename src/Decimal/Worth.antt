-- ===== src/Decimal/Worth.antt =====
-- Fractions that are worth a whole number of cents, and their sums.
use native.Mathlib.Nat.{mul-le-mul_left}
use defense_pm_tool.Prelude.{ℕ, ◌+◌, ◌*◌, ◌≤◌, ◌≡◌, ap, arith, ◌==◌, true}
use defense_pm_tool.Prelude.Int.{ℤ, pos, pos_part, neg_part, sub_ℕ, ◌+ℤ◌, ◌-ℤ◌, +ℤ_parts, -ℤ_parts}
use defense_pm_tool.Decimal.{Decimal, whole, scale, equal, ◌+ᴰ◌, ◌-ᴰ◌}

-- The fraction is z hundredths, over any denominator.
abbrev pub IsWorth : ℤ → Decimal → Type 0
IsWorth z x =
    (1 ≤ x.den)
    × (100 * pos_part x.num + x.den * neg_part z ≡ 100 * neg_part x.num + x.den * pos_part z)

pub scale_parts :
    (k : ℕ) (a : ℤ) → pos_part (scale k a) + k * neg_part a ≡ neg_part (scale k a) + k * pos_part a
scale_parts k a = difference (k * pos_part a) (k * neg_part a)
  where
    difference : (m n : ℕ) → pos_part (sub_ℕ m n) + n ≡ neg_part (sub_ℕ m n) + m
    difference m n = ground arith

some_den : (m n : ℕ) → 1 ≤ m → 1 ≤ n → 1 ≤ m * n
some_den m n h k = let one = mul-le-mul_left m k in omega (arith, one, h)

pub zero-IsWorth : IsWorth (pos 0) (whole 0)
zero-IsWorth = (omega arith, omega arith)

pub add-IsWorth : (z w : ℤ) (x y : Decimal) → IsWorth z x → IsWorth w y → IsWorth (z +ℤ w) (x +ᴰ y)
unfolding ◌+ᴰ◌
add-IsWorth z w x y (dx, hx) (dy, hy) =
    let a = scale y.den x.num in
    let b = scale x.den y.num in
    let first = +ℤ_parts a b in
    let of_a = scale_parts y.den x.num in
    let of_b = scale_parts x.den y.num in
    let second = ap (λ n. x.den * y.den * n) (+ℤ_parts z w) in
    let hx' = ap (λ n. y.den * n) hx in
    let hy' = ap (λ n. x.den * n) hy in
    (some_den x.den y.den dx dy, omega (arith, first, of_a, of_b, second, hx', hy'))

pub sub-IsWorth : (z w : ℤ) (x y : Decimal) → IsWorth z x → IsWorth w y → IsWorth (z -ℤ w) (x -ᴰ y)
unfolding ◌-ᴰ◌
sub-IsWorth z w x y (dx, hx) (dy, hy) =
    let a = scale y.den x.num in
    let b = scale x.den y.num in
    let first = -ℤ_parts a b in
    let of_a = scale_parts y.den x.num in
    let of_b = scale_parts x.den y.num in
    let second = ap (λ n. x.den * y.den * n) (-ℤ_parts z w) in
    let hx' = ap (λ n. y.den * n) hx in
    let hy' = ap (λ n. x.den * n) hy in
    (some_den x.den y.den dx dy, omega (arith, first, of_a, of_b, second, hx', hy'))

-- Two fractions with the same worth are equal.
pub equal-IsWorth : (z : ℤ) (x y : Decimal) → IsWorth z x → IsWorth z y → equal x y ≡ true
unfolding equal
equal-IsWorth z x y (dx, hx) (dy, hy) =
    let hx' = ap (λ n. y.den * n) hx in
    let hy' = ap (λ n. x.den * n) hy in
    same (pos_part a) (neg_part a) (pos_part b) (neg_part b) (y.den * pos_part x.num)
      (y.den * neg_part x.num) (x.den * pos_part y.num) (x.den * neg_part y.num)
      (scale_parts y.den x.num) (scale_parts x.den y.num) (omega (arith, hx', hy'))
  where
    a : ℤ
    a = scale y.den x.num

    b : ℤ
    b = scale x.den y.num

    same :
        (p n q m p' n' q' m' : ℕ)
        → p + n' ≡ n + p'
        → q + m' ≡ m + q'
        → p' + m' ≡ n' + q'
        → (p + m == q + n) ≡ true
    same p n q m p' n' q' m' h k g = ground arith
