-- ===== src/EvMethods/Weights.antt =====
-- services/ev_methods.py: sums of milestone weights.
use native.Mathlib.Nat.{mul-le-mul_left}
use mathlib.Core.Option
use defense_pm_tool.Prelude.{
  ℕ, ◌+◌, ◌*◌, ◌≤◌, ◌≡◌, refl, sym, ◌∙◌, subst, arith, Bool, true, false, Option, none, some, List,
  [], ◌∷◌, ◌==◌, ap, ◌⊎◌, inl, inr, map,
}
use defense_pm_tool.Prelude.Int.{pos, ◌+ℤ◌, ◌-ℤ◌}
use defense_pm_tool.Decimal.{Decimal, cents, whole, ◌+ᴰ◌, ◌-ᴰ◌, less, abs_ℤ}
use defense_pm_tool.EvMethods.{total_weight, validate_milestone_weights}

-- A decimal worth n hundredths, over any denominator.
record IsWorth (n : ℕ) (x : Decimal) : Type 0 where
  amount : ℕ
  num_is : x.num ≡ pos amount
  some_den : 1 ≤ x.den
  value_is : 100 * amount ≡ x.den * n

abbrev pub weight_of : Option ℕ → Option Decimal
weight_of w = Option.map (λ n. cents (pos n)) w

-- The sum of the weights, where a missing weight counts as zero.
unfoldable pub hundredths_sum : List (Option ℕ) → ℕ
hundredths_sum [] = 0
hundredths_sum (none ∷ ws) = hundredths_sum ws
hundredths_sum (some w ∷ ws) = w + hundredths_sum ws

add_num :
    (a w d : ℕ) → (record { num = pos a; den = d } +ᴰ cents (pos w)).num ≡ pos (100 * a + d * w)
unfolding ◌+ᴰ◌ ◌+ℤ◌
add_num a w d = ground arith

same_num : (a d : ℕ) → (record { num = pos a; den = d } +ᴰ whole 0).num ≡ pos a
unfolding ◌+ᴰ◌ ◌+ℤ◌
same_num a d = ground arith

add-IsWorth : (n w : ℕ) (x : Decimal) → IsWorth n x → IsWorth (n + w) (x +ᴰ cents (pos w))
unfolding ◌+ᴰ◌
add-IsWorth n w x h =
    let h1 = h.some_den in
    let h2 = h.value_is in
    record {
      amount = 100 * h.amount + x.den * w;
      num_is =
          ap (λ z. (record { num = z; den = x.den } +ᴰ cents (pos w)).num) h.num_is
          ∙ add_num h.amount w x.den;
      some_den = omega (arith, h1);
      value_is = omega (arith, h2);
    }

same-IsWorth : (n : ℕ) (x : Decimal) → IsWorth n x → IsWorth n (x +ᴰ whole 0)
unfolding ◌+ᴰ◌
same-IsWorth n x h =
    let h1 = h.some_den in
    let h2 = h.value_is in
    record {
      amount = h.amount;
      num_is =
          ap (λ z. (record { num = z; den = x.den } +ᴰ whole 0).num) h.num_is
          ∙ same_num h.amount x.den;
      some_den = omega (arith, h1);
      value_is = omega (arith, h2);
    }

total_weight-IsWorth :
    (ws : List (Option ℕ)) (n : ℕ) (x : Decimal)
    → IsWorth n x
    → IsWorth (n + hundredths_sum ws) (total_weight x (map weight_of ws))
unfolding total_weight hundredths_sum
total_weight-IsWorth [] n x h = subst (λ k. IsWorth k x) (omega arith) h
total_weight-IsWorth (none ∷ ws) n x h =
    total_weight-IsWorth ws n (x +ᴰ whole 0) (same-IsWorth n x h)
total_weight-IsWorth (some w ∷ ws) n x h =
    subst (λ k. IsWorth k (total_weight (x +ᴰ cents (pos w)) (map weight_of ws))) (omega arith)
      (total_weight-IsWorth ws (n + w) (x +ᴰ cents (pos w)) (add-IsWorth n w x h))

-- The code's comparison on a fraction a / d.
close : ℕ → ℕ → Bool
close a d =
    let difference = record { num = pos a; den = d } -ᴰ record { num = pos 10; den = 10 } in
    less (record { num = pos (abs_ℤ difference.num); den = difference.den })
      (record { num = pos 1; den = 1000 })

close_same : (d : ℕ) → 1 ≤ d → close d d ≡ true
unfolding close less ◌-ᴰ◌ ◌-ℤ◌
close_same d h = ground arith

close_above : (a d : ℕ) → 1 ≤ d → 101 * d ≤ 100 * a → close a d ≡ false
unfolding close less ◌-ᴰ◌ ◌-ℤ◌
close_above a d h k = ground arith

close_below : (a d : ℕ) → 1 ≤ d → 100 * a ≤ 99 * d → close a d ≡ false
unfolding close less ◌-ᴰ◌ ◌-ℤ◌
close_below a d h k = ground arith

trichotomy : (n : ℕ) → (n ≡ 100) ⊎ ((101 ≤ n) ⊎ (n ≤ 99))
trichotomy n = ground arith

close_exact : (n a d : ℕ) → 1 ≤ d → 100 * a ≡ d * n → n ≡ 100 → close a d ≡ (n == 100)
close_exact n a d h worth e =
    let even = subst (λ m. 100 * a ≡ d * m) e worth in
    subst (λ m. close m d ≡ true) (omega (arith, even)) (close_same d h) ∙ sym (ground arith)

close_iff : (n a d : ℕ) → 1 ≤ d → 100 * a ≡ d * n → close a d ≡ (n == 100)
close_iff n a d h worth = elim (trichotomy n) [
  | inl e ↦ close_exact n a d h worth e
  | inr (inl e) ↦
      let k = mul-le-mul_left d e in close_above a d h (omega (arith, k)) ∙ sym (ground arith)
  | inr (inr e) ↦
      let k = mul-le-mul_left d e in close_below a d h (omega (arith, k)) ∙ sym (ground arith)
]

nothing-IsWorth : IsWorth 0 (whole 0)
nothing-IsWorth = record { amount = 0; num_is = refl; some_den = omega arith; value_is = refl }

-- Weights in whole hundredths, a missing one counting as zero, are valid exactly if they sum to
-- 1.00: between that and the next sum the tolerance makes no difference.
pub validate_milestone_weights_iff :
    (ws : List (Option ℕ))
    → validate_milestone_weights (map weight_of ws) ≡ (hundredths_sum ws == 100)
unfolding validate_milestone_weights close
validate_milestone_weights_iff ws =
    let h = total_weight-IsWorth ws 0 (whole 0) nothing-IsWorth in
    let total = total_weight (whole 0) (map weight_of ws) in
    ap
      (λ z.
        let difference = record { num = z; den = total.den } -ᴰ record { num = pos 10; den = 10 } in
        less (record { num = pos (abs_ℤ difference.num); den = difference.den })
          (record { num = pos 1; den = 1000 }))
      h.num_is
    ∙ close_iff (hundredths_sum ws) h.amount total.den h.some_den
        (subst (λ n. 100 * h.amount ≡ total.den * n) (omega arith) h.value_is)
