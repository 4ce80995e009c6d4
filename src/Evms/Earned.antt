-- ===== src/Evms/Earned.antt =====
-- services/evms.py: the earned value of an activity and the metrics of a program.
use native.Mathlib.Nat.{mul-le-mul_left}
use defense_pm_tool.Prelude.{
  sym, subst, ap, Option-cases, inl, inr, ◌⊎◌, ℕ, ◌*◌, ◌≤◌, ◌≡◌, refl, arith, Bool, true, false,
  Option, none, some, if◌then◌else◌,
}
use defense_pm_tool.Prelude.Int.{ℤ, pos, ◌-ℤ◌, ◌*ℤ◌}
use defense_pm_tool.Decimal.{
  Decimal, cents, whole, ◌*ᴰ◌, ◌/ᴰ◌, less, hundredths_up, half_up, is_zero,
}
use defense_pm_tool.Decimal.Rounding.{hundredths-sub}
use defense_pm_tool.Evms.{
  EvMethod, zero_hundred, fifty_fifty, percent_complete, milestone, calculate_earned_value,
  EvmsMetrics, calculate_all_metrics, calculate_cost_variance, calculate_schedule_variance,
  calculate_etc, calculate_vac, if_truthy, calculate_eac, by_cpi, usable, calculate_cpi,
}

-- Between nothing and the budget.
abbrev pub IsWithin : Decimal → Decimal → Type 0
IsWithin x budget = (less x (whole 0) ≡ false) × (less budget x ≡ false)

pub zero-IsWithin : (b : ℕ) → IsWithin (whole 0) (cents (pos b))
unfolding less
zero-IsWithin b = ground arith

pub cents-IsWithin : (k b : ℕ) → k ≤ b → IsWithin (cents (pos k)) (cents (pos b))
unfolding less
cents-IsWithin k b h = ground arith

pub in_both : (P : Decimal → Type 0) {x y : Decimal} (c : Bool) → P x → P y → P (if c then x else y)
in_both P true h k = h
in_both P false h k = k

half_is :
    (b : ℕ)
    → hundredths_up (cents (pos b) *ᴰ record { num = pos 5; den = 10 }) ≡ pos (half_up (5 * b) 1000)
unfolding hundredths_up half_up ◌*ᴰ◌ ◌*ℤ◌
half_is b = ground arith

half_le : (b : ℕ) → half_up (5 * b) 1000 ≤ b
unfolding half_up
half_le b = omega arith

part_is :
    (b p : ℕ)
    → hundredths_up (cents (pos b) *ᴰ cents (pos p) /ᴰ whole 100) ≡ pos (half_up (b * p) 1000000)
unfolding hundredths_up half_up ◌*ᴰ◌ ◌*ℤ◌ ◌/ᴰ◌
part_is b p = ground arith

part_le : (b p : ℕ) → p ≤ 10000 → half_up (b * p) 1000000 ≤ b
unfolding half_up
part_le b p h = let k = mul-le-mul_left b h in omega (arith, k)

-- For a budget in cents that is not negative and a percentage in hundredths from 0 to 100, the
-- earned value lies between nothing and the budget, with every method.
pub calculate_earned_value-IsWithin :
    (b p : ℕ) (method : EvMethod) (achieved : Bool)
    → p ≤ 10000
    → IsWithin
        (calculate_earned_value (cents (pos b)) (cents (pos p)) method achieved)
        (cents (pos b))
unfolding calculate_earned_value
calculate_earned_value-IsWithin b p zero_hundred achieved h =
    in_both (λ x. IsWithin x (cents (pos b))) _ (cents-IsWithin b b (omega arith)) (zero-IsWithin b)
calculate_earned_value-IsWithin b p fifty_fifty achieved h =
    in_both (λ x. IsWithin x (cents (pos b))) _ (cents-IsWithin b b (omega arith))
      (in_both (λ x. IsWithin x (cents (pos b))) _
        (subst (λ n. IsWithin (cents n) (cents (pos b))) (sym (half_is b))
          (cents-IsWithin _ b (half_le b)))
        (zero-IsWithin b))
calculate_earned_value-IsWithin b p milestone achieved h =
    in_both (λ x. IsWithin x (cents (pos b))) achieved (cents-IsWithin b b (omega arith))
      (zero-IsWithin b)
calculate_earned_value-IsWithin b p percent_complete achieved h =
    subst (λ n. IsWithin (cents n) (cents (pos b))) (sym (part_is b p))
      (cents-IsWithin _ b (part_le b p h))

-- The estimate that the metrics give, if any, and what follows from it.
abbrev pub Follows : ℤ → ℤ → EvmsMetrics → Option Decimal → Type 0
Follows acwp bac m none = (m.estimate_to_complete ≡ none) × (m.variance_at_completion ≡ none)
Follows acwp bac m (some e) =
    (m.estimate_to_complete ≡ (if is_zero e then none else some (cents (e.num -ℤ acwp))))
    × (m.variance_at_completion ≡ (if is_zero e then none else some (cents (bac -ℤ e.num))))

eac-cases :
    (bac acwp bcwp : Decimal)
    → (calculate_eac bac acwp bcwp by_cpi ≡ none)
      ⊎ ((z : ℤ) × (calculate_eac bac acwp bcwp by_cpi ≡ some (cents z)))
unfolding calculate_eac
eac-cases bac acwp bcwp = elim (Option-cases (usable (calculate_cpi bcwp acwp))) [
  | inl h ↦ inl (rw (calculate_eac, h))
  | inr (c, h) ↦ inr (hundredths_up (bac /ᴰ c), rw (calculate_eac, h))
]

-- In whole cents the variances of `calculate_all_metrics` are the differences, to the cent; and with
-- an estimate at completion that is not zero the cost to come and the variance at completion
-- are the differences too, while they are absent if there is no estimate or it is zero.
pub calculate_all_metrics_lem :
    (bcws bcwp acwp bac : ℤ)
    → let m = calculate_all_metrics (cents bcws) (cents bcwp) (cents acwp) (cents bac) in
      (m.cost_variance ≡ cents (bcwp -ℤ acwp))
      × (m.schedule_variance ≡ cents (bcwp -ℤ bcws))
      × Follows acwp bac m m.estimate_at_completion
unfolding calculate_all_metrics calculate_cost_variance calculate_schedule_variance calculate_etc
    calculate_vac if_truthy
calculate_all_metrics_lem bcws bcwp acwp bac = (
  ap cents (hundredths-sub bcwp acwp),
  ap cents (hundredths-sub bcwp bcws),
  elim (eac-cases (cents bac) (cents acwp) (cents bcwp)) [
    | inl h ↦ rw h (refl, refl)
    | inr (z, h) ↦ rw h (
      ap (λ w. if is_zero (cents z) then none else some (cents w)) (hundredths-sub z acwp),
      ap (λ w. if is_zero (cents z) then none else some (cents w)) (hundredths-sub bac z),
    )
  ],
)
