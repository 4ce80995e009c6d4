-- ===== src/Loading/Relevant.antt =====
-- services/resource_loading.py: leaving out the assignments that do not meet the range loses none
-- of a day's hours.
use defense_pm_tool.Prelude.{
  ◌≡◌, refl, arith, false, not, if◌then◌else◌, Option, none, some, List, [], ◌∷◌, foldl, Bool-cases,
  inl, inr,
}
use defense_pm_tool.Prelude.Int.{◌≤ℤ◌}
use defense_pm_tool.Decimal.{Decimal, whole, ◌+ᴰ◌, ◌*ᴰ◌}
use defense_pm_tool.Dates.{Date}
use defense_pm_tool.Loading.{
  Assignment, is_after, is_before, get_assignment_date_range, is_assignment_active_on_date,
  overlaps, relevant, assigned_on,
}

meets :
    (start finish : Option Date) (s e d : Date)
    → s ≤ℤ d
    → d ≤ℤ e
    → (if is_before finish s then false else not (is_after start e)) ≡ false
    → (if is_after start d then false else not (is_before finish d)) ≡ false
meets none none s e d h k o = o
meets none (some f) s e d h k o = ground arith
meets (some b) none s e d h k o = ground arith
meets (some b) (some f) s e d h k o = ground arith

active_overlaps :
    (a : Assignment) (s e d : Date)
    → s ≤ℤ d
    → d ≤ℤ e
    → overlaps s e a ≡ false
    → is_assignment_active_on_date a d ≡ false
unfolding overlaps is_assignment_active_on_date
active_overlaps a s e d h k o =
    let range = get_assignment_date_range a in meets range.0 range.1 s e d h k o

module _ (capacity : Decimal) (s e d : Date) (h : s ≤ℤ d) (k : d ≤ℤ e) where
  abbrev step : Decimal → Assignment → Decimal
  step total a = if is_assignment_active_on_date a d then total +ᴰ a.units *ᴰ capacity else total

  foldl-relevant :
      (total : Decimal) (l : List Assignment)
      → foldl step total (relevant s e l) ≡ foldl step total l
  unfolding relevant
  foldl-relevant total [] = refl
  foldl-relevant total (a ∷ l) = elim (Bool-cases (overlaps s e a)) [
    | inl o ↦ rw o (foldl-relevant (step total a) l)
    | inr o ↦ rw (o, active_overlaps a s e d h k o) (foldl-relevant total l)
  ]

  -- On a day of the range, the assignments that meet the range carry the hours of all.
  pub assigned_on-relevant :
      (l : List Assignment) → assigned_on capacity d (relevant s e l) ≡ assigned_on capacity d l
  unfolding assigned_on
  assigned_on-relevant l = foldl-relevant (whole 0) l
