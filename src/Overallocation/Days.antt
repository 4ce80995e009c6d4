-- ===== src/Overallocation/Days.antt =====
-- services/overallocation.py: the periods are the over-allocated days, joined.
use defense_pm_tool.Prelude.{
  ℕ, zero, suc, ◌≡◌, refl, sym, ap, ◌∙◌, arith, Bool, true, false, ◌&&◌, ◌||◌, Bool-cases, inl, inr,
}
use defense_pm_tool.Prelude.Int.{◌+ℤ◌, ◌<ℤ◌, leb_ℤ, eqb_ℤ}
use defense_pm_tool.Prelude.Sort.{insert_by, sort_by}
use defense_pm_tool.Dates.{Date, next_day}
use defense_pm_tool.Dates.Ranges.{is_among, among_none, among_suc, same_day}
use defense_pm_tool.Loading.{ResourceLoadingDay, each_day}
use defense_pm_tool.Overallocation.Group.{on_day, Ascends}
use defense_pm_tool.Overallocation.{overallocated_days, by_date}

pub next_later : (d : Date) → d <ℤ next_day d
unfolding ◌+ℤ◌
next_later d = ground arith

next_later_than : (b d : Date) → b <ℤ d → b <ℤ next_day d
unfolding ◌+ℤ◌
next_later_than b d h = ground arith

pub each_day-Ascends :
    (f : Date → ResourceLoadingDay) (before d : Date) (n : ℕ)
    → before <ℤ d
    → Ascends before (overallocated_days (each_day f d n))
unfolding each_day overallocated_days
each_day-Ascends f before d zero h = tt
each_day-Ascends f before d (suc n) h = elim (Bool-cases (f d).is_overallocated) [
  | inl e ↦ rw e (h, each_day-Ascends f d (next_day d) n (next_later d))
  | inr e ↦ rw e (each_day-Ascends f before (next_day d) n (next_later_than before d h))
]

next_ordered : (d : Date) → leb_ℤ d (next_day d) ≡ true
unfolding ◌+ℤ◌
next_ordered d = ground arith

step_on :
    (d e : Date) (n : ℕ) (b : Bool)
    → (eqb_ℤ d e ≡ true → b ≡ true)
    → (eqb_ℤ d e || (is_among (next_day d) n e && b)) ≡ (is_among d (suc n) e && b)
step_on d e n b h = elim (Bool-cases (eqb_ℤ d e)) [
  | inl q ↦ rw (among_suc d e n, q, h q)
  | inr q ↦ rw (among_suc d e n, q)
]

and_false : (b : Bool) → (b && false) ≡ false
and_false true = refl
and_false false = refl

step_off :
    (d e : Date) (n : ℕ) (b : Bool)
    → (eqb_ℤ d e ≡ true → b ≡ false)
    → (is_among (next_day d) n e && b) ≡ (is_among d (suc n) e && b)
step_off d e n b h = elim (Bool-cases (eqb_ℤ d e)) [
  | inl q ↦ rw (among_suc d e n, q, h q) (and_false (is_among (next_day d) n e))
  | inr q ↦ rw (among_suc d e n, q)
]

pub on_day-each_day :
    (f : Date → ResourceLoadingDay) (d : Date) (n : ℕ) (e : Date)
    → on_day e (overallocated_days (each_day f d n)) ≡ (is_among d n e && (f e).is_overallocated)
unfolding each_day overallocated_days
on_day-each_day f d zero e = sym (ap (λ b. b && (f e).is_overallocated) (among_none d e))
on_day-each_day f d (suc n) e = elim (Bool-cases (f d).is_overallocated) [
  | inl o ↦ rw o (
      ap (λ b. eqb_ℤ d e || b) (on_day-each_day f (next_day d) n e)
      ∙ step_on d e n (f e).is_overallocated
          (λ q. ap (λ z. (f z).is_overallocated) (same_day d e q) ∙ o))
  | inr o ↦ rw o (
      on_day-each_day f (next_day d) n e
      ∙ step_off d e n (f e).is_overallocated
          (λ q. ap (λ z. (f z).is_overallocated) (same_day d e q) ∙ o))
]

pub sort-each_day :
    (f : Date → ResourceLoadingDay) (d : Date) (n : ℕ)
    → sort_by by_date (each_day f d n) ≡ each_day f d n
unfolding each_day sort_by insert_by
sort-each_day f d zero = refl
sort-each_day f d (suc zero) = refl
sort-each_day f d (suc (suc n)) = rw (sort-each_day f (next_day d) (suc n)) (rw (next_ordered d))
