-- ===== src/Overallocation/Merge.antt =====
-- services/overallocation.py: merging periods keeps the days that they hold.
use defense_pm_tool.Prelude.{
  ℕ, ◌≡◌, refl, ap, ◌∙◌, arith, Bool, true, false, ◌&&◌, ◌||◌, ◌==◌, List, [], ◌∷◌, Bool-cases, inl,
  inr, ==_to_eq, All,
}
use defense_pm_tool.Prelude.Int.{◌≤ℤ◌, leb_ℤ, ◌+ℤ◌}
use defense_pm_tool.Prelude.Sort.{
  any, sort_by, any-sort_by, All-sort_by, sort_by-IsSorted, IsSorted, IsSortedFrom,
}
use defense_pm_tool.Dates.{Date, next_day}
use defense_pm_tool.Overallocation.{
  OverallocationPeriod, later_of, by_start, merge_runs, merge_two, merge_from, merge_sorted,
  merge_adjacent_periods,
}
use defense_pm_tool.Overallocation.Group.{in_run}

-- A period of resource `k` holds the day.
abbrev pub holds : ℕ → Date → OverallocationPeriod → Bool
holds k d p = (p.resource_id == k) && in_run d p.run

abbrev pub any_holds : ℕ → Date → List OverallocationPeriod → Bool
any_holds k d ps = any (holds k d) ps

-- A period has a day or more.
abbrev pub IsPeriod : OverallocationPeriod → Type 0
IsPeriod p = p.run.start_date ≤ℤ p.run.end_date

by_start_total : (p q : OverallocationPeriod) → by_start p q ≡ false → by_start q p ≡ true
unfolding by_start
by_start_total p q h = ground arith

-- The merged run holds what the two held, if the second begins no earlier than the first and no
-- later than the day after it.
in_run-merge_runs :
    (d s e t u : Date)
    → s ≤ℤ e
    → t ≤ℤ u
    → leb_ℤ s t ≡ true
    → leb_ℤ t (next_day e) ≡ true
    → (leb_ℤ s d && leb_ℤ d (later_of e u)) ≡ ((leb_ℤ s d && leb_ℤ d e) || (leb_ℤ t d && leb_ℤ d u))
unfolding ◌+ℤ◌
in_run-merge_runs d s e t u h1 h2 h3 h4 = ground arith

and_left : (a b : Bool) → (a && b) ≡ true → a ≡ true
and_left a b h = ground arith

and_right : (a b : Bool) → (a && b) ≡ true → b ≡ true
and_right a b h = ground arith

and_or : (a x b c : Bool) → x ≡ (b || c) → (a && x) ≡ ((a && b) || (a && c))
and_or true x b c h = h
and_or false x b c h = refl

or_assoc : (a b c : Bool) → ((a || b) || c) ≡ (a || (b || c))
or_assoc a b c = ground arith

same_resource :
    (p q : OverallocationPeriod)
    → ((q.resource_id == p.resource_id) && leb_ℤ q.run.start_date (next_day p.run.end_date)) ≡ true
    → (q.resource_id ≡ p.resource_id) × (leb_ℤ q.run.start_date (next_day p.run.end_date) ≡ true)
same_resource p q h = (==_to_eq _ _ (and_left _ _ h), and_right _ _ h)

ordered_starts :
    (p q : OverallocationPeriod)
    → by_start p q ≡ true
    → q.resource_id ≡ p.resource_id
    → leb_ℤ p.run.start_date q.run.start_date ≡ true
unfolding by_start
ordered_starts p q h e = ground arith

holds-merge_two :
    (k : ℕ) (d : Date) (p q : OverallocationPeriod)
    → IsPeriod p
    → IsPeriod q
    → by_start p q ≡ true
    → ((q.resource_id == p.resource_id) && leb_ℤ q.run.start_date (next_day p.run.end_date)) ≡ true
    → holds k d (merge_two p q) ≡ (holds k d p || holds k d q)
unfolding merge_two merge_runs
holds-merge_two k d p q hp hq sorted near =
    let (same, close) = same_resource p q near in
    rw same (
      and_or (p.resource_id == k) _ (in_run d p.run) (in_run d q.run) (
        in_run-merge_runs d p.run.start_date p.run.end_date q.run.start_date q.run.end_date hp hq
          (ordered_starts p q sorted same) close))

merge_two-IsPeriod : (p q : OverallocationPeriod) → IsPeriod p → IsPeriod (merge_two p q)
unfolding merge_two merge_runs
merge_two-IsPeriod p q h = ground arith

by_start-merge_two :
    (p q z : OverallocationPeriod)
    → by_start p q ≡ true
    → by_start q z ≡ true
    → by_start (merge_two p q) z ≡ true
unfolding by_start merge_two merge_runs
by_start-merge_two p q z h k = ground arith

still_sorted :
    (p q : OverallocationPeriod) (ps : List OverallocationPeriod)
    → by_start p q ≡ true
    → IsSortedFrom by_start q ps
    → IsSortedFrom by_start (merge_two p q) ps
still_sorted p q [] h k = tt
still_sorted p q (z ∷ ps) h k = (by_start-merge_two p q z h k.0, k.1)

any_holds-merge_from :
    (k : ℕ) (d : Date) (p : OverallocationPeriod) (ps : List OverallocationPeriod)
    → IsPeriod p
    → All IsPeriod ps
    → IsSortedFrom by_start p ps
    → any_holds k d (merge_from p ps) ≡ (holds k d p || any_holds k d ps)
unfolding merge_from
any_holds-merge_from k d p [] h all sorted = refl
any_holds-merge_from k d p (q ∷ ps) h all sorted =
    elim (Bool-cases
      ((q.resource_id == p.resource_id) && leb_ℤ q.run.start_date (next_day p.run.end_date))) [
        | inl near ↦ rw near (
            any_holds-merge_from k d (merge_two p q) ps (merge_two-IsPeriod p q h) all.1
              (still_sorted p q ps sorted.0 sorted.1)
            ∙ ap (λ b. b || any_holds k d ps) (holds-merge_two k d p q h all.0 sorted.0 near)
            ∙ or_assoc (holds k d p) (holds k d q) (any_holds k d ps))
        | inr far ↦
            rw far (ap (λ b. holds k d p || b) (any_holds-merge_from k d q ps all.0 all.1 sorted.1))
      ]

any_holds-merge_sorted :
    (k : ℕ) (d : Date) (ps : List OverallocationPeriod)
    → All IsPeriod ps
    → IsSorted by_start ps
    → any_holds k d (merge_sorted ps) ≡ any_holds k d ps
unfolding merge_sorted
any_holds-merge_sorted k d [] all sorted = refl
any_holds-merge_sorted k d (p ∷ ps) all sorted = any_holds-merge_from k d p ps all.0 all.1 sorted

-- Merging periods of a day or more, in any order, keeps the days that each resource's periods
-- hold: none is lost and none is added.
pub any_holds-merge_adjacent_periods :
    (k : ℕ) (d : Date) (ps : List OverallocationPeriod)
    → All IsPeriod ps
    → any_holds k d (merge_adjacent_periods ps) ≡ any_holds k d ps
unfolding merge_adjacent_periods
any_holds-merge_adjacent_periods k d ps all =
    any_holds-merge_sorted k d (sort_by by_start ps) (All-sort_by by_start IsPeriod ps all)
      (sort_by-IsSorted by_start by_start_total ps)
    ∙ any-sort_by by_start (holds k d) ps
