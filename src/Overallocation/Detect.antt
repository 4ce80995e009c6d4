-- ===== src/Overallocation/Detect.antt =====
-- services/overallocation.py: the periods that the detection reports.
use defense_pm_tool.Prelude.{
  ℕ, suc, ◌≡◌, refl, sym, ap, ◌∙◌, arith, Bool, true, false, ◌&&◌, ◌||◌, List, [], ◌∷◌, length, map,
  some, Bool-cases, inl, inr, subst,
}
use defense_pm_tool.Prelude.Int.{ℤ, pos, ◌+ℤ◌, ◌-ℤ◌, ◌≤ℤ◌, ◌<ℤ◌, leb_ℤ}
use defense_pm_tool.Prelude.Sort.{sort_by}
use defense_pm_tool.Decimal.{less, round}
use defense_pm_tool.Dates.{Date, span}
use defense_pm_tool.Dates.Ranges.{is_among-span}
use defense_pm_tool.Loading.{
  Repositories, Resource, ResourceLoadingDay, ResourceCalendar, Assignment, each_day,
  calculate_daily_loading, day_of, loading_day, hours_on, entry_on, assigned_on, relevant,
  overallocated_dates, get_overallocated_dates,
}
use defense_pm_tool.Loading.Relevant.{assigned_on-relevant}
use defense_pm_tool.Overallocation.Group.{
  single_bool, single_days, in_run, in_runs, on_day, Ascends, IsSpaced, in_runs-group_from,
  group_from-IsSpaced, total_runs, total_runs-group_from,
}
use defense_pm_tool.Overallocation.Days.{each_day-Ascends, on_day-each_day, sort-each_day}
use defense_pm_tool.Overallocation.{
  Run, OverallocationPeriod, OverallocatedDay, overallocated_days, start_run, group, by_date,
  duration_days, total_days, period, detect_resource_overallocations,
}

group-in_runs :
    (before d : Date) (xs : List OverallocatedDay)
    → Ascends before xs
    → in_runs d (group xs) ≡ on_day d xs
unfolding group start_run
group-in_runs before d [] up = refl
group-in_runs before d (x ∷ xs) up =
    in_runs-group_from d (start_run x) xs (omega arith) up.1
    ∙ ap (λ b. b || on_day d xs) (single_bool x.date d)

pub group-IsSpaced :
    (before : Date) (xs : List OverallocatedDay) → Ascends before xs → IsSpaced before (group xs)
unfolding group start_run
group-IsSpaced before [] up = tt
group-IsSpaced before (x ∷ xs) up =
    group_from-IsSpaced before (start_run x) xs up.0 (omega arith) up.1

total_runs-group : (xs : List OverallocatedDay) → total_runs (group xs) ≡ pos (length xs)
unfolding group start_run total_runs duration_days
total_runs-group [] = refl
total_runs-group (x ∷ xs) = total_runs-group_from (start_run x) xs ∙ single_days x.date (length xs)

-- A reported period holds the day.
abbrev pub is_reported : Date → List OverallocationPeriod → Bool
is_reported d [] = false
is_reported d (p ∷ ps) = in_run d p.run || is_reported d ps

within : (x y b c : Bool) → (x ≡ true → y ≡ true → b ≡ c) → ((x && y) && b) ≡ ((x && y) && c)
within true true b c h = h refl refl
within true false b c h = refl
within false y b c h = refl

leb_to_le : (a b : ℤ) → leb_ℤ a b ≡ true → a ≤ℤ b
leb_to_le a b h = ground arith

day_before : (s : Date) → (s -ℤ pos 1) <ℤ s
unfolding ◌-ℤ◌
day_before s = ground arith

abbrev pub runs_of : List OverallocationPeriod → List Run
runs_of ps = map (λ p. p.run) ps

module _ (repositories : Repositories) (k : ℕ) where
  map-is_reported :
      (d : Date) (rs : List Run) → is_reported d (map (period repositories k) rs) ≡ in_runs d rs
  unfolding period
  map-is_reported d [] = refl
  map-is_reported d (r ∷ rs) = ap (λ b. in_run d r || b) (map-is_reported d rs)

  runs_of-map : (rs : List Run) → runs_of (map (period repositories k) rs) ≡ rs
  unfolding period
  runs_of-map [] = refl
  runs_of-map (r ∷ rs) = ap (λ l. r ∷ l) (runs_of-map rs)

  total_days-map : (rs : List Run) → total_days (map (period repositories k) rs) ≡ total_runs rs
  unfolding period total_days total_runs
  total_days-map [] = refl
  total_days-map (r ∷ rs) = ap (λ n. duration_days r +ℤ n) (total_days-map rs)

  module _ (resource : Resource) (found : repositories.get_resource k ≡ some resource)
      (s e : Date) where
    abbrev calendar : List ResourceCalendar
    calendar = repositories.get_calendar k s e

    abbrev assignments : List Assignment
    assignments = repositories.get_assignments_with_activities k

    abbrev day : Date → ResourceLoadingDay
    day = day_of resource calendar (relevant s e assignments)

    abbrev range : ℕ
    range = span s e

    -- What the resource has on a day is less than what its assignments ask.
    abbrev pub is_overloaded : Date → Bool
    is_overloaded d =
        less (hours_on resource.capacity_per_day d (entry_on d calendar))
          (round (assigned_on resource.capacity_per_day d assignments))

    daily_is : calculate_daily_loading repositories k s e ≡ each_day day s range
    unfolding calculate_daily_loading
    daily_is = rw (calculate_daily_loading, found)

    detect_is :
        detect_resource_overallocations repositories k s e
        ≡ map (period repositories k) (group (overallocated_days (each_day day s range)))
    unfolding detect_resource_overallocations
    detect_is =
        ap (λ l. map (period repositories k) (group (overallocated_days (sort_by by_date l))))
          daily_is
        ∙ ap (λ l. map (period repositories k) (group (overallocated_days l)))
            (sort-each_day day s range)

    in_range :
        (d : Date)
        → ((leb_ℤ s d && leb_ℤ d e) && (day d).is_overallocated)
          ≡ ((leb_ℤ s d && leb_ℤ d e) && is_overloaded d)
    unfolding day_of loading_day
    in_range d = within (leb_ℤ s d) (leb_ℤ d e) _ (is_overloaded d) λ h h'.
        ap (λ x. less (hours_on resource.capacity_per_day d (entry_on d calendar)) (round x))
          (assigned_on-relevant resource.capacity_per_day s e d (leb_to_le s d h) (leb_to_le d e h')
            assignments)

    reported :
        (d : Date)
        → is_reported d (detect_resource_overallocations repositories k s e)
          ≡ ((leb_ℤ s d && leb_ℤ d e) && is_overloaded d)
    reported d =
        ap (is_reported d) detect_is
        ∙ map-is_reported d (group (overallocated_days (each_day day s range)))
        ∙ group-in_runs (s -ℤ pos 1) d (overallocated_days (each_day day s range))
            (each_day-Ascends day (s -ℤ pos 1) s range (day_before s))
        ∙ on_day-each_day day s range d
        ∙ ap (λ b. b && (day d).is_overallocated) (is_among-span s e d)
        ∙ in_range d

    spaced : IsSpaced (s -ℤ pos 1) (runs_of (detect_resource_overallocations repositories k s e))
    spaced =
        subst (IsSpaced (s -ℤ pos 1))
          (sym (
            ap runs_of detect_is ∙ runs_of-map (group (overallocated_days (each_day day s range)))))
          (group-IsSpaced (s -ℤ pos 1) (overallocated_days (each_day day s range))
            (each_day-Ascends day (s -ℤ pos 1) s range (day_before s)))

    days_match :
        (l : List (Date × ResourceLoadingDay))
        → length (overallocated_days l) ≡ length (overallocated_dates l)
    unfolding overallocated_days overallocated_dates
    days_match [] = refl
    days_match (x ∷ l) = elim (Bool-cases x.1.is_overallocated) [
      | inl o ↦ rw o (ap suc (days_match l))
      | inr o ↦ rw o (days_match l)
    ]

    pub counted :
        total_days (detect_resource_overallocations repositories k s e)
        ≡ pos (length (get_overallocated_dates repositories k s e))
    unfolding get_overallocated_dates
    counted =
        ap total_days detect_is
        ∙ total_days-map (group (overallocated_days (each_day day s range)))
        ∙ total_runs-group (overallocated_days (each_day day s range))
        ∙ ap pos (
            days_match (each_day day s range)
            ∙ ap (λ l. length (overallocated_dates l)) (sym daily_is))

    -- For a resource that is found, a day lies in a reported period exactly if it lies in the
    -- analysed range and the rounded hours of all assignments active on it exceed the hours the
    -- resource has; and the periods come in order, each a day or more long, with a day or more
    -- between two of them that is not over-allocated.
    pub detect_resource_overallocations-exact :
        ((d : Date)
          → is_reported d (detect_resource_overallocations repositories k s e)
            ≡ ((leb_ℤ s d && leb_ℤ d e) && is_overloaded d))
        × IsSpaced (s -ℤ pos 1) (runs_of (detect_resource_overallocations repositories k s e))
    detect_resource_overallocations-exact = (reported, spaced)
