-- ===== src/Loading/Tests.antt =====
-- A resource of eight hours a day with two assignments that meet on a Wednesday.
use defense_pm_tool.Prelude.{ℕ, ◌≡◌, refl, ◌==◌, some, none, [], ◌∷◌, if◌then◌else◌}
use defense_pm_tool.Prelude.Int.{pos, ◌+ℤ◌, ◌-ℤ◌, ◌*ℤ◌}
use defense_pm_tool.Decimal.{Decimal, whole, cents, ◌+ᴰ◌, ◌*ᴰ◌, hundredths_up, half_up, less}
use defense_pm_tool.Dates.{Date, span, weekday}
use defense_pm_tool.Loading

abbrev pub assigned : ℕ → Decimal → Date → Date → Loading.Assignment
assigned k units start finish = record {
  activity_id = k;
  resource_id = 1;
  units = units;
  start_date = some start;
  finish_date = some finish;
  activity = none;
}

abbrev pub worker : Loading.Resource
worker = record { id = 1; capacity_per_day = whole 8 }

abbrev pub repositories : Loading.Repositories
repositories = record {
  get_resource = λ k. if k == 1 then some worker else none;
  get_calendar = λ k s e. [];
  get_assignments_with_activities =
      λ k. assigned 1 (whole 1) (pos 1) (pos 3) ∷ assigned 2 (cents (pos 50)) (pos 3) (pos 5) ∷ [];
}

dates : Loading.get_overallocated_dates repositories 1 (pos 1) (pos 5) ≡ pos 3 ∷ []
unfolding Loading.get_overallocated_dates Loading.overallocated_dates
    Loading.calculate_daily_loading Loading.each_day Loading.day_of Loading.loading_day
    Loading.hours_on Loading.entry_on Loading.assigned_on Loading.relevant Loading.overlaps
    Loading.is_assignment_active_on_date Loading.get_assignment_date_range hundredths_up half_up
    less ◌+ᴰ◌ ◌*ᴰ◌ ◌*ℤ◌ ◌+ℤ◌ ◌-ℤ◌ span weekday
dates = refl
