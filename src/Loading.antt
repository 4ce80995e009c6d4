-- ===== src/Loading.antt =====
-- services/resource_loading.py: the hours that a resource is assigned and has on each day. What the
-- repositories return for a key is a field of `Repositories`.

pub mod Relevant
pub mod Tests
use defense_pm_tool.Prelude.{
  ℕ, zero, suc, Bool, true, false, not, ◌&&◌, if◌then◌else◌, ltb, Option, none, some, List, [], ◌∷◌,
  foldl, map,
}
use defense_pm_tool.Prelude.Int.{ℤ, pos, ltb_ℤ, eqb_ℤ}
use defense_pm_tool.Prelude.Dict.{Dict, insert}
use defense_pm_tool.Decimal.{Decimal, whole, cents, ◌+ᴰ◌, ◌*ᴰ◌, ◌/ᴰ◌, is_positive, less, round}
use defense_pm_tool.Dates.{Date, weekday, is_weekend, next_day, span, or_date}

-- The dates of models/activity.py that the services read.
pub record ActivityDates : Type 0 where
  pub planned_start : Option Date
  pub planned_finish : Option Date
  pub early_start : Option Date
  pub early_finish : Option Date

pub record Assignment : Type 0 where
  pub activity_id : ℕ
  pub resource_id : ℕ
  pub units : Decimal
  pub start_date : Option Date
  pub finish_date : Option Date
  pub activity : Option ActivityDates

pub record Resource : Type 0 where
  pub id : ℕ
  pub capacity_per_day : Decimal

pub record ResourceCalendar : Type 0 where
  pub calendar_date : Date
  pub available_hours : Decimal
  pub is_working_day : Bool

pub record Repositories : Type 0 where
  pub get_resource : ℕ → Option Resource
  pub get_calendar : ℕ → Date → Date → List ResourceCalendar
  pub get_assignments_with_activities : ℕ → List Assignment

-- `ResourceLoadingDay` of services/resource.py.
pub record ResourceLoadingDay : Type 0 where
  pub date : Date
  pub available_hours : Decimal
  pub assigned_hours : Decimal
  pub utilization : Decimal
  pub is_overallocated : Bool

unfoldable pub loading_day : Date → Decimal → Decimal → ResourceLoadingDay
loading_day date available assigned = record {
  date = date;
  available_hours = available;
  assigned_hours = assigned;
  utilization =
      if is_positive available
      then round (assigned /ᴰ available *ᴰ whole 100)
      else (if is_positive assigned then whole 100 else whole 0);
  is_overallocated = less available assigned;
}

-- An end of an assignment, or else of its activity.
abbrev pub end_date :
    (ActivityDates → Option Date) → Option Date → Option ActivityDates → Option Date
end_date field (some d) activity = some d
end_date field none none = none
end_date field none (some a) = field a

unfoldable pub get_assignment_date_range : Assignment → Option Date × Option Date
get_assignment_date_range a = (
  end_date (λ x. or_date x.planned_start x.early_start) a.start_date a.activity,
  end_date (λ x. or_date x.planned_finish x.early_finish) a.finish_date a.activity,
)

-- `date is not None and date > d`, and `date is not None and date < d`
abbrev pub is_after : Option Date → Date → Bool
is_after none d = false
is_after (some x) d = ltb_ℤ d x

abbrev pub is_before : Option Date → Date → Bool
is_before none d = false
is_before (some x) d = ltb_ℤ x d

unfoldable pub is_assignment_active_on_date : Assignment → Date → Bool
is_assignment_active_on_date a check_date =
    let (start_date, finish_date) = get_assignment_date_range a in
    if is_after start_date check_date then false else not (is_before finish_date check_date)

-- The loop from `current_date` on for a number of days.
unfoldable pub each_day : {A : Type 0} → (Date → A) → Date → ℕ → List (Date × A)
each_day f d zero = []
each_day f d (suc n) = (d, f d) ∷ each_day f (next_day d) n

unfoldable pub get_loading_for_assignment :
    Assignment → Resource → Date → Date → List (Date × Decimal)
get_loading_for_assignment a resource start_date end_date =
    each_day
      (λ d.
        if is_assignment_active_on_date a d
        then round (a.units *ᴰ resource.capacity_per_day)
        else whole 0)
      start_date (span start_date end_date)

-- The assignments that are neither over before the range nor begin after it.
unfoldable pub overlaps : Date → Date → Assignment → Bool
overlaps start_date end_date a =
    let (start, finish) = get_assignment_date_range a in
    if is_before finish start_date then false else not (is_after start end_date)

unfoldable pub relevant : Date → Date → List Assignment → List Assignment
unfolding overlaps
relevant start_date end_date [] = []
relevant start_date end_date (a ∷ others) =
    let rest = relevant start_date end_date others in
    if overlaps start_date end_date a then a ∷ rest else rest

-- `calendar_by_date.get(d)`: of two entries for a date the later in the list stands.
unfoldable pub entry_on : Date → List ResourceCalendar → Option ResourceCalendar
entry_on d entries =
    foldl (λ found e. if eqb_ℤ e.calendar_date d then some e else found) none entries

unfoldable pub hours_on : Decimal → Date → Option ResourceCalendar → Decimal
hours_on default_capacity d (some e) = if e.is_working_day then e.available_hours else whole 0
hours_on default_capacity d none = if ltb (weekday d) 5 then default_capacity else whole 0

unfoldable pub assigned_on : Decimal → Date → List Assignment → Decimal
assigned_on capacity d assignments =
    foldl
      (λ total a. if is_assignment_active_on_date a d then total +ᴰ a.units *ᴰ capacity else total)
      (whole 0) assignments

-- The body of the loop of `calculate_daily_loading`.
unfoldable pub day_of :
    Resource → List ResourceCalendar → List Assignment → Date → ResourceLoadingDay
day_of resource calendar assignments d =
    loading_day d (hours_on resource.capacity_per_day d (entry_on d calendar))
      (round (assigned_on resource.capacity_per_day d assignments))

-- `[day.date for day in loading.values() if day.is_overallocated]`
unfoldable pub overallocated_dates : List (Date × ResourceLoadingDay) → List Date
overallocated_dates [] = []
overallocated_dates ((d, day) ∷ days) =
    let rest = overallocated_dates days in if day.is_overallocated then day.date ∷ rest else rest

-- `if overallocated: result[resource_id] = overallocated`
abbrev pub with_dates : ℕ → List Date → Dict (List Date) → Dict (List Date)
with_dates k [] result = result
with_dates k (d ∷ ds) result = (k, d ∷ ds) ∷ result

module _ (repositories : Repositories) where
  unfoldable pub calculate_daily_loading : ℕ → Date → Date → List (Date × ResourceLoadingDay)
  unfolding each_day day_of relevant
  calculate_daily_loading k start_date end_date = elim (repositories.get_resource k) [
    | none ↦ []
    | some resource ↦
        each_day
          (day_of resource (repositories.get_calendar k start_date end_date)
            (relevant start_date end_date (repositories.get_assignments_with_activities k)))
          start_date (span start_date end_date)
  ]

  unfoldable pub get_overallocated_dates : ℕ → Date → Date → List Date
  get_overallocated_dates k start_date end_date =
      overallocated_dates (calculate_daily_loading k start_date end_date)

  -- The program's resources are what `get_by_program` returns, each by its key.
  unfoldable pub aggregate_program_loading :
      List Resource → Date → Date → Dict (List (Date × ResourceLoadingDay))
  aggregate_program_loading resources start_date end_date =
      foldl (λ result r. insert r.id (calculate_daily_loading r.id start_date end_date) result) []
        resources

  unfoldable pub summary_of : Dict (List (Date × ResourceLoadingDay)) → Dict (List Date)
  summary_of [] = []
  summary_of ((k, loading) ∷ d) = with_dates k (overallocated_dates loading) (summary_of d)

  unfoldable pub get_program_overallocation_summary : List Resource → Date → Date → Dict (List Date)
  unfolding summary_of
  get_program_overallocation_summary resources start_date end_date =
      summary_of (aggregate_program_loading resources start_date end_date)
