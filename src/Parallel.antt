-- ===== src/Parallel.antt =====
-- services/parallel_leveling.py: the conflicts of all resources in one priority queue, resolved one
-- by one. heapq is the interface `Heapq`. `none` stands for a KeyError or for recursion without end.
pub mod Heap
pub mod Run
pub mod Days
pub mod Conflicts
pub mod Legal
pub mod Dated
pub mod Rounds
pub mod Result
mod Tests
use defense_pm_tool.Prelude.{
  ℕ, zero, suc, ◌+◌, Bool, true, false, not, ◌&&◌, ◌||◌, ◌==◌, ltb, if◌then◌else◌, Option, none,
  some, List, [], ◌∷◌, ◌++◌, foldl, map, length,
}
use defense_pm_tool.Prelude.Int.{ℤ, pos, ◌+ℤ◌, ◌-ℤ◌, ltb_ℤ, leb_ℤ, eqb_ℤ, min_ℤ, max_ℤ}
use defense_pm_tool.Prelude.Dict.{Dict, lookup, insert}
use defense_pm_tool.Prelude.Sort.{sort_by}
use defense_pm_tool.Decimal.{Decimal, whole, ◌+ᴰ◌, ◌-ᴰ◌, ◌*ᴰ◌, less}
use defense_pm_tool.Dates.{Date, is_weekend, next_day, span, or_date}
use defense_pm_tool.Loading.{Assignment, Resource}
use defense_pm_tool.Leveling.{
  Activity, LevelingOptions, Repositories, Working, is_within, any_workday, first_fit,
}
use defense_pm_tool.Leveling.Loop.{contains}
use defense_pm_tool.Leveling.Program.{date_max, given, or_large}

pub record ResourceConflict : Type 0 where
  pub resource_id : ℕ
  pub conflict_date : Date
  pub overallocation_hours : Decimal
  pub activities : List ℕ

-- `ResourceConflict.__lt__`
unfoldable pub sooner : ResourceConflict → ResourceConflict → Bool
sooner a b =
    if not (eqb_ℤ a.conflict_date b.conflict_date)
    then ltb_ℤ a.conflict_date b.conflict_date
    else less b.overallocation_hours a.overallocation_hours

pub record ActivityPriority : Type 0 where
  pub activity_id : ℕ
  pub early_start : Date
  pub total_float : ℤ
  pub is_critical : Bool
  pub resource_count : ℕ

abbrev pub group : Bool → ℕ
group is_critical = if is_critical then 0 else 1

-- `self.score < other.score`, and then the ids: tuples compare item by item.
unfoldable pub lower : ActivityPriority → ActivityPriority → Bool
lower a b =
    if not (group a.is_critical == group b.is_critical)
    then ltb (group a.is_critical) (group b.is_critical)
    else (if not (eqb_ℤ a.early_start b.early_start)
        then ltb_ℤ a.early_start b.early_start
        else (if not (eqb_ℤ a.total_float b.total_float)
            then ltb_ℤ a.total_float b.total_float
            else (if not (a.resource_count == b.resource_count)
                then ltb b.resource_count a.resource_count
                else ltb a.activity_id b.activity_id)))

unfoldable pub priority_of : Repositories → Activity → ActivityPriority
priority_of repositories a = record {
  activity_id = a.id;
  early_start = given date_max (or_date a.early_start a.planned_start);
  total_float = or_large a.total_float;
  is_critical = a.is_critical;
  resource_count = length (repositories.get_by_activity a.id);
}

unfoldable pub calculate_priorities : Repositories → List Activity → Dict ActivityPriority
unfolding priority_of
calculate_priorities repositories activities =
    foldl (λ d a. insert a.id (priority_of repositories a) d) [] activities

-- The assignment's activity has dates, and is under way on the day.
unfoldable pub is_held : Working → Date → Assignment → Bool
is_held w d a = is_within d (lookup a.activity_id w)

-- The hours on a day of the assignments that `skip` does not leave out.
unfoldable pub load_on : (ℕ → Bool) → Decimal → List Assignment → Working → Date → Decimal
unfolding is_held
load_on skip capacity assignments w d =
    foldl
      (λ total a.
        if not (skip a.activity_id) && is_held w d a then total +ᴰ a.units *ᴰ capacity else total)
      (whole 0) assignments

unfoldable pub activities_on : List Assignment → Working → Date → List ℕ
unfolding is_held
activities_on [] w d = []
activities_on (a ∷ l) w d =
    let rest = activities_on l w d in if is_held w d a then a.activity_id ∷ rest else rest

-- `total_load > capacity and len(activities_on_day) > 1`
unfoldable pub is_conflict : Decimal → List Assignment → Working → Date → Bool
unfolding load_on activities_on
is_conflict capacity assignments w d =
    less capacity (load_on (λ k. false) capacity assignments w d)
    && ltb 1 (length (activities_on assignments w d))

unfoldable pub conflict_of : Resource → List Assignment → Working → Date → ResourceConflict
unfolding load_on activities_on
conflict_of r assignments w d = record {
  resource_id = r.id;
  conflict_date = d;
  overallocation_hours =
      load_on (λ k. false) r.capacity_per_day assignments w d -ᴰ r.capacity_per_day;
  activities = activities_on assignments w d;
}

-- `set(options.target_resources) if options.target_resources else None`
abbrev pub is_target : Option (List ℕ) → ℕ → Bool
is_target none k = true
is_target (some []) k = true
is_target (some (x ∷ l)) k = contains k (x ∷ l)

-- The earliest start and the latest finish; `none` if there are no dates.
unfoldable pub earliest_start : Date → Working → Date
earliest_start m [] = m
earliest_start m ((k, dates) ∷ w) = earliest_start (min_ℤ m dates.0) w

unfoldable pub latest_finish : Date → Working → Date
latest_finish m [] = m
latest_finish m ((k, dates) ∷ w) = latest_finish (max_ℤ m dates.1) w

-- What `activity_to_delay` is chosen from: the options allow it to be delayed from its start `s`.
unfoldable pub is_candidate : LevelingOptions → ActivityPriority → Date → Bool
is_candidate options p s =
    if options.preserve_critical_path && p.is_critical
    then false
    else (if options.level_within_float
        then not (leb_ℤ p.total_float (s -ℤ p.early_start))
        else true)

-- One activity of the conflict, before the rest of the candidates.
unfoldable pub add_candidate :
    LevelingOptions
    → Option ActivityPriority
    → Option (Date × Date)
    → Option (List ActivityPriority)
    → Option (List ActivityPriority)
unfolding is_candidate
add_candidate options none dates rest = rest
add_candidate options (some p) dates none = none
add_candidate options (some p) none (some rest) =
    if options.preserve_critical_path && p.is_critical
    then some rest
    else (if options.level_within_float then none else some (p ∷ rest))
add_candidate options (some p) (some dates) (some rest) =
    if is_candidate options p dates.0 then some (p ∷ rest) else some rest

unfoldable pub candidates :
    LevelingOptions → Dict ActivityPriority → Working → List ℕ → Option (List ActivityPriority)
unfolding add_candidate
candidates options priorities w [] = some []
candidates options priorities w (k ∷ l) =
    add_candidate options (lookup k priorities) (lookup k w) (candidates options priorities w l)

abbrev pub first_of : List ActivityPriority → Option ℕ
first_of [] = none
first_of (p ∷ l) = some p.activity_id

-- `candidates.sort(reverse=True)`, and the first.
unfoldable pub greatest : List ActivityPriority → Option ℕ
unfolding lower
greatest l = first_of (sort_by (λ a b. not (lower a b)) l)

-- The outer `none` is a KeyError.
unfoldable pub select_activity_to_delay :
    LevelingOptions → Dict ActivityPriority → Working → ResourceConflict → Option (Option ℕ)
unfolding candidates greatest
select_activity_to_delay options priorities w c =
    elim (candidates options priorities w c.activities) [ none ↦ none | some l ↦ some (greatest l) ]

-- The units of the first assignment of the activity.
unfoldable pub units_of : ℕ → List Assignment → Option Decimal
units_of k [] = none
units_of k (a ∷ l) = if a.activity_id == k then some a.units else units_of k l

-- On a day the activity and the others ask more than there is.
unfoldable pub is_crowded : ℕ → Decimal → Decimal → List Assignment → Working → Date → Bool
unfolding load_on
is_crowded k units capacity assignments w d =
    less capacity (load_on (λ j. j == k) capacity assignments w d +ᴰ units *ᴰ capacity)

-- `slot_works` for a candidate and the activity's length in days.
unfoldable pub slot_works : ℕ → Decimal → Decimal → List Assignment → Working → ℤ → Date → Bool
unfolding is_crowded
slot_works k units capacity assignments w duration d =
    not (any_workday (is_crowded k units capacity assignments w) d (span d (d +ℤ duration)))

-- The days to the slot that was found, or 365.
abbrev pub days_to : Date → Option Date → ℤ
days_to start none = pos 365
days_to start (some d) = d -ℤ start

-- `_calculate_minimum_delay` of an activity that has dates.
unfoldable pub calculate_minimum_delay : Repositories → ℕ → ℕ → Date → Date × Date → Working → ℤ
unfolding units_of slot_works
calculate_minimum_delay repositories k resource_id conflict_date dates w =
    elim (repositories.get_resource resource_id) [
      | none ↦ pos 1
      | some r ↦
          let assignments = repositories.get_assignments_with_activities resource_id in
          elim (units_of k assignments) [
            | none ↦ pos 1
            | some units ↦ days_to dates.0 (
                first_fit (slot_works k units r.capacity_per_day assignments w (dates.1 -ℤ dates.0))
                  365 (next_day conflict_date))
          ]
    ]
