-- ===== src/Overallocation.antt =====
-- services/overallocation.py: the periods in which a resource is assigned more hours than it has.
-- Codes and names, which are texts, are left out, and a set that becomes a list is in the order of
-- its insertions.
pub mod Group
pub mod Days
pub mod Detect
pub mod Program
pub mod Merge
mod Tests
use defense_pm_tool.Prelude.{
  ℕ, Bool, true, false, not, ◌&&◌, ◌||◌, ◌==◌, ltb, if◌then◌else◌, Option, none, some, List, [],
  ◌∷◌, ◌++◌, foldl, map, length,
}
use defense_pm_tool.Prelude.Int.{ℤ, pos, ◌+ℤ◌, ◌-ℤ◌, ltb_ℤ, leb_ℤ, eqb_ℤ, max_ℤ}
use defense_pm_tool.Prelude.Sort.{sort_by}
use defense_pm_tool.Decimal.{Decimal, whole, ◌-ᴰ◌, less}
use defense_pm_tool.Dates.{Date, next_day}
use defense_pm_tool.Loading.{
  Repositories, Resource, Assignment, ResourceLoadingDay, overlaps, calculate_daily_loading,
}

pub data Severity : Type 0 where
  low medium high : Severity

-- A run of days with its peak: `current_start` to `peak_excess` of the loop.
pub record Run : Type 0 where
  pub start_date : Date
  pub end_date : Date
  pub peak_assigned : Decimal
  pub peak_available : Decimal
  pub peak_excess : Decimal

pub record OverallocationPeriod : Type 0 where
  pub resource_id : ℕ
  pub run : Run
  pub affected_activities : List ℕ

unfoldable pub duration_days : Run → ℤ
duration_days r = r.end_date -ℤ r.start_date +ℤ pos 1

unfoldable pub severity : Run → Severity
severity r =
    if not (less (whole 2) r.peak_excess)
    then low
    else (if not (less (whole 4) r.peak_excess) then medium else high)

abbrev pub is_high : Severity → Bool
is_high high = true
is_high _ = false

pub record ProgramOverallocationReport : Type 0 where
  pub total_overallocations : ℕ
  pub resources_affected : ℕ
  pub periods : List OverallocationPeriod
  pub critical_path_affected : Bool

unfoldable pub total_days : List OverallocationPeriod → ℤ
total_days [] = pos 0
total_days (p ∷ ps) = duration_days p.run +ℤ total_days ps

unfoldable pub any_high : List OverallocationPeriod → Bool
any_high [] = false
any_high (p ∷ ps) = is_high (severity p.run) || any_high ps

unfoldable pub has_high_severity : ProgramOverallocationReport → Bool
unfolding any_high
has_high_severity r = any_high r.periods

unfoldable pub total_affected_days : ProgramOverallocationReport → ℤ
unfolding total_days
total_affected_days r = total_days r.periods

pub record OverallocatedDay : Type 0 where
  pub date : Date
  pub assigned : Decimal
  pub available : Decimal

-- The first loop of the detection.
unfoldable pub overallocated_days : List (Date × ResourceLoadingDay) → List OverallocatedDay
overallocated_days [] = []
overallocated_days ((d, day) ∷ days) =
    let rest = overallocated_days days in
    if day.is_overallocated
    then record { date = d; assigned = day.assigned_hours; available = day.available_hours } ∷ rest
    else rest

unfoldable pub start_run : OverallocatedDay → Run
start_run x = record {
  start_date = x.date;
  end_date = x.date;
  peak_assigned = x.assigned;
  peak_available = x.available;
  peak_excess = x.assigned -ᴰ x.available;
}

unfoldable pub extend_run : Run → OverallocatedDay → Run
extend_run r x =
    let excess = x.assigned -ᴰ x.available in
    if less r.peak_excess excess
    then record {
      start_date = r.start_date;
      end_date = x.date;
      peak_assigned = x.assigned;
      peak_available = x.available;
      peak_excess = excess;
    }
    else record r { end_date = x.date }

-- The second loop: the days from the second on, with the run that is open.
unfoldable pub group_from : Run → List OverallocatedDay → List Run
group_from r [] = r ∷ []
group_from r (x ∷ xs) =
    let joined = group_from (extend_run r x) xs in
    let apart = group_from (start_run x) xs in
    if eqb_ℤ x.date (next_day r.end_date) then joined else r ∷ apart

unfoldable pub group : List OverallocatedDay → List Run
unfolding group_from
group [] = []
group (x ∷ xs) = group_from (start_run x) xs

abbrev pub by_date : Date × ResourceLoadingDay → Date × ResourceLoadingDay → Bool
by_date a b = leb_ℤ a.0 b.0

unfoldable pub contains : ℕ → List ℕ → Bool
contains k [] = false
contains k (x ∷ xs) = (x == k) || contains k xs

unfoldable pub add : List ℕ → ℕ → List ℕ
unfolding contains
add xs k = if contains k xs then xs else xs ++ (k ∷ [])

unfoldable pub affected_by : Date → Date → List Assignment → List ℕ
unfolding add
affected_by start_date end_date assignments =
    foldl (λ found a. if overlaps start_date end_date a then add found a.activity_id else found) []
      assignments

module _ (repositories : Repositories) where
  -- `end_date` is always given.
  unfoldable pub get_affected_activities : ℕ → Date → Date → List ℕ
  unfolding affected_by
  get_affected_activities k start_date end_date =
      affected_by start_date end_date (repositories.get_assignments_with_activities k)

  unfoldable pub period : ℕ → Run → OverallocationPeriod
  period k r = record {
    resource_id = k;
    run = r;
    affected_activities = get_affected_activities k r.start_date r.end_date;
  }

  unfoldable pub detect_resource_overallocations : ℕ → Date → Date → List OverallocationPeriod
  unfolding group period
  detect_resource_overallocations k start_date end_date = map (period k) (
      group (
        overallocated_days
          (sort_by by_date (calculate_daily_loading repositories k start_date end_date))))

  abbrev pub unless_none : {A : Type 0} → ℕ → List A → List ℕ → List ℕ
  unless_none k [] found = found
  unless_none k (p ∷ ps) found = add found k

  -- The loop over the resources: the periods so far and the resources that have some.
  unfoldable pub detect_each :
      List Resource
      → Date
      → Date
      → List OverallocationPeriod
      → List ℕ
      → List OverallocationPeriod × List ℕ
  detect_each [] start_date end_date all_periods found = (all_periods, found)
  detect_each (r ∷ rs) start_date end_date all_periods found =
      let periods = detect_resource_overallocations r.id start_date end_date in
      detect_each rs start_date end_date (all_periods ++ periods) (unless_none r.id periods found)

  module _ (is_critical : ℕ → Option Bool) where
    -- `is_critical` is the flag of an activity that is found, and `none` for one that is not.
    abbrev pub flag : Option Bool → Bool
    flag none = false
    flag (some b) = b

    unfoldable pub any_critical : List ℕ → Bool
    any_critical [] = false
    any_critical (k ∷ ks) = flag (is_critical k) || any_critical ks

    unfoldable pub affected_ids : List OverallocationPeriod → List ℕ
    affected_ids periods = foldl (λ ids p. foldl add ids p.affected_activities) [] periods

    unfoldable pub check_critical_path_impact : List OverallocationPeriod → Bool
    unfolding any_critical affected_ids
    check_critical_path_impact periods = any_critical (affected_ids periods)

    -- For a program that is found, with both dates given.
    unfoldable pub detect_program_overallocations :
        List Resource → Date → Date → ProgramOverallocationReport
    unfolding detect_each
    detect_program_overallocations resources start_date end_date =
        let (periods, found) = detect_each resources start_date end_date [] [] in
        record {
          total_overallocations = length periods;
          resources_affected = length found;
          periods = periods;
          critical_path_affected = check_critical_path_impact periods;
        }

abbrev later_of : Date → Date → Date
later_of a b = if ltb_ℤ a b then b else a

abbrev greater : Decimal → Decimal → Decimal
greater a b = if less a b then b else a

abbrev lesser : Decimal → Decimal → Decimal
lesser a b = if less b a then b else a

-- `(p.resource_id, p.start_date)` in lexicographic order
unfoldable pub by_start : OverallocationPeriod → OverallocationPeriod → Bool
by_start p q =
    if p.resource_id == q.resource_id
    then leb_ℤ p.run.start_date q.run.start_date
    else ltb p.resource_id q.resource_id

unfoldable pub merge_runs : Run → Run → Run
merge_runs r s = record {
  start_date = r.start_date;
  end_date = later_of r.end_date s.end_date;
  peak_assigned = greater r.peak_assigned s.peak_assigned;
  peak_available = lesser r.peak_available s.peak_available;
  peak_excess = greater r.peak_excess s.peak_excess;
}

unfoldable pub merge_two : OverallocationPeriod → OverallocationPeriod → OverallocationPeriod
unfolding merge_runs add
merge_two p q = record {
  resource_id = p.resource_id;
  run = merge_runs p.run q.run;
  affected_activities = foldl add [] (p.affected_activities ++ q.affected_activities);
}

unfoldable pub merge_from :
    OverallocationPeriod → List OverallocationPeriod → List OverallocationPeriod
unfolding merge_two
merge_from current [] = current ∷ []
merge_from current (p ∷ ps) =
    let joined = merge_from (merge_two current p) ps in
    let apart = merge_from p ps in
    if (p.resource_id == current.resource_id)
      && leb_ℤ p.run.start_date (next_day current.run.end_date)
    then joined
    else current ∷ apart

unfoldable pub merge_sorted : List OverallocationPeriod → List OverallocationPeriod
unfolding merge_from
merge_sorted [] = []
merge_sorted (p ∷ ps) = merge_from p ps

unfoldable pub merge_adjacent_periods : List OverallocationPeriod → List OverallocationPeriod
unfolding merge_sorted by_start
merge_adjacent_periods periods = merge_sorted (sort_by by_start periods)
