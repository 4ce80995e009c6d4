-- ===== src/Parallel/Run.antt =====
-- services/parallel_leveling.py: the conflict matrix, the loop over the conflicts and the result.
use defense_pm_tool.Prelude.{
  ℕ, zero, suc, true, ◌==◌, if◌then◌else◌, Option, none, some, List, [], ◌∷◌, ◌++◌, map, length,
}
use defense_pm_tool.Prelude.Int.{ℤ, pos, ◌+ℤ◌, ◌-ℤ◌, leb_ℤ, max_ℤ}
use defense_pm_tool.Prelude.Dict.{Dict, lookup, insert}
use defense_pm_tool.Dates.{Date, is_weekend, next_day, span}
use defense_pm_tool.Loading.{Assignment, Resource}
use defense_pm_tool.Leveling.{
  Activity, LevelingOptions, ActivityShift, LevelingResult, Repositories, Working,
  recalculate_successors,
}
use defense_pm_tool.Leveling.Program.{
  Program, initial_dates, get_project_finish, set_add, count_ids, apply_leveling_result,
}
use defense_pm_tool.Parallel.{
  ResourceConflict, ActivityPriority, calculate_priorities, is_conflict, conflict_of, is_target,
  earliest_start, latest_finish, select_activity_to_delay, calculate_minimum_delay,
}
use defense_pm_tool.Parallel.Heap.{Heapq}

pub record ParallelLevelingResult : Type 0 where
  pub result : LevelingResult
  pub conflicts_resolved : ℤ
  pub resources_processed : ℕ

-- A warning names the resource and the date of a conflict.
pub record State : Type 0 where
  pub activity_dates : Working
  pub shifts : List ActivityShift
  pub warnings : List (ℕ × Date)
  pub conflicts : List ResourceConflict
  pub unique_resources : List ℕ

unfoldable pub shift_of : ℕ → Date → Date → ℤ → ActivityShift
shift_of k start finish delay_days = record {
  activity_id = k;
  original_start = start;
  original_finish = finish;
  new_start = start +ℤ delay_days;
  new_finish = finish +ℤ delay_days;
  delay_days = delay_days;
}

-- A conflict that no activity can be delayed for.
unfoldable pub warn : ResourceConflict → State → State
warn c st = record st { warnings = st.warnings ++ (c.resource_id, c.conflict_date) ∷ [] }

unfoldable pub popped : ResourceConflict → List ResourceConflict → State → State
popped c rest st = record st {
  conflicts = rest;
  unique_resources = set_add st.unique_resources c.resource_id;
}

-- The next round, if this one has not raised.
abbrev pub next_round : (State → Option (ℕ × State)) → Option State → Option (ℕ × State)
next_round again none = none
next_round again (some st) = again st

abbrev pub with_popped :
    (ResourceConflict → List ResourceConflict → Option State)
    → Option (ResourceConflict × List ResourceConflict)
    → Option State
with_popped go none = none
with_popped go (some (c, rest)) = go c rest

abbrev pub unless_empty :
    List ResourceConflict → ℕ → State → Option (ℕ × State) → Option (ℕ × State)
unless_empty [] used st next = some (used, st)
unless_empty (c ∷ l) used st next = next

module _ (heapq : Heapq) (repositories : Repositories) (resources : List Resource)
    (options : LevelingOptions) (fuel : ℕ) where
  -- `while current <= max_date` for one resource.
  unfoldable pub scan :
      Resource
      → List Assignment
      → Working
      → Date
      → ℕ
      → List ResourceConflict
      → List ResourceConflict
  unfolding is_conflict conflict_of
  scan r assignments w d zero conflicts = conflicts
  scan r assignments w d (suc n) conflicts = scan r assignments w (next_day d) n (
      if is_weekend d
      then conflicts
      else (if is_conflict r.capacity_per_day assignments w d
          then heapq.heappush (conflict_of r assignments w d) conflicts
          else conflicts))

  unfoldable pub scan_resource :
      Working
      → Date
      → ℕ
      → Resource
      → List Assignment
      → List ResourceConflict
      → List ResourceConflict
  unfolding scan
  scan_resource w first days r [] conflicts = conflicts
  scan_resource w first days r (a ∷ l) conflicts = scan r (a ∷ l) w first days conflicts

  unfoldable pub scan_all :
      Working → Date → ℕ → List Resource → List ResourceConflict → List ResourceConflict
  unfolding scan_resource
  scan_all w first days [] conflicts = conflicts
  scan_all w first days (r ∷ l) conflicts = scan_all w first days l (
      if is_target options.target_resources r.id
      then scan_resource w first days r (repositories.get_assignments_with_activities r.id)
          conflicts
      else conflicts)

  unfoldable pub build_conflict_matrix : Working → List ResourceConflict
  unfolding scan_all
  build_conflict_matrix [] = []
  build_conflict_matrix ((k, dates) ∷ w) =
      let first = earliest_start dates.0 w in
      let last = latest_finish dates.1 w in
      scan_all ((k, dates) ∷ w) first (span first last) resources []

  -- `_propagate_to_successors` is `_recalculate_successors` of the serial service, text for text.
  unfoldable pub propagate_to_successors : ℕ → Working → Option Working
  propagate_to_successors k w = recalculate_successors repositories fuel k w

  -- The state after the successors have been moved, with the conflicts built anew.
  abbrev pub rebuilt : State → Option Working → Option State
  rebuilt st none = none
  rebuilt st (some w) = some (record st { activity_dates = w; conflicts = build_conflict_matrix w })

  unfoldable pub delay : ℕ → Date × Date → ℤ → State → Option State
  unfolding shift_of propagate_to_successors
  delay k dates delay_days st =
      let shift = shift_of k dates.0 dates.1 delay_days in
      rebuilt (record st { shifts = st.shifts ++ shift ∷ [] })
        (propagate_to_successors k (insert k (shift.new_start, shift.new_finish) st.activity_dates))

  unfoldable pub delay_if : ResourceConflict → ℕ → Option (Date × Date) → State → Option State
  unfolding delay
  delay_if c k none st = none
  delay_if c k (some dates) st =
      let days =
        calculate_minimum_delay repositories k c.resource_id c.conflict_date dates
          st.activity_dates in
      let later = delay k dates days st in if leb_ℤ days (pos 0) then some st else later

  -- One conflict, for the activity that was selected.
  unfoldable pub resolve : ResourceConflict → Option (Option ℕ) → State → Option State
  unfolding delay_if warn
  resolve c none st = none
  resolve c (some none) st = some (warn c st)
  resolve c (some (some k)) st = delay_if c k (lookup k st.activity_dates) st

  -- One round of the loop, for the conflict that was popped.
  unfoldable pub round :
      Dict ActivityPriority → ResourceConflict → List ResourceConflict → State → Option State
  unfolding resolve popped
  round priorities c rest st =
      resolve c (select_activity_to_delay options priorities st.activity_dates c) (popped c rest st)

  -- `while conflicts and iteration < options.max_iterations`
  unfoldable pub run_loop : Dict ActivityPriority → ℕ → ℕ → State → Option (ℕ × State)
  unfolding round
  run_loop priorities zero used st = some (used, st)
  run_loop priorities (suc n) used st =
      let next =
        next_round (run_loop priorities n (suc used))
          (with_popped (λ c rest. round priorities c rest st) (heapq.heappop st.conflicts)) in
      unless_empty st.conflicts used st next

  unfoldable pub unchanged : Date → ParallelLevelingResult
  unchanged finish = record {
    result = record {
      success = true;
      iterations_used = 0;
      activities_shifted = 0;
      shifts = [];
      remaining_overallocations = 0;
      new_project_finish = finish;
      original_project_finish = finish;
      schedule_extension_days = pos 0;
      warnings = [];
    };
    conflicts_resolved = pos 0;
    resources_processed = 0;
  }

  -- `max(dates[1] for dates in activity_dates.values())`; there are dates here.
  abbrev pub last_finish : Working → Date
  last_finish [] = pos 0
  last_finish ((k, dates) ∷ w) = latest_finish dates.1 w

  -- The result after the loop; the warnings are given by their resources.
  unfoldable pub finished : ℕ → Date → ℕ → State → ParallelLevelingResult
  finished initial original used st =
      let finish = last_finish st.activity_dates in
      let remaining = length st.conflicts in
      record {
        result = record {
          success = (remaining == 0);
          iterations_used = used;
          activities_shifted = count_ids st.shifts;
          shifts = st.shifts;
          remaining_overallocations = remaining;
          new_project_finish = finish;
          original_project_finish = original;
          schedule_extension_days = max_ℤ (pos 0) (finish -ℤ original);
          warnings = map (λ x. x.0) st.warnings;
        };
        conflicts_resolved = pos initial -ℤ pos remaining;
        resources_processed = length st.unique_resources;
      }

  -- The levelling, given the conflicts at the start.
  unfoldable pub level_conflicts :
      List Activity → Date → Working → List ResourceConflict → Option ParallelLevelingResult
  unfolding unchanged run_loop finished
  level_conflicts activities original w [] = some (unchanged original)
  level_conflicts activities original w (c ∷ l) =
      elim (run_loop (calculate_priorities repositories activities) options.max_iterations 0
        (record {
          activity_dates = w;
          shifts = [];
          warnings = [];
          conflicts = c ∷ l;
          unique_resources = [];
        })) [ none ↦ none | some end ↦ some (finished (length (c ∷ l)) original end.0 end.1) ]

  -- For a program that is found.
  unfoldable pub level_program : Date → Program → List Activity → Option ParallelLevelingResult
  unfolding level_conflicts unchanged
  level_program today program [] = some (unchanged program.end_date)
  level_program today program (a ∷ l) =
      let w = initial_dates program (a ∷ l) [] in
      level_conflicts (a ∷ l) (get_project_finish today (a ∷ l)) w (build_conflict_matrix w)

unfoldable pub apply_result : ParallelLevelingResult → List Activity → List Activity
apply_result r activities = apply_leveling_result r.result activities
