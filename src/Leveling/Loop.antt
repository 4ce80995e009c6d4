-- ===== src/Leveling/Loop.antt =====
-- services/resource_leveling.py: the loop of `level_program`, which delays one activity at a time.
use defense_pm_tool.Prelude.{
  ℕ, zero, suc, Bool, false, not, ◌&&◌, ◌||◌, ◌==◌, if◌then◌else◌, Option, none, some, List, [],
  ◌∷◌, ◌++◌,
}
use defense_pm_tool.Prelude.Int.{pos, ◌+ℤ◌, ◌-ℤ◌, leb_ℤ}
use defense_pm_tool.Prelude.Dict.{lookup, insert}
use defense_pm_tool.Dates.{Date}
use defense_pm_tool.Loading.{Assignment}
use defense_pm_tool.Leveling.{
  Activity, LevelingOptions, ActivityShift, Repositories, Working, can_delay_activity,
  is_overallocated_on_dates, find_next_available_slot, recalculate_successors,
}

-- What the loop has done so far: `shifts` is in the order of the appends.
pub record State : Type 0 where
  pub working : Working
  pub shifts : List ActivityShift
  pub warnings : List ℕ

-- One assignment of an activity: nothing to do, a change, or an exception.
pub data Step : Type 0 where
  unchanged : State → Step
  changed : State → Step
  stuck : Step

unfoldable pub contains : ℕ → List ℕ → Bool
contains k [] = false
contains k (x ∷ xs) = (x == k) || contains k xs

-- `target_resource_ids is not None and ... not in target_resource_ids`
unfoldable pub is_outside : Option (List ℕ) → ℕ → Bool
unfolding contains
is_outside none k = false
is_outside (some targets) k = not (contains k targets)

unfoldable pub shift_of : Activity → Date → Date → Date → ActivityShift
shift_of a start finish new_start = record {
  activity_id = a.id;
  original_start = start;
  original_finish = finish;
  new_start = new_start;
  new_finish = new_start +ℤ (finish -ℤ start);
  delay_days = new_start -ℤ start;
}

unfoldable pub warn : LevelingOptions → Activity → State → State
warn options a st =
    if options.preserve_critical_path && a.is_critical
    then record st { warnings = st.warnings ++ (a.id ∷ []) }
    else st

-- The state after the successors have been pushed.
abbrev pub pushed : State → Option Working → Step
pushed st none = stuck
pushed st (some w) = changed (record st { working = w })

-- The next round of a loop, if this one changed nothing.
abbrev pub or_else : Step → (State → Step) → Step
or_else (unchanged st) next = next st
or_else (changed st) next = changed st
or_else stuck next = stuck

-- The loop goes on after a change.
abbrev pub next_round : ℕ → (State → Option (ℕ × State)) → Step → Option (ℕ × State)
next_round used again (unchanged st) = some (used, st)
next_round used again (changed st) = again st
next_round used again stuck = none

module _ (repositories : Repositories) (options : LevelingOptions) (fuel : ℕ) where
  -- `current_start` and `current_finish` are read before the loop over the assignments.
  unfoldable pub delay : Activity → Date → Date → Date → State → Step
  unfolding warn shift_of
  delay a start finish new_start st =
      let shift = shift_of a start finish new_start in
      if leb_ℤ shift.delay_days (pos 0)
      then unchanged st
      else (if can_delay_activity a shift.delay_days options
          then pushed (record st { shifts = st.shifts ++ (shift ∷ []) })
              (recalculate_successors repositories fuel a.id
                (insert a.id (new_start, shift.new_finish) st.working))
          else unchanged (warn options a st))

  unfoldable pub level_assignment : Activity → Date → Date → Assignment → State → Step
  unfolding delay
  level_assignment a start finish x st =
      if is_outside options.target_resources x.resource_id
      then unchanged st
      else (if is_overallocated_on_dates repositories x.resource_id start finish st.working
          then delay a start finish
              (find_next_available_slot repositories a.id x.resource_id start st.working) st
          else unchanged st)

  -- The loop over the assignments, which a change ends.
  unfoldable pub level_assignments : Activity → Date → Date → List Assignment → State → Step
  unfolding level_assignment
  level_assignments a start finish [] st = unchanged st
  level_assignments a start finish (x ∷ xs) st =
      or_else (level_assignment a start finish x st) (level_assignments a start finish xs)

  unfoldable pub level_activity : Activity → Option (Date × Date) → State → Step
  unfolding level_assignments
  level_activity a none st = stuck
  level_activity a (some dates) st =
      level_assignments a dates.0 dates.1 (repositories.get_by_activity a.id) st

  -- The loop over the activities, which a change ends.
  unfoldable pub level_once : List Activity → State → Step
  unfolding level_activity
  level_once [] st = unchanged st
  level_once (a ∷ l) st = or_else (level_activity a (lookup a.id st.working) st) (level_once l)

  -- `while iteration < max_iterations`, with the number of iterations used.
  unfoldable pub level_loop : ℕ → ℕ → List Activity → State → Option (ℕ × State)
  unfolding level_once
  level_loop zero used l st = some (used, st)
  level_loop (suc n) used l st = next_round (suc used) (level_loop n (suc used) l) (level_once l st)
