-- ===== src/Leveling/Program.antt =====
-- services/resource_leveling.py: the levelling of a program from its activities to the result, and
-- writing the result.
use defense_pm_tool.Prelude.{
  ℕ, suc, Bool, true, ◌==◌, leb, if◌then◌else◌, Option, none, some, List, [], ◌∷◌, ◌++◌, foldl, map,
  length,
}
use defense_pm_tool.Prelude.Int.{ℤ, pos, ◌-ℤ◌, leb_ℤ, ltb_ℤ, eqb_ℤ, max_ℤ, min_ℤ}
use defense_pm_tool.Prelude.Dict.{Dict, lookup, insert, values}
use defense_pm_tool.Prelude.Sort.{sort_by}
use defense_pm_tool.Dates.{Date, or_date}
use defense_pm_tool.Loading.{Resource}
use defense_pm_tool.Leveling.{
  Activity, LevelingOptions, ActivityShift, LevelingResult, Repositories, Working,
  is_overallocated_on_dates,
}
use defense_pm_tool.Leveling.Loop.{State, contains, is_outside, level_loop}

-- The ordinals of `date.min` and `date.max`.
abbrev pub date_min : Date
date_min = pos 1

abbrev pub date_max : Date
date_max = pos 3652059

abbrev pub given : Date → Option Date → Date
given d none = d
given d (some x) = x

-- The key `(start, total_float, id)`; the working dates that the source builds for it hold every
-- activity, by its early or else its planned start.
pub record Priority : Type 0 where
  pub start : Date
  pub total_float : ℤ
  pub id : ℕ

abbrev pub or_large : Option ℤ → ℤ
or_large none = pos 9999
or_large (some f) = f

unfoldable pub get_leveling_priority : Activity → Priority
get_leveling_priority a = record {
  start = given date_max (or_date a.early_start a.planned_start);
  total_float = or_large a.total_float;
  id = a.id;
}

unfoldable pub no_later : Priority → Priority → Bool
no_later p q =
    if eqb_ℤ p.start q.start
    then (if eqb_ℤ p.total_float q.total_float
        then leb p.id q.id
        else ltb_ℤ p.total_float q.total_float)
    else ltb_ℤ p.start q.start

unfoldable pub get_sorted_activities : List Activity → List Activity
unfolding get_leveling_priority no_later
get_sorted_activities activities =
    sort_by (λ a b. no_later (get_leveling_priority a) (get_leveling_priority b)) activities

-- `if finish and finish > max_finish`
abbrev pub later : Date → Option Date → Date
later m none = m
later m (some d) = if ltb_ℤ m d then d else m

unfoldable pub latest_finish : Date → List Activity → Date
latest_finish m [] = m
latest_finish m (a ∷ l) = latest_finish (later m (or_date a.early_finish a.planned_finish)) l

-- `_get_project_finish` for a program that has activities; `today` is `date.today()`.
unfoldable pub get_project_finish : Date → List Activity → Date
unfolding latest_finish
get_project_finish today activities =
    let finish = latest_finish date_min activities in
    if ltb_ℤ date_min finish then finish else today

-- The program's own dates.
pub record Program : Type 0 where
  pub start_date : Date
  pub end_date : Date

unfoldable pub initial_dates : Program → List Activity → Working → Working
initial_dates program [] w = w
initial_dates program (a ∷ l) w = initial_dates program l (
    insert a.id
      (
        given program.start_date (or_date a.early_start a.planned_start),
        given program.end_date (or_date a.early_finish a.planned_finish),
      )
      w)

unfoldable pub earliest_of : List (Date × Date) → Date
earliest_of l = foldl (λ d x. min_ℤ d x.0) date_max l

unfoldable pub latest_of : Date → List (Date × Date) → Date
latest_of d l = foldl (λ m x. max_ℤ m x.1) d l

unfoldable pub set_add : List ℕ → ℕ → List ℕ
set_add ids k = if contains k ids then ids else ids ++ (k ∷ [])

-- `len({s.activity_id for s in shifts})`
unfoldable pub count_ids : List ActivityShift → ℕ
unfolding set_add
count_ids shifts = length (foldl (λ ids s. set_add ids s.activity_id) [] shifts)

module _ (repositories : Repositories) where
  -- `resources` are those that `get_by_program` returns.
  unfoldable pub count_remaining_overallocations : List Resource → Option (List ℕ) → Working → ℕ
  count_remaining_overallocations [] targets w = 0
  count_remaining_overallocations (r ∷ rs) targets w =
      let rest = count_remaining_overallocations rs targets w in
      let first = earliest_of (values w) in
      let last = latest_of date_min (values w) in
      if is_outside targets r.id
      then rest
      else (if leb_ℤ last first
          then rest
          else (if is_overallocated_on_dates repositories r.id first last w
              then suc rest
              else rest))

  -- The result after the loop.
  unfoldable pub finished : LevelingOptions → List Resource → Date → ℕ → State → LevelingResult
  unfolding latest_of count_ids
  finished options resources original used st =
      let remaining =
        count_remaining_overallocations resources options.target_resources st.working in
      let finish = latest_of original (values st.working) in
      record {
        success = (remaining == 0);
        iterations_used = used;
        activities_shifted = count_ids st.shifts;
        shifts = st.shifts;
        remaining_overallocations = remaining;
        new_project_finish = finish;
        original_project_finish = original;
        schedule_extension_days = max_ℤ (finish -ℤ original) (pos 0);
        warnings = st.warnings;
      }

  -- For a program that is found. `activities` are those of `get_by_program`.
  unfoldable pub level_program :
      LevelingOptions → ℕ → Date → Program → List Resource → List Activity → Option LevelingResult
  unfolding get_sorted_activities initial_dates finished get_project_finish
  level_program options fuel today program resources [] = some (record {
    success = true;
    iterations_used = 0;
    activities_shifted = 0;
    shifts = [];
    remaining_overallocations = 0;
    new_project_finish = program.end_date;
    original_project_finish = program.end_date;
    schedule_extension_days = pos 0;
    warnings = [];
  })
  level_program options fuel today program resources (a ∷ l) =
      let sorted = get_sorted_activities (a ∷ l) in
      let original = get_project_finish today (a ∷ l) in
      let start = initial_dates program sorted [] in
      elim (level_loop repositories options fuel options.max_iterations 0 sorted
        (record { working = start; shifts = []; warnings = [] })) [
          | none ↦ none
          | some end ↦ some (finished options resources original end.0 end.1)
        ]

-- `final_shifts`: of two shifts of an activity the later stands.
unfoldable pub final_shifts : List ActivityShift → Dict ActivityShift
final_shifts shifts = foldl (λ d s. insert s.activity_id s d) [] shifts

-- The activity rows after `apply_leveling_result`.
unfoldable pub apply_shift : Dict ActivityShift → Activity → Activity
apply_shift d a = elim (lookup a.id d) [
  | none ↦ a
  | some s ↦ record a { planned_start = some s.new_start; planned_finish = some s.new_finish }
]

unfoldable pub apply_leveling_result : LevelingResult → List Activity → List Activity
unfolding final_shifts apply_shift
apply_leveling_result result activities = map (apply_shift (final_shifts result.shifts)) activities
