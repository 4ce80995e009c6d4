-- ===== src/Scenarios/Apply.antt =====
-- services/scenario_apply.py: ScenarioApplyService, and apply_scenario_changes of the endpoint.
use defense_pm_tool.Prelude.{
  ℕ, ◌+◌, Bool, true, false, not, ◌&&◌, ◌==◌, if◌then◌else◌, Option, none, some, List, [], ◌∷◌,
  ◌++◌,
}
use defense_pm_tool.Scenarios.{
  EntityType, activity, wbs, dependency, other_entity, ChangeType, create, update, delete,
  other_change, Value, ScenarioChange, Row, Status, draft, active, promoted, archived, Scenario,
  Database, Table, activities, wbs_elements, dependencies, rows_of, Session, rollback, commit,
  Result, ok, failed, lost, Backend, data_argument, add_dependency, plain, mapping, get_by_id,
  delete_row, update_row, unwrap,
}

pub data Error : Type 0 where
  confirm_required : Error
  scenario_not_found : Error
  program_not_found : Error
  not_authorized : Error
  already_promoted : Error
  scenario_archived : Error
  database_error : Error

-- An error names the entity of the change that failed.
pub record ApplyResult : Type 0 where
  pub success : Bool
  pub changes_applied : ℕ
  pub changes_failed : ℕ
  pub activities_modified : ℕ
  pub wbs_modified : ℕ
  pub dependencies_modified : ℕ
  pub errors : List (EntityType × ℕ)

abbrev pub no_changes : ApplyResult
no_changes = record {
  success = true;
  changes_applied = 0;
  changes_failed = 0;
  activities_modified = 0;
  wbs_modified = 0;
  dependencies_modified = 0;
  errors = [];
}

-- `ScenarioRepository.get`
unfoldable pub get_scenario : ℕ → List Scenario → Option Scenario
get_scenario k [] = none
get_scenario k (s ∷ l) = if (s.id == k) && not s.is_deleted then some s else get_scenario k l

-- `ScenarioRepository.archive`
unfoldable pub archive_in : ℕ → List Scenario → List Scenario
archive_in k [] = []
archive_in k (s ∷ l) =
    let rest = archive_in k l in
    if (s.id == k) && not s.is_deleted
    then record s { status = archived; is_active = false } ∷ l
    else s ∷ rest

unfoldable pub archive : ℕ → Database → Database
unfolding archive_in
archive k db = record db { scenarios = archive_in k db.scenarios }

abbrev pub status_error : Status → Option Error
status_error draft = none
status_error active = none
status_error promoted = some already_promoted
status_error archived = some scenario_archived

-- `none` if the scenario may be applied.
unfoldable pub validate_scenario : Option Scenario → Option Error
validate_scenario none = some scenario_not_found
validate_scenario (some s) = status_error s.status

unfoldable pub count_modified : EntityType → ApplyResult → ApplyResult
count_modified activity r = record r { activities_modified = r.activities_modified + 1 }
count_modified wbs r = record r { wbs_modified = r.wbs_modified + 1 }
count_modified dependency r = record r { dependencies_modified = r.dependencies_modified + 1 }
count_modified other_entity r = r

-- How far the loop over the changes has come, or that an exception has ended it.
pub data Progress : Type 0 where
  going : ApplyResult → Session → Progress
  stopped : Session → Progress

-- The outcome of the service or the endpoint: an exception, or a result.
pub data Outcome : Type 0 where
  raised : Error → Outcome
  returned : ApplyResult → Outcome

module _ (backend : Backend) where
  unfoldable pub flush : Database → Session → Result
  flush db s = if backend.accepts db then ok (record s { now = db }) else lost (rollback s)

  -- `if change.change_type == "update" and change.field_name`
  unfoldable pub update_if : Table → ScenarioChange → ChangeType → Option ℕ → Session → Result
  unfolding flush
  update_if t c update (some field) s =
      flush (update_row t c.entity_id field (unwrap c.new_value) s.now) s
  update_if t c update none s = ok s
  update_if t c create field s = ok s
  update_if t c delete field s = ok s
  update_if t c other_change field s = ok s

  -- The change of a row that is not deleted.
  unfoldable pub apply_to_row : Table → ScenarioChange → Option Row → Session → Result
  unfolding update_if
  apply_to_row t c none s = failed s
  apply_to_row t c (some row) s = update_if t c c.change_type c.field_name s

  -- `BaseRepository.delete`: a row that is not found is left alone.
  unfoldable pub delete_found : Table → ℕ → Option Row → Session → Result
  unfolding flush
  delete_found t k none s = ok s
  delete_found t k (some row) s = flush (delete_row t k s.now) s

  -- `_apply_activity_change` and `_apply_wbs_change`
  unfoldable pub apply_row_change : Table → ChangeType → ScenarioChange → Session → Result
  unfolding apply_to_row delete_found
  apply_row_change t delete c s =
      delete_found t c.entity_id (get_by_id c.entity_id (rows_of t s.now)) s
  apply_row_change t create c s = apply_to_row t c (get_by_id c.entity_id (rows_of t s.now)) s
  apply_row_change t update c s = apply_to_row t c (get_by_id c.entity_id (rows_of t s.now)) s
  apply_row_change t other_change c s = apply_to_row t c (get_by_id c.entity_id (rows_of t s.now)) s

  -- `self.model(**data)`, and the new row is flushed.
  unfoldable pub create_row : Option Row → Session → Result
  unfolding flush
  create_row none s = failed s
  create_row (some row) s = flush (add_dependency row s.now) s

  unfoldable pub create_with : Option Value → Session → Result
  unfolding create_row
  create_with none s = failed s
  create_with (some (plain v)) s = failed s
  create_with (some (mapping m)) s = create_row (backend.construct m) s

  -- `if isinstance(change.new_value, dict): create(**change.new_value)`
  unfoldable pub create_dependency : Value → Session → Result
  unfolding create_with
  create_dependency (plain v) s = ok s
  create_dependency (mapping m) s = create_with (data_argument m) s

  unfoldable pub apply_dependency_change : ChangeType → ScenarioChange → Session → Result
  unfolding apply_row_change create_dependency
  apply_dependency_change create c s = create_dependency c.new_value s
  apply_dependency_change update c s = apply_row_change dependencies update c s
  apply_dependency_change delete c s = apply_row_change dependencies delete c s
  apply_dependency_change other_change c s = apply_row_change dependencies other_change c s

  -- `change_handlers`; a change of another entity is passed over.
  unfoldable pub handle : EntityType → ScenarioChange → Session → Option Result
  unfolding apply_row_change apply_dependency_change
  handle activity c s = some (apply_row_change activities c.change_type c s)
  handle wbs c s = some (apply_row_change wbs_elements c.change_type c s)
  handle dependency c s = some (apply_dependency_change c.change_type c s)
  handle other_entity c s = none

  -- The counts after one change.
  unfoldable pub note : ScenarioChange → Session → Option Result → ApplyResult → Progress
  unfolding count_modified
  note c s none r = going r s
  note c s (some (ok s')) r =
      going (count_modified c.entity_type (record r { changes_applied = r.changes_applied + 1 })) s'
  note c s (some (failed s')) r =
      going
        (record r {
          changes_failed = r.changes_failed + 1;
          errors = r.errors ++ (c.entity_type, c.entity_id) ∷ [];
          success = false;
        })
        s'
  note c s (some (lost s')) r = stopped s'

  abbrev pub go_on : (ApplyResult → Session → Progress) → Progress → Progress
  go_on next (going r s) = next r s
  go_on next (stopped s) = stopped s

  unfoldable pub apply_all_changes : List ScenarioChange → ApplyResult → Session → Progress
  unfolding handle note
  apply_all_changes [] r s = going r s
  apply_all_changes (c ∷ l) r s =
      go_on (apply_all_changes l) (note c s (handle c.entity_type c s) r)

  -- The result, unless the flush at the end is refused.
  abbrev pub finish : ApplyResult → Result → Outcome × Session
  finish r (ok s) = (returned r, s)
  finish r (failed s) = (raised database_error, s)
  finish r (lost s) = (raised database_error, s)

  -- `if result.success: archive`
  unfoldable pub archive_if : ℕ → Progress → Outcome × Session
  unfolding archive flush
  archive_if k (stopped s) = (raised database_error, s)
  archive_if k (going r s) =
      if r.success then finish r (flush (archive k s.now) s) else (returned r, s)

  abbrev pub apply_changes_to : ℕ → List ScenarioChange → Session → Outcome × Session
  apply_changes_to k [] s = (returned no_changes, s)
  apply_changes_to k (c ∷ l) s = archive_if k (apply_all_changes (c ∷ l) no_changes s)

  abbrev pub unless_error : Option Error → Outcome × Session → Session → Outcome × Session
  unless_error (some e) next s = (raised e, s)
  unless_error none next s = next

  -- `changes` are those that the repository has for the scenario, in the order of their creation.
  unfoldable pub apply_changes : ℕ → Bool → (ℕ → List ScenarioChange) → Session → Outcome × Session
  unfolding validate_scenario get_scenario apply_all_changes archive_if
  apply_changes k confirm changes s =
      if confirm
      then unless_error (validate_scenario (get_scenario k s.now.scenarios))
          (apply_changes_to k (changes k) s) s
      else (raised confirm_required, s)

  -- The end of the request: an exception rolls the session back.
  unfoldable pub settle : Outcome × Session → Outcome × Session
  settle (raised e, s) = (raised e, rollback s)
  settle (returned r, s) = (returned r, if r.success then commit s else rollback s)

  -- What is checked before the service is called; `is_program` and `is_allowed` say whether the
  -- program of the scenario is found and the user may modify it.
  unfoldable pub check_access : Bool → Bool → Bool → Option Scenario → Option Error
  check_access confirm is_program is_allowed found =
      if confirm
      then elim found [
        | none ↦ some scenario_not_found
        | some s ↦
            if is_program
            then (if is_allowed then none else some not_authorized)
            else some program_not_found
      ]
      else some confirm_required

  abbrev pub unless_denied : Option Error → Outcome × Session → Session → Outcome × Session
  unless_denied (some e) next s = (raised e, s)
  unless_denied none next s = next

  unfoldable pub apply_scenario_changes :
      ℕ → Bool → Bool → Bool → (ℕ → List ScenarioChange) → Session → Outcome × Session
  unfolding check_access apply_changes settle get_scenario
  apply_scenario_changes k confirm is_program is_allowed changes s = settle (
      unless_denied (check_access confirm is_program is_allowed (get_scenario k s.now.scenarios))
        (apply_changes k true changes s) s)
