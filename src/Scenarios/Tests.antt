-- ===== src/Scenarios/Tests.antt =====
-- A scenario with one activity: an update of its duration, and another change after it.
use defense_pm_tool.Prelude.{
  ℕ, Bool, ◌==◌, if◌then◌else◌, ◌≡◌, refl, true, false, none, some, List, [], ◌∷◌,
}
use defense_pm_tool.Prelude.Dict.{lookup, insert}
use defense_pm_tool.Prelude.Sort.{any}
use defense_pm_tool.Scenarios.{
  Backend, add_dependency, data_argument, data_key, Value, member, no_members, activity, dependency,
  create, update, plain, mapping, ScenarioChange, Row, draft, archived, Database, Session,
  value_key, get_by_id, update_row, unwrap,
}
use defense_pm_tool.Scenarios.Apply.{
  raised, database_error, get_scenario, validate_scenario, check_access, apply_changes_to,
  apply_scenario_changes,
}
use defense_pm_tool.Scenarios.Atomic.{
  settled, applied, unless_refused, apply_scenario_changes-atomic,
}
use defense_pm_tool.Scenarios.Counts.{IsCounted, apply_changes_to-IsCounted}

-- The duration is field 7.
abbrev task : Row
task = record { id = 1; is_deleted = false; fields = (7, plain 5) ∷ [] }

abbrev database : Database
database = record {
  activities = task ∷ [];
  wbs_elements = [];
  dependencies = [];
  scenarios = record { id = 3; is_deleted = false; status = draft; is_active = true } ∷ [];
}

abbrev set_duration : ScenarioChange
set_duration = record {
  entity_type = activity;
  entity_id = 1;
  change_type = update;
  field_name = some 7;
  new_value = mapping (member value_key (plain 9) no_members);
}

abbrev new_dependency : ScenarioChange
new_dependency = record {
  entity_type = dependency;
  entity_id = 2;
  change_type = create;
  field_name = none;
  new_value = mapping (member 4 (plain 1) no_members);
}

-- Everything is accepted, and no object is the fields of a dependency.
abbrev accepts_all : Backend
accepts_all = record { accepts = λ db. true; construct = λ m. none }

abbrev is_five : Value → Bool
is_five (plain v) = v == 5
is_five (mapping m) = false

-- No scenario may be archived.
abbrev refuses : Backend
refuses = record { accepts = λ db. any (λ s. s.is_active) db.scenarios; construct = λ m. none }

abbrev one_change : ℕ → List ScenarioChange
one_change k = if k == 3 then set_duration ∷ [] else []

abbrev two_changes : ℕ → List ScenarioChange
two_changes k = if k == 3 then set_duration ∷ new_dependency ∷ [] else []

abbrev run : (ℕ → List ScenarioChange) → Session
run changes =
    (apply_scenario_changes accepts_all 3 true true true changes (settled accepts_all database)).1

-- The duration is 9, and the scenario is archived.
abbrev updated : Database
updated = record {
  activities = record task { fields = (7, plain 9) ∷ [] } ∷ [];
  wbs_elements = [];
  dependencies = [];
  scenarios = record { id = 3; is_deleted = false; status = archived; is_active = false } ∷ [];
}

updates : run one_change ≡ settled accepts_all updated
unfolding apply_scenario_changes get_by_id update_row unwrap lookup insert
updates = refl

-- The dependency cannot be created, so the duration stays, too.
keeps : run two_changes ≡ settled accepts_all database
unfolding apply_scenario_changes get_by_id data_argument
keeps = refl

-- The row that is made of the keywords of a dependency.
abbrev link : Row
link = record { id = 6; is_deleted = false; fields = (4, plain 1) ∷ [] }

abbrev makes_links : Backend
makes_links = record { accepts = λ db. true; construct = λ m. some link }

-- The fields of the dependency, as the only member named data.
abbrev wrapped : ScenarioChange
wrapped = record new_dependency {
  new_value = mapping (member data_key (mapping (member 4 (plain 1) no_members)) no_members);
}

creates :
    (apply_scenario_changes makes_links 3 true true true
      (λ k. wrapped ∷ [])
      (settled makes_links database)).1.saved.dependencies
    ≡ link ∷ []
unfolding apply_scenario_changes get_by_id data_argument add_dependency
creates = refl

-- No update of the activity is accepted: the request ends with an exception.
abbrev refuses_updates : Backend
refuses_updates = record {
  accepts = λ db. any (λ r. any (λ (k, v). is_five v) r.fields) db.activities;
  construct = λ m. none;
}

loses :
    apply_scenario_changes refuses_updates 3 true true true two_changes
      (settled refuses_updates database)
    ≡ (raised database_error, settled refuses_updates database)
unfolding apply_scenario_changes get_by_id update_row unwrap lookup insert
loses = refl

apply_scenario_changes-atomic_example :
    run one_change
    ≡ settled accepts_all (
        unless_refused accepts_all
          (check_access accepts_all true true true (get_scenario 3 database.scenarios))
          (unless_refused accepts_all
            (validate_scenario (get_scenario 3 database.scenarios))
            (applied accepts_all 3 (one_change 3) database)
            database)
          database)
apply_scenario_changes-atomic_example =
    apply_scenario_changes-atomic accepts_all 3 true true true one_change database

-- The flush of the archived scenario is refused, and all is undone.
undone :
    (apply_scenario_changes refuses 3 true true true one_change (settled refuses database)).1
    ≡ settled refuses database
unfolding apply_scenario_changes get_by_id update_row unwrap lookup insert
undone = refl

apply_changes_to-IsCounted_example :
    IsCounted refuses 2
      (apply_changes_to refuses 3 (set_duration ∷ new_dependency ∷ []) (settled refuses database)).0
apply_changes_to-IsCounted_example =
    apply_changes_to-IsCounted refuses 3 (set_duration ∷ new_dependency ∷ [])
      (settled refuses database)
