-- ===== src/Scenarios/Effects.antt =====
-- services/scenario_apply.py: what each change of a scenario is to do, and that the handlers do it.
use defense_pm_tool.Prelude.{
  ℕ, ◌≡◌, refl, if◌then◌else◌, Option, none, some, List, [], ◌∷◌, Bool-cases, inl, inr,
}
use defense_pm_tool.Scenarios.{
  EntityType, activity, wbs, dependency, other_entity, ChangeType, create, update, delete,
  other_change, Value, plain, mapping, ScenarioChange, Row, Database, Backend, Table, activities,
  wbs_elements, dependencies, rows_of, Session, Result, ok, failed, lost, get_by_id, delete_row,
  update_row, unwrap, data_argument, add_dependency,
}
use defense_pm_tool.Scenarios.Apply.{
  flush, update_if, apply_to_row, delete_found, apply_row_change, create_row, create_with,
  create_dependency, apply_dependency_change,
}

module _ (backend : Backend) where
  -- The new database, if the backend accepts it.
  abbrev pub accepted : Database → Option Database
  accepted new = if backend.accepts new then some new else none

  -- What a change is to do to a row that there is.
  abbrev pub update_effect :
      Table → ScenarioChange → ChangeType → Option ℕ → Database → Option Database
  update_effect t c update (some field) db =
      accepted (update_row t c.entity_id field (unwrap c.new_value) db)
  update_effect t c update none db = some db
  update_effect t c create field db = some db
  update_effect t c delete field db = some db
  update_effect t c other_change field db = some db

  -- A deletion of a row that is not there does nothing, any other change of it cannot be made.
  abbrev pub delete_effect : Table → ℕ → Option Row → Database → Option Database
  delete_effect t k none db = some db
  delete_effect t k (some row) db = accepted (delete_row t k db)

  abbrev pub if_found : Option Row → Option Database → Option Database
  if_found none effect = none
  if_found (some row) effect = effect

  abbrev pub row_effect : Table → ChangeType → ScenarioChange → Database → Option Database
  row_effect t delete c db = delete_effect t c.entity_id (get_by_id c.entity_id (rows_of t db)) db
  row_effect t create c db =
      if_found (get_by_id c.entity_id (rows_of t db))
        (update_effect t c c.change_type c.field_name db)
  row_effect t update c db =
      if_found (get_by_id c.entity_id (rows_of t db))
        (update_effect t c c.change_type c.field_name db)
  row_effect t other_change c db =
      if_found (get_by_id c.entity_id (rows_of t db))
        (update_effect t c c.change_type c.field_name db)

  -- A dependency is created from an object with one member, `data`, whose value is an object that
  -- the backend can make a row of. A value that is no object creates none.
  abbrev pub new_row : Option Row → Database → Option Database
  new_row none db = none
  new_row (some row) db = accepted (add_dependency row db)

  abbrev pub data_effect : Option Value → Database → Option Database
  data_effect none db = none
  data_effect (some (plain v)) db = none
  data_effect (some (mapping m)) db = new_row (backend.construct m) db

  abbrev pub create_effect : Value → Database → Option Database
  create_effect (plain v) db = some db
  create_effect (mapping m) db = data_effect (data_argument m) db

  abbrev pub dependency_effect : ChangeType → ScenarioChange → Database → Option Database
  dependency_effect create c db = create_effect c.new_value db
  dependency_effect update c db = row_effect dependencies update c db
  dependency_effect delete c db = row_effect dependencies delete c db
  dependency_effect other_change c db = row_effect dependencies other_change c db

  -- The database after one change, or `none` if it cannot be made.
  abbrev pub effect : EntityType → ScenarioChange → Database → Option Database
  effect activity c db = row_effect activities c.change_type c db
  effect wbs c db = row_effect wbs_elements c.change_type c db
  effect dependency c db = dependency_effect c.change_type c db
  effect other_entity c db = some db

  abbrev pub and_then : Option Database → (Database → Option Database) → Option Database
  and_then none next = none
  and_then (some db) next = next db

  -- The database after all changes in their order, or `none` if one of them cannot be made.
  abbrev pub all_effects : List ScenarioChange → Database → Option Database
  all_effects [] db = some db
  all_effects (c ∷ l) db = and_then (effect c.entity_type c db) (all_effects l)

  -- A handler does what the effect says, and nothing to what is committed.
  abbrev pub Follows : Session → Option Database → Result → Type 0
  Follows s e (ok s') = (e ≡ some s'.now) × (s'.saved ≡ s.saved)
  Follows s e (failed s') = (e ≡ none) × (s'.saved ≡ s.saved)
  Follows s e (lost s') = (e ≡ none) × (s'.saved ≡ s.saved)

  flush-Follows : (db : Database) (s : Session) → Follows s (accepted db) (flush backend db s)
  unfolding flush
  flush-Follows db s = elim (Bool-cases (backend.accepts db)) [
    | inl e ↦ rw e (refl, refl)
    | inr e ↦ rw e (refl, refl)
  ]

  update_if-Follows :
      (t : Table) (c : ScenarioChange) (change : ChangeType) (field : Option ℕ) (s : Session)
      → Follows s (update_effect t c change field s.now) (update_if backend t c change field s)
  unfolding update_if
  update_if-Follows t c update (some field) s =
      flush-Follows (update_row t c.entity_id field (unwrap c.new_value) s.now) s
  update_if-Follows t c update none s = (refl, refl)
  update_if-Follows t c create field s = (refl, refl)
  update_if-Follows t c delete field s = (refl, refl)
  update_if-Follows t c other_change field s = (refl, refl)

  delete_found-Follows :
      (t : Table) (k : ℕ) (o : Option Row) (s : Session)
      → Follows s (delete_effect t k o s.now) (delete_found backend t k o s)
  unfolding delete_found
  delete_found-Follows t k none s = (refl, refl)
  delete_found-Follows t k (some row) s = flush-Follows (delete_row t k s.now) s

  apply_to_row-Follows :
      (t : Table) (c : ScenarioChange) (o : Option Row) (s : Session)
      → Follows s
          (if_found o (update_effect t c c.change_type c.field_name s.now))
          (apply_to_row backend t c o s)
  unfolding apply_to_row
  apply_to_row-Follows t c none s = (refl, refl)
  apply_to_row-Follows t c (some row) s = update_if-Follows t c c.change_type c.field_name s

  pub apply_row_change-Follows :
      (t : Table) (change : ChangeType) (c : ScenarioChange) (s : Session)
      → Follows s (row_effect t change c s.now) (apply_row_change backend t change c s)
  unfolding apply_row_change
  apply_row_change-Follows t delete c s =
      delete_found-Follows t c.entity_id (get_by_id c.entity_id (rows_of t s.now)) s
  apply_row_change-Follows t create c s =
      apply_to_row-Follows t c (get_by_id c.entity_id (rows_of t s.now)) s
  apply_row_change-Follows t update c s =
      apply_to_row-Follows t c (get_by_id c.entity_id (rows_of t s.now)) s
  apply_row_change-Follows t other_change c s =
      apply_to_row-Follows t c (get_by_id c.entity_id (rows_of t s.now)) s

  create_row-Follows :
      (o : Option Row) (s : Session) → Follows s (new_row o s.now) (create_row backend o s)
  unfolding create_row
  create_row-Follows none s = (refl, refl)
  create_row-Follows (some row) s = flush-Follows (add_dependency row s.now) s

  create_with-Follows :
      (o : Option Value) (s : Session) → Follows s (data_effect o s.now) (create_with backend o s)
  unfolding create_with
  create_with-Follows none s = (refl, refl)
  create_with-Follows (some (plain v)) s = (refl, refl)
  create_with-Follows (some (mapping m)) s = create_row-Follows (backend.construct m) s

  create_dependency-Follows :
      (v : Value) (s : Session) → Follows s (create_effect v s.now) (create_dependency backend v s)
  unfolding create_dependency
  create_dependency-Follows (plain v) s = (refl, refl)
  create_dependency-Follows (mapping m) s = create_with-Follows (data_argument m) s

  pub apply_dependency_change-Follows :
      (change : ChangeType) (c : ScenarioChange) (s : Session)
      → Follows s (dependency_effect change c s.now) (apply_dependency_change backend change c s)
  unfolding apply_dependency_change
  apply_dependency_change-Follows create c s = create_dependency-Follows c.new_value s
  apply_dependency_change-Follows update c s = apply_row_change-Follows dependencies update c s
  apply_dependency_change-Follows delete c s = apply_row_change-Follows dependencies delete c s
  apply_dependency_change-Follows other_change c s =
      apply_row_change-Follows dependencies other_change c s
