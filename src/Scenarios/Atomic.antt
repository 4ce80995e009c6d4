-- ===== src/Scenarios/Atomic.antt =====
-- services/scenario_apply.py: a scenario is applied as a whole or not at all.
use defense_pm_tool.Prelude.{
  ℕ, ◌≡◌, refl, sym, ◌∙◌, ap, Bool, true, false, if◌then◌else◌, Option, none, some, List, [], ◌∷◌,
  subst, some_inj,
}
use defense_pm_tool.Scenarios.{
  EntityType, activity, wbs, dependency, other_entity, ScenarioChange, Database, Backend,
  activities, wbs_elements, Session, Result, ok, failed, lost, rollback,
}
use defense_pm_tool.Scenarios.Apply.{
  Error, ApplyResult, no_changes, get_scenario, archive, validate_scenario, count_modified, handle,
  note, Progress, going, stopped, go_on, flush, finish, apply_all_changes, archive_if,
  apply_changes_to, returned, unless_error, apply_changes, settle, check_access, unless_denied,
  apply_scenario_changes,
}
use defense_pm_tool.Scenarios.Effects.{
  effect, and_then, all_effects, Follows, apply_row_change-Follows, apply_dependency_change-Follows,
}

module _ (backend : Backend) where
  -- The changes so far, with their counts: they are made, or the result is no success, or there is none.
  abbrev Noted : Session → ApplyResult → Option Database → Progress → Type 0
  Noted s r none (going r' s') = (r'.success ≡ false) × (s'.saved ≡ s.saved)
  Noted s r none (stopped s') = s'.saved ≡ s.saved
  Noted s r (some db) (going r' s') =
      (r'.success ≡ r.success) × (s'.now ≡ db) × (s'.saved ≡ s.saved)
  Noted s r (some db) (stopped s') = ⊥

  count_modified_success :
      (e : EntityType) (r : ApplyResult) → (count_modified e r).success ≡ r.success
  unfolding count_modified
  count_modified_success activity r = refl
  count_modified_success wbs r = refl
  count_modified_success dependency r = refl
  count_modified_success other_entity r = refl

  note-Noted :
      (c : ScenarioChange) (s : Session) (e : Option Database) (result : Result) (r : ApplyResult)
      → Follows backend s e result
      → Noted s r e (note backend c s (some result) r)
  unfolding note
  note-Noted c s none (ok s') r h = let made = h.0 in cc
  note-Noted c s none (failed s') r h = (refl, h.1)
  note-Noted c s (some db) (ok s') r h =
      (count_modified_success c.entity_type _, sym (some_inj h.0), h.1)
  note-Noted c s (some db) (failed s') r h = let made = h.0 in cc
  note-Noted c s none (lost s') r h = h.1
  note-Noted c s (some db) (lost s') r h = let made = h.0 in cc

  step-Noted :
      (e : EntityType) (c : ScenarioChange) (s : Session) (r : ApplyResult)
      → Noted s r (effect backend e c s.now) (note backend c s (handle backend e c s) r)
  unfolding handle note
  step-Noted activity c s r =
      note-Noted c s _ _ r (apply_row_change-Follows backend activities c.change_type c s)
  step-Noted wbs c s r =
      note-Noted c s _ _ r (apply_row_change-Follows backend wbs_elements c.change_type c s)
  step-Noted dependency c s r =
      note-Noted c s _ _ r (apply_dependency_change-Follows backend c.change_type c s)
  step-Noted other_entity c s r = (refl, refl, refl)

  -- After a change that could not be made nothing makes the result a success.
  stays_failed :
      (s s' : Session) (r r' : ApplyResult) (e : Option Database) (end : Progress)
      → r'.success ≡ false
      → s'.saved ≡ s.saved
      → Noted s' r' e end
      → Noted s r none end
  stays_failed s s' r r' none (going q u) h k noted = (noted.0, noted.1 ∙ k)
  stays_failed s s' r r' none (stopped u) h k noted = noted ∙ k
  stays_failed s s' r r' (some db) (going q u) h k noted = (noted.0 ∙ h, noted.2 ∙ k)
  stays_failed s s' r r' (some db) (stopped u) h k noted = absurd noted

  carried :
      (s s' : Session) (r r' : ApplyResult) (e : Option Database) (end : Progress)
      → r'.success ≡ r.success
      → s'.saved ≡ s.saved
      → Noted s' r' e end
      → Noted s r e end
  carried s s' r r' none (going q u) h k noted = (noted.0, noted.1 ∙ k)
  carried s s' r r' none (stopped u) h k noted = noted ∙ k
  carried s s' r r' (some db) (going q u) h k noted = (noted.0 ∙ h, noted.1, noted.2 ∙ k)
  carried s s' r r' (some db) (stopped u) h k noted = noted

  go_on-Noted :
      (s : Session) (r : ApplyResult) (e : Option Database) (next : Database → Option Database)
      (between : Progress) (cont : ApplyResult → Session → Progress)
      → ((r' : ApplyResult) (s' : Session) → Noted s' r' (next s'.now) (cont r' s'))
      → Noted s r e between
      → Noted s r (and_then backend e next) (go_on backend cont between)
  go_on-Noted s r none next (going r' s') cont rest first =
      stays_failed s s' r r' (next s'.now) (cont r' s') first.0 first.1 (rest r' s')
  go_on-Noted s r none next (stopped s') cont rest first = first
  go_on-Noted s r (some db) next (going r' s') cont rest first =
      carried s s' r r' (next db) (cont r' s') first.0 first.2
        (subst (λ x. Noted s' r' (next x) (cont r' s')) first.1 (rest r' s'))
  go_on-Noted s r (some db) next (stopped s') cont rest first = absurd first

  apply_all_changes-Noted :
      (l : List ScenarioChange) (r : ApplyResult) (s : Session)
      → Noted s r (all_effects backend l s.now) (apply_all_changes backend l r s)
  unfolding apply_all_changes
  apply_all_changes-Noted [] r s = (refl, refl, refl)
  apply_all_changes-Noted (c ∷ l) r s =
      go_on-Noted s r (effect backend c.entity_type c s.now) (all_effects backend l)
        (note backend c s (handle backend c.entity_type c s) r) (apply_all_changes backend l)
        (λ r' s'. apply_all_changes-Noted l r' s') (step-Noted c.entity_type c s r)

  -- The database after the scenario, or the database as it is.
  abbrev pub archived_or : ℕ → Database → Option Database → Database
  archived_or k db none = db
  archived_or k db (some new) = if backend.accepts (archive k new) then archive k new else db

  abbrev pub applied : ℕ → List ScenarioChange → Database → Database
  applied k [] db = db
  applied k (c ∷ l) db = archived_or k db (all_effects backend (c ∷ l) db)

  abbrev pub unless_refused : Option Error → Database → Database → Database
  unless_refused none new db = new
  unless_refused (some e) new db = db

  -- A session in which nothing is open.
  abbrev pub settled : Database → Session
  settled db = record { saved = db; now = db }

  -- What the end of the request leaves of the changes.
  settle-applied :
      (k : ℕ) (db : Database) (e : Option Database) (end : Progress)
      → Noted (settled db) no_changes e end
      → (settle backend (archive_if backend k end)).1 ≡ settled (archived_or k db e)
  unfolding settle archive_if flush
  settle-applied k db none (going r s) noted = rw noted.0 (ap settled noted.1)
  settle-applied k db none (stopped s) noted = ap settled noted
  settle-applied k db (some new) (going r s) noted =
      subst
        (λ x.
          (settle backend (archive_if backend k (going r s))).1
          ≡ settled (if backend.accepts (archive k x) then archive k x else db))
        noted.1 (by_success r.success noted.0)
    where
      by_flush :
          (b : Bool)
          → (settle backend (
              finish backend r
                (if b then ok (record s { now = archive k s.now }) else lost (rollback s)))).1
            ≡ settled (if b then archive k s.now else db)
      by_flush true = rw noted.0 refl
      by_flush false = ap settled noted.2

      by_success :
          (b : Bool)
          → b ≡ true
          → (settle backend (
              if b
              then finish backend r (flush backend (archive k s.now) s)
              else (returned r, s))).1
            ≡ settled (if backend.accepts (archive k s.now) then archive k s.now else db)
      by_success true h = by_flush (backend.accepts (archive k s.now))
      by_success false h = cc
  settle-applied k db (some new) (stopped s) noted = absurd noted

  settle-changes :
      (k : ℕ) (l : List ScenarioChange) (db : Database)
      → (settle backend (apply_changes_to backend k l (settled db))).1 ≡ settled (applied k l db)
  unfolding settle
  settle-changes k [] db = refl
  settle-changes k (c ∷ l) db =
      settle-applied k db (all_effects backend (c ∷ l) db) _
        (apply_all_changes-Noted (c ∷ l) no_changes (settled db))

  -- A request leaves no transaction open. If it is refused, if one of the changes cannot be made, or if
  -- the backend does not accept the scenario archived, the database is as before. Otherwise it has all the changes of the scenario, in their order, and
  -- the scenario is archived, unless it has no changes.
  pub apply_scenario_changes-atomic :
      (k : ℕ) (confirm is_program is_allowed : Bool) (changes : ℕ → List ScenarioChange)
      (db : Database)
      → (apply_scenario_changes backend k confirm is_program is_allowed changes (settled db)).1
        ≡ settled (
            unless_refused
              (check_access backend confirm is_program is_allowed (get_scenario k db.scenarios))
              (unless_refused
                (validate_scenario (get_scenario k db.scenarios))
                (applied k (changes k) db)
                db)
              db)
  unfolding apply_scenario_changes apply_changes
  apply_scenario_changes-atomic k confirm is_program is_allowed changes db =
      by_access (check_access backend confirm is_program is_allowed (get_scenario k db.scenarios))
    where
      by_status :
          (e : Option Error)
          → (settle backend (
              unless_error backend e
                (apply_changes_to backend k (changes k) (settled db))
                (settled db))).1
            ≡ settled (unless_refused e (applied k (changes k) db) db)
      by_status none = settle-changes k (changes k) db
      by_status (some x) = refl

      by_access :
          (e : Option Error)
          → (settle backend (
              unless_denied backend e
                (apply_changes backend k true changes (settled db))
                (settled db))).1
            ≡ settled (
                unless_refused e
                  (unless_refused
                    (validate_scenario (get_scenario k db.scenarios))
                    (applied k (changes k) db)
                    db)
                  db)
      by_access none = by_status (validate_scenario (get_scenario k db.scenarios))
      by_access (some x) = refl
