-- ===== src/Scenarios/Counts.antt =====
-- services/scenario_apply.py: what the counts of a result say.
use defense_pm_tool.Prelude.{
  ℕ, suc, ◌+◌, ◌≡◌, refl, ◌∙◌, ap, subst, arith, Bool, true, false, ◌==◌, if◌then◌else◌, Option,
  none, some, List, [], ◌∷◌, length, length-snoc, Bool-cases, inl, inr,
}
use defense_pm_tool.Scenarios.{
  EntityType, activity, wbs, dependency, other_entity, ChangeType, create, update, delete,
  other_change, Value, plain, mapping, ScenarioChange, Row, Database, Backend, Table, activities,
  wbs_elements, dependencies, Session, Result, ok, failed, lost, data_argument,
}
use defense_pm_tool.Scenarios.Apply.{
  database_error, ApplyResult, no_changes, archive, count_modified, Progress, going, stopped,
  Outcome, raised, returned, flush, update_if, apply_to_row, delete_found, apply_row_change,
  create_row, create_with, create_dependency, apply_dependency_change, handle, note, go_on,
  apply_all_changes, finish, archive_if, apply_changes_to,
}

abbrev pub is_known : EntityType → Bool
is_known activity = true
is_known wbs = true
is_known dependency = true
is_known other_entity = false

-- The number of changes of activities, WBS elements and dependencies.
abbrev pub count_known : List ScenarioChange → ℕ
count_known [] = 0
count_known (c ∷ l) = let rest = count_known l in if is_known c.entity_type then suc rest else rest

-- The counts after `n` changes of known entities.
abbrev pub IsCount : ℕ → ApplyResult → Type 0
IsCount n r =
    (r.changes_applied + r.changes_failed ≡ n)
    × (r.activities_modified + r.wbs_modified + r.dependencies_modified ≡ r.changes_applied)
    × (length r.errors ≡ r.changes_failed)
    × (r.success ≡ (r.changes_failed == 0))

plus_zero : (n : ℕ) → n ≡ n + 0
plus_zero n = omega arith

zero_plus : (n : ℕ) → 0 + n ≡ n
zero_plus n = omega arith

one_more :
    (n : ℕ) (known : Bool) (k : ℕ)
    → n + (if known then 1 else 0) + k ≡ n + (if known then suc k else k)
one_more n true k = omega arith
one_more n false k = omega arith

module _ (backend : Backend) where
  ok-IsCount :
      (e : EntityType) (n : ℕ) (r : ApplyResult)
      → is_known e ≡ true
      → IsCount n r
      → IsCount (n + 1) (count_modified e (record r { changes_applied = r.changes_applied + 1 }))
  unfolding count_modified
  ok-IsCount activity n r h (total, parts, errors, success) =
      (omega (arith, total), omega (arith, parts), errors, success)
  ok-IsCount wbs n r h (total, parts, errors, success) =
      (omega (arith, total), omega (arith, parts), errors, success)
  ok-IsCount dependency n r h (total, parts, errors, success) =
      (omega (arith, total), omega (arith, parts), errors, success)
  ok-IsCount other_entity n r h count = cc

  -- The backend refuses some database.
  abbrev pub Refuses : Type 0
  Refuses = (db : Database) × (backend.accepts db ≡ false)

  abbrev Counted : ℕ → Progress → Type 0
  Counted n (going r s) = IsCount n r
  Counted n (stopped s) = Refuses

  -- The counts of a result; an exception is one of the database.
  abbrev pub IsCounted : ℕ → Outcome → Type 0
  IsCounted n (returned r) = IsCount n r
  IsCounted n (raised e) = (e ≡ database_error) × Refuses

  -- A flush that is lost was refused.
  abbrev Lost : Result → Type 0
  Lost (ok s) = Unit
  Lost (failed s) = Unit
  Lost (lost s) = Refuses

  flush-Lost : (db : Database) (s : Session) → Lost (flush backend db s)
  unfolding flush
  flush-Lost db s = elim (Bool-cases (backend.accepts db)) [
    | inl e ↦ rw e tt
    | inr e ↦ rw e (db, e)
  ]

  update_if-Lost :
      (t : Table) (c : ScenarioChange) (change : ChangeType) (field : Option ℕ) (s : Session)
      → Lost (update_if backend t c change field s)
  unfolding update_if
  update_if-Lost t c update (some field) s = flush-Lost _ s
  update_if-Lost t c update none s = tt
  update_if-Lost t c create field s = tt
  update_if-Lost t c delete field s = tt
  update_if-Lost t c other_change field s = tt

  apply_to_row-Lost :
      (t : Table) (c : ScenarioChange) (o : Option Row) (s : Session)
      → Lost (apply_to_row backend t c o s)
  unfolding apply_to_row
  apply_to_row-Lost t c none s = tt
  apply_to_row-Lost t c (some row) s = update_if-Lost t c c.change_type c.field_name s

  delete_found-Lost :
      (t : Table) (k : ℕ) (o : Option Row) (s : Session) → Lost (delete_found backend t k o s)
  unfolding delete_found
  delete_found-Lost t k none s = tt
  delete_found-Lost t k (some row) s = flush-Lost _ s

  apply_row_change-Lost :
      (t : Table) (change : ChangeType) (c : ScenarioChange) (s : Session)
      → Lost (apply_row_change backend t change c s)
  unfolding apply_row_change
  apply_row_change-Lost t delete c s = delete_found-Lost t c.entity_id _ s
  apply_row_change-Lost t create c s = apply_to_row-Lost t c _ s
  apply_row_change-Lost t update c s = apply_to_row-Lost t c _ s
  apply_row_change-Lost t other_change c s = apply_to_row-Lost t c _ s

  create_row-Lost : (o : Option Row) (s : Session) → Lost (create_row backend o s)
  unfolding create_row
  create_row-Lost none s = tt
  create_row-Lost (some row) s = flush-Lost _ s

  create_with-Lost : (o : Option Value) (s : Session) → Lost (create_with backend o s)
  unfolding create_with
  create_with-Lost none s = tt
  create_with-Lost (some (plain v)) s = tt
  create_with-Lost (some (mapping m)) s = create_row-Lost (backend.construct m) s

  create_dependency-Lost : (v : Value) (s : Session) → Lost (create_dependency backend v s)
  unfolding create_dependency
  create_dependency-Lost (plain v) s = tt
  create_dependency-Lost (mapping m) s = create_with-Lost (data_argument m) s

  apply_dependency_change-Lost :
      (change : ChangeType) (c : ScenarioChange) (s : Session)
      → Lost (apply_dependency_change backend change c s)
  unfolding apply_dependency_change
  apply_dependency_change-Lost create c s = create_dependency-Lost c.new_value s
  apply_dependency_change-Lost update c s = apply_row_change-Lost dependencies update c s
  apply_dependency_change-Lost delete c s = apply_row_change-Lost dependencies delete c s
  apply_dependency_change-Lost other_change c s =
      apply_row_change-Lost dependencies other_change c s

  -- One change of a known entity, whether it is made or not.
  result-Counted :
      (c : ScenarioChange) (s : Session) (result : Result) (n : ℕ) (r : ApplyResult)
      → is_known c.entity_type ≡ true
      → Lost result
      → IsCount n r
      → Counted (n + 1) (note backend c s (some result) r)
  unfolding note
  result-Counted c s (ok s') n r h refused count = ok-IsCount c.entity_type n r h count
  result-Counted c s (lost s') n r h refused count = refused
  result-Counted c s (failed s') n r h refused (total, parts, errors, success) = (
    omega (arith, total),
    parts,
    length-snoc r.errors (c.entity_type, c.entity_id) ∙ failed_again errors,
    one_failed r.changes_failed,
  )
    where
      failed_again : {m k : ℕ} → m ≡ k → suc m ≡ k + 1
      failed_again h = omega (arith, h)

      one_failed : (k : ℕ) → false ≡ (k + 1 == 0)
      one_failed k = ground arith

  change-Counted :
      (c : ScenarioChange) (s : Session) (n : ℕ) (r : ApplyResult)
      → IsCount n r
      → Counted
          (n + (if is_known c.entity_type then 1 else 0))
          (note backend c s (handle backend c.entity_type c s) r)
  unfolding handle note
  change-Counted c s n r count = by_entity c.entity_type refl
    where
      by_entity :
          (e : EntityType)
          → c.entity_type ≡ e
          → Counted (n + (if is_known e then 1 else 0)) (note backend c s (handle backend e c s) r)
      by_entity activity e =
          result-Counted c s _ n r (ap is_known e)
            (apply_row_change-Lost activities c.change_type c s) count
      by_entity wbs e =
          result-Counted c s _ n r (ap is_known e)
            (apply_row_change-Lost wbs_elements c.change_type c s) count
      by_entity dependency e =
          result-Counted c s _ n r (ap is_known e) (apply_dependency_change-Lost c.change_type c s)
            count
      by_entity other_entity e = subst (λ m. IsCount m r) (plus_zero n) count

  go_on-Counted :
      (n m : ℕ) (between : Progress) (cont : ApplyResult → Session → Progress)
      → ((r : ApplyResult) (s : Session) → IsCount n r → Counted m (cont r s))
      → Counted n between
      → Counted m (go_on backend cont between)
  go_on-Counted n m (going r s) cont rest count = rest r s count
  go_on-Counted n m (stopped s) cont rest refused = refused

  all-Counted :
      (l : List ScenarioChange) (s : Session) (n : ℕ) (r : ApplyResult)
      → IsCount n r
      → Counted (n + count_known l) (apply_all_changes backend l r s)
  unfolding apply_all_changes
  all-Counted [] s n r count = subst (λ m. IsCount m r) (plus_zero n) count
  all-Counted (c ∷ l) s n r count =
      let more = n + (if is_known c.entity_type then 1 else 0) in
      subst (λ m. Counted m (apply_all_changes backend (c ∷ l) r s))
        (one_more n (is_known c.entity_type) (count_known l))
        (go_on-Counted more (more + count_known l)
          (note backend c s (handle backend c.entity_type c s) r) (apply_all_changes backend l)
          (λ r' s' count'. all-Counted l s' more r' count') (change-Counted c s n r count))

  finish-IsCounted :
      (n : ℕ) (r : ApplyResult) (db : Database) (s : Session)
      → IsCount n r
      → IsCounted n (finish backend r (flush backend db s)).0
  unfolding flush
  finish-IsCounted n r db s count = elim (Bool-cases (backend.accepts db)) [
    | inl e ↦ rw e count
    | inr e ↦ rw e (refl, (db, e))
  ]

  archive_if-IsCounted :
      (k n : ℕ) (progress : Progress)
      → Counted n progress
      → IsCounted n (archive_if backend k progress).0
  unfolding archive_if
  archive_if-IsCounted k n (stopped s) refused = (refl, refused)
  archive_if-IsCounted k n (going r s) count = by_success r.success
    where
      by_success :
          (b : Bool)
          → IsCounted n
              (if b
                then finish backend r (flush backend (archive k s.now) s)
                else (returned r, s)).0
      by_success true = finish-IsCounted n r (archive k s.now) s count
      by_success false = count

  -- If there is a result, the changes of activities, WBS elements and dependencies are counted as applied
  -- or as failed, those applied are divided among the three, there is an error for each that failed, and
  -- the result is a success just if none failed. If there is none, the exception is one of the database,
  -- and the database's constraints refuse something.
  pub apply_changes_to-IsCounted :
      (k : ℕ) (l : List ScenarioChange) (s : Session)
      → IsCounted (count_known l) (apply_changes_to backend k l s).0
  apply_changes_to-IsCounted k [] s = (refl, refl, refl, refl)
  apply_changes_to-IsCounted k (c ∷ l) s =
      subst (λ m. IsCounted m (apply_changes_to backend k (c ∷ l) s).0)
        (zero_plus (count_known (c ∷ l)))
        (archive_if-IsCounted k _ (apply_all_changes backend (c ∷ l) no_changes s)
          (all-Counted (c ∷ l) s 0 no_changes (refl, refl, refl, refl)))
