-- ===== src/Scenarios.antt =====
-- services/scenario_apply.py and the endpoint that calls it: the changes of a scenario are made to the
-- rows of the program, in one transaction. The rows that the repositories read and write are those of
-- repositories/base.py. Errors of the database other than a violated constraint are left out, and so
-- is the cache. A name of a field is a number.
pub mod Apply
pub mod Counts
pub mod Effects
pub mod Atomic
mod Tests
use defense_pm_tool.Prelude.{
  ℕ, zero, suc, ◌+◌, Bool, true, false, not, ◌&&◌, ◌==◌, if◌then◌else◌, Option, none, some, List,
  [], ◌∷◌, ◌++◌, map,
}
use defense_pm_tool.Prelude.Dict.{Dict, lookup, insert}

pub data EntityType : Type 0 where
  activity : EntityType
  wbs : EntityType
  dependency : EntityType
  other_entity : EntityType

pub data ChangeType : Type 0 where
  create : ChangeType
  update : ChangeType
  delete : ChangeType
  other_change : ChangeType

-- A JSON value. Anything that is no object is plain; the names of an object's members differ.
mutual
  pub data Value : Type 0 where
    plain : ℕ → Value
    mapping : Members → Value

  pub data Members : Type 0 where
    no_members : Members
    member : ℕ → Value → Members → Members

unfoldable pub member_at : ℕ → Members → Option Value
member_at k no_members = none
member_at k (member j v m) = if j == k then some v else member_at k m

pub record ScenarioChange : Type 0 where
  pub entity_type : EntityType
  pub entity_id : ℕ
  pub change_type : ChangeType
  pub field_name : Option ℕ
  pub new_value : Value

pub record Row : Type 0 where
  pub id : ℕ
  pub is_deleted : Bool
  pub fields : Dict Value

pub data Status : Type 0 where
  draft : Status
  active : Status
  promoted : Status
  archived : Status

pub record Scenario : Type 0 where
  pub id : ℕ
  pub is_deleted : Bool
  pub status : Status
  pub is_active : Bool

pub record Database : Type 0 where
  pub activities : List Row
  pub wbs_elements : List Row
  pub dependencies : List Row
  pub scenarios : List Scenario

-- The tables that changes are made to.
pub data Table : Type 0 where
  activities : Table
  wbs_elements : Table
  dependencies : Table

abbrev pub rows_of : Table → Database → List Row
rows_of activities db = db.activities
rows_of wbs_elements db = db.wbs_elements
rows_of dependencies db = db.dependencies

abbrev pub with_rows : Table → List Row → Database → Database
with_rows activities rows db = record db { activities = rows }
with_rows wbs_elements rows db = record db { wbs_elements = rows }
with_rows dependencies rows db = record db { dependencies = rows }

-- What the program leaves to the database and to SQLAlchemy: whether the constraints hold when the
-- session is flushed, and the row that the class of a dependency makes of keywords, if they fit.
pub record Backend : Type 0 where
  pub accepts : Database → Bool
  pub construct : Members → Option Row

-- What is committed, and what the open transaction has made of it.
pub record Session : Type 0 where
  pub saved : Database
  pub now : Database

abbrev pub rollback : Session → Session
rollback s = record s { now = s.saved }

abbrev pub commit : Session → Session
commit s = record s { saved = s.now }

-- An exception leaves a session, too. A flush that is refused rolls it back, which expires all its
-- objects: the handler of that exception reads the change, and so raises another (`lost`).
pub data Result : Type 0 where
  ok : Session → Result
  failed : Session → Result
  lost : Session → Result

-- `BaseRepository.get_by_id`
unfoldable pub get_by_id : ℕ → List Row → Option Row
get_by_id k [] = none
get_by_id k (r ∷ rows) = if (r.id == k) && not r.is_deleted then some r else get_by_id k rows

-- The rows with that row changed.
unfoldable pub change_row : ℕ → (Row → Row) → List Row → List Row
change_row k f [] = []
change_row k f (r ∷ rows) =
    let rest = change_row k f rows in
    if (r.id == k) && not r.is_deleted then f r ∷ rows else r ∷ rest

-- `BaseRepository.delete`; a row that is not found is left alone.
unfoldable pub delete_row : Table → ℕ → Database → Database
unfolding change_row
delete_row t k db =
    with_rows t (change_row k (λ r. record r { is_deleted = true }) (rows_of t db)) db

-- `if hasattr(db_obj, field): setattr(db_obj, field, value)`
unfoldable pub set_field : ℕ → Value → Row → Row
set_field field value r = elim (lookup field r.fields) [
  | none ↦ r
  | some old ↦ record r { fields = insert field value r.fields }
]

unfoldable pub update_row : Table → ℕ → ℕ → Value → Database → Database
unfolding change_row set_field
update_row t k field value db = with_rows t (change_row k (set_field field value) (rows_of t db)) db

-- The name of the member that wraps a value.
abbrev pub value_key : ℕ
value_key = 0

unfoldable pub unwrap : Value → Value
unfolding member_at
unwrap (plain v) = plain v
unwrap (mapping m) = elim (member_at value_key m) [ none ↦ mapping m | some v ↦ v ]

-- `create(**m)` for a method of one parameter, `data`: its value, or `none` for a TypeError.
abbrev pub data_key : ℕ
data_key = 1

unfoldable pub data_argument : Members → Option Value
data_argument no_members = none
data_argument (member k v no_members) = if k == data_key then some v else none
data_argument (member k v (member j w m)) = none

unfoldable pub add_dependency : Row → Database → Database
add_dependency row db = record db { dependencies = db.dependencies ++ row ∷ [] }
