-- ===== src/Materials.antt =====
-- services/material_tracking.py: quantities of materials. The rows of the two tables that the
-- service reads and writes are the state; a query by key is a search among the rows that are not
-- deleted. Names and units, which are texts, are left out.
pub mod Consume
mod Tests
use defense_pm_tool.Prelude.{
  ℕ, Bool, true, false, if◌then◌else◌, not, ◌&&◌, ◌==◌, Option, none, some, List, [], ◌∷◌, foldl,
}
use defense_pm_tool.Prelude.Int.{pos}
use defense_pm_tool.Decimal.{Decimal, whole, ◌+ᴰ◌, ◌-ᴰ◌, ◌*ᴰ◌, ◌/ᴰ◌, is_positive, less, round}
use defense_pm_tool.Enums.Resource.{ResourceType, is_material}

pub record Resource : Type 0 where
  pub id : ℕ
  pub resource_type : ResourceType
  pub quantity_available : Option Decimal
  pub unit_cost : Option Decimal
  pub is_deleted : Bool

pub record ResourceAssignment : Type 0 where
  pub id : ℕ
  pub resource_id : ℕ
  pub quantity_assigned : Option Decimal
  pub quantity_consumed : Option Decimal
  pub actual_cost : Decimal
  pub is_deleted : Bool

pub record Store : Type 0 where
  pub resources : List Resource
  pub assignments : List ResourceAssignment

pub data Error : Type 0 where
  value_error : Error
  attribute_error : Error

pub data Reply (A : Type 0) : Type 0 where
  done : A → Reply A
  failed : Error → Reply A

pub record MaterialStatus : Type 0 where
  pub resource_id : ℕ
  pub quantity_available : Decimal
  pub quantity_assigned : Decimal
  pub quantity_consumed : Decimal
  pub quantity_remaining : Decimal
  pub percent_consumed : Decimal
  pub unit_cost : Decimal
  pub total_value : Decimal
  pub consumed_value : Decimal

pub record MaterialConsumption : Type 0 where
  pub assignment_id : ℕ
  pub quantity_consumed : Decimal
  pub remaining_assigned : Decimal
  pub cost_incurred : Decimal

-- `value or Decimal("0")`
abbrev pub or_zero : Option Decimal → Decimal
or_zero none = whole 0
or_zero (some x) = x

unfoldable pub find : {A : Type 0} → (A → Bool) → List A → Option A
find p [] = none
find p (x ∷ xs) = if p x then some x else find p xs

unfoldable pub replace : {A : Type 0} → (A → Bool) → A → List A → List A
replace p y [] = []
replace p y (x ∷ xs) = if p x then y ∷ xs else x ∷ replace p y xs

abbrev pub is_resource : ℕ → Resource → Bool
is_resource k r = (r.id == k) && not r.is_deleted

abbrev pub is_assignment : ℕ → ResourceAssignment → Bool
is_assignment k a = (a.id == k) && not a.is_deleted

-- The loop over `resource.assignments`.
unfoldable pub total_of :
    (ResourceAssignment → Option Decimal) → ℕ → List ResourceAssignment → Decimal
total_of field k assignments =
    foldl
      (λ total a.
        if (a.resource_id == k) && not a.is_deleted then total +ᴰ or_zero (field a) else total)
      (whole 0) assignments

unfoldable pub status_of : Store → Resource → MaterialStatus
unfolding total_of
status_of s r =
    let assigned = total_of (λ a. a.quantity_assigned) r.id s.assignments in
    let consumed = total_of (λ a. a.quantity_consumed) r.id s.assignments in
    let available = or_zero r.quantity_available in
    let cost = or_zero r.unit_cost in
    record {
      resource_id = r.id;
      quantity_available = round available;
      quantity_assigned = round assigned;
      quantity_consumed = round consumed;
      quantity_remaining = round (available -ᴰ consumed);
      percent_consumed =
          round (if is_positive available then consumed /ᴰ available *ᴰ whole 100 else whole 0);
      unit_cost = round cost;
      total_value = round (available *ᴰ cost);
      consumed_value = round (consumed *ᴰ cost);
    }

unfoldable pub get_material_status : ℕ → Store → Reply MaterialStatus
unfolding status_of
get_material_status k s = elim (find (is_resource k) s.resources) [
  | none ↦ failed value_error
  | some r ↦ if is_material r.resource_type then done (status_of s r) else failed value_error
]

-- The new row of an assignment, and the report.
abbrev pub consumed :
    ResourceAssignment → Resource → Decimal → ResourceAssignment × MaterialConsumption
consumed a r quantity =
    let assigned = or_zero a.quantity_assigned in
    let new_total = or_zero a.quantity_consumed +ᴰ quantity in
    let cost_incurred = quantity *ᴰ or_zero r.unit_cost in
    (
      record a { quantity_consumed = some new_total; actual_cost = a.actual_cost +ᴰ cost_incurred },
      record {
        assignment_id = a.id;
        quantity_consumed = round new_total;
        remaining_assigned = round (assigned -ᴰ new_total);
        cost_incurred = round cost_incurred;
      },
    )

-- `consume_material` from the assignment on.
unfoldable pub consume :
    ResourceAssignment
    → Option Resource
    → Decimal
    → Reply (ResourceAssignment × MaterialConsumption)
consume a none quantity = failed attribute_error
consume a (some r) quantity =
    if not (is_material r.resource_type)
    then failed value_error
    else (if less (or_zero a.quantity_assigned) (or_zero a.quantity_consumed +ᴰ quantity)
        then failed value_error
        else done (consumed a r quantity))

-- The assignment's row is written only if nothing was raised.
abbrev pub settle :
    ℕ → Store → Reply (ResourceAssignment × MaterialConsumption) → Reply MaterialConsumption × Store
settle k s (failed e) = (failed e, s)
settle k s (done p) =
    (done p.1, record s { assignments = replace (is_assignment k) p.0 s.assignments })

abbrev pub consume_found :
    ℕ → Decimal → Store → Option ResourceAssignment → Reply MaterialConsumption × Store
consume_found k quantity s none = (failed value_error, s)
consume_found k quantity s (some a) =
    settle k s (consume a (find (λ r. r.id == a.resource_id) s.resources) quantity)

unfoldable pub consume_material : ℕ → Decimal → Store → Reply MaterialConsumption × Store
consume_material k quantity s = consume_found k quantity s (find (is_assignment k) s.assignments)

unfoldable pub validate_material_assignment : ℕ → Decimal → Store → Reply Bool
validate_material_assignment k quantity s = elim (get_material_status k s) [
  | failed e ↦ failed e
  | done status ↦ if less status.quantity_remaining quantity then failed value_error else done true
]

unfoldable pub with_inventory : Decimal → Option Decimal → Resource → Resource
with_inventory quantity none r = record r { quantity_available = some quantity }
with_inventory quantity (some cost) r = record r {
  quantity_available = some quantity;
  unit_cost = some cost;
}

unfoldable pub update_material_inventory :
    ℕ → Decimal → Option Decimal → Store → Reply MaterialStatus × Store
unfolding with_inventory
update_material_inventory k quantity cost s = elim (find (is_resource k) s.resources) [
  | none ↦ (failed value_error, s)
  | some r ↦
      if is_material r.resource_type
      then (let s' = record s {
        resources = replace (is_resource k) (with_inventory quantity cost r) s.resources;
      } in
          (get_material_status k s', s'))
      else (failed value_error, s)
]
