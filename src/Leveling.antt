-- ===== src/Leveling.antt =====
-- services/resource_leveling.py: delaying activities until no resource is over-allocated. What the
-- repositories return is a field of `Repositories`; codes, reasons and warnings are left out but for
-- the activity that a warning names. `none` stands for a KeyError or for recursion without end.
pub mod Loop
pub mod Program
pub mod Later
pub mod Legal
pub mod Returns
pub mod Rounds
pub mod Result
pub mod Tests
pub mod Slots
pub mod Holds
pub mod Restore
use defense_pm_tool.Prelude.{
  ℕ, zero, suc, ◌+◌, ◌<◌, Bool, true, false, not, ◌&&◌, ◌||◌, ◌==◌, ltb, if◌then◌else◌, Option,
  none, some, List, [], ◌∷◌, ◌++◌, foldl, map, length,
}
use defense_pm_tool.Prelude.Int.{ℤ, pos, ◌+ℤ◌, ◌-ℤ◌, ltb_ℤ, leb_ℤ, eqb_ℤ, max_ℤ, min_ℤ, pos_part}
use defense_pm_tool.Prelude.Dict.{Dict, lookup, insert, values}
use defense_pm_tool.Prelude.Sort.{sort_by}
use defense_pm_tool.Decimal.{Decimal, whole, ◌+ᴰ◌, ◌*ᴰ◌, less}
use defense_pm_tool.Dates.{Date, is_weekend, next_day, span, or_date}
use defense_pm_tool.Networkx.{EdgeType, fs, ss, ff, sf, other}
use defense_pm_tool.Loading.{Assignment, Resource, get_assignment_date_range}

pub record Activity : Type 0 where
  pub id : ℕ
  pub early_start : Option Date
  pub early_finish : Option Date
  pub planned_start : Option Date
  pub planned_finish : Option Date
  pub total_float : Option ℤ
  pub is_critical : Bool

pub record Dependency : Type 0 where
  pub successor_id : ℕ
  pub dependency_type : EdgeType
  pub lag : ℤ

pub record LevelingOptions : Type 0 where
  pub preserve_critical_path : Bool
  pub max_iterations : ℕ
  pub target_resources : Option (List ℕ)
  pub level_within_float : Bool

pub record ActivityShift : Type 0 where
  pub activity_id : ℕ
  pub original_start : Date
  pub original_finish : Date
  pub new_start : Date
  pub new_finish : Date
  pub delay_days : ℤ

pub record LevelingResult : Type 0 where
  pub success : Bool
  pub iterations_used : ℕ
  pub activities_shifted : ℕ
  pub shifts : List ActivityShift
  pub remaining_overallocations : ℕ
  pub new_project_finish : Date
  pub original_project_finish : Date
  pub schedule_extension_days : ℤ
  pub warnings : List ℕ

pub record Repositories : Type 0 where
  pub get_resource : ℕ → Option Resource
  pub get_by_activity : ℕ → List Assignment
  pub get_assignments_with_activities : ℕ → List Assignment
  pub get_successors : ℕ → List Dependency

-- `working_dates`
abbrev pub Working : Type 0
Working = Dict (Date × Date)

abbrev pub both : Option Date → Option Date → Option (Date × Date)
both none f = none
both (some s) none = none
both (some s) (some f) = some (s, f)

-- The dates of an assignment's activity, as levelled so far, or else its own range if it has one.
abbrev pub or_own : Assignment → Option (Date × Date) → Option (Date × Date)
or_own a (some dates) = some dates
or_own a none = let (start, finish) = get_assignment_date_range a in both start finish

unfoldable pub dates_of : Working → Assignment → Option (Date × Date)
dates_of w a = or_own a (lookup a.activity_id w)

abbrev pub is_within : Date → Option (Date × Date) → Bool
is_within d none = false
is_within d (some dates) = leb_ℤ dates.0 d && leb_ℤ d dates.1

-- The hours on a day of the assignments that `skip` does not leave out.
unfoldable pub load_on : (ℕ → Bool) → Decimal → List Assignment → Working → Date → Decimal
load_on skip capacity assignments w d =
    foldl
      (λ total a.
        if not (skip a.activity_id) && is_within d (dates_of w a)
        then total +ᴰ a.units *ᴰ capacity
        else total)
      (whole 0) assignments

-- `while current <= end` with a return from inside, which leaves out the weekends.
unfoldable pub any_workday : (Date → Bool) → Date → ℕ → Bool
any_workday p d zero = false
any_workday p d (suc n) =
    let rest = any_workday p (next_day d) n in
    if is_weekend d then rest else (if p d then true else rest)

-- `while candidate_start.weekday() >= 5`; a weekend has two days.
unfoldable pub skip_weekend : Date → Date
skip_weekend d =
    if is_weekend d
    then (if is_weekend (next_day d) then next_day (next_day d) else next_day d)
    else d

-- `for _ in range(n)`: the first candidate that fits.
unfoldable pub first_fit : (Date → Bool) → ℕ → Date → Option Date
unfolding skip_weekend
first_fit fits zero d = none
first_fit fits (suc n) d =
    let candidate = skip_weekend d in
    let rest = first_fit fits n (next_day candidate) in
    if fits candidate then some candidate else rest

-- The units of the first assignment of the resource.
unfoldable pub units_for : ℕ → List Assignment → Option Decimal
units_for k [] = none
units_for k (a ∷ l) = if a.resource_id == k then some a.units else units_for k l

-- `new_earliest`
unfoldable pub new_earliest : EdgeType → ℤ → Date → Date → ℤ → Date
new_earliest fs lag start finish duration = finish +ℤ (pos 1 +ℤ lag)
new_earliest ss lag start finish duration = start +ℤ lag
new_earliest ff lag start finish duration = finish +ℤ lag -ℤ duration
new_earliest sf lag start finish duration = start +ℤ lag -ℤ duration
new_earliest other lag start finish duration = finish +ℤ (pos 1 +ℤ lag)

-- The date that a dependency asks of a successor whose dates are given.
abbrev pub demand : Dependency → Date × Date → Date × Date → Date
demand dep p s = new_earliest dep.dependency_type dep.lag p.0 p.1 (s.1 -ℤ s.0)

abbrev pub moved : Date → Date × Date → Date × Date
moved d s = (d, d +ℤ (s.1 -ℤ s.0))

-- One round of the loop over the dependencies; `again` is the recursive call.
unfoldable pub push_successor :
    (ℕ → Working → Option Working)
    → Dependency
    → Option (Date × Date)
    → Option (Date × Date)
    → Working
    → Option Working
push_successor again dep p none w = some w
push_successor again dep none (some s) w = none
push_successor again dep (some p) (some s) w =
    if ltb_ℤ s.0 (demand dep p s)
    then again dep.successor_id (insert dep.successor_id (moved (demand dep p s) s) w)
    else some w

unfoldable pub push_each :
    (ℕ → Working → Option Working) → ℕ → List Dependency → Working → Option Working
unfolding push_successor
push_each again k [] w = some w
push_each again k (dep ∷ deps) w =
    elim (push_successor again dep (lookup k w) (lookup dep.successor_id w) w) [
      | none ↦ none
      | some w' ↦ push_each again k deps w'
    ]

-- `if delay_days <= 0 ...` and what follows
unfoldable pub can_delay_activity : Activity → ℤ → LevelingOptions → Bool
can_delay_activity a delay_days options =
    if leb_ℤ delay_days (pos 0)
    then false
    else (if options.preserve_critical_path && a.is_critical
        then false
        else (if options.level_within_float
            then not (ltb_ℤ (elim a.total_float [ none ↦ pos 0 | some f ↦ f ]) delay_days)
            else true))

-- The slot that was found, or the last resort after 365 candidates.
abbrev pub or_last : Date → Option Date → Date
or_last earliest none = earliest +ℤ pos 365
or_last earliest (some d) = d

abbrev pub finish_of : Date → Option (Date × Date) → Date
finish_of earliest none = earliest
finish_of earliest (some dates) = dates.1

module _ (repositories : Repositories) where
  unfoldable pub is_overloaded : ℕ → Decimal → Working → Date → Bool
  is_overloaded k capacity w d =
      less capacity
        (load_on (λ i. false) capacity (repositories.get_assignments_with_activities k) w d)

  unfoldable pub is_overallocated_on_dates : ℕ → Date → Date → Working → Bool
  unfolding is_overloaded
  is_overallocated_on_dates k start finish w = elim (repositories.get_resource k) [
    | none ↦ false
    | some r ↦ any_workday (is_overloaded k r.capacity_per_day w) start (span start finish)
  ]

  -- On a day the activity and the others ask more than there is.
  unfoldable pub is_crowded : ℕ → ℕ → Decimal → Decimal → Working → Date → Bool
  is_crowded i k units capacity w d = less capacity (
      load_on (λ j. j == i) capacity (repositories.get_assignments_with_activities k) w d
      +ᴰ units *ᴰ capacity)

  -- `slot_works` for a candidate and the activity's length in days.
  unfoldable pub slot_works : ℕ → ℕ → Decimal → Decimal → Working → ℤ → Date → Bool
  unfolding is_crowded
  slot_works i k units capacity w duration d =
      not (any_workday (is_crowded i k units capacity w) d (span d (d +ℤ duration)))

  unfoldable pub find_next_available_slot : ℕ → ℕ → Date → Working → Date
  unfolding slot_works
  find_next_available_slot i k earliest w = elim (repositories.get_resource k) [
    | none ↦ earliest
    | some r ↦ elim (units_for k (repositories.get_by_activity i)) [
      | none ↦ earliest
      | some units ↦ or_last earliest (
          first_fit
            (slot_works i k units r.capacity_per_day w
              (finish_of earliest (lookup i w) -ℤ earliest))
            365 earliest)
    ]
  ]

  -- `_recalculate_successors`, with a bound on the depth of the recursion.
  unfoldable pub recalculate_successors : ℕ → ℕ → Working → Option Working
  unfolding push_each
  recalculate_successors zero k w = none
  recalculate_successors (suc fuel) k w =
      push_each (recalculate_successors fuel) k (repositories.get_successors k) w
