-- ===== src/Baselines.antt =====
-- services/baseline_comparison.py: the comparison of a program with a baseline. Names and the moment of
-- the comparison are left out; a code is a number, in the order of the codes. A set is a list without
-- repetitions in the order of the dictionary that it comes from, which is one of the orders in which
-- the source may list the variances.
pub mod Compare
pub mod Counts
pub mod Codes
pub mod Details
pub mod Same
pub mod Wbs
pub mod Budget
pub mod Whole
pub mod Sums
pub mod Amounts
pub mod Changes
pub mod Reconcile
mod Tests
use defense_pm_tool.Prelude.{
  ℕ, zero, suc, ◌+◌, Bool, true, false, not, ◌&&◌, ◌||◌, ◌==◌, leb, if◌then◌else◌, Option, none,
  some, List, [], ◌∷◌, ◌++◌, foldl, map, length,
}
use defense_pm_tool.Prelude.Int.{ℤ, pos, ◌-ℤ◌, eqb_ℤ, max_ℤ}
use defense_pm_tool.Prelude.Dict.{Dict, keys, values, lookup, insert}
use defense_pm_tool.Decimal.{Decimal, equal, ◌-ᴰ◌}
use defense_pm_tool.Dates.{Date}

-- An activity, or its entry in the snapshot of a baseline.
pub record Activity : Type 0 where
  pub id : ℕ
  pub code : ℕ
  pub duration : ℤ
  pub early_start : Option Date
  pub early_finish : Option Date
  pub budgeted_cost : Decimal
  pub is_critical : Bool

pub data ChangeType : Type 0 where
  added : ChangeType
  removed : ChangeType
  modified : ChangeType

pub record ActivityVariance : Type 0 where
  pub activity_id : ℕ
  pub activity_code : ℕ
  pub change_type : ChangeType
  pub duration_baseline : Option ℤ
  pub duration_current : Option ℤ
  pub duration_variance : Option ℤ
  pub start_baseline : Option Date
  pub start_current : Option Date
  pub start_variance_days : Option ℤ
  pub finish_baseline : Option Date
  pub finish_current : Option Date
  pub finish_variance_days : Option ℤ
  pub bac_baseline : Option Decimal
  pub bac_current : Option Decimal
  pub bac_variance : Option Decimal
  pub was_critical : Option Bool
  pub is_critical : Option Bool

pub record Snapshot : Type 0 where
  pub activities : List Activity
  pub critical_path_ids : List ℕ
  pub project_finish : Option Date

-- An entry of the critical path: a code, or the id of an activity that the snapshot does not have.
pub data Entry : Type 0 where
  by_code : ℕ → Entry
  by_id : ℕ → Entry

unfoldable pub contains : ℕ → List ℕ → Bool
contains k [] = false
contains k (x ∷ l) = (x == k) || contains k l

-- `xs - ys` and `xs & ys`
unfoldable pub minus : List ℕ → List ℕ → List ℕ
unfolding contains
minus [] ys = []
minus (x ∷ xs) ys = let rest = minus xs ys in if contains x ys then rest else x ∷ rest

unfoldable pub common : List ℕ → List ℕ → List ℕ
unfolding contains
common [] ys = []
common (x ∷ xs) ys = let rest = common xs ys in if contains x ys then x ∷ rest else rest

-- `{a.code: a for a in ...}`
unfoldable pub by_codes : List Activity → Dict Activity
by_codes l = foldl (λ d a. insert a.code a d) [] l

-- Both dates are there and differ.
unfoldable pub differ : Option Date → Option Date → Bool
differ none d = false
differ (some b) none = false
differ (some b) (some c) = not (eqb_ℤ b c)

abbrev pub xor : Bool → Bool → Bool
xor true b = not b
xor false b = b

unfoldable pub activity_modified : Activity → Activity → Bool
unfolding differ
activity_modified baseline current =
    if not (eqb_ℤ baseline.duration current.duration)
    then true
    else (if not (equal baseline.budgeted_cost current.budgeted_cost)
        then true
        else (if differ baseline.early_start current.early_start
            then true
            else (if differ baseline.early_finish current.early_finish
                then true
                else xor baseline.is_critical current.is_critical)))

-- The days from the baseline's date to the current one, if there are both.
unfoldable pub days_between : Option Date → Option Date → Option ℤ
days_between none c = none
days_between (some b) none = none
days_between (some b) (some c) = some (c -ℤ b)

unfoldable pub build_activity_variance : Activity → Activity → ChangeType → ActivityVariance
unfolding days_between
build_activity_variance baseline current change_type = record {
  activity_id = current.id;
  activity_code = current.code;
  change_type = change_type;
  duration_baseline = some baseline.duration;
  duration_current = some current.duration;
  duration_variance = some (current.duration -ℤ baseline.duration);
  start_baseline = baseline.early_start;
  start_current = current.early_start;
  start_variance_days = days_between baseline.early_start current.early_start;
  finish_baseline = baseline.early_finish;
  finish_current = current.early_finish;
  finish_variance_days = days_between baseline.early_finish current.early_finish;
  bac_baseline = some baseline.budgeted_cost;
  bac_current = some current.budgeted_cost;
  bac_variance = some (current.budgeted_cost -ᴰ baseline.budgeted_cost);
  was_critical = some baseline.is_critical;
  is_critical = some current.is_critical;
}

unfoldable pub added_variance : Activity → ActivityVariance
added_variance a = record {
  activity_id = a.id;
  activity_code = a.code;
  change_type = added;
  duration_baseline = none;
  duration_current = some a.duration;
  duration_variance = none;
  start_baseline = none;
  start_current = a.early_start;
  start_variance_days = none;
  finish_baseline = none;
  finish_current = a.early_finish;
  finish_variance_days = none;
  bac_baseline = none;
  bac_current = some a.budgeted_cost;
  bac_variance = none;
  was_critical = none;
  is_critical = some a.is_critical;
}

unfoldable pub removed_variance : Activity → ActivityVariance
removed_variance a = record {
  activity_id = a.id;
  activity_code = a.code;
  change_type = removed;
  duration_baseline = some a.duration;
  duration_current = none;
  duration_variance = none;
  start_baseline = a.early_start;
  start_current = none;
  start_variance_days = none;
  finish_baseline = a.early_finish;
  finish_current = none;
  finish_variance_days = none;
  bac_baseline = some a.budgeted_cost;
  bac_current = none;
  bac_variance = none;
  was_critical = some a.is_critical;
  is_critical = none;
}
