-- ===== src/Enums/Dependency.antt =====
-- models/enums.py, `DependencyType`, and the constraint that models/dependency.py computes from it.
use defense_pm_tool.Prelude.{◌≡◌, refl, Bool, true, false, if◌then◌else◌}
use defense_pm_tool.Prelude.Int.{ℤ, pos, ◌+ℤ◌, ◌-ℤ◌, ltb_ℤ, eqb_ℤ}
use defense_pm_tool.Networkx.{EdgeType}
use defense_pm_tool.Cpm.{earliest}

pub data DependencyType : Type 0 where
  fs ss ff sf : DependencyType

-- The text that is stored, as the engine reads it from an edge.
unfoldable pub value : DependencyType → EdgeType
value fs = EdgeType.fs
value ss = EdgeType.ss
value ff = EdgeType.ff
value sf = EdgeType.sf

unfoldable pub affects_start : DependencyType → Bool
affects_start fs = true
affects_start ss = true
affects_start _ = false

unfoldable pub affects_finish : DependencyType → Bool
affects_finish ff = true
affects_finish sf = true
affects_finish _ = false

unfoldable pub uses_predecessor_finish : DependencyType → Bool
uses_predecessor_finish fs = true
uses_predecessor_finish ff = true
uses_predecessor_finish _ = false

unfoldable pub uses_predecessor_start : DependencyType → Bool
uses_predecessor_start ss = true
uses_predecessor_start sf = true
uses_predecessor_start _ = false

-- `Dependency.has_lag` and `Dependency.has_lead`
unfoldable pub has_lag : ℤ → Bool
has_lag lag = if eqb_ℤ lag (pos 0) then false else true

unfoldable pub has_lead : ℤ → Bool
has_lead lag = ltb_ℤ lag (pos 0)

-- `Dependency.calculate_successor_constraint`
unfoldable pub calculate_successor_constraint : DependencyType → ℤ → ℤ → ℤ → ℤ
calculate_successor_constraint fs lag predecessor_es predecessor_ef = predecessor_ef +ℤ lag
calculate_successor_constraint ss lag predecessor_es predecessor_ef = predecessor_es +ℤ lag
calculate_successor_constraint ff lag predecessor_es predecessor_ef = predecessor_ef +ℤ lag
calculate_successor_constraint sf lag predecessor_es predecessor_ef = predecessor_es +ℤ lag

-- The model's constraint and the engine's forward pass agree: where the type affects the start,
-- the engine uses the constraint as it is, and else the constraint less the duration. The
-- predicates of the type say which date of the predecessor is read and which of the successor is
-- bound, and of each pair exactly one holds.
pub earliest-calculate_successor_constraint :
    (t : DependencyType) (lag es ef d : ℤ)
    → (earliest (value t) lag es ef d ≡ (
        if affects_start t
        then calculate_successor_constraint t lag es ef
        else calculate_successor_constraint t lag es ef -ℤ d))
      × (calculate_successor_constraint t lag es ef
          ≡ (if uses_predecessor_finish t then ef else es) +ℤ lag)
      × (affects_finish t ≡ (if affects_start t then false else true))
      × (uses_predecessor_start t ≡ (if uses_predecessor_finish t then false else true))
unfolding earliest value affects_start affects_finish uses_predecessor_finish uses_predecessor_start
    calculate_successor_constraint
earliest-calculate_successor_constraint fs lag es ef d = (refl, refl, refl, refl)
earliest-calculate_successor_constraint ss lag es ef d = (refl, refl, refl, refl)
earliest-calculate_successor_constraint ff lag es ef d = (refl, refl, refl, refl)
earliest-calculate_successor_constraint sf lag es ef d = (refl, refl, refl, refl)
