-- ===== src/Enums/Tests.antt =====
-- The rules of models/enums.py at concrete values.
use defense_pm_tool.Prelude.{◌≡◌, ◌↔◌, ◌⊎◌, none, some, true, false, if◌then◌else◌}
use defense_pm_tool.Prelude.Int.{◌≤ℤ◌, pos, ◌+ℤ◌, ◌-ℤ◌}
use defense_pm_tool.Cpm.{earliest}
use defense_pm_tool.Enums.Role
use defense_pm_tool.Enums.Role.{level, from_level, from_level-level}
use defense_pm_tool.Enums.Dependency

from_level-level_example :
    ((from_level (pos 3) ≡ some Role.scheduler) ↔ (pos (level Role.scheduler) ≡ pos 3))
    × ((from_level (pos 3) ≡ none) ↔ ((pos 3 ≤ℤ pos 0) ⊎ (pos 6 ≤ℤ pos 3)))
from_level-level_example = from_level-level (pos 3) Role.scheduler

earliest-calculate_successor_constraint_example :
    (earliest (Dependency.value Dependency.sf) (pos 2) (pos 3) (pos 7) (pos 4) ≡ (
      if Dependency.affects_start Dependency.sf
      then Dependency.calculate_successor_constraint Dependency.sf (pos 2) (pos 3) (pos 7)
      else Dependency.calculate_successor_constraint Dependency.sf (pos 2) (pos 3) (pos 7)
        -ℤ pos 4))
    × (Dependency.calculate_successor_constraint Dependency.sf (pos 2) (pos 3) (pos 7)
        ≡ (if Dependency.uses_predecessor_finish Dependency.sf then pos 7 else pos 3) +ℤ pos 2)
    × (Dependency.affects_finish Dependency.sf
        ≡ (if Dependency.affects_start Dependency.sf then false else true))
    × (Dependency.uses_predecessor_start Dependency.sf
        ≡ (if Dependency.uses_predecessor_finish Dependency.sf then false else true))
earliest-calculate_successor_constraint_example =
    Dependency.earliest-calculate_successor_constraint Dependency.sf (pos 2) (pos 3) (pos 7) (pos 4)
