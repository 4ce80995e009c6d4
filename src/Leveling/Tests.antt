-- ===== src/Leveling/Tests.antt =====
-- Two activities that share a worker on two days, and a third that follows the second.
use defense_pm_tool.Prelude.{
  ℕ, ◌≡◌, sym, ◌≢◌, ◌<◌, ◌⊎◌, refl, true, Bool-cases, inl, inr, ◌==◌, ==_to_eq, List, [], ◌∷◌,
  arith, none, some, if◌then◌else◌,
}
use defense_pm_tool.Prelude.Int.{ℤ, pos, leb_ℤ, ◌-ℤ◌, ◌+ℤ◌}
use defense_pm_tool.Prelude.Dict.{lookup}
use defense_pm_tool.Decimal.{whole}
use defense_pm_tool.Networkx.{fs}
use defense_pm_tool.Dates.{Date}
use defense_pm_tool.Loading.{Assignment}
use defense_pm_tool.Loading.Tests.{worker, assigned}
use defense_pm_tool.Leveling
use defense_pm_tool.Leveling.Program
use defense_pm_tool.Leveling.Later
use defense_pm_tool.Leveling.Slots
use defense_pm_tool.Leveling.Restore
use defense_pm_tool.Leveling.Result

abbrev assignment : ℕ → Assignment
assignment k = assigned k (whole 1) (pos 1) (pos 2)

abbrev then_third : Leveling.Dependency
then_third = record { successor_id = 3; dependency_type = fs; lag = pos 0 }

abbrev followers : ℕ → List Leveling.Dependency
followers k = if k == 2 then then_third ∷ [] else []

abbrev pub repositories : Leveling.Repositories
repositories = record {
  get_resource = λ k. if k == 1 then some worker else none;
  get_by_activity = λ k. if k == 3 then [] else assignment k ∷ [];
  get_assignments_with_activities = λ k. assignment 1 ∷ assignment 2 ∷ [];
  get_successors = followers;
}

abbrev pub activity : ℕ → Date → Date → ℤ → Leveling.Activity
activity k start finish slack = record {
  id = k;
  early_start = some start;
  early_finish = some finish;
  planned_start = none;
  planned_finish = none;
  total_float = some slack;
  is_critical = leb_ℤ slack (pos 0);
}

abbrev pub activities : List Leveling.Activity
activities =
    activity 2 (pos 1) (pos 2) (pos 5)
    ∷ activity 3 (pos 3) (pos 3) (pos 5)
    ∷ activity 1 (pos 1) (pos 2) (pos 0)
    ∷ []

abbrev pub options : Leveling.LevelingOptions
options = record {
  preserve_critical_path = true;
  max_iterations = 10;
  target_resources = none;
  level_within_float = true;
}

abbrev pub program : Program.Program
program = record { start_date = pos 1; end_date = pos 30 }

abbrev pub rank : ℕ → ℕ
rank k = if k == 2 then 1 else 0

pub ranked : Restore.IsRanked repositories rank
ranked u = elim (Bool-cases (u == 2)) [ inl e ↦ rw e (omega arith, tt) | inr e ↦ rw e tt ]

pub enough : (k : ℕ) → rank k < 2
enough k = ground arith

level_program-IsLawful_example :
    (r : Leveling.LevelingResult) × (Program.level_program repositories options 2
        (pos 1)
        program
        (worker ∷ [])
        activities
      ≡ some r)
    × Result.IsLawful options activities r
level_program-IsLawful_example =
    Result.level_program-IsLawful repositories options rank 2 ranked enough (pos 1) program
      (worker ∷ []) activities

abbrev pub working : Leveling.Working
working = (1, (pos 1, pos 2)) ∷ (2, (pos 1, pos 2)) ∷ (3, (pos 3, pos 3)) ∷ []

find_next_available_slot-IsFirst_example :
    let c = Leveling.find_next_available_slot repositories 2 1 (pos 1) working in
    ((c ≡ (pos 1 +ℤ pos 365))
      × Slots.IsFull repositories 2 1 (whole 1) worker working (pos 1) (pos 1))
    ⊎ (Slots.IsFirst (Slots.works repositories 2 1 (whole 1) worker working (pos 1)) (pos 1) c
        × Slots.IsFree repositories 2 1 (whole 1) worker working (pos 1) c)
unfolding lookup Leveling.units_for ◌-ℤ◌
find_next_available_slot-IsFirst_example =
    Slots.find_next_available_slot-IsFirst repositories 2 1 (whole 1) worker working (pos 1) refl
      refl

-- The dates once the second activity has been delayed to the third day.
abbrev delayed : Leveling.Working
delayed = (1, (pos 1, pos 2)) ∷ (2, (pos 3, pos 4)) ∷ (3, (pos 3, pos 3)) ∷ []

others_hold : (u : ℕ) → 2 ≢ u → Restore.AllHold repositories rank delayed u
others_hold u ne = elim (Bool-cases (u == 2)) [
  | inl e ↦ absurd (ne (sym (==_to_eq u 2 e)))
  | inr e ↦ rw e tt
]

recalculate_successors-restores_example :
    (w' : Leveling.Working) × (Leveling.recalculate_successors repositories 2 2 delayed ≡ some w')
    × Later.Later delayed w'
    × ((u : ℕ) → Restore.AllHold repositories rank w' u)
unfolding lookup
recalculate_successors-restores_example =
    Restore.recalculate_successors-restores repositories rank ranked 2 2 delayed (pos 3, pos 4)
      (omega arith) refl others_hold
