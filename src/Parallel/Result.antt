-- ===== src/Parallel/Result.antt =====
-- services/parallel_leveling.py: the result of `level_program`.
use defense_pm_tool.Prelude.{ℕ, ◌<◌, ◌≤◌, ◌≡◌, refl, arith, false, some, List, [], ◌∷◌, All, length}
use defense_pm_tool.Prelude.Int.{pos, ◌≤ℤ◌, max_ℤ_bounds}
use defense_pm_tool.Prelude.Sort.{any}
use defense_pm_tool.Dates.{Date}
use defense_pm_tool.Loading.{Resource}
use defense_pm_tool.Leveling.{Activity, LevelingOptions, LevelingResult, Repositories, Working}
use defense_pm_tool.Leveling.Legal.{Returns}
use defense_pm_tool.Leveling.Restore.{IsRanked}
use defense_pm_tool.Leveling.Returns.{recalculate_successors-returns}
use defense_pm_tool.Leveling.Rounds.{All-Has}
use defense_pm_tool.Leveling.Result.{count_ids-bound}
use defense_pm_tool.Leveling.Program.{Program, initial_dates, get_project_finish}
use defense_pm_tool.Parallel.{ResourceConflict, calculate_priorities}
use defense_pm_tool.Parallel.Heap.{Heapq, HeapqLaws}
use defense_pm_tool.Parallel.Run.{
  State, ParallelLevelingResult, build_conflict_matrix, finished, level_conflicts, level_program,
  unchanged,
}
use defense_pm_tool.Parallel.Legal.{is_undated, calculate_priorities-IsById}
use defense_pm_tool.Parallel.Dated.{build_conflict_matrix-dated}
use defense_pm_tool.Parallel.Rounds.{IsLegal, run_loop-Ran}

-- What `level_program` makes of a program's activities.
abbrev pub IsLawful : LevelingOptions → List Activity → LevelingResult → Type 0
IsLawful options l r =
    All (IsLegal options l) r.shifts
    × (length r.shifts ≤ r.iterations_used)
    × (r.iterations_used ≤ options.max_iterations)
    × (r.activities_shifted ≤ length r.shifts)
    × (pos 0 ≤ℤ r.schedule_extension_days)

module _ (heapq : Heapq) (laws : HeapqLaws heapq) (repositories : Repositories)
    (resources : List Resource) (options : LevelingOptions) (rank : ℕ → ℕ) (fuel : ℕ)
    (ranked : IsRanked repositories rank) (enough : (k : ℕ) → rank k < fuel) where
  returns : Returns repositories fuel
  returns k w known =
      recalculate_successors-returns repositories rank ranked fuel k w (enough k) known

  unchanged-IsLawful :
      (l : List Activity) (original : Date)
      → IsLawful options l (unchanged heapq repositories resources options fuel original).result
  unfolding unchanged
  unchanged-IsLawful l original = (tt, omega arith, omega arith, omega arith, omega arith)

  finished-IsLawful :
      (l : List Activity) (initial : ℕ) (original : Date) (u : ℕ) (st : State)
      → All (IsLegal options l) st.shifts
      → length st.shifts ≤ u
      → u ≤ options.max_iterations
      → IsLawful options l
          (finished heapq repositories resources options fuel initial original u st).result
  unfolding finished
  finished-IsLawful l initial original u st legal few rounds =
      (legal, few, rounds, count_ids-bound st.shifts, (max_ℤ_bounds (pos 0) _).0)

  level_conflicts-IsLawful :
      (l : List Activity) (original : Date) (w : Working) (conflicts : List ResourceConflict)
      → any (is_undated w) conflicts ≡ false
      → (r : ParallelLevelingResult) × (level_conflicts heapq repositories resources options fuel l
            original w conflicts
          ≡ some r)
        × IsLawful options l r.result
  unfolding level_conflicts
  level_conflicts-IsLawful l original w [] dated = (
    unchanged heapq repositories resources options fuel original,
    refl,
    unchanged-IsLawful l original,
  )
  level_conflicts-IsLawful l original w (c ∷ conflicts) dated =
      let start : State = record {
        activity_dates = w;
        shifts = [];
        warnings = [];
        conflicts = c ∷ conflicts;
        unique_resources = [];
      } in
      let (u, st, ran, (legal, few, rounds, later)) =
        run_loop-Ran heapq laws repositories resources options fuel returns l (All-Has l)
          (calculate_priorities repositories l) options.max_iterations 0 start
          (calculate_priorities-IsById repositories l (All-Has l)) (tt, omega arith, dated) in
      (
        finished heapq repositories resources options fuel (length (c ∷ conflicts)) original u st,
        rw (level_conflicts, ran) refl,
        finished-IsLawful l (length (c ∷ conflicts)) original u st legal few
            (omega (arith, rounds)),
      )

  -- Let every dependency lead to a lower rank, and every rank be below the fuel. Then, whatever heap
  -- keeps the laws, the levelling of all resources at once ends without an error. Each shift is of an
  -- activity of the program, delays it by a day or more, both dates alike, and starts from a date from
  -- which the options let it be delayed: it is not critical if the critical path is to be preserved, and
  -- has not yet used its float if the levelling is to stay within it. There are no more shifts than
  -- iterations, no more iterations than the options say, no more activities shifted than shifts, and the
  -- extension is not negative.
  pub level_program-returns :
      (today : Date) (program : Program) (activities : List Activity)
      → (r : ParallelLevelingResult) × (level_program heapq repositories resources options fuel
            today program activities
          ≡ some r)
        × IsLawful options activities r.result
  unfolding level_program
  level_program-returns today program [] = (
    unchanged heapq repositories resources options fuel program.end_date,
    refl,
    unchanged-IsLawful [] program.end_date,
  )
  level_program-returns today program (a ∷ l) =
      let w = initial_dates program (a ∷ l) [] in
      level_conflicts-IsLawful (a ∷ l) (get_project_finish today (a ∷ l)) w
        (build_conflict_matrix heapq repositories resources options fuel w)
        (build_conflict_matrix-dated heapq laws repositories resources options fuel w)
