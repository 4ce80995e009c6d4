-- ===== src/Parallel/Tests.antt =====
-- The sample of the serial levelling, with the ordered list for a heap.
use defense_pm_tool.Prelude.{◌≡◌, not, ◌&&◌, some, [], ◌∷◌}
use defense_pm_tool.Prelude.Int.{pos}
use defense_pm_tool.Prelude.Sort.{any}
use defense_pm_tool.Dates.{is_weekend}
use defense_pm_tool.Loading.Tests.{worker}
use defense_pm_tool.Leveling.Tests.{
  repositories, activities, options, program, rank, ranked, enough, working,
}
use defense_pm_tool.Parallel.Heap.{ordered_list, ordered_list-HeapqLaws}
use defense_pm_tool.Parallel.Run
use defense_pm_tool.Parallel.Conflicts
use defense_pm_tool.Parallel.Result

level_program-returns_example :
    (r : Run.ParallelLevelingResult) × (Run.level_program ordered_list repositories
        (worker ∷ [])
        options
        2
        (pos 1)
        program
        activities
      ≡ some r)
    × Result.IsLawful options activities r.result
level_program-returns_example =
    Result.level_program-returns ordered_list ordered_list-HeapqLaws repositories (worker ∷ [])
      options rank 2 ranked enough (pos 1) program activities

build_conflict_matrix-exact_example :
    any
      (Conflicts.is_of ordered_list ordered_list-HeapqLaws repositories
        (worker ∷ [])
        options
        2
        1
        (pos 2))
      (Run.build_conflict_matrix ordered_list repositories (worker ∷ []) options 2 working)
    ≡ (not (is_weekend (pos 2))
        && any
            (Conflicts.has_conflict ordered_list ordered_list-HeapqLaws repositories
              (worker ∷ [])
              options
              2
              1
              (pos 2)
              working)
            (worker ∷ []))
build_conflict_matrix-exact_example =
    Conflicts.build_conflict_matrix-exact ordered_list ordered_list-HeapqLaws repositories
      (worker ∷ []) options 2 1 (pos 2) working
