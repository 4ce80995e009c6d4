-- ===== src/Parallel/Dated.antt =====
-- services/parallel_leveling.py: the activities of the conflicts in the matrix have dates.
use defense_pm_tool.Prelude.{
  ℕ, ◌≡◌, refl, ap, ◌∙◌, arith, Bool, true, false, not, ◌&&◌, ◌||◌, Option, none, some, List, [],
  ◌∷◌, Bool-cases, inl, inr,
}
use defense_pm_tool.Prelude.Dict.{lookup}
use defense_pm_tool.Prelude.Sort.{any}
use defense_pm_tool.Dates.{Date, span}
use defense_pm_tool.Loading.{Assignment, Resource}
use defense_pm_tool.Leveling.{LevelingOptions, Repositories, Working, is_within}
use defense_pm_tool.Parallel.{is_held, activities_on, conflict_of, earliest_start, latest_finish}
use defense_pm_tool.Parallel.Heap.{Heapq, HeapqLaws}
use defense_pm_tool.Parallel.Run.{build_conflict_matrix}
use defense_pm_tool.Parallel.Days.{any_workday-none, any_none}
use defense_pm_tool.Parallel.Conflicts.{any-scan_all}
use defense_pm_tool.Parallel.Legal.{is_dated, is_undated}

held_dated :
    (w : Working) (d : Date) (k : ℕ) → is_within d (lookup k w) ≡ true → not (is_dated w k) ≡ false
held_dated w d k h = by_lookup (lookup k w) h
  where
    by_lookup :
        (o : Option (Date × Date))
        → is_within d o ≡ true
        → not (elim o [ none ↦ false | some dates ↦ true ]) ≡ false
    by_lookup none h = cc
    by_lookup (some dates) h = refl

-- The activities of a conflict that was found have dates.
activities_on-dated :
    (w : Working) (d : Date) (l : List Assignment)
    → any (λ k. not (is_dated w k)) (activities_on l w d) ≡ false
unfolding activities_on is_held
activities_on-dated w d [] = refl
activities_on-dated w d (a ∷ l) = elim (Bool-cases (is_within d (lookup a.activity_id w))) [
  | inl e ↦ rw e (
      ap (λ b. b || any (λ k. not (is_dated w k)) (activities_on l w d))
        (held_dated w d a.activity_id e)
      ∙ activities_on-dated w d l)
  | inr e ↦ rw e (activities_on-dated w d l)
]

none_found : (a b : Bool) → b ≡ false → (a && b) ≡ false
none_found a b h = ground arith

module _ (heapq : Heapq) (laws : HeapqLaws heapq) (repositories : Repositories)
    (resources : List Resource) (options : LevelingOptions) (fuel : ℕ) where
  pub build_conflict_matrix-dated :
      (w : Working)
      → any (is_undated w) (build_conflict_matrix heapq repositories resources options fuel w)
        ≡ false
  unfolding build_conflict_matrix conflict_of
  build_conflict_matrix-dated [] = refl
  build_conflict_matrix-dated ((k, dates) ∷ w) =
      let all : Working = (k, dates) ∷ w in
      let first = earliest_start dates.0 w in
      any-scan_all heapq laws repositories resources options fuel (is_undated all) all first
        (span first (latest_finish dates.1 w)) resources []
      ∙ nothing _ (
          any_none _ resources λ r. none_found _ _ (
            any_workday-none _ _ _ λ e.
              none_found _ _
                (activities_on-dated all e (repositories.get_assignments_with_activities r.id))))
    where
      nothing : (a : Bool) → a ≡ false → (a || false) ≡ false
      nothing a h = ground arith
