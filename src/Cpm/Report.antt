-- ===== src/Cpm/Report.antt =====
-- services/cpm.py: `get_critical_path` and `get_project_duration` on a new engine, which calculate
-- first because `self.results` is empty.
use defense_pm_tool.Prelude.{ℕ, ◌≡◌, ◌≢◌, ◌↔◌, some, List, [], arith, map, All, Member, subst}
use defense_pm_tool.Prelude.Int.{ℤ, ◌≤ℤ◌}
use defense_pm_tool.Prelude.Dict.{Dict, lookup, values}
use defense_pm_tool.Networkx.{Networkx, Laws}
use defense_pm_tool.Cpm.{
  Activity, Results, ScheduleResult, Action, ok, critical_starts, sort, calculate,
  ensure_calculated, get_critical_path, get_project_duration, max_finish, ◌>>◌,
}
use defense_pm_tool.Cpm.Initial.{IsDict}
use defense_pm_tool.Cpm.Finish.{
  max_finish_succeeds, max_finish_bounds, max_finish_attained, All-values,
}
use defense_pm_tool.Cpm.Schedule.{early_start_in}
use defense_pm_tool.Cpm.Calculate.{results-IsDict, calculate_critical}
use defense_pm_tool.Cpm.CriticalPath.{
  ids, ids-sort, IsAscending, Critical, Critical-of_Member, Member-of_Critical, sort-IsSorted,
  sort-Agrees, Ascending_of_Sorted, critical_starts-Agrees,
}

module _ (nx : Networkx) (laws : Laws nx) (activities : Dict Activity) (graph : nx.Graph)
    (is_dict : IsDict activities) {R : Results}
    (done : calculate nx activities graph [] ≡ (ok tt, R)) where
  then_report : {A : Type 0} (k : Action A) → (ensure_calculated nx activities graph >> k) [] ≡ k R
  then_report k = ground (arith, done)

  -- If `calculate` of a new engine returns, over activities without duplicate keys and a
  -- package that keeps its laws, `get_critical_path` of the new engine returns with the same
  -- results: the keys of exactly the entries without float, in ascending order of their early
  -- starts, and at least one.
  pub get_critical_path-exact :
      (path : List ℕ) × (get_critical_path nx activities graph [] ≡ (ok path, R))
      × ((k : ℕ) → Member k path ↔ Critical R k)
      × IsAscending (early_start_in R) path
      × (path ≢ [])
  unfolding get_critical_path
  get_critical_path-exact =
      let unique = results-IsDict nx laws activities graph is_dict done in
      let path = ids (sort (critical_starts R)) in
      let same : (k : ℕ) → Member k path ↔ Critical R k = λ k. (
        λ m. Critical-of_Member R k unique ((ids-sort (critical_starts R) k).0 m),
        λ c. (ids-sort (critical_starts R) k).1 (Member-of_Critical R k c),
      ) in
      let (k, r, found, zero_float, _) = calculate_critical nx laws activities graph is_dict done in
      (
        path,
        then_report (λ S. (ok (map (λ a. a.0) (sort (critical_starts S))), S)),
        same,
        Ascending_of_Sorted (early_start_in R) (sort (critical_starts R))
            (sort-Agrees (early_start_in R) (critical_starts R)
              (critical_starts-Agrees R R (λ j s h. h) unique))
            (sort-IsSorted (critical_starts R)),
        λ e. subst (Member k) e ((same k).1 (r, found, zero_float)),
      )

  -- If `calculate` of a new engine returns, over activities without duplicate keys and a
  -- package that keeps its laws, `get_project_duration` of the new engine returns the greatest
  -- early finish, with the same results.
  pub get_project_duration-exact :
      (d : ℤ) × (get_project_duration nx activities graph [] ≡ (ok d, R))
      × All (λ r. r.early_finish ≤ℤ d) (values R)
      × ((k : ℕ) × (r : ScheduleResult) × (lookup k R ≡ some r) × (r.early_finish ≡ d))
  unfolding get_project_duration
  get_project_duration-exact =
      let (k, r, found, _, _) = calculate_critical nx laws activities graph is_dict done in
      let unique = results-IsDict nx laws activities graph is_dict done in
      let (d, longest) = max_finish_succeeds R k r found in
      (
        d,
        rw (then_report (λ S. (max_finish S, S)), longest),
        All-values (λ r. r.early_finish ≤ℤ d) R unique
            (λ j q there. max_finish_bounds R d j q longest there),
        max_finish_attained R d unique longest,
      )
