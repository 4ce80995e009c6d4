-- ===== src/Cpm/Slack.antt =====
-- services/cpm.py, `calculate`: the late dates and the floats of a successful run.
use defense_pm_tool.Prelude.{ℕ, ◌≡◌, sym, ◌∙◌, ap, some, [], inl, inr, some_inj}
use defense_pm_tool.Prelude.Int.{ℤ, pos, ◌+ℤ◌, ◌-ℤ◌, ◌≤ℤ◌, int_laws}
use defense_pm_tool.Prelude.Dict.{Dict, lookup, keys, Member-of_lookup}
use defense_pm_tool.Networkx.{Networkx, Laws}
use defense_pm_tool.Cpm.{Activity, Results, ScheduleResult, float_visit, forward_visit, initial}
use defense_pm_tool.Cpm.Passes.{update-keeps, update-establishes}
use defense_pm_tool.Cpm.Initial.{IsDict}
use defense_pm_tool.Cpm.Forward.{HasAll, insert-HasAll, initial-HasAll}
use defense_pm_tool.Cpm.Finish.{
  max_finish_bounds, max_finish_attained, initial-IsDict, update-IsDict,
}
use defense_pm_tool.Cpm.Floats.{float_visit-Visit}
use defense_pm_tool.Cpm.Run.{Run}
use defense_pm_tool.Cpm.Dates.{Early, dates_entry, forward_early, backward_late, backward-IsAbove}
use defense_pm_tool.Cpm.Schedule.{
  early_start_in, early_start_in-eq, run-IsFeasible, forward_of_final, final_of_forward,
}

-- What a run's dates say of an activity.
pub record IsDated (activities : Dict Activity) (project_end : ℤ) (k : ℕ) (r : ScheduleResult)
    : Type 0 where
  pub activity : Activity
  pub known : lookup k activities ≡ some activity
  pub lasts_early : r.early_finish ≡ r.early_start +ℤ activity.duration
  pub lasts_late : r.late_finish ≡ r.late_start +ℤ activity.duration
  pub slack : r.total_float ≡ r.late_start -ℤ r.early_start
  pub starts : pos 0 ≤ℤ r.early_start
  pub in_order : r.early_start ≤ℤ r.late_start
  pub ends : r.late_finish ≤ℤ project_end

module _ (nx : Networkx) (laws : Laws nx) (activities : Dict Activity) (graph : nx.Graph)
    (is_dict : IsDict activities) {R : Results} (run : Run nx activities graph [] R) where
  forward_all : HasAll activities run.after_forward
  forward_all =
      update-keeps (forward_visit nx activities graph) (HasAll activities) run.order
        (initial activities []) run.after_forward (λ x S r _ p _. insert-HasAll activities x r S p)
        run.forward (initial-HasAll activities is_dict)

  pub run_all : HasAll activities R
  run_all k a known =
      let (q, was) = forward_all k a known in
      let (r, found, _) = final_of_forward nx laws activities graph is_dict run k q was in
      (r, found)

  early_ends :
      (k : ℕ) (a : Activity)
      → lookup k activities ≡ some a
      → early_start_in R k +ℤ a.duration ≤ℤ run.project_end
  early_ends k a known =
      let (q, was) = forward_all k a known in
      let (r, found, same) = final_of_forward nx laws activities graph is_dict run k q was in
      let entry = forward_early nx laws activities graph is_dict run k q was in
      let high = max_finish_bounds run.after_forward run.project_end k q run.longest was in
      rw
        (
          early_start_in-eq R k found,
          ← ap (λ (t : Early). t.1) same,
          some_inj (sym known ∙ entry.known),
          ← entry.finish,
        )
        high

  total_float_of :
      (k : ℕ) (r : ScheduleResult)
      → lookup k R ≡ some r
      → r.total_float ≡ r.late_start -ℤ r.early_start
  total_float_of k r found =
      elim (update-establishes (float_visit nx activities graph)
        (λ _ s. s.total_float ≡ s.late_start -ℤ s.early_start) (keys run.after_backward)
        run.after_backward R (λ x S s e. (float_visit-Visit nx activities graph x S s e).total)
        run.floats k r found) [
          | inl total ↦ total
          | inr (old, out) ↦ absurd (out (Member-of_lookup k r run.after_backward old))
        ]

  pub run-IsDated :
      (k : ℕ) (r : ScheduleResult) → lookup k R ≡ some r → IsDated activities run.project_end k r
  run-IsDated k r found =
      let (q, was, same) = dates_entry nx activities graph run k r found in
      let late = backward_late nx laws activities graph is_dict run k q was in
      let (f, was_f, same_f) = forward_of_final nx laws activities graph is_dict run k r found in
      let fe = forward_early nx laws activities graph is_dict run k f was_f in
      let above =
        backward-IsAbove nx laws activities graph is_dict run (early_start_in R)
          (run-IsFeasible nx laws activities graph is_dict run) early_ends k q late.activity was
          late.known in
      let start : early_start_in R k ≡ r.early_start = early_start_in-eq R k found in
      let es : r.early_start ≡ f.early_start = ap (λ (t : Early). t.1) same_f in
      let ef : r.early_finish ≡ f.early_finish = ap (λ (t : Early). t.2) same_f in
      let ls : r.late_start ≡ q.late_start = ap (λ (t : ℕ × ℤ × ℤ × ℤ × ℤ). t.3) same in
      let lf : r.late_finish ≡ q.late_finish = ap (λ (t : ℕ × ℤ × ℤ × ℤ × ℤ). t.4) same in
      record {
        activity = fe.activity;
        known = fe.known;
        lasts_early = rw (ef, es) fe.finish;
        lasts_late = rw (lf, ls, late.start, some_inj (sym fe.known ∙ late.known)) (omega int_laws);
        slack = total_float_of k r found;
        starts = rw es fe.nonneg;
        in_order = rw (ls, late.start, ← start) (omega (int_laws, above));
        ends = rw lf late.within;
      }

  -- Some entry finishes with the project.
  pub run-longest :
      (k : ℕ) × (r : ScheduleResult) × (lookup k R ≡ some r) × (r.early_finish ≡ run.project_end)
  run-longest =
      let unique =
        update-IsDict (forward_visit nx activities graph) run.order (initial activities [])
          run.after_forward run.forward (initial-IsDict activities [] tt) in
      let (k, q, was, reaches) =
        max_finish_attained run.after_forward run.project_end unique run.longest in
      let (r, found, same) = final_of_forward nx laws activities graph is_dict run k q was in
      (k, r, found, ap (λ (t : Early). t.2) (sym same) ∙ reaches)
