-- ===== src/Cpm/Schedule.antt =====
-- services/cpm.py, `calculate`: the dates of a successful run against the specification.
use defense_pm_tool.Prelude.{
  ℕ, ◌≡◌, sym, ◌∙◌, ap, none, some, [], inl, inr, arith, some_inj, Option-cases,
}
use defense_pm_tool.Prelude.Int.{ℤ, pos, ◌+ℤ◌}
use defense_pm_tool.Prelude.Dict.{Dict, lookup}
use defense_pm_tool.Networkx.{Networkx, Laws}
use defense_pm_tool.Cpm.{Activity, Results, ScheduleResult}
use defense_pm_tool.Cpm.Initial.{IsDict}
use defense_pm_tool.Cpm.Feasible.{IsFeasible}
use defense_pm_tool.Cpm.Forward.{visited_met}
use defense_pm_tool.Cpm.Run.{Run}
use defense_pm_tool.Cpm.Dates.{
  Early, early, early_entry, early_exit, dates_entry, dates_exit, forward_early,
}

-- The start that the results give an activity, with day 0 where they have no entry.
unfoldable pub early_start_in : Results → ℕ → ℤ
early_start_in R k = elim (lookup k R) [ none ↦ pos 0 | some r ↦ r.early_start ]

unfoldable pub late_start_in : Results → ℕ → ℤ
late_start_in R k = elim (lookup k R) [ none ↦ pos 0 | some r ↦ r.late_start ]

pub early_start_in-eq :
    (R : Results) (k : ℕ) {r : ScheduleResult}
    → lookup k R ≡ some r
    → early_start_in R k ≡ r.early_start
unfolding early_start_in
early_start_in-eq R k h = ground arith

pub late_start_in-eq :
    (R : Results) (k : ℕ) {r : ScheduleResult}
    → lookup k R ≡ some r
    → late_start_in R k ≡ r.late_start
unfolding late_start_in
late_start_in-eq R k h = ground arith

module _ (nx : Networkx) (laws : Laws nx) (activities : Dict Activity) (graph : nx.Graph)
    (is_dict : IsDict activities) {R : Results} (run : Run nx activities graph [] R) where
  open nx use {edges}

  pub final_of_forward :
      (k : ℕ) (q : ScheduleResult)
      → lookup k run.after_forward ≡ some q
      → (r : ScheduleResult) × (lookup k R ≡ some r) × (early q ≡ early r)
  final_of_forward k q found =
      let (b, found_b, same_b) = early_exit nx activities graph run k q found in
      let (r, found_r, same_r) = dates_exit nx activities graph run k b found_b in
      (r, found_r, same_b ∙ ap (λ (t : ℕ × ℤ × ℤ × ℤ × ℤ). (t.0, t.1, t.2)) same_r)

  pub forward_of_final :
      (k : ℕ) (r : ScheduleResult)
      → lookup k R ≡ some r
      → (q : ScheduleResult) × (lookup k run.after_forward ≡ some q) × (early r ≡ early q)
  forward_of_final k r found =
      let (b, found_b, same_b) = dates_entry nx activities graph run k r found in
      let (q, found_q, same_q) = early_entry nx activities graph run k b found_b in
      (q, found_q, ap (λ (t : ℕ × ℤ × ℤ × ℤ × ℤ). (t.0, t.1, t.2)) same_b ∙ same_q)

  pub run-IsFeasible : IsFeasible nx activities graph (early_start_in R)
  unfolding early_start_in
  run-IsFeasible = record {
    nonneg = λ k a known. elim (Option-cases (lookup k R)) [
      | inl absent ↦ rw (absent, early_start_in) (omega arith)
      | inr (r, found) ↦
          let (q, was, same) = forward_of_final k r found in
          rw (early_start_in-eq R k found, ap (λ (t : Early). t.1) same)
            ((forward_early nx laws activities graph is_dict run k q was).nonneg)
    ];
    meets = λ p v e a b edge known_p known_v.
        let (rp, rv, was_p, was_v, met) =
          visited_met nx laws activities graph run.order _ run.after_forward p v e b
            (laws.order_topological graph run.order run.sorted) run.forward
            (laws.order_covers graph run.order p v e run.sorted edge).1 edge known_v in
        let (fp, found_p, same_p) = final_of_forward p rp was_p in
        let (fv, found_v, same_v) = final_of_forward v rv was_v in
        let entry = forward_early nx laws activities graph is_dict run p rp was_p in
        let finish : rp.early_finish ≡ rp.early_start +ℤ a.duration =
          entry.finish
          ∙ ap (λ (c : Activity). rp.early_start +ℤ c.duration)
              (some_inj (sym entry.known ∙ known_p)) in
        rw
          (
            early_start_in-eq R p found_p,
            early_start_in-eq R v found_v,
            ← ap (λ (t : Early). t.1) same_p,
            ← ap (λ (t : Early). t.1) same_v,
          )
          (rw finish at met);
  }
