-- ===== src/Cpm/Calculate.antt =====
-- services/cpm.py, `CPMEngine.calculate` on a new engine: what its results mean.
use defense_pm_tool.Prelude.{ℕ, ◌≡◌, sym, ◌∙◌, ap, some, [], arith, some_inj, All, reverse}
use defense_pm_tool.Prelude.Int.{ℤ, pos, ◌+ℤ◌, ◌-ℤ◌, ◌≤ℤ◌, eq_of_parts, int_laws}
use defense_pm_tool.Prelude.Dict.{Dict, lookup, keys, values}
use defense_pm_tool.Networkx.{Networkx, Laws, Edge}
use defense_pm_tool.Cpm.{
  Activity, Results, ScheduleResult, ok, earliest, latest, initial, late_initial, forward_visit,
  backward_visit, float_visit, calculate,
}
use defense_pm_tool.Cpm.Initial.{IsDict}
use defense_pm_tool.Cpm.Feasible.{IsFeasible, earliest-latest_iff}
use defense_pm_tool.Cpm.Forward.{IsBelow, initial_start, initial-AllEarly, forward-IsBelow}
use defense_pm_tool.Cpm.Finish.{max_finish_bounds, initial-IsDict, update-IsDict, All-values}
use defense_pm_tool.Cpm.Backward.{visited_left}
use defense_pm_tool.Cpm.Run.{Run, calculate-Run}
use defense_pm_tool.Cpm.Dates.{Early, dates_entry, dates_exit, backward-IsAbove}
use defense_pm_tool.Cpm.Schedule.{
  early_start_in, late_start_in, late_start_in-eq, run-IsFeasible, forward_of_final,
}
use defense_pm_tool.Cpm.Slack.{run-IsDated, run-longest}

module _ (nx : Networkx) (laws : Laws nx) (activities : Dict Activity) (graph : nx.Graph)
    (is_dict : IsDict activities) {R : Results}
    (done : calculate nx activities graph [] ≡ (ok tt, R)) where
  open nx use {edges}

  run : Run nx activities graph [] R
  run = calculate-Run nx activities graph [] R done

  pub results-IsDict : IsDict R
  results-IsDict =
      update-IsDict (float_visit nx activities graph) (keys run.after_backward) run.after_backward R
        run.floats
        (update-IsDict (backward_visit nx activities graph) (reverse run.order) run.after_initial
          run.after_backward run.backward
          (update-IsDict (late_initial nx activities graph run.project_end) (keys run.after_forward)
            run.after_forward run.after_initial run.setup
            (update-IsDict (forward_visit nx activities graph) run.order (initial activities [])
              run.after_forward run.forward (initial-IsDict activities [] tt))))

  -- If `calculate` of a new engine returns, over activities without duplicate keys and a
  -- package that keeps its laws, the early starts that it leaves are a feasible schedule: none
  -- is negative, and every edge of the graph between two activities is met, whatever its type
  -- and lag.
  pub calculate-IsFeasible : IsFeasible nx activities graph (early_start_in R)
  calculate-IsFeasible = run-IsFeasible nx laws activities graph is_dict run

  -- If `calculate` of a new engine returns, over activities without duplicate keys and a
  -- package that keeps its laws, the early starts are the earliest: no feasible schedule starts
  -- any activity sooner.
  pub calculate_earliest :
      (s : ℕ → ℤ) (k : ℕ) (r : ScheduleResult)
      → IsFeasible nx activities graph s
      → lookup k R ≡ some r
      → r.early_start ≤ℤ s k
  calculate_earliest s k r feasible found =
      let (q, was, same) = forward_of_final nx laws activities graph is_dict run k r found in
      let start : IsBelow nx laws activities graph s (initial activities []) = λ j t here.
        let e = initial-AllEarly activities is_dict j t here in
        (
          e,
          rw (initial_start activities is_dict j t here) (feasible.nonneg j e.activity e.known),
        ) in
      let below =
        forward-IsBelow nx laws activities graph s run.order (initial activities [])
          run.after_forward feasible run.forward start k q was in
      rw (ap (λ (t : Early). t.1) same) below.1

  -- If `calculate` of a new engine returns, over activities without duplicate keys and a
  -- package that keeps its laws, the late starts, too, meet every edge between two activities.
  pub calculate_late_meets :
      (p v : ℕ) (e : Edge) (a b : Activity)
      → edges graph p v ≡ some e
      → lookup p activities ≡ some a
      → lookup v activities ≡ some b
      → earliest e.dependency_type e.lag
          (late_start_in R p)
          (late_start_in R p +ℤ a.duration)
          b.duration
        ≤ℤ late_start_in R v
  calculate_late_meets p v e a b edge known_p known_v =
      let (qp, qv, was_p, was_v, left) =
        visited_left nx laws activities graph run.project_end run.order run.after_initial
          run.after_backward p v e a (laws.order_topological graph run.order run.sorted)
          run.backward (laws.order_covers graph run.order p v e run.sorted edge).0 edge known_p in
      let (rp, found_p, same_p) = dates_exit nx activities graph run p qp was_p in
      let (rv, found_v, same_v) = dates_exit nx activities graph run v qv was_v in
      let dp = run-IsDated nx laws activities graph is_dict run p rp found_p in
      let dv = run-IsDated nx laws activities graph is_dict run v rv found_v in
      let left' : rp.late_finish
          ≤ℤ latest e.dependency_type e.lag rv.late_start rv.late_finish a.duration =
        rw
          (
            ap (λ (t : ℕ × ℤ × ℤ × ℤ × ℤ). t.4) same_p,
            ap (λ (t : ℕ × ℤ × ℤ × ℤ × ℤ). t.3) same_v,
            ap (λ (t : ℕ × ℤ × ℤ × ℤ × ℤ). t.4) same_v,
          )
          at left in
      let ends_p : rp.late_finish ≡ rp.late_start +ℤ a.duration =
        rw (some_inj (sym dp.known ∙ known_p)) at dp.lasts_late in
      let ends_v : rv.late_finish ≡ rv.late_start +ℤ b.duration =
        rw (some_inj (sym dv.known ∙ known_v)) at dv.lasts_late in
      rw (late_start_in-eq R p found_p, late_start_in-eq R v found_v)
        ((earliest-latest_iff e.dependency_type e.lag rp.late_start rv.late_start a.duration
            b.duration).1
          (rw (← ends_p, ← ends_v) left'))

  -- If `calculate` of a new engine returns, over activities without duplicate keys and a
  -- package that keeps its laws, every entry belongs to an activity, its early dates lie that
  -- activity's duration apart and so do its late dates, the float is the distance between the
  -- two starts, and neither the early start nor the float is negative.
  pub calculate_dates :
      (k : ℕ) (r : ScheduleResult)
      → lookup k R ≡ some r
      → (a : Activity) × (lookup k activities ≡ some a)
        × (r.early_finish ≡ r.early_start +ℤ a.duration)
        × (r.late_finish ≡ r.late_start +ℤ a.duration)
        × (r.total_float ≡ r.late_start -ℤ r.early_start)
        × (pos 0 ≤ℤ r.early_start)
        × (pos 0 ≤ℤ r.total_float)
  calculate_dates k r found =
      let d = run-IsDated nx laws activities graph is_dict run k r found in
      (
        d.activity,
        d.known,
        d.lasts_early,
        d.lasts_late,
        d.slack,
        d.starts,
        rw d.slack (omega (int_laws, d.in_order)),
      )

  -- If `calculate` of a new engine returns, over activities without duplicate keys and a
  -- package that keeps its laws, there is a critical entry, without float, whose early finish
  -- no entry's late finish exceeds.
  pub calculate_critical :
      (k : ℕ) × (r : ScheduleResult) × (lookup k R ≡ some r)
      × (r.total_float ≡ pos 0)
      × All (λ q. q.late_finish ≤ℤ r.early_finish) (values R)
  calculate_critical =
      let (k, r, found, reaches) = run-longest nx laws activities graph is_dict run in
      let d = run-IsDated nx laws activities graph is_dict run k r found in
      let late_end : r.late_finish ≤ℤ r.early_finish = rw reaches d.ends in
      let late_start : r.late_start ≤ℤ r.early_start =
        omega (int_laws, rw (d.lasts_late, d.lasts_early) at late_end) in
      (
        k,
        r,
        found,
        d.slack
            ∙ eq_of_parts (r.late_start -ℤ r.early_start) (pos 0)
                (omega (int_laws, late_start, d.in_order)),
        All-values (λ q. q.late_finish ≤ℤ r.early_finish) R results-IsDict
            (λ j q there.
              rw reaches ((run-IsDated nx laws activities graph is_dict run j q there).ends)),
      )

  -- If `calculate` of a new engine returns, over activities without duplicate keys and a
  -- package that keeps its laws, the late starts are the latest: a feasible schedule in which
  -- every activity is over by the early finish of some entry, `last`, starts no activity later.
  pub calculate_latest :
      (s : ℕ → ℤ) (j : ℕ) (last : ScheduleResult) (k : ℕ) (r : ScheduleResult)
      → IsFeasible nx activities graph s
      → lookup j R ≡ some last
      → ((i : ℕ) (a : Activity)
          → lookup i activities ≡ some a
          → s i +ℤ a.duration ≤ℤ last.early_finish)
      → lookup k R ≡ some r
      → s k ≤ℤ r.late_start
  calculate_latest s j last k r feasible found_j over found =
      let d = run-IsDated nx laws activities graph is_dict run k r found in
      let (q, was, same) = dates_entry nx activities graph run k r found in
      let (f, was_f, same_f) =
        forward_of_final nx laws activities graph is_dict run j last found_j in
      let high = max_finish_bounds run.after_forward run.project_end j f run.longest was_f in
      let end : last.early_finish ≤ℤ run.project_end = rw (ap (λ (t : Early). t.2) same_f) high in
      let above =
        backward-IsAbove nx laws activities graph is_dict run s feasible
          (λ i a known. let due = over i a known in omega arith) k q d.activity was d.known in
      let above' : s k +ℤ d.activity.duration ≤ℤ r.late_start +ℤ d.activity.duration =
        rw (← d.lasts_late, ap (λ (t : ℕ × ℤ × ℤ × ℤ × ℤ). t.4) same) above in
      omega (int_laws, above')
