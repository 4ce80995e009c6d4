-- ===== src/Cpm/Dates.antt =====
-- services/cpm.py, `calculate`: how the dates of the final results stand to those that each pass
-- computed. A later pass keeps the early dates, and the float loop keeps the late dates too.
use defense_pm_tool.Prelude.{ℕ, ◌≡◌, sym, ◌∙◌, ap, subst, some, [], inl, inr, arith}
use defense_pm_tool.Prelude.Int.{ℤ, ◌+ℤ◌, ◌-ℤ◌, ◌≤ℤ◌}
use defense_pm_tool.Prelude.Dict.{Dict, lookup, keys, Member-of_lookup}
use defense_pm_tool.Networkx.{Networkx, Laws}
use defense_pm_tool.Cpm.{
  Activity, Results, ScheduleResult, ok, item, late_initial, backward_visit, float_visit,
}
use defense_pm_tool.Cpm.Passes.{
  >>=-eq-ok, item-eq-ok, view_at, view_at-some, update-view, update-establishes,
}
use defense_pm_tool.Cpm.Initial.{IsDict}
use defense_pm_tool.Cpm.Feasible.{IsFeasible}
use defense_pm_tool.Cpm.Forward.{AllEarly, initial-AllEarly, forward-AllEarly}
use defense_pm_tool.Cpm.Late.{backward_visit-Visit}
use defense_pm_tool.Cpm.Floats.{float_visit-Visit}
use defense_pm_tool.Cpm.Backward.{AllLate, IsAbove, backward-AllLate, update-IsAbove}
use defense_pm_tool.Cpm.Run.{Run}

abbrev pub Early : Type 0
Early = ℕ × ℤ × ℤ

abbrev pub early : ScheduleResult → Early
early r = (r.activity_id, r.early_start, r.early_finish)

abbrev pub dates : ScheduleResult → ℕ × ℤ × ℤ × ℤ × ℤ
dates r = (r.activity_id, r.early_start, r.early_finish, r.late_start, r.late_finish)

module _ (nx : Networkx) (activities : Dict Activity) (graph : nx.Graph) where
  late_initial-eq :
      (project_end : ℤ) (k : ℕ) (R : Results) (r : ScheduleResult)
      → late_initial nx activities graph project_end k R ≡ ok r
      → (old : ScheduleResult) × (a : Activity) × (lookup k R ≡ some old)
        × (lookup old.activity_id activities ≡ some a)
        × (r ≡ record old { late_finish = project_end; late_start = project_end -ℤ a.duration })
  unfolding late_initial
  late_initial-eq project_end k R r h =
      let (old, ho, h₁) = >>=-eq-ok (item k (lookup k R)) _ h in
      let (a, ha, h₂) = >>=-eq-ok (item old.activity_id (lookup old.activity_id activities)) _ h₁ in
      (old, a, item-eq-ok k _ ho, item-eq-ok old.activity_id _ ha, cc)

  module _ {R : Results} (run : Run nx activities graph [] R) where
    initial-early : (k : ℕ) → view_at early run.after_initial k ≡ view_at early run.after_forward k
    initial-early =
        update-view (late_initial nx activities graph run.project_end) early
          (keys run.after_forward) run.after_forward run.after_initial
          (λ x S r e.
            let (old, a, was, _, same) = late_initial-eq run.project_end x S r e in
            (old, was, ap early same))
          run.setup

    backward-early :
        (k : ℕ) → view_at early run.after_backward k ≡ view_at early run.after_initial k
    backward-early =
        update-view (backward_visit nx activities graph) early _ run.after_initial
          run.after_backward
          (λ x S r e.
            let v = backward_visit-Visit nx activities graph x S r e in
            (v.old, v.was, ground (arith, v.same)))
          run.backward

    -- The float loop keeps all four dates.
    pub floats-dates : (k : ℕ) → view_at dates R k ≡ view_at dates run.after_backward k
    floats-dates =
        update-view (float_visit nx activities graph) dates (keys run.after_backward)
          run.after_backward R
          (λ x S r e.
            let v = float_visit-Visit nx activities graph x S r e in
            (v.old, v.was, ground (arith, v.same_early, v.same_late)))
          run.floats

    pub after_backward-early :
        (k : ℕ) → view_at early run.after_backward k ≡ view_at early run.after_forward k
    after_backward-early k = backward-early k ∙ initial-early k

    -- Every entry of the results, with the entry that the forward pass left.
    pub early_entry :
        (k : ℕ) (r : ScheduleResult)
        → lookup k run.after_backward ≡ some r
        → (q : ScheduleResult) × (lookup k run.after_forward ≡ some q) × (early r ≡ early q)
    early_entry k r =
        view_at-some early run.after_forward run.after_backward k r (after_backward-early k)

    pub dates_entry :
        (k : ℕ) (r : ScheduleResult)
        → lookup k R ≡ some r
        → (q : ScheduleResult) × (lookup k run.after_backward ≡ some q) × (dates r ≡ dates q)
    dates_entry k r = view_at-some dates run.after_backward R k r (floats-dates k)

    pub dates_exit :
        (k : ℕ) (q : ScheduleResult)
        → lookup k run.after_backward ≡ some q
        → (r : ScheduleResult) × (lookup k R ≡ some r) × (dates q ≡ dates r)
    dates_exit k q = view_at-some dates R run.after_backward k q (sym (floats-dates k))

    pub early_exit :
        (k : ℕ) (q : ScheduleResult)
        → lookup k run.after_forward ≡ some q
        → (r : ScheduleResult) × (lookup k run.after_backward ≡ some r) × (early q ≡ early r)
    early_exit k q =
        view_at-some early run.after_backward run.after_forward k q (sym (after_backward-early k))

module _ (nx : Networkx) (laws : Laws nx) (activities : Dict Activity) (graph : nx.Graph)
    (is_dict : IsDict activities) {R : Results} (run : Run nx activities graph [] R) where
  pub forward_early : AllEarly activities run.after_forward
  forward_early =
      forward-AllEarly nx laws activities graph run.order _ run.after_forward run.forward
        (initial-AllEarly activities is_dict)

  -- After the first loop of the backward pass every entry ends with the project.
  initial_late :
      (k : ℕ) (r : ScheduleResult)
      → lookup k run.after_initial ≡ some r
      → (a : Activity) × (lookup k activities ≡ some a)
        × (r.late_finish ≡ run.project_end)
        × (r.late_start ≡ run.project_end -ℤ a.duration)
  initial_late k r found =
      let (q, was, same) =
        view_at-some early run.after_forward run.after_initial k r
          (initial-early nx activities graph run k) found in
      let named : r.activity_id ≡ k =
        ap (λ (t : Early). t.0) same ∙ (forward_early k q was).named in
      elim (update-establishes (late_initial nx activities graph run.project_end)
        (λ j s.
          (a : Activity) × (lookup s.activity_id activities ≡ some a)
          × (s.late_finish ≡ run.project_end)
          × (s.late_start ≡ run.project_end -ℤ a.duration))
        (keys run.after_forward) run.after_forward run.after_initial
        (λ x S s e.
          let (old, a, _, known, eq) =
            late_initial-eq nx activities graph run.project_end x S s e in
          (a, rw eq known, rw eq, rw eq))
        run.setup k r found) [
          | inl (a, known, finish, start) ↦
              (a, subst (λ n. lookup n activities ≡ some a) named known, finish, start)
          | inr (old, out) ↦ absurd (out (Member-of_lookup k r run.after_forward old))
        ]

  initial-AllLate : AllLate activities run.project_end run.after_initial
  initial-AllLate k r found =
      let (a, known, finish, start) = initial_late k r found in
      record {
        activity = a;
        known = known;
        start = start ∙ ap (λ f. f -ℤ a.duration) (sym finish);
        within = rw finish (omega arith);
      }

  pub backward_late : AllLate activities run.project_end run.after_backward
  backward_late =
      backward-AllLate nx laws activities graph run.project_end _ run.after_initial
        run.after_backward run.backward initial-AllLate

  -- A schedule that ends with the project finishes nothing later than the backward pass does.
  pub backward-IsAbove :
      (s : ℕ → ℤ)
      → IsFeasible nx activities graph s
      → ((k : ℕ) (a : Activity)
          → lookup k activities ≡ some a
          → s k +ℤ a.duration ≤ℤ run.project_end)
      → IsAbove activities run.project_end s run.after_backward
  backward-IsAbove s feasible ends =
      update-IsAbove nx laws activities graph run.project_end s _ run.after_initial
        run.after_backward feasible run.backward initial-AllLate
        (λ k r a found known.
          let (_, _, finish, _) = initial_late k r found in rw finish (ends k a known))
