-- ===== src/Cpm/Late.antt =====
-- services/cpm.py, `_backward_pass`: what one visit computes, and when it succeeds.
use defense_pm_tool.Prelude.{
  ℕ, ◌≡◌, refl, sym, ◌∙◌, some, List, [], ◌∷◌, inl, inr, arith, Member, subst, some_inj,
}
use defense_pm_tool.Prelude.Int.{ℤ, ◌-ℤ◌, ◌≤ℤ◌, min_ℤ, min_ℤ_bounds, min_ℤ_greatest}
use defense_pm_tool.Prelude.Dict.{Dict, lookup}
use defense_pm_tool.Networkx.{Networkx, Laws, Edge}
use defense_pm_tool.Cpm.{
  Activity, Results, ScheduleResult, ok, item, latest, min_lf, backward_visit,
}
use defense_pm_tool.Cpm.Passes.{>>=-eq-ok, item-eq-ok}

module _ (nx : Networkx) (activities : Dict Activity) (graph : nx.Graph) where
  open nx use {edges, successors}

  -- What the loop over the successors of `x` has read of one of them.
  pub record Read (x : ℕ) (duration bound : ℤ) (R : Results) (s : ℕ) : Type 0 where
    pub edge : Edge
    pub result : ScheduleResult
    pub has_edge : edges graph x s ≡ some edge
    pub has_result : lookup s R ≡ some result
    pub bounded :
        bound ≤ℤ latest edge.dependency_type edge.lag result.late_start result.late_finish duration

  min_lf-cons :
      (x : ℕ) (duration : ℤ) (s : ℕ) (rest : List ℕ) (m : ℤ) (R : Results) {b : ℤ}
      → min_lf nx activities graph x duration (s ∷ rest) m R ≡ ok b
      → (e : Edge) × (r : ScheduleResult) × (edges graph x s ≡ some e)
        × (lookup s R ≡ some r)
        × (min_lf nx activities graph x duration rest
              (min_ℤ m (latest e.dependency_type e.lag r.late_start r.late_finish duration))
              R
            ≡ ok b)
  unfolding min_lf
  min_lf-cons x duration s rest m R h =
      let (e, he, h₁) = >>=-eq-ok (item s (edges graph x s)) _ h in
      let (r, hr, h₂) = >>=-eq-ok (item s (lookup s R)) _ h₁ in
      (e, r, item-eq-ok s _ he, item-eq-ok s _ hr, h₂)

  -- The loop's result is bounded by where it began, and by what each successor leaves.
  pub min_lf_bounds :
      (x : ℕ) (duration : ℤ) (rest : List ℕ) (m : ℤ) (R : Results) (b : ℤ)
      → min_lf nx activities graph x duration rest m R ≡ ok b
      → (b ≤ℤ m) × ((s : ℕ) → Member s rest → Read x duration b R s)
  unfolding min_lf
  min_lf_bounds x duration [] m R b h = (ground arith, λ s i. elim i [ ])
  min_lf_bounds x duration (s ∷ rest) m R b h =
      let (e, r, he, hr, h') = min_lf-cons x duration s rest m R h in
      let c = latest e.dependency_type e.lag r.late_start r.late_finish duration in
      let (high, reads) = min_lf_bounds x duration rest (min_ℤ m c) R b h' in
      let (left, right) = min_ℤ_bounds m c in
      (
        omega arith,
        λ q i. elim i [
          | inl here ↦ subst (Read x duration b R) here (record {
            edge = e;
            result = r;
            has_edge = he;
            has_result = hr;
            bounded = omega arith;
          })
          | inr later ↦ reads q later
        ],
      )

  -- It is the greatest such bound.
  pub min_lf_greatest :
      (x : ℕ) (duration : ℤ) (rest : List ℕ) (m : ℤ) (R : Results) (b c : ℤ)
      → min_lf nx activities graph x duration rest m R ≡ ok b
      → c ≤ℤ m
      → ((s : ℕ) (e : Edge) (r : ScheduleResult)
          → edges graph x s ≡ some e
          → lookup s R ≡ some r
          → c ≤ℤ latest e.dependency_type e.lag r.late_start r.late_finish duration)
      → c ≤ℤ b
  unfolding min_lf
  min_lf_greatest x duration [] m R b c h high all = ground arith
  min_lf_greatest x duration (s ∷ rest) m R b c h high all =
      let (e, r, he, hr, h') = min_lf-cons x duration s rest m R h in
      min_lf_greatest x duration rest _ R b c h' (min_ℤ_greatest m _ c high (all s e r he hr)) all

  pub min_lf_succeeds :
      (x : ℕ) (duration : ℤ) (rest : List ℕ) (m : ℤ) (R : Results)
      → ((s : ℕ)
          → Member s rest
          → (e : Edge) × (r : ScheduleResult) × (edges graph x s ≡ some e) × (lookup s R ≡ some r))
      → (b : ℤ) × (min_lf nx activities graph x duration rest m R ≡ ok b)
  unfolding min_lf
  min_lf_succeeds x duration [] m R known = (m, refl)
  min_lf_succeeds x duration (s ∷ rest) m R known =
      let (e, r, he, hr) = known s (inl refl) in
      let (b, h) =
        min_lf_succeeds x duration rest
          (min_ℤ m (latest e.dependency_type e.lag r.late_start r.late_finish duration)) R
          (λ q i. known q (inr i)) in
      (b, rw (he, hr) h)

  -- A successful visit of `x`, which began at the entry `old`.
  pub record Visit (x : ℕ) (R : Results) (r : ScheduleResult) : Type 0 where
    pub activity : Activity
    pub old : ScheduleResult
    pub known : lookup x activities ≡ some activity
    pub was : lookup x R ≡ some old
    pub computed :
        min_lf nx activities graph x activity.duration (successors graph x) old.late_finish R
        ≡ ok r.late_finish
    pub start : r.late_start ≡ r.late_finish -ℤ activity.duration
    pub same :
        (r.activity_id ≡ old.activity_id)
        × (r.early_start ≡ old.early_start)
        × (r.early_finish ≡ old.early_finish)

  pub backward_visit-Visit :
      (x : ℕ) (R : Results) (r : ScheduleResult)
      → backward_visit nx activities graph x R ≡ ok r
      → Visit x R r
  unfolding backward_visit
  backward_visit-Visit x R r h =
      let (a, ha, h₁) = >>=-eq-ok (item x (lookup x activities)) _ h in
      let (old, ho, h₂) = >>=-eq-ok (item x (lookup x R)) _ h₁ in
      let (m, hm, h₃) =
        >>=-eq-ok (min_lf nx activities graph x a.duration (successors graph x) old.late_finish R) _
          h₂ in
      record {
        activity = a;
        old = old;
        known = item-eq-ok x _ ha;
        was = item-eq-ok x _ ho;
        computed = ground arith;
        start = ground arith;
        same = ground arith;
      }

  pub backward_visit_succeeds :
      (x : ℕ) (R : Results) {a : Activity} {old : ScheduleResult}
      → lookup x activities ≡ some a
      → lookup x R ≡ some old
      → ((s : ℕ)
          → Member s (successors graph x)
          → (e : Edge) × (r : ScheduleResult) × (edges graph x s ≡ some e) × (lookup s R ≡ some r))
      → (r : ScheduleResult) × (backward_visit nx activities graph x R ≡ ok r)
  unfolding backward_visit
  backward_visit_succeeds x R {a} {old} ha ho known =
      let (b, h) = min_lf_succeeds x a.duration (successors graph x) old.late_finish R known in
      (record old { late_finish = b; late_start = b -ℤ a.duration }, rw (ha, ho, h))

  -- A visit of `x` leaves each successor's entry the time that it asks for.
  pub visit_leaves :
      (laws : Laws nx) (x s : ℕ) (R : Results) (r : ScheduleResult) (e : Edge) (a : Activity)
      → backward_visit nx activities graph x R ≡ ok r
      → edges graph x s ≡ some e
      → lookup x activities ≡ some a
      → (q : ScheduleResult) × (lookup s R ≡ some q)
        × (r.late_finish ≤ℤ latest e.dependency_type e.lag q.late_start q.late_finish a.duration)
  visit_leaves laws x s R r e a h edge known =
      let vis = backward_visit-Visit x R r h in
      let read =
        (min_lf_bounds x vis.activity.duration (successors graph x) vis.old.late_finish R
            r.late_finish vis.computed).1
          s (laws.successors_of_edge graph x s e edge) in
      (
        read.result,
        read.has_result,
        subst
            (λ (b : Activity).
              r.late_finish
              ≤ℤ latest e.dependency_type e.lag read.result.late_start read.result.late_finish
                  b.duration)
            (some_inj (sym vis.known ∙ known))
            (subst
              (λ (g : Edge).
                r.late_finish
                ≤ℤ latest g.dependency_type g.lag read.result.late_start read.result.late_finish
                    vis.activity.duration)
              (some_inj (sym read.has_edge ∙ edge)) read.bounded),
      )
