-- ===== src/Cpm/Early.antt =====
-- services/cpm.py, `_forward_pass`: what one visit computes, and when it succeeds.
use defense_pm_tool.Prelude.{ℕ, ◌≡◌, refl, some, List, [], ◌∷◌, inl, inr, arith, Member, subst}
use defense_pm_tool.Prelude.Int.{ℤ, pos, ◌+ℤ◌, ◌≤ℤ◌, max_ℤ, max_ℤ_bounds, max_ℤ_least}
use defense_pm_tool.Prelude.Dict.{Dict, lookup}
use defense_pm_tool.Networkx.{Networkx, Edge}
use defense_pm_tool.Cpm.{
  Activity, Results, ScheduleResult, ok, item, earliest, max_es, forward_visit,
}
use defense_pm_tool.Cpm.Passes.{>>=-eq-ok, item-eq-ok}

module _ (nx : Networkx) (activities : Dict Activity) (graph : nx.Graph) where
  open nx use {edges, predecessors}

  -- What the loop over the predecessors `ps` of `x` has read of one of them.
  pub record Read (x : ℕ) (duration bound : ℤ) (R : Results) (p : ℕ) : Type 0 where
    pub edge : Edge
    pub result : ScheduleResult
    pub has_edge : edges graph p x ≡ some edge
    pub has_result : lookup p R ≡ some result
    pub bounded :
        earliest edge.dependency_type edge.lag result.early_start result.early_finish duration
        ≤ℤ bound

  Read-mono :
      {x : ℕ} {duration bound bound' : ℤ} {R : Results} {p : ℕ}
      → bound ≤ℤ bound'
      → Read x duration bound R p
      → Read x duration bound' R p
  Read-mono h r = record {
    edge = r.edge;
    result = r.result;
    has_edge = r.has_edge;
    has_result = r.has_result;
    bounded = omega (arith, r.bounded);
  }

  max_es-cons :
      (x : ℕ) (duration : ℤ) (p : ℕ) (ps : List ℕ) (m : ℤ) (R : Results) {b : ℤ}
      → max_es nx activities graph x duration (p ∷ ps) m R ≡ ok b
      → (e : Edge) × (r : ScheduleResult) × (edges graph p x ≡ some e)
        × (lookup p R ≡ some r)
        × (max_es nx activities graph x duration ps
              (max_ℤ m (earliest e.dependency_type e.lag r.early_start r.early_finish duration))
              R
            ≡ ok b)
  unfolding max_es
  max_es-cons x duration p ps m R h =
      let (e, he, h₁) = >>=-eq-ok (item p (edges graph p x)) _ h in
      let (r, hr, h₂) = >>=-eq-ok (item p (lookup p R)) _ h₁ in
      (e, r, item-eq-ok p _ he, item-eq-ok p _ hr, h₂)

  -- The loop's result bounds where it began, and what each predecessor asks.
  pub max_es_bounds :
      (x : ℕ) (duration : ℤ) (ps : List ℕ) (m : ℤ) (R : Results) (b : ℤ)
      → max_es nx activities graph x duration ps m R ≡ ok b
      → (m ≤ℤ b) × ((p : ℕ) → Member p ps → Read x duration b R p)
  unfolding max_es
  max_es_bounds x duration [] m R b h = (ground arith, λ p i. elim i [ ])
  max_es_bounds x duration (p ∷ ps) m R b h =
      let (e, r, he, hr, h') = max_es-cons x duration p ps m R h in
      let c = earliest e.dependency_type e.lag r.early_start r.early_finish duration in
      let (low, reads) = max_es_bounds x duration ps (max_ℤ m c) R b h' in
      let (left, right) = max_ℤ_bounds m c in
      (
        omega arith,
        λ q i. elim i [
          | inl here ↦ subst (Read x duration b R) here (record {
            edge = e;
            result = r;
            has_edge = he;
            has_result = hr;
            bounded = omega arith;
          })
          | inr later ↦ reads q later
        ],
      )

  -- It is the least such bound.
  pub max_es_least :
      (x : ℕ) (duration : ℤ) (ps : List ℕ) (m : ℤ) (R : Results) (b c : ℤ)
      → max_es nx activities graph x duration ps m R ≡ ok b
      → m ≤ℤ c
      → ((p : ℕ) (e : Edge) (r : ScheduleResult)
          → edges graph p x ≡ some e
          → lookup p R ≡ some r
          → earliest e.dependency_type e.lag r.early_start r.early_finish duration ≤ℤ c)
      → b ≤ℤ c
  unfolding max_es
  max_es_least x duration [] m R b c h low all = ground arith
  max_es_least x duration (p ∷ ps) m R b c h low all =
      let (e, r, he, hr, h') = max_es-cons x duration p ps m R h in
      max_es_least x duration ps _ R b c h' (max_ℤ_least m _ c low (all p e r he hr)) all

  pub max_es_succeeds :
      (x : ℕ) (duration : ℤ) (ps : List ℕ) (m : ℤ) (R : Results)
      → ((p : ℕ)
          → Member p ps
          → (e : Edge) × (r : ScheduleResult) × (edges graph p x ≡ some e) × (lookup p R ≡ some r))
      → (b : ℤ) × (max_es nx activities graph x duration ps m R ≡ ok b)
  unfolding max_es
  max_es_succeeds x duration [] m R known = (m, refl)
  max_es_succeeds x duration (p ∷ ps) m R known =
      let (e, r, he, hr) = known p (inl refl) in
      let (b, h) =
        max_es_succeeds x duration ps
          (max_ℤ m (earliest e.dependency_type e.lag r.early_start r.early_finish duration)) R
          (λ q i. known q (inr i)) in
      (b, rw (he, hr) h)

  -- A successful visit of `x`.
  pub record Visit (x : ℕ) (R : Results) (r : ScheduleResult) : Type 0 where
    pub activity : Activity
    pub bound : ℤ
    pub known : lookup x activities ≡ some activity
    pub computed :
        max_es nx activities graph x activity.duration (predecessors graph x) (pos 0) R ≡ ok bound
    pub start : r.early_start ≡ max_ℤ (pos 0) bound
    pub named : (old : ScheduleResult) × (lookup x R ≡ some old) × (r.activity_id ≡ old.activity_id)
    pub finish : r.early_finish ≡ r.early_start +ℤ activity.duration

  pub forward_visit-Visit :
      (x : ℕ) (R : Results) (r : ScheduleResult)
      → forward_visit nx activities graph x R ≡ ok r
      → Visit x R r
  unfolding forward_visit
  forward_visit-Visit x R r h =
      let (a, ha, h₁) = >>=-eq-ok (item x (lookup x activities)) _ h in
      let (m, hm, h₂) =
        >>=-eq-ok (max_es nx activities graph x a.duration (predecessors graph x) (pos 0) R) _ h₁ in
      let (old, ho, h₃) = >>=-eq-ok (item x (lookup x R)) _ h₂ in
      record {
        activity = a;
        bound = m;
        known = item-eq-ok x _ ha;
        computed = hm;
        start = ground arith;
        named = (old, item-eq-ok x _ ho, ground arith);
        finish = ground arith;
      }

  pub forward_visit_succeeds :
      (x : ℕ) (R : Results) {a : Activity} {old : ScheduleResult}
      → lookup x activities ≡ some a
      → lookup x R ≡ some old
      → ((p : ℕ)
          → Member p (predecessors graph x)
          → (e : Edge) × (r : ScheduleResult) × (edges graph p x ≡ some e) × (lookup p R ≡ some r))
      → (r : ScheduleResult) × (forward_visit nx activities graph x R ≡ ok r)
  unfolding forward_visit
  forward_visit_succeeds x R {a} {old} ha ho known =
      let (b, h) = max_es_succeeds x a.duration (predecessors graph x) (pos 0) R known in
      (
        record old { early_start = max_ℤ (pos 0) b; early_finish = max_ℤ (pos 0) b +ℤ a.duration },
        rw (ha, h, ho),
      )
