-- ===== src/Cpm/Floats.antt =====
-- services/cpm.py, `_calculate_float`: what one visit computes, and when it succeeds.
use defense_pm_tool.Prelude.{
  ℕ, ◌≡◌, refl, some, none, Option, List, [], ◌∷◌, inl, inr, arith, Member, subst,
}
use defense_pm_tool.Prelude.Int.{ℤ, ◌-ℤ◌, ◌≤ℤ◌, min_ℤ_greatest}
use defense_pm_tool.Prelude.Dict.{Dict, lookup}
use defense_pm_tool.Networkx.{Networkx, Edge, EdgeType, fs, ss}
use defense_pm_tool.Cpm.{
  Activity, Results, ScheduleResult, ok, item, nearer, min_successor_es, float_visit,
}
use defense_pm_tool.Cpm.Passes.{>>=-eq-ok, item-eq-ok}

-- A bound from below that an absent number, the float infinity, meets too.
abbrev pub AtLeast : ℤ → Option ℤ → Type 0
AtLeast c none = Unit
AtLeast c (some b) = c ≤ℤ b

nearer-AtLeast :
    (t : EdgeType) (lag : ℤ) (r : ScheduleResult) (m : Option ℤ) (c : ℤ)
    → AtLeast c m
    → (t ≡ fs → c ≤ℤ r.early_start -ℤ lag)
    → AtLeast c (nearer (record { dependency_type = t; lag = lag }) r m)
unfolding nearer
nearer-AtLeast fs lag r none c low asked = asked refl
nearer-AtLeast fs lag r (some b) c low asked = min_ℤ_greatest b _ c low (asked refl)
nearer-AtLeast ss lag r m c low asked = low
nearer-AtLeast _ lag r m c low asked = low

module _ (nx : Networkx) (activities : Dict Activity) (graph : nx.Graph) where
  open nx use {edges, successors}

  -- What every FS successor allows, the least of them allows.
  pub min_successor-AtLeast :
      (x : ℕ) (rest : List ℕ) (m : Option ℤ) (R : Results) (b : Option ℤ) (c : ℤ)
      → min_successor_es nx activities graph x rest m R ≡ ok b
      → AtLeast c m
      → ((s : ℕ) (e : Edge) (r : ScheduleResult)
          → edges graph x s ≡ some e
          → lookup s R ≡ some r
          → e.dependency_type ≡ fs
          → c ≤ℤ r.early_start -ℤ e.lag)
      → AtLeast c b
  unfolding min_successor_es
  min_successor-AtLeast x [] m R b c h low asked =
      let e : m ≡ b = ground arith in subst (AtLeast c) e low
  min_successor-AtLeast x (s ∷ rest) m R b c h low asked =
      let (e, he, h₁) = >>=-eq-ok (item s (edges graph x s)) _ h in
      let (r, hr, h₂) = >>=-eq-ok (item s (lookup s R)) _ h₁ in
      min_successor-AtLeast x rest (nearer e r m) R b c h₂
        (nearer-AtLeast e.dependency_type e.lag r m c low
          (asked s e r (item-eq-ok s _ he) (item-eq-ok s _ hr)))
        asked

  pub min_successor_succeeds :
      (x : ℕ) (rest : List ℕ) (m : Option ℤ) (R : Results)
      → ((s : ℕ)
          → Member s rest
          → (e : Edge) × (r : ScheduleResult) × (edges graph x s ≡ some e) × (lookup s R ≡ some r))
      → (b : Option ℤ) × (min_successor_es nx activities graph x rest m R ≡ ok b)
  unfolding min_successor_es
  min_successor_succeeds x [] m R known = (m, refl)
  min_successor_succeeds x (s ∷ rest) m R known =
      let (e, r, he, hr) = known s (inl refl) in
      let (b, h) = min_successor_succeeds x rest (nearer e r m) R (λ q i. known q (inr i)) in
      (b, rw (he, hr) h)

  pub record Visit (x : ℕ) (R : Results) (r : ScheduleResult) : Type 0 where
    pub old : ScheduleResult
    pub nearest : Option ℤ
    pub was : lookup x R ≡ some old
    pub computed : min_successor_es nx activities graph x (successors graph x) none R ≡ ok nearest
    pub total : r.total_float ≡ r.late_start -ℤ r.early_start
    pub free : r.free_float ≡ elim nearest [ none ↦ r.total_float | some b ↦ b -ℤ r.early_finish ]
    pub same_early :
        (r.activity_id ≡ old.activity_id)
        × (r.early_start ≡ old.early_start)
        × (r.early_finish ≡ old.early_finish)
    pub same_late : (r.late_start ≡ old.late_start) × (r.late_finish ≡ old.late_finish)

  pub float_visit-Visit :
      (x : ℕ) (R : Results) (r : ScheduleResult)
      → float_visit nx activities graph x R ≡ ok r
      → Visit x R r
  unfolding float_visit
  float_visit-Visit x R r h =
      let (old, ho, h₁) = >>=-eq-ok (item x (lookup x R)) _ h in
      let (m, hm, h₂) =
        >>=-eq-ok (min_successor_es nx activities graph x (successors graph x) none R) _ h₁ in
      record {
        old = old;
        nearest = m;
        was = item-eq-ok x _ ho;
        computed = hm;
        total = ground arith;
        free = ground arith;
        same_early = ground arith;
        same_late = ground arith;
      }

  pub float_visit_succeeds :
      (x : ℕ) (R : Results) {old : ScheduleResult}
      → lookup x R ≡ some old
      → ((s : ℕ)
          → Member s (successors graph x)
          → (e : Edge) × (r : ScheduleResult) × (edges graph x s ≡ some e) × (lookup s R ≡ some r))
      → (r : ScheduleResult) × (float_visit nx activities graph x R ≡ ok r)
  unfolding float_visit
  float_visit_succeeds x R {old} ho known =
      let (b, h) = min_successor_succeeds x (successors graph x) none R known in
      (
        record old {
          total_float = old.late_start -ℤ old.early_start;
          free_float = elim b [
            | none ↦ old.late_start -ℤ old.early_start
            | some c ↦ c -ℤ old.early_finish
          ];
        },
        rw (ho, h),
      )
