-- ===== src/Cpm/Forward.antt =====
-- services/cpm.py, `_forward_pass`: its dates are a feasible schedule, and the earliest one.
use defense_pm_tool.Prelude.{
  ℕ, ◌≡◌, sym, ◌∙◌, ap, subst, some, List, [], ◌∷◌, inl, inr, arith, Member, Option-cases, some_inj,
}
use defense_pm_tool.Prelude.Int.{ℤ, pos, ◌+ℤ◌, ◌≤ℤ◌, max_ℤ_bounds, max_ℤ_least, int_laws}
use defense_pm_tool.Prelude.Dict.{
  Dict, lookup, insert, lookup-insert_cases, insert-keeps, lookup-insert_self, lookup-insert_ne,
}
use defense_pm_tool.Networkx.{Networkx, Laws, Edge, IsTopological}
use defense_pm_tool.Cpm.{
  Activity, Results, ScheduleResult, ok, earliest, fresh, initial, update, forward_visit,
}
use defense_pm_tool.Cpm.Passes.{update-cons, update-frame, update-keeps}
use defense_pm_tool.Cpm.Early.{max_es_bounds, max_es_least, forward_visit-Visit}
use defense_pm_tool.Cpm.Initial.{IsDict, lookup-initial-none, lookup-initial-some}
use defense_pm_tool.Cpm.Feasible.{IsFeasible, earliest-mono}

module _ (activities : Dict Activity) where
  -- An entry of the results belongs to an activity, starts at day 0 or later and lasts as long
  -- as the activity does.
  pub record IsEarly (k : ℕ) (r : ScheduleResult) : Type 0 where
    pub activity : Activity
    pub known : lookup k activities ≡ some activity
    pub named : r.activity_id ≡ k
    pub nonneg : pos 0 ≤ℤ r.early_start
    pub finish : r.early_finish ≡ r.early_start +ℤ activity.duration

  abbrev pub AllEarly : Results → Type 0
  AllEarly R = (k : ℕ) (r : ScheduleResult) → lookup k R ≡ some r → IsEarly k r

  -- Every activity has an entry.
  abbrev pub HasAll : Results → Type 0
  HasAll R =
      (k : ℕ) (a : Activity)
      → lookup k activities ≡ some a
      → (r : ScheduleResult) × (lookup k R ≡ some r)

  pub insert-HasAll : (x : ℕ) (r : ScheduleResult) (R : Results) → HasAll R → HasAll (insert x r R)
  insert-HasAll x r R all k a e = let (old, h) = all k a e in insert-keeps x k r old R h

  module _ (is_dict : IsDict activities) where
    pub initial-HasAll : HasAll (initial activities [])
    initial-HasAll k a e = (fresh k a, lookup-initial-some activities [] k is_dict e)

    initial-lookup :
        (k : ℕ) (r : ScheduleResult)
        → lookup k (initial activities []) ≡ some r
        → (a : Activity) × (lookup k activities ≡ some a) × (r ≡ fresh k a)
    unfolding lookup
    initial-lookup k r h = elim (Option-cases (lookup k activities)) [
      | inl absent ↦ absurd (ground (arith, lookup-initial-none activities [] k absent))
      | inr (a, e) ↦ (a, e, cc (lookup-initial-some activities [] k is_dict e))
    ]

    pub initial_start :
        (k : ℕ) (r : ScheduleResult)
        → lookup k (initial activities []) ≡ some r
        → r.early_start ≡ pos 0
    unfolding fresh
    initial_start k r h =
        let (a, e, same) = initial-lookup k r h in ap (λ (s : ScheduleResult). s.early_start) same

    pub initial-AllEarly : AllEarly (initial activities [])
    unfolding fresh
    initial-AllEarly k r h =
        let (a, e, same) = initial-lookup k r h in
        record {
          activity = a;
          known = e;
          named = ap (λ (s : ScheduleResult). s.activity_id) same;
          nonneg = subst (λ (s : ScheduleResult). pos 0 ≤ℤ s.early_start) (sym same) (omega arith);
          finish =
              subst (λ (s : ScheduleResult). s.early_finish ≡ s.early_start +ℤ a.duration)
                (sym same) (omega int_laws);
        }

module _ (nx : Networkx) (laws : Laws nx) (activities : Dict Activity) (graph : nx.Graph) where
  open nx use {edges, predecessors, topological_sort}
  open laws use {predecessors_of_edge, edge_of_predecessors, order_topological, order_covers}

  visit-IsEarly :
      (x : ℕ) (R : Results) (r : ScheduleResult)
      → AllEarly activities R
      → forward_visit nx activities graph x R ≡ ok r
      → IsEarly activities x r
  visit-IsEarly x R r early h =
      let v = forward_visit-Visit nx activities graph x R r h in
      record {
        activity = v.activity;
        known = v.known;
        named = v.named.2 ∙ (early x v.named.0 v.named.1).named;
        nonneg = rw v.start ((max_ℤ_bounds (pos 0) v.bound).0);
        finish = v.finish;
      }

  pub forward-AllEarly :
      (order : List ℕ) (R R' : Results)
      → update (forward_visit nx activities graph) order R ≡ (ok tt, R')
      → AllEarly activities R
      → AllEarly activities R'
  forward-AllEarly order R R' h early =
      update-keeps (forward_visit nx activities graph) (AllEarly activities) order R R'
        (λ x S r _ p e k s found. elim (lookup-insert_cases x k r s S found) [
          | inl (same, new) ↦
              subst (IsEarly activities k) (sym new)
                (subst (λ j. IsEarly activities j r) same (visit-IsEarly x S r p e))
          | inr (_, old) ↦ p k s old
        ])
        h early

  -- A visit of `x` reads each predecessor's entry, and starts `x` no earlier than it asks.
  visit_meets :
      (x p : ℕ) (R : Results) (r : ScheduleResult) (e : Edge) (b : Activity)
      → forward_visit nx activities graph x R ≡ ok r
      → edges graph p x ≡ some e
      → lookup x activities ≡ some b
      → (rp : ScheduleResult) × (lookup p R ≡ some rp)
        × (earliest e.dependency_type e.lag rp.early_start rp.early_finish b.duration
            ≤ℤ r.early_start)
  visit_meets x p R r e b h edge known =
      let vis = forward_visit-Visit nx activities graph x R r h in
      let (low, reads) =
        max_es_bounds nx activities graph x vis.activity.duration (predecessors graph x) (pos 0) R
          vis.bound vis.computed in
      let read = reads p (predecessors_of_edge graph p x e edge) in
      let right = (max_ℤ_bounds (pos 0) vis.bound).1 in
      let low' : earliest read.edge.dependency_type read.edge.lag read.result.early_start
            read.result.early_finish vis.activity.duration
          ≤ℤ r.early_start =
        rw vis.start (omega (arith, read.bounded, right)) in
      (
        read.result,
        read.has_result,
        subst
            (λ (a : Activity).
              earliest e.dependency_type e.lag read.result.early_start read.result.early_finish
                a.duration
              ≤ℤ r.early_start)
            (some_inj (sym vis.known ∙ known))
            (subst
              (λ (g : Edge).
                earliest g.dependency_type g.lag read.result.early_start read.result.early_finish
                  vis.activity.duration
                ≤ℤ r.early_start)
              (some_inj (sym read.has_edge ∙ edge)) low'),
      )

  -- After the pass every edge into a visited activity is met.
  pub visited_met :
      (order : List ℕ) (R R' : Results) (p v : ℕ) (e : Edge) (b : Activity)
      → IsTopological nx graph order
      → update (forward_visit nx activities graph) order R ≡ (ok tt, R')
      → Member v order
      → edges graph p v ≡ some e
      → lookup v activities ≡ some b
      → (rp rv : ScheduleResult) × (lookup p R' ≡ some rp)
        × (lookup v R' ≡ some rv)
        × (earliest e.dependency_type e.lag rp.early_start rp.early_finish b.duration
            ≤ℤ rv.early_start)
  visited_met [] R R' p v e b topo h m edge known = elim m [ ]
  visited_met (x ∷ order) R R' p v e b (fresh_x, no_pred, topo) h m edge known =
      let f = forward_visit nx activities graph in
      let (r, hr, h') = update-cons f x order R R' h in
      elim m [
        | inr later ↦ visited_met order (insert x r R) R' p v e b topo h' later edge known
        | inl here ↦
            let edge' = subst (λ n. edges graph p n ≡ some e) (sym here) edge in
            let (rp, found, bounded) =
              visit_meets x p R r e b hr edge'
                (subst (λ n. lookup n activities ≡ some b) (sym here) known) in
            let apart : ¬ Member p (x ∷ order) = no_pred p e edge' in
            (
              rp,
              r,
              update-frame f order (insert x r R) R' p h' (λ i. apart (inr i))
                  ∙ lookup-insert_ne x p r R (λ same. apart (inl same))
                  ∙ found,
              subst (λ n. lookup n R' ≡ some r) here
                  (update-frame f order (insert x r R) R' x h' fresh_x ∙ lookup-insert_self x r R),
              bounded,
            )
      ]

  -- No visited entry starts later than in a given feasible schedule.
  abbrev pub IsBelow : (ℕ → ℤ) → Results → Type 0
  IsBelow s R =
      (k : ℕ) (r : ScheduleResult)
      → lookup k R ≡ some r
      → IsEarly activities k r × (r.early_start ≤ℤ s k)

  visit-IsBelow :
      (s : ℕ → ℤ) (x : ℕ) (R : Results) (r : ScheduleResult)
      → IsFeasible nx activities graph s
      → IsBelow s R
      → forward_visit nx activities graph x R ≡ ok r
      → r.early_start ≤ℤ s x
  visit-IsBelow s x R r feasible below h =
      let vis = forward_visit-Visit nx activities graph x R r h in
      let zero_low = feasible.nonneg x vis.activity vis.known in
      rw vis.start (
        max_ℤ_least (pos 0) vis.bound (s x) zero_low (
          max_es_least nx activities graph x vis.activity.duration (predecessors graph x) (pos 0) R
            vis.bound (s x) vis.computed zero_low
            (λ p e rp edge found.
              let (early, low) = below p rp found in
              let grown =
                earliest-mono e.dependency_type e.lag rp.early_start (s p) rp.early_finish
                  (s p +ℤ early.activity.duration) vis.activity.duration low
                  (rw early.finish (omega (int_laws, low))) in
              let asked =
                feasible.meets p x e early.activity vis.activity edge early.known vis.known in
              omega arith)))

  pub forward-IsBelow :
      (s : ℕ → ℤ) (order : List ℕ) (R R' : Results)
      → IsFeasible nx activities graph s
      → update (forward_visit nx activities graph) order R ≡ (ok tt, R')
      → IsBelow s R
      → IsBelow s R'
  forward-IsBelow s order R R' feasible h below =
      update-keeps (forward_visit nx activities graph) (IsBelow s) order R R'
        (λ x S r _ p e k q found. elim (lookup-insert_cases x k r q S found) [
          | inl (same, new) ↦
              let early = visit-IsEarly x S r (λ j t there. (p j t there).0) e in
              let low = visit-IsBelow s x S r feasible p e in rw (new, ← same) (early, low)
          | inr (_, old) ↦ p k q old
        ])
        h below
