-- ===== src/Cpm/Total.antt =====
-- services/cpm.py, `calculate`: on an acyclic graph over known activities no pass raises.
use defense_pm_tool.Prelude.{ℕ, ◌≡◌, refl, some, List, [], inl, inr, Member, Option-cases}
use defense_pm_tool.Prelude.Int.{ℤ, ◌-ℤ◌}
use defense_pm_tool.Prelude.Dict.{Dict, lookup, insert, lookup-insert_cases, insert-keeps}
use defense_pm_tool.Networkx.{Networkx, Laws, Edge}
use defense_pm_tool.Cpm.{
  Activity, Results, ScheduleResult, ok, update, initial, late_initial, forward_visit,
  backward_visit, float_visit,
}
use defense_pm_tool.Cpm.Passes.{update-succeeds}
use defense_pm_tool.Cpm.Initial.{IsDict}
use defense_pm_tool.Cpm.Early.{forward_visit-Visit, forward_visit_succeeds}
use defense_pm_tool.Cpm.Forward.{HasAll, insert-HasAll, initial-HasAll, initial-AllEarly}
use defense_pm_tool.Cpm.Late.{backward_visit-Visit, backward_visit_succeeds}
use defense_pm_tool.Cpm.Floats.{float_visit-Visit, float_visit_succeeds}

-- Every activity has an entry, and every entry names an activity.
pub record IsReady (activities : Dict Activity) (R : Results) : Type 0 where
  pub all : HasAll activities R
  pub named :
      (k : ℕ) (r : ScheduleResult)
      → lookup k R ≡ some r
      → (a : Activity) × (lookup r.activity_id activities ≡ some a)

insert-IsReady :
    (activities : Dict Activity) (x : ℕ) (R : Results) (r old : ScheduleResult)
    → IsReady activities R
    → lookup x R ≡ some old
    → r.activity_id ≡ old.activity_id
    → IsReady activities (insert x r R)
insert-IsReady activities x R r old ready was same = record {
  all = insert-HasAll activities x r R ready.all;
  named = λ k q found. elim (lookup-insert_cases x k r q R found) [
    | inl (_, new) ↦ rw (new, same) (ready.named x old was)
    | inr (_, before) ↦ ready.named k q before
  ];
}

module _ (nx : Networkx) (laws : Laws nx) (activities : Dict Activity) (graph : nx.Graph)
    (is_dict : IsDict activities)
    (nodes_known : (x : ℕ)
      → Member x (nx.nodes graph)
      → (a : Activity) × (lookup x activities ≡ some a))
    (order : List ℕ) (sorted : nx.topological_sort graph ≡ some order) where
  open nx use {edges, predecessors, successors}

  known : (x : ℕ) → Member x order → (a : Activity) × (lookup x activities ≡ some a)
  known x m = nodes_known x (laws.order_nodes graph order x sorted m)

  predecessor_read :
      (x p : ℕ) (R : Results)
      → HasAll activities R
      → Member p (predecessors graph x)
      → (e : Edge) × (r : ScheduleResult) × (edges graph p x ≡ some e) × (lookup p R ≡ some r)
  predecessor_read x p R all m = elim (Option-cases (edges graph p x)) [
    | inl absent ↦ absurd (laws.edge_of_predecessors graph p x m absent)
    | inr (e, edge) ↦
        let (a, ka) = known p (laws.order_covers graph order p x e sorted edge).0 in
        let (r, found) = all p a ka in (e, r, edge, found)
  ]

  successor_read :
      (x s : ℕ) (R : Results)
      → HasAll activities R
      → Member s (successors graph x)
      → (e : Edge) × (r : ScheduleResult) × (edges graph x s ≡ some e) × (lookup s R ≡ some r)
  successor_read x s R all m = elim (Option-cases (edges graph x s)) [
    | inl absent ↦ absurd (laws.edge_of_successors graph x s m absent)
    | inr (e, edge) ↦
        let (a, ka) = known s (laws.order_covers graph order x s e sorted edge).1 in
        let (r, found) = all s a ka in (e, r, edge, found)
  ]

  initial-IsReady : IsReady activities (initial activities [])
  initial-IsReady = record {
    all = initial-HasAll activities is_dict;
    named = λ k r found.
        let e = initial-AllEarly activities is_dict k r found in (e.activity, rw e.named e.known);
  }

  pub forward_succeeds :
      (R' : Results) × (update (forward_visit nx activities graph) order (initial activities [])
        ≡ (ok tt, R'))
      × IsReady activities R'
  forward_succeeds =
      update-succeeds (forward_visit nx activities graph) (IsReady activities) order
        (initial activities [])
        (λ x S m ready.
          let (a, ka) = known x m in
          let (old, was) = ready.all x a ka in
          let (r, e) =
            forward_visit_succeeds nx activities graph x S ka was
              (λ p i. predecessor_read x p S ready.all i) in
          let (prev, was', same) = (forward_visit-Visit nx activities graph x S r e).named in
          (r, e, insert-IsReady activities x S r prev ready was' same))
        initial-IsReady

  -- Every key of `ks` has an entry.
  abbrev pub Holds : List ℕ → Results → Type 0
  Holds ks R = (k : ℕ) → Member k ks → (r : ScheduleResult) × (lookup k R ≡ some r)

  pub setup_succeeds :
      (end : ℤ) (ks : List ℕ) (R : Results)
      → IsReady activities R
      → Holds ks R
      → (R' : Results) × (update (late_initial nx activities graph end) ks R ≡ (ok tt, R'))
        × IsReady activities R'
  unfolding late_initial
  setup_succeeds end ks R ready holds =
      let (R', e, (ready', _)) =
        update-succeeds (late_initial nx activities graph end)
          (λ S. IsReady activities S × Holds ks S) ks R
          (λ x S m p.
            let (old, was) = p.1 x m in
            let (a, ka) = p.0.named x old was in
            let r = record old { late_finish = end; late_start = end -ℤ a.duration } in
            (
              r,
              rw (was, ka),
              (
                insert-IsReady activities x S r old p.0 was refl,
                λ k i. let (q, found) = p.1 k i in insert-keeps x k r q S found,
              ),
            ))
          (ready, holds) in
      (R', e, ready')

  pub backward_succeeds :
      (xs : List ℕ) (R : Results)
      → ((x : ℕ) → Member x xs → Member x order)
      → IsReady activities R
      → (R' : Results) × (update (backward_visit nx activities graph) xs R ≡ (ok tt, R'))
        × IsReady activities R'
  backward_succeeds xs R inside ready =
      update-succeeds (backward_visit nx activities graph) (IsReady activities) xs R
        (λ x S m p.
          let (a, ka) = known x (inside x m) in
          let (old, was) = p.all x a ka in
          let (r, e) =
            backward_visit_succeeds nx activities graph x S ka was
              (λ s i. successor_read x s S p.all i) in
          let v = backward_visit-Visit nx activities graph x S r e in
          (r, e, insert-IsReady activities x S r v.old p v.was v.same.0))
        ready

  pub floats_succeed :
      (ks : List ℕ) (R : Results)
      → IsReady activities R
      → Holds ks R
      → (R' : Results) × (update (float_visit nx activities graph) ks R ≡ (ok tt, R'))
  floats_succeed ks R ready holds =
      let (R', e, _) =
        update-succeeds (float_visit nx activities graph) (λ S. IsReady activities S × Holds ks S)
          ks R
          (λ x S m p.
            let (old, was) = p.1 x m in
            let (r, e) =
              float_visit_succeeds nx activities graph x S was
                (λ s i. successor_read x s S p.0.all i) in
            let v = float_visit-Visit nx activities graph x S r e in
            (
              r,
              e,
              (
                insert-IsReady activities x S r v.old p.0 v.was v.same_early.0,
                λ k i. let (q, found) = p.1 k i in insert-keeps x k r q S found,
              ),
            ))
          (ready, holds) in
      (R', e)
