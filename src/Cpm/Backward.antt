-- ===== src/Cpm/Backward.antt =====
-- services/cpm.py, `_backward_pass`: its dates keep every dependency, and none that do are later.
use defense_pm_tool.Prelude.{
  ℕ, ◌≡◌, sym, ◌∙◌, subst, some, List, [], ◌∷◌, inl, inr, arith, reverse, reverse-cons, Member,
  some_inj,
}
use defense_pm_tool.Prelude.Int.{ℤ, ◌+ℤ◌, ◌-ℤ◌, ◌≤ℤ◌, int_laws}
use defense_pm_tool.Prelude.Dict.{
  Dict, lookup, lookup-insert_cases, lookup-insert_self, lookup-insert_ne,
}
use defense_pm_tool.Networkx.{Networkx, Laws, Edge, IsTopological}
use defense_pm_tool.Cpm.{Activity, Results, ScheduleResult, ok, update, latest, backward_visit}
use defense_pm_tool.Cpm.Passes.{update-snoc, update-keeps}
use defense_pm_tool.Cpm.Late.{min_lf_bounds, min_lf_greatest, backward_visit-Visit, visit_leaves}
use defense_pm_tool.Cpm.Feasible.{IsFeasible, earliest-latest_iff, latest-mono}

module _ (activities : Dict Activity) (project_end : ℤ) where
  -- An entry lasts as long as its activity does and ends with the project at the latest.
  pub record IsLate (k : ℕ) (r : ScheduleResult) : Type 0 where
    pub activity : Activity
    pub known : lookup k activities ≡ some activity
    pub start : r.late_start ≡ r.late_finish -ℤ activity.duration
    pub within : r.late_finish ≤ℤ project_end

  abbrev pub AllLate : Results → Type 0
  AllLate R = (k : ℕ) (r : ScheduleResult) → lookup k R ≡ some r → IsLate k r

  -- No entry finishes earlier than in a given schedule.
  abbrev pub IsAbove : (ℕ → ℤ) → Results → Type 0
  IsAbove s R =
      (k : ℕ) (r : ScheduleResult) (a : Activity)
      → lookup k R ≡ some r
      → lookup k activities ≡ some a
      → s k +ℤ a.duration ≤ℤ r.late_finish

module _ (nx : Networkx) (laws : Laws nx) (activities : Dict Activity) (graph : nx.Graph)
    (project_end : ℤ) where
  open nx use {edges, successors}

  visit-IsLate :
      (x : ℕ) (R : Results) (r : ScheduleResult)
      → AllLate activities project_end R
      → backward_visit nx activities graph x R ≡ ok r
      → IsLate activities project_end x r
  visit-IsLate x R r late h =
      let v = backward_visit-Visit nx activities graph x R r h in
      let (lower, _) =
        min_lf_bounds nx activities graph x v.activity.duration (successors graph x)
          v.old.late_finish R r.late_finish v.computed in
      let was = (late x v.old v.was).within in
      record { activity = v.activity; known = v.known; start = v.start; within = omega arith }

  pub backward-AllLate :
      (order : List ℕ) (R R' : Results)
      → update (backward_visit nx activities graph) order R ≡ (ok tt, R')
      → AllLate activities project_end R
      → AllLate activities project_end R'
  backward-AllLate order R R' h late =
      update-keeps (backward_visit nx activities graph) (AllLate activities project_end) order R R'
        (λ x S r _ p e k s found. elim (lookup-insert_cases x k r s S found) [
          | inl (same, new) ↦ rw (new, ← same) (visit-IsLate x S r p e)
          | inr (_, old) ↦ p k s old
        ])
        h late

  visit-IsAbove :
      (s : ℕ → ℤ) (x : ℕ) (R : Results) (r : ScheduleResult) (a : Activity)
      → IsFeasible nx activities graph s
      → AllLate activities project_end R
      → IsAbove activities project_end s R
      → backward_visit nx activities graph x R ≡ ok r
      → lookup x activities ≡ some a
      → s x +ℤ a.duration ≤ℤ r.late_finish
  visit-IsAbove s x R r a feasible late above h known =
      let v = backward_visit-Visit nx activities graph x R r h in
      rw (some_inj (sym known ∙ v.known)) (
        min_lf_greatest nx activities graph x v.activity.duration (successors graph x)
          v.old.late_finish R r.late_finish (s x +ℤ v.activity.duration) v.computed
          (above x v.old v.activity v.was v.known)
          (λ y e q edge found.
            let l = late y q found in
            let room = above y q l.activity found l.known in
            let asked = feasible.meets x y e v.activity l.activity edge v.known l.known in
            let left =
              (earliest-latest_iff e.dependency_type e.lag (s x) (s y) v.activity.duration
                  l.activity.duration).0
                asked in
            let grown =
              latest-mono e.dependency_type e.lag (s y) q.late_start (s y +ℤ l.activity.duration)
                q.late_finish v.activity.duration (rw l.start (omega (int_laws, room))) room in
            omega arith))

  pub update-IsAbove :
      (s : ℕ → ℤ) (order : List ℕ) (R R' : Results)
      → IsFeasible nx activities graph s
      → update (backward_visit nx activities graph) order R ≡ (ok tt, R')
      → AllLate activities project_end R
      → IsAbove activities project_end s R
      → IsAbove activities project_end s R'
  update-IsAbove s order R R' feasible h late above =
      (update-keeps (backward_visit nx activities graph)
        (λ S. AllLate activities project_end S × IsAbove activities project_end s S) order R R'
        (λ x S r _ p e. (
          λ k q found. elim (lookup-insert_cases x k r q S found) [
            | inl (same, new) ↦ rw (new, ← same) (visit-IsLate x S r p.0 e)
            | inr (_, old) ↦ p.0 k q old
          ],
          λ k q a found known. elim (lookup-insert_cases x k r q S found) [
            | inl (same, new) ↦
                rw (new, ← same) (visit-IsAbove s x S r a feasible p.0 p.1 e (rw (← same) at known))
            | inr (_, old) ↦ p.1 k q a old known
          ],
        ))
        h (late, above)).1

  -- After the pass every edge out of a visited activity is met.
  pub visited_left :
      (order : List ℕ) (R R' : Results) (u v : ℕ) (e : Edge) (a : Activity)
      → IsTopological nx graph order
      → update (backward_visit nx activities graph) (reverse order) R ≡ (ok tt, R')
      → Member u order
      → edges graph u v ≡ some e
      → lookup u activities ≡ some a
      → (ru rv : ScheduleResult) × (lookup u R' ≡ some ru)
        × (lookup v R' ≡ some rv)
        × (ru.late_finish ≤ℤ latest e.dependency_type e.lag rv.late_start rv.late_finish a.duration)
  visited_left [] R R' u v e a topo h m edge known = elim m [ ]
  visited_left (x ∷ order) R R' u v e a (fresh_x, no_pred, topo) h m edge known =
      let f = backward_visit nx activities graph in
      let (S, r, before, last, same) =
        update-snoc f (reverse order) x R R'
          (subst (λ l. update f l R ≡ (ok tt, R')) (reverse-cons x order) h) in
      let apart : x ≡ v → ⊥ =
        λ here. no_pred u e (subst (λ n. edges graph u n ≡ some e) (sym here) edge) m in
      elim m [
        | inl here ↦
            let (q, found, left) =
              visit_leaves nx activities graph laws x v S r e a last
                (subst (λ n. edges graph n v ≡ some e) (sym here) edge)
                (subst (λ n. lookup n activities ≡ some a) (sym here) known) in
            (
              r,
              q,
              rw (same, ← here) (lookup-insert_self x r S),
              rw same (lookup-insert_ne x v r S apart ∙ found),
              left,
            )
        | inr later ↦
            let (ru, rv, found_u, found_v, left) =
              visited_left order R S u v e a topo before later edge known in
            (
              ru,
              rv,
              rw same (
                  lookup-insert_ne x u r S
                    (λ here. fresh_x (subst (λ n. Member n order) (sym here) later))
                  ∙ found_u),
              rw same (lookup-insert_ne x v r S apart ∙ found_v),
              left,
            )
      ]
