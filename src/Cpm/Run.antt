-- ===== src/Cpm/Run.antt =====
-- services/cpm.py, `calculate`: the states that a successful run goes through.
use defense_pm_tool.Prelude.{ℕ, ◌≡◌, none, some, List, inl, inr, arith, reverse, Option-cases}
use defense_pm_tool.Prelude.Int.{ℤ}
use defense_pm_tool.Prelude.Dict.{Dict, keys}
use defense_pm_tool.Networkx.{Networkx}
use defense_pm_tool.Cpm.{
  Activity, Results, ok, update, initial, max_finish, cycle_path, late_initial, forward_visit,
  backward_visit, float_visit, forward_pass, backward_pass, backward_order, calculate_float,
  calculate, ◌>>◌,
}
use defense_pm_tool.Cpm.Passes.{Outcome-cases, >>-eq-ok}

module _ (nx : Networkx) (activities : Dict Activity) (graph : nx.Graph) where
  open nx use {find_cycle, topological_sort}

  -- A run from `R` to `R'`.
  pub record Run (R R' : Results) : Type 0 where
    pub order : List ℕ
    pub after_forward : Results
    pub project_end : ℤ
    pub after_initial : Results
    pub after_backward : Results
    pub acyclic : find_cycle graph ≡ none
    pub sorted : topological_sort graph ≡ some order
    pub forward :
        update (forward_visit nx activities graph) order (initial activities R)
        ≡ (ok tt, after_forward)
    pub longest : max_finish after_forward ≡ ok project_end
    pub setup :
        update (late_initial nx activities graph project_end) (keys after_forward) after_forward
        ≡ (ok tt, after_initial)
    pub backward :
        update (backward_visit nx activities graph) (reverse order) after_initial
        ≡ (ok tt, after_backward)
    pub floats :
        update (float_visit nx activities graph) (keys after_backward) after_backward ≡ (ok tt, R')

  forward_pass-order :
      (R S : Results)
      → forward_pass nx activities graph R ≡ (ok tt, S)
      → (order : List ℕ) × (topological_sort graph ≡ some order)
        × (update (forward_visit nx activities graph) order (initial activities R) ≡ (ok tt, S))
  unfolding forward_pass
  forward_pass-order R S h = elim (Option-cases (topological_sort graph)) [
    | inl unsorted ↦ absurd (ground arith)
    | inr (order, e) ↦ (order, e, ground arith)
  ]

  backward_order-update :
      (order : List ℕ) (R S : Results)
      → topological_sort graph ≡ some order
      → backward_order nx activities graph R ≡ (ok tt, S)
      → update (backward_visit nx activities graph) (reverse order) R ≡ (ok tt, S)
  unfolding backward_order
  backward_order-update order R S e h = ground arith

  backward_pass-end :
      (R S : Results)
      → backward_pass nx activities graph R ≡ (ok tt, S)
      → (end : ℤ) × (max_finish R ≡ ok end)
        × ((update (late_initial nx activities graph end) (keys R)
                >> backward_order nx activities graph)
              R
            ≡ (ok tt, S))
  unfolding backward_pass
  backward_pass-end R S h = elim (Outcome-cases (max_finish R)) [
    | inl (end, e) ↦ (end, e, ground arith)
    | inr (x, e) ↦ absurd (ground arith)
  ]

  calculate-passes :
      (R R' : Results)
      → calculate nx activities graph R ≡ (ok tt, R')
      → (find_cycle graph ≡ none)
        × ((forward_pass nx activities graph
                >> backward_pass nx activities graph
                >> calculate_float nx activities graph)
              R
            ≡ (ok tt, R'))
  unfolding calculate
  calculate-passes R R' h = elim (Option-cases (find_cycle graph)) [
    | inl e ↦ (e, ground arith)
    | inr (cycle, e) ↦ elim (Outcome-cases (cycle_path cycle)) [
      | inl (path, p) ↦ absurd (ground arith)
      | inr (x, p) ↦ absurd (ground arith)
    ]
  ]

  pub calculate-Run : (R R' : Results) → calculate nx activities graph R ≡ (ok tt, R') → Run R R'
  unfolding calculate_float
  calculate-Run R R' h =
      let (acyclic, passes) = calculate-passes R R' h in
      let (_, after_backward, two, floats) =
        >>-eq-ok (forward_pass nx activities graph >> backward_pass nx activities graph)
          (calculate_float nx activities graph) R R' passes in
      let (_, after_forward, one, back) =
        >>-eq-ok (forward_pass nx activities graph) (backward_pass nx activities graph) R
          after_backward two in
      let (order, sorted, forward) = forward_pass-order R after_forward one in
      let (end, longest, rest) = backward_pass-end after_forward after_backward back in
      let (_, after_initial, setup, ordered) =
        >>-eq-ok (update (late_initial nx activities graph end) (keys after_forward))
          (backward_order nx activities graph) after_forward after_backward rest in
      record {
        order = order;
        after_forward = after_forward;
        project_end = end;
        after_initial = after_initial;
        after_backward = after_backward;
        acyclic = acyclic;
        sorted = sorted;
        forward = forward;
        longest = longest;
        setup = setup;
        backward = backward_order-update order after_initial after_backward sorted ordered;
        floats = floats;
      }
