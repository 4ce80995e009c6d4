-- ===== src/Cpm/Success.antt =====
-- services/cpm.py, `calculate`: when it returns.
use defense_pm_tool.Prelude.{ℕ, ◌≡◌, none, some, List, [], arith, reverse, Member, Member-reverse}
use defense_pm_tool.Prelude.Int.{ℤ}
use defense_pm_tool.Prelude.Dict.{Dict, lookup, keys, lookup_of_Member}
use defense_pm_tool.Networkx.{Networkx, Laws}
use defense_pm_tool.Cpm.{
  Activity, Results, Action, ok, update, initial, late_initial, forward_visit, backward_visit,
  forward_pass, backward_pass, backward_order, calculate_float, calculate, max_finish, ◌>>◌,
}
use defense_pm_tool.Cpm.Initial.{IsDict}
use defense_pm_tool.Cpm.Total.{forward_succeeds, setup_succeeds, backward_succeeds, floats_succeed}
use defense_pm_tool.Cpm.Finish.{max_finish_succeeds}

>>-ok :
    {A B : Type 0} (m : Action A) (k : Action B) (R S T : Results) {a : A} {b : B}
    → m R ≡ (ok a, S)
    → k S ≡ (ok b, T)
    → (m >> k) R ≡ (ok b, T)
>>-ok m k R S T h g = ground arith

module _ (nx : Networkx) (laws : Laws nx) (activities : Dict Activity) (graph : nx.Graph)
    (is_dict : IsDict activities)
    (nodes_known : (x : ℕ)
      → Member x (nx.nodes graph)
      → (a : Activity) × (lookup x activities ≡ some a)) where
  open nx use {find_cycle, topological_sort}

  forward_pass-ok :
      (order : List ℕ) (R S : Results)
      → topological_sort graph ≡ some order
      → update (forward_visit nx activities graph) order (initial activities R) ≡ (ok tt, S)
      → forward_pass nx activities graph R ≡ (ok tt, S)
  unfolding forward_pass
  forward_pass-ok order R S e h = ground arith

  backward_order-ok :
      (order : List ℕ) (R S : Results)
      → topological_sort graph ≡ some order
      → update (backward_visit nx activities graph) (reverse order) R ≡ (ok tt, S)
      → backward_order nx activities graph R ≡ (ok tt, S)
  unfolding backward_order
  backward_order-ok order R S e h = ground arith

  backward_pass-ok :
      (end : ℤ) (R S : Results)
      → max_finish R ≡ ok end
      → (update (late_initial nx activities graph end) (keys R)
            >> backward_order nx activities graph)
          R
        ≡ (ok tt, S)
      → backward_pass nx activities graph R ≡ (ok tt, S)
  unfolding backward_pass
  backward_pass-ok end R S e h = ground arith

  calculate-ok :
      (R S : Results)
      → find_cycle graph ≡ none
      → (forward_pass nx activities graph
            >> backward_pass nx activities graph
            >> calculate_float nx activities graph)
          R
        ≡ (ok tt, S)
      → calculate nx activities graph R ≡ (ok tt, S)
  unfolding calculate
  calculate-ok R S e h = ground arith

  -- On a graph without a cycle, all of whose nodes are activities, `calculate` returns, if there
  -- is an activity at all.
  pub calculate_succeeds :
      (k : ℕ) (a : Activity)
      → find_cycle graph ≡ none
      → lookup k activities ≡ some a
      → (R : Results) × (calculate nx activities graph [] ≡ (ok tt, R))
  unfolding calculate_float
  calculate_succeeds k a acyclic known =
      let (order, sorted) = laws.acyclic_sorts graph acyclic in
      let (R₁, fwd, ready₁) =
        forward_succeeds nx laws activities graph is_dict nodes_known order sorted in
      let (q, was) = ready₁.all k a known in
      let (end, longest) = max_finish_succeeds R₁ k q was in
      let (R₂, setup, ready₂) =
        setup_succeeds nx laws activities graph is_dict nodes_known order sorted end (keys R₁) R₁
          ready₁ (λ j m. lookup_of_Member j R₁ m) in
      let (R₃, back, ready₃) =
        backward_succeeds nx laws activities graph is_dict nodes_known order sorted (reverse order)
          R₂ (λ x m. Member-reverse x order m) ready₂ in
      let (R₄, floats) =
        floats_succeed nx laws activities graph is_dict nodes_known order sorted (keys R₃) R₃ ready₃
          (λ j m. lookup_of_Member j R₃ m) in
      (
        R₄,
        calculate-ok [] R₄ acyclic (
            >>-ok (forward_pass nx activities graph >> backward_pass nx activities graph)
              (calculate_float nx activities graph) [] R₃ R₄
              (>>-ok (forward_pass nx activities graph) (backward_pass nx activities graph) [] R₁ R₃
                (forward_pass-ok order [] R₁ sorted fwd)
                (backward_pass-ok end R₁ R₃ longest (
                  >>-ok (update (late_initial nx activities graph end) (keys R₁))
                    (backward_order nx activities graph) R₁ R₂ R₃ setup
                    (backward_order-ok order R₂ R₃ sorted back))))
              floats),
      )
