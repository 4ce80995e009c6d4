-- ===== src/Cpm/Build.antt =====
-- services/cpm.py: a new engine over lists of activities and dependencies, from construction to
-- the end of `calculate`.
use defense_pm_tool.Prelude.{ℕ, ◌≡◌, none, some, List, [], ◌∷◌, inl, inr, foldl, Member, All, subst}
use defense_pm_tool.Prelude.Dict.{
  Dict, lookup, insert, keys, insert-keeps, lookup-insert_self, lookup_of_Member,
}
use defense_pm_tool.Networkx.{Networkx, Laws, Edge}
use defense_pm_tool.Cpm.{
  Activity, Dependency, Results, ok, engine, index, build_graph, with_edges, calculate,
}
use defense_pm_tool.Cpm.Initial.{index-IsDict}
use defense_pm_tool.Cpm.Success.{calculate_succeeds}

-- The number names one of the activities.
abbrev pub Known : Dict Activity → ℕ → Type 0
Known d x = (a : Activity) × (lookup x d ≡ some a)

-- Both ends of every dependency are among the activities.
abbrev pub AllKnown : Dict Activity → List Dependency → Type 0
AllKnown d deps = All (λ dep. Known d dep.predecessor_id × Known d dep.successor_id) deps

insert_all-Known :
    (l : List Activity) (d : Dict Activity) (x : ℕ)
    → Known d x
    → Known (foldl (λ c a. insert a.id a c) d l) x
insert_all-Known [] d x known = known
insert_all-Known (a ∷ l) d x (b, found) =
    insert_all-Known l (insert a.id a d) x (insert-keeps a.id x a b d found)

index_first : (a : Activity) (l : List Activity) → Known (index (a ∷ l)) a.id
unfolding index
index_first a l = insert_all-Known l (insert a.id a []) a.id (a, lookup-insert_self a.id a [])

module _ (nx : Networkx) (laws : Laws nx) where
  open nx use {Graph, new, nodes, add_node, add_edge, find_cycle}

  with_nodes-Known :
      (full d : Dict Activity) (g : Graph)
      → ((x : ℕ) → Member x (keys d) → Known full x)
      → ((x : ℕ) → Member x (nodes g) → Known full x)
      → (x : ℕ) → Member x (nodes (foldl (λ h entry. add_node h entry.0 entry.1.duration) g d))
      → Known full x
  with_nodes-Known full [] g inside known x m = known x m
  with_nodes-Known full ((k, a) ∷ d) g inside known x m =
      with_nodes-Known full d (add_node g k a.duration) (λ y i. inside y (inr i))
        (λ y i. elim (laws.nodes-add_node g k a.duration y i) [
          | inl here ↦ inside y (inl here)
          | inr old ↦ known y old
        ])
        x m

  with_edges-Known :
      (full : Dict Activity) (deps : List Dependency) (g : Graph)
      → AllKnown full deps
      → ((x : ℕ) → Member x (nodes g) → Known full x)
      → (x : ℕ) → Member x (nodes (with_edges nx g deps))
      → Known full x
  with_edges-Known full [] g closed known x m = known x m
  with_edges-Known full (dep ∷ deps) g ((source, target), closed) known x m =
      let e : Edge = record { dependency_type = dep.dependency_type; lag = dep.lag } in
      with_edges-Known full deps (add_edge g dep.predecessor_id dep.successor_id e) closed
        (λ y i. elim (laws.nodes-add_edge g dep.predecessor_id dep.successor_id e y i) [
          | inl first ↦ subst (Known full) first source
          | inr (inl second) ↦ subst (Known full) second target
          | inr (inr old) ↦ known y old
        ])
        x m

  pub build_graph-Known :
      (d : Dict Activity) (deps : List Dependency) (x : ℕ)
      → AllKnown d deps
      → Member x (nodes (build_graph nx d deps))
      → Known d x
  unfolding build_graph
  build_graph-Known d deps x closed m =
      with_edges-Known d deps _ closed
        (with_nodes-Known d d new (λ y i. lookup_of_Member y d i)
          (λ y i. absurd (laws.nodes-new y i)))
        x m

  -- With a package that keeps its laws, a new engine over at least one activity calculates
  -- without raising if each dependency joins two of the activities and the package finds no
  -- cycle.
  pub engine_calculates :
      (activity : Activity) (activities : List Activity) (deps : List Dependency)
      → let e = engine nx (activity ∷ activities) deps in
        AllKnown e.activities deps
        → find_cycle e.graph ≡ none
        → (R : Results) × (calculate nx e.activities e.graph [] ≡ (ok tt, R))
  unfolding engine
  engine_calculates activity activities deps closed acyclic =
      let d = index (activity ∷ activities) in
      let (a, known) = index_first activity activities in
      calculate_succeeds nx laws d (build_graph nx d deps) (index-IsDict (activity ∷ activities))
        (λ x m. build_graph-Known d deps x closed m) activity.id a acyclic known
