-- ===== src/Networkx.antt =====
-- The third-party graph package that services/cpm.py imports as `nx`. Its operations are a
-- parameter of the model, and what its documentation promises of them is a record of laws.
pub mod Sample
use defense_pm_tool.Prelude.{
  ℕ, ◌≡◌, ◌≢◌, Option, none, some, List, [], ◌∷◌, ◌&&◌, ◌==◌, if◌then◌else◌, Member, ◌⊎◌,
}
use defense_pm_tool.Prelude.Int.{ℤ}

-- `dependency_type` as it is stored: a value of `DependencyType`, or any other text.
pub data EdgeType : Type 0 where
  fs ss ff sf other : EdgeType

-- The attributes of an edge.
pub record Edge : Type 0 where
  pub dependency_type : EdgeType
  pub lag : ℤ

pub record Networkx : Type 1 where
  pub Graph : Type 0
  pub new : Graph
  pub nodes : Graph → List ℕ
  pub add_node : Graph → ℕ → ℤ → Graph
  pub add_edge : Graph → ℕ → ℕ → Edge → Graph
  pub edges : Graph → ℕ → ℕ → Option Edge
  pub predecessors : Graph → ℕ → List ℕ
  pub successors : Graph → ℕ → List ℕ
  -- `none` stands for NetworkXNoCycle
  pub find_cycle : Graph → Option (List (ℕ × ℕ))
  -- `none` stands for NetworkXUnfeasible
  pub topological_sort : Graph → Option (List ℕ)

module _ (nx : Networkx) where
  open nx use {
    Graph, new, nodes, add_node, add_edge, edges, predecessors, successors, find_cycle,
    topological_sort,
  }

  -- No node comes twice, and no edge leads to a node from one that stands at it or behind it.
  abbrev pub IsTopological : Graph → List ℕ → Type 0
  IsTopological g [] = Unit
  IsTopological g (x ∷ o) =
      (¬ Member x o)
      × ((p : ℕ) (e : Edge) → edges g p x ≡ some e → ¬ Member p (x ∷ o))
      × IsTopological g o

  -- The edges of a list lead from one node to another, one after the other.
  abbrev pub IsChain : Graph → ℕ → List (ℕ × ℕ) → ℕ → Type 0
  IsChain g u [] v = u ≡ v
  IsChain g u ((a, b) ∷ c) v = (a ≡ u) × (edges g a b ≢ none) × IsChain g b c v

  -- What the documentation says of a cycle that is found: its edges lead from a node back to it.
  abbrev pub IsCycle : Graph → List (ℕ × ℕ) → Type 0
  IsCycle g c = (u : ℕ) × (c ≢ []) × IsChain g u c u

  -- What the documentation says of the operations that build and read a graph, and of the order.
  pub record Laws : Type 0 where
    pub nodes-new : (x : ℕ) → ¬ Member x (nodes new)
    pub nodes-add_node :
        (g : Graph) (n : ℕ) (d : ℤ) (x : ℕ)
        → Member x (nodes (add_node g n d))
        → (n ≡ x) ⊎ Member x (nodes g)
    pub nodes-add_edge :
        (g : Graph) (a b : ℕ) (e : Edge) (x : ℕ)
        → Member x (nodes (add_edge g a b e))
        → (a ≡ x) ⊎ (b ≡ x) ⊎ Member x (nodes g)
    pub edges-new : (u v : ℕ) → edges new u v ≡ none
    pub edges-add_node :
        (g : Graph) (n : ℕ) (d : ℤ) (u v : ℕ) → edges (add_node g n d) u v ≡ edges g u v
    pub edges-add_edge :
        (g : Graph) (a b : ℕ) (e : Edge) (u v : ℕ)
        → edges (add_edge g a b e) u v ≡ (if a == u && b == v then some e else edges g u v)
    pub predecessors_of_edge :
        (g : Graph) (u v : ℕ) (e : Edge) → edges g u v ≡ some e → Member u (predecessors g v)
    pub edge_of_predecessors :
        (g : Graph) (u v : ℕ) → Member u (predecessors g v) → edges g u v ≢ none
    pub successors_of_edge :
        (g : Graph) (u v : ℕ) (e : Edge) → edges g u v ≡ some e → Member v (successors g u)
    pub edge_of_successors : (g : Graph) (u v : ℕ) → Member v (successors g u) → edges g u v ≢ none
    pub order_topological :
        (g : Graph) (o : List ℕ) → topological_sort g ≡ some o → IsTopological g o
    pub order_covers :
        (g : Graph) (o : List ℕ) (u v : ℕ) (e : Edge)
        → topological_sort g ≡ some o
        → edges g u v ≡ some e
        → Member u o × Member v o
    pub order_nodes :
        (g : Graph) (o : List ℕ) (x : ℕ)
        → topological_sort g ≡ some o
        → Member x o
        → Member x (nodes g)
    pub acyclic_sorts :
        (g : Graph) → find_cycle g ≡ none → (o : List ℕ) × (topological_sort g ≡ some o)
