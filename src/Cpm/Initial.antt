-- ===== src/Cpm/Initial.antt =====
-- services/cpm.py: the dictionaries with which an engine starts, and the graph it builds.
use defense_pm_tool.Prelude.{
  ℕ, ◌≡◌, refl, ◌∙◌, ap, Option, none, some, List, [], ◌∷◌, inl, inr, arith, ◌==◌, ◌&&◌,
  if◌then◌else◌, foldl, Bool-cases, ==_to_eq,
}
use defense_pm_tool.Prelude.Dict.{Dict, lookup, insert, lookup-insert}
use defense_pm_tool.Networkx.{Networkx, Laws, Edge}
use defense_pm_tool.Cpm.{
  Activity, Dependency, Results, index, fresh, initial, build_graph, with_edges,
}

-- No key is listed twice.
abbrev pub IsDict : {V : Type 0} → Dict V → Type 0
IsDict [] = Unit
IsDict ((k, v) ∷ d) = (lookup k d ≡ none) × IsDict d

pub insert-IsDict : {V : Type 0} (k : ℕ) (v : V) (d : Dict V) → IsDict d → IsDict (insert k v d)
unfolding insert lookup
insert-IsDict k v [] h = (refl, tt)
insert-IsDict k v ((j, w) ∷ d) h = ground (arith, insert-IsDict k v d h.1, lookup-insert k j v d)

insert_all-IsDict :
    (l : List Activity) (d : Dict Activity) → IsDict d → IsDict (foldl (λ c a. insert a.id a c) d l)
insert_all-IsDict [] d h = h
insert_all-IsDict (a ∷ l) d h = insert_all-IsDict l (insert a.id a d) (insert-IsDict a.id a d h)

pub index-IsDict : (l : List Activity) → IsDict (index l)
unfolding index
index-IsDict l = insert_all-IsDict l [] tt

-- The forward pass starts with an entry for each activity, and with no other new one.
pub lookup-initial-none :
    (d : Dict Activity) (R : Results) (k : ℕ)
    → lookup k d ≡ none
    → lookup k (initial d R) ≡ lookup k R
unfolding initial lookup
lookup-initial-none [] R k h = refl
lookup-initial-none ((j, b) ∷ d) R k h =
    ground
      (arith, lookup-initial-none d (insert j (fresh j b) R) k, lookup-insert j k (fresh j b) R)

pub lookup-initial-some :
    (d : Dict Activity) (R : Results) (k : ℕ) {a : Activity}
    → IsDict d
    → lookup k d ≡ some a
    → lookup k (initial d R) ≡ some (fresh k a)
unfolding initial lookup
lookup-initial-some [] R k u h = cc
lookup-initial-some ((j, b) ∷ d) R k {a} u h = elim (Bool-cases (j == k)) [
  | inl same ↦ ground (
    arith,
    ==_to_eq j k same,
    lookup-initial-none d (insert j (fresh j b) R) k,
    lookup-insert j k (fresh j b) R,
  )
  | inr other ↦ lookup-initial-some d (insert j (fresh j b) R) k u.1 (rw other at h)
]

module _ (nx : Networkx) (laws : Laws nx) where
  open nx use {Graph, new, add_node, add_edge, edges}
  open laws use {edges-new, edges-add_node, edges-add_edge}

  -- The last dependency of a list from `u` to `v`, as an edge, or else what was there before.
  abbrev pub last_edge : ℕ → ℕ → List Dependency → Option Edge → Option Edge
  last_edge u v [] before = before
  last_edge u v (dep ∷ deps) before = last_edge u v deps (
      if dep.predecessor_id == u && dep.successor_id == v
      then some (record { dependency_type = dep.dependency_type; lag = dep.lag })
      else before)

  edges-with_edges :
      (deps : List Dependency) (g : Graph) (u v : ℕ)
      → edges (with_edges nx g deps) u v ≡ last_edge u v deps (edges g u v)
  edges-with_edges [] g u v = refl
  edges-with_edges (dep ∷ deps) g u v =
      let e : Edge = record { dependency_type = dep.dependency_type; lag = dep.lag } in
      edges-with_edges deps (add_edge g dep.predecessor_id dep.successor_id e) u v
      ∙ ap (last_edge u v deps) (edges-add_edge g dep.predecessor_id dep.successor_id e u v)

  edges-with_nodes :
      (d : Dict Activity) (g : Graph) (u v : ℕ)
      → edges (foldl (λ h entry. add_node h entry.0 entry.1.duration) g d) u v ≡ edges g u v
  edges-with_nodes [] g u v = refl
  edges-with_nodes ((k, a) ∷ d) g u v =
      edges-with_nodes d (add_node g k a.duration) u v ∙ edges-add_node g k a.duration u v

  -- With a package that keeps its laws, the engine's graph has between two activities the last
  -- dependency that the list names for them, and no edge where it names none.
  pub edges-build_graph :
      (d : Dict Activity) (deps : List Dependency) (u v : ℕ)
      → edges (build_graph nx d deps) u v ≡ last_edge u v deps none
  unfolding build_graph
  edges-build_graph d deps u v =
      edges-with_edges deps _ u v
      ∙ ap (last_edge u v deps) (edges-with_nodes d new u v ∙ edges-new u v)
