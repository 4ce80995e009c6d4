-- ===== src/Cpm/Cycles.antt =====
-- services/cpm.py, `calculate`: what it does about circular dependencies.
use defense_pm_tool.Prelude.{
  ℕ, ◌≡◌, ◌≢◌, refl, sym, subst, none, some, List, [], ◌∷◌, Member, inl, inr, Option-cases,
}
use defense_pm_tool.Prelude.Dict.{Dict}
use defense_pm_tool.Networkx.{Networkx, Laws, IsTopological, IsChain, IsCycle}
use defense_pm_tool.Cpm.{Activity, Results, ok, raise, circular_dependency, cycle_path, calculate}

module _ (nx : Networkx) where
  open nx use {Graph, edges, find_cycle, topological_sort}

  -- From `u` along edges of the graph through the nodes of the list, the last of which is `v`.
  abbrev pub IsWalk : Graph → ℕ → List ℕ → ℕ → Type 0
  IsWalk g u [] v = u ≡ v
  IsWalk g u (w ∷ l) v = (edges g u w ≢ none) × IsWalk g w l v

  -- A walk that ends where it begins.
  abbrev pub IsClosed : Graph → ℕ → List ℕ → Type 0
  IsClosed g u l = (l ≢ []) × IsWalk g u l u

  -- The nodes of a chain of edges are a walk.
  cycle_path-IsWalk :
      (g : Graph) (u v : ℕ) (c : List (ℕ × ℕ))
      → c ≢ []
      → IsChain nx g u c v
      → (l : List ℕ) × (cycle_path c ≡ ok (u ∷ l)) × (l ≢ []) × IsWalk g u l v
  unfolding cycle_path
  cycle_path-IsWalk g u v [] some_edge chain = absurd (some_edge refl)
  cycle_path-IsWalk g u v ((a, b) ∷ []) some_edge (start, edge, end) = (
    b ∷ [],
    subst (λ x. ok (a ∷ b ∷ []) ≡ ok (x ∷ b ∷ [])) start refl,
    (λ e. cc),
    (subst (λ x. edges g x b ≢ none) start edge, end),
  )
  cycle_path-IsWalk g u v ((a, b) ∷ e ∷ es) some_edge (start, edge, chain) =
      let (l, same, long, walk) = cycle_path-IsWalk g b v (e ∷ es) (λ h. cc) chain in
      (
        b ∷ l,
        rw same (subst (λ x. ok (a ∷ b ∷ l) ≡ ok (x ∷ b ∷ l)) start refl),
        (λ h. cc),
        (subst (λ x. edges g x b ≢ none) start edge, walk),
      )

  -- Each node of a walk but the first has an edge from another node of the walk.
  has_source :
      (g : Graph) (u v : ℕ) (l : List ℕ) (x : ℕ)
      → IsWalk g u l v
      → Member x l
      → (p : ℕ) × Member p (u ∷ l) × (edges g p x ≢ none)
  has_source g u v [] x walk m = elim m [ ]
  has_source g u v (w ∷ l) x (edge, walk) m = elim m [
    | inl here ↦ (u, inl refl, subst (λ y. edges g u y ≢ none) here edge)
    | inr later ↦
        let (p, within, source) = has_source g w v l x walk later in (p, inr within, source)
  ]

  end_of : (g : Graph) (u v w : ℕ) (l : List ℕ) → IsWalk g u (w ∷ l) v → Member v (w ∷ l)
  end_of g u v w [] (edge, end) = inl end
  end_of g u v w (x ∷ l) (edge, walk) = inr (end_of g w v x l walk)

  -- No nodes that each have an edge from one of them are in an order.
  no_circle :
      (g : Graph) (o l : List ℕ) (y : ℕ)
      → IsTopological nx g o
      → Member y l
      → ((x : ℕ) → Member x l → Member x o)
      → ((x : ℕ) → Member x l → (p : ℕ) × Member p l × (edges g p x ≢ none))
      → ⊥
  no_circle g [] l y sorted m within source = elim (within y m) [ ]
  no_circle g (z ∷ o) l y sorted m within source =
      no_circle g o l y sorted.2 m
        (λ x k. elim (within x k) [
          | inl here ↦ absurd (not_first (subst (λ w. Member w l) (sym here) k))
          | inr later ↦ later
        ])
        source
    where
      not_first : ¬ Member z l
      not_first k =
          let (p, among, edge) = source z k in
          elim (Option-cases (edges g p z)) [
            | inl missing ↦ edge missing
            | inr (e, found) ↦ sorted.1 p e found (within p among)
          ]

  module _ (laws : Laws nx) where
    covered_target :
        (g : Graph) (o : List ℕ) (u v : ℕ)
        → topological_sort g ≡ some o
        → edges g u v ≢ none
        → Member v o
    covered_target g o u v sorted edge = elim (Option-cases (edges g u v)) [
      | inl missing ↦ absurd (edge missing)
      | inr (e, found) ↦ (laws.order_covers g o u v e sorted found).1
    ]

    -- A graph with a closed walk is not without a cycle.
    closed_walk-find_cycle : (g : Graph) (u : ℕ) (l : List ℕ) → IsClosed g u l → find_cycle g ≢ none
    closed_walk-find_cycle g u [] closed acyclic = closed.0 refl
    closed_walk-find_cycle g u (w ∷ l) closed acyclic =
        let (o, sorted) = laws.acyclic_sorts g acyclic in
        no_circle g o (w ∷ l) u (laws.order_topological g o sorted) back
          (λ x m.
            let (p, among, edge) = has_source g u u (w ∷ l) x closed.1 m in
            covered_target g o p x sorted edge)
          (λ x m.
            let (p, among, edge) = has_source g u u (w ∷ l) x closed.1 m in
            (
              p,
              elim among [ inl here ↦ subst (λ y. Member y (w ∷ l)) here back | inr later ↦ later ],
              edge,
            ))
      where
        back : Member u (w ∷ l)
        back = end_of g u u w l closed.1

    -- Let the graph have a walk along its edges that ends where it begins, and let a cycle that the
    -- package finds in it be a chain of its edges from a node back to it. Then `calculate` raises the
    -- error for a circular dependency, with the nodes of such a walk, the first of them at both ends,
    -- and leaves the results as they were.
    pub calculate_cycle :
        (activities : Dict Activity) (graph : Graph) (R : Results)
        → ((cycle : List (ℕ × ℕ)) → find_cycle graph ≡ some cycle → IsCycle nx graph cycle)
        → (u : ℕ) (l : List ℕ) → IsClosed graph u l
        → (v : ℕ) × (path : List ℕ) × IsClosed graph v path
          × (calculate nx activities graph R ≡ (raise (circular_dependency (v ∷ path)), R))
    unfolding calculate
    calculate_cycle activities graph R closes u l closed = elim (Option-cases (find_cycle graph)) [
      | inl acyclic ↦ absurd (closed_walk-find_cycle graph u l closed acyclic)
      | inr (cycle, found) ↦
          let (v, some_edge, chain) = closes cycle found in
          let (path, same, long, walk) = cycle_path-IsWalk graph v v cycle some_edge chain in
          (v, path, (long, walk), rw (calculate, found, same))
    ]
