-- ===== src/Networkx/Sample.antt =====
-- A small concrete graph package: it shows that the laws of `Networkx` can hold together, and the
-- tests run the engine on it. Nothing else depends on it.
use defense_pm_tool.Prelude.{
  ℕ, zero, suc, ◌≡◌, ◌≢◌, refl, Option, none, some, List, [], ◌∷◌, inl, inr, arith, ◌⊎◌, ◌==◌, ◌&&◌,
  ◌||◌, not, Bool, true, false, if◌then◌else◌, Member, length, Bool-cases, Option-cases, ==_to_eq,
}
use defense_pm_tool.Networkx.{Edge, Networkx, IsTopological, Laws}

pub record Arc : Type 0 where
  pub source : ℕ
  pub target : ℕ
  pub attributes : Edge

pub record Sample : Type 0 where
  pub nodes : List ℕ
  pub arcs : List Arc

mem : ℕ → List ℕ → Bool
mem x [] = false
mem x (y ∷ ys) = y == x || mem x ys

mem-Member : (x : ℕ) (ys : List ℕ) → mem x ys ≡ true → Member x ys
unfolding mem
mem-Member x [] h = cc
mem-Member x (y ∷ ys) h = elim (Bool-cases (y == x)) [
  | inl same ↦ inl (==_to_eq y x same)
  | inr other ↦ inr (mem-Member x ys (ground arith))
]

Member-mem : (x : ℕ) (ys : List ℕ) → Member x ys → mem x ys ≡ true
unfolding mem
Member-mem x [] m = elim m [ ]
Member-mem x (y ∷ ys) m = elim m [
  | inl here ↦ ground (arith, here)
  | inr later ↦ ground (arith, Member-mem x ys later)
]

pub arc_edge : List Arc → ℕ → ℕ → Option Edge
arc_edge [] u v = none
arc_edge (a ∷ arcs) u v =
    if a.source == u && a.target == v then some a.attributes else arc_edge arcs u v

pub sources : List Arc → ℕ → List ℕ
sources [] v = []
sources (a ∷ arcs) v = if a.target == v then a.source ∷ sources arcs v else sources arcs v

pub targets : List Arc → ℕ → List ℕ
targets [] u = []
targets (a ∷ arcs) u = if a.source == u then a.target ∷ targets arcs u else targets arcs u

-- No source of an arc into `x` stands in the list.
free_of : List Arc → ℕ → List ℕ → Bool
unfolding mem
free_of [] x o = true
free_of (a ∷ arcs) x o = not (a.target == x && mem a.source o) && free_of arcs x o

checked : List Arc → List ℕ → Bool
unfolding free_of
checked arcs [] = true
checked arcs (x ∷ o) = not (mem x o) && (free_of arcs x (x ∷ o) && checked arcs o)

covered : List Arc → List ℕ → Bool
unfolding mem
covered [] o = true
covered (a ∷ arcs) o = (mem a.source o && mem a.target o) && covered arcs o

within : List ℕ → List ℕ → Bool
unfolding mem
within [] ns = true
within (x ∷ o) ns = mem x ns && within o ns

-- The first node left with no source left, and the nodes but for it.
pick : List Arc → List ℕ → List ℕ → Option ℕ
unfolding free_of
pick arcs left [] = none
pick arcs left (x ∷ xs) = if free_of arcs x left then some x else pick arcs left xs

remove : ℕ → List ℕ → List ℕ
remove x [] = []
remove x (y ∷ ys) = if y == x then remove x ys else y ∷ remove x ys

kahn : ℕ → List Arc → List ℕ → List ℕ
unfolding pick remove
kahn zero arcs left = []
kahn (suc n) arcs left = elim (pick arcs left left) [
  | none ↦ []
  | some x ↦ x ∷ kahn n arcs (remove x left)
]

is_order : Sample → List ℕ → Bool
unfolding checked covered within
is_order g o = checked g.arcs o && (covered g.arcs o && within o g.nodes)

pub sample_sort : Sample → Option (List ℕ)
unfolding is_order kahn
sample_sort g =
    let o = kahn (length g.nodes) g.arcs g.nodes in if is_order g o then some o else none

left_of : List ℕ → List ℕ → List ℕ
unfolding mem
left_of o [] = []
left_of o (x ∷ xs) = if mem x o then left_of o xs else x ∷ left_of o xs

first_in : List ℕ → List ℕ → ℕ → ℕ
unfolding mem
first_in left [] x = x
first_in left (p ∷ ps) x = if mem p left then p else first_in left ps x

-- The edges up to the first that leads to `p`.
up_to : ℕ → List (ℕ × ℕ) → List (ℕ × ℕ)
up_to p [] = []
up_to p (e ∷ es) = if e.1 == p then e ∷ [] else e ∷ up_to p es

comes_to : ℕ → List (ℕ × ℕ) → Bool
comes_to p [] = false
comes_to p (e ∷ es) = e.1 == p || comes_to p es

-- From `x` back to a source that is left, until a node comes twice.
walk_back : ℕ → List Arc → List ℕ → ℕ → List (ℕ × ℕ) → List (ℕ × ℕ)
unfolding sources first_in up_to comes_to
walk_back zero arcs left x es = es
walk_back (suc n) arcs left x es =
    let p = first_in left (sources arcs x) x in
    let longer = (p, x) ∷ es in
    let further = walk_back n arcs left p longer in
    if comes_to p longer then up_to p longer else further

walk_from : ℕ → List Arc → List ℕ → List (ℕ × ℕ)
unfolding walk_back
walk_from n arcs [] = []
walk_from n arcs (x ∷ xs) = walk_back n arcs (x ∷ xs) x []

-- The nodes that no order covers each have a source among them, so there is a cycle behind each.
pub sample_cycle : Sample → Option (List (ℕ × ℕ))
unfolding walk_from left_of kahn sample_sort
sample_cycle g = elim (sample_sort g) [
  | some o ↦ none
  | none ↦
      some
        (walk_from (length g.nodes) g.arcs (left_of (kahn (length g.nodes) g.arcs g.nodes) g.nodes))
]

pub add : ℕ → List ℕ → List ℕ
unfolding mem
add x ns = if mem x ns then ns else x ∷ ns

abbrev pub sample : Networkx
sample = record {
  Graph = Sample;
  new = record { nodes = []; arcs = [] };
  nodes = λ g. g.nodes;
  add_node = λ g n d. record g { nodes = add n g.nodes };
  add_edge = λ g u v e. record {
    nodes = add u (add v g.nodes);
    arcs = record { source = u; target = v; attributes = e } ∷ g.arcs;
  };
  edges = λ g. arc_edge g.arcs;
  predecessors = λ g. sources g.arcs;
  successors = λ g. targets g.arcs;
  find_cycle = sample_cycle;
  topological_sort = sample_sort;
}

-- What a test unfolds to run the package.
unfoldable pub program : Unit {0}
unfolding arc_edge sources targets sample_sort sample_cycle add
program = tt

nodes-add : (n x : ℕ) (ns : List ℕ) → Member x (add n ns) → (n ≡ x) ⊎ Member x ns
unfolding add
nodes-add n x ns m = elim (Bool-cases (mem n ns)) [
  | inl old ↦ inr (rw (old, add) at m)
  | inr new ↦ rw (new, add) at m
]

edges_cases :
    (a : Arc) (arcs : List Arc) (u v : ℕ) (e : Edge)
    → arc_edge (a ∷ arcs) u v ≡ some e
    → (a.source ≡ u) × (a.target ≡ v) ⊎ (arc_edge arcs u v ≡ some e)
unfolding arc_edge
edges_cases a arcs u v e h = ground arith

sources_of_edge :
    (arcs : List Arc) (u v : ℕ) (e : Edge) → arc_edge arcs u v ≡ some e → Member u (sources arcs v)
unfolding arc_edge sources
sources_of_edge [] u v e h = cc
sources_of_edge (a ∷ arcs) u v e h = ground (arith, sources_of_edge arcs u v e)

edge_of_sources : (arcs : List Arc) (u v : ℕ) → Member u (sources arcs v) → arc_edge arcs u v ≢ none
unfolding arc_edge sources
edge_of_sources [] u v m h = elim m [ ]
edge_of_sources (a ∷ arcs) u v m h = ground (arith, edge_of_sources arcs u v)

targets_of_edge :
    (arcs : List Arc) (u v : ℕ) (e : Edge) → arc_edge arcs u v ≡ some e → Member v (targets arcs u)
unfolding arc_edge targets
targets_of_edge [] u v e h = cc
targets_of_edge (a ∷ arcs) u v e h = ground (arith, targets_of_edge arcs u v e)

edge_of_targets : (arcs : List Arc) (u v : ℕ) → Member v (targets arcs u) → arc_edge arcs u v ≢ none
unfolding arc_edge targets
edge_of_targets [] u v m h = elim m [ ]
edge_of_targets (a ∷ arcs) u v m h = ground (arith, edge_of_targets arcs u v)

free_of_sound :
    (arcs : List Arc) (x p : ℕ) (e : Edge) (o : List ℕ)
    → free_of arcs x o ≡ true
    → arc_edge arcs p x ≡ some e
    → ¬ Member p o
unfolding free_of arc_edge
free_of_sound [] x p e o h edge m = cc
free_of_sound (a ∷ arcs) x p e o h edge m =
    ground (arith, free_of_sound arcs x p e o, Member-mem p o m)

checked_sound :
    (arcs : List Arc) (o : List ℕ) (ns : List ℕ)
    → checked arcs o ≡ true
    → IsTopological sample (record { nodes = ns; arcs = arcs }) o
unfolding checked program
checked_sound arcs [] ns h = tt
checked_sound arcs (x ∷ o) ns h = (
  λ m. ground (arith, Member-mem x o m),
  λ p e edge. free_of_sound arcs x p e (x ∷ o) (ground arith) edge,
  checked_sound arcs o ns (ground arith),
)

covered_sound :
    (arcs : List Arc) (o : List ℕ) (u v : ℕ) (e : Edge)
    → covered arcs o ≡ true
    → arc_edge arcs u v ≡ some e
    → (mem u o ≡ true) × (mem v o ≡ true)
unfolding covered arc_edge
covered_sound [] o u v e h edge = cc
covered_sound (a ∷ arcs) o u v e h edge = ground (arith, covered_sound arcs o u v e)

within_sound : (o ns : List ℕ) (x : ℕ) → within o ns ≡ true → Member x o → mem x ns ≡ true
unfolding within
within_sound [] ns x h m = elim m [ ]
within_sound (y ∷ o) ns x h m = ground (arith, within_sound o ns x)

sample_sort-order : (g : Sample) (o : List ℕ) → sample_sort g ≡ some o → is_order g o ≡ true
unfolding sample_sort
sample_sort-order g o h = elim (Bool-cases (is_order g (kahn (length g.nodes) g.arcs g.nodes))) [
  | inl fine ↦ ground arith
  | inr bad ↦ ground arith
]

no_cycle_sorts : (g : Sample) → sample_cycle g ≡ none → (o : List ℕ) × (sample_sort g ≡ some o)
unfolding sample_cycle
no_cycle_sorts g h = elim (Option-cases (sample_sort g)) [
  | inl unsorted ↦ let found = rw (sample_cycle, unsorted) at h in cc
  | inr found ↦ found
]

nodes-add_two :
    (a b x : ℕ) (ns : List ℕ) → Member x (add a (add b ns)) → (a ≡ x) ⊎ (b ≡ x) ⊎ Member x ns
nodes-add_two a b x ns m = elim (nodes-add a x (add b ns) m) [
  | inl first ↦ inl first
  | inr rest ↦ inr (nodes-add b x ns rest)
]

module _ (g : Sample) (o : List ℕ) (sorted : sample_sort g ≡ some o) where
  order_checks : (checked g.arcs o ≡ true) × (covered g.arcs o ≡ true) × (within o g.nodes ≡ true)
  unfolding is_order
  order_checks = let fine = sample_sort-order g o sorted in ground arith

  sample-IsTopological : IsTopological sample g o
  sample-IsTopological = checked_sound g.arcs o g.nodes order_checks.0

  sample_covers : (u v : ℕ) (e : Edge) → arc_edge g.arcs u v ≡ some e → Member u o × Member v o
  sample_covers u v e edge =
      let (left, right) = covered_sound g.arcs o u v e order_checks.1 edge in
      (mem-Member u o left, mem-Member v o right)

  sample_nodes : (x : ℕ) → Member x o → Member x g.nodes
  sample_nodes x m = mem-Member x g.nodes (within_sound o g.nodes x order_checks.2 m)

pub sample-Laws : Laws sample
unfolding arc_edge
sample-Laws = record {
  nodes-new = λ x m. elim m [ ];
  nodes-add_node = λ g n d x m. nodes-add n x g.nodes m;
  nodes-add_edge = λ g a b e x m. nodes-add_two a b x g.nodes m;
  edges-new = λ u v. refl;
  edges-add_node = λ g n d u v. refl;
  edges-add_edge = λ g a b e u v. refl;
  predecessors_of_edge = λ g u v e h. sources_of_edge g.arcs u v e h;
  edge_of_predecessors = λ g u v m. edge_of_sources g.arcs u v m;
  successors_of_edge = λ g u v e h. targets_of_edge g.arcs u v e h;
  edge_of_successors = λ g u v m. edge_of_targets g.arcs u v m;
  order_topological = sample-IsTopological;
  order_covers = λ g o u v e h. sample_covers g o h u v e;
  order_nodes = λ g o x h. sample_nodes g o h x;
  acyclic_sorts = no_cycle_sorts;
}
