-- ===== src/Cpm.antt =====
-- services/cpm.py: the critical path engine. An engine's dictionaries are `Dict`s, a UUID is a
-- number, and a method is a state-and-exception action on `self.results`: the state reached so
-- far is kept when a method raises.
mod Passes
mod Initial
mod Late
mod Backward
mod Floats
mod Run
mod Dates
mod Finish
mod Schedule
mod Slack
mod Calculate
mod Total
mod Success
mod Cycles
mod CriticalPath
mod Report
mod Build
mod Tests
mod Forward
mod Feasible
mod Early
use defense_pm_tool.Prelude.{
  ℕ, Option, none, some, List, [], ◌∷◌, Bool, if◌then◌else◌, foldl, map, reverse,
}
use defense_pm_tool.Prelude.Int.{ℤ, pos, ◌+ℤ◌, ◌-ℤ◌, max_ℤ, min_ℤ, eqb_ℤ, leb_ℤ}
use defense_pm_tool.Prelude.Dict.{Dict, keys, values, lookup, insert}
use defense_pm_tool.Networkx.{Networkx, Edge, EdgeType, fs, ss, ff, sf, other}

-- The columns of models/activity.py and models/dependency.py that the engine reads.
pub record Activity : Type 0 where
  pub id : ℕ
  pub duration : ℤ

pub record Dependency : Type 0 where
  pub predecessor_id : ℕ
  pub successor_id : ℕ
  pub dependency_type : EdgeType
  pub lag : ℤ

pub record ScheduleResult : Type 0 where
  pub activity_id : ℕ
  pub early_start : ℤ
  pub early_finish : ℤ
  pub late_start : ℤ
  pub late_finish : ℤ
  pub total_float : ℤ
  pub free_float : ℤ

unfoldable pub is_critical : ScheduleResult → Bool
is_critical r = eqb_ℤ r.total_float (pos 0)

pub data Error : Type 0 where
  circular_dependency : List ℕ → Error
  schedule_calculation : Error
  networkx_unfeasible : Error
  key_error : ℕ → Error
  value_error : Error
  index_error : Error

pub data Outcome (A : Type 0) : Type 0 where
  ok : A → Outcome A
  raise : Error → Outcome A

abbrev pub Results : Type 0
Results = Dict ScheduleResult

abbrev pub Action : Type 0 → Type 0
Action A = Results → Outcome A × Results

infixl 5 ◌>>=◌ ◌>>◌
abbrev pub ◌>>=◌ : {A B : Type 0} → Outcome A → (A → Outcome B) → Outcome B
ok a >>= f = f a
raise e >>= f = raise e

abbrev pub ◌>>◌ : {A B : Type 0} → Action A → Action B → Action B
◌>>◌ m k R = let (o, R') = m R in elim o [ ok _ ↦ k R' | raise e ↦ (raise e, R') ]

abbrev pub item : {V : Type 0} → ℕ → Option V → Outcome V
item k (some v) = ok v
item k none = raise (key_error k)

-- A loop that gives one entry of `self.results` anew for each number.
unfoldable pub update : (ℕ → Results → Outcome ScheduleResult) → List ℕ → Action Unit
update f [] R = (ok tt, R)
update f (x ∷ xs) R = elim (f x R) [ ok r ↦ update f xs (insert x r R) | raise e ↦ (raise e, R) ]

-- The `match dep_type` of `_forward_pass`: the start that one dependency asks of a successor.
unfoldable pub earliest : EdgeType → ℤ → ℤ → ℤ → ℤ → ℤ
earliest fs lag start finish duration = finish +ℤ lag
earliest ss lag start finish duration = start +ℤ lag
earliest ff lag start finish duration = finish +ℤ lag -ℤ duration
earliest sf lag start finish duration = start +ℤ lag -ℤ duration
earliest other lag start finish duration = finish +ℤ lag

-- The `match dep_type` of `_backward_pass`: the finish that one dependency leaves a predecessor.
unfoldable pub latest : EdgeType → ℤ → ℤ → ℤ → ℤ → ℤ
latest fs lag start finish duration = start -ℤ lag
latest ss lag start finish duration = start -ℤ lag +ℤ duration
latest ff lag start finish duration = finish -ℤ lag
latest sf lag start finish duration = finish -ℤ lag +ℤ duration
latest other lag start finish duration = start -ℤ lag

-- `max(r.early_finish for r in ...)`, which raises on no entry.
unfoldable pub greatest : ℤ → List ScheduleResult → ℤ
greatest m rs = foldl (λ n r. max_ℤ n r.early_finish) m rs

unfoldable pub max_of : List ScheduleResult → Outcome ℤ
unfolding greatest
max_of [] = raise value_error
max_of (r ∷ rs) = ok (greatest r.early_finish rs)

unfoldable pub max_finish : Results → Outcome ℤ
unfolding max_of
max_finish R = max_of (values R)

-- `[edge[0] for edge in cycle] + [cycle[-1][1]]`
unfoldable pub cycle_path : List (ℕ × ℕ) → Outcome (List ℕ)
cycle_path [] = raise index_error
cycle_path ((u, v) ∷ []) = ok (u ∷ v ∷ [])
cycle_path ((u, v) ∷ e ∷ es) = do rest ← cycle_path (e ∷ es); ok (u ∷ rest)

-- `list.sort` by the second component, which is stable.
unfoldable pub sort_insert : ℕ × ℤ → List (ℕ × ℤ) → List (ℕ × ℤ)
sort_insert a [] = a ∷ []
sort_insert a (b ∷ l) = if leb_ℤ a.1 b.1 then a ∷ b ∷ l else b ∷ sort_insert a l

unfoldable pub sort : List (ℕ × ℤ) → List (ℕ × ℤ)
unfolding sort_insert
sort [] = []
sort (a ∷ l) = sort_insert a (sort l)

unfoldable pub critical_starts : Results → List (ℕ × ℤ)
critical_starts [] = []
critical_starts ((k, r) ∷ R) =
    if is_critical r then (k, r.early_start) ∷ critical_starts R else critical_starts R

unfoldable pub index : List Activity → Dict Activity
index activities = foldl (λ d a. insert a.id a d) [] activities

unfoldable pub fresh : ℕ → Activity → ScheduleResult
fresh k a = record {
  activity_id = k;
  early_start = pos 0;
  early_finish = a.duration;
  late_start = pos 0;
  late_finish = pos 0;
  total_float = pos 0;
  free_float = pos 0;
}

unfoldable pub initial : Dict Activity → Results → Results
unfolding fresh
initial [] R = R
initial ((k, a) ∷ d) R = initial d (insert k (fresh k a) R)

-- One round of the loop for the free float; `none` is the float infinity.
unfoldable pub nearer : Edge → ScheduleResult → Option ℤ → Option ℤ
nearer e r m = elim e.dependency_type [
  | fs ↦ some (elim m [ none ↦ r.early_start -ℤ e.lag | some b ↦ min_ℤ b (r.early_start -ℤ e.lag) ])
  | _ ↦ m
]

module _ (nx : Networkx) where
  open nx use {
    Graph, new, add_node, add_edge, edges, predecessors, successors, find_cycle, topological_sort,
  }

  pub record Engine : Type 0 where
    pub activities : Dict Activity
    pub graph : Graph

  abbrev pub with_edges : Graph → List Dependency → Graph
  with_edges g deps =
      foldl
        (λ h dep.
          add_edge h dep.predecessor_id dep.successor_id
            (record { dependency_type = dep.dependency_type; lag = dep.lag }))
        g deps

  unfoldable pub build_graph : Dict Activity → List Dependency → Graph
  build_graph activities deps =
      with_edges (foldl (λ g entry. add_node g entry.0 entry.1.duration) new activities) deps

  -- `CPMEngine.__init__`; `self.results` starts empty.
  unfoldable pub engine : List Activity → List Dependency → Engine
  unfolding index build_graph
  engine activities deps = record {
    activities = index activities;
    graph = build_graph (index activities) deps;
  }

module _ (nx : Networkx) (activities : Dict Activity) (graph : nx.Graph) where
  open nx use {Graph, edges, predecessors, successors, find_cycle, topological_sort}

  -- The loop over the predecessors of `x`.
  unfoldable pub max_es : ℕ → ℤ → List ℕ → ℤ → Results → Outcome ℤ
  max_es x duration [] m R = ok m
  max_es x duration (p ∷ ps) m R = do
    e ← item p (edges graph p x)
    r ← item p (lookup p R)
    max_es x duration ps
        (max_ℤ m (earliest e.dependency_type e.lag r.early_start r.early_finish duration)) R

  unfoldable pub forward_visit : ℕ → Results → Outcome ScheduleResult
  forward_visit x R = do
    activity ← item x (lookup x activities)
    m ← max_es x activity.duration (predecessors graph x) (pos 0) R
    r ← item x (lookup x R)
    ok (record r {
      early_start = max_ℤ (pos 0) m;
      early_finish = max_ℤ (pos 0) m +ℤ activity.duration;
    })

  unfoldable pub forward_pass : Action Unit
  forward_pass R =
      let R' = initial activities R in
      elim (topological_sort graph) [
        | none ↦ (raise schedule_calculation, R')
        | some order ↦ update forward_visit order R'
      ]

  -- The first loop of `_backward_pass`, for one entry. The entry's `activity_id` is its key.
  unfoldable pub late_initial : ℤ → ℕ → Results → Outcome ScheduleResult
  late_initial project_end k R = do
    r ← item k (lookup k R)
    activity ← item r.activity_id (lookup r.activity_id activities)
    ok (record r { late_finish = project_end; late_start = project_end -ℤ activity.duration })

  -- The loop over the successors of `x`.
  unfoldable pub min_lf : ℕ → ℤ → List ℕ → ℤ → Results → Outcome ℤ
  min_lf x duration [] m R = ok m
  min_lf x duration (s ∷ rest) m R = do
    e ← item s (edges graph x s)
    r ← item s (lookup s R)
    min_lf x duration rest
        (min_ℤ m (latest e.dependency_type e.lag r.late_start r.late_finish duration)) R

  unfoldable pub backward_visit : ℕ → Results → Outcome ScheduleResult
  backward_visit x R = do
    activity ← item x (lookup x activities)
    r ← item x (lookup x R)
    m ← min_lf x activity.duration (successors graph x) r.late_finish R
    ok (record r { late_finish = m; late_start = m -ℤ activity.duration })

  unfoldable pub backward_order : Action Unit
  backward_order R = elim (topological_sort graph) [
    | none ↦ (raise networkx_unfeasible, R)
    | some order ↦ update backward_visit (reverse order) R
  ]

  unfoldable pub backward_pass : Action Unit
  backward_pass R = elim (max_finish R) [
    | raise e ↦ (raise e, R)
    | ok project_end ↦ (update (late_initial project_end) (keys R) >> backward_order) R
  ]

  unfoldable pub min_successor_es : ℕ → List ℕ → Option ℤ → Results → Outcome (Option ℤ)
  min_successor_es x [] m R = ok m
  min_successor_es x (s ∷ rest) m R = do
    e ← item s (edges graph x s)
    r ← item s (lookup s R)
    min_successor_es x rest (nearer e r m) R

  unfoldable pub float_visit : ℕ → Results → Outcome ScheduleResult
  float_visit x R = do
    r ← item x (lookup x R)
    m ← min_successor_es x (successors graph x) none R
    let total = r.late_start -ℤ r.early_start
    ok (record r {
      total_float = total;
      free_float = elim m [ none ↦ total | some b ↦ b -ℤ r.early_finish ];
    })

  unfoldable pub calculate_float : Action Unit
  calculate_float R = update float_visit (keys R) R

  unfoldable pub calculate : Action Unit
  calculate R = elim (find_cycle graph) [
    | some cycle ↦ elim (cycle_path cycle) [
      | ok path ↦ (raise (circular_dependency path), R)
      | raise e ↦ (raise e, R)
    ]
    | none ↦ (forward_pass >> backward_pass >> calculate_float) R
  ]

  abbrev pub ensure_calculated : Action Unit
  ensure_calculated [] = calculate []
  ensure_calculated (entry ∷ R) = (ok tt, entry ∷ R)

  unfoldable pub get_critical_path : Action (List ℕ)
  get_critical_path = ensure_calculated >> λ R. (ok (map (λ a. a.0) (sort (critical_starts R))), R)

  unfoldable pub get_project_duration : Action ℤ
  get_project_duration = ensure_calculated >> λ R. (max_finish R, R)
