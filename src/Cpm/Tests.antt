-- ===== src/Cpm/Tests.antt =====
-- services/cpm.py on a small schedule: design (5 days), build (3), document (2) and release (0).
use defense_pm_tool.Prelude.{
  ℕ, ◌≡◌, ◌≢◌, ◌↔◌, refl, sym, ◌∙◌, subst, some_inj, none, some, List, [], ◌∷◌, arith, All, Member,
}
use defense_pm_tool.Prelude.Int.{ℤ, pos, negsuc, ◌+ℤ◌, ◌-ℤ◌, ◌≤ℤ◌, max_ℤ, min_ℤ}
use defense_pm_tool.Prelude.Dict.{lookup, insert, values}
use defense_pm_tool.Networkx.{IsCycle, EdgeType, fs, ss, ff, sf}
use defense_pm_tool.Networkx.Sample.{sample, sample-Laws, program}
use defense_pm_tool.Cpm.{
  Activity, Dependency, Results, ScheduleResult, ok, raise, circular_dependency, Engine, engine,
  build_graph, calculate, get_critical_path, get_project_duration, forward_pass, backward_pass,
  backward_order, calculate_float, forward_visit, backward_visit, float_visit, late_initial, max_es,
  min_lf, min_successor_es, nearer, earliest, latest, initial, fresh, update, max_finish, greatest,
  critical_starts, is_critical, sort, cycle_path,
}
use defense_pm_tool.Cpm.Initial.{IsDict, index-IsDict, edges-build_graph}
use defense_pm_tool.Cpm.Feasible.{IsFeasible, earliest-latest_iff}
use defense_pm_tool.Cpm.Schedule.{early_start_in, late_start_in}
use defense_pm_tool.Cpm.Calculate.{
  calculate-IsFeasible, calculate_earliest, calculate_late_meets, calculate_latest, calculate_dates,
  calculate_critical,
}
use defense_pm_tool.Cpm.CriticalPath.{IsAscending, Critical}
use defense_pm_tool.Cpm.Report.{get_critical_path-exact, get_project_duration-exact}
use defense_pm_tool.Cpm.Cycles.{IsClosed, calculate_cycle}
use defense_pm_tool.Cpm.Build.{AllKnown, engine_calculates}

abbrev act : ℕ → ℕ → Activity
act id days = record { id = id; duration = pos days }

abbrev dep : ℕ → ℕ → EdgeType → ℤ → Dependency
dep p s t lag = record { predecessor_id = p; successor_id = s; dependency_type = t; lag = lag }

abbrev acts : List Activity
acts = act 2 3 ∷ act 1 5 ∷ act 3 2 ∷ act 4 0 ∷ []

abbrev deps : List Dependency
deps = dep 1 2 fs (pos 0) ∷ dep 1 3 ss (pos 1) ∷ dep 2 4 fs (negsuc 0) ∷ dep 3 4 ff (pos 2) ∷ []

-- What a test unfolds to run the engine on the sample package.
engine_program : Unit {0}
unfolding program engine calculate get_critical_path get_project_duration forward_pass backward_pass
    backward_order calculate_float forward_visit backward_visit float_visit late_initial max_es
    min_lf min_successor_es nearer earliest latest initial fresh update max_finish greatest lookup
    insert ◌+ℤ◌ ◌-ℤ◌ max_ℤ min_ℤ critical_starts is_critical sort cycle_path
engine_program = tt

abbrev start : Engine sample
start = engine sample acts deps

abbrev row : ℕ → (es ef ls lf total free : ℤ) → ℕ × ScheduleResult
row k es ef ls lf total free = (
  k,
  record {
    activity_id = k;
    early_start = es;
    early_finish = ef;
    late_start = ls;
    late_finish = lf;
    total_float = total;
    free_float = free;
  },
)

abbrev results : Results
results =
    row 2 (pos 5) (pos 8) (pos 5) (pos 8) (pos 0) (pos 0)
    ∷ row 1 (pos 0) (pos 5) (pos 0) (pos 5) (pos 0) (pos 0)
    ∷ row 3 (pos 1) (pos 3) (pos 4) (pos 6) (pos 3) (pos 3)
    ∷ row 4 (pos 7) (pos 7) (pos 8) (pos 8) (pos 1) (pos 1)
    ∷ []

done : calculate sample start.activities start.graph [] ≡ (ok tt, results)
unfolding engine_program
done = refl

unique : IsDict start.activities
unfolding engine_program
unique = index-IsDict acts

calculate-IsFeasible_example :
    IsFeasible sample start.activities start.graph (early_start_in results)
calculate-IsFeasible_example =
    calculate-IsFeasible sample sample-Laws start.activities start.graph unique done

row_2 : lookup 2 results ≡ some (row 2 (pos 5) (pos 8) (pos 5) (pos 8) (pos 0) (pos 0)).1
unfolding lookup
row_2 = refl

row_3 : lookup 3 results ≡ some (row 3 (pos 1) (pos 3) (pos 4) (pos 6) (pos 3) (pos 3)).1
unfolding lookup
row_3 = refl

calculate_earliest_example : pos 5 ≤ℤ early_start_in results 2
calculate_earliest_example =
    calculate_earliest sample sample-Laws start.activities start.graph unique done
      (early_start_in results) 2 (row 2 (pos 5) (pos 8) (pos 5) (pos 8) (pos 0) (pos 0)).1
      calculate-IsFeasible_example row_2

edge_1_3 : sample.edges start.graph 1 3 ≡ some (record { dependency_type = ss; lag = pos 1 })
unfolding engine_program
edge_1_3 = refl

known_1 : lookup 1 start.activities ≡ some (act 1 5)
unfolding engine_program
known_1 = refl

known_3 : lookup 3 start.activities ≡ some (act 3 2)
unfolding engine_program
known_3 = refl

calculate_late_meets_example :
    earliest ss (pos 1) (late_start_in results 1) (late_start_in results 1 +ℤ pos 5) (pos 2)
    ≤ℤ late_start_in results 3
calculate_late_meets_example =
    calculate_late_meets sample sample-Laws start.activities start.graph unique done 1 3
      (record { dependency_type = ss; lag = pos 1 }) (act 1 5) (act 3 2) edge_1_3 known_1 known_3

calculate_dates_example :
    let r = (row 3 (pos 1) (pos 3) (pos 4) (pos 6) (pos 3) (pos 3)).1 in
    (a : Activity) × (lookup 3 start.activities ≡ some a)
    × (r.early_finish ≡ r.early_start +ℤ a.duration)
    × (r.late_finish ≡ r.late_start +ℤ a.duration)
    × (r.total_float ≡ r.late_start -ℤ r.early_start)
    × (pos 0 ≤ℤ r.early_start)
    × (pos 0 ≤ℤ r.total_float)
calculate_dates_example =
    calculate_dates sample sample-Laws start.activities start.graph unique done 3
      (row 3 (pos 1) (pos 3) (pos 4) (pos 6) (pos 3) (pos 3)).1 row_3

calculate_critical_example :
    (k : ℕ) × (r : ScheduleResult) × (lookup k results ≡ some r)
    × (r.total_float ≡ pos 0)
    × All (λ q. q.late_finish ≤ℤ r.early_finish) (values results)
calculate_critical_example =
    calculate_critical sample sample-Laws start.activities start.graph unique done

get_critical_path-exact_example :
    (path : List ℕ) × (get_critical_path sample start.activities start.graph []
      ≡ (ok path, results))
    × ((k : ℕ) → Member k path ↔ Critical results k)
    × IsAscending (early_start_in results) path
    × (path ≢ [])
get_critical_path-exact_example =
    get_critical_path-exact sample sample-Laws start.activities start.graph unique done

get_project_duration-exact_example :
    (d : ℤ) × (get_project_duration sample start.activities start.graph [] ≡ (ok d, results))
    × All (λ r. r.early_finish ≤ℤ d) (values results)
    × ((k : ℕ) × (r : ScheduleResult) × (lookup k results ≡ some r) × (r.early_finish ≡ d))
get_project_duration-exact_example =
    get_project_duration-exact sample sample-Laws start.activities start.graph unique done

no_cycle : sample.find_cycle start.graph ≡ none
unfolding engine_program
no_cycle = refl

all_known : AllKnown start.activities deps
unfolding engine_program
all_known = (
  ((act 1 5, refl), (act 2 3, refl)),
  (
    ((act 1 5, refl), (act 3 2, refl)),
    (((act 2 3, refl), (act 4 0, refl)), (((act 3 2, refl), (act 4 0, refl)), tt)),
  ),
)

engine_calculates_example :
    (R : Results) × (calculate sample start.activities start.graph [] ≡ (ok tt, R))
engine_calculates_example =
    engine_calculates sample sample-Laws (act 2 3) (act 1 5 ∷ act 3 2 ∷ act 4 0 ∷ []) deps all_known
      no_cycle

looped : Engine sample
looped = engine sample acts (dep 2 1 fs (pos 0) ∷ deps)

looped_cycle : sample.find_cycle looped.graph ≡ some ((1, 2) ∷ (2, 1) ∷ [])
unfolding looped engine_program
looped_cycle = refl

looped_edges : (sample.edges looped.graph 1 2 ≢ none) × (sample.edges looped.graph 2 1 ≢ none)
unfolding looped engine_program
looped_edges = (λ e. cc, λ e. cc)

looped_closes :
    (cycle : List (ℕ × ℕ))
    → sample.find_cycle looped.graph ≡ some cycle
    → IsCycle sample looped.graph cycle
looped_closes cycle found =
    subst (IsCycle sample looped.graph) (some_inj (sym looped_cycle ∙ found))
      (1, (λ e. cc), (refl, looped_edges.0, (refl, looped_edges.1, refl)))

calculate_cycle_example :
    (v : ℕ) × (path : List ℕ) × IsClosed sample looped.graph v path
    × (calculate sample looped.activities looped.graph []
        ≡ (raise (circular_dependency (v ∷ path)), []))
calculate_cycle_example =
    calculate_cycle sample sample-Laws looped.activities looped.graph [] looped_closes 1
      (2 ∷ 1 ∷ []) ((λ e. cc), (looped_edges.0, (looped_edges.1, refl)))

-- Two dependencies between the same activities: the second replaces the first.
edges-build_graph_example :
    sample.edges
      (build_graph sample start.activities (dep 1 2 fs (pos 0) ∷ dep 1 2 ff (pos 4) ∷ []))
      1
      2
    ≡ some (record { dependency_type = ff; lag = pos 4 })
edges-build_graph_example =
    edges-build_graph sample sample-Laws start.activities
      (dep 1 2 fs (pos 0) ∷ dep 1 2 ff (pos 4) ∷ []) 1 2

earliest-latest_iff_example :
    (earliest sf (pos 2) (pos 3) (pos 3 +ℤ pos 4) (pos 1) ≤ℤ pos 4)
    ↔ (pos 3 +ℤ pos 4 ≤ℤ latest sf (pos 2) (pos 4) (pos 4 +ℤ pos 1) (pos 4))
earliest-latest_iff_example = earliest-latest_iff sf (pos 2) (pos 3) (pos 4) (pos 4) (pos 1)

early_over :
    (i : ℕ) (a : Activity)
    → lookup i start.activities ≡ some a
    → early_start_in results i +ℤ a.duration ≤ℤ pos 8
unfolding early_start_in engine_program
early_over i a known = ground arith

calculate_latest_example : early_start_in results 3 ≤ℤ pos 4
calculate_latest_example =
    calculate_latest sample sample-Laws start.activities start.graph unique done
      (early_start_in results) 2 (row 2 (pos 5) (pos 8) (pos 5) (pos 8) (pos 0) (pos 0)).1 3
      (row 3 (pos 1) (pos 3) (pos 4) (pos 6) (pos 3) (pos 3)).1 calculate-IsFeasible_example row_2
      early_over row_3
