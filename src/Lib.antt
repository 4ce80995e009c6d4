-- ===== src/Lib.antt =====
-- defense-pm-tool: the scheduling, earned-value and material core of a program-management
-- service.
--
-- The program keeps activities and the dependencies between them, computes their dates by the
-- critical path method, measures cost and progress by earned value, tracks materials, computes
-- the load of resources and levels it, compares with baselines, reports variances and applies
-- scenarios, under rules for roles, statuses and constraints. The load feeds the detection of
-- overallocations and the levelling; otherwise the services share the enumerations and the
-- amounts, and meet only in the database.
--
-- Cpm models api/src/services/cpm.py. `Engine` is CPMEngine's `activities` and `graph`; its
-- `results` are the state that `calculate`, `get_critical_path` and `get_project_duration` pass
-- on (`Action`): what a method has written before it raises stays written, as in Python, and
-- the dictionary that `calculate` returns is that state. `forward_pass`, `backward_pass` and
-- `calculate_float` are _forward_pass, _backward_pass and _calculate_float; the body of each
-- loop is a `_visit`, and the nested loops over predecessors and successors are `max_es`,
-- `min_lf` and `min_successor_es`. A dictionary that is read at a missing key raises
-- `key_error`, `max` of nothing raises `value_error`. A UUID is a number, a Python integer is a
-- ℤ, and the `float("inf")` of the free float is `none`. The child modules prove, in this
-- order: what a pass does to each entry (Passes), the setup (Initial), the early dates (Early,
-- Forward), the late dates (Late, Backward), the floats (Floats), the run as a whole (Run,
-- Dates, Finish, Slack, Schedule, Calculate), that it succeeds (Total, Success, Build), cycles
-- (Cycles) and the reports (CriticalPath, Report). All loops recurse on their list, so there is
-- no fuel.
--
-- Networkx is the interface of the package networkx, which is not part of the repository: a
-- record of the calls that cpm.py makes and a record of laws for what the engine relies on: the
-- edges after a call that adds a node or an edge, neighbours as the ends of edges, and that a
-- topological sort, where there is no cycle, lists every node once and after its predecessors.
-- A cycle that is found is a chain of edges from a node back to it (`IsCycle`). Networkx/Sample
-- gives a concrete instance and proves the laws of it.
--
-- Enums models the types of api/src/models/enums.py with their predicates (Role, Program,
-- Dependency, Constraint, Activity, Resource), and calculate_successor_constraint, has_lag and
-- has_lead of api/src/models/dependency.py.
--
-- Decimal models Python's decimal.Decimal as exact fractions, with quantize to two places; Evms
-- models api/src/services/evms.py over it: `calculate_earned_value`, the variances and indices,
-- `calculate_all_metrics`, and the estimates at completion, one definition for each
-- `_eac_..._method` and `calculate_eac_advanced` and `calculate_all_eac_methods`, which choose
-- among them. An exception is an `Outcome`. The source computes quotients to 28 digits and
-- compares a float of the percentage complete; both are exact in the model. Evms/Balance is
-- about the estimates, Evms/Methods about which methods apply, and Evms/Earned about earned
-- value and the metrics. EvMethods models api/src/services/ev_methods.py, `calculate` and one
-- definition for each of the six methods, and validate_milestone_weights; its `EvMethod` is the
-- one of enums.py.
--
-- Materials models api/src/services/material_tracking.py. A `Store` is the rows of the resource
-- and assignment tables that the service works on, and a query by key is a search among the
-- rows that are not deleted; `consume_material` and `update_material_inventory` give the rows
-- as they are after the commit, or as they were if the call raises.
--
-- Dates has the proleptic ordinal of a date, its weekday and ranges of days. Loading models
-- api/src/services/resource_loading.py and ResourceLoadingDay of resource.py: the hours of a
-- resource on each day, from its calendar and its assignments. What the repositories return is
-- a field of `Repositories`. Overallocation models api/src/services/overallocation.py over it:
-- the days with more hours assigned than available, grouped into periods; its report counts as
-- resources affected those that have a period. Overallocation/Group and Days are about the
-- grouping, Detect, Program and Merge about the operations.
--
-- Leveling models api/src/services/resource_leveling.py, which delays activities until no
-- resource is overallocated. `Working` is working_dates; Leveling has the tests of capacity,
-- the search for a slot and the push of successors, Leveling/Loop the rounds of level_program
-- (`level_once` is one round, which ends with the first change) and Leveling/Program the start,
-- the result and apply_leveling_result. `none` stands for a KeyError or for endless recursion.
-- `recalculate_successors` recurses on fuel, a bound on the depth: it is enough if it exceeds
-- the rank of every activity in a network in which each dependency leads to a lower rank, as
-- there is in every network without a cycle (Returns, Restore). Legal, Rounds and Result are
-- about the rounds, the loop and the result, Slots about the search.
--
-- Variance models api/src/services/variance_analysis.py: severities, trends and alerts in
-- Variance, the analysis of a program in Variance/Analyze. A percentage is a number of
-- hundredths; the order in which Python goes through a set is a parameter.
--
-- Baselines models api/src/services/baseline_comparison.py: the activities of a program against
-- those of a baseline's snapshot, both as dictionaries by code. `compare_schedule` in
-- Baselines/Compare is _compare_schedule, `compare_cost_wbs` in Baselines/Wbs is
-- _compare_cost_wbs for the WBS elements, and `compare_to_current` does both and sums up the
-- budget. Counts, Codes, Details and Same are about the schedule, Sums, Amounts, Changes and
-- Reconcile about the sums of budgets, Budget about the number of elements, and Whole about
-- both parts.
--
-- Parallel models api/src/services/parallel_leveling.py, which keeps the conflicts of all
-- resources in one heap and takes them one by one. `Heapq` in Parallel/Heap is the interface of
-- Python's heapq: what heappush and heappop keep of a list, under any heap; the ordered list is
-- an instance. Parallel has the priorities, the choice of the activity to delay and the length
-- of the delay, Parallel/Run the conflict matrix, the loop (`round` is one turn of it) and the
-- result. `none` and the fuel are as in Leveling. Days, Conflicts and Dated are about the
-- matrix, Legal about the choice, Rounds and Result about the loop.
--
-- Scenarios models api/src/services/scenario_apply.py, the endpoint apply_scenario_changes of
-- api/src/api/v1/endpoints/scenarios.py and the operations of api/src/repositories/base.py and
-- scenario.py that they call. A `Session` is what is committed and what the open transaction
-- has made of it; `Backend`, a parameter, says whether the database's constraints hold after a
-- flush and which row the class of a dependency makes of keywords. A flush that is refused
-- rolls the session back and expires its objects, as SQLAlchemy documents it, and the exception
-- ends the request. An update of the key or of the deletion mark by name, the time of an update
-- and other errors of the database are left out. Effects says what each change is to do; Atomic
-- is about the database, Counts about the result.
--
-- Prelude passes on the library and adds tests, lists, integers, dictionaries and a stable
-- sort.
--
-- Not modelled: the HTTP interface but for that endpoint, the database and the caches, which
-- only carry values to and from these services; the Monte Carlo simulations, which are
-- floating-point statistics; the display texts of the enumerations; reports, imports and the
-- Jira integration; the services resource_cost.py, resource_histogram.py, scenario_promotion.py
-- and scenario_simulation.py.
pub mod Prelude
pub mod Networkx
pub mod Cpm
pub mod Decimal
pub mod Evms
pub mod EvMethods
pub mod Materials
pub mod Enums
pub mod Dates
pub mod Loading
pub mod Overallocation
pub mod Leveling
pub mod Variance
pub mod Baselines
pub mod Parallel
pub mod Scenarios
