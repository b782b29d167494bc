-- ===== src/Planning/Planner.antt =====
-- redforge/planning/planner.py. The walk over the dependencies and the loop over the ready
-- capabilities are on fuel, for which `Exception.out_of_fuel` stands.
pub mod Producers
pub mod Walks
pub mod Fuel
pub mod Plans
pub mod Drains
pub mod Graphs
pub mod Ends
use red_forge.Base.{
  ℕ, zero, suc, ◌+◌, ◌||◌, ◌≡◌, Bool, true, false, not, ◌&&◌, Option, none, some, List, [], ◌∷◌,
  ◌++◌, map, length, contains, keep, sort, sorted_set, insert_on, if◌then◌else◌, Text, text,
  text_order, ◌==◌, nat_order, Dict, keys, lookup, put,
}
use red_forge.Sdk.StateKey
use red_forge.Sdk.StateKey.{PipelineStateKey, key_order}
use red_forge.Sdk.Exception.{
  Exception, value_error, invalid_planning_input, missing_producer, ambiguous_producer,
  dependency_cycle, out_of_fuel, Attempt, returns, raises, ◌>>=◌, ◌>>◌, require, traverse,
}
use red_forge.Sdk.CapabilityId.{CapabilityId, id_order}
use red_forge.Sdk.Definition.{CapabilityDefinition, typed}
use red_forge.Planning.Registry.{Registry, producers_for, or_skip}
use red_forge.Planning.Model.{
  ExecutionStep, ExecutionPlan, validate_state_key, execution_step, execution_plan, is_empty,
}

-- `_normalize_state_input`
unfoldable pub normalize_state_input :
    (allow_empty : Bool) → List Text → Attempt (List PipelineStateKey)
unfolding traverse validate_state_key sorted_set
normalize_state_input allow_empty values = do
  normalized ← traverse validate_state_key values
  let result = sorted_set normalized
  require (allow_empty || not (is_empty result))
      (invalid_planning_input (text "at least one planning goal is required"))
  returns result

abbrev identities : List CapabilityDefinition → List Text
identities ds = map (λ (d : CapabilityDefinition). d.capability_id.value) ds

-- The one producer among the candidates.
unfoldable pub single :
    PipelineStateKey → List CapabilityDefinition → List Text → Attempt CapabilityDefinition
single key [] names = raises (missing_producer (StateKey.value key))
single key (d ∷ []) names = returns d
single key _ names = raises (ambiguous_producer (StateKey.value key) names)

-- `producer_for`
unfoldable pub producer_for : Registry → PipelineStateKey → Attempt CapabilityDefinition
unfolding producers_for single
producer_for r key = let ds = producers_for key r in single key ds (identities ds)

-- The variables of the walk.
pub record Walk : Type 0 where
  pub selected : Dict CapabilityId CapabilityDefinition
  pub visiting : List CapabilityId
  pub completed : List CapabilityId

-- `visiting[visiting.index(i):]`
unfoldable pub path_from : CapabilityId → List CapabilityId → List CapabilityId
path_from i [] = []
path_from i (j ∷ is) = if i == j then j ∷ is else path_from i is

-- `visiting.append(...)` and the selection
abbrev pub enter : CapabilityDefinition → Walk → Walk
enter d w = record w {
  selected = put d.capability_id d w.selected;
  visiting = w.visiting ++ d.capability_id ∷ [];
}

-- `visiting.pop()`
unfoldable pub without_last {ℓ} : {A : Type ℓ} → List A → List A
without_last [] = []
without_last (x ∷ []) = []
without_last (x ∷ xs) = x ∷ without_last xs

abbrev pub leave : CapabilityDefinition → Walk → Walk
leave d w = record w {
  visiting = without_last w.visiting;
  completed = d.capability_id ∷ w.completed;
}

abbrev pub cycle_error : CapabilityId → List CapabilityId → Exception
cycle_error i visiting =
    dependency_cycle (map (λ (j : CapabilityId). j.value) (path_from i visiting ++ i ∷ []))

-- The loop over keys that visits the producer of each one that is not available.
unfoldable pub visit_each :
    (CapabilityDefinition → Walk → Attempt Walk)
    → Registry
    → (available : List PipelineStateKey) (needed : List PipelineStateKey) → Walk
    → Attempt Walk
unfolding producer_for contains
visit_each visitor r available [] w = returns w
visit_each visitor r available (key ∷ needed) w =
    if contains key available
    then visit_each visitor r available needed w
    else (do d ← producer_for r key; w' ← visitor d w; visit_each visitor r available needed w')

-- `visit`
unfoldable pub visit :
    (fuel : ℕ)
    → Registry
    → (available : List PipelineStateKey) → CapabilityDefinition
    → Walk
    → Attempt Walk
unfolding visit_each contains path_from without_last
visit zero r available d w = raises out_of_fuel
visit (suc fuel) r available d w =
    if contains d.capability_id w.completed
    then returns w
    else if contains d.capability_id w.visiting
    then raises (cycle_error d.capability_id w.visiting)
    else (do
      w' ← visit_each (visit fuel r available) r available d.requires (enter d w)
      returns (leave d w'))

abbrev pub start : Walk
start = record { selected = []; visiting = []; completed = [] }

-- `_single_selected_producer`
unfoldable pub single_selected_producer :
    PipelineStateKey → Dict CapabilityId CapabilityDefinition → Attempt CapabilityDefinition
unfolding keep contains sort single
single_selected_producer key selected =
    let ds = keep (λ d. contains key d.provides) (map (λ e. e.1) selected) in
    single key ds (sort (identities ds))

-- For each identity, a set of identities.
abbrev pub Edges : Type 0
Edges = Dict CapabilityId (List CapabilityId)

unfoldable pub edges_of : CapabilityId → Edges → List CapabilityId
unfolding lookup
edges_of i edges = elim (lookup i edges) [ some is ↦ is | none ↦ [] ]

-- `edges[i].add(j)`
unfoldable pub add_edge : CapabilityId → CapabilityId → Edges → Edges
unfolding edges_of contains put
add_edge i j edges =
    let is = edges_of i edges in if contains j is then edges else put i (is ++ j ∷ []) edges

-- `edges[i].discard(j)`
unfoldable pub discard_edge : CapabilityId → CapabilityId → Edges → Edges
unfolding edges_of keep put
discard_edge i j edges = put i (keep (λ k. not (k == j)) (edges_of i edges)) edges

-- The loop over the requirements of one selected capability.
unfoldable pub connect :
    Dict CapabilityId CapabilityDefinition
    → (available : List PipelineStateKey) → CapabilityId
    → List PipelineStateKey
    → Edges × Edges
    → Attempt (Edges × Edges)
unfolding single_selected_producer add_edge contains
connect selected available name [] edges = returns edges
connect selected available name (key ∷ keys) (dependencies, dependents) =
    if contains key available
    then connect selected available name keys (dependencies, dependents)
    else (do
      d ← single_selected_producer key selected
      connect selected available name keys
          (add_edge name d.capability_id dependencies, add_edge d.capability_id name dependents))

unfoldable pub connect_all :
    Dict CapabilityId CapabilityDefinition
    → (available : List PipelineStateKey) → Dict CapabilityId CapabilityDefinition
    → Edges × Edges
    → Attempt (Edges × Edges)
unfolding connect
connect_all selected available [] edges = returns edges
connect_all selected available ((name, d) ∷ rest) edges = do
  edges' ← connect selected available name d.requires edges
  connect_all selected available rest edges'

-- The loop over the dependents of a capability that is done. A heap is the sorted list of its
-- members.
unfoldable pub release :
    CapabilityId
    → List CapabilityId
    → Edges
    → (ready : List CapabilityId) → Edges × List CapabilityId
unfolding discard_edge edges_of insert_on
release name [] dependencies ready = (dependencies, ready)
release name (i ∷ is) dependencies ready =
    let dependencies' = discard_edge i name dependencies in
    release name is dependencies'
      (if is_empty (edges_of i dependencies') then insert_on (λ j. j) i ready else ready)

-- `while ready`
unfoldable pub drain :
    (fuel : ℕ)
    → Dict CapabilityId CapabilityDefinition
    → (dependents dependencies : Edges) (ready : List CapabilityId)
      (ordered : List CapabilityDefinition)
    → Attempt (List CapabilityDefinition)
unfolding release sort lookup edges_of
drain fuel selected dependents dependencies [] ordered = returns ordered
drain zero selected dependents dependencies (name ∷ ready) ordered = raises out_of_fuel
drain (suc fuel) selected dependents dependencies (name ∷ ready) ordered =
    let (dependencies', ready') =
      release name (sort (edges_of name dependents)) dependencies ready in
    drain fuel selected dependents dependencies' ready'
      (ordered ++ or_skip (lookup name selected) [])

-- `min(set(selected) - {...})`, for the error
unfoldable pub unresolved :
    Dict CapabilityId CapabilityDefinition → List CapabilityDefinition → Exception
unfolding keep contains sort
unresolved selected ordered =
    elim (sort (
      keep (λ i. not (contains i (map (λ (d : CapabilityDefinition). d.capability_id) ordered)))
        (keys selected))) [
          | i ∷ _ ↦ dependency_cycle (i.value ∷ i.value ∷ [])
          | [] ↦ value_error (text "min() iterable argument is empty")
        ]

-- The capabilities that are ready at the start.
unfoldable pub initially_ready :
    Dict CapabilityId CapabilityDefinition → (dependencies : Edges) → List CapabilityId
unfolding sort keep edges_of
initially_ready selected dependencies =
    sort (keep (λ i. is_empty (edges_of i dependencies)) (keys selected))

-- The loop, from the edges.
unfoldable pub order_by :
    Dict CapabilityId CapabilityDefinition → Edges × Edges → Attempt (List CapabilityDefinition)
unfolding drain initially_ready
order_by selected (dependencies, dependents) =
    drain (length selected) selected dependents dependencies (initially_ready selected dependencies)
      []

-- No edges yet.
abbrev pub no_edges : Dict CapabilityId CapabilityDefinition → Edges
no_edges selected = map (λ i. (i, [])) (keys selected)

-- `_topological_order`
unfoldable pub topological_order :
    Dict CapabilityId CapabilityDefinition
    → (available : List PipelineStateKey) → Attempt (List CapabilityDefinition)
unfolding connect_all order_by unresolved
topological_order selected available = do
  edges ← connect_all selected available selected (no_edges selected, no_edges selected)
  ordered ← order_by selected edges
  require (length ordered == length selected) (unresolved selected ordered)
  returns ordered

abbrev pub texts : List PipelineStateKey → List Text
texts keys = map (λ k. StateKey.value k) keys

-- The steps, numbered from `position`.
unfoldable pub number_steps :
    (position : ℕ) → List CapabilityDefinition → Attempt (List ExecutionStep)
unfolding execution_step
number_steps position [] = returns []
number_steps position (d ∷ ds) = do
  s ←
      execution_step position (some (typed d.capability_id)) none (texts d.requires)
        (texts d.provides)
  steps ← number_steps (suc position) ds
  returns (s ∷ steps)

-- `ExecutionPlanner.plan`
unfoldable pub plan : Registry → (goals available_state : List Text) → Attempt ExecutionPlan
unfolding normalize_state_input visit visit_each topological_order number_steps execution_plan
plan r goals available_state = do
  wanted ← normalize_state_input false goals
  available ← normalize_state_input true available_state
  w ← visit_each (visit (length r + 1) r available) r available wanted start
  ordered ← topological_order w.selected available
  steps ← number_steps 0 ordered
  execution_plan wanted available steps
