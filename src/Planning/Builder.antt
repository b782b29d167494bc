-- ===== src/Planning/Builder.antt =====
-- redforge/planning/builder.py and redforge/planning/execution.py.
pub mod ContractsOf
pub mod Faithful
pub mod Whole
use red_forge.Base.{
  Bool, true, false, not, ◌&&◌, Option, none, some, List, [], ◌∷◌, ◌++◌, map, first, keep, distinct,
  subset, list_eq, Text, text, text_order, nat_order, Dict, keys, put,
}
use red_forge.Sdk.StateKey
use red_forge.Sdk.StateKey.{PipelineStateKey, key_order, from_text}
use red_forge.Sdk.Exception.{
  Exception, invalid_planning_input, missing_capability_factory, capability_descriptor_mismatch,
  Attempt, returns, raises, ◌>>=◌, ◌>>◌, require, traverse,
}
use red_forge.Sdk.CapabilityId.{CapabilityId, id_order}
use red_forge.Sdk.Definition.{CapabilityDefinition, typed}
use red_forge.Sdk.Context.{Context, available_state_keys}
use red_forge.Planning.Registry.{Registry, require_definition}
use red_forge.Planning.Model.{
  ExecutionStep, ExecutionPlan, execution_plan, capability_name, range_from,
}
use red_forge.Planning.Planner
use red_forge.Planning.Factory.{Factories, has_factory, create, validate_against}
use red_forge.Runtime.Policy.{ExecutionPolicy}
use red_forge.Runtime.Pipeline.{Capability, Pipeline, pipeline, add}
use red_forge.Runtime.Pipeline.Emit.{null_sink}
use red_forge.Runtime.Pipeline.Run.{run, PipelineResult}

pub record PipelineBuilder : Type 0 where
  pub definitions : Registry
  pub factories : Factories

-- `PipelineBuilder(descriptor_registry, factory_registry)`
unfoldable pub pipeline_builder : Registry → Factories → Attempt PipelineBuilder
unfolding validate_against
pipeline_builder r fs = do
  validate_against fs r
  returns (record { definitions = r; factories = fs })

abbrev pub mismatch : ExecutionStep → Text → Exception
mismatch s detail = capability_descriptor_mismatch (capability_name s) detail

abbrev pub or_mismatch {ℓ} : {A : Type ℓ} → Exception → Attempt A → Attempt A
or_mismatch e (returns a) = returns a
or_mismatch e (raises _) = raises e

-- One round of the loop of `_validate`: the definition of the step.
unfoldable pub check_step :
    Registry → (available : List PipelineStateKey) → ExecutionStep → Attempt CapabilityDefinition
unfolding require_definition list_eq subset
check_step r available s = do
  d ←
      or_mismatch (mismatch s (text "planning definition"))
        (require_definition (typed s.capability_id) r)
  require (list_eq s.requires d.requires && list_eq s.provides d.provides)
      (mismatch s (text "execution-step definition"))
  require (subset d.requires available) (mismatch s (text "dependency order"))
  returns d

-- The loop of `_validate`: the contracts, and the keys that are available in the end.
unfoldable pub check_steps :
    Registry
    → (available : List PipelineStateKey) → Dict CapabilityId (List PipelineStateKey)
    → List ExecutionStep
    → Attempt (Dict CapabilityId (List PipelineStateKey) × List PipelineStateKey)
unfolding check_step put
check_steps r available contracts [] = returns (contracts, available)
check_steps r available contracts (s ∷ steps) = do
  d ← check_step r available s
  check_steps r (available ++ d.provides) (put s.capability_id d.provides contracts) steps

-- `_validate`
unfoldable pub validate :
    Registry → ExecutionPlan → Attempt (Dict CapabilityId (List PipelineStateKey))
unfolding execution_plan check_steps list_eq distinct subset
validate r p = do
  _ ← execution_plan p.goals p.available_state p.steps
  require (list_eq (map (λ s. s.position) p.steps) (range_from 0 p.steps))
      (invalid_planning_input (text "step positions must be contiguous from zero"))
  require (distinct (map (λ s. s.capability_id) p.steps))
      (invalid_planning_input (text "execution plan contains duplicate capabilities"))
  (contracts, available) ← check_steps r p.available_state [] p.steps
  require (subset p.goals available)
      (invalid_planning_input (text "execution plan does not satisfy every goal"))
  returns contracts

abbrev pub check_missing : Option ExecutionStep → Attempt (Unit {0})
check_missing none = returns tt
check_missing (some s) = raises (missing_capability_factory (capability_name s))

-- The loop that adds the capabilities to the pipeline.
unfoldable pub add_all : List (ExecutionStep × Capability) → Pipeline → Attempt Pipeline
unfolding add
add_all [] p = returns p
add_all ((s, c) ∷ rest) p = do
  let (outcome, p') = add c (some (typed s.capability_id)) none p
  outcome
  add_all rest p'

abbrev pub zip {ℓ κ} : {A : Type ℓ} {B : Type κ} → List A → List B → List (A × B)
zip (a ∷ more) (b ∷ bs) = (a, b) ∷ zip more bs
zip _ _ = []

-- `PipelineBuilder.build`
unfoldable pub build : PipelineBuilder → ExecutionPlan → Attempt Pipeline
unfolding validate first has_factory create traverse pipeline add_all
build b p = do
  contracts ← validate b.definitions p
  check_missing (first (λ s. not (has_factory (typed s.capability_id) b.factories)) p.steps)
  capabilities ← traverse (λ s. create (typed s.capability_id) b.factories) p.steps
  empty ← pipeline (some (map (λ e. (typed e.0, e.1)) contracts)) none
  add_all (zip p.steps capabilities) empty

-- `PlannedExecution`: its planner plans over a registry.
pub record PlannedExecution : Type 0 where
  pub planner : Registry
  pub builder : PipelineBuilder

abbrev pub is_canonical : Text → Bool
is_canonical t = elim (from_text t) [ some _ ↦ true | none ↦ false ]

-- `PlannedExecution.plan`
unfoldable pub plan_for : PlannedExecution → (goals : List Text) → Context → Attempt ExecutionPlan
unfolding available_state_keys keep from_text Planner.plan
plan_for e goals c = Planner.plan e.planner goals (keep is_canonical (available_state_keys c))

-- `PlannedExecution.execute`
unfoldable pub execute :
    PlannedExecution → ExecutionPlan → Context → Option ExecutionPolicy → Attempt PipelineResult
unfolding build run subset
execute e p c policy = do
  require (subset (map (λ k. StateKey.value k) p.available_state) (keys c.state))
      (invalid_planning_input (text "execution context is missing plan-available state"))
  built ← build e.builder p
  run built c policy null_sink

-- `PlannedExecution.run`
unfoldable pub run_goals :
    PlannedExecution
    → (goals : List Text) → Context
    → Option ExecutionPolicy
    → Attempt PipelineResult
unfolding plan_for execute
run_goals e goals c policy = do p ← plan_for e goals c; execute e p c policy
