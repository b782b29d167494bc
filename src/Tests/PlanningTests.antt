-- ===== src/Tests/PlanningTests.antt =====
-- Runs of the registry and of the plan's constructor, and the theorems at them.
use red_forge.Base.{◌≡◌, refl, inl, inr, some, false, List, [], ◌∷◌, text, lookup, nat_order}
use red_forge.Sdk.StateKey
use red_forge.Sdk.StateKey.{PipelineStateKey, key_order}
use red_forge.Sdk.Exception.{returns, raises, ◌>>=◌, succeeds, out_of_fuel, dependency_cycle}
use red_forge.Sdk.CapabilityId.{CapabilityId, id_order}
use red_forge.Sdk.Definition.{CapabilityDefinition}
use red_forge.Planning.Registry.{Registry, registry, all_definitions, producers_for}
use red_forge.Planning.Registry.Queries.{
  Listed, IsRegistry, registry-IsRegistry, registry-finds, registry-order_independent,
}
use red_forge.Planning.Model.{ExecutionStep, ExecutionPlan, execution_plan}
use red_forge.Planning.Model.Sound.{IsSound, execution_plan-IsSound}
use red_forge.Planning.Planner.{plan}
use red_forge.Planning.Planner.Plans.{IsPlanFor, plan-IsPlanFor}
use red_forge.Planning.Planner.Ends.{plan-has_fuel}
use red_forge.Base.{none, Text, text_order}
use red_forge.Sdk.Result.{Result}
use red_forge.Sdk.Definition.Default.{default_capability_definitions}
use red_forge.Planning.Model.{required_capabilities}
use red_forge.Planning.Factory.{FactoryDefinition, Factories, made}
use red_forge.Planning.Builder.{PipelineBuilder, PlannedExecution, build, run_goals}
use red_forge.Planning.Builder.Faithful.{IsPipelineOf, build-IsPipelineOf}
use red_forge.Planning.Builder.Whole.{IsRunFor, run_goals-IsRunFor}
use red_forge.Runtime.Pipeline.{Pipeline, produced}
use red_forge.Runtime.Pipeline.Run.{PipelineResult}
use red_forge.Tests.Samples.{
  constantly, ok_result, subdomain_value, host_value, no_result, target_context,
}
use red_forge.Tests.Samples.{id_of, definitions, building, returned}

abbrev definition_of :
    CapabilityId → List PipelineStateKey → List PipelineStateKey → CapabilityDefinition
definition_of i requires provides = record {
  capability_id = i;
  requires = requires;
  provides = provides;
  display_name = i.value;
  description = i.value;
  version = text "1.0";
  tags = [];
}

abbrev find : CapabilityDefinition
find = definition_of (id_of (text "find")) [] (StateKey.subdomains ∷ [])

abbrev resolve : CapabilityDefinition
resolve = definition_of (id_of (text "resolve")) (StateKey.subdomains ∷ []) (StateKey.hosts ∷ [])

unfoldable one_way : Registry
unfolding definitions
one_way = returned [] (registry (find ∷ resolve ∷ []))

unfoldable other_way : Registry
unfolding definitions
other_way = returned [] (registry (resolve ∷ find ∷ []))

one_registered : registry (find ∷ resolve ∷ []) ≡ returns one_way
unfolding definitions one_way
one_registered = refl

other_registered : registry (resolve ∷ find ∷ []) ≡ returns other_way
unfolding definitions other_way
other_registered = refl

duplicate_refused : succeeds (registry (find ∷ resolve ∷ find ∷ [])) ≡ false
unfolding definitions
duplicate_refused = refl

hosts_producers : producers_for StateKey.hosts one_way ≡ resolve ∷ []
unfolding definitions one_way
hosts_producers = refl

registry-finds_example :
    (Listed resolve (find ∷ resolve ∷ []) → lookup resolve.capability_id one_way ≡ some resolve)
    × ((i : CapabilityId)
        → lookup i one_way ≡ some resolve
        → Listed resolve (find ∷ resolve ∷ []) × (resolve.capability_id ≡ i))
registry-finds_example = registry-finds (find ∷ resolve ∷ []) one_way resolve one_registered

swapped : (a b d : CapabilityDefinition) → Listed d (a ∷ b ∷ []) → Listed d (b ∷ a ∷ [])
swapped a b d (inl e) = inr (inl e)
swapped a b d (inr (inl e)) = inl e
swapped a b d (inr (inr e)) = absurd e

registry-order_independent_example :
    (all_definitions one_way ≡ all_definitions other_way)
    × (producers_for StateKey.hosts one_way ≡ producers_for StateKey.hosts other_way)
registry-order_independent_example =
    registry-order_independent (find ∷ resolve ∷ []) (resolve ∷ find ∷ []) one_way other_way
      StateKey.hosts one_registered other_registered (swapped find resolve) (swapped resolve find)

abbrev two_steps : List ExecutionStep
two_steps =
    record {
      position = 0;
      capability_id = id_of (text "find");
      requires = [];
      provides = StateKey.subdomains ∷ [];
    }
    ∷ record {
      position = 1;
      capability_id = id_of (text "resolve");
      requires = StateKey.subdomains ∷ [];
      provides = StateKey.hosts ∷ [];
    }
    ∷ []

abbrev two_step_plan : ExecutionPlan
two_step_plan = record { goals = StateKey.hosts ∷ []; available_state = []; steps = two_steps }

two_planned : execution_plan (StateKey.hosts ∷ []) [] two_steps ≡ returns two_step_plan
unfolding definitions
two_planned = refl

execution_plan-IsSound_example : IsSound two_step_plan
execution_plan-IsSound_example =
    execution_plan-IsSound (StateKey.hosts ∷ []) [] two_steps two_step_plan two_planned

hosts_planned : plan one_way (text "hosts" ∷ []) [] ≡ returns two_step_plan
unfolding definitions one_way
hosts_planned = refl

available_skipped :
    plan one_way (text "hosts" ∷ []) (text "hosts" ∷ [])
    ≡ returns
        (record { goals = StateKey.hosts ∷ []; available_state = StateKey.hosts ∷ []; steps = [] })
unfolding definitions one_way
available_skipped = refl

one_way-IsRegistry : IsRegistry one_way
one_way-IsRegistry = registry-IsRegistry (find ∷ resolve ∷ []) one_way one_registered

plan-IsPlanFor_example : IsPlanFor one_way (text "hosts" ∷ []) [] two_step_plan
plan-IsPlanFor_example =
    plan-IsPlanFor one_way (text "hosts" ∷ []) [] two_step_plan one_way-IsRegistry hosts_planned

plan-has_fuel_example : ¬ (plan one_way (text "hosts" ∷ []) [] ≡ raises out_of_fuel)
plan-has_fuel_example = plan-has_fuel one_way (text "hosts" ∷ []) [] one_way-IsRegistry

-- Two definitions that need each other.
abbrev resolve_back : CapabilityDefinition
resolve_back = definition_of (id_of (text "find")) (StateKey.hosts ∷ []) (StateKey.subdomains ∷ [])

cycle_found :
    (do r ← registry (resolve_back ∷ resolve ∷ []); plan r (text "hosts" ∷ []) [])
    ≡ raises (dependency_cycle (text "resolve" ∷ text "find" ∷ text "resolve" ∷ []))
unfolding definitions
cycle_found = refl

abbrev makes : Text → Result → FactoryDefinition
makes name result = record {
  capability_id = id_of name;
  factory = made (constantly name (produced result));
}

abbrev factories : Factories
factories =
    (id_of (text "find"), makes (text "find") (ok_result subdomain_value []))
    ∷ (id_of (text "resolve"), makes (text "resolve") (ok_result host_value []))
    ∷ []

unfoldable two_builder : PipelineBuilder
unfolding one_way
two_builder = record { definitions = one_way; factories = factories }

unfoldable two_execution : PlannedExecution
unfolding one_way two_builder
two_execution = record { planner = one_way; builder = two_builder }

unfoldable two_built : Pipeline
unfolding building two_builder
two_built =
    returned (record { entries = []; output_contracts = [] }) (build two_builder two_step_plan)

two_builds : build two_builder two_step_plan ≡ returns two_built
unfolding building two_built two_builder one_way
two_builds = refl

build-IsPipelineOf_example : IsPipelineOf two_step_plan two_built
build-IsPipelineOf_example = build-IsPipelineOf two_builder two_step_plan two_built two_builds

unfoldable hosts_result : PipelineResult
unfolding building two_execution
hosts_result = returned no_result (run_goals two_execution (text "hosts" ∷ []) target_context none)

hosts_run : run_goals two_execution (text "hosts" ∷ []) target_context none ≡ returns hosts_result
unfolding building hosts_result two_execution two_builder one_way
hosts_run = refl

hosts_found : lookup (text "hosts") hosts_result.context.state ≡ some host_value
unfolding building hosts_result two_execution
hosts_found = refl

run_goals-IsRunFor_example :
    IsRunFor two_execution (text "hosts" ∷ []) target_context none hosts_result
run_goals-IsRunFor_example =
    run_goals-IsRunFor two_execution (text "hosts" ∷ []) target_context none hosts_result
      (unfold two_execution in one_way-IsRegistry) hosts_run

-- The built-in capabilities that lead to the risks of a target, in the planned order.
default_plan :
    (do
      ds ← default_capability_definitions
      r ← registry ds
      p ← plan r (text "risk_intelligence" ∷ []) []
      returns (required_capabilities p))
    ≡ returns (
        text "subdomain_discovery"
        ∷ text "host_resolution"
        ∷ text "http_probe"
        ∷ text "web_crawl"
        ∷ text "technology_detection"
        ∷ text "asset_intelligence"
        ∷ text "vulnerability_intelligence"
        ∷ text "knowledge_graph"
        ∷ text "risk_intelligence"
        ∷ [])
unfolding definitions default_capability_definitions
default_plan = refl
