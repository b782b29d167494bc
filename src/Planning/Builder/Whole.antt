-- ===== src/Planning/Builder/Whole.antt =====
-- `PlannedExecution.run`: planning, building and running in one.
use red_forge.Base.{◌≡◌, true, Option, List, Text, text_order, keep, subset, map, keys}
use red_forge.Sdk.StateKey
use red_forge.Sdk.Exception.{returns, >>=-eq-returns, require->>}
use red_forge.Sdk.Context.{Context, available_state_keys}
use red_forge.Planning.Registry.Queries.{IsRegistry}
use red_forge.Planning.Model.{ExecutionPlan}
use red_forge.Planning.Planner.Plans.{IsPlanFor, plan-IsPlanFor}
use red_forge.Planning.Builder.{PlannedExecution, is_canonical, plan_for, execute, run_goals, build}
use red_forge.Planning.Builder.Faithful.{IsPipelineOf, build-IsPipelineOf}
use red_forge.Runtime.Policy.{ExecutionPolicy}
use red_forge.Runtime.Pipeline.{Pipeline}
use red_forge.Runtime.Pipeline.Emit.{null_sink}
use red_forge.Runtime.Pipeline.Run.{run, PipelineResult}
use red_forge.Runtime.Pipeline.History.{IsReport, run-IsReport}

-- A result of a run for goals, with the plan and the pipeline that led to it.
pub record IsRunFor (e : PlannedExecution) (goals : List Text) (c : Context)
    (policy : Option ExecutionPolicy) (res : PipelineResult) : Type 0 where
  pub plan : ExecutionPlan
  pub built : Pipeline
  pub planned : IsPlanFor e.planner goals (keep is_canonical (available_state_keys c)) plan
  pub available : subset (map (λ k. StateKey.value k) plan.available_state) (keys c.state) ≡ true
  pub pipeline : IsPipelineOf plan built
  pub built_from : build e.builder plan ≡ returns built
  pub ran : run built c policy null_sink ≡ returns res
  pub report : IsReport built res

-- A run for goals that returns has a sound plan for those goals and for the keys that the context
-- has; the context has every key that the plan counts on; the builder makes a pipeline of the plan,
-- with one capability for each step; and the result is the one that this pipeline gives for the
-- context and the policy of the run, with the report of such a run.
pub run_goals-IsRunFor :
    (e : PlannedExecution) (goals : List Text) (c : Context) (policy : Option ExecutionPolicy)
    (res : PipelineResult)
    → IsRegistry e.planner
    → run_goals e goals c policy ≡ returns res
    → IsRunFor e goals c policy res
unfolding run_goals plan_for execute
run_goals-IsRunFor e goals c policy res ok h =
    let (plan, p, q) = >>=-eq-returns (plan_for e goals c) _ h in
    let (available, q') =
      require->> (subset (map (λ k. StateKey.value k) plan.available_state) (keys c.state)) _ _ q in
    let (built, p', q'') = >>=-eq-returns (build e.builder plan) _ q' in
    record {
      plan = plan;
      built = built;
      planned =
          plan-IsPlanFor e.planner goals (keep is_canonical (available_state_keys c)) plan ok p;
      available = available;
      pipeline = build-IsPipelineOf e.builder plan built p';
      built_from = p';
      ran = q'';
      report = run-IsReport built c policy null_sink res q'';
    }
