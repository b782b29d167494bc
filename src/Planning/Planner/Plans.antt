-- ===== src/Planning/Planner/Plans.antt =====
-- What the planner returns: a sound plan, whose steps are registered definitions.
use red_forge.Base.{
  ℕ, zero, suc, ◌+◌, ◌≡◌, refl, ap, ◌∙◌, subst, true, false, none, some, List, [], ◌∷◌, ◌++◌, arith,
  Option-cases, inl, inr, All, All-append, Text, text_order, lookup, length, ◌==◌, nat_order,
}
use red_forge.Sdk.StateKey.{PipelineStateKey, key_order, from_text-value}
use red_forge.Sdk.Exception.{returns, >>=-eq-returns, require->>, traverse}
use red_forge.Sdk.CapabilityId.{CapabilityId, id_order}
use red_forge.Sdk.Definition.{CapabilityDefinition, typed}
use red_forge.Planning.Registry.{Registry, or_skip}
use red_forge.Planning.Registry.Queries.{IsRegistry}
use red_forge.Planning.Model.{
  ExecutionStep, ExecutionPlan, validate_state_key, validate_state_tuple, validate_keys,
  execution_step, execution_plan,
}
use red_forge.Planning.Model.Sound.{IsSound, execution_plan-IsSound}
use red_forge.Planning.Planner.{
  Edges, drain, connect_all, topological_order, number_steps, plan, texts, order_by,
  initially_ready, no_edges, unresolved, normalize_state_input, visit, visit_each, start,
}
use red_forge.Planning.Planner.Producers.{IsRegistered}
use red_forge.Planning.Planner.Walks.{visit-Keeps, visit_each-Keeps}
use red_forge.Planning.Planner.Fuel.{start-IsWalk}

-- A step carries the identity and the keys of a definition that the registry has.
pub record IsStepOf (r : Registry) (s : ExecutionStep) : Type 0 where
  pub definition : CapabilityDefinition
  pub found : lookup s.capability_id r ≡ some definition
  pub requires : s.requires ≡ definition.requires
  pub provides : s.provides ≡ definition.provides

module _ (selected : List (CapabilityId × CapabilityDefinition)) (P : CapabilityDefinition → Type 0)
    (all_p : (i : CapabilityId) (d : CapabilityDefinition) → lookup i selected ≡ some d → P d) where
  or_skip-All : (i : CapabilityId) → All P (or_skip (lookup i selected) [])
  or_skip-All i = elim (Option-cases (lookup i selected)) [
    | inl e ↦ rw e tt
    | inr (d, e) ↦ rw e (all_p i d e, tt)
  ]

  drain-All :
      (fuel : ℕ) (dependents dependencies : Edges) (ready : List CapabilityId)
      (ordered ds : List CapabilityDefinition)
      → All P ordered
      → drain fuel selected dependents dependencies ready ordered ≡ returns ds
      → All P ds
  unfolding drain
  drain-All fuel dependents dependencies [] ordered ds so_far h =
      let same : ordered ≡ ds = ground arith in subst (All P) same so_far
  drain-All zero dependents dependencies (i ∷ ready) ordered ds so_far h = absurd (cc)
  drain-All (suc fuel) dependents dependencies (i ∷ ready) ordered ds so_far h =
      drain-All fuel dependents _ _ (ordered ++ or_skip (lookup i selected) []) ds
        (All-append P ordered _ so_far (or_skip-All i)) h

  topological_order-All :
      (available : List PipelineStateKey) (ds : List CapabilityDefinition)
      → topological_order selected available ≡ returns ds
      → All P ds
  unfolding topological_order order_by
  topological_order-All available ds h =
      let (edges, p, q) =
        >>=-eq-returns
          (connect_all selected available selected (no_edges selected, no_edges selected)) _ h in
      let (ordered, p', q') = >>=-eq-returns (order_by selected edges) _ q in
      let (e, q'') =
        require->> (length ordered == length selected) (unresolved selected ordered)
          (returns ordered) q' in
      let same : ordered ≡ ds = ground arith in
      subst (All P) same (
        drain-All (length selected) edges.1 edges.0 (initially_ready selected edges.0) [] ordered tt
          p')

pub traverse-texts :
    (keys : List PipelineStateKey) → traverse validate_state_key (texts keys) ≡ returns keys
unfolding traverse validate_state_key
traverse-texts [] = refl
traverse-texts (k ∷ keys) = ground (arith, from_text-value k, traverse-texts keys)

execution_step_parts :
    (position : ℕ) (d : CapabilityDefinition) (s : ExecutionStep)
    → execution_step position
        (some (typed d.capability_id))
        none
        (texts d.requires)
        (texts d.provides)
      ≡ returns s
    → (s.capability_id ≡ d.capability_id) × (s.requires ≡ d.requires) × (s.provides ≡ d.provides)
unfolding execution_step validate_state_tuple validate_keys
execution_step_parts position d s h =
    ground (arith, traverse-texts d.requires, traverse-texts d.provides)

number_steps-All :
    (r : Registry) (position : ℕ) (ds : List CapabilityDefinition) (steps : List ExecutionStep)
    → All (IsRegistered r) ds
    → number_steps position ds ≡ returns steps
    → All (IsStepOf r) steps
unfolding number_steps
number_steps-All r position [] steps registered h =
    let same : [] ≡ steps = ground arith in subst (All (IsStepOf r)) same tt
number_steps-All r position (d ∷ ds) steps registered h =
    let (s, p, q) =
      >>=-eq-returns
        (execution_step position (some (typed d.capability_id)) none (texts d.requires)
          (texts d.provides))
        _ h in
    let (rest, p', q') = >>=-eq-returns (number_steps (suc position) ds) _ q in
    let (same_id, required, provided) = execution_step_parts position d s p in
    let same : s ∷ rest ≡ steps = ground arith in
    subst (All (IsStepOf r)) same (
      record {
        definition = d;
        found = ap (λ i. lookup i r) same_id ∙ registered.0;
        requires = required;
        provides = provided;
      },
      number_steps-All r (suc position) ds rest registered.1 p',
    )

-- The plan that the planner returns is sound, and for the goals and the available keys that it was
-- given, in canonical order; each step is a definition of the registry.
pub record IsPlanFor (r : Registry) (wanted present : List Text) (p : ExecutionPlan) : Type 0 where
  pub sound : IsSound p
  pub goals : normalize_state_input false wanted ≡ returns p.goals
  pub available : normalize_state_input true present ≡ returns p.available_state
  pub defined : All (IsStepOf r) p.steps

execution_plan_fields :
    (goals available : List PipelineStateKey) (steps : List ExecutionStep) (p : ExecutionPlan)
    → execution_plan goals available steps ≡ returns p
    → (goals ≡ p.goals) × (available ≡ p.available_state) × (steps ≡ p.steps)
unfolding execution_plan
execution_plan_fields goals available steps p h = ground arith

-- A plan that the planner returns, over a well-formed registry, is sound, is for the goals and the
-- available keys that were asked for, and each of its steps is a definition of the registry.
pub plan-IsPlanFor :
    (r : Registry) (goals available : List Text) (p : ExecutionPlan)
    → IsRegistry r
    → plan r goals available ≡ returns p
    → IsPlanFor r goals available p
unfolding plan
plan-IsPlanFor r goals available p ok h =
    let (wanted, h0, r0) = >>=-eq-returns (normalize_state_input false goals) _ h in
    let (present, h1, r1) = >>=-eq-returns (normalize_state_input true available) _ r0 in
    let (w, h2, r2) =
      >>=-eq-returns (visit_each (visit (length r + 1) r present) r present wanted start) _ r1 in
    let (ordered, h3, r3) = >>=-eq-returns (topological_order w.selected present) _ r2 in
    let (steps, h4, r4) = >>=-eq-returns (number_steps 0 ordered) _ r3 in
    let walked =
      visit_each-Keeps r ok present (visit (length r + 1) r present) wanted start w
        (visit-Keeps r ok present (length r + 1)) (start-IsWalk r) h2 in
    let (same_goals, same_available, same_steps) =
      execution_plan_fields wanted present steps p r4 in
    let registered =
      topological_order-All w.selected (IsRegistered r)
        (λ i d e. own i d (walked.walk.selected i d e)) present ordered h3 in
    record {
      sound = execution_plan-IsSound wanted present steps p r4;
      goals = h0 ∙ ap returns same_goals;
      available = h1 ∙ ap returns same_available;
      defined =
          subst (All (IsStepOf r)) same_steps (number_steps-All r 0 ordered steps registered h4);
    }
  where
    own : (i : CapabilityId) (d : CapabilityDefinition) → lookup i r ≡ some d → IsRegistered r d
    own i d e = ap (λ j. lookup j r) (ok.own i d e) ∙ e
