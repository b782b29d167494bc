-- ===== src/Planning/Planner/Ends.antt =====
-- The planner ends within its fuel.
use red_forge.Base.{
  ℕ, suc, ◌+◌, ◌≡◌, Bool, true, false, List, [], ◌∷◌, ◌++◌, arith, inl, inr, none, some, length,
  Text, text_order, nat_order,
}
use red_forge.Sdk.StateKey.{PipelineStateKey, key_order}
use red_forge.Sdk.Exception.{out_of_fuel, raises, ◌>>=◌, >>=-eq-raises, traverse}
use red_forge.Sdk.CapabilityId.{id_order}
use red_forge.Sdk.Definition.{CapabilityDefinition, typed}
use red_forge.Planning.Registry.{Registry}
use red_forge.Planning.Registry.Queries.{IsRegistry}
use red_forge.Planning.Model.{
  ExecutionStep, validate_state_key, validate_state_tuple, validate_keys, execution_step,
  execution_plan, accumulate,
}
use red_forge.Planning.Planner.{
  normalize_state_input, visit, visit_each, start, topological_order, number_steps, plan, texts,
}
use red_forge.Planning.Planner.Walks.{visit-Keeps, visit_each-Keeps}
use red_forge.Planning.Planner.Fuel.{walk_has_fuel, start-IsWalk}
use red_forge.Planning.Planner.Plans.{traverse-texts}
use red_forge.Planning.Planner.Graphs.{topological_order-has_fuel}

traverse-has_fuel :
    (values : List Text) → traverse validate_state_key values ≡ raises out_of_fuel → ⊥
unfolding traverse validate_state_key
traverse-has_fuel [] h = cc
traverse-has_fuel (v ∷ values) h = ground (arith, traverse-has_fuel values)

normalize_state_input-has_fuel :
    (allow_empty : Bool) (values : List Text)
    → normalize_state_input allow_empty values ≡ raises out_of_fuel
    → ⊥
unfolding normalize_state_input
normalize_state_input-has_fuel allow_empty values h = ground (arith, traverse-has_fuel values)

execution_step-has_fuel :
    (position : ℕ) (d : CapabilityDefinition)
    → execution_step position
        (some (typed d.capability_id))
        none
        (texts d.requires)
        (texts d.provides)
      ≡ raises out_of_fuel
    → ⊥
unfolding execution_step validate_state_tuple validate_keys
execution_step-has_fuel position d h =
    ground (arith, traverse-texts d.requires, traverse-texts d.provides)

number_steps-has_fuel :
    (position : ℕ) (ds : List CapabilityDefinition)
    → number_steps position ds ≡ raises out_of_fuel
    → ⊥
unfolding number_steps
number_steps-has_fuel position [] h = cc
number_steps-has_fuel position (d ∷ ds) h =
    ground (arith, execution_step-has_fuel position d, number_steps-has_fuel (suc position) ds)

accumulate-has_fuel :
    (have : List PipelineStateKey) (steps : List ExecutionStep)
    → accumulate have steps ≡ raises out_of_fuel
    → ⊥
unfolding accumulate
accumulate-has_fuel have [] h = cc
accumulate-has_fuel have (s ∷ steps) h =
    ground (arith, accumulate-has_fuel (have ++ s.provides) steps)

execution_plan-has_fuel :
    (goals available : List PipelineStateKey) (steps : List ExecutionStep)
    → execution_plan goals available steps ≡ raises out_of_fuel
    → ⊥
unfolding execution_plan validate_keys
execution_plan-has_fuel goals available steps h =
    ground (arith, accumulate-has_fuel available steps)

ordered-has_fuel :
    (wanted present : List PipelineStateKey) (ordered : List CapabilityDefinition)
    → (number_steps 0 ordered >>= execution_plan wanted present) ≡ raises out_of_fuel
    → ⊥
ordered-has_fuel wanted present ordered h = elim (>>=-eq-raises (number_steps 0 ordered) _ h) [
  | inl p ↦ number_steps-has_fuel 0 ordered p
  | inr (steps, p, q) ↦ execution_plan-has_fuel wanted present steps q
]

-- Planning over a well-formed registry never ends for want of fuel, whatever the goals and the
-- available keys: it returns a plan, or raises an exception of the program.
pub plan-has_fuel :
    (r : Registry) (goals available : List Text)
    → IsRegistry r
    → ¬ (plan r goals available ≡ raises out_of_fuel)
unfolding plan
plan-has_fuel r goals available ok h =
    elim (>>=-eq-raises (normalize_state_input false goals) _ h) [
      | inl p ↦ normalize_state_input-has_fuel false goals p
      | inr (wanted, p, h1) ↦ elim (>>=-eq-raises (normalize_state_input true available) _ h1) [
        | inl p' ↦ normalize_state_input-has_fuel true available p'
        | inr (present, p', h2) ↦
            elim (>>=-eq-raises (visit_each (visit (length r + 1) r present) r present wanted start)
              _ h2) [
                | inl q ↦ walk_has_fuel r present wanted ok q
                | inr (w, q, h3) ↦
                    let walked =
                      visit_each-Keeps r ok present (visit (length r + 1) r present) wanted start w
                        (visit-Keeps r ok present (length r + 1)) (start-IsWalk r) q in
                    elim (>>=-eq-raises (topological_order w.selected present) _ h3) [
                      | inl q' ↦
                          topological_order-has_fuel w.selected present walked.walk.keys_once q'
                      | inr (ordered, q', h4) ↦ ordered-has_fuel wanted present ordered h4
                    ]
              ]
      ]
    ]
