-- ===== src/Planning/Model.antt =====
-- redforge/planning/models.py. A state key that is passed as a member of the enumeration is a string
-- too, so the arguments of a step are texts.
pub mod Sound
use red_forge.Base.{
  ℕ, suc, ◌≡◌, Bool, true, false, not, ◌&&◌, ◌||◌, Option, none, some, List, [], ◌∷◌, ◌++◌, map,
  length, contains, distinct, subset, sort, dedup, sorted_set, list_eq, if◌then◌else◌, Text, text,
  text_order, ◌==◌, nat_order,
}
use red_forge.Sdk.StateKey
use red_forge.Sdk.StateKey.{PipelineStateKey, from_text, key_order}
use red_forge.Sdk.Exception.{
  Exception, invalid_planning_input, Attempt, returns, raises, ◌>>=◌, ◌>>◌, require, traverse,
}
use red_forge.Sdk.CapabilityId.{CapabilityId}
use red_forge.Sdk.Definition.{Identity, typed, legacy, normalize_capability_id}

-- Every member of the enumeration
abbrev pub all_state_keys : List PipelineStateKey
all_state_keys =
    StateKey.hosts ∷ StateKey.subdomains ∷ StateKey.alive_hosts ∷ StateKey.http_endpoints
    ∷ StateKey.endpoints ∷ StateKey.technologies ∷ StateKey.asset_intelligence
    ∷ StateKey.vulnerability_intelligence ∷ StateKey.vulnerabilities ∷ StateKey.canonical_findings
    ∷ StateKey.enriched_vulnerabilities ∷ StateKey.knowledge_graph ∷ StateKey.risk_intelligence ∷ []

-- `state_keys()`
unfoldable pub sorted_state_keys : List PipelineStateKey
unfolding sort
sorted_state_keys = sort all_state_keys

unfoldable pub validate_state_key : Text → Attempt PipelineStateKey
validate_state_key value = elim (from_text value) [
  | some k ↦ returns k
  | none ↦ raises (invalid_planning_input (text "planning state key is invalid"))
]

-- The end of `_validate_state_tuple`, on the keys of the items.
unfoldable pub validate_keys :
    (field_name : Text) (require_sorted : Bool)
    → List PipelineStateKey
    → Attempt (List PipelineStateKey)
unfolding distinct sort list_eq
validate_keys field_name require_sorted items = do
  require (distinct items)
      (invalid_planning_input (field_name ++ text " contains duplicate state keys"))
  require (not require_sorted || list_eq items (sort items))
      (invalid_planning_input (field_name ++ text " must be deterministically ordered"))
  returns items

-- `_validate_state_tuple`
unfoldable pub validate_state_tuple :
    (field_name : Text) (require_sorted : Bool) → List Text → Attempt (List PipelineStateKey)
unfolding traverse validate_state_key validate_keys
validate_state_tuple field_name require_sorted value = do
  items ← traverse validate_state_key value
  validate_keys field_name require_sorted items

pub record ExecutionStep : Type 0 where
  pub position : ℕ
  pub capability_id : CapabilityId
  pub requires : List PipelineStateKey
  pub provides : List PipelineStateKey

abbrev pub is_empty {ℓ} : {A : Type ℓ} → List A → Bool
is_empty [] = true
is_empty (x ∷ xs) = false

abbrev step_identity : Option Identity → Option Text → Attempt Identity
step_identity (some i) (some name) =
    raises (invalid_planning_input (text "use capability_id or legacy capability_name, not both"))
step_identity (some i) none = returns i
step_identity none (some name) = returns (legacy name)
step_identity none none =
    raises (invalid_planning_input (text "step capability identity is required"))

abbrev replace_error {ℓ} : {A : Type ℓ} → Exception → Attempt A → Attempt A
replace_error e (returns a) = returns a
replace_error e (raises _) = raises e

-- `ExecutionStep(position, capability_id, requires, provides, capability_name=...)`
unfoldable pub execution_step :
    (position : ℕ) (identity : Option Identity) (name : Option Text) (requires provides : List Text)
    → Attempt ExecutionStep
unfolding normalize_capability_id validate_state_tuple
execution_step position identity name requires provides = do
  input ← step_identity identity name
  i ←
      replace_error (invalid_planning_input (text "step capability identity is invalid"))
        (normalize_capability_id input)
  required ← validate_state_tuple (text "step requires") true requires
  provided ← validate_state_tuple (text "step provides") true provides
  require (not (is_empty provided))
      (invalid_planning_input (text "execution step must provide state"))
  returns
      (record { position = position; capability_id = i; requires = required; provides = provided })

-- `capability_name`
abbrev pub capability_name : ExecutionStep → Text
capability_name s = s.capability_id.value

pub record ExecutionPlan : Type 0 where
  pub goals : List PipelineStateKey
  pub available_state : List PipelineStateKey
  pub steps : List ExecutionStep

-- `tuple(range(n))`, counted from `first`
abbrev pub range_from {ℓ} : {A : Type ℓ} → (first : ℕ) → List A → List ℕ
range_from first [] = []
range_from first (x ∷ xs) = first ∷ range_from (suc first) xs

-- The loop over the steps, with the keys accumulated so far.
unfoldable pub accumulate :
    List PipelineStateKey → List ExecutionStep → Attempt (List PipelineStateKey)
unfolding subset contains
accumulate accumulated [] = returns accumulated
accumulate accumulated (s ∷ steps) = do
  require (subset s.requires accumulated)
      (invalid_planning_input (text "execution step has an unsatisfied required state"))
  accumulate (accumulated ++ s.provides) steps

-- `ExecutionPlan(goals, available_state, steps)`
unfoldable pub execution_plan :
    (goals available : List PipelineStateKey) → List ExecutionStep → Attempt ExecutionPlan
unfolding validate_keys accumulate distinct list_eq
execution_plan goals available steps = do
  wanted ← validate_keys (text "goals") true goals
  require (not (is_empty wanted))
      (invalid_planning_input (text "at least one planning goal is required"))
  present ← validate_keys (text "available state") true available
  require (list_eq (map (λ s. s.position) steps) (range_from 0 steps))
      (invalid_planning_input (text "step positions must be contiguous from zero"))
  require (distinct (map capability_name steps))
      (invalid_planning_input (text "execution plan contains duplicate capabilities"))
  accumulated ← accumulate present steps
  require (subset wanted accumulated)
      (invalid_planning_input (text "execution plan does not satisfy every goal"))
  returns (record { goals = goals; available_state = available; steps = steps })

-- The properties of a plan.
abbrev pub required_capabilities : ExecutionPlan → List Text
required_capabilities p = map capability_name p.steps

abbrev pub required_capability_ids : ExecutionPlan → List CapabilityId
required_capability_ids p = map (λ s. s.capability_id) p.steps

abbrev pub all_provides : List ExecutionStep → List PipelineStateKey
all_provides [] = []
all_provides (s ∷ steps) = s.provides ++ all_provides steps

unfoldable pub produced_state : ExecutionPlan → List PipelineStateKey
unfolding sorted_set
produced_state p = sorted_set (all_provides p.steps)
