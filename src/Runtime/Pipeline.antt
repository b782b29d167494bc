-- ===== src/Runtime/Pipeline.antt =====
-- redforge/runtime/pipeline.py: the data, the checks of results, and the registration of
-- capabilities. The loop of `run` stands in `Run`.
pub mod Emit
pub mod Run
pub mod Quiet
pub mod Round
pub mod History
pub mod Approval
pub mod Effect
pub mod State
pub mod Typed
pub mod Limited
pub mod Delivery
pub mod Caught
pub mod Returns
use red_forge.Base.{
  ℕ, ◌≡◌, Bool, true, false, not, ◌&&◌, ◌||◌, Option, none, some, List, [], ◌∷◌, ◌++◌, map, leb,
  if◌then◌else◌, any, all, contains, distinct, sort, list_eq, Text, text, text_order, ◌==◌, Dict,
  lookup, put, nat_order,
}
use red_forge.Sdk.StateKey
use red_forge.Sdk.StateKey.{PipelineStateKey, key_order, from_text}
use red_forge.Sdk.Exception.{
  Exception, value_error, Attempt, returns, raises, ◌>>=◌, ◌>>◌, require, traverse,
}
use red_forge.Sdk.CapabilityId.{CapabilityId, capability_id, id_order}
use red_forge.Sdk.Definition.{
  CapabilityDefinition, Identity, typed, legacy, normalize_capability_id, is_empty,
}
use red_forge.Sdk.Definition.Default.{default_capability_definitions}
use red_forge.Sdk.Value.{Value, nothing, is_nothing}
use red_forge.Sdk.Result.{
  Status, success, failure, error, partial, StatePublication, publication_keys, Result, Metadatum,
  word,
}
use red_forge.Sdk.Context.{Context}

-- `_STATUS_PRECEDENCE`
abbrev pub precedence : Status → ℕ
precedence success = 0
precedence partial = 1
precedence failure = 2
precedence error = 3

unfoldable pub combine_status : Status → Status → Status
combine_status current observed =
    if leb (precedence observed) (precedence current) then current else observed

-- What a capability hands back: an exception that `except Exception` catches, an object that is no `Result` or whose status is no
-- `Status`, or a result.
pub data Candidate : Type 0 where
  raised : Candidate
  unusable : Candidate
  produced : Result → Candidate

-- How a capability ends: with what it hands back, or with an exception that `except Exception` does
-- not catch.
pub data Outcome : Type 0 where
  interrupted : Outcome
  finished : Candidate → Outcome

-- A capability may write to the state that it is given.
pub record Capability : Type 0 where
  pub name : Text
  pub execute : Context → Outcome × Dict Text Value

abbrev pub is_usable : Status → Bool
is_usable success = true
is_usable partial = true
is_usable _ = false

-- _NormalizedPublications
pub record Normalized : Type 0 where
  pub explicit : List StatePublication
  pub legacy_value : Option (Text × Value)

abbrev pub no_publications : Normalized
no_publications = record { explicit = []; legacy_value = none }

abbrev explicitly : List StatePublication → Normalized
explicitly ps = record { explicit = ps; legacy_value = none }

abbrev normalize_explicit : Result → Option (List PipelineStateKey) → Attempt Normalized
normalize_explicit r none =
    raises (value_error (text "explicit publications require an output contract"))
normalize_explicit r (some declared) = do
  require (all (λ p. contains p.key declared) r.publications)
      (value_error (text "undeclared state publication"))
  returns (explicitly r.publications)

abbrev normalize_legacy : Text → Result → Option (List PipelineStateKey) → Attempt Normalized
normalize_legacy name r none =
    returns (record { explicit = []; legacy_value = some (name, r.payload) })
normalize_legacy name r (some (k ∷ [])) =
    returns (explicitly (record { key = k; value = r.payload } ∷ []))
normalize_legacy name r (some _) =
    raises (value_error (text "legacy data is ambiguous for multiple outputs"))

abbrev normalize_usable : Text → Result → Option (List PipelineStateKey) → Attempt Normalized
normalize_usable name r declared =
    if is_empty r.publications
    then (if is_nothing r.payload
        then returns no_publications
        else normalize_legacy name r declared)
    else (if is_nothing r.payload
        then normalize_explicit r declared
        else raises (value_error (text "explicit publications conflict with legacy data")))

-- `_normalize_capability_result`
unfoldable pub normalize_capability_result :
    (capability_name : Text) (result : Result) (declared_outputs : Option (List PipelineStateKey))
    → Attempt Normalized
unfolding distinct all contains
normalize_capability_result name r declared = do
  require (distinct (publication_keys r.publications))
      (value_error (text "duplicate state publications"))
  if is_usable r.status then normalize_usable name r declared else do
    require (is_empty r.publications) (value_error (text "stopping result contains publications"))
    returns no_publications

-- The result that stands in for an unusable one.
abbrev pub sanitized : Text → Text → Result
sanitized message kind = record {
  status = error;
  payload = nothing;
  errors = message ∷ [];
  metadata = (text "error_kind", word kind) ∷ [];
  publications = [];
}

-- `_invalid_result`
abbrev pub invalid_result : Text → Result
invalid_result name =
    sanitized (text "Capability '" ++ (name ++ text "' returned an invalid result"))
      (text "invalid_capability_result")

-- What `run` makes of an exception of a capability.
abbrev pub failed_result : Text → Result
failed_result name =
    sanitized (text "Capability '" ++ (name ++ text "' failed with an unexpected execution error"))
      (text "unexpected_execution_error")

pub record PipelineEntry : Type 0 where
  pub capability : Capability
  pub capability_id : Option CapabilityId

abbrev pub Contracts : Type 0
Contracts = Dict CapabilityId (List PipelineStateKey)

pub record Pipeline : Type 0 where
  pub entries : List PipelineEntry
  pub output_contracts : Contracts

abbrev pub contract_identity : Attempt CapabilityId → Attempt CapabilityId
contract_identity (returns i) = returns i
contract_identity (raises _) =
    raises (value_error (text "output contract capability ID is invalid"))

-- The loop of `_validate_output_contracts`
unfoldable pub validate_output_contracts :
    Contracts → Dict Identity (List PipelineStateKey) → Attempt Contracts
unfolding normalize_capability_id distinct sort put
validate_output_contracts validated [] = returns validated
validate_output_contracts validated ((i, keys) ∷ rest) = do
  identity ← contract_identity (normalize_capability_id i)
  require (not (is_empty keys)) (value_error (text "output contract must contain state keys"))
  require (distinct keys) (value_error (text "output contract contains duplicate state keys"))
  validate_output_contracts (put identity (sort keys) validated) rest

abbrev output_key : Text × Text → Attempt (Identity × List PipelineStateKey)
output_key (name, key) = do
  i ← capability_id name
  elim (from_text key) [
    | some k ↦ returns (typed i, k ∷ [])
    | none ↦ raises (value_error (text "output key is invalid"))
  ]

-- `CAPABILITY_OUTPUT_CONTRACTS` of redforge/runtime/pipeline_state.py
unfoldable pub capability_output_contracts : Attempt (Dict Identity (List PipelineStateKey))
unfolding default_capability_definitions
capability_output_contracts = do
  definitions ← default_capability_definitions
  returns (map (λ (d : CapabilityDefinition). (typed d.capability_id, d.provides)) definitions)

abbrev configured :
    Option (Dict Identity (List PipelineStateKey))
    → Option (Dict Text Text)
    → Attempt (Dict Identity (List PipelineStateKey))
configured (some _) (some _) =
    raises (value_error (text "use output_contracts or output_keys, not both"))
configured (some contracts) none = returns contracts
configured none (some output_keys) = traverse output_key output_keys
configured none none = capability_output_contracts

-- `Pipeline(output_contracts, output_keys)`
unfoldable pub pipeline :
    Option (Dict Identity (List PipelineStateKey)) → Option (Dict Text Text) → Attempt Pipeline
unfolding capability_id from_text traverse capability_output_contracts validate_output_contracts
pipeline output_contracts output_keys = do
  contracts ← configured output_contracts output_keys
  validated ← validate_output_contracts [] contracts
  returns (record { entries = []; output_contracts = validated })

abbrev same_id : Option CapabilityId → Option CapabilityId → Bool
same_id (some i) (some j) = i == j
same_id _ _ = false

-- Does an entry stand for the same capability?
unfoldable pub clashes : Option CapabilityId → Text → PipelineEntry → Bool
clashes identity name entry = same_id entry.capability_id identity || entry.capability.name == name

abbrev pub check_identity : Option CapabilityId → Text → Attempt (Unit {0})
check_identity none name = returns tt
check_identity (some i) name = elim (capability_id name) [
  | raises _ ↦ raises (value_error (text "runtime capability identity is invalid"))
  | returns j ↦ require (j == i) (value_error (text "runtime capability identity does not match"))
]

abbrev normalize_optional : Option Identity → Attempt (Option CapabilityId)
normalize_optional none = returns none
normalize_optional (some i) = do identity ← normalize_capability_id i; returns (some identity)

abbrev agrees : Option (List PipelineStateKey) → List PipelineStateKey → Bool
agrees none keys = true
agrees (some existing) keys = list_eq existing keys

-- The contracts after `provides` is taken in.
abbrev pub with_manual_contract :
    Option CapabilityId → Option (List PipelineStateKey) → Contracts → Attempt Contracts
with_manual_contract identity none contracts = returns contracts
with_manual_contract none (some keys) contracts =
    raises (value_error (text "manual output contracts require capability_id"))
with_manual_contract (some i) (some keys) contracts = do
  validated ← validate_output_contracts [] ((typed i, keys) ∷ [])
  elim (lookup i validated) [
    | none ↦ returns contracts
    | some ks ↦ do
      require (agrees (lookup i contracts) ks)
          (value_error (text "manual output contract does not match"))
      returns (put i ks contracts)
  ]

-- The checks of `add` before it looks for a duplicate: the identity and the new contracts.
abbrev pub check_registration :
    Capability
    → Option Identity
    → Option (List PipelineStateKey)
    → Contracts
    → Attempt (Option CapabilityId × Contracts)
check_registration capability identity provides contracts = do
  i ← normalize_optional identity
  check_identity i capability.name
  contracts' ← with_manual_contract i provides contracts
  returns (i, contracts')

abbrev duplicate_name : Text → Exception
duplicate_name name = value_error (text "duplicate capability name: '" ++ (name ++ text "'"))

-- `Pipeline.add`. A refused duplicate leaves its contract behind, in the second component.
unfoldable pub add :
    (capability : Capability) (identity : Option Identity)
    (provides : Option (List PipelineStateKey))
    → Pipeline
    → Attempt (Unit {0}) × Pipeline
add capability identity provides p =
    elim (check_registration capability identity provides p.output_contracts) [
      | raises e ↦ (raises e, p)
      | returns (i, contracts) ↦
          if any (clashes i capability.name) p.entries
          then (raises (duplicate_name capability.name), record p { output_contracts = contracts })
          else (
            returns tt,
            record {
              entries = p.entries ++ record { capability = capability; capability_id = i } ∷ [];
              output_contracts = contracts;
            },
          )
    ]
