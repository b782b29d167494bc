-- ===== src/Planning/Factory.antt =====
-- `CapabilityFactoryRegistry` of redforge/planning/factories.py. The readiness requirements of a
-- factory are left out.
use red_forge.Base.{
  Bool, true, false, not, Option, none, some, List, [], ◌∷◌, keep, sort, text, text_order, ◌==◌,
  Dict, keys, lookup, put, has,
}
use red_forge.Sdk.Exception.{
  Exception, missing_capability_factory, invalid_capability_factory, capability_descriptor_mismatch,
  Attempt, returns, raises, ◌>>=◌, ◌>>◌, require,
}
use red_forge.Sdk.CapabilityId.{CapabilityId, capability_id, id_order}
use red_forge.Sdk.Definition.{Identity, typed, normalize_capability_id}
use red_forge.Planning.Registry.{Registry}
use red_forge.Runtime.Pipeline.{Capability}

-- What the call of a factory does, or reading the name of what it made.
pub data Made : Type 0 where
  raised : Made
  no_capability : Made
  name_raised : Made
  name_of_wrong_type : Made
  made : Capability → Made

-- A factory that is callable; what it makes is the same at each call.
pub record FactoryDefinition : Type 0 where
  pub capability_id : CapabilityId
  pub factory : Made

abbrev pub Factories : Type 0
Factories = Dict CapabilityId FactoryDefinition

abbrev pub invalid_factory : CapabilityId → Exception
invalid_factory i = invalid_capability_factory i.value false

abbrev or_invalid : Exception → Attempt CapabilityId → Attempt CapabilityId
or_invalid e (returns i) = returns i
or_invalid e (raises _) = raises e

abbrev declared_or : Option Identity → CapabilityId → Identity
declared_or (some d) i = d
declared_or none i = typed i

-- `register(capability_id, factory, declared_capability_id=...)`; a factory is none if it is not
-- callable.
unfoldable pub register_factory :
    (identity : Identity) (factory : Option Made) (declared : Option Identity)
    → Factories
    → Attempt Factories
unfolding normalize_capability_id has put
register_factory identity factory declared fs = do
  i ←
      or_invalid (invalid_capability_factory (text "invalid") false)
        (normalize_capability_id identity)
  require (not (has i fs)) (invalid_factory i)
  elim factory [
    | none ↦ raises (invalid_factory i)
    | some f ↦ do
      d ← or_invalid (invalid_factory i) (normalize_capability_id (declared_or declared i))
      returns (put i (record { capability_id = d; factory = f }) fs)
  ]

unfoldable pub factory_ids : Factories → List CapabilityId
unfolding sort
factory_ids fs = sort (keys fs)

unfoldable pub has_factory : Identity → Factories → Bool
unfolding normalize_capability_id has
has_factory identity fs = elim (normalize_capability_id identity) [
  | returns i ↦ has i fs
  | raises _ ↦ false
]

unfoldable pub definition_for : Identity → Factories → Option FactoryDefinition
unfolding normalize_capability_id lookup
definition_for identity fs = elim (normalize_capability_id identity) [
  | returns i ↦ lookup i fs
  | raises _ ↦ none
]

-- The checks of what a factory made, for the identity that it was asked for.
unfoldable pub check_made : CapabilityId → Made → Attempt Capability
unfolding capability_id
check_made i raised = raises (invalid_capability_factory i.value true)
check_made i no_capability = raises (invalid_factory i)
check_made i name_raised = raises (invalid_capability_factory i.value true)
check_made i name_of_wrong_type = raises (invalid_factory i)
check_made i (made c) = do
  actual ← or_invalid (invalid_factory i) (capability_id c.name)
  require (actual == i)
      (capability_descriptor_mismatch i.value (text "runtime capability identity"))
  returns c

abbrev make : CapabilityId → Option FactoryDefinition → Attempt Capability
make i none = raises (missing_capability_factory i.value)
make i (some d) = check_made i d.factory

unfoldable pub create : Identity → Factories → Attempt Capability
unfolding normalize_capability_id lookup check_made
create identity fs = do
  i ← or_invalid (missing_capability_factory (text "invalid")) (normalize_capability_id identity)
  make i (lookup i fs)

-- The identities that a registry of definitions does not contain.
unfoldable pub unknown_ids : List CapabilityId → Registry → List CapabilityId
unfolding has keep
unknown_ids is r = keep (λ i. not (has i r)) is

unfoldable pub validate_against : Factories → Registry → Attempt (Unit {0})
unfolding factory_ids unknown_ids
validate_against fs r = elim (unknown_ids (factory_ids fs) r) [
  | [] ↦ returns tt
  | i ∷ _ ↦ raises (capability_descriptor_mismatch i.value (text "definition registry identity"))
]
