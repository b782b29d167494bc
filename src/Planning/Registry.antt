-- ===== src/Planning/Registry.antt =====
-- redforge/planning/registry.py.
pub mod Queries
use red_forge.Base.{
  ◌≡◌, Bool, true, false, not, Option, none, some, List, [], ◌∷◌, ◌++◌, keep, contains, sort,
  length, if◌then◌else◌, Text, text, text_order, ◌==◌, nat_order, Dict, keys, lookup, put, has,
}
use red_forge.Sdk.StateKey.{PipelineStateKey, from_text, key_order}
use red_forge.Sdk.Exception.{
  value_error, unknown_capability, Attempt, returns, raises, ◌>>=◌, ◌>>◌, require,
}
use red_forge.Sdk.CapabilityId.{CapabilityId, id_order, strip, lower}
use red_forge.Sdk.Definition.{CapabilityDefinition, Identity, normalize_capability_id}

-- `_by_id`
abbrev pub Registry : Type 0
Registry = Dict CapabilityId CapabilityDefinition

unfoldable pub register : CapabilityDefinition → Registry → Attempt Registry
unfolding has put
register d r = do
  require (not (has d.capability_id r)) (
      value_error
        (text "duplicate capability definition: '" ++ (d.capability_id.value ++ text "'")))
  returns (put d.capability_id d r)

unfoldable pub register_all : List CapabilityDefinition → Registry → Attempt Registry
unfolding register
register_all [] r = returns r
register_all (d ∷ ds) r = do r' ← register d r; register_all ds r'

-- `CapabilityRegistry(definitions)`
unfoldable pub registry : List CapabilityDefinition → Attempt Registry
unfolding register_all
registry ds = register_all ds []

unfoldable pub get : Identity → Registry → Attempt (Option CapabilityDefinition)
unfolding normalize_capability_id lookup
get i r = do identity ← normalize_capability_id i; returns (lookup identity r)

abbrev known : CapabilityId → Option CapabilityDefinition → Attempt CapabilityDefinition
known i (some d) = returns d
known i none = raises (unknown_capability i.value)

unfoldable pub require_definition : Identity → Registry → Attempt CapabilityDefinition
unfolding normalize_capability_id lookup
require_definition i r = do identity ← normalize_capability_id i; known identity (lookup identity r)

abbrev is_some {ℓ} : {A : Type ℓ} → Option A → Bool
is_some (some a) = true
is_some none = false

unfoldable pub contains_id : Identity → Registry → Attempt Bool
unfolding get
contains_id i r = do found ← get i r; returns (is_some found)

abbrev pub or_skip {ℓ} : {A : Type ℓ} → Option A → List A → List A
or_skip (some a) rest = a ∷ rest
or_skip none rest = rest

-- `r[i] for i in ids`, of keys of `r`
unfoldable pub definitions_at : List CapabilityId → Registry → List CapabilityDefinition
unfolding lookup
definitions_at [] r = []
definitions_at (i ∷ is) r = or_skip (lookup i r) (definitions_at is r)

unfoldable pub ids : Registry → List CapabilityId
unfolding sort
ids r = sort (keys r)

-- `all`, and the property `descriptors`
unfoldable pub all_definitions : Registry → List CapabilityDefinition
unfolding ids definitions_at
all_definitions r = definitions_at (ids r) r

unfoldable pub by_tag : Text → Registry → List CapabilityDefinition
unfolding all_definitions strip keep contains
by_tag tag r =
    let normalized = lower (strip tag) in
    if length normalized == 0
    then []
    else keep (λ d. contains normalized d.tags) (all_definitions r)

unfoldable pub producers_for : PipelineStateKey → Registry → List CapabilityDefinition
unfolding all_definitions keep contains
producers_for key r = keep (λ d. contains key d.provides) (all_definitions r)

-- `producers_for` of a string, which may name no key
unfoldable pub producers_named : Text → Registry → List CapabilityDefinition
unfolding from_text producers_for
producers_named s r = elim (from_text s) [ some key ↦ producers_for key r | none ↦ [] ]
