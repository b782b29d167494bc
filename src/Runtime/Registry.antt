-- ===== src/Runtime/Registry.antt =====
-- redforge/runtime/registry.py and redforge/runtime/discovery.py: capability instances by name.
pub mod Names
use red_forge.Base.{
  Bool, not, none, some, List, [], ◌∷◌, Text, text_order, Dict, keys, lookup, put, has,
}
use red_forge.Sdk.Exception.{
  capability_not_found, duplicate_capability, Attempt, returns, raises, ◌>>=◌, ◌>>◌, require,
}
use red_forge.Runtime.Pipeline.{Capability}

-- `_capabilities`
abbrev pub Instances : Type 0
Instances = Dict Text Capability

unfoldable pub register_instance : Capability → Instances → Attempt Instances
register_instance c r = do
  require (not (has c.name r)) (duplicate_capability c.name)
  returns (put c.name c r)

unfoldable pub get_instance : Text → Instances → Attempt Capability
get_instance name r = elim (lookup name r) [
  | some c ↦ returns c
  | none ↦ raises (capability_not_found name)
]

abbrev pub list_names : Instances → List Text
list_names r = keys r

unfoldable pub is_registered : Text → Instances → Bool
is_registered name r = has name r

-- `register_capabilities`
unfoldable pub register_capabilities : List Capability → Instances → Attempt Instances
register_capabilities [] r = returns r
register_capabilities (c ∷ cs) r = do r' ← register_instance c r; register_capabilities cs r'
