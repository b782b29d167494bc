-- ===== src/Sdk/Definition.antt =====
-- redforge/sdk/capability_definition.py. A key that is passed as a member of the enumeration is a
-- string too, so the arguments `requires` and `provides` are texts.
pub mod Canonical
pub mod Default
use red_forge.Base.{
  ℕ, ◌-◌, ◌≡◌, Bool, true, false, not, ◌&&◌, ◌||◌, Option, none, some, List, [], ◌∷◌, ◌++◌, map,
  ◌==◌, nat_order, contains, distinct, sort, any, if◌then◌else◌, Text, text, text_order,
}
use red_forge.Sdk.StateKey.{PipelineStateKey, from_text, key_order}
use red_forge.Sdk.Exception.{
  Exception, value_error, Attempt, returns, raises, ◌>>=◌, ◌>>◌, require, traverse,
}
use red_forge.Sdk.CapabilityId.{
  CapabilityId, capability_id, is_alnum, is_lower, is_upper, strip, lower, to_lower, last_or,
  underscore,
}

-- What `normalize_capability_id` accepts.
pub data Identity : Type 0 where
  typed : CapabilityId → Identity
  legacy : Text → Identity

unfoldable pub normalize_capability_id : Identity → Attempt CapabilityId
unfolding capability_id
normalize_capability_id (typed i) = returns i
normalize_capability_id (legacy s) = capability_id s

-- `PipelineStateKey(item)`, with the error that the caller makes of it
unfoldable pub state_key_or : Exception → Text → Attempt PipelineStateKey
unfolding from_text
state_key_or e s = elim (from_text s) [ some k ↦ returns k | none ↦ raises e ]

-- `_state_keys`
unfoldable pub state_keys : Text → List Text → Attempt (List PipelineStateKey)
unfolding state_key_or traverse distinct sort
state_keys field values = do
  items ←
      traverse (state_key_or (value_error (field ++ text " contains an invalid state key"))) values
  require (distinct items) (value_error (field ++ text " contains duplicate state keys"))
  returns (sort items)

-- `tag[0] in "-_"`
abbrev pub is_joiner : ℕ → Bool
is_joiner c = c == 45 || c == underscore

unfoldable pub tag_is_valid : Text → Bool
unfolding any last_or
tag_is_valid [] = false
tag_is_valid (c ∷ s) =
    not (is_joiner c)
    && not (is_joiner (last_or c s))
    && not (any (λ d. not (is_alnum d) && not (is_joiner d)) (c ∷ s))

unfoldable pub normalize_tag : Text → Attempt Text
unfolding strip tag_is_valid
normalize_tag value =
    let tag = lower (strip value) in
    if tag_is_valid tag
    then returns tag
    else raises (value_error (text "capability tag is invalid"))

-- `_tags`
unfoldable pub normalize_tags : List Text → Attempt (List Text)
unfolding normalize_tag traverse distinct sort
normalize_tags values = do
  tags ← traverse normalize_tag values
  require (distinct tags) (value_error (text "capability tags contain duplicates"))
  returns (sort tags)

pub record CapabilityDefinition : Type 0 where
  pub capability_id : CapabilityId
  pub requires : List PipelineStateKey
  pub provides : List PipelineStateKey
  pub display_name : Text
  pub description : Text
  pub version : Text
  pub tags : List Text

-- `s.replace("_", " ")`
abbrev pub spaced : Text → Text
spaced s = map (λ c. if c == underscore then 32 else c) s

-- `s.title()` on ASCII, which an identity is: a letter is upper case unless a letter precedes it.
unfoldable pub title : (after_letter : Bool) → Text → Text
title after [] = []
title after (c ∷ s) =
    let letter = is_lower c || is_upper c in
    (if after then to_lower c else if is_lower c then c - 32 else c) ∷ title letter s

abbrev pub or_default : Option Text → Text → Text
or_default none d = d
or_default (some s) d = s

abbrev pub is_blank : Text → Bool
is_blank s = elim s [ [] ↦ true | _ ∷ _ ↦ false ]

abbrev pub choose_identity : Option Identity → Option Text → Attempt Identity
choose_identity (some _) (some _) =
    raises (value_error (text "use capability_id or legacy name, not both"))
choose_identity (some i) none = returns i
choose_identity none (some s) = returns (legacy s)
choose_identity none none = raises (value_error (text "capability identity is required"))

abbrev pub is_empty {ℓ} : {A : Type ℓ} → List A → Bool
is_empty xs = elim xs [ [] ↦ true | _ ∷ _ ↦ false ]

-- `CapabilityDefinition.__init__`, its arguments in order
unfoldable pub define :
    (identity : Option Identity) (requires provides : List Text)
    (display_name description : Option Text) (version : Text) (tags : List Text)
    (name : Option Text)
    → Attempt CapabilityDefinition
unfolding normalize_capability_id state_keys normalize_tags strip title
define identity requires provides display_name description version tags name = do
  chosen ← choose_identity identity name
  id ← normalize_capability_id chosen
  let shown = or_default display_name (title false (spaced id.value))
  let described = or_default description (shown ++ text " capability contract.")
  require (not (is_blank (strip shown)))
      (value_error (text "capability display name must not be empty"))
  require (not (is_blank (strip described)))
      (value_error (text "capability description must not be empty"))
  require (not (is_blank (strip version)))
      (value_error (text "capability version must not be empty"))
  required ← state_keys (text "requires") requires
  provided ← state_keys (text "provides") provides
  require (not (is_empty provided)) (value_error (text "capability definition must provide state"))
  labels ← normalize_tags tags
  returns (record {
    capability_id = id;
    requires = required;
    provides = provided;
    display_name = strip shown;
    description = strip described;
    version = strip version;
    tags = labels;
  })
