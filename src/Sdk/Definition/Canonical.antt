-- ===== src/Sdk/Definition/Canonical.antt =====
-- What every definition that the constructor accepts satisfies.
use red_forge.Base.{
  ◌≡◌, refl, true, false, not, Option, List, [], ◌∷◌, ◌∙◌, subst, arith, distinct, sort, Text, text,
  Ascending, sort-Ascending, distinct-sort,
}
use red_forge.Sdk.StateKey.{PipelineStateKey, key_order}
use red_forge.Sdk.Exception.{
  Exception, returns, ◌>>◌, require, traverse, >>=-eq-returns, require-returns,
}
use red_forge.Sdk.Definition.{Identity, state_keys, CapabilityDefinition, define, is_empty}

-- The keys are sorted and not repeated, and something is provided.
pub record IsCanonical (d : CapabilityDefinition) : Type 0 where
  pub requires_sorted : Ascending d.requires
  pub requires_distinct : distinct d.requires ≡ true
  pub provides_sorted : Ascending d.provides
  pub provides_distinct : distinct d.provides ≡ true
  pub provides_some : is_empty d.provides ≡ false

abbrev IsKeySet : List PipelineStateKey → Type 0
IsKeySet ks = Ascending ks × (distinct ks ≡ true)

checked_sort :
    (items ks : List PipelineStateKey) (e : Exception)
    → (require (distinct items) e >> returns (sort items)) ≡ returns ks
    → IsKeySet ks
checked_sort items ks e h =
    let (u, p, q) = >>=-eq-returns (require (distinct items) e) _ h in
    let same : sort items ≡ ks = cc in
    subst IsKeySet same
      (sort-Ascending items, distinct-sort items ∙ require-returns (distinct items) e p)

state_keys-IsKeySet :
    (field : Text) (values : List Text) (ks : List PipelineStateKey)
    → state_keys field values ≡ returns ks
    → IsKeySet ks
unfolding state_keys
state_keys-IsKeySet field values ks h =
    let (items, p, q) = >>=-eq-returns (traverse _ values) _ h in checked_sort items ks _ q

require-empty {ℓ} : {A : Type ℓ} (xs : List A) → not (is_empty xs) ≡ true → is_empty xs ≡ false
require-empty [] h = cc
require-empty (x ∷ xs) h = refl

-- The checked key lists are those of the definition.
define_parts :
    (identity : Option Identity) (requires provides : List Text)
    (display_name description : Option Text) (version : Text) (tags : List Text)
    (name : Option Text) (d : CapabilityDefinition)
    → define identity requires provides display_name description version tags name ≡ returns d
    → (state_keys (text "requires") requires ≡ returns d.requires)
      × (state_keys (text "provides") provides ≡ returns d.provides)
      × (is_empty d.provides ≡ false)
unfolding define
define_parts identity requires provides display_name description version tags name d h =
    ground arith

-- A definition that the constructor accepts lists sorted keys without repetition, and provides
-- at least one key.
pub define-IsCanonical :
    (identity : Option Identity) (requires provides : List Text)
    (display_name description : Option Text) (version : Text) (tags : List Text)
    (name : Option Text) (d : CapabilityDefinition)
    → define identity requires provides display_name description version tags name ≡ returns d
    → IsCanonical d
define-IsCanonical identity requires provides display_name description version tags name d h =
    let (r, p, some_key) =
      define_parts identity requires provides display_name description version tags name d h in
    let (rs, rd) = state_keys-IsKeySet (text "requires") requires d.requires r in
    let (ps, pd) = state_keys-IsKeySet (text "provides") provides d.provides p in
    record {
      requires_sorted = rs;
      requires_distinct = rd;
      provides_sorted = ps;
      provides_distinct = pd;
      provides_some = some_key;
    }
