-- ===== src/Sdk/Context.antt =====
-- redforge/sdk/context.py. The keys of the state are strings; a state key is its text.
pub mod Publish
use red_forge.Base.{
  ℕ, ◌≡◌, Bool, true, false, not, ◌||◌, ◌&&◌, Option, none, some, List, [], ◌∷◌, map, ltb, any, all,
  distinct, if◌then◌else◌, sort, Text, text, text_order, ◌==◌, nat_order, Dict, keys, lookup, put,
  update, has,
}
use red_forge.Sdk.StateKey
use red_forge.Sdk.StateKey.{PipelineStateKey, key_order}
use red_forge.Sdk.Exception.{Exception, value_error, Attempt, returns, raises, ◌>>=◌, ◌>>◌, require}
use red_forge.Sdk.CapabilityId.{strip}
use red_forge.Sdk.Definition.{is_blank}
use red_forge.Sdk.Value.{Value, nothing, validate_pipeline_state_value}
use red_forge.Sdk.Result.{StatePublication, publication_keys}

pub record Context : Type 0 where
  pub target_id : Text
  pub config : Dict Text Value
  pub state : Dict Text Value
  pub metadata : Dict Text Value

-- `Context(target_id)` with an initial state
unfoldable pub context : Text → Dict Text Value → Attempt Context
unfolding any strip
context target state =
    if is_blank (strip target) || any (λ c. ltb c 32 || c == 127) target
    then raises (value_error (text "target identifier is invalid"))
    else returns (record { target_id = target; config = []; state = state; metadata = [] })

unfoldable pub available_state_keys : Context → List Text
unfolding sort
available_state_keys c = sort (keys c.state)

unfoldable pub has_key : Context → Text → Bool
unfolding has
has_key c k = has k c.state

unfoldable pub get : Context → Text → Value
unfolding lookup
get c k = elim (lookup k c.state) [ some v ↦ v | none ↦ nothing ]

-- The loop that validates a batch.
unfoldable pub validate_all : List StatePublication → Attempt (Unit {0})
unfolding validate_pipeline_state_value
validate_all [] = returns tt
validate_all (p ∷ ps) = validate_pipeline_state_value p.key p.value >> validate_all ps

abbrev pub updates : List StatePublication → Dict Text Value
updates ps = map (λ p. (StateKey.value p.key, p.value)) ps

-- The batch is checked whole before the state changes.
unfoldable pub publish_many : List StatePublication → Context → Attempt Context
unfolding validate_all distinct update
publish_many ps c = do
  require (distinct (publication_keys ps))
      (value_error (text "publication batch contains duplicate state keys"))
  validate_all ps
  returns (record c { state = update c.state (updates ps) })

unfoldable pub publish : StatePublication → Context → Attempt Context
unfolding publish_many
publish p = publish_many (p ∷ [])
