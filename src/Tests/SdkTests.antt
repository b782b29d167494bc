-- ===== src/Tests/SdkTests.antt =====
-- Runs of the sdk's definitions, and the theorems about them at concrete data.
use red_forge.Base.{
  ◌≡◌, refl, false, ◌&&◌, none, some, List, [], ◌∷◌, text, text_order, nat_order, lookup, distinct,
}
use red_forge.Sdk.StateKey
use red_forge.Sdk.StateKey.{PipelineStateKey, key_order, key_le, from_text}
use red_forge.Sdk.Exception.{Attempt, returns, succeeds}
use red_forge.Sdk.CapabilityId.{is_valid}
use red_forge.Sdk.CapabilityId.Grammar.{matches, is_valid-matches}
use red_forge.Sdk.Definition.{CapabilityDefinition, define, legacy}
use red_forge.Sdk.Definition.Canonical.{IsCanonical, define-IsCanonical}
use red_forge.Sdk.Result.{StatePublication, publication_keys}
use red_forge.Sdk.Context.{Context, publish_many}
use red_forge.Sdk.Context.Publish.{
  IsTyped, all_valid, published, or_else, publish_many_accepts, publish_many_reads,
  publish_many-IsTyped,
}
use red_forge.Tests.Samples.{
  target_context, subdomain_publication, host_publication, runtime, definitions, returned,
}

abbrev two_publications : List StatePublication
two_publications = subdomain_publication ∷ host_publication ∷ []

unfoldable published_context : Context
unfolding runtime
published_context = returned target_context (publish_many two_publications target_context)

two_publish : publish_many two_publications target_context ≡ returns published_context
unfolding runtime published_context
two_publish = refl

repeated_refused :
    succeeds (publish_many (host_publication ∷ host_publication ∷ []) target_context) ≡ false
unfolding runtime
repeated_refused = refl

foreign_text : from_text (text "host") ≡ none
unfolding runtime
foreign_text = refl

empty-IsTyped : IsTyped target_context.state
unfolding lookup
empty-IsTyped = record { at_key = λ k v found. absurd (cc) }

publish_many_accepts_example :
    succeeds (publish_many two_publications target_context)
    ≡ (distinct (publication_keys two_publications) && all_valid two_publications)
publish_many_accepts_example = publish_many_accepts two_publications target_context

publish_many_reads_example :
    (lookup (StateKey.value StateKey.hosts) published_context.state
      ≡ or_else
          (published StateKey.hosts two_publications)
          (lookup (StateKey.value StateKey.hosts) target_context.state))
    × (lookup (text "host") published_context.state ≡ lookup (text "host") target_context.state)
    × (published_context.target_id ≡ target_context.target_id)
    × (published_context.config ≡ target_context.config)
    × (published_context.metadata ≡ target_context.metadata)
publish_many_reads_example =
    publish_many_reads two_publications target_context published_context StateKey.hosts
      (text "host") two_publish foreign_text

publish_many-IsTyped_example : IsTyped published_context.state
publish_many-IsTyped_example =
    publish_many-IsTyped two_publications target_context published_context empty-IsTyped two_publish

is_valid-matches_example : is_valid (text "host_resolution2") ≡ matches (text "host_resolution2")
is_valid-matches_example = is_valid-matches (text "host_resolution2")

double_refused : is_valid (text "host__resolution") ≡ false
unfolding runtime
double_refused = refl

abbrev crawl_attempt : Attempt CapabilityDefinition
crawl_attempt =
    define (some (legacy (text "crawl"))) (text "subdomains" ∷ text "hosts" ∷ [])
      (text "endpoints" ∷ []) none none (text "1.0") (text "Web" ∷ []) none

abbrev no_definition : CapabilityDefinition
no_definition = record {
  capability_id = record { value = [] };
  requires = [];
  provides = [];
  display_name = [];
  description = [];
  version = [];
  tags = [];
}

unfoldable crawl_definition : CapabilityDefinition
unfolding definitions
crawl_definition = returned no_definition crawl_attempt

crawl_defined : crawl_attempt ≡ returns crawl_definition
unfolding definitions crawl_definition
crawl_defined = refl

crawl_requires : crawl_definition.requires ≡ StateKey.hosts ∷ StateKey.subdomains ∷ []
unfolding definitions crawl_definition
crawl_requires = refl

crawl_title : crawl_definition.display_name ≡ text "Crawl"
unfolding definitions crawl_definition
crawl_title = refl

define-IsCanonical_example : IsCanonical crawl_definition
define-IsCanonical_example =
    define-IsCanonical (some (legacy (text "crawl"))) (text "subdomains" ∷ text "hosts" ∷ [])
      (text "endpoints" ∷ []) none none (text "1.0") (text "Web" ∷ []) none crawl_definition
      crawl_defined
