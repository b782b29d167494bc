-- ===== src/Domain/Finding/Record.antt =====
-- Finding records and their fingerprints: redforge/domain/finding_intelligence.py.
use red_forge.Base.{
  ℕ, refl, Bool, ◌||◌, ◌&&◌, not, Option, none, some, List, [], ◌∷◌, ◌++◌, ◌==◌, nat_order, length,
  all, Text, text, text_order, text_le, Order, order_along, pair_order, option_order, sorted_set,
  decimal, leb,
}
use red_forge.Sdk.Exception.{Attempt, returns, ◌>>=◌, ◌>>◌, require, value_error}
use red_forge.Sdk.CapabilityId.{is_digit}
use red_forge.Domain.Strings.{Platform}
use red_forge.Domain.Hostname.{is_empty}
use red_forge.Domain.Finding.Subjects.{FindingStatus, status_order, asset_kind_value}
use red_forge.Domain.Finding.Subject.{
  AffectedAsset, AffectedEndpoint, AffectedTechnology, FindingIdentity, asset_order, endpoint_order,
  technology_order, identity_order,
}
use red_forge.Domain.Finding.Metadata.{
  FindingClassification, FindingMetadata, FindingEvidence, classification_order, metadata_order,
  evidence_order, evidences_order,
}
use red_forge.Domain.Finding.Slug.{checked_text, invalid}

pub record FindingFingerprint : Type 0 where
  pub value : Text

pub record FindingContext : Type 0 where
  pub asset : AffectedAsset
  pub endpoint : Option AffectedEndpoint
  pub technology : Option AffectedTechnology

pub record FindingRecord : Type 0 where
  pub identity : FindingIdentity
  pub fingerprint : FindingFingerprint
  pub classification : FindingClassification
  pub context : FindingContext
  pub evidence : List FindingEvidence
  pub metadata : FindingMetadata
  pub status : FindingStatus

instance abbrev pub fingerprint_order : Order FindingFingerprint
fingerprint_order =
    order_along (λ (f : FindingFingerprint). f.value) (λ value. record { value = value })
      (λ _. refl)

instance abbrev pub context_order : Order FindingContext
context_order =
    order_along (λ (c : FindingContext). (c.asset, (c.endpoint, c.technology)))
      (λ (asset, (endpoint, technology)). record {
        asset = asset;
        endpoint = endpoint;
        technology = technology;
      })
      (λ _. refl)

-- Only the equality is the program's: the dataclass compares its fields.
instance abbrev pub record_order : Order FindingRecord
record_order =
    order_along
      (λ (r : FindingRecord). (
        r.fingerprint,
        (r.identity, (r.classification, (r.context, (r.evidence, (r.metadata, r.status))))),
      ))
      (λ (fingerprint, (identity, (classification, (context, (evidence, (metadata, status)))))).
        record {
          identity = identity;
          fingerprint = fingerprint;
          classification = classification;
          context = context;
          evidence = evidence;
          metadata = metadata;
          status = status;
        })
      (λ _. refl)

-- `[0-9a-f]`
abbrev pub is_hex : ℕ → Bool
is_hex c = is_digit c || (leb 97 c && leb c 102)

-- `FindingFingerprint(value)`
unfoldable pub finding_fingerprint_of : Text → Attempt FindingFingerprint
unfolding checked_text all
finding_fingerprint_of value = checked_text (text "finding fingerprint") 64 value >>= λ checked.
    require (length checked == 64 && all is_hex checked) (invalid (text "finding fingerprint"))
    >> returns (record { value = checked })

-- The four texts of an endpoint in a payload, and the two of a technology.
abbrev pub endpoint_texts : Option AffectedEndpoint → List Text
endpoint_texts none = [] ∷ [] ∷ [] ∷ [] ∷ []
endpoint_texts (some e) = e.scheme ∷ e.hostname ∷ decimal e.port ∷ e.path ∷ []

abbrev pub or_empty : Option Text → Text
or_empty none = []
or_empty (some s) = s

abbrev pub technology_texts : Option AffectedTechnology → List Text
technology_texts none = [] ∷ [] ∷ []
technology_texts (some t) = t.name ∷ or_empty t.version ∷ []

unfoldable pub identity_payload : FindingIdentity → List Text
unfolding decimal
identity_payload i =
    i.classification_id
    ∷ asset_kind_value i.asset.kind
    ∷ i.asset.value
    ∷ (endpoint_texts i.endpoint ++ technology_texts i.technology)

-- The identity of a context, as that of the record names it.
unfoldable pub matches_identity : FindingContext → FindingIdentity → Bool
unfolding text_le
matches_identity c i =
    c.asset == i.asset && c.endpoint == i.endpoint && c.technology == i.technology

module _ (p : Platform) where
  unfoldable pub finding_fingerprint : FindingIdentity → Attempt FindingFingerprint
  unfolding finding_fingerprint_of identity_payload
  finding_fingerprint identity = finding_fingerprint_of (p.digest (identity_payload identity))

  -- `FindingRecord(identity, fingerprint, classification, context, evidence, metadata, status)`
  unfoldable pub finding_record :
      FindingIdentity
      → FindingFingerprint
      → FindingClassification
      → FindingContext
      → List FindingEvidence
      → FindingMetadata
      → FindingStatus
      → Attempt FindingRecord
  unfolding finding_fingerprint matches_identity sorted_set text_le
  finding_record identity fingerprint classification context evidence metadata status = do
    expected ← finding_fingerprint identity
    _ ←
        require (fingerprint == expected)
          (value_error (text "finding fingerprint does not match identity"))
    _ ←
        require (classification.identifier == identity.classification_id)
          (value_error (text "finding classification does not match identity"))
    _ ←
        require (matches_identity context identity)
          (value_error (text "finding context does not match identity"))
    _ ← require (not (is_empty evidence)) (value_error (text "finding record requires evidence"))
    returns (record {
      identity = identity;
      fingerprint = fingerprint;
      classification = classification;
      context = context;
      evidence = sorted_set evidence;
      metadata = metadata;
      status = status;
    })
