-- ===== src/Domain/Correlation/Anchor.antt =====
-- The anchor of a group and the canonical identity that is made of it:
-- redforge/domain/finding_correlation.py.
pub mod Stable
use red_forge.Base.{
  ℕ, ◌≡◌, refl, Bool, true, false, ◌||◌, ◌&&◌, not, Option, none, some, List, [], ◌∷◌, ◌++◌, ◌==◌,
  nat_order, leb, if◌then◌else◌, length, all, keep, contains, map, Text, text, text_order, arith,
  Order, order_along, option_order, pair_order, dedup,
}
use red_forge.Sdk.Exception.{Attempt, returns, raises, ◌>>=◌, ◌>>◌, require, value_error, Exception}
use red_forge.Domain.Strings.{Platform}
use red_forge.Domain.Hostname.{is_empty}
use red_forge.Domain.Scope.{after_prefix}
use red_forge.Domain.Finding.Subjects.{asset_kind_value, reference_kind_value}
use red_forge.Domain.Finding.Subject.{
  AffectedAsset, AffectedEndpoint, AffectedTechnology, asset_order, endpoint_order,
  technology_order,
}
use red_forge.Domain.Finding.Reference.{FindingReference, reference_order, matches}
use red_forge.Domain.Finding.Record.{endpoint_texts, technology_texts, or_empty, is_hex}
use red_forge.Domain.Correlation.Kinds.{
  CanonicalAnchorKind, concrete_reference, classification_subject, anchor_kind_order,
  anchor_kind_value,
}
use red_forge.Domain.Correlation.Key.{is_concrete, validate_classification_id}
use red_forge.Domain.Correlation.Compare.{Keyed, selected_concrete_anchor}

pub record CanonicalFindingAnchor : Type 0 where
  pub kind : CanonicalAnchorKind
  pub asset : AffectedAsset
  pub reference : Option FindingReference
  pub classification_id : Option Text
  pub endpoint : Option AffectedEndpoint
  pub technology : Option AffectedTechnology

instance abbrev pub anchor_order : Order CanonicalFindingAnchor
anchor_order =
    order_along
      (λ (a : CanonicalFindingAnchor).
        (a.kind, (a.asset, (a.reference, (a.classification_id, (a.endpoint, a.technology))))))
      (λ (kind, (asset, (reference, (classification_id, (endpoint, technology))))). record {
        kind = kind;
        asset = asset;
        reference = reference;
        classification_id = classification_id;
        endpoint = endpoint;
        technology = technology;
      })
      (λ _. refl)

abbrev pub invalid_concrete_anchor : Exception
invalid_concrete_anchor = value_error (text "concrete canonical anchor is invalid")

-- The checks of `CanonicalFindingAnchor.__post_init__`, by the kind, the reference and the
-- classification.
unfoldable pub check_anchor :
    CanonicalAnchorKind → Option FindingReference → Option Text → Attempt (Unit {0})
check_anchor concrete_reference none c = raises invalid_concrete_anchor
check_anchor concrete_reference (some r) (some c) = raises invalid_concrete_anchor
check_anchor concrete_reference (some r) none = require (is_concrete r.kind) invalid_concrete_anchor
check_anchor classification_subject (some r) c =
    raises (value_error (text "classification canonical anchor is invalid"))
check_anchor classification_subject none none =
    raises (value_error (text "correlation classification is invalid"))
check_anchor classification_subject none (some c) = validate_classification_id c

-- `CanonicalFindingAnchor(...)`
unfoldable pub canonical_finding_anchor : CanonicalFindingAnchor → Attempt CanonicalFindingAnchor
canonical_finding_anchor a = check_anchor a.kind a.reference a.classification_id >> returns a

-- `xs & ys`
unfoldable pub intersect : List FindingReference → List FindingReference → List FindingReference
intersect xs ys = keep (λ r. contains r ys) xs

unfoldable pub common_concrete : List FindingReference → List Keyed → List FindingReference
common_concrete found [] = found
common_concrete found (k ∷ ks) = common_concrete (intersect found k.key.concrete_references) ks

-- `{x for x in xs if x is not None}`
unfoldable pub present {ℓ} : {A : Type ℓ} → List (Option A) → List A
present [] = []
present (none ∷ os) = present os
present (some a ∷ os) = a ∷ present os

-- `next(iter(xs)) if len(xs) == 1 else None`
abbrev pub only {ℓ} : {A : Type ℓ} → List A → Option A
only [] = none
only (a ∷ []) = some a
only (a ∷ b ∷ s) = none

unfoldable pub common_endpoint : List Keyed → Option AffectedEndpoint
common_endpoint ks = only (dedup (present (map (λ (k : Keyed). k.key.endpoint) ks)))

unfoldable pub common_technology : List Keyed → Option AffectedTechnology
common_technology ks = only (dedup (present (map (λ (k : Keyed). k.key.technology) ks)))

unfoldable pub selected_anchors : List Keyed → List (Option FindingReference)
selected_anchors ks =
    dedup (map (λ (k : Keyed). selected_concrete_anchor k.key.concrete_references) ks)

abbrev pub unstable_anchor : Exception
unstable_anchor = value_error (text "correlated records do not share a stable concrete anchor")

-- The one reference that all keys select first.
abbrev pub stable_reference : List (Option FindingReference) → Attempt FindingReference
stable_reference [] = raises unstable_anchor
stable_reference (none ∷ []) = raises unstable_anchor
stable_reference (some r ∷ []) = returns r
stable_reference (a ∷ b ∷ s) = raises unstable_anchor

abbrev pub concrete_anchor : Keyed → List Keyed → FindingReference → CanonicalFindingAnchor
concrete_anchor k ks reference = record {
  kind = concrete_reference;
  asset = k.key.asset;
  reference = some reference;
  classification_id = none;
  endpoint = common_endpoint (k ∷ ks);
  technology = common_technology (k ∷ ks);
}

abbrev pub classification_anchor : Keyed → CanonicalFindingAnchor
classification_anchor k = record {
  kind = classification_subject;
  asset = k.source.identity.asset;
  reference = none;
  classification_id = some k.source.identity.classification_id;
  endpoint = k.source.identity.endpoint;
  technology = k.source.identity.technology;
}

-- `_anchor_for` of the records with their keys, of which there is a first one.
unfoldable pub anchor_for : Keyed → List Keyed → Attempt CanonicalFindingAnchor
anchor_for k ks =
    let stable = stable_reference (selected_anchors (k ∷ ks)) >>= λ reference.
    canonical_finding_anchor (concrete_anchor k ks reference) in
    if is_empty (common_concrete k.key.concrete_references ks)
    then canonical_finding_anchor (classification_anchor k)
    else stable

pub record CanonicalFindingId : Type 0 where
  pub value : Text

instance abbrev pub finding_id_order : Order CanonicalFindingId
finding_id_order =
    order_along (λ (i : CanonicalFindingId). i.value) (λ value. record { value = value })
      (λ _. refl)

-- `CanonicalFindingId(value)`
unfoldable pub canonical_finding_id : Text → Attempt CanonicalFindingId
canonical_finding_id value =
    require (matches (λ s. length s == 64 && all is_hex s) (after_prefix value (text "finding_")))
      (value_error (text "canonical finding ID is invalid"))
    >> returns (record { value = value })

abbrev pub anchor_reference_texts : Option FindingReference → List Text
anchor_reference_texts none = [] ∷ [] ∷ []
anchor_reference_texts (some r) = reference_kind_value r.kind ∷ r.value ∷ []

unfoldable pub anchor_payload : CanonicalFindingAnchor → List Text
anchor_payload a =
    anchor_kind_value a.kind
    ∷ (anchor_reference_texts a.reference
        ++ (or_empty a.classification_id
            ∷ asset_kind_value a.asset.kind
            ∷ a.asset.value
            ∷ (endpoint_texts a.endpoint ++ technology_texts a.technology)))

-- `CanonicalFindingId.from_anchor`
unfoldable pub id_from_anchor : Platform → CanonicalFindingAnchor → Attempt CanonicalFindingId
id_from_anchor p a = canonical_finding_id (text "finding_" ++ p.digest (anchor_payload a))
