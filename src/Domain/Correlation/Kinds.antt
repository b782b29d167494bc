-- ===== src/Domain/Correlation/Kinds.antt =====
-- redforge/domain/finding_correlation.py, the enumerations. A `StrEnum` is its text.
use red_forge.Base.{
  ◌≡◌, refl, List, [], ◌∷◌, Order, Text, text, text_le, order_along, member_named, text_order,
}

-- CorrelationMatchStrength
pub data CorrelationMatchStrength : Type 0 where
  exact strong possible no_match : CorrelationMatchStrength

abbrev pub strength_value : CorrelationMatchStrength → Text
strength_value exact = text "exact"
strength_value strong = text "strong"
strength_value possible = text "possible"
strength_value no_match = text "no_match"

abbrev pub strength_members : List CorrelationMatchStrength
strength_members = exact ∷ strong ∷ possible ∷ no_match ∷ []

unfoldable pub strength_named : Text → CorrelationMatchStrength
unfolding text_le member_named
strength_named s = member_named exact strength_value strength_members s

pub strength_named-value : (k : CorrelationMatchStrength) → strength_named (strength_value k) ≡ k
unfolding strength_named
strength_named-value exact = refl
strength_named-value strong = refl
strength_named-value possible = refl
strength_named-value no_match = refl

instance abbrev pub strength_order : Order CorrelationMatchStrength
strength_order = order_along strength_value strength_named strength_named-value

-- FindingCorrelationReason
pub data FindingCorrelationReason : Type 0 where
  same_fingerprint same_concrete_reference same_classification same_asset : FindingCorrelationReason
  same_endpoint endpoint_missing_on_one_side same_technology : FindingCorrelationReason
  technology_missing_on_one_side cwe_only_classification title_only_similarity :
      FindingCorrelationReason
  conflicting_concrete_reference conflicting_classification conflicting_endpoint :
      FindingCorrelationReason
  conflicting_technology asset_mismatch insufficient_identity : FindingCorrelationReason

abbrev pub reason_value : FindingCorrelationReason → Text
reason_value same_fingerprint = text "same_fingerprint"
reason_value same_concrete_reference = text "same_concrete_reference"
reason_value same_classification = text "same_classification"
reason_value same_asset = text "same_asset"
reason_value same_endpoint = text "same_endpoint"
reason_value endpoint_missing_on_one_side = text "endpoint_missing_on_one_side"
reason_value same_technology = text "same_technology"
reason_value technology_missing_on_one_side = text "technology_missing_on_one_side"
reason_value cwe_only_classification = text "cwe_only_classification"
reason_value title_only_similarity = text "title_only_similarity"
reason_value conflicting_concrete_reference = text "conflicting_concrete_reference"
reason_value conflicting_classification = text "conflicting_classification"
reason_value conflicting_endpoint = text "conflicting_endpoint"
reason_value conflicting_technology = text "conflicting_technology"
reason_value FindingCorrelationReason.asset_mismatch = text "asset_mismatch"
reason_value insufficient_identity = text "insufficient_identity"

abbrev pub reason_members : List FindingCorrelationReason
reason_members =
    same_fingerprint ∷ same_concrete_reference ∷ same_classification ∷ same_asset ∷ same_endpoint
    ∷ endpoint_missing_on_one_side ∷ same_technology ∷ technology_missing_on_one_side
    ∷ cwe_only_classification ∷ title_only_similarity ∷ conflicting_concrete_reference
    ∷ conflicting_classification ∷ conflicting_endpoint ∷ conflicting_technology
    ∷ FindingCorrelationReason.asset_mismatch ∷ insufficient_identity ∷ []

unfoldable pub reason_named : Text → FindingCorrelationReason
unfolding text_le member_named
reason_named s = member_named same_fingerprint reason_value reason_members s

pub reason_named-value : (k : FindingCorrelationReason) → reason_named (reason_value k) ≡ k
unfolding reason_named
reason_named-value same_fingerprint = refl
reason_named-value same_concrete_reference = refl
reason_named-value same_classification = refl
reason_named-value same_asset = refl
reason_named-value same_endpoint = refl
reason_named-value endpoint_missing_on_one_side = refl
reason_named-value same_technology = refl
reason_named-value technology_missing_on_one_side = refl
reason_named-value cwe_only_classification = refl
reason_named-value title_only_similarity = refl
reason_named-value conflicting_concrete_reference = refl
reason_named-value conflicting_classification = refl
reason_named-value conflicting_endpoint = refl
reason_named-value conflicting_technology = refl
reason_named-value FindingCorrelationReason.asset_mismatch = refl
reason_named-value insufficient_identity = refl

instance abbrev pub reason_order : Order FindingCorrelationReason
reason_order = order_along reason_value reason_named reason_named-value

-- FindingConflictKind
pub data FindingConflictKind : Type 0 where
  asset_mismatch concrete_reference classification endpoint technology : FindingConflictKind

abbrev pub conflict_kind_value : FindingConflictKind → Text
conflict_kind_value FindingConflictKind.asset_mismatch = text "asset_mismatch"
conflict_kind_value FindingConflictKind.concrete_reference = text "concrete_reference"
conflict_kind_value classification = text "classification"
conflict_kind_value endpoint = text "endpoint"
conflict_kind_value technology = text "technology"

abbrev pub conflict_kind_members : List FindingConflictKind
conflict_kind_members =
    FindingConflictKind.asset_mismatch ∷ FindingConflictKind.concrete_reference ∷ classification
    ∷ endpoint ∷ technology ∷ []

unfoldable pub conflict_kind_named : Text → FindingConflictKind
unfolding text_le member_named
conflict_kind_named s =
    member_named FindingConflictKind.asset_mismatch conflict_kind_value conflict_kind_members s

pub conflict_kind_named-value :
    (k : FindingConflictKind) → conflict_kind_named (conflict_kind_value k) ≡ k
unfolding conflict_kind_named
conflict_kind_named-value FindingConflictKind.asset_mismatch = refl
conflict_kind_named-value FindingConflictKind.concrete_reference = refl
conflict_kind_named-value classification = refl
conflict_kind_named-value endpoint = refl
conflict_kind_named-value technology = refl

instance abbrev pub conflict_kind_order : Order FindingConflictKind
conflict_kind_order = order_along conflict_kind_value conflict_kind_named conflict_kind_named-value

-- CanonicalAnchorKind
pub data CanonicalAnchorKind : Type 0 where
  concrete_reference classification_subject : CanonicalAnchorKind

abbrev pub anchor_kind_value : CanonicalAnchorKind → Text
anchor_kind_value CanonicalAnchorKind.concrete_reference = text "concrete_reference"
anchor_kind_value classification_subject = text "classification_subject"

abbrev pub anchor_kind_members : List CanonicalAnchorKind
anchor_kind_members = CanonicalAnchorKind.concrete_reference ∷ classification_subject ∷ []

unfoldable pub anchor_kind_named : Text → CanonicalAnchorKind
unfolding text_le member_named
anchor_kind_named s =
    member_named CanonicalAnchorKind.concrete_reference anchor_kind_value anchor_kind_members s

pub anchor_kind_named-value :
    (k : CanonicalAnchorKind) → anchor_kind_named (anchor_kind_value k) ≡ k
unfolding anchor_kind_named
anchor_kind_named-value CanonicalAnchorKind.concrete_reference = refl
anchor_kind_named-value classification_subject = refl

instance abbrev pub anchor_kind_order : Order CanonicalAnchorKind
anchor_kind_order = order_along anchor_kind_value anchor_kind_named anchor_kind_named-value
