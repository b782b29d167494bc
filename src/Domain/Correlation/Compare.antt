-- ===== src/Domain/Correlation/Compare.antt =====
-- `FindingCorrelator.compare`: redforge/domain/finding_correlation.py. The stages of the method are
-- functions; each hands on the reasons and conflicts that were found before it.
pub mod Symmetry
pub mod Merging
use red_forge.Base.{
  ℕ, ◌≡◌, refl, Bool, true, false, ◌||◌, ◌&&◌, not, Option, none, some, List, [], ◌∷◌, ◌++◌, ◌==◌,
  if◌then◌else◌, any, keep, contains, Text, text_order, text_le, arith, Order, pair_order,
  nat_order, option_order,
}
use red_forge.Sdk.Exception.{Attempt, returns, raises, ◌>>=◌}
use red_forge.Domain.Strings.{Platform}
use red_forge.Domain.Hostname.{is_empty}
use red_forge.Domain.Finding.Subjects.{
  FindingReferenceKind, cve, cwe, ghsa, osv, vendor_advisory, research_article, internal,
  reference_kind_order,
}
use red_forge.Domain.Finding.Subject.{asset_order, endpoint_order, technology_order}
use red_forge.Domain.Finding.Reference.{FindingReference, reference_order}
use red_forge.Domain.Finding.Record.{FindingRecord, FindingFingerprint, fingerprint_order}
use red_forge.Domain.Correlation.Kinds.{
  CorrelationMatchStrength, exact, strong, possible, no_match, FindingCorrelationReason,
  FindingConflictKind, same_fingerprint, same_concrete_reference, same_classification, same_asset,
  same_endpoint, endpoint_missing_on_one_side, same_technology, technology_missing_on_one_side,
  cwe_only_classification, title_only_similarity, conflicting_concrete_reference,
  conflicting_classification, conflicting_endpoint, conflicting_technology, insufficient_identity,
}
use red_forge.Domain.Correlation.Key.{FindingCorrelationKey, key_from_record}
use red_forge.Domain.Correlation.Decision.{
  FindingConflict, FindingCorrelationDecision, normal_decision,
}

-- A record with its key.
pub record Keyed : Type 0 where
  pub source : FindingRecord
  pub key : FindingCorrelationKey

-- `bool(left & right)` of two sets
unfoldable pub shares : List FindingReference → List FindingReference → Bool
shares left right = any (λ r. contains r right) left

abbrev pub of_kind : FindingReferenceKind → List FindingReference → List FindingReference
of_kind k refs = keep (λ (r : FindingReference). r.kind == k) refs

-- The references of one kind on both sides, none of them on both.
unfoldable pub kinds_conflict :
    List FindingReference → List FindingReference → FindingReferenceKind → Bool
kinds_conflict left right k =
    not (is_empty (of_kind k left))
    && not (is_empty (of_kind k right))
    && not (shares (of_kind k left) (of_kind k right))

-- `_concrete_references_conflict`
unfoldable pub concrete_references_conflict : List FindingReference → List FindingReference → Bool
concrete_references_conflict left right =
    not (is_empty left)
    && not (is_empty right)
    && (not (shares left right) || any (kinds_conflict left right) (cve ∷ ghsa ∷ osv ∷ []))

-- `priority[reference.kind]`; the other kinds are no concrete references.
abbrev pub priority : FindingReferenceKind → ℕ
priority cve = 0
priority ghsa = 1
priority osv = 2
priority cwe = 3
priority vendor_advisory = 3
priority research_article = 3
priority internal = 3

-- `_reference_anchor_key`
abbrev pub reference_anchor_key : FindingReference → ℕ × Text
reference_anchor_key r = (priority r.kind, r.value)

-- The first of the smallest by the key.
unfoldable pub smallest : FindingReference → List FindingReference → FindingReference
smallest r [] = r
smallest r (s ∷ rs) =
    let kept = smallest r rs in
    let taken = smallest s rs in
    if pair_order.le (reference_anchor_key r) (reference_anchor_key s) then kept else taken

-- `_selected_concrete_anchor`
unfoldable pub selected_concrete_anchor : List FindingReference → Option FindingReference
selected_concrete_anchor [] = none
selected_concrete_anchor (r ∷ rs) = some (smallest r rs)

unfoldable pub same_concrete_anchor : FindingCorrelationKey → FindingCorrelationKey → Bool
same_concrete_anchor left right =
    shares left.concrete_references right.concrete_references
    && selected_concrete_anchor left.concrete_references
      == selected_concrete_anchor right.concrete_references

-- How two optional parts of the keys stand to each other.
pub data Agreement : Type 0 where
  both_missing one_missing equal different : Agreement

unfoldable pub agreement {ℓ} : {A : Type ℓ} → ⦃o : Order A⦄ → Option A → Option A → Agreement
agreement none none = both_missing
agreement none (some b) = one_missing
agreement (some a) none = one_missing
agreement (some a) (some b) = if a == b then equal else different

abbrev pub blocking : FindingConflictKind → FindingConflict
blocking kind = record { kind = kind; blocking = true }

module _ (left right : Keyed) where
  -- `_decision(left, right, ...)`; the reasons are never empty, which is all that the constructor asks.
  unfoldable pub decision :
      CorrelationMatchStrength
      → List FindingCorrelationReason
      → List FindingConflict
      → FindingCorrelationDecision
  decision strength reasons conflicts =
      normal_decision left.source.fingerprint right.source.fingerprint strength reasons conflicts

  abbrev pub shared_concrete : Bool
  shared_concrete = shares left.key.concrete_references right.key.concrete_references

  abbrev pub same_classification_id : Bool
  same_classification_id = left.key.classification_id == right.key.classification_id

  -- `complete_endpoint and complete_technology`
  unfoldable pub is_complete : Bool
  is_complete =
      elim (agreement left.key.endpoint right.key.endpoint) [ equal ↦ true | _ ↦ false ]
      && elim (agreement left.key.technology right.key.technology) [
        | both_missing ↦ true
        | equal ↦ true
        | _ ↦ false
      ]

  -- Without a shared concrete reference: the weaknesses and the titles.
  unfoldable pub compare_weaknesses :
      List FindingCorrelationReason → List FindingConflict → FindingCorrelationDecision
  compare_weaknesses reasons conflicts =
      let weak =
        if shares left.key.weakness_references right.key.weakness_references
        then cwe_only_classification ∷ reasons
        else reasons in
      let titled =
        if left.key.normalized_title == right.key.normalized_title
        then title_only_similarity ∷ weak
        else weak in
      if same_classification_id
      then decision possible (insufficient_identity ∷ weak) conflicts
      else decision no_match titled conflicts

  -- From the comparison of the fingerprints on.
  unfoldable pub compare_identities :
      List FindingCorrelationReason → List FindingConflict → FindingCorrelationDecision
  compare_identities reasons conflicts =
      if left.source.fingerprint == right.source.fingerprint
      then decision exact (same_fingerprint ∷ reasons) conflicts
      else if same_concrete_anchor left.key right.key
      then decision (if is_complete then exact else strong) reasons conflicts
      else if shared_concrete
      then decision possible (insufficient_identity ∷ reasons) conflicts
      else compare_weaknesses reasons conflicts

  -- From the comparison of the classifications on.
  unfoldable pub compare_classifications :
      List FindingCorrelationReason → FindingCorrelationDecision
  compare_classifications reasons =
      if same_classification_id
      then compare_identities (same_classification ∷ reasons) []
      else compare_identities (conflicting_classification ∷ reasons) (
          record { kind = FindingConflictKind.classification; blocking = not shared_concrete } ∷ [])

  unfoldable pub after_technologies :
      List FindingCorrelationReason → Agreement → FindingCorrelationDecision
  after_technologies reasons different =
      decision no_match (conflicting_technology ∷ reasons)
        (blocking FindingConflictKind.technology ∷ [])
  after_technologies reasons equal = compare_classifications (same_technology ∷ reasons)
  after_technologies reasons one_missing =
      compare_classifications (technology_missing_on_one_side ∷ reasons)
  after_technologies reasons both_missing = compare_classifications reasons

  abbrev pub compare_technologies : List FindingCorrelationReason → FindingCorrelationDecision
  compare_technologies reasons =
      after_technologies reasons (agreement left.key.technology right.key.technology)

  unfoldable pub after_endpoints :
      List FindingCorrelationReason → Agreement → FindingCorrelationDecision
  after_endpoints reasons different =
      decision no_match (conflicting_endpoint ∷ reasons)
        (blocking FindingConflictKind.endpoint ∷ [])
  after_endpoints reasons equal = compare_technologies (same_endpoint ∷ reasons)
  after_endpoints reasons one_missing =
      compare_technologies (endpoint_missing_on_one_side ∷ reasons)
  after_endpoints reasons both_missing = compare_technologies reasons

  -- From the comparison of the concrete references on.
  unfoldable pub compare_references : FindingCorrelationDecision
  compare_references =
      if concrete_references_conflict left.key.concrete_references right.key.concrete_references
      then decision no_match (conflicting_concrete_reference ∷ same_asset ∷ [])
          (blocking FindingConflictKind.concrete_reference ∷ [])
      else after_endpoints
          (if shared_concrete then same_concrete_reference ∷ same_asset ∷ [] else same_asset ∷ [])
          (agreement left.key.endpoint right.key.endpoint)

  -- `compare` of two records whose keys are known.
  unfoldable pub compare_keyed : FindingCorrelationDecision
  compare_keyed =
      if left.key.asset == right.key.asset
      then compare_references
      else decision no_match (FindingCorrelationReason.asset_mismatch ∷ [])
          (blocking FindingConflictKind.asset_mismatch ∷ [])

module _ (p : Platform) where
  unfoldable pub keyed : FindingRecord → Attempt Keyed
  keyed r = key_from_record p r >>= λ k. returns (record { source = r; key = k })

  -- `FindingCorrelator.compare`
  unfoldable pub compare : FindingRecord → FindingRecord → Attempt FindingCorrelationDecision
  compare left right = do l ← keyed left; r ← keyed right; returns (compare_keyed l r)
