-- ===== src/Domain/Correlation/Aggregate.antt =====
-- `CanonicalFinding` and `_aggregate`: redforge/domain/finding_correlation.py.
pub mod Strongest
use red_forge.Base.{
  ℕ, ◌≡◌, refl, Bool, true, false, ◌||◌, ◌&&◌, not, Option, none, some, List, [], ◌∷◌, ◌++◌, ◌==◌,
  nat_order, leb, ltb, if◌then◌else◌, length, keep, map, Text, text, text_order, arith, Order,
  order_along, option_order, pair_order, list_order, sorted_set,
}
use red_forge.Sdk.Exception.{
  Attempt, returns, raises, ◌>>=◌, ◌>>◌, require, value_error, Exception, traverse,
}
use red_forge.Domain.Strings.{Platform}
use red_forge.Domain.Hostname.{is_empty}
use red_forge.Domain.Finding.Subjects.{FindingSeverity, severity_order}
use red_forge.Domain.Finding.Observations.{
  DetectionMethod, EvidenceConfidence, EvidenceQuality, method_order, confidence_order,
  quality_order,
}
use red_forge.Domain.Finding.Reference.{FindingReference, reference_order}
use red_forge.Domain.Finding.Metadata.{
  EvidenceSource, EvidenceSummary, FindingEvidence, source_order, summary_order, references_order,
}
use red_forge.Domain.Finding.Record.{FindingRecord, record_order}
use red_forge.Domain.Correlation.Key.{max_aggregate_items}
use red_forge.Domain.Correlation.Decision.{
  FindingConflict, FindingCorrelationDecision, conflict_order, conflicts_order,
}
use red_forge.Domain.Correlation.Compare.{Keyed, compare_keyed, keyed}
use red_forge.Domain.Correlation.Group.{record_tuple, pair_decisions}
use red_forge.Domain.Correlation.Anchor.{
  CanonicalFindingAnchor, CanonicalFindingId, anchor_for, id_from_anchor, anchor_order,
  finding_id_order,
}

pub record CanonicalFinding : Type 0 where
  pub canonical_id : CanonicalFindingId
  pub anchor : CanonicalFindingAnchor
  pub source_records : List FindingRecord
  pub references : List FindingReference
  pub evidence_summaries : List EvidenceSummary
  pub detection_methods : List DetectionMethod
  pub provenance_sources : List EvidenceSource
  pub observed_severities : List FindingSeverity
  pub strongest_confidence : EvidenceConfidence
  pub strongest_evidence_quality : EvidenceQuality
  pub conflicts : List FindingConflict

-- `_value_tuple`
unfoldable pub value_tuple {ℓ} : {A : Type ℓ} ⦃o : Order A⦄ → List A → Attempt (List A)
value_tuple items =
    require (leb (length items) max_aggregate_items)
      (value_error (text "canonical aggregate collection is too large"))
    >> returns (sorted_set items)

-- `_CONFIDENCE_RANK`
abbrev pub confidence_rank : EvidenceConfidence → ℕ
confidence_rank EvidenceConfidence.unknown = 0
confidence_rank EvidenceConfidence.low = 1
confidence_rank EvidenceConfidence.medium = 2
confidence_rank EvidenceConfidence.high = 3
confidence_rank EvidenceConfidence.certain = 4

-- `_QUALITY_RANK`
abbrev pub quality_rank : EvidenceQuality → ℕ
quality_rank EvidenceQuality.unknown = 0
quality_rank EvidenceQuality.weak = 1
quality_rank EvidenceQuality.normal = 2
quality_rank EvidenceQuality.strong = 3
quality_rank EvidenceQuality.verified = 4

-- `max(...)` by a rank, with the best item so far: the first of the greatest.
unfoldable pub max_from {ℓ} : {A : Type ℓ} → (A → ℕ) → A → List A → A
max_from rank best [] = best
max_from rank best (x ∷ xs) =
    let taken = max_from rank x xs in
    let kept = max_from rank best xs in if ltb (rank best) (rank x) then taken else kept

unfoldable pub max_by {ℓ} : {A : Type ℓ} → (A → ℕ) → List A → Attempt A
max_by rank [] = raises (value_error (text "max() iterable argument is empty"))
max_by rank (x ∷ xs) = returns (max_from rank x xs)

unfoldable pub concat_map {ℓ κ} : {A : Type ℓ} {B : Type κ} → (A → List B) → List A → List B
concat_map f [] = []
concat_map f (x ∷ xs) = f x ++ concat_map f xs

-- The conflicts of the pairs that do not block.
unfoldable pub retained_conflicts : List Keyed → List FindingConflict
retained_conflicts ks =
    concat_map
      (λ (d : FindingCorrelationDecision).
        keep (λ (c : FindingConflict). not c.blocking) d.conflicts)
      (pair_decisions ks)

module _ (p : Platform) where
  -- `CanonicalFinding.__post_init__`, with the fields as they are given.
  unfoldable pub canonical_finding : CanonicalFinding → Attempt CanonicalFinding
  canonical_finding f = do
    expected ← id_from_anchor p f.anchor
    _ ←
        require (f.canonical_id == expected)
          (value_error (text "canonical finding identity does not match anchor"))
    source_records ← record_tuple p f.source_records
    _ ←
        require (not (is_empty source_records))
          (value_error (text "canonical finding requires source records"))
    references ← value_tuple f.references
    summaries ← value_tuple f.evidence_summaries
    sources ← value_tuple f.provenance_sources
    returns (record {
      canonical_id = f.canonical_id;
      anchor = f.anchor;
      source_records = source_records;
      references = references;
      evidence_summaries = summaries;
      detection_methods = sorted_set f.detection_methods;
      provenance_sources = sources;
      observed_severities = sorted_set f.observed_severities;
      strongest_confidence = f.strongest_confidence;
      strongest_evidence_quality = f.strongest_evidence_quality;
      conflicts = sorted_set f.conflicts;
    })

  abbrev pub sources_of : List FindingRecord → List FindingEvidence → List EvidenceSource
  sources_of records evidence =
      map (λ (r : FindingRecord). r.metadata.source) records
      ++ map (λ (e : FindingEvidence). e.source) evidence

  abbrev pub anchor_of : List Keyed → Attempt CanonicalFindingAnchor
  anchor_of [] = raises (value_error (text "tuple index out of range"))
  anchor_of (k ∷ ks) = anchor_for k ks

  -- `_aggregate` from the ordered records on.
  unfoldable pub aggregate_keyed : List FindingRecord → List Keyed → Attempt CanonicalFinding
  aggregate_keyed ordered ks = do
    anchor ← anchor_of ks
    let evidence = concat_map (λ (r : FindingRecord). r.evidence) ordered
    canonical_id ← id_from_anchor p anchor
    confidence ← max_by confidence_rank (map (λ (e : FindingEvidence). e.confidence) evidence)
    quality ← max_by quality_rank (map (λ (e : FindingEvidence). e.quality) evidence)
    canonical_finding (record {
      canonical_id = canonical_id;
      anchor = anchor;
      source_records = ordered;
      references = concat_map (λ (r : FindingRecord). r.metadata.references) ordered;
      evidence_summaries = map (λ (e : FindingEvidence). e.summary) evidence;
      detection_methods = map (λ (e : FindingEvidence). e.method) evidence;
      provenance_sources = sources_of ordered evidence;
      observed_severities = map (λ (r : FindingRecord). r.classification.severity) ordered;
      strongest_confidence = confidence;
      strongest_evidence_quality = quality;
      conflicts = retained_conflicts ks;
    })

  -- `_aggregate`
  unfoldable pub aggregate : List FindingRecord → Attempt CanonicalFinding
  aggregate records = do
    ordered ← record_tuple p records
    ks ← traverse (keyed p) ordered
    aggregate_keyed ordered ks
