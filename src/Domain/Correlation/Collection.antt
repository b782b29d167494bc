-- ===== src/Domain/Correlation/Collection.antt =====
-- `CanonicalFindingCollection`, `FindingCorrelator.group` and `FindingCorrelator.correlate`:
-- redforge/domain/finding_correlation.py. The keys are made once, before the loop: the loop would
-- make them again for each comparison, and the first record that has none ends both ways.
pub mod Reordering
use red_forge.Base.{
  ℕ, ◌≡◌, refl, Bool, true, false, ◌||◌, ◌&&◌, not, Option, none, some, List, [], ◌∷◌, ◌++◌, ◌==◌,
  leb, if◌then◌else◌, length, all, map, Text, text, arith, Order, order_along, option_order,
  pair_order, list_order, sorted_set, sort, Dict, keys, lookup, put,
}
use red_forge.Sdk.Exception.{
  Attempt, returns, raises, ◌>>=◌, ◌>>◌, require, value_error, type_error, Exception, traverse,
}
use red_forge.Domain.Strings.{Platform}
use red_forge.Domain.Finding.Subjects.{FindingSeverity, severity_order}
use red_forge.Domain.Finding.Observations.{
  DetectionMethod, method_order, confidence_order, quality_order,
}
use red_forge.Domain.Finding.Metadata.{
  EvidenceSource, EvidenceSummary, source_order, summary_order, references_order,
}
use red_forge.Domain.Finding.Record.{FindingRecord, record_order}
use red_forge.Domain.Finding.Collection.{finding_record_collection}
use red_forge.Domain.Correlation.Decision.{
  FindingCorrelationDecision, automatic_merge, decision_order, conflicts_order,
}
use red_forge.Domain.Correlation.Compare.{Keyed, keyed}
use red_forge.Domain.Correlation.Group.{
  record_tuple, group_records, unmerged, max_correlation_records, max_unmerged_decisions,
}
use red_forge.Domain.Correlation.Anchor.{CanonicalFindingId, anchor_order, finding_id_order}
use red_forge.Domain.Correlation.Aggregate.{CanonicalFinding, aggregate}

instance abbrev records_order : Order (List FindingRecord)
records_order = list_order

instance abbrev summaries_order : Order (List EvidenceSummary)
summaries_order = list_order

instance abbrev methods_order : Order (List DetectionMethod)
methods_order = list_order

instance abbrev sources_order : Order (List EvidenceSource)
sources_order = list_order

instance abbrev severities_order : Order (List FindingSeverity)
severities_order = list_order

-- Only the equality is the program's: the dataclass compares its fields.
instance abbrev canonical_order : Order CanonicalFinding
canonical_order =
    order_along
      (λ (f : CanonicalFinding). (
        f.canonical_id,
        (
          f.anchor,
          (
            f.source_records,
            (
              f.references,
              (
                f.evidence_summaries,
                (
                  f.detection_methods,
                  (
                    f.provenance_sources,
                    (
                      f.observed_severities,
                      (f.strongest_confidence, (f.strongest_evidence_quality, f.conflicts)),
                    ),
                  ),
                ),
              ),
            ),
          ),
        ),
      ))
      (λ (i, (a, (rs, (refs, (es, (ms, (ss, (vs, (c, (q, cs)))))))))). record {
        canonical_id = i;
        anchor = a;
        source_records = rs;
        references = refs;
        evidence_summaries = es;
        detection_methods = ms;
        provenance_sources = ss;
        observed_severities = vs;
        strongest_confidence = c;
        strongest_evidence_quality = q;
        conflicts = cs;
      })
      (λ _. refl)

pub record CanonicalFindingCollection : Type 0 where
  pub findings : List CanonicalFinding
  pub unmerged_decisions : List FindingCorrelationDecision

abbrev pub IdIndex : Type 0
IdIndex = Dict CanonicalFindingId CanonicalFinding

-- `existing is not None and existing != finding`
abbrev pub is_same_finding : CanonicalFinding → Option CanonicalFinding → Bool
is_same_finding f none = true
is_same_finding f (some existing) = existing == f

-- `by_id.setdefault(finding.canonical_id, finding)`
unfoldable pub keep_finding : CanonicalFinding → Option CanonicalFinding → IdIndex → IdIndex
keep_finding f none d = put f.canonical_id f d
keep_finding f (some _) d = d

abbrev pub conflicting_identities : Exception
conflicting_identities = value_error (text "canonical finding identities conflict")

-- The loop over the findings.
unfoldable pub index_findings : IdIndex → List CanonicalFinding → Attempt IdIndex
index_findings d [] = returns d
index_findings d (f ∷ fs) =
    let rest = index_findings (keep_finding f (lookup f.canonical_id d) d) fs in
    require (is_same_finding f (lookup f.canonical_id d)) conflicting_identities >> rest

abbrev pub onto_finding : Option CanonicalFinding → List CanonicalFinding → List CanonicalFinding
onto_finding none fs = fs
onto_finding (some f) fs = f ∷ fs

-- `tuple(by_id[key] for key in keys)`, where every key has a finding.
unfoldable pub findings_at : IdIndex → List CanonicalFindingId → List CanonicalFinding
findings_at d [] = []
findings_at d (i ∷ is) = onto_finding (lookup i d) (findings_at d is)

-- `CanonicalFindingCollection(findings, unmerged_decisions)`
unfoldable pub canonical_finding_collection :
    List CanonicalFinding → List FindingCorrelationDecision → Attempt CanonicalFindingCollection
canonical_finding_collection findings decisions = do
  _ ←
      require (leb (length findings) max_correlation_records)
        (value_error (text "too many canonical findings"))
  d ← index_findings [] findings
  _ ←
      require (all (λ c. not (automatic_merge c)) decisions)
        (type_error (text "unmerged correlation decisions are invalid"))
  _ ←
      require (leb (length (sorted_set decisions)) max_unmerged_decisions)
        (value_error (text "too many unmerged correlation decisions"))
  returns (record {
    findings = findings_at d (sort (keys d));
    unmerged_decisions = sorted_set decisions;
  })

abbrev pub sources_in : List Keyed → List FindingRecord
sources_in ks = map (λ (k : Keyed). k.source) ks

module _ (p : Platform) where
  -- `FindingCorrelator.group`
  unfoldable pub group : List FindingRecord → Attempt CanonicalFindingCollection
  group records = do
    ordered ← record_tuple p records
    ks ← traverse (keyed p) ordered
    findings ← traverse (λ g. aggregate p (sources_in g)) (group_records [] ks)
    canonical_finding_collection findings (unmerged ks)

  -- `FindingCorrelator.correlate(FindingRecordCollection(records))`
  unfoldable pub correlate : List FindingRecord → Attempt CanonicalFindingCollection
  correlate records = finding_record_collection records >>= group
