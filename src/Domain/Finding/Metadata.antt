-- ===== src/Domain/Finding/Metadata.antt =====
-- The tags, sources, classification and metadata of a finding, and the evidence for it:
-- redforge/domain/finding_intelligence.py.
use red_forge.Base.{
  refl, Option, none, some, List, Text, text, text_order, Order, order_along, pair_order,
  option_order, list_order, sorted_set,
}
use red_forge.Sdk.Exception.{Attempt, returns, ◌>>=◌, ◌>>◌}
use red_forge.Domain.Strings.{Platform}
use red_forge.Domain.Finding.Subjects.{FindingSeverity, severity_order, status_order}
use red_forge.Domain.Finding.Observations.{
  DetectionMethod, EvidenceConfidence, EvidenceQuality, EvidenceKind, EvidenceSourceKind,
  method_order, confidence_order, quality_order, evidence_kind_order, source_kind_order,
}
use red_forge.Domain.Finding.Reference.{FindingReference, reference_order}
use red_forge.Domain.Finding.Slug.{checked_text, slug, max_title, max_summary, max_identifier}

pub record EvidenceSource : Type 0 where
  pub kind : EvidenceSourceKind
  pub name : Text

pub record EvidenceSummary : Type 0 where
  pub value : Text

pub record FindingTag : Type 0 where
  pub value : Text

pub record FindingClassification : Type 0 where
  pub identifier : Text
  pub title : Text
  pub severity : FindingSeverity

pub record FindingMetadata : Type 0 where
  pub source : EvidenceSource
  pub source_record_id : Option Text
  pub tags : List FindingTag
  pub references : List FindingReference

pub record FindingEvidence : Type 0 where
  pub kind : EvidenceKind
  pub method : DetectionMethod
  pub confidence : EvidenceConfidence
  pub quality : EvidenceQuality
  pub source : EvidenceSource
  pub summary : EvidenceSummary

instance abbrev pub source_order : Order EvidenceSource
source_order =
    order_along (λ (s : EvidenceSource). (s.kind, s.name))
      (λ (kind, name). record { kind = kind; name = name }) (λ _. refl)

instance abbrev pub summary_order : Order EvidenceSummary
summary_order =
    order_along (λ (s : EvidenceSummary). s.value) (λ value. record { value = value }) (λ _. refl)

instance abbrev pub tag_order : Order FindingTag
tag_order =
    order_along (λ (t : FindingTag). t.value) (λ value. record { value = value }) (λ _. refl)

instance abbrev pub classification_order : Order FindingClassification
classification_order =
    order_along (λ (c : FindingClassification). (c.identifier, (c.title, c.severity)))
      (λ (identifier, (title, severity)). record {
        identifier = identifier;
        title = title;
        severity = severity;
      })
      (λ _. refl)

instance abbrev pub references_order : Order (List FindingReference)
references_order = list_order

instance abbrev pub tags_order : Order (List FindingTag)
tags_order = list_order

instance abbrev pub metadata_order : Order FindingMetadata
metadata_order =
    order_along (λ (m : FindingMetadata). (m.source, (m.source_record_id, (m.tags, m.references))))
      (λ (source, (source_record_id, (tags, references))). record {
        source = source;
        source_record_id = source_record_id;
        tags = tags;
        references = references;
      })
      (λ _. refl)

-- The order of `_domain_sort_key`.
instance abbrev pub evidence_order : Order FindingEvidence
evidence_order =
    order_along
      (λ (e : FindingEvidence).
        (e.kind, (e.method, (e.confidence, (e.quality, (e.source, e.summary))))))
      (λ (kind, (method, (confidence, (quality, (source, summary))))). record {
        kind = kind;
        method = method;
        confidence = confidence;
        quality = quality;
        source = source;
        summary = summary;
      })
      (λ _. refl)

instance abbrev pub evidences_order : Order (List FindingEvidence)
evidences_order = list_order

-- `EvidenceSummary(value)`
unfoldable pub evidence_summary : Text → Attempt EvidenceSummary
unfolding checked_text
evidence_summary value = checked_text (text "evidence summary") max_summary value >>= λ checked.
    returns (record { value = checked })

unfoldable pub check_record_id : Option Text → Attempt (Unit {0})
unfolding checked_text
check_record_id none = returns tt
check_record_id (some s) =
    checked_text (text "source record identity") max_identifier s >>= λ _. returns tt

-- `FindingMetadata(source, source_record_id, tags, references)`
unfoldable pub finding_metadata :
    EvidenceSource → Option Text → List FindingTag → List FindingReference → Attempt FindingMetadata
unfolding check_record_id sorted_set
finding_metadata source source_record_id tags references =
    check_record_id source_record_id
    >> returns (record {
      source = source;
      source_record_id = source_record_id;
      tags = sorted_set tags;
      references = sorted_set references;
    })

module _ (p : Platform) where
  -- `EvidenceSource(kind, name)`
  unfoldable pub evidence_source : EvidenceSourceKind → Text → Attempt EvidenceSource
  unfolding slug
  evidence_source kind name = slug p (text "evidence source name") name >>= λ canonical.
      returns (record { kind = kind; name = canonical })

  -- `FindingTag(value)`
  unfoldable pub finding_tag : Text → Attempt FindingTag
  unfolding slug
  finding_tag value =
      slug p (text "finding tag") value >>= λ canonical. returns (record { value = canonical })

  -- `FindingClassification(identifier, title, severity)`
  unfoldable pub finding_classification :
      Text → Text → FindingSeverity → Attempt FindingClassification
  unfolding slug checked_text
  finding_classification identifier title severity = do
    canonical ← slug p (text "finding classification identifier") identifier
    checked ← checked_text (text "finding classification title") max_title title
    returns (record { identifier = canonical; title = checked; severity = severity })

  -- `FindingClassification.from_title`
  unfoldable pub classification_from_title : Text → FindingSeverity → Attempt FindingClassification
  unfolding slug finding_classification
  classification_from_title title severity =
      slug p (text "finding classification title") title >>= λ identifier.
      finding_classification identifier title severity
