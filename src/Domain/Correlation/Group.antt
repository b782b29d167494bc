-- ===== src/Domain/Correlation/Group.antt =====
-- The order of the records, their groups and the pairs that are not merged:
-- redforge/domain/finding_correlation.py. The members of a set come in some order, which only
-- shows in records with equal sort keys.
pub mod Partition
pub mod Bounds
pub mod Kept
use red_forge.Base.{
  ℕ, ◌+◌, ◌≡◌, refl, Bool, true, false, ◌||◌, ◌&&◌, not, Option, none, some, List, [], ◌∷◌, ◌++◌,
  ◌==◌, nat_order, leb, if◌then◌else◌, length, all, keep, map, Text, text, text_order, arith, Order,
  dedup, sort_on, pair_order, texts_order, text_table_order, bit,
}
use red_forge.Sdk.Exception.{Attempt, returns, raises, ◌>>=◌, ◌>>◌, require, value_error, Exception}
use red_forge.Domain.Strings.{Platform}
use red_forge.Domain.Finding.Subjects.{asset_kind_value, severity_value, reference_kind_value}
use red_forge.Domain.Finding.Observations.{
  method_value, confidence_value, quality_value, evidence_kind_value, source_kind_value,
}
use red_forge.Domain.Finding.Subject.{AffectedEndpoint, AffectedTechnology, endpoint_url}
use red_forge.Domain.Finding.Reference.{FindingReference}
use red_forge.Domain.Finding.Metadata.{FindingEvidence}
use red_forge.Domain.Finding.Record.{
  FindingRecord, record_order, endpoint_texts, technology_texts, or_empty,
}
use red_forge.Domain.Correlation.Key.{is_concrete, references_of}
use red_forge.Domain.Correlation.Decision.{FindingCorrelationDecision, automatic_merge}
use red_forge.Domain.Correlation.Compare.{Keyed, compare_keyed}

abbrev pub max_correlation_records : ℕ
max_correlation_records = 512

abbrev pub max_unmerged_decisions : ℕ
max_unmerged_decisions = 131000

-- The tuples of the sort key hold texts, and two tests, which are the texts of the one number 0 or 1.
abbrev pub SortKey : Type 0
SortKey = List (List Text) × (List Text × List (List Text))

abbrev pub test_text : Bool → Text
test_text b = bit b ∷ []

abbrev pub reference_texts : FindingReference → List Text
reference_texts r = reference_kind_value r.kind ∷ r.value ∷ []

abbrev pub evidence_texts : FindingEvidence → List Text
evidence_texts e =
    evidence_kind_value e.kind
    ∷ method_value e.method
    ∷ confidence_value e.confidence
    ∷ quality_value e.quality
    ∷ source_kind_value e.source.kind
    ∷ e.source.name
    ∷ e.summary.value
    ∷ []

abbrev pub is_none {ℓ} : {A : Type ℓ} → Option A → Bool
is_none none = true
is_none (some a) = false

module _ (p : Platform) where
  abbrev pub url_text : Option AffectedEndpoint → Text
  url_text none = []
  url_text (some e) = endpoint_url p e

  -- `_record_sort_key`
  unfoldable pub record_sort_key : FindingRecord → SortKey
  record_sort_key r = (
    map reference_texts (references_of is_concrete r.metadata.references),
    (
      asset_kind_value r.context.asset.kind
          ∷ r.context.asset.value
          ∷ test_text (is_none r.context.endpoint)
          ∷ url_text r.context.endpoint
          ∷ test_text (is_none r.context.technology)
          ∷ (technology_texts r.context.technology
              ++ (r.fingerprint.value
                  ∷ source_kind_value r.metadata.source.kind
                  ∷ r.metadata.source.name
                  ∷ or_empty r.metadata.source_record_id
                  ∷ severity_value r.classification.severity
                  ∷ [])),
      map evidence_texts r.evidence,
    ),
  )

  -- `_record_tuple`
  unfoldable pub record_tuple : List FindingRecord → Attempt (List FindingRecord)
  record_tuple records =
      require (leb (length records) max_correlation_records)
        (value_error (text "too many source records for correlation"))
      >> returns (sort_on record_sort_key (dedup records))

unfoldable pub merges : Keyed → Keyed → Bool
merges existing r = automatic_merge (compare_keyed existing r)

-- The record merges with every record of the group.
unfoldable pub fits : Keyed → List Keyed → Bool
fits r group = all (λ existing. merges existing r) group

-- `len(candidates)`
unfoldable pub candidates : Keyed → List (List Keyed) → ℕ
candidates r [] = 0
candidates r (group ∷ groups) =
    let rest = candidates r groups in if fits r group then 1 + rest else rest

-- `groups[candidates[0]].append(record)`
unfoldable pub append_to_candidate : Keyed → List (List Keyed) → List (List Keyed)
append_to_candidate r [] = []
append_to_candidate r (group ∷ groups) =
    let rest = append_to_candidate r groups in
    if fits r group then (group ++ (r ∷ [])) ∷ groups else group ∷ rest

-- One round of the loop over the ordered records.
unfoldable pub place : List (List Keyed) → Keyed → List (List Keyed)
place groups r =
    if candidates r groups == 1 then append_to_candidate r groups else groups ++ ((r ∷ []) ∷ [])

unfoldable pub group_records : List (List Keyed) → List Keyed → List (List Keyed)
group_records groups [] = groups
group_records groups (r ∷ rs) = group_records (place groups r) rs

-- `combinations(items, 2)`
unfoldable pub pairs {ℓ} : {A : Type ℓ} → List A → List (A × A)
pairs [] = []
pairs (x ∷ xs) = map (λ y. (x, y)) xs ++ pairs xs

-- The decisions on the pairs.
unfoldable pub pair_decisions : List Keyed → List FindingCorrelationDecision
pair_decisions ordered = map (λ (q : Keyed × Keyed). compare_keyed q.0 q.1) (pairs ordered)

unfoldable pub unmerged : List Keyed → List FindingCorrelationDecision
unmerged ordered = keep (λ d. not (automatic_merge d)) (pair_decisions ordered)
