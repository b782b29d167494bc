-- ===== src/Domain/Correlation/Key.antt =====
-- `FindingCorrelationKey` and its checks: redforge/domain/finding_correlation.py.
use red_forge.Base.{
  ℕ, Bool, true, false, ◌&&◌, not, Option, List, ◌++◌, ◌==◌, nat_order, leb, length, all, any, keep,
  Text, text, text_order, text_le, sorted_set, list_eq,
}
use red_forge.Sdk.Exception.{Attempt, returns, ◌>>=◌, ◌>>◌, require, value_error, type_error}
use red_forge.Sdk.CapabilityId.{strip}
use red_forge.Domain.Strings.{Platform, is_control, split, parts_list}
use red_forge.Domain.Hostname.{is_empty}
use red_forge.Domain.Finding.Subjects.{
  FindingReferenceKind, cve, cwe, ghsa, osv, vendor_advisory, research_article, internal,
}
use red_forge.Domain.Finding.Slug.{is_slug_char}
use red_forge.Domain.Finding.Subject.{
  AffectedAsset, AffectedEndpoint, AffectedTechnology, collapse_spaces,
}
use red_forge.Domain.Finding.Reference.{FindingReference, reference_order}
use red_forge.Domain.Finding.Record.{FindingRecord}

-- `_CONCRETE_REFERENCE_KINDS`
abbrev pub is_concrete : FindingReferenceKind → Bool
is_concrete cve = true
is_concrete cwe = false
is_concrete ghsa = true
is_concrete osv = true
is_concrete vendor_advisory = false
is_concrete research_article = false
is_concrete internal = false

-- `_WEAKNESS_REFERENCE_KINDS`
abbrev pub is_weakness : FindingReferenceKind → Bool
is_weakness cve = false
is_weakness cwe = true
is_weakness ghsa = false
is_weakness osv = false
is_weakness vendor_advisory = false
is_weakness research_article = false
is_weakness internal = false

abbrev pub max_classification_id : ℕ
max_classification_id = 256

abbrev pub max_normalized_title : ℕ
max_normalized_title = 512

abbrev pub max_aggregate_items : ℕ
max_aggregate_items = 4096

pub record FindingCorrelationKey : Type 0 where
  pub classification_id : Text
  pub normalized_title : Text
  pub asset : AffectedAsset
  pub endpoint : Option AffectedEndpoint
  pub technology : Option AffectedTechnology
  pub concrete_references : List FindingReference
  pub weakness_references : List FindingReference

-- `[a-z0-9]+`
abbrev pub is_slug_part : Text → Bool
is_slug_part part = not (is_empty part) && all is_slug_char part

-- `[a-z0-9]+(?:_[a-z0-9]+)*`, by the parts between the underscores
unfoldable pub is_slug : Text → Bool
unfolding all split
is_slug s = all is_slug_part (parts_list (split 95 s))

-- `_validate_classification_id`
unfoldable pub validate_classification_id : Text → Attempt (Unit {0})
unfolding is_slug
validate_classification_id s =
    require (leb (length s) max_classification_id && is_slug s)
      (value_error (text "correlation classification is invalid"))

-- `_validate_normalized_title`
unfoldable pub validate_normalized_title : Text → Attempt (Unit {0})
unfolding strip any text_le
validate_normalized_title s =
    require
      (not (is_empty s)
        && s == strip s
        && leb (length s) max_normalized_title
        && not (any is_control s))
      (value_error (text "correlation title is invalid"))

-- `_validate_reference_tuple(value, allowed=allowed, label=label)`
unfoldable pub validate_reference_tuple :
    (FindingReferenceKind → Bool) → Text → List FindingReference → Attempt (Unit {0})
unfolding all sorted_set list_eq text_le
validate_reference_tuple allowed label refs =
    require (all (λ (r : FindingReference). allowed r.kind) refs)
      (type_error (text "correlation " ++ label ++ text " are invalid"))
    >> (require (leb (length refs) max_aggregate_items)
          (value_error (text "too many correlation " ++ label))
        >> require (list_eq (sorted_set refs) refs)
            (value_error (text "correlation " ++ label ++ text " must be canonical")))

-- `FindingCorrelationKey.__post_init__`
unfoldable pub checked_key : FindingCorrelationKey → Attempt FindingCorrelationKey
unfolding validate_classification_id validate_normalized_title validate_reference_tuple
checked_key k = do
  _ ← validate_classification_id k.classification_id
  _ ← validate_normalized_title k.normalized_title
  _ ← validate_reference_tuple is_concrete (text "concrete references") k.concrete_references
  _ ← validate_reference_tuple is_weakness (text "weakness references") k.weakness_references
  returns k

-- The references of a record whose kind passes a test.
unfoldable pub references_of :
    (FindingReferenceKind → Bool) → List FindingReference → List FindingReference
unfolding keep
references_of allowed refs = keep (λ (r : FindingReference). allowed r.kind) refs

module _ (p : Platform) where
  -- The key of a record, unchecked.
  unfoldable pub key_fields : FindingRecord → FindingCorrelationKey
  unfolding collapse_spaces references_of
  key_fields r = record {
    classification_id = r.classification.identifier;
    normalized_title = collapse_spaces (p.casefold r.classification.title);
    asset = r.context.asset;
    endpoint = r.context.endpoint;
    technology = r.context.technology;
    concrete_references = references_of is_concrete r.metadata.references;
    weakness_references = references_of is_weakness r.metadata.references;
  }

  -- `FindingCorrelationKey.from_record`
  unfoldable pub key_from_record : FindingRecord → Attempt FindingCorrelationKey
  unfolding checked_key key_fields
  key_from_record r = checked_key (key_fields r)
