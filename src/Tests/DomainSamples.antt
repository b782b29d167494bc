-- ===== src/Tests/DomainSamples.antt =====
-- Data for the tests of the domain: a platform that reads one address, and four findings.
use red_forge.Base.{
  ℕ, zero, suc, ◌+◌, ◌-◌, ◌==◌, none, some, Option, List, [], ◌∷◌, map, Text, text, text_order,
  text_le, if◌then◌else◌, decimal, length, lookup, put, all, any, keep, contains, distinct, dedup,
  insert_on, sort, sort_on, sorted_set, list_le, list_eq, has,
}
use Prim.Native.Nat.{◌*◌, ◌%◌}
use red_forge.Sdk.Exception.{traverse}
use red_forge.Sdk.CapabilityId.{lower, is_lower, lstrip, strip}
use red_forge.Domain.Strings.{
  Platform, starts_with, ends_with, has_text, split, join_rest, join, without_last,
}
use red_forge.Domain.Hostname.{
  is_label, encoded_hostname, labelled_hostname, checked_hostname, normalize_dns_hostname,
}
use red_forge.Domain.Scope.{
  span_host, after_prefix, match_origin, digits_value, in_port_range, scan_target, exact_target_of,
  exact_network_target, is_exact_endpoint, under_root, contains_hostname, contains_endpoint,
}
use red_forge.Domain.HttpUrl.{
  span, match_url, port_of, split_authority, with_port, port_or, normalize_url_host, canonical_url,
  url_of_authority, url_of_match, normalize_http_url,
}
use red_forge.Domain.Finding.Subjects.{
  AssetIdentityKind, FindingSeverity, FindingStatus, FindingReferenceKind,
}
use red_forge.Domain.Finding.Observations.{
  DetectionMethod, EvidenceConfidence, EvidenceQuality, EvidenceKind, EvidenceSourceKind,
}
use red_forge.Domain.Finding.Slug.{
  checked_text, replace_runs, lstrip_underscores, strip_underscores, slug_of, slug,
}
use red_forge.Domain.Finding.Subject.{
  AffectedAsset, AffectedEndpoint, FindingIdentity, remove_prefix, words_from, join_words,
  collapse_spaces, serialized_authority, endpoint_url, path_of, affected_endpoint,
  endpoint_from_url, authority,
}
use red_forge.Domain.Finding.Reference.{
  FindingReference, after_run, is_cve, is_cwe, is_ghsa, fits_pattern, check_link,
  validate_reference, canonical_reference, finding_reference,
}
use red_forge.Domain.Finding.Metadata.{EvidenceSource, FindingEvidence}
use red_forge.Domain.Finding.Record.{
  FindingRecord, identity_payload, finding_fingerprint_of, finding_fingerprint, matches_identity,
  finding_record,
}
use red_forge.Domain.Finding.Collection.{
  set_default, index_records, records_at, finding_record_collection,
}
use red_forge.Domain.Correlation.Key.{
  is_slug, validate_classification_id, validate_normalized_title, validate_reference_tuple,
  checked_key, references_of, key_fields, key_from_record,
}
use red_forge.Domain.Correlation.Decision.{normal_decision, automatic_merge}
use red_forge.Domain.Correlation.Compare.{
  shares, kinds_conflict, concrete_references_conflict, smallest, selected_concrete_anchor,
  same_concrete_anchor, agreement, decision, is_complete, compare_weaknesses, compare_identities,
  compare_classifications, after_technologies, after_endpoints, compare_references, compare_keyed,
  keyed, compare,
}
use red_forge.Domain.Correlation.Group.{
  record_sort_key, record_tuple, merges, fits, candidates, append_to_candidate, place,
  group_records, pairs, pair_decisions, unmerged,
}
use red_forge.Domain.Correlation.Group.Partition.{count, count_all}
use red_forge.Domain.Correlation.Anchor.{
  check_anchor, canonical_finding_anchor, intersect, common_concrete, present, common_endpoint,
  common_technology, selected_anchors, anchor_for, canonical_finding_id, anchor_payload,
  id_from_anchor,
}
use red_forge.Domain.Correlation.Aggregate.{
  value_tuple, max_from, max_by, concat_map, retained_conflicts, canonical_finding, aggregate_keyed,
  aggregate,
}
use red_forge.Domain.Correlation.Collection.{
  keep_finding, index_findings, findings_at, canonical_finding_collection, group, correlate,
}

abbrev pub to_upper : ℕ → ℕ
to_upper c = if is_lower c then c - 32 else c

unfoldable pub weight : ℕ → Text → ℕ
weight n [] = n
weight n (c ∷ s) = weight ((n * 31 + c + 1) % 1000003) s

unfoldable pub weights : ℕ → List Text → ℕ
weights n [] = n
weights n (s ∷ ss) = weights (weight (n * 7 + 3) s) ss

unfoldable pub padded : ℕ → Text → Text
padded zero s = s
padded (suc n) s = 48 ∷ padded n s

-- A stand-in for the digest: 64 digits.
unfoldable pub short_digest : List Text → Text
unfolding weights weight padded decimal
short_digest items = let digits = decimal (weights 17 items) in padded (64 - length digits) digits

abbrev pub platform : Platform
platform = record {
  lower = lower;
  upper = map to_upper;
  casefold = lower;
  nfkc = λ s. s;
  ip_address =
      λ s. if s == text "10.0.0.1" then some (record { version = 4; printed = s }) else none;
  idna = λ s. some s;
  digest = short_digest;
  path_digest = short_digest;
}

-- What the domain computes through.
unfoldable pub domain : Unit {0}
unfolding lookup put all any keep contains distinct dedup insert_on sort sort_on sorted_set list_le
    list_eq has text_le decimal traverse lstrip strip starts_with ends_with has_text split join_rest
    join without_last is_label encoded_hostname labelled_hostname checked_hostname
    normalize_dns_hostname span_host after_prefix match_origin digits_value in_port_range
    scan_target exact_target_of exact_network_target is_exact_endpoint under_root contains_hostname
    contains_endpoint span match_url port_of split_authority with_port port_or normalize_url_host
    canonical_url url_of_authority url_of_match normalize_http_url checked_text replace_runs
    lstrip_underscores strip_underscores slug_of slug remove_prefix words_from join_words
    collapse_spaces serialized_authority endpoint_url path_of affected_endpoint endpoint_from_url
    authority after_run is_cve is_cwe is_ghsa fits_pattern check_link validate_reference
    canonical_reference finding_reference identity_payload finding_fingerprint_of
    finding_fingerprint matches_identity finding_record set_default index_records records_at
    finding_record_collection is_slug validate_classification_id validate_normalized_title
    validate_reference_tuple checked_key references_of key_fields key_from_record normal_decision
    automatic_merge shares kinds_conflict concrete_references_conflict smallest
    selected_concrete_anchor same_concrete_anchor agreement decision is_complete compare_weaknesses
    compare_identities compare_classifications after_technologies after_endpoints compare_references
    compare_keyed keyed compare record_sort_key record_tuple merges fits candidates
    append_to_candidate place group_records pairs pair_decisions unmerged count count_all
    check_anchor canonical_finding_anchor intersect common_concrete present common_endpoint
    common_technology selected_anchors anchor_for canonical_finding_id anchor_payload id_from_anchor
    value_tuple max_from max_by concat_map retained_conflicts canonical_finding aggregate_keyed
    aggregate keep_finding index_findings findings_at canonical_finding_collection group correlate
    short_digest weights weight padded
domain = tt

abbrev pub shop : AffectedAsset
shop = record { kind = AssetIdentityKind.hostname; value = text "shop.example.com" }

abbrev pub endpoint_at : Text → AffectedEndpoint
endpoint_at path = record {
  scheme = text "https";
  hostname = text "shop.example.com";
  port = 443;
  path = path;
}

abbrev pub scanner : EvidenceSource
scanner = record { kind = EvidenceSourceKind.tool; name = text "nuclei" }

abbrev pub observation : FindingEvidence
observation = record {
  kind = EvidenceKind.http;
  method = DetectionMethod.active;
  confidence = EvidenceConfidence.high;
  quality = EvidenceQuality.normal;
  source = scanner;
  summary = record { value = text "matched" };
}

abbrev pub identity_of : Text → Option AffectedEndpoint → FindingIdentity
identity_of classification_id endpoint = record {
  classification_id = classification_id;
  asset = shop;
  endpoint = endpoint;
  technology = none;
}

abbrev pub one_cve : FindingReference
one_cve = record { kind = FindingReferenceKind.cve; value = text "CVE-2024-1111" }

-- A finding of one CVE on the shop.
abbrev pub finding : Text → Option AffectedEndpoint → FindingRecord
finding classification_id endpoint = record {
  identity = identity_of classification_id endpoint;
  fingerprint = record {
    value = short_digest (identity_payload (identity_of classification_id endpoint));
  };
  classification = record {
    identifier = classification_id;
    title = text "Injection";
    severity = FindingSeverity.high;
  };
  context = record { asset = shop; endpoint = endpoint; technology = none };
  evidence = observation ∷ [];
  metadata = record {
    source = scanner;
    source_record_id = none;
    tags = [];
    references = one_cve ∷ [];
  };
  status = FindingStatus.detected;
}

abbrev pub on_login : FindingRecord
on_login = finding (text "sql_injection") (some (endpoint_at (text "/login")))

abbrev pub on_search : FindingRecord
on_search = finding (text "sql_injection") (some (endpoint_at (text "/search")))

abbrev pub on_shop : FindingRecord
on_shop = finding (text "sql_injection") none

abbrev pub reported_on_shop : FindingRecord
reported_on_shop = finding (text "known_exploit") none
