-- ===== src/Tests/DomainTests.antt =====
-- Runs of the domain's definitions, and the theorems about them at concrete data.
use red_forge.Base.{
  ◌≤◌, ◌<◌, ◌≡◌, ◌↔◌, ◌⊎◌, refl, Bool, true, false, ◌||◌, ◌==◌, List, [], ◌∷◌, length, text, Text,
  text_order, All, arith, sorted_set, SameMembers, contains,
}
use red_forge.Sdk.Exception.{returns, raises, succeeds, traverse, returned_value}
use red_forge.Domain.Scope.{ScanTarget, dns_root, contains_hostname}
use red_forge.Domain.Scope.Labels.{InScope, contains_hostname-InScope}
use red_forge.Domain.Hostname.{normalize_dns_hostname}
use red_forge.Domain.Hostname.Shape.{IsHostname, normalize_dns_hostname-IsHostname}
use red_forge.Domain.HttpUrl.{NormalizedHttpUrl, normalize_http_url}
use red_forge.Domain.HttpUrl.Bounds.{IsCanonical, normalize_http_url-IsCanonical}
use red_forge.Domain.Finding.Record.{FindingRecord, record_order}
use red_forge.Domain.Correlation.Key.{key_fields}
use red_forge.Domain.Correlation.Decision.{
  FindingCorrelationDecision, automatic_merge, decision_order,
}
use red_forge.Domain.Correlation.Compare.{
  Keyed, compare, keyed, same_concrete_anchor, compare_keyed,
}
use red_forge.Domain.Correlation.Compare.Symmetry.{compare_comm}
use red_forge.Domain.Correlation.Compare.Merging.{IsCompatible, compare-IsSameFinding, with_key}
use red_forge.Domain.Correlation.Group.{
  group_records, record_tuple, unmerged, max_correlation_records, max_unmerged_decisions,
}
use red_forge.Domain.Correlation.Group.Bounds.{group-within_limits}
use red_forge.Domain.Correlation.Group.Partition.{
  count, count_all, MergesWithin, group_records-partition,
}
use red_forge.Domain.Correlation.Anchor.Stable.{HasAnchor, group_records-HasAnchor}
use red_forge.Domain.Correlation.Aggregate.{CanonicalFinding, aggregate}
use red_forge.Domain.Correlation.Aggregate.Strongest.{IsStrongest, aggregate-IsStrongest}
use red_forge.Domain.Correlation.Collection.{correlate, conflicting_identities}
use red_forge.Domain.Correlation.Collection.Reordering.{correlate-SameMembers}
use red_forge.Tests.DomainSamples.{domain, platform, on_login, on_search, on_shop, reported_on_shop}

-- Two endpoints, the asset alone, and the asset alone under another classification, all of one CVE:
-- the last two merge with each other and with both of the others, so that each of them is alone in
-- a group, and both groups get the same identity.
four_findings :
    correlate platform (on_login ∷ on_search ∷ on_shop ∷ reported_on_shop ∷ [])
    ≡ raises conflicting_identities
unfolding domain
four_findings = refl

three_findings : succeeds (correlate platform (on_login ∷ on_search ∷ on_shop ∷ [])) ≡ true
unfolding domain succeeds
three_findings = refl

abbrev example_root : ScanTarget
example_root = record { value = text "example.com" }

abbrev given_name : Text
given_name = text "API.Example.com."

contains_hostname-InScope_example :
    (contains_hostname platform (dns_root example_root) given_name ≡ true)
    ↔ InScope platform example_root given_name
contains_hostname-InScope_example = contains_hostname-InScope platform example_root given_name

is_in_scope : contains_hostname platform (dns_root example_root) given_name ≡ true
unfolding domain
is_in_scope = refl

-- A name that only ends with the same letters is outside.
is_out_of_scope :
    contains_hostname platform (dns_root example_root) (text "evilexample.com") ≡ false
unfolding domain
is_out_of_scope = refl

name_normalized : normalize_dns_hostname platform true given_name ≡ returns (text "api.example.com")
unfolding domain
name_normalized = refl

normalize_dns_hostname-IsHostname_example : IsHostname platform (text "api.example.com")
normalize_dns_hostname-IsHostname_example =
    normalize_dns_hostname-IsHostname platform given_name (text "api.example.com") name_normalized

abbrev shop_url : NormalizedHttpUrl
shop_url = record {
  value = text "https://shop.example.com/login";
  scheme = text "https";
  hostname = text "shop.example.com";
  port = 443;
}

url_normalized :
    normalize_http_url platform (text "HTTPS://Shop.example.com:443/login") ≡ returns shop_url
unfolding domain
url_normalized = refl

normalize_http_url-IsCanonical_example :
    IsCanonical platform (text "HTTPS://Shop.example.com:443/login") shop_url
normalize_http_url-IsCanonical_example =
    normalize_http_url-IsCanonical platform (text "HTTPS://Shop.example.com:443/login") shop_url
      url_normalized

unfoldable shop_decision : FindingCorrelationDecision
unfolding domain
shop_decision = compare_keyed (with_key platform on_login) (with_key platform reported_on_shop)

shop_compared : compare platform on_login reported_on_shop ≡ returns shop_decision
unfolding domain shop_decision
shop_compared = refl

compare_comm_example : compare platform reported_on_shop on_login ≡ returns shop_decision
compare_comm_example = compare_comm platform on_login reported_on_shop shop_decision shop_compared

shop_merges : automatic_merge shop_decision ≡ true
unfolding domain shop_decision
shop_merges = refl

compare-IsSameFinding_example :
    (on_login.context.asset ≡ reported_on_shop.context.asset)
    × IsCompatible on_login.context.endpoint reported_on_shop.context.endpoint
    × IsCompatible on_login.context.technology reported_on_shop.context.technology
    × ((on_login.fingerprint ≡ reported_on_shop.fingerprint)
        ⊎ (same_concrete_anchor
              (key_fields platform on_login)
              (key_fields platform reported_on_shop)
            ≡ true))
compare-IsSameFinding_example =
    compare-IsSameFinding platform on_login reported_on_shop shop_decision shop_compared shop_merges

abbrev four_records : List FindingRecord
four_records = on_login ∷ on_search ∷ on_shop ∷ reported_on_shop ∷ []

abbrev keyed_findings : List Keyed
keyed_findings =
    with_key platform on_login
    ∷ with_key platform on_search
    ∷ with_key platform on_shop
    ∷ with_key platform reported_on_shop
    ∷ []

group_records-partition_example :
    ((test : Keyed → _)
      → count_all test (group_records [] keyed_findings) ≡ count test keyed_findings)
    × All MergesWithin (group_records [] keyed_findings)
group_records-partition_example = group_records-partition keyed_findings

-- One finding has no CVE in common with another: two groups, the first of two records.
groups_formed :
    length (group_records [] (with_key platform on_login ∷ with_key platform on_shop ∷ [])) ≡ 1
unfolding domain
groups_formed = refl

abbrev three_records : List FindingRecord
three_records = on_login ∷ on_search ∷ on_shop ∷ []

unfoldable three_ordered : List FindingRecord
unfolding domain
three_ordered = on_login ∷ on_search ∷ on_shop ∷ []

three_are_ordered : record_tuple platform three_records ≡ returns three_ordered
unfolding domain three_ordered
three_are_ordered = refl

abbrev three_keyed : List Keyed
three_keyed =
    with_key platform on_login ∷ with_key platform on_search ∷ with_key platform on_shop ∷ []

three_have_keys : traverse (keyed platform) three_ordered ≡ returns three_keyed
unfolding domain three_ordered
three_have_keys = refl

group-within_limits_example :
    (length (group_records [] three_keyed) ≤ max_correlation_records)
    × (length (sorted_set (unmerged three_keyed)) ≤ 130816)
    × (130816 < max_unmerged_decisions)
group-within_limits_example =
    group-within_limits platform three_records three_ordered three_keyed three_are_ordered
      three_have_keys

group_records-HasAnchor_example : All HasAnchor (group_records [] three_keyed)
unfolding domain
group_records-HasAnchor_example =
    group_records-HasAnchor three_keyed
      (((refl, tt), refl), (((refl, tt), refl), (((refl, tt), refl), tt))) refl

one_finding : (f : CanonicalFinding) × (aggregate platform (on_login ∷ on_shop ∷ []) ≡ returns f)
unfolding domain succeeds
one_finding = returned_value (aggregate platform (on_login ∷ on_shop ∷ [])) refl

aggregate-IsStrongest_example :
    (ordered : List FindingRecord) × (record_tuple platform (on_login ∷ on_shop ∷ [])
      ≡ returns ordered)
    × IsStrongest platform ordered one_finding.0
aggregate-IsStrongest_example =
    aggregate-IsStrongest platform (on_login ∷ on_shop ∷ []) one_finding.0 one_finding.1

twice : (x y : Bool) → (x || (y || false)) ≡ (y || (x || (y || false)))
twice x y = ground arith

same_members : SameMembers (on_login ∷ on_shop ∷ []) (on_shop ∷ on_login ∷ on_shop ∷ [])
unfolding contains
same_members a = twice (a == on_login) (a == on_shop)

correlate-SameMembers_example :
    correlate platform (on_login ∷ on_shop ∷ [])
    ≡ correlate platform (on_shop ∷ on_login ∷ on_shop ∷ [])
correlate-SameMembers_example =
    correlate-SameMembers platform (on_login ∷ on_shop ∷ []) (on_shop ∷ on_login ∷ on_shop ∷ [])
      same_members
