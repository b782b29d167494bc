-- ===== src/Domain/Finding/Subjects.antt =====
-- redforge/domain/finding_intelligence.py, the enumerations of assets, severities, states and
-- references. A `StrEnum` is its text: it compares, sorts and is looked up as that text.
use red_forge.Base.{
  ◌≡◌, refl, List, [], ◌∷◌, Order, Text, text, text_le, order_along, member_named, text_order,
}

-- AssetIdentityKind
pub data AssetIdentityKind : Type 0 where
  hostname ip_address logical : AssetIdentityKind

abbrev pub asset_kind_value : AssetIdentityKind → Text
asset_kind_value hostname = text "hostname"
asset_kind_value ip_address = text "ip_address"
asset_kind_value logical = text "logical"

abbrev pub asset_kind_members : List AssetIdentityKind
asset_kind_members = hostname ∷ ip_address ∷ logical ∷ []

unfoldable pub asset_kind_named : Text → AssetIdentityKind
unfolding text_le member_named
asset_kind_named s = member_named hostname asset_kind_value asset_kind_members s

pub asset_kind_named-value : (k : AssetIdentityKind) → asset_kind_named (asset_kind_value k) ≡ k
unfolding asset_kind_named
asset_kind_named-value hostname = refl
asset_kind_named-value ip_address = refl
asset_kind_named-value logical = refl

instance abbrev pub asset_kind_order : Order AssetIdentityKind
asset_kind_order = order_along asset_kind_value asset_kind_named asset_kind_named-value

-- FindingSeverity
pub data FindingSeverity : Type 0 where
  info low medium high critical unknown : FindingSeverity

abbrev pub severity_value : FindingSeverity → Text
severity_value info = text "info"
severity_value low = text "low"
severity_value medium = text "medium"
severity_value high = text "high"
severity_value critical = text "critical"
severity_value unknown = text "unknown"

abbrev pub severity_members : List FindingSeverity
severity_members = info ∷ low ∷ medium ∷ high ∷ critical ∷ unknown ∷ []

unfoldable pub severity_named : Text → FindingSeverity
unfolding text_le member_named
severity_named s = member_named info severity_value severity_members s

pub severity_named-value : (k : FindingSeverity) → severity_named (severity_value k) ≡ k
unfolding severity_named
severity_named-value info = refl
severity_named-value low = refl
severity_named-value medium = refl
severity_named-value high = refl
severity_named-value critical = refl
severity_named-value unknown = refl

instance abbrev pub severity_order : Order FindingSeverity
severity_order = order_along severity_value severity_named severity_named-value

-- FindingStatus
pub data FindingStatus : Type 0 where
  detected : FindingStatus

abbrev pub status_value : FindingStatus → Text
status_value detected = text "detected"

abbrev pub status_members : List FindingStatus
status_members = detected ∷ []

unfoldable pub status_named : Text → FindingStatus
unfolding text_le member_named
status_named s = member_named detected status_value status_members s

pub status_named-value : (k : FindingStatus) → status_named (status_value k) ≡ k
unfolding status_named
status_named-value detected = refl

instance abbrev pub status_order : Order FindingStatus
status_order = order_along status_value status_named status_named-value

-- FindingReferenceKind
pub data FindingReferenceKind : Type 0 where
  cve cwe ghsa osv vendor_advisory research_article internal : FindingReferenceKind

abbrev pub reference_kind_value : FindingReferenceKind → Text
reference_kind_value cve = text "cve"
reference_kind_value cwe = text "cwe"
reference_kind_value ghsa = text "ghsa"
reference_kind_value osv = text "osv"
reference_kind_value vendor_advisory = text "vendor_advisory"
reference_kind_value research_article = text "research_article"
reference_kind_value internal = text "internal"

abbrev pub reference_kind_members : List FindingReferenceKind
reference_kind_members = cve ∷ cwe ∷ ghsa ∷ osv ∷ vendor_advisory ∷ research_article ∷ internal ∷ []

unfoldable pub reference_kind_named : Text → FindingReferenceKind
unfolding text_le member_named
reference_kind_named s = member_named cve reference_kind_value reference_kind_members s

pub reference_kind_named-value :
    (k : FindingReferenceKind) → reference_kind_named (reference_kind_value k) ≡ k
unfolding reference_kind_named
reference_kind_named-value cve = refl
reference_kind_named-value cwe = refl
reference_kind_named-value ghsa = refl
reference_kind_named-value osv = refl
reference_kind_named-value vendor_advisory = refl
reference_kind_named-value research_article = refl
reference_kind_named-value internal = refl

instance abbrev pub reference_kind_order : Order FindingReferenceKind
reference_kind_order =
    order_along reference_kind_value reference_kind_named reference_kind_named-value
