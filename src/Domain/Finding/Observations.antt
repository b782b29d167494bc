-- ===== src/Domain/Finding/Observations.antt =====
-- redforge/domain/finding_intelligence.py, the enumerations of evidence. A `StrEnum` is its text.
use red_forge.Base.{
  ◌≡◌, refl, List, [], ◌∷◌, Order, Text, text, text_le, order_along, member_named, text_order,
}

-- DetectionMethod
pub data DetectionMethod : Type 0 where
  active passive manual external correlated : DetectionMethod

abbrev pub method_value : DetectionMethod → Text
method_value active = text "active"
method_value passive = text "passive"
method_value DetectionMethod.manual = text "manual"
method_value external = text "external"
method_value correlated = text "correlated"

abbrev pub method_members : List DetectionMethod
method_members = active ∷ passive ∷ DetectionMethod.manual ∷ external ∷ correlated ∷ []

unfoldable pub method_named : Text → DetectionMethod
unfolding text_le member_named
method_named s = member_named active method_value method_members s

pub method_named-value : (k : DetectionMethod) → method_named (method_value k) ≡ k
unfolding method_named
method_named-value active = refl
method_named-value passive = refl
method_named-value DetectionMethod.manual = refl
method_named-value external = refl
method_named-value correlated = refl

instance abbrev pub method_order : Order DetectionMethod
method_order = order_along method_value method_named method_named-value

-- EvidenceConfidence
pub data EvidenceConfidence : Type 0 where
  unknown low medium high certain : EvidenceConfidence

abbrev pub confidence_value : EvidenceConfidence → Text
confidence_value EvidenceConfidence.unknown = text "unknown"
confidence_value low = text "low"
confidence_value medium = text "medium"
confidence_value high = text "high"
confidence_value certain = text "certain"

abbrev pub confidence_members : List EvidenceConfidence
confidence_members = EvidenceConfidence.unknown ∷ low ∷ medium ∷ high ∷ certain ∷ []

unfoldable pub confidence_named : Text → EvidenceConfidence
unfolding text_le member_named
confidence_named s = member_named EvidenceConfidence.unknown confidence_value confidence_members s

pub confidence_named-value : (k : EvidenceConfidence) → confidence_named (confidence_value k) ≡ k
unfolding confidence_named
confidence_named-value EvidenceConfidence.unknown = refl
confidence_named-value low = refl
confidence_named-value medium = refl
confidence_named-value high = refl
confidence_named-value certain = refl

instance abbrev pub confidence_order : Order EvidenceConfidence
confidence_order = order_along confidence_value confidence_named confidence_named-value

-- EvidenceQuality
pub data EvidenceQuality : Type 0 where
  unknown weak normal strong verified : EvidenceQuality

abbrev pub quality_value : EvidenceQuality → Text
quality_value EvidenceQuality.unknown = text "unknown"
quality_value weak = text "weak"
quality_value normal = text "normal"
quality_value strong = text "strong"
quality_value verified = text "verified"

abbrev pub quality_members : List EvidenceQuality
quality_members = EvidenceQuality.unknown ∷ weak ∷ normal ∷ strong ∷ verified ∷ []

unfoldable pub quality_named : Text → EvidenceQuality
unfolding text_le member_named
quality_named s = member_named EvidenceQuality.unknown quality_value quality_members s

pub quality_named-value : (k : EvidenceQuality) → quality_named (quality_value k) ≡ k
unfolding quality_named
quality_named-value EvidenceQuality.unknown = refl
quality_named-value weak = refl
quality_named-value normal = refl
quality_named-value strong = refl
quality_named-value verified = refl

instance abbrev pub quality_order : Order EvidenceQuality
quality_order = order_along quality_value quality_named quality_named-value

-- EvidenceKind
pub data EvidenceKind : Type 0 where
  http dns tls tcp screenshot banner header certificate manual : EvidenceKind

abbrev pub evidence_kind_value : EvidenceKind → Text
evidence_kind_value http = text "http"
evidence_kind_value dns = text "dns"
evidence_kind_value tls = text "tls"
evidence_kind_value tcp = text "tcp"
evidence_kind_value screenshot = text "screenshot"
evidence_kind_value banner = text "banner"
evidence_kind_value header = text "header"
evidence_kind_value certificate = text "certificate"
evidence_kind_value EvidenceKind.manual = text "manual"

abbrev pub evidence_kind_members : List EvidenceKind
evidence_kind_members =
    http ∷ dns ∷ tls ∷ tcp ∷ screenshot ∷ banner ∷ header ∷ certificate ∷ EvidenceKind.manual ∷ []

unfoldable pub evidence_kind_named : Text → EvidenceKind
unfolding text_le member_named
evidence_kind_named s = member_named http evidence_kind_value evidence_kind_members s

pub evidence_kind_named-value : (k : EvidenceKind) → evidence_kind_named (evidence_kind_value k) ≡ k
unfolding evidence_kind_named
evidence_kind_named-value http = refl
evidence_kind_named-value dns = refl
evidence_kind_named-value tls = refl
evidence_kind_named-value tcp = refl
evidence_kind_named-value screenshot = refl
evidence_kind_named-value banner = refl
evidence_kind_named-value header = refl
evidence_kind_named-value certificate = refl
evidence_kind_named-value EvidenceKind.manual = refl

instance abbrev pub evidence_kind_order : Order EvidenceKind
evidence_kind_order = order_along evidence_kind_value evidence_kind_named evidence_kind_named-value

-- EvidenceSourceKind
pub data EvidenceSourceKind : Type 0 where
  tool analyst imported correlation ai : EvidenceSourceKind

abbrev pub source_kind_value : EvidenceSourceKind → Text
source_kind_value tool = text "tool"
source_kind_value analyst = text "analyst"
source_kind_value imported = text "import"
source_kind_value correlation = text "correlation"
source_kind_value ai = text "ai"

abbrev pub source_kind_members : List EvidenceSourceKind
source_kind_members = tool ∷ analyst ∷ imported ∷ correlation ∷ ai ∷ []

unfoldable pub source_kind_named : Text → EvidenceSourceKind
unfolding text_le member_named
source_kind_named s = member_named tool source_kind_value source_kind_members s

pub source_kind_named-value : (k : EvidenceSourceKind) → source_kind_named (source_kind_value k) ≡ k
unfolding source_kind_named
source_kind_named-value tool = refl
source_kind_named-value analyst = refl
source_kind_named-value imported = refl
source_kind_named-value correlation = refl
source_kind_named-value ai = refl

instance abbrev pub source_kind_order : Order EvidenceSourceKind
source_kind_order = order_along source_kind_value source_kind_named source_kind_named-value
