-- ===== src/Domain/Risk.antt =====
-- The values of risk intelligence: redforge/domain/risk_intelligence.py. The contributions that the
-- program gives are not negative.
pub mod Factors
pub mod Assess
pub mod Bounds
pub mod Edges
pub mod Paths
pub mod Links
pub mod Explicit
pub mod Ranked
use red_forge.Base.{
  ◌≡◌, refl, ℕ, Bool, true, false, ◌&&◌, List, [], ◌∷◌, Option, none, some, Order, Text, text,
  text_le, order_along, member_named, text_order, dedup, sort_on, pair_order, texts_order,
}
use red_forge.Base.{leb, ltb, if◌then◌else◌, ◌++◌}
use red_forge.Sdk.Exception.{Attempt, returns, raises, ◌>>=◌, ◌>>◌, require, value_error, Exception}
use red_forge.Domain.Strings.{Platform}

-- RiskLevel
pub data RiskLevel : Type 0 where
  unknown low medium high critical : RiskLevel

abbrev pub risk_level_value : RiskLevel → Text
risk_level_value unknown = text "unknown"
risk_level_value low = text "low"
risk_level_value medium = text "medium"
risk_level_value high = text "high"
risk_level_value critical = text "critical"

abbrev pub risk_level_members : List RiskLevel
risk_level_members = unknown ∷ low ∷ medium ∷ high ∷ critical ∷ []

unfoldable pub risk_level_named : Text → RiskLevel
unfolding text_le member_named
risk_level_named s = member_named unknown risk_level_value risk_level_members s

pub risk_level_named-value : (k : RiskLevel) → risk_level_named (risk_level_value k) ≡ k
unfolding risk_level_named
risk_level_named-value unknown = refl
risk_level_named-value low = refl
risk_level_named-value medium = refl
risk_level_named-value high = refl
risk_level_named-value critical = refl

instance abbrev pub risk_level_order : Order RiskLevel
risk_level_order = order_along risk_level_value risk_level_named risk_level_named-value

-- RiskFactorKind
pub data RiskFactorKind : Type 0 where
  vulnerability_severity cvss_base identity_match_confidence : RiskFactorKind
  technology_detection_confidence observed_endpoint_presence data_quality : RiskFactorKind

abbrev pub factor_kind_value : RiskFactorKind → Text
factor_kind_value vulnerability_severity = text "vulnerability_severity"
factor_kind_value cvss_base = text "cvss_base"
factor_kind_value identity_match_confidence = text "identity_match_confidence"
factor_kind_value technology_detection_confidence = text "technology_detection_confidence"
factor_kind_value observed_endpoint_presence = text "observed_endpoint_presence"
factor_kind_value data_quality = text "data_quality"

abbrev pub factor_kind_members : List RiskFactorKind
factor_kind_members =
    vulnerability_severity ∷ cvss_base ∷ identity_match_confidence ∷ technology_detection_confidence
    ∷ observed_endpoint_presence ∷ data_quality ∷ []

unfoldable pub factor_kind_named : Text → RiskFactorKind
unfolding text_le member_named
factor_kind_named s = member_named vulnerability_severity factor_kind_value factor_kind_members s

pub factor_kind_named-value : (k : RiskFactorKind) → factor_kind_named (factor_kind_value k) ≡ k
unfolding factor_kind_named
factor_kind_named-value vulnerability_severity = refl
factor_kind_named-value cvss_base = refl
factor_kind_named-value identity_match_confidence = refl
factor_kind_named-value technology_detection_confidence = refl
factor_kind_named-value observed_endpoint_presence = refl
factor_kind_named-value data_quality = refl

instance abbrev pub factor_kind_order : Order RiskFactorKind
factor_kind_order = order_along factor_kind_value factor_kind_named factor_kind_named-value

-- `0 <= value <= 100`
abbrev pub is_percentage : ℕ → Bool
is_percentage value = leb value 100

abbrev pub out_of_range : Text → Exception
out_of_range name = value_error (name ++ text " must be an integer from 0 to 100")

-- `risk_level_for_score(score, priority_known=priority_known)`
unfoldable pub risk_level_for_score : ℕ → Bool → Attempt RiskLevel
risk_level_for_score score priority_known =
    require (is_percentage score) (out_of_range (text "priority score"))
    >> returns (
        if priority_known
        then if ltb score 20
          then RiskLevel.low
          else if ltb score 40
          then RiskLevel.medium
          else if ltb score 60
          then RiskLevel.high
          else RiskLevel.critical
        else RiskLevel.unknown)

-- `risk_assessment_identifier`
abbrev pub risk_assessment_identifier : Platform → Text → Text → Text → Text
risk_assessment_identifier p asset technology vulnerability =
    text "risk-assessment:" ++ p.path_digest (asset ∷ technology ∷ vulnerability ∷ [])

pub record RiskFactor : Type 0 where
  pub kind : RiskFactorKind
  pub contribution : ℕ
  pub explanation : Text
  pub evidence : List Text

pub record RiskAssessment : Type 0 where
  pub identifier : Text
  pub asset_node_id : Text
  pub technology_node_id : Text
  pub vulnerability_node_id : Text
  pub priority_score : ℕ
  pub confidence_score : ℕ
  pub data_completeness : ℕ
  pub priority_known : Bool
  pub level : RiskLevel
  pub factors : List RiskFactor
  pub evidence : List Text

-- The three node identifiers of the assessed path.
pub record AssessedPath : Type 0 where
  pub asset_node_id : Text
  pub technology_node_id : Text
  pub vulnerability_node_id : Text

-- The three scores of an assessment, and whether its priority is known.
pub record Scores : Type 0 where
  pub priority_score : ℕ
  pub confidence_score : ℕ
  pub data_completeness : ℕ
  pub priority_known : Bool

-- The fields of an assessment, with the identifier and the level that are derived.
abbrev pub assessment_fields :
    Platform → AssessedPath → Scores → List RiskFactor → List Text → RiskLevel → RiskAssessment
assessment_fields p path scores factors evidence level = record {
  identifier =
      risk_assessment_identifier p path.asset_node_id path.technology_node_id
        path.vulnerability_node_id;
  asset_node_id = path.asset_node_id;
  technology_node_id = path.technology_node_id;
  vulnerability_node_id = path.vulnerability_node_id;
  priority_score = scores.priority_score;
  confidence_score = scores.confidence_score;
  data_completeness = scores.data_completeness;
  priority_known = scores.priority_known;
  level = level;
  factors = factors;
  evidence = evidence;
}

-- `RiskAssessment(...)`
unfoldable pub risk_assessment :
    Platform → AssessedPath → Scores → List RiskFactor → List Text → Attempt RiskAssessment
risk_assessment p path scores factors evidence = do
  _ ← require (is_percentage scores.priority_score) (out_of_range (text "priority score"))
  _ ← require (is_percentage scores.confidence_score) (out_of_range (text "confidence score"))
  _ ← require (is_percentage scores.data_completeness) (out_of_range (text "data completeness"))
  level ← risk_level_for_score scores.priority_score scores.priority_known
  returns (assessment_fields p path scores factors evidence level)
