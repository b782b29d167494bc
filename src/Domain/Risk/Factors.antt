-- ===== src/Domain/Risk/Factors.antt =====
-- The factors of an assessment: redforge/capabilities/risk_intelligence.py. A detection confidence
-- is a number from 0 on: a negative one is invalid as one above 100 is.
use red_forge.Base.{
  ℕ, ◌+◌, Bool, true, false, Option, none, some, List, [], ◌∷◌, ◌++◌, ◌==◌, nat_order, leb,
  if◌then◌else◌, map, Text, text, sort, text_order, decimal,
}
use Prim.Native.Nat.{◌*◌, ◌/◌, ◌%◌}
use red_forge.Domain.Hostname.{is_empty}
use red_forge.Domain.Scope.{Endpoint}
use red_forge.Domain.Graph.{
  VulnerabilitySeverity, severity_value, VulnerabilityMatchConfidence, match_confidence_value,
  Vulnerability,
}
use red_forge.Domain.Risk.{RiskFactorKind, RiskFactor, factor_kind_order}

-- `_is_cvss_score`, of a number of tenths
abbrev pub is_cvss_score : Option ℕ → Bool
is_cvss_score none = false
is_cvss_score (some tenths) = leb tenths 100

-- `_is_confidence_percentage`
abbrev pub is_confidence_percentage : Option ℕ → Bool
is_confidence_percentage none = false
is_confidence_percentage (some confidence) = leb confidence 100

-- `_SEVERITY_CONTRIBUTIONS`
abbrev pub severity_contribution : VulnerabilitySeverity → ℕ
severity_contribution VulnerabilitySeverity.unknown = 0
severity_contribution VulnerabilitySeverity.low = 15
severity_contribution VulnerabilitySeverity.medium = 35
severity_contribution VulnerabilitySeverity.high = 55
severity_contribution VulnerabilitySeverity.critical = 70

-- `_IDENTITY_CONFIDENCE`
abbrev pub identity_confidence : VulnerabilityMatchConfidence → ℕ
identity_confidence VulnerabilityMatchConfidence.high = 100
identity_confidence VulnerabilityMatchConfidence.medium = 60

abbrev pub is_known : VulnerabilitySeverity → Bool
is_known VulnerabilitySeverity.unknown = false
is_known VulnerabilitySeverity.low = true
is_known VulnerabilitySeverity.medium = true
is_known VulnerabilitySeverity.high = true
is_known VulnerabilitySeverity.critical = true

-- The explanation of the fallback by severity.
abbrev pub fallback_explanation : VulnerabilitySeverity → ℕ → Text
fallback_explanation severity contribution =
    if is_known severity
    then text "Provider vulnerability severity "
      ++ severity_value severity
      ++ text " contributes "
      ++ decimal contribution
      ++ text " fallback priority points because CVSS is unavailable"
    else text "No known provider qualitative severity is available for fallback"

-- `_severity_factor`
unfoldable pub severity_factor : Vulnerability → Bool → RiskFactor
severity_factor v use_fallback =
    let contribution = if use_fallback then severity_contribution v.severity else 0 in
    record {
      kind = RiskFactorKind.vulnerability_severity;
      contribution = contribution;
      explanation =
          if use_fallback
          then fallback_explanation v.severity contribution
          else text "Provider vulnerability severity is "
            ++ severity_value v.severity
            ++ text "; it is evidence only because a valid CVSS base score is available";
      evidence = (text "severity:" ++ severity_value v.severity) ∷ [];
    }

-- `f"{score:g}"`
abbrev pub score_text : ℕ → Text
score_text tenths =
    if tenths % 10 == 0
    then decimal (tenths / 10)
    else decimal (tenths / 10) ++ text "." ++ decimal (tenths % 10)

-- `int(float(score) * 7 + 0.5)`, of tenths
abbrev pub cvss_contribution : ℕ → ℕ
cvss_contribution tenths = (7 * tenths + 5) / 10

abbrev pub no_cvss_factor : RiskFactor
no_cvss_factor = record {
  kind = RiskFactorKind.cvss_base;
  contribution = 0;
  explanation = text "No valid provider CVSS base score is available";
  evidence = text "cvss:missing" ∷ [];
}

-- `_cvss_factor`
unfoldable pub cvss_factor : Option ℕ → RiskFactor
cvss_factor none = no_cvss_factor
cvss_factor (some tenths) =
    if leb tenths 100
    then record {
      kind = RiskFactorKind.cvss_base;
      contribution = cvss_contribution tenths;
      explanation =
          text "Provider CVSS base score "
          ++ score_text tenths
          ++ text " contributes "
          ++ decimal (cvss_contribution tenths)
          ++ text " priority points";
      evidence = (text "cvss:" ++ score_text tenths) ∷ [];
    }
    else no_cvss_factor

-- `_identity_factor`
unfoldable pub identity_factor : Option VulnerabilityMatchConfidence → RiskFactor
identity_factor none = record {
  kind = RiskFactorKind.identity_match_confidence;
  contribution = 0;
  explanation =
      text "Technology-to-Vulnerability identity confidence is missing; this leaves assessment "
      ++ text "confidence incomplete but does not reduce investigation priority";
  evidence = text "identity-match-confidence:missing" ∷ [];
}
identity_factor (some c) = record {
  kind = RiskFactorKind.identity_match_confidence;
  contribution = 0;
  explanation =
      text "Explicit Technology-to-Vulnerability identity match has "
      ++ match_confidence_value c
      ++ text " confidence; this influences assessment confidence, not investigation priority";
  evidence = (text "identity-match-confidence:" ++ match_confidence_value c) ∷ [];
}

abbrev pub no_detection_factor : RiskFactor
no_detection_factor = record {
  kind = RiskFactorKind.technology_detection_confidence;
  contribution = 0;
  explanation =
      text "Technology detection confidence is missing; this leaves assessment confidence "
      ++ text "incomplete but does not reduce investigation priority";
  evidence = text "technology-detection-confidence:missing" ∷ [];
}

-- `_technology_confidence_factor`
unfoldable pub technology_confidence_factor : Option ℕ → RiskFactor
technology_confidence_factor none = no_detection_factor
technology_confidence_factor (some c) =
    if leb c 100
    then record {
      kind = RiskFactorKind.technology_detection_confidence;
      contribution = 0;
      explanation =
          text "Technology detection confidence is "
          ++ decimal c
          ++ text "%; this influences assessment confidence, not investigation priority";
      evidence = (text "technology-detection-confidence:" ++ decimal c) ∷ [];
    }
    else no_detection_factor

-- `f"{endpoint.protocol}://{endpoint.host}:{endpoint.port}{endpoint.path or ''}"`
abbrev pub path_text : Option Text → Text
path_text none = []
path_text (some s) = s

abbrev pub endpoint_text : Endpoint → Text
endpoint_text e =
    e.protocol ++ text "://" ++ e.host ++ text ":" ++ decimal e.port ++ path_text e.path

-- `_endpoint_presence_factor`
unfoldable pub endpoint_presence_factor : List Endpoint → RiskFactor
endpoint_presence_factor endpoints = record {
  kind = RiskFactorKind.observed_endpoint_presence;
  contribution = 0;
  explanation =
      if is_empty endpoints
      then text "No Endpoint is present on the Asset snapshot; endpoint absence does not establish "
        ++ text "reachability or exposure"
      else text "The Asset snapshot contains one or more Endpoints; presence does not establish "
        ++ text "reachability, public availability, or network exposure";
  evidence =
      if is_empty endpoints
      then text "observed-endpoint:none" ∷ []
      else sort (map endpoint_text endpoints);
}

abbrev pub when_missing : Bool → Text → List Text
when_missing present name = if present then [] else name ∷ []
