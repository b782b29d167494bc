-- ===== src/Domain/Risk/Assess.antt =====
-- The assessment of one path: `_assessment` in redforge/capabilities/risk_intelligence.py.
use red_forge.Base.{
  ℕ, ◌+◌, Bool, true, false, ◌||◌, not, Option, none, some, List, [], ◌∷◌, ◌++◌, ◌==◌, nat_order,
  leb, if◌then◌else◌, map, Text, text, sorted_set, text_order, bit, first,
}
use Prim.Native.Nat.{◌*◌, ◌/◌}
use red_forge.Sdk.Exception.{Attempt, returns, raises, ◌>>=◌, value_error}
use red_forge.Domain.Strings.{Platform}
use red_forge.Domain.Graph.{
  VulnerabilityMatchConfidence, Asset, Technology, Vulnerability, KnowledgeGraphEdge,
}
use red_forge.Domain.Risk.{
  RiskFactorKind, RiskFactor, RiskAssessment, AssessedPath, Scores, risk_assessment,
  factor_kind_order,
}
use red_forge.Domain.Risk.Factors.{
  is_cvss_score, is_confidence_percentage, identity_confidence, is_known, severity_factor,
  cvss_factor, identity_factor, technology_confidence_factor, endpoint_text,
  endpoint_presence_factor, when_missing,
}

abbrev pub is_some {ℓ} : {A : Type ℓ} → Option A → Bool
is_some none = false
is_some (some a) = true

-- What is missing, in the order in which the factors find it.
unfoldable pub missing_items : Vulnerability → Technology → KnowledgeGraphEdge → List Text
missing_items v t e =
    when_missing (is_cvss_score v.cvss_score) (text "valid CVSS base score")
    ++ when_missing (is_known v.severity) (text "known vulnerability severity")
    ++ when_missing (is_some e.confidence) (text "identity match confidence")
    ++ when_missing (is_confidence_percentage t.confidence) (text "technology detection confidence")

-- `", ".join(items)`
unfoldable pub listed : List Text → Text
listed [] = []
listed (s ∷ []) = s
listed (s ∷ t ∷ ts) = s ++ text ", " ++ listed (t ∷ ts)

-- The factor of missing information, where there is any.
unfoldable pub quality_factors : List Text → List RiskFactor
quality_factors [] = []
quality_factors (s ∷ missing) =
    record {
      kind = RiskFactorKind.data_quality;
      contribution = 0;
      explanation = text "Explicit assessment information is absent: " ++ listed (s ∷ missing);
      evidence = map (λ item. text "missing:" ++ item) (s ∷ missing);
    }
    ∷ []

unfoldable pub factors_of :
    Asset → Technology → Vulnerability → KnowledgeGraphEdge → List RiskFactor
factors_of a t v e =
    severity_factor v (not (is_cvss_score v.cvss_score))
    ∷ cvss_factor v.cvss_score
    ∷ identity_factor e.confidence
    ∷ technology_confidence_factor t.confidence
    ∷ endpoint_presence_factor a.endpoints
    ∷ quality_factors (missing_items v t e)

-- `next(factor.contribution for factor in factors if factor.kind == kind)`
abbrev pub contribution_or : Option RiskFactor → Attempt ℕ
contribution_or none = raises (value_error (text "StopIteration"))
contribution_or (some f) = returns f.contribution

unfoldable pub contribution_of : RiskFactorKind → List RiskFactor → Attempt ℕ
contribution_of kind factors = contribution_or (first (λ (f : RiskFactor). f.kind == kind) factors)

abbrev pub confidence_list : Option VulnerabilityMatchConfidence → List ℕ
confidence_list none = []
confidence_list (some c) = identity_confidence c ∷ []

abbrev pub detection_list : Option ℕ → List ℕ
detection_list none = []
detection_list (some c) = if leb c 100 then c ∷ [] else []

-- `sum(xs) // len(xs) if xs else 0`; there are two components at most.
unfoldable pub mean : List ℕ → ℕ
mean [] = 0
mean (x ∷ []) = x
mean (x ∷ y ∷ _) = (x + y) / 2

abbrev pub bits : List Bool → ℕ
bits [] = 0
bits (b ∷ bs) = bit b + bits bs

abbrev pub is_priority_known : Vulnerability → Bool
is_priority_known v = is_cvss_score v.cvss_score || is_known v.severity

unfoldable pub scores_of : ℕ → Technology → Vulnerability → KnowledgeGraphEdge → Scores
scores_of priority t v e = record {
  priority_score = priority;
  confidence_score = mean (confidence_list e.confidence ++ detection_list t.confidence);
  data_completeness =
      25
      * bits (
          is_priority_known v
          ∷ is_some e.confidence
          ∷ is_confidence_percentage t.confidence
          ∷ true
          ∷ []);
  priority_known = is_priority_known v;
}

-- The evidence of the path, a sorted set.
unfoldable pub path_evidence :
    AssessedPath → Asset → Technology → Vulnerability → KnowledgeGraphEdge → List Text
path_evidence path a t v e = sorted_set (
    (text "asset-node:" ++ path.asset_node_id)
    ∷ (text "technology-node:" ++ path.technology_node_id)
    ∷ (text "vulnerability-node:" ++ path.vulnerability_node_id)
    ∷ (text "vulnerability:" ++ v.identifier)
    ∷ (map (λ item. text "technology-evidence:" ++ item) t.evidence
        ++ map (λ item. text "match-evidence:" ++ item) e.evidence
        ++ map (λ endpoint. text "endpoint:" ++ endpoint_text endpoint) a.endpoints))

-- `_assessment`
unfoldable pub assessment :
    Platform
    → AssessedPath
    → Asset
    → Technology
    → Vulnerability
    → KnowledgeGraphEdge
    → Attempt RiskAssessment
assessment p path a t v e =
    let factors = factors_of a t v e in
    contribution_of
      (if is_cvss_score v.cvss_score
        then RiskFactorKind.cvss_base
        else RiskFactorKind.vulnerability_severity)
      factors
    >>= λ priority.
        risk_assessment p path (scores_of priority t v e) factors (path_evidence path a t v e)
