-- ===== src/Domain/Risk/Bounds.antt =====
-- The scores of an assessment: it is always made, and where they lie.
use red_forge.Base.{
  ℕ, ◌+◌, ◌≤◌, ◌≡◌, refl, ap, ◌∙◌, Bool, true, false, not, ◌||◌, Option, none, some, List, ◌∷◌,
  ◌++◌, leb, ltb, if◌then◌else◌, Text, text_le, arith, Bool-cases, inl, inr, bit, first,
}
use Prim.Native.Nat.{◌*◌, ◌/◌}
use red_forge.Sdk.Exception.{Attempt, returns, ◌>>=◌}
use red_forge.Domain.Strings.{Platform}
use red_forge.Domain.Graph.{
  VulnerabilitySeverity, VulnerabilityMatchConfidence, Asset, Technology, Vulnerability,
  KnowledgeGraphEdge,
}
use red_forge.Domain.Risk.{
  RiskLevel, RiskFactorKind, RiskFactor, RiskAssessment, AssessedPath, Scores, risk_assessment,
  assessment_fields, risk_level_for_score, factor_kind_order,
}
use red_forge.Domain.Risk.Factors.{
  severity_factor, cvss_factor, is_cvss_score, is_confidence_percentage, severity_contribution,
  identity_confidence, is_known, identity_factor, technology_confidence_factor,
  endpoint_presence_factor,
}
use red_forge.Domain.Risk.Assess.{
  assessment, contribution_of, factors_of, scores_of, path_evidence, is_some, mean, confidence_list,
  detection_list, is_priority_known, quality_factors, missing_items,
}

severity_at_most : (s : VulnerabilitySeverity) → severity_contribution s ≤ 70
severity_at_most VulnerabilitySeverity.unknown = omega arith
severity_at_most VulnerabilitySeverity.low = omega arith
severity_at_most VulnerabilitySeverity.medium = omega arith
severity_at_most VulnerabilitySeverity.high = omega arith
severity_at_most VulnerabilitySeverity.critical = omega arith

unknown_severity : (s : VulnerabilitySeverity) → is_known s ≡ false → severity_contribution s ≡ 0
unknown_severity VulnerabilitySeverity.unknown h = refl
unknown_severity VulnerabilitySeverity.low h = absurd (cc)
unknown_severity VulnerabilitySeverity.medium h = absurd (cc)
unknown_severity VulnerabilitySeverity.high h = absurd (cc)
unknown_severity VulnerabilitySeverity.critical h = absurd (cc)

identity_at_most : (c : VulnerabilityMatchConfidence) → identity_confidence c ≤ 100
identity_at_most VulnerabilityMatchConfidence.high = omega arith
identity_at_most VulnerabilityMatchConfidence.medium = omega arith

mean_at_most :
    (c : Option VulnerabilityMatchConfidence) (d : Option ℕ)
    → mean (confidence_list c ++ detection_list d) ≤ 100
unfolding mean
mean_at_most none none = omega arith
mean_at_most none (some d) = ground arith
mean_at_most (some c) none = identity_at_most c
mean_at_most (some c) (some d) = ground (arith, identity_at_most c)

bit_at_most : (b : Bool) → bit b ≤ 1
bit_at_most true = omega arith
bit_at_most false = omega arith

-- The kind of the factor that gives the priority.
abbrev priority_kind : Option ℕ → RiskFactorKind
priority_kind o =
    if is_cvss_score o then RiskFactorKind.cvss_base else RiskFactorKind.vulnerability_severity

-- At most 70, and 0 where neither the score nor the severity is known.
abbrev IsPriority : Option ℕ → VulnerabilitySeverity → ℕ → Type 0
IsPriority o s n = (n ≤ 70) × ((is_cvss_score o || is_known s) ≡ false → n ≡ 0)

contribution_of-IsPriority :
    (v : Vulnerability) (o : Option ℕ) (rest : List RiskFactor)
    → (n : ℕ) × (contribution_of
          (priority_kind o)
          (severity_factor v (not (is_cvss_score o)) ∷ cvss_factor o ∷ rest)
        ≡ returns n)
      × IsPriority o v.severity n
unfolding contribution_of severity_factor cvss_factor first text_le
contribution_of-IsPriority v none rest = (
  severity_contribution v.severity,
  refl,
  (severity_at_most v.severity, unknown_severity v.severity),
)
contribution_of-IsPriority v (some n) rest = elim (Bool-cases (leb n 100)) [
  | inl e ↦ rw e (
    (7 * n + 5) / 10,
    refl,
    (let small : n ≤ 100 = ground arith in omega arith, λ h. absurd (cc)),
  )
  | inr e ↦ rw e (
    severity_contribution v.severity,
    refl,
    (severity_at_most v.severity, unknown_severity v.severity),
  )
]

-- The level that a score stands for.
abbrev pub level_of : ℕ → Bool → RiskLevel
level_of score known =
    if known
    then if ltb score 20
      then RiskLevel.low
      else if ltb score 40
      then RiskLevel.medium
      else if ltb score 60
      then RiskLevel.high
      else RiskLevel.critical
    else RiskLevel.unknown

-- The bounds of the scores, and what the level of an assessment says.
abbrev pub IsBounded : RiskAssessment → Type 0
IsBounded r =
    (r.priority_score ≤ 70)
    × (r.confidence_score ≤ 100)
    × (25 ≤ r.data_completeness)
    × (r.data_completeness ≤ 100)
    × (r.priority_known ≡ false → r.priority_score ≡ 0)
    × (r.level ≡ level_of r.priority_score r.priority_known)

-- The assessment names the nodes of the path.
abbrev pub IsAbout : AssessedPath → RiskAssessment → Type 0
IsAbout path r =
    (r.asset_node_id ≡ path.asset_node_id)
    × (r.technology_node_id ≡ path.technology_node_id)
    × (r.vulnerability_node_id ≡ path.vulnerability_node_id)

abbrev HasScores : Scores → Type 0
HasScores s =
    (s.priority_score ≤ 70)
    × (s.confidence_score ≤ 100)
    × (25 ≤ s.data_completeness)
    × (s.data_completeness ≤ 100)
    × (s.priority_known ≡ false → s.priority_score ≡ 0)

percentage : (n : ℕ) → n ≤ 100 → leb n 100 ≡ true
percentage n h = ground arith

risk_assessment-IsBounded :
    (p : Platform) (path : AssessedPath) (s : Scores) (factors : List RiskFactor)
    (evidence : List Text)
    → HasScores s
    → (r : RiskAssessment) × (risk_assessment p path s factors evidence ≡ returns r)
      × IsBounded r
      × IsAbout path r
      × (r.priority_known ≡ s.priority_known)
unfolding risk_assessment risk_level_for_score
risk_assessment-IsBounded p path s factors evidence h =
    let one = percentage s.priority_score (omega (arith, h.0)) in
    let two = percentage s.confidence_score h.1 in
    let three = percentage s.data_completeness h.3 in
    (
      assessment_fields p path s factors evidence (level_of s.priority_score s.priority_known),
      rw (one, two, three),
      (h.0, h.1, h.2, h.3, h.4, refl),
      (refl, refl, refl),
      refl,
    )

factors_after : Asset → Technology → Vulnerability → KnowledgeGraphEdge → List RiskFactor
factors_after a t v e =
    identity_factor e.confidence
    ∷ technology_confidence_factor t.confidence
    ∷ endpoint_presence_factor a.endpoints
    ∷ quality_factors (missing_items v t e)

scores_within :
    (n : ℕ) (t : Technology) (v : Vulnerability) (e : KnowledgeGraphEdge)
    → IsPriority v.cvss_score v.severity n
    → HasScores (scores_of n t v e)
unfolding scores_of
scores_within n t v e h =
    let one = bit_at_most (is_priority_known v) in
    let two = bit_at_most (is_some e.confidence) in
    let three = bit_at_most (is_confidence_percentage t.confidence) in
    (h.0, mean_at_most e.confidence t.confidence, omega arith, omega (arith, one, two, three), h.1)

-- The assessment of an explicit path is always made: its constructor refuses none of the scores. The
-- priority is at most 70, the confidence at most 100, the completeness from 25 to 100. The priority is
-- known exactly where the vulnerability has a valid CVSS score or a known severity; if it is not
-- known, it is 0 and the level is UNKNOWN, else the level is the one of the score. The assessment
-- names the nodes of the path.
pub assessment-IsBounded :
    (p : Platform) (path : AssessedPath) (a : Asset) (t : Technology) (v : Vulnerability)
    (e : KnowledgeGraphEdge)
    → (r : RiskAssessment) × (assessment p path a t v e ≡ returns r)
      × IsBounded r
      × IsAbout path r
      × (r.priority_known ≡ (is_cvss_score v.cvss_score || is_known v.severity))
unfolding scores_of assessment factors_of factors_after
assessment-IsBounded p path a t v e =
    let (n, found, priority) = contribution_of-IsPriority v v.cvss_score (factors_after a t v e) in
    let (r, made, bounded, about, known) =
      risk_assessment-IsBounded p path (scores_of n t v e) (factors_of a t v e)
        (path_evidence path a t v e) (scores_within n t v e priority) in
    (
      r,
      ap
            (λ (m : Attempt ℕ). m >>= λ priority.
              risk_assessment p path (scores_of priority t v e) (factors_of a t v e)
                (path_evidence path a t v e))
            found
          ∙ made,
      bounded,
      about,
      known,
    )
