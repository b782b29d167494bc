-- ===== src/Domain/Risk/Paths.antt =====
-- `RiskIntelligenceCapability.execute`: redforge/capabilities/risk_intelligence.py.
use red_forge.Base.{
  ℕ, ◌-◌, Bool, false, ◌||◌, Option, none, some, List, [], ◌∷◌, ◌++◌, ◌==◌, nat_order, ltb,
  if◌then◌else◌, length, map, Text, text, text_order, sorted_set, sort_on, pair_order, texts_order,
  option_order, lookup,
}
use red_forge.Sdk.Exception.{Attempt, returns, ◌>>=◌, traverse}
use red_forge.Sdk.Result.{Status, success, failure, partial}
use red_forge.Domain.Strings.{Platform}
use red_forge.Domain.Graph.{
  relation_kind_order, node_kind_order, Asset, Technology, Vulnerability, asset_entity,
  technology_entity, vulnerability_entity, KnowledgeGraphNode, KnowledgeGraphEdge, KnowledgeGraph,
  edge_order,
}
use red_forge.Domain.Risk.{RiskAssessment, AssessedPath}
use red_forge.Domain.Risk.Assess.{assessment}
use red_forge.Domain.Risk.Edges.{
  NodeIndex, node_index, match_edge_preference_key, Links, links_of, targeting, leaving,
}

-- The vulnerabilities of one asset and technology, and the assets of one technology, in order.
unfoldable pub paths_from : Text → Text → List Text → List AssessedPath
paths_from a t vs =
    map (λ v. record { asset_node_id = a; technology_node_id = t; vulnerability_node_id = v }) vs

unfoldable pub paths_over : List Text → Text → List Text → List AssessedPath
paths_over [] t vs = []
paths_over (a ∷ rest) t vs = paths_from a t vs ++ paths_over rest t vs

unfoldable pub paths_through : Links → List Text → List AssessedPath
paths_through l [] = []
paths_through l (t ∷ ts) =
    paths_over (sorted_set (map (λ (e : KnowledgeGraphEdge). e.source_id) (targeting t l.observed)))
      t (sorted_set (map (λ (e : KnowledgeGraphEdge). e.target_id) (leaving t l.matched)))
    ++ paths_through l ts

unfoldable pub paths_of : Links → List AssessedPath
paths_of l = paths_through l (sorted_set (map (λ (e : KnowledgeGraphEdge). e.target_id) l.observed))

-- `min(edges, key=self._match_edge_preference_key)`
unfoldable pub preferred : KnowledgeGraphEdge → List KnowledgeGraphEdge → KnowledgeGraphEdge
preferred e [] = e
preferred e (f ∷ fs) =
    let kept = preferred e fs in
    let taken = preferred f fs in
    if pair_order.le (match_edge_preference_key e) (match_edge_preference_key f)
    then kept
    else taken

-- The entity of a node that is there, if it is of the expected class.
abbrev pub asset_of : Option KnowledgeGraphNode → Option Asset
asset_of none = none
asset_of (some n) = elim n.entity [ asset_entity a ↦ some a | _ ↦ none ]

abbrev pub technology_of : Option KnowledgeGraphNode → Option Technology
technology_of none = none
technology_of (some n) = elim n.entity [ technology_entity t ↦ some t | _ ↦ none ]

abbrev pub vulnerability_of : Option KnowledgeGraphNode → Option Vulnerability
vulnerability_of none = none
vulnerability_of (some n) = elim n.entity [ vulnerability_entity v ↦ some v | _ ↦ none ]

-- The assessment of a path whose ends have the expected entities, of the edges that match it.
unfoldable pub assess_entities :
    Platform
    → AssessedPath
    → List KnowledgeGraphEdge
    → Option Asset
    → Option Technology
    → Option Vulnerability
    → Attempt (List RiskAssessment)
assess_entities p path [] a t v = returns []
assess_entities p path (e ∷ es) none t v = returns []
assess_entities p path (e ∷ es) (some a) none v = returns []
assess_entities p path (e ∷ es) (some a) (some t) none = returns []
assess_entities p path (e ∷ es) (some a) (some t) (some v) =
    assessment p path a t v (preferred e es) >>= λ r. returns (r ∷ [])

unfoldable pub assess_path :
    Platform → NodeIndex → Links → AssessedPath → Attempt (List RiskAssessment)
assess_path p nodes l path =
    assess_entities p path
      (targeting path.vulnerability_node_id (leaving path.technology_node_id l.matched))
      (asset_of (lookup path.asset_node_id nodes))
      (technology_of (lookup path.technology_node_id nodes))
      (vulnerability_of (lookup path.vulnerability_node_id nodes))

-- `assessments.setdefault(assessment.identifier, assessment)`, then the values
unfoldable pub has_assessment : Text → List RiskAssessment → Bool
has_assessment i [] = false
has_assessment i (r ∷ rs) = r.identifier == i || has_assessment i rs

unfoldable pub collect : List RiskAssessment → List (List RiskAssessment) → List RiskAssessment
collect found [] = found
collect found ([] ∷ more) = collect found more
collect found ((r ∷ rs) ∷ more) =
    collect (if has_assessment r.identifier found then found else found ++ (r ∷ [])) more

-- The key of the final order, with the score counted down from 100.
abbrev pub priority_key : RiskAssessment → ℕ × List Text
priority_key r = (
  100 - r.priority_score,
  r.asset_node_id ∷ r.technology_node_id ∷ r.vulnerability_node_id ∷ r.identifier ∷ [],
)

pub record RiskResult : Type 0 where
  pub status : Status
  pub assessments : List RiskAssessment
  pub errors : List Text
  pub skipped_relationship_count : ℕ
  pub input_node_count : ℕ
  pub input_edge_count : ℕ

-- What the context has under the key of the knowledge graph.
pub data GraphInput : Type 0 where
  no_graph other_value : GraphInput
  graph_value : KnowledgeGraph → GraphInput

abbrev pub refused_input : Status → Text → RiskResult
refused_input status message = record {
  status = status;
  assessments = [];
  errors = message ∷ [];
  skipped_relationship_count = 0;
  input_node_count = 0;
  input_edge_count = 0;
}

-- The result of the assessments of all paths.
abbrev pub result_of : KnowledgeGraph → Links → List (List RiskAssessment) → RiskResult
result_of g l found = record {
  status = if ltb 0 l.skipped then partial else success;
  assessments = sort_on priority_key (collect [] found);
  errors = l.errors;
  skipped_relationship_count = l.skipped;
  input_node_count = length g.nodes;
  input_edge_count = length g.edges;
}

unfoldable pub assess_graph : Platform → KnowledgeGraph → Attempt RiskResult
assess_graph p g =
    let l = links_of g in
    traverse (assess_path p (node_index g.nodes) l) (paths_of l) >>= λ found.
    returns (result_of g l found)

-- `RiskIntelligenceCapability.execute`
unfoldable pub execute_risk : Platform → GraphInput → Attempt RiskResult
execute_risk p no_graph =
    returns (refused_input failure (text "Required Knowledge Graph input is missing"))
execute_risk p other_value =
    returns (refused_input Status.error (text "Knowledge Graph input has an invalid type"))
execute_risk p (graph_value g) = assess_graph p g
