-- ===== src/Tests/RiskTests.antt =====
-- Runs of risk intelligence, and the theorems about it at concrete data.
use red_forge.Base.{
  ◌≡◌, refl, ◌||◌, All, List, [], ◌∷◌, none, some, text, first, lookup, put, has, keep, contains,
  dedup, insert_on, sort, sort_on, sorted_set, text_le, list_le, decimal, ℕ,
}
use red_forge.Sdk.Exception.{Attempt, returns, traverse}
use red_forge.Domain.Graph.{
  KnowledgeNodeKind, VulnerabilitySeverity, VulnerabilityMatchConfidence, Asset, Technology,
  Vulnerability, asset_entity, technology_entity, vulnerability_entity, KnowledgeGraphEdge,
  KnowledgeGraph, observed_technology, matches_vulnerability,
}
use red_forge.Domain.Risk.{RiskAssessment, AssessedPath, risk_assessment, risk_level_for_score}
use red_forge.Domain.Risk.Factors.{
  is_cvss_score, is_known, severity_factor, cvss_factor, identity_factor,
  technology_confidence_factor, endpoint_presence_factor,
}
use red_forge.Domain.Risk.Assess.{
  assessment, missing_items, listed, quality_factors, factors_of, contribution_of, mean, scores_of,
  path_evidence,
}
use red_forge.Domain.Risk.Edges.{
  index_nodes, node_index, valid_edge, is_valid_edge, link_edge, link_edges, ordered_edges,
  links_of,
}
use red_forge.Domain.Risk.Paths.{
  RiskResult, assess_graph, paths_from, paths_over, paths_through, paths_of, preferred,
  assess_entities, assess_path, has_assessment, collect,
}
use red_forge.Domain.Risk.Bounds.{IsBounded, IsAbout, assessment-IsBounded}
use red_forge.Domain.Risk.Explicit.{IsExplained, assess_graph-IsExplained}
use red_forge.Domain.Risk.Ranked.{IsRanked, IsOnce, assess_graph-IsRanked}
use red_forge.Tests.DomainSamples.{platform, short_digest, weight, weights, padded}

abbrev shop_asset : Asset
shop_asset = record {
  identifier = text "shop.example.com";
  type = text "domain";
  name = none;
  description = none;
  aliases = [];
  endpoints = [];
}

abbrev web_server : Technology
web_server = record {
  name = text "nginx";
  category = text "server";
  version = some (text "1.18");
  vendor = none;
  description = none;
  source = none;
  evidence = [];
  confidence = some 90;
}

abbrev flaw : Vulnerability
flaw = record {
  identifier = text "CVE-2024-1111";
  source = text "nvd";
  aliases = [];
  summary = none;
  description = none;
  severity = VulnerabilitySeverity.high;
  cvss_score = some 75;
  cvss_vector = none;
  cvss_version = none;
  cwe_ids = [];
  references = [];
  status = none;
}

abbrev runs : KnowledgeGraphEdge
runs = record {
  source_id = text "a";
  target_id = text "t";
  kind = observed_technology;
  product_identifier = none;
  match_method = none;
  confidence = none;
  evidence = [];
}

abbrev matches : KnowledgeGraphEdge
matches = record {
  source_id = text "t";
  target_id = text "v";
  kind = matches_vulnerability;
  product_identifier = none;
  match_method = none;
  confidence = some VulnerabilityMatchConfidence.high;
  evidence = [];
}

-- The last edge goes from a vulnerability to an asset.
abbrev small_graph : KnowledgeGraph
small_graph = record {
  nodes =
      record {
        identifier = text "a";
        kind = KnowledgeNodeKind.asset;
        entity = asset_entity shop_asset;
      }
      ∷ record {
        identifier = text "t";
        kind = KnowledgeNodeKind.technology;
        entity = technology_entity web_server;
      }
      ∷ record {
        identifier = text "v";
        kind = KnowledgeNodeKind.vulnerability;
        entity = vulnerability_entity flaw;
      }
      ∷ [];
  edges = runs ∷ matches ∷ (record runs { source_id = text "v"; target_id = text "a" }) ∷ [];
}

-- What risk intelligence computes through.
unfoldable risk : Unit {0}
unfolding first lookup put has keep contains dedup insert_on sort sort_on sorted_set text_le list_le
    decimal traverse risk_assessment risk_level_for_score assessment severity_factor cvss_factor
    identity_factor technology_confidence_factor endpoint_presence_factor missing_items listed
    quality_factors factors_of contribution_of mean scores_of path_evidence assess_graph index_nodes
    node_index valid_edge is_valid_edge link_edge link_edges ordered_edges links_of paths_from
    paths_over paths_through paths_of preferred assess_entities assess_path has_assessment collect
    short_digest weight weights padded
risk = tt

abbrev priorities : Attempt RiskResult → List ℕ
priorities (returns out) = scores out.assessments
  where
    scores : List RiskAssessment → List ℕ
    scores [] = []
    scores (r ∷ rs) = r.priority_score ∷ scores rs
priorities _ = []

-- 7.5 * 7 + 0.5 rounded down; one edge is skipped.
small_graph_assessed : priorities (assess_graph platform small_graph) ≡ 53 ∷ []
unfolding risk
small_graph_assessed = refl

assess_graph-IsExplained_example :
    (out : RiskResult) × (assess_graph platform small_graph ≡ returns out)
    × All (IsExplained small_graph) out.assessments
assess_graph-IsExplained_example = assess_graph-IsExplained platform small_graph

assess_graph-IsRanked_example :
    (out : RiskResult) × (assess_graph platform small_graph ≡ returns out)
    × IsRanked out.assessments
    × IsOnce out.assessments
assess_graph-IsRanked_example = assess_graph-IsRanked platform small_graph

abbrev small_path : AssessedPath
small_path = record {
  asset_node_id = text "a";
  technology_node_id = text "t";
  vulnerability_node_id = text "v";
}

assessment-IsBounded_example :
    (r : RiskAssessment) × (assessment platform small_path shop_asset web_server flaw matches
      ≡ returns r)
    × IsBounded r
    × IsAbout small_path r
    × (r.priority_known ≡ (is_cvss_score flaw.cvss_score || is_known flaw.severity))
assessment-IsBounded_example =
    assessment-IsBounded platform small_path shop_asset web_server flaw matches
