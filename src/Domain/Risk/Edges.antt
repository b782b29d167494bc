-- ===== src/Domain/Risk/Edges.antt =====
-- The nodes and the edges of a knowledge graph, as the loop of `RiskIntelligenceCapability.execute`
-- reads them: redforge/capabilities/risk_intelligence.py. The two nested dictionaries that it fills
-- are the lists of the edges that they are filled from.
use red_forge.Base.{
  ℕ, suc, ◌-◌, Bool, true, false, ◌&&◌, Option, none, some, List, [], ◌∷◌, ◌++◌, ◌==◌, nat_order,
  if◌then◌else◌, keep, Text, text, text_order, dedup, sort_on, pair_order, texts_order,
  option_order, Dict, lookup, put, has,
}
use red_forge.Domain.Graph.{
  KnowledgeNodeKind, KnowledgeRelationKind, relation_kind_value, relation_kind_order,
  node_kind_order, Entity, asset_entity, technology_entity, vulnerability_entity,
  KnowledgeGraphNode, KnowledgeGraphEdge, KnowledgeGraph, ProductIdentifier,
  VulnerabilityMatchConfidence, VulnerabilityMatchMethod, match_confidence_value,
  match_method_value, observed_technology, matches_vulnerability, edge_order,
}
use red_forge.Domain.Risk.Factors.{identity_confidence}

abbrev pub NodeIndex : Type 0
NodeIndex = Dict Text KnowledgeGraphNode

-- `index.setdefault(node.identifier, node)` for every node
unfoldable pub index_nodes : NodeIndex → List KnowledgeGraphNode → NodeIndex
index_nodes d [] = d
index_nodes d (n ∷ ns) = index_nodes (if has n.identifier d then d else put n.identifier n d) ns

-- `_node_index`
unfoldable pub node_index : List KnowledgeGraphNode → NodeIndex
node_index nodes = index_nodes [] (sort_on (λ (n : KnowledgeGraphNode). n.identifier) nodes)

abbrev pub is_asset : Entity → Bool
is_asset (asset_entity _) = true
is_asset (technology_entity _) = false
is_asset (vulnerability_entity _) = false

abbrev pub is_technology : Entity → Bool
is_technology (asset_entity _) = false
is_technology (technology_entity _) = true
is_technology (vulnerability_entity _) = false

abbrev pub is_vulnerability : Entity → Bool
is_vulnerability (asset_entity _) = false
is_vulnerability (technology_entity _) = false
is_vulnerability (vulnerability_entity _) = true

-- `_valid_edge`, by the kind of the edge
unfoldable pub valid_edge : KnowledgeRelationKind → KnowledgeGraphNode → KnowledgeGraphNode → Bool
valid_edge observed_technology source target =
    source.kind == KnowledgeNodeKind.asset
    && is_asset source.entity
    && target.kind == KnowledgeNodeKind.technology
    && is_technology target.entity
valid_edge matches_vulnerability source target =
    source.kind == KnowledgeNodeKind.technology
    && is_technology source.entity
    && target.kind == KnowledgeNodeKind.vulnerability
    && is_vulnerability target.entity

abbrev pub both_valid :
    KnowledgeRelationKind → Option KnowledgeGraphNode → Option KnowledgeGraphNode → Bool
both_valid kind none target = false
both_valid kind (some source) none = false
both_valid kind (some source) (some target) = valid_edge kind source target

-- Both ends are nodes of the graph, and valid for the edge.
unfoldable pub is_valid_edge : NodeIndex → KnowledgeGraphEdge → Bool
is_valid_edge nodes e = both_valid e.kind (lookup e.source_id nodes) (lookup e.target_id nodes)

abbrev pub product_texts : Option ProductIdentifier → List Text
product_texts none = [] ∷ [] ∷ []
product_texts (some i) = i.scheme ∷ i.value ∷ []

abbrev pub method_text : Option VulnerabilityMatchMethod → Text
method_text none = []
method_text (some m) = match_method_value m

abbrev pub confidence_text : Option VulnerabilityMatchConfidence → Text
confidence_text none = []
confidence_text (some c) = match_confidence_value c

-- `_edge_sort_key`
abbrev pub edge_sort_key : KnowledgeGraphEdge → List Text × List Text
edge_sort_key e = (
  e.source_id
      ∷ e.target_id
      ∷ relation_kind_value e.kind
      ∷ (product_texts e.product_identifier
          ++ (method_text e.match_method ∷ confidence_text e.confidence ∷ [])),
  e.evidence,
)

abbrev pub preference : Option VulnerabilityMatchConfidence → ℕ
preference none = 100
preference (some c) = 100 - identity_confidence c

-- `_match_edge_preference_key`, with the confidence counted down from 100
abbrev pub match_edge_preference_key : KnowledgeGraphEdge → ℕ × (List Text × List Text)
match_edge_preference_key e = (preference e.confidence, edge_sort_key e)

-- The variables of the loop over the edges.
pub record Links : Type 0 where
  pub observed : List KnowledgeGraphEdge
  pub matched : List KnowledgeGraphEdge
  pub skipped : ℕ
  pub errors : List Text

abbrev pub skip_error : KnowledgeGraphEdge → Text
skip_error e =
    text "Skipped invalid graph relationship '"
    ++ e.source_id
    ++ text "' -> '"
    ++ e.target_id
    ++ text "' ("
    ++ relation_kind_value e.kind
    ++ text ")"

abbrev pub with_link : KnowledgeRelationKind → KnowledgeGraphEdge → Links → Links
with_link observed_technology e l = record l { observed = l.observed ++ (e ∷ []) }
with_link matches_vulnerability e l = record l { matched = l.matched ++ (e ∷ []) }

-- One round of the loop.
unfoldable pub link_edge : NodeIndex → Links → KnowledgeGraphEdge → Links
link_edge nodes l e =
    if is_valid_edge nodes e
    then with_link e.kind e l
    else record l { skipped = suc l.skipped; errors = l.errors ++ (skip_error e ∷ []) }

unfoldable pub link_edges : NodeIndex → Links → List KnowledgeGraphEdge → Links
link_edges nodes l [] = l
link_edges nodes l (e ∷ es) = link_edges nodes (link_edge nodes l e) es

-- `sorted(set(graph.edges), key=self._edge_sort_key)`
unfoldable pub ordered_edges : List KnowledgeGraphEdge → List KnowledgeGraphEdge
ordered_edges edges = sort_on edge_sort_key (dedup edges)

unfoldable pub links_of : KnowledgeGraph → Links
links_of g =
    link_edges (node_index g.nodes)
      (record { observed = []; matched = []; skipped = 0; errors = [] }) (ordered_edges g.edges)

abbrev pub targeting : Text → List KnowledgeGraphEdge → List KnowledgeGraphEdge
targeting t edges = keep (λ (e : KnowledgeGraphEdge). e.target_id == t) edges

abbrev pub leaving : Text → List KnowledgeGraphEdge → List KnowledgeGraphEdge
leaving t edges = keep (λ (e : KnowledgeGraphEdge). e.source_id == t) edges
