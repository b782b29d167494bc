-- ===== src/Domain/Graph.antt =====
-- The knowledge graph and its entities: redforge/domain/knowledge_graph.py, asset.py, technology.py,
-- vulnerability.py, vulnerability_association.py and product_identifier.py. A CVSS score is a number
-- of tenths; the hosts of an asset and the dates of a vulnerability are left out.
use red_forge.Base.{
  ◌≡◌, refl, ℕ, List, [], ◌∷◌, Option, Order, Text, text, text_le, order_along, member_named,
  text_order, pair_order, texts_order, option_order,
}
use red_forge.Domain.Scope.{Endpoint}

-- KnowledgeNodeKind
pub data KnowledgeNodeKind : Type 0 where
  asset technology vulnerability : KnowledgeNodeKind

abbrev pub node_kind_value : KnowledgeNodeKind → Text
node_kind_value asset = text "asset"
node_kind_value technology = text "technology"
node_kind_value vulnerability = text "vulnerability"

abbrev pub node_kind_members : List KnowledgeNodeKind
node_kind_members = asset ∷ technology ∷ vulnerability ∷ []

unfoldable pub node_kind_named : Text → KnowledgeNodeKind
unfolding text_le member_named
node_kind_named s = member_named asset node_kind_value node_kind_members s

pub node_kind_named-value : (k : KnowledgeNodeKind) → node_kind_named (node_kind_value k) ≡ k
unfolding node_kind_named
node_kind_named-value asset = refl
node_kind_named-value technology = refl
node_kind_named-value vulnerability = refl

instance abbrev pub node_kind_order : Order KnowledgeNodeKind
node_kind_order = order_along node_kind_value node_kind_named node_kind_named-value

-- KnowledgeRelationKind
pub data KnowledgeRelationKind : Type 0 where
  observed_technology matches_vulnerability : KnowledgeRelationKind

abbrev pub relation_kind_value : KnowledgeRelationKind → Text
relation_kind_value observed_technology = text "observed_technology"
relation_kind_value matches_vulnerability = text "matches_vulnerability"

abbrev pub relation_kind_members : List KnowledgeRelationKind
relation_kind_members = observed_technology ∷ matches_vulnerability ∷ []

unfoldable pub relation_kind_named : Text → KnowledgeRelationKind
unfolding text_le member_named
relation_kind_named s = member_named observed_technology relation_kind_value relation_kind_members s

pub relation_kind_named-value :
    (k : KnowledgeRelationKind) → relation_kind_named (relation_kind_value k) ≡ k
unfolding relation_kind_named
relation_kind_named-value observed_technology = refl
relation_kind_named-value matches_vulnerability = refl

instance abbrev pub relation_kind_order : Order KnowledgeRelationKind
relation_kind_order = order_along relation_kind_value relation_kind_named relation_kind_named-value

-- VulnerabilitySeverity
pub data VulnerabilitySeverity : Type 0 where
  unknown low medium high critical : VulnerabilitySeverity

abbrev pub severity_value : VulnerabilitySeverity → Text
severity_value unknown = text "unknown"
severity_value low = text "low"
severity_value VulnerabilitySeverity.medium = text "medium"
severity_value VulnerabilitySeverity.high = text "high"
severity_value critical = text "critical"

abbrev pub severity_members : List VulnerabilitySeverity
severity_members =
    unknown ∷ low ∷ VulnerabilitySeverity.medium ∷ VulnerabilitySeverity.high ∷ critical ∷ []

unfoldable pub severity_named : Text → VulnerabilitySeverity
unfolding text_le member_named
severity_named s = member_named unknown severity_value severity_members s

pub severity_named-value : (k : VulnerabilitySeverity) → severity_named (severity_value k) ≡ k
unfolding severity_named
severity_named-value unknown = refl
severity_named-value low = refl
severity_named-value VulnerabilitySeverity.medium = refl
severity_named-value VulnerabilitySeverity.high = refl
severity_named-value critical = refl

instance abbrev pub severity_order : Order VulnerabilitySeverity
severity_order = order_along severity_value severity_named severity_named-value

-- VulnerabilityMatchMethod
pub data VulnerabilityMatchMethod : Type 0 where
  cpe_exact : VulnerabilityMatchMethod

abbrev pub match_method_value : VulnerabilityMatchMethod → Text
match_method_value cpe_exact = text "cpe_exact"

abbrev pub match_method_members : List VulnerabilityMatchMethod
match_method_members = cpe_exact ∷ []

unfoldable pub match_method_named : Text → VulnerabilityMatchMethod
unfolding text_le member_named
match_method_named s = member_named cpe_exact match_method_value match_method_members s

pub match_method_named-value :
    (k : VulnerabilityMatchMethod) → match_method_named (match_method_value k) ≡ k
unfolding match_method_named
match_method_named-value cpe_exact = refl

instance abbrev pub match_method_order : Order VulnerabilityMatchMethod
match_method_order = order_along match_method_value match_method_named match_method_named-value

-- VulnerabilityMatchConfidence
pub data VulnerabilityMatchConfidence : Type 0 where
  high medium : VulnerabilityMatchConfidence

abbrev pub match_confidence_value : VulnerabilityMatchConfidence → Text
match_confidence_value VulnerabilityMatchConfidence.high = text "high"
match_confidence_value VulnerabilityMatchConfidence.medium = text "medium"

abbrev pub match_confidence_members : List VulnerabilityMatchConfidence
match_confidence_members =
    VulnerabilityMatchConfidence.high ∷ VulnerabilityMatchConfidence.medium ∷ []

unfoldable pub match_confidence_named : Text → VulnerabilityMatchConfidence
unfolding text_le member_named
match_confidence_named s =
    member_named VulnerabilityMatchConfidence.high match_confidence_value match_confidence_members s

pub match_confidence_named-value :
    (k : VulnerabilityMatchConfidence) → match_confidence_named (match_confidence_value k) ≡ k
unfolding match_confidence_named
match_confidence_named-value VulnerabilityMatchConfidence.high = refl
match_confidence_named-value VulnerabilityMatchConfidence.medium = refl

instance abbrev pub match_confidence_order : Order VulnerabilityMatchConfidence
match_confidence_order =
    order_along match_confidence_value match_confidence_named match_confidence_named-value

pub record Asset : Type 0 where
  pub identifier : Text
  pub type : Text
  pub name : Option Text
  pub description : Option Text
  pub aliases : List Text
  pub endpoints : List Endpoint

pub record Technology : Type 0 where
  pub name : Text
  pub category : Text
  pub version : Option Text
  pub vendor : Option Text
  pub description : Option Text
  pub source : Option Text
  pub evidence : List Text
  pub confidence : Option ℕ

pub record Vulnerability : Type 0 where
  pub identifier : Text
  pub source : Text
  pub aliases : List Text
  pub summary : Option Text
  pub description : Option Text
  pub severity : VulnerabilitySeverity
  pub cvss_score : Option ℕ
  pub cvss_vector : Option Text
  pub cvss_version : Option Text
  pub cwe_ids : List Text
  pub references : List Text
  pub status : Option Text

-- The entity of a node: an asset, a technology or a vulnerability.
pub data Entity : Type 0 where
  asset_entity : Asset → Entity
  technology_entity : Technology → Entity
  vulnerability_entity : Vulnerability → Entity

pub record KnowledgeGraphNode : Type 0 where
  pub identifier : Text
  pub kind : KnowledgeNodeKind
  pub entity : Entity

pub record ProductIdentifier : Type 0 where
  pub scheme : Text
  pub value : Text

pub record KnowledgeGraphEdge : Type 0 where
  pub source_id : Text
  pub target_id : Text
  pub kind : KnowledgeRelationKind
  pub product_identifier : Option ProductIdentifier
  pub match_method : Option VulnerabilityMatchMethod
  pub confidence : Option VulnerabilityMatchConfidence
  pub evidence : List Text

pub record KnowledgeGraph : Type 0 where
  pub nodes : List KnowledgeGraphNode
  pub edges : List KnowledgeGraphEdge

instance abbrev pub product_order : Order ProductIdentifier
product_order =
    order_along (λ (i : ProductIdentifier). (i.scheme, i.value))
      (λ (scheme, value). record { scheme = scheme; value = value }) (λ _. refl)

-- Only the equality is the program's: the dataclass compares its fields.
instance abbrev pub edge_order : Order KnowledgeGraphEdge
edge_order =
    order_along
      (λ (e : KnowledgeGraphEdge). (
        e.source_id,
        (
          e.target_id,
          (e.kind, (e.product_identifier, (e.match_method, (e.confidence, e.evidence)))),
        ),
      ))
      (λ (
        source_id,
        (target_id, (kind, (product_identifier, (match_method, (confidence, evidence))))),
      ).
        record {
          source_id = source_id;
          target_id = target_id;
          kind = kind;
          product_identifier = product_identifier;
          match_method = match_method;
          confidence = confidence;
          evidence = evidence;
        })
      (λ _. refl)
