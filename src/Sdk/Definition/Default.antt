-- ===== src/Sdk/Definition/Default.antt =====
-- redforge/sdk/default_capabilities.py.
use red_forge.Base.{none, some, List, [], ◌∷◌, Text, text}
use red_forge.Sdk.StateKey.{
  value, hosts, subdomains, alive_hosts, http_endpoints, endpoints, technologies,
  asset_intelligence, vulnerability_intelligence, vulnerabilities, canonical_findings,
  enriched_vulnerabilities, knowledge_graph, risk_intelligence,
}
use red_forge.Sdk.Exception.{Attempt, returns, ◌>>=◌}
use red_forge.Sdk.Definition.{CapabilityDefinition, legacy, define}

abbrev built_in :
    (identity : Text) (requires provides : List Text) (display_name description : Text)
    (tags : List Text)
    → Attempt CapabilityDefinition
built_in identity requires provides display_name description tags =
    define (some (legacy identity)) requires provides (some display_name) (some description)
      (text "1.0") tags none

unfoldable pub asset_intelligence_definition : Attempt CapabilityDefinition
unfolding define
asset_intelligence_definition =
    built_in (text "asset_intelligence")
      (value subdomains
        ∷ value hosts
        ∷ value alive_hosts
        ∷ value endpoints
        ∷ value technologies
        ∷ [])
      (value asset_intelligence ∷ []) (text "Asset Intelligence")
      (text "Builds normalized asset records from available observations.")
      (text "analysis" ∷ text "intelligence" ∷ [])

unfoldable pub finding_correlation_definition : Attempt CapabilityDefinition
unfolding define
finding_correlation_definition =
    built_in (text "finding_correlation") (value vulnerabilities ∷ [])
      (value canonical_findings ∷ []) (text "Finding Correlation")
      (text "Correlates normalized findings into canonical findings.")
      (text "analysis" ∷ text "correlation" ∷ text "vulnerability" ∷ [])

unfoldable pub host_resolution_definition : Attempt CapabilityDefinition
unfolding define
host_resolution_definition =
    built_in (text "host_resolution") (value subdomains ∷ []) (value hosts ∷ [])
      (text "Host Resolution") (text "Resolves discovered subdomains into normalized host records.")
      (text "network" ∷ text "recon" ∷ [])

unfoldable pub http_probe_definition : Attempt CapabilityDefinition
unfolding define
http_probe_definition =
    built_in (text "http_probe") (value hosts ∷ []) (value alive_hosts ∷ value http_endpoints ∷ [])
      (text "HTTP Probe") (text "Identifies hosts with responsive HTTP services.")
      (text "active" ∷ text "http" ∷ text "recon" ∷ [])

unfoldable pub knowledge_graph_definition : Attempt CapabilityDefinition
unfolding define
knowledge_graph_definition =
    built_in (text "knowledge_graph")
      (value asset_intelligence ∷ value vulnerability_intelligence ∷ [])
      (value knowledge_graph ∷ []) (text "Knowledge Graph")
      (text "Builds explicit relationships across security intelligence.")
      (text "analysis" ∷ text "graph" ∷ text "intelligence" ∷ [])

unfoldable pub risk_intelligence_definition : Attempt CapabilityDefinition
unfolding define
risk_intelligence_definition =
    built_in (text "risk_intelligence") (value knowledge_graph ∷ []) (value risk_intelligence ∷ [])
      (text "Risk Intelligence")
      (text "Prioritizes explicit knowledge graph findings for investigation.")
      (text "analysis" ∷ text "intelligence" ∷ text "risk" ∷ [])

unfoldable pub subdomain_discovery_definition : Attempt CapabilityDefinition
unfolding define
subdomain_discovery_definition =
    built_in (text "subdomain_discovery") [] (value subdomains ∷ []) (text "Subdomain Discovery")
      (text "Discovers subdomain identities associated with a target.")
      (text "passive" ∷ text "recon" ∷ [])

unfoldable pub technology_detection_definition : Attempt CapabilityDefinition
unfolding define
technology_detection_definition =
    built_in (text "technology_detection") (value endpoints ∷ []) (value technologies ∷ [])
      (text "Technology Detection")
      (text "Identifies technologies observed on discovered endpoints.")
      (text "analysis" ∷ text "http" ∷ text "recon" ∷ [])

unfoldable pub vulnerability_detection_definition : Attempt CapabilityDefinition
unfolding define
vulnerability_detection_definition =
    built_in (text "vulnerability_detection") (value http_endpoints ∷ [])
      (value vulnerabilities ∷ []) (text "Vulnerability Detection")
      (text "Detects normalized findings on responsive HTTP endpoints.")
      (text "active" ∷ text "detection" ∷ text "vulnerability" ∷ [])

unfoldable pub vulnerability_enrichment_definition : Attempt CapabilityDefinition
unfolding define
vulnerability_enrichment_definition =
    built_in (text "vulnerability_enrichment") (value canonical_findings ∷ [])
      (value enriched_vulnerabilities ∷ []) (text "Vulnerability Enrichment")
      (text "Enriches canonical findings through configured intelligence providers.")
      (text "analysis" ∷ text "enrichment" ∷ text "vulnerability" ∷ [])

unfoldable pub vulnerability_intelligence_definition : Attempt CapabilityDefinition
unfolding define
vulnerability_intelligence_definition =
    built_in (text "vulnerability_intelligence") (value asset_intelligence ∷ [])
      (value vulnerability_intelligence ∷ []) (text "Vulnerability Intelligence")
      (text "Correlates asset technologies with vulnerability records.")
      (text "analysis" ∷ text "intelligence" ∷ [])

unfoldable pub web_crawl_definition : Attempt CapabilityDefinition
unfolding define
web_crawl_definition =
    built_in (text "web_crawl") (value alive_hosts ∷ []) (value endpoints ∷ []) (text "Web Crawl")
      (text "Discovers application endpoints on responsive HTTP hosts.")
      (text "active" ∷ text "http" ∷ text "recon" ∷ [])

-- `DEFAULT_CAPABILITY_DEFINITIONS`
unfoldable pub default_capability_definitions : Attempt (List CapabilityDefinition)
unfolding asset_intelligence_definition finding_correlation_definition host_resolution_definition
    http_probe_definition knowledge_graph_definition risk_intelligence_definition
    subdomain_discovery_definition technology_detection_definition
    vulnerability_detection_definition vulnerability_enrichment_definition
    vulnerability_intelligence_definition web_crawl_definition
default_capability_definitions = do
  d0 ← asset_intelligence_definition
  d1 ← finding_correlation_definition
  d2 ← host_resolution_definition
  d3 ← http_probe_definition
  d4 ← knowledge_graph_definition
  d5 ← risk_intelligence_definition
  d6 ← subdomain_discovery_definition
  d7 ← technology_detection_definition
  d8 ← vulnerability_detection_definition
  d9 ← vulnerability_enrichment_definition
  d10 ← vulnerability_intelligence_definition
  d11 ← web_crawl_definition
  returns (d0 ∷ d1 ∷ d2 ∷ d3 ∷ d4 ∷ d5 ∷ d6 ∷ d7 ∷ d8 ∷ d9 ∷ d10 ∷ d11 ∷ [])
