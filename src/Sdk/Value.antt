-- ===== src/Sdk/Value.antt =====
-- The values of the pipeline state, as `validate_pipeline_state_value` of redforge/sdk/state.py and
-- the limits of redforge/runtime/execution_policy.py see them: by class, by the classes of a
-- tuple's items, and by size. What else an object holds is an opaque number.
use red_forge.Base.{
  ℕ, Bool, true, false, List, ◌++◌, ◌==◌, nat_order, all, if◌then◌else◌, Text, text,
}
use red_forge.Sdk.StateKey.{PipelineStateKey}
use red_forge.Sdk.StateKey
use red_forge.Sdk.Exception.{Exception, type_error, Attempt, returns, raises}

pub data ClassName : Type 0 where
  host http_probe_endpoint endpoint technology : ClassName
  asset_intelligence vulnerability_intelligence finding_record_collection : ClassName
  canonical_finding_collection enriched_canonical_finding_collection : ClassName
  knowledge_graph risk_intelligence : ClassName
  other : ClassName

abbrev tag : ClassName → ℕ
tag host = 0
tag http_probe_endpoint = 1
tag endpoint = 2
tag technology = 3
tag asset_intelligence = 4
tag vulnerability_intelligence = 5
tag finding_record_collection = 6
tag canonical_finding_collection = 7
tag enriched_canonical_finding_collection = 8
tag knowledge_graph = 9
tag risk_intelligence = 10
tag other = 11

pub record Instance : Type 0 where
  pub class : ClassName
  pub payload : ℕ

pub data Value : Type 0 where
  nothing : Value
  subdomain_discovery_result : (hostnames : List Text) → Value
  host_resolution : (hosts : List Instance) → Value
  tuple : List Instance → Value
  object : Instance → Value

-- `isinstance(i, c)`: none of these classes has a subclass
unfoldable pub is_class : ClassName → Instance → Bool
is_class c i = tag i.class == tag c

abbrev pub is_nothing : Value → Bool
is_nothing nothing = true
is_nothing _ = false

abbrev invalid_type : PipelineStateKey → Exception
invalid_type key =
    type_error (text "state value for '" ++ StateKey.value key ++ text "' has an invalid type")

-- `_validate_instance`
unfoldable pub validate_instance : Value → ClassName → PipelineStateKey → Attempt (Unit {0})
unfolding is_class
validate_instance (object i) c key = if is_class c i then returns tt else raises (invalid_type key)
validate_instance _ c key = raises (invalid_type key)

-- `_validate_typed_tuple`
unfoldable pub validate_typed_tuple : Value → ClassName → PipelineStateKey → Attempt (Unit {0})
unfolding is_class all
validate_typed_tuple (tuple items) c key =
    if all (is_class c) items then returns tt else raises (invalid_type key)
validate_typed_tuple _ c key = raises (invalid_type key)

abbrev validate_subdomains : Value → PipelineStateKey → Attempt (Unit {0})
validate_subdomains (subdomain_discovery_result _) key = returns tt
validate_subdomains _ key = raises (invalid_type key)

abbrev validate_hosts : Value → PipelineStateKey → Attempt (Unit {0})
validate_hosts (host_resolution _) key = returns tt
validate_hosts _ key = raises (invalid_type key)

unfoldable pub validate_pipeline_state_value : PipelineStateKey → Value → Attempt (Unit {0})
unfolding validate_instance validate_typed_tuple
validate_pipeline_state_value StateKey.subdomains v = validate_subdomains v StateKey.subdomains
validate_pipeline_state_value StateKey.hosts v = validate_hosts v StateKey.hosts
validate_pipeline_state_value StateKey.alive_hosts v =
    validate_typed_tuple v host StateKey.alive_hosts
validate_pipeline_state_value StateKey.http_endpoints v =
    validate_typed_tuple v http_probe_endpoint StateKey.http_endpoints
validate_pipeline_state_value StateKey.endpoints v =
    validate_typed_tuple v endpoint StateKey.endpoints
validate_pipeline_state_value StateKey.technologies v =
    validate_typed_tuple v technology StateKey.technologies
validate_pipeline_state_value StateKey.asset_intelligence v =
    validate_instance v asset_intelligence StateKey.asset_intelligence
validate_pipeline_state_value StateKey.vulnerability_intelligence v =
    validate_instance v vulnerability_intelligence StateKey.vulnerability_intelligence
validate_pipeline_state_value StateKey.vulnerabilities v =
    validate_instance v finding_record_collection StateKey.vulnerabilities
validate_pipeline_state_value StateKey.canonical_findings v =
    validate_instance v canonical_finding_collection StateKey.canonical_findings
validate_pipeline_state_value StateKey.enriched_vulnerabilities v =
    validate_instance v enriched_canonical_finding_collection StateKey.enriched_vulnerabilities
validate_pipeline_state_value StateKey.knowledge_graph v =
    validate_instance v knowledge_graph StateKey.knowledge_graph
validate_pipeline_state_value StateKey.risk_intelligence v =
    validate_instance v risk_intelligence StateKey.risk_intelligence
