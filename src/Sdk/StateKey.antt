-- ===== src/Sdk/StateKey.antt =====
-- redforge/sdk/state.py, the keys. A `StrEnum` compares as its text does.
use red_forge.Base.{
  ◌≡◌, refl, ap, Bool, true, false, Option, some, List, [], ◌∷◌, Order, ◌==◌, Text, text, text_le,
  text_le_total, text_le_trans, text_le_antisym, text_order, first,
}

pub data PipelineStateKey : Type 0 where
  hosts subdomains alive_hosts http_endpoints endpoints technologies : PipelineStateKey
  asset_intelligence vulnerability_intelligence vulnerabilities : PipelineStateKey
  canonical_findings enriched_vulnerabilities : PipelineStateKey
  knowledge_graph risk_intelligence : PipelineStateKey

-- `key.value`
abbrev pub value : PipelineStateKey → Text
value hosts = text "hosts"
value subdomains = text "subdomains"
value alive_hosts = text "alive_hosts"
value http_endpoints = text "http_endpoints"
value endpoints = text "endpoints"
value technologies = text "technologies"
value asset_intelligence = text "asset_intelligence"
value vulnerability_intelligence = text "vulnerability_intelligence"
value vulnerabilities = text "vulnerabilities"
value canonical_findings = text "canonical_findings"
value enriched_vulnerabilities = text "enriched_vulnerabilities"
value knowledge_graph = text "knowledge_graph"
value risk_intelligence = text "risk_intelligence"

-- `key.name`
abbrev pub name : PipelineStateKey → Text
name hosts = text "HOSTS"
name subdomains = text "SUBDOMAINS"
name alive_hosts = text "ALIVE_HOSTS"
name http_endpoints = text "HTTP_ENDPOINTS"
name endpoints = text "ENDPOINTS"
name technologies = text "TECHNOLOGIES"
name asset_intelligence = text "ASSET_INTELLIGENCE"
name vulnerability_intelligence = text "VULNERABILITY_INTELLIGENCE"
name vulnerabilities = text "VULNERABILITIES"
name canonical_findings = text "CANONICAL_FINDINGS"
name enriched_vulnerabilities = text "ENRICHED_VULNERABILITIES"
name knowledge_graph = text "KNOWLEDGE_GRAPH"
name risk_intelligence = text "RISK_INTELLIGENCE"

-- The members in the order of the class.
abbrev pub members : List PipelineStateKey
members =
    hosts ∷ subdomains ∷ alive_hosts ∷ http_endpoints ∷ endpoints ∷ technologies
    ∷ asset_intelligence ∷ vulnerability_intelligence ∷ vulnerabilities ∷ canonical_findings
    ∷ enriched_vulnerabilities ∷ knowledge_graph ∷ risk_intelligence ∷ []

-- `PipelineStateKey(s)`, where `none` is the ValueError.
unfoldable pub from_text : Text → Option PipelineStateKey
unfolding first text_le
from_text s = first (λ k. value k == s) members

-- Reading the text of a key gives the key.
pub from_text-value : (k : PipelineStateKey) → from_text (value k) ≡ some k
unfolding from_text
from_text-value hosts = refl
from_text-value _ = refl

pub value_injective : (j k : PipelineStateKey) → value j ≡ value k → j ≡ k
value_injective j k e = cc (from_text-value j, from_text-value k, ap from_text e)

unfoldable pub key_le : PipelineStateKey → PipelineStateKey → Bool
unfolding text_le
key_le j k = text_le (value j) (value k)

pub key_le_total : (j k : PipelineStateKey) → key_le j k ≡ false → key_le k j ≡ true
unfolding key_le
key_le_total j k h = text_le_total (value j) (value k) h

pub key_le_trans :
    (i j k : PipelineStateKey) → key_le i j ≡ true → key_le j k ≡ true → key_le i k ≡ true
unfolding key_le
key_le_trans i j k p q = text_le_trans (value i) (value j) (value k) p q

pub key_le_antisym : (j k : PipelineStateKey) → key_le j k ≡ true → key_le k j ≡ true → j ≡ k
unfolding key_le
key_le_antisym j k p q = value_injective j k (text_le_antisym (value j) (value k) p q)

instance abbrev pub key_order : Order PipelineStateKey
key_order = record {
  le = key_le;
  le_total = key_le_total;
  le_trans = key_le_trans;
  le_antisym = key_le_antisym;
}
