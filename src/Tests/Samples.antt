-- ===== src/Tests/Samples.antt =====
-- Data for the tests: keys, values and capabilities.
use red_forge.Base.{some, List, [], ◌∷◌, Text, text}
use red_forge.Sdk.StateKey
use red_forge.Sdk.StateKey.{PipelineStateKey}
use red_forge.Sdk.Exception.{Attempt, returns, raises}
use red_forge.Sdk.CapabilityId.{CapabilityId}
use red_forge.Sdk.Value.{Value, subdomain_discovery_result, host_resolution, nothing, host}
use red_forge.Sdk.Result.{success, StatePublication, Result}
use red_forge.Sdk.Context.{Context}
use red_forge.Runtime.Policy.{StateLimitPolicy, Clock, at}
use red_forge.Base.{
  lookup, put, update, all, any, keep, contains, distinct, dedup, insert_on, sort, sort_on,
  sorted_set, decimal, text_le, first,
}
use red_forge.Sdk.StateKey.{key_le, from_text}
use red_forge.Sdk.Exception.{succeeds}
use red_forge.Sdk.CapabilityId.{id_le, capability_id, has_double, is_valid, last_or, lstrip, strip}
use red_forge.Sdk.Value.{
  is_class, validate_instance, validate_pipeline_state_value, validate_typed_tuple,
}
use red_forge.Sdk.Context.{publish_many, validate_all}
use red_forge.Sdk.Context.Publish.{all_valid, published}
use red_forge.Runtime.Policy.{
  policy, deadline_check, check_limits, check_limit, limit_for, bounded_state_size,
}
use red_forge.Runtime.Diagnostics.{
  diagnostic_event, diagnostic_fields, event_message, normalize_partial_reasons, validate_text,
}
use red_forge.Runtime.Pipeline.{combine_status, normalize_capability_result}
use red_forge.Runtime.Pipeline.Emit.{
  emit_capability_started, diagnostic_id, approved_partial_reasons, emit, emit_capability_terminal,
  emit_policy_violation, policy_failure, safe_capability_id,
}
use red_forge.Runtime.Pipeline.Run.{PipelineResult}
use red_forge.Sdk.Result.{success}
use red_forge.Base.{none}
use red_forge.Runtime.Pipeline.Run.{
  run, run_entries, round, first_check, invoke, after_execute, escapes, settle, police, judge,
  normalized, declared_outputs, ruled, after_check, after_publish, approve_publications,
  finish_round, handle_refusal, record_execution, skip,
}
use red_forge.Runtime.Pipeline.Approval.{contribution}
use red_forge.Runtime.Pipeline.Effect.{applied}
use red_forge.Runtime.Pipeline.State.{replay}
use red_forge.Base.{has, list_eq, subset}
use red_forge.Sdk.Exception.{traverse}
use red_forge.Sdk.Definition.{
  define, normalize_capability_id, state_keys, normalize_tags, title, state_key_or, normalize_tag,
  tag_is_valid,
}
use red_forge.Planning.Registry.{
  register, register_all, registry, definitions_at, ids, all_definitions, producers_for,
}
use red_forge.Sdk.Context.{available_state_keys}
use red_forge.Planning.Registry.{require_definition}
use red_forge.Planning.Factory.{has_factory, create, check_made}
use red_forge.Planning.Builder.{
  validate, check_steps, check_step, add_all, build, plan_for, execute, run_goals,
}
use red_forge.Runtime.Pipeline.{pipeline, validate_output_contracts, add, clashes}
use red_forge.Planning.Model.{
  execution_plan, validate_keys, accumulate, execution_step, validate_state_tuple,
  validate_state_key,
}
use red_forge.Planning.Planner.{
  normalize_state_input, single, producer_for, path_from, without_last, visit_each, visit,
  single_selected_producer, edges_of, add_edge, discard_edge, connect, connect_all, release, drain,
  unresolved, initially_ready, order_by, topological_order, number_steps, plan,
}
use red_forge.Runtime.Pipeline.{
  Capability, Candidate, finished, produced, raised, PipelineEntry, Pipeline, Contracts,
}

abbrev pub returned {ℓ} : {A : Type ℓ} → A → Attempt A → A
returned d (returns a) = a
returned d (raises e) = d

abbrev pub subdomain_value : Value
subdomain_value = subdomain_discovery_result (text "a.b" ∷ text "c.b" ∷ [])

abbrev pub host_value : Value
host_value = host_resolution (record { class = host; payload = 1 } ∷ [])

abbrev pub subdomain_publication : StatePublication
subdomain_publication = record { key = StateKey.subdomains; value = subdomain_value }

abbrev pub host_publication : StatePublication
host_publication = record { key = StateKey.hosts; value = host_value }

abbrev pub target_context : Context
target_context = record { target_id = text "b"; config = []; state = []; metadata = [] }

abbrev pub ok_result : Value → List StatePublication → Result
ok_result v ps = record {
  status = success;
  payload = v;
  errors = [];
  metadata = [];
  publications = ps;
}

-- A capability that returns a result and leaves the state.
abbrev pub constantly : Text → Candidate → Capability
constantly name candidate = record { name = name; execute = λ c. (finished candidate, c.state) }

abbrev pub id_of : Text → CapabilityId
id_of s = record { value = s }

abbrev pub entry_of : Text → Candidate → PipelineEntry
entry_of name candidate = record {
  capability = constantly name candidate;
  capability_id = some (id_of name);
}

-- It finds subdomains, resolves them, and fails at the third step; the fourth is not reached.
abbrev pub four_entries : List PipelineEntry
four_entries =
    entry_of (text "find") (produced (ok_result nothing (subdomain_publication ∷ [])))
    ∷ entry_of (text "resolve") (produced (ok_result host_value []))
    ∷ entry_of (text "probe") raised
    ∷ entry_of (text "crawl") raised
    ∷ []

abbrev pub contracts : Contracts
contracts =
    (id_of (text "find"), StateKey.subdomains ∷ [])
    ∷ (id_of (text "resolve"), StateKey.hosts ∷ [])
    ∷ (id_of (text "probe"), StateKey.http_endpoints ∷ [])
    ∷ (id_of (text "crawl"), StateKey.endpoints ∷ [])
    ∷ []

abbrev pub four_steps : Pipeline
four_steps = record { entries = four_entries; output_contracts = contracts }

-- At most one host, and two subdomains.
abbrev pub limits : StateLimitPolicy
limits = record {
  limits =
      record { state_key = StateKey.hosts; maximum = 1 }
      ∷ record { state_key = StateKey.subdomains; maximum = 2 }
      ∷ [];
  expires_at = some 100;
}

-- One unit of time passes between two readings.
abbrev pub ticking : Clock
ticking n = at n

abbrev pub no_result : PipelineResult
no_result = record {
  status = success;
  executed_capabilities = [];
  context = target_context;
  last_result = none;
  execution_order = [];
  executions = [];
}

-- What a run computes through.
unfoldable pub runtime : Unit {0}
unfolding run run_entries round emit_capability_started diagnostic_event diagnostic_id first_check
    invoke after_execute escapes settle police judge normalized normalize_capability_result
    declared_outputs lookup id_le key_le ruled put update all any keep contains distinct dedup
    insert_on sort sort_on sorted_set decimal text_le diagnostic_fields event_message
    normalize_partial_reasons validate_text approved_partial_reasons emit emit_capability_terminal
    emit_policy_violation policy_failure safe_capability_id after_check after_publish
    approve_publications finish_round handle_refusal record_execution skip combine_status
    capability_id has_double is_valid last_or lstrip strip publish_many validate_all is_class
    validate_instance validate_pipeline_state_value validate_typed_tuple policy deadline_check
    check_limits check_limit limit_for bounded_state_size first replay applied contribution
    all_valid from_text succeeds published
runtime = tt

-- What the constructor of a definition, a registry and a plan compute through.
unfoldable pub definitions : Unit {0}
unfolding runtime define normalize_capability_id state_keys normalize_tags title state_key_or
    traverse normalize_tag tag_is_valid register register_all registry definitions_at ids
    all_definitions producers_for has execution_plan validate_keys accumulate list_eq subset
    validate_state_key normalize_state_input single producer_for path_from without_last visit_each
    visit single_selected_producer edges_of add_edge discard_edge connect connect_all release drain
    unresolved initially_ready order_by topological_order number_steps plan execution_step
    validate_state_tuple
definitions = tt

-- What building a pipeline and a whole run compute through.
unfoldable pub building : Unit {0}
unfolding definitions validate check_steps check_step require_definition has_factory create
    check_made pipeline validate_output_contracts add clashes add_all build available_state_keys
    plan_for execute run_goals
building = tt
