-- ===== src/Lib.antt =====
-- RedForge plans and runs security capabilities. Capability definitions state which keys of the
-- shared state a capability requires and provides; the planner selects the definitions that reach a
-- set of goals and orders them; the builder makes a pipeline of the plan; the pipeline runs the
-- capabilities one after the other over a context, publishes what they return, and reports. What
-- the capabilities find are immutable values of the domain, checked and made canonical when they
-- are constructed: names and URLs, the scope of a scan, findings, findings correlated across tools,
-- and the risk of the explicit paths of a knowledge graph.
--
-- The files and the code:
-- - Base: names of the libraries, lists, orders, sorting, dictionaries in insertion order, texts as
--   lists of code points.
-- - Sdk/StateKey, Sdk/Value: src/redforge/sdk/state.py, `PipelineStateKey` and
--   `validate_pipeline_state_value`.
-- - Sdk/CapabilityId: src/redforge/sdk/capability_id.py. Sdk/CapabilityId/Grammar describes the
--   identities without the code.
-- - Sdk/Definition, Sdk/Definition/Default: src/redforge/sdk/capability_definition.py (`define` is
--   `CapabilityDefinition.__init__`) and src/redforge/sdk/default_capabilities.py.
-- - Sdk/Result, Sdk/Context: src/redforge/sdk/result.py and src/redforge/sdk/context.py.
-- - Sdk/Exception: src/redforge/planning/errors.py and src/redforge/runtime/exceptions.py as values
--   of a type `Exception`, and `Attempt` for code that returns or raises.
-- - Planning/Registry, Planning/Model, Planning/Planner: src/redforge/planning/registry.py,
--   models.py and planner.py.
-- - Planning/Factory, Planning/Builder: src/redforge/planning/factories.py (the registry of
--   factories), builder.py and execution.py.
-- - Runtime/Policy: src/redforge/runtime/execution_policy.py and
--   src/redforge/application/scan_limits.py.
-- - Runtime/Registry: src/redforge/runtime/registry.py and discovery.py.
-- - Runtime/Diagnostics: src/redforge/observability/models.py, the events of the runtime.
-- - Runtime/Pipeline: src/redforge/runtime/pipeline.py, in Runtime/Pipeline itself the construction
--   and the normalization of results, in Emit the events and the sink
--   (src/redforge/observability/sinks.py), in Run the loop of `Pipeline.run` with
--   the variables of the loop as the record `Run`.
-- - Domain/Strings: methods of Python's `str`, and what its standard library brings (`Platform`).
-- - Domain/Hostname, Domain/HttpUrl, Domain/Scope: src/redforge/domain/hostname.py, http_probe.py
--   (`normalize_http_url`), scan_scope.py and endpoint.py.
-- - Domain/Finding: src/redforge/domain/finding_intelligence.py, in Subjects and Observations the
--   enumerations, in Slug `_text` and `_slug`, in Subject, Reference, Metadata and Record the
--   dataclasses with their constructors, in Collection `FindingRecordCollection`.
-- - Domain/Correlation: src/redforge/domain/finding_correlation.py, in Key and Decision the values
--   compared and decided, in Compare `FindingCorrelator.compare`, in Group the loop of `group`, in
--   Anchor and Aggregate `_anchor_for` and `_aggregate`, in Collection the collection and `correlate`.
-- - Domain/Graph: src/redforge/domain/knowledge_graph.py and its entities, asset.py, technology.py,
--   vulnerability.py, vulnerability_association.py and product_identifier.py.
-- - Domain/Risk: src/redforge/domain/risk_intelligence.py, and in Factors, Assess, Edges and Paths
--   src/redforge/capabilities/risk_intelligence.py, its loop over the edges in Edges, the loops over
--   the paths and `execute` in Paths.
-- - Tests: runs at concrete data.
--
-- What stands for what: an object is its fields; a dictionary is a list of pairs in insertion
-- order; a set is a list, read only by membership or sorted; a heap is the sorted list of its
-- members; a capability is a function of the context that also gives the state it leaves, so that
-- it may write to the state that it is handed; a policy is a function of the number of the check;
-- a clock is the sequence of its readings; a sink is the test whether it raises process control
-- for the events so far; the case and normalization tables of Unicode, IDNA, the reading of IP
-- addresses and the SHA-256 of a JSON text are fields of `Platform`, a parameter. Arguments of a
-- wrong Python type are left out where the type of the model excludes them. Integers of the source
-- are natural numbers where the code refuses negative ones; a CVSS score is a number of tenths.
-- `process_control` stands for the exceptions that `except Exception` does not catch
-- (`KeyboardInterrupt`, `SystemExit`), where a capability, the sink or a policy raises one; the
-- interpreter may also deliver an interrupt between any two steps, which is left out.
--
-- Fuel: `visit` recurses on fuel, for which the length of the registry and one more is given; the
-- loop over the ready capabilities has as much fuel as capabilities are selected. The value
-- `out_of_fuel` stands for its end. Planning/Planner/Fuel bounds the path of the walk by the
-- registry, Planning/Planner/Drains the capabilities that become ready by the selected ones.
--
-- Not modelled: adapters, the built-in capabilities other than risk intelligence and the command
-- line, which call external tools; configuration, readiness and the application services; the models
-- of enrichment and hosts, and the building of the knowledge graph; the JSON text of a finding; the
-- printed forms (`__repr__`); readiness requirements and the default factories; floats; strings
-- beyond code points.
pub mod Base
pub mod Domain
pub mod Sdk
pub mod Planning
pub mod Runtime
pub mod Tests
