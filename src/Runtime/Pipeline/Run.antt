-- ===== src/Runtime/Pipeline/Run.antt =====
-- `Pipeline.run`: one round of the loop in the parts that the code has, and the loop. The policy's
-- checks of the deadline are counted, so that its clock can go on between them.
use red_forge.Base.{
  ℕ, ◌+◌, Bool, true, false, not, Option, none, some, List, [], ◌∷◌, ◌++◌, map, if◌then◌else◌, keep,
  Text, text_order, lookup, put,
}
use red_forge.Sdk.StateKey.{PipelineStateKey}
use red_forge.Sdk.Exception.{
  Exception, state_limit_exceeded, execution_deadline_exceeded, Attempt, returns, raises, ◌>>=◌,
  ◌>>◌, require, process_control,
}
use red_forge.Sdk.CapabilityId.{capability_id, id_order}
use red_forge.Sdk.Value.{Value}
use red_forge.Sdk.Result.{Status, success, Result}
use red_forge.Sdk.Context.{Context, context, validate_all, publish_many}
use red_forge.Runtime.Policy.{
  Violation, limit, deadline, before_capability, after_capability, ExecutionPolicy,
}
use red_forge.Runtime.Pipeline.{
  combine_status, Candidate, raised, unusable, produced, Outcome, interrupted, finished, is_usable,
  Normalized, no_publications, normalize_capability_result, invalid_result, failed_result,
  PipelineEntry, Contracts, Pipeline,
}
use red_forge.Runtime.Pipeline.Emit.{
  CapabilityExecution, Sink, Run, policy_failure, diagnostic_id, emit_capability_started,
  emit_capability_terminal, emit_optional_violation,
}

-- `declared_outputs`
unfoldable pub declared_outputs : Contracts → PipelineEntry → Option (List PipelineStateKey)
declared_outputs contracts entry = elim entry.capability_id [
  | some i ↦ lookup i contracts
  | none ↦ elim (capability_id entry.capability.name) [
    | returns i ↦ lookup i contracts
    | raises _ ↦ none
  ]
]

-- The result to report and what it publishes, by the outcome of its normalization.
unfoldable pub normalized : Text → Result → Attempt Normalized → Result × Normalized
normalized name r (returns n) = (r, n)
normalized name r (raises _) = (invalid_result name, no_publications)

-- What the first `try` of a round makes of a candidate.
unfoldable pub judge : Text → Option (List PipelineStateKey) → Candidate → Result × Normalized
judge name declared raised = (failed_result name, no_publications)
judge name declared unusable = (invalid_result name, no_publications)
judge name declared (produced r) = normalized name r (normalize_capability_result name r declared)

-- The body of the second `try`, with the number of deadline checks that it makes.
unfoldable pub approve_publications :
    Option ExecutionPolicy → ℕ → Normalized → Attempt (Unit {0}) × ℕ
approve_publications policy checks n = elim (validate_all n.explicit) [
  | raises e ↦ (raises e, checks)
  | returns _ ↦ elim policy [
    | none ↦ (returns tt, checks)
    | some p ↦ (p.check_deadline checks >> p.validate_publications n.explicit, checks + 1)
  ]
]

-- The handlers of the second `try`, for an exception that one of them catches.
unfoldable pub handle_refusal : Text → Exception → Result × Option Violation
handle_refusal name execution_deadline_exceeded =
    (policy_failure (deadline after_capability), some (deadline after_capability))
handle_refusal name (state_limit_exceeded v) = (policy_failure (limit v), some (limit v))
handle_refusal name _ = (invalid_result name, none)

-- The result, the violation and the checks made so far, by the outcome of the second `try`.
unfoldable pub ruled : Text → Result → ℕ → Attempt (Unit {0}) → Result × Option Violation × ℕ
ruled name r checks (returns _) = (r, none, checks)
ruled name r checks (raises e) = let (r', v) = handle_refusal name e in (r', v, checks)

-- The second `try` with its handlers.
unfoldable pub police :
    Option ExecutionPolicy → ℕ → Text → Result → Normalized → Result × Option Violation × ℕ
police policy checks name r n =
    let (verdict, checks') = approve_publications policy checks n in
    if is_usable r.status then ruled name r checks' verdict else (r, none, checks)

abbrev pub execution_of : PipelineEntry → Result → Bool → Option Violation → CapabilityExecution
execution_of entry r executed violation = record {
  capability_name = entry.capability.name;
  result = r;
  capability_id = entry.capability_id;
  executed = executed;
  policy_violation = violation;
}

-- `executions.append(...)`, `last_result = ...` and the aggregate status
unfoldable pub record_execution : CapabilityExecution → Run → Run
record_execution e run = record run {
  executions = run.executions ++ e ∷ [];
  last_result = some e.result;
  aggregate_status = combine_status run.aggregate_status e.result.status;
}

-- `state[legacy_key] = legacy_value`
abbrev pub write_legacy : Option (Text × Value) → Context → Context
write_legacy none c = c
write_legacy (some (key, value)) c = record c { state = put key value c.state }

-- The emissions at the end of a round; the flag says whether the loop goes on.
unfoldable pub finish_round : PipelineEntry → Result → Option Violation → Run → Attempt (Run × Bool)
finish_round entry r violation run = do
  run' ← emit_optional_violation violation (diagnostic_id entry) run
  run'' ← emit_capability_terminal (diagnostic_id entry) r run'
  returns (run'', is_usable r.status)

-- What becomes of a recorded usable result, by the outcome of `publish_many`. `run` is the state
-- before the execution was recorded, for the entry that a failure to publish replaces.
unfoldable pub after_publish :
    PipelineEntry
    → Result
    → Option Violation
    → Normalized
    → (run recorded : Run) → Attempt Context
    → Attempt (Run × Bool)
after_publish entry r violation n run recorded (returns c) =
    finish_round entry r violation (record recorded { context = write_legacy n.legacy_value c })
after_publish entry r violation n run recorded (raises _) =
    let replaced = invalid_result entry.capability.name in
    returns (
      record recorded {
        executions = run.executions ++ execution_of entry replaced true none ∷ [];
        last_result = some replaced;
        aggregate_status = combine_status recorded.aggregate_status replaced.status;
      },
      false,
    )

-- What a round does with a result: it is recorded, published, and reported.
unfoldable pub settle :
    PipelineEntry → Result → Option Violation → Normalized → Run → Attempt (Run × Bool)
settle entry r violation n run =
    let recorded = record_execution (execution_of entry r true violation) run in
    if is_usable r.status
    then after_publish entry r violation n run recorded (publish_many n.explicit recorded.context)
    else finish_round entry r violation recorded

abbrev pub is_control : Attempt (Unit {0}) → Bool
is_control (raises process_control) = true
is_control _ = false

-- The second `try` ends with an exception that its handlers do not catch.
unfoldable pub escapes : Option ExecutionPolicy → ℕ → Result → Normalized → Bool
escapes policy checks r n =
    let verdict = is_control (approve_publications policy checks n).0 in
    if is_usable r.status then verdict else false

-- The round from the end of the capability on.
unfoldable pub after_execute :
    Contracts → Option ExecutionPolicy → PipelineEntry → Run → Outcome → Attempt (Run × Bool)
after_execute contracts policy entry run interrupted = raises process_control
after_execute contracts policy entry run (finished candidate) =
    let (judged, n) = judge entry.capability.name (declared_outputs contracts entry) candidate in
    let (r, violation, checks) = police policy run.deadline_checks entry.capability.name judged n in
    require (not (escapes policy run.deadline_checks judged n)) process_control
    >> settle entry r violation n (record run { deadline_checks = checks })

-- The round for an entry whose deadline check passed.
unfoldable pub invoke :
    Contracts → Option ExecutionPolicy → PipelineEntry → Run → Attempt (Run × Bool)
invoke contracts policy entry run =
    let (outcome, state) = entry.capability.execute run.context in
    after_execute contracts policy entry
      (record run { context = record run.context { state = state } }) outcome

-- The round for an entry that the deadline leaves out.
unfoldable pub skip : PipelineEntry → Run → Attempt (Run × Bool)
skip entry run =
    let violation = deadline before_capability in
    let r = policy_failure violation in
    finish_round entry r (some violation)
      (record_execution (execution_of entry r false (some violation)) run)

-- The round by the outcome of its first check. An error that is no expiry leaves `run`.
unfoldable pub after_check :
    Contracts → ExecutionPolicy → PipelineEntry → Run → Attempt (Unit {0}) → Attempt (Run × Bool)
after_check contracts p entry run (returns _) = invoke contracts (some p) entry run
after_check contracts p entry run (raises execution_deadline_exceeded) = skip entry run
after_check contracts p entry run (raises e) = raises e

unfoldable pub first_check :
    Contracts → Option ExecutionPolicy → PipelineEntry → Run → Attempt (Run × Bool)
first_check contracts none entry run = invoke contracts none entry run
first_check contracts (some p) entry run =
    after_check contracts p entry (record run { deadline_checks = run.deadline_checks + 1 })
      (p.check_deadline run.deadline_checks)

-- One round of the loop.
unfoldable pub round :
    Contracts → Option ExecutionPolicy → PipelineEntry → Run → Attempt (Run × Bool)
round contracts policy entry run = do
  started ← emit_capability_started (diagnostic_id entry) run
  first_check contracts policy entry started

unfoldable pub run_entries :
    Contracts → Option ExecutionPolicy → List PipelineEntry → Run → Attempt Run
run_entries contracts policy [] run = returns run
run_entries contracts policy (entry ∷ entries) run = do
  (run', goes_on) ← round contracts policy entry run
  let rest = run_entries contracts policy entries run'
  if goes_on then rest else returns run'

pub record PipelineResult : Type 0 where
  pub status : Status
  pub executed_capabilities : List Text
  pub context : Context
  pub last_result : Option Result
  pub execution_order : List Text
  pub executions : List CapabilityExecution

abbrev pub initial_run : Sink → Context → Run
initial_run sink c = record {
  context = c;
  executions = [];
  aggregate_status = success;
  last_result = none;
  deadline_checks = 0;
  events = [];
  sink = sink;
}

abbrev pub entry_names : List PipelineEntry → List Text
entry_names entries = map (λ (e : PipelineEntry). e.capability.name) entries

-- `Pipeline.run(context, policy, diagnostic_sink)`
unfoldable pub run : Pipeline → Context → Option ExecutionPolicy → Sink → Attempt PipelineResult
run p c policy sink = do
  final ← run_entries p.output_contracts policy p.entries (initial_run sink c)
  returns (record {
    status = final.aggregate_status;
    executed_capabilities =
        map (λ (e : CapabilityExecution). e.capability_name)
          (keep (λ (e : CapabilityExecution). e.executed) final.executions);
    context = final.context;
    last_result = final.last_result;
    execution_order = entry_names p.entries;
    executions = final.executions;
  })

-- `Pipeline.run` of a target's identifier
unfoldable pub run_target : Pipeline → Text → Option ExecutionPolicy → Sink → Attempt PipelineResult
run_target p target policy sink = do c ← context target []; run p c policy sink
