-- ===== src/Runtime/Pipeline/Emit.antt =====
-- The variables of the loop of `Pipeline.run`, and the events that it hands to the sink.
use red_forge.Base.{
  ℕ, Bool, false, not, ◌||◌, Option, none, some, List, [], ◌∷◌, ◌++◌, ltb, if◌then◌else◌, length,
  sorted_set, Text, text, text_order, decimal, ◌==◌, nat_order, lookup,
}
use red_forge.Sdk.StateKey
use red_forge.Sdk.StateKey.{PipelineStateKey}
use red_forge.Sdk.Exception.{
  StateLimitViolation, Attempt, returns, raises, ◌>>=◌, ◌>>◌, require, process_control,
}
use red_forge.Sdk.CapabilityId.{CapabilityId, capability_id, id_order}
use red_forge.Sdk.Value.{nothing}
use red_forge.Sdk.Result.{
  Status, success, failure, error, partial, status_name, PartialReason, Result, Metadatum, reasons,
  word, number,
}
use red_forge.Sdk.Context.{Context}
use red_forge.Runtime.Policy.{
  Violation, limit, deadline, DeadlinePhase, before_capability, after_capability,
}
use red_forge.Runtime.Diagnostics
use red_forge.Runtime.Diagnostics.{
  DiagnosticEvent, diagnostic_event, no_fields, EventType, Severity, reason_order,
}
use red_forge.Runtime.Pipeline.{PipelineEntry}

pub record CapabilityExecution : Type 0 where
  pub capability_name : Text
  pub result : Result
  pub capability_id : Option CapabilityId
  pub executed : Bool
  pub policy_violation : Option Violation

-- A sink of the caller. It consumes the events one after another, and a failure of class `Exception`
-- is suppressed; what is left of it is whether, for the events up to the one that it is handed, it
-- raises an exception that `except Exception` does not catch.
abbrev pub Sink : Type 0
Sink = List DiagnosticEvent → Bool

-- `NullDiagnosticEventSink`
abbrev pub null_sink : Sink
null_sink events = false

-- The variables of the loop, and the sink.
pub record Run : Type 0 where
  pub context : Context
  pub executions : List CapabilityExecution
  pub aggregate_status : Status
  pub last_result : Option Result
  pub deadline_checks : ℕ
  pub events : List DiagnosticEvent
  pub sink : Sink

abbrev phase_value : DeadlinePhase → Text
phase_value before_capability = text "before_capability"
phase_value after_capability = text "after_capability"

abbrev limit_message : StateLimitViolation → Text
limit_message v =
    text "State limit exceeded: "
    ++ (StateKey.name v.state_key
        ++ (text " observed=" ++ (decimal v.observed ++ (text " allowed=" ++ decimal v.allowed))))

-- `_policy_failure`
unfoldable pub policy_failure : Violation → Result
unfolding decimal
policy_failure (limit v) = record {
  status = failure;
  payload = nothing;
  errors = limit_message v ∷ [];
  metadata =
      (text "error_kind", word (text "state_limit_exceeded"))
      ∷ (text "state_key", word (StateKey.value v.state_key))
      ∷ (text "observed", number v.observed)
      ∷ (text "allowed", number v.allowed)
      ∷ [];
  publications = [];
}
policy_failure (deadline phase) = record {
  status = failure;
  payload = nothing;
  errors = text "Execution deadline exceeded" ∷ [];
  metadata =
      (text "error_kind", word (text "execution_deadline_exceeded"))
      ∷ (text "phase", word (phase_value phase))
      ∷ [];
  publications = [];
}

-- `emit_safely(sink, event)`
abbrev pub emit_safely : DiagnosticEvent → Run → Attempt Run
emit_safely event r =
    let events = r.events ++ event ∷ [] in
    require (not (r.sink events)) process_control >> returns (record r { events = events })

-- `emit_safely(sink, DiagnosticEvent(...))`: the constructors may raise, and process control of the
-- sink goes through.
unfoldable pub emit : EventType → Severity → Text → Diagnostics.DiagnosticFields → Run → Attempt Run
emit type severity message fields r = do
  event ← diagnostic_event type severity message fields
  emit_safely event r

-- `_safe_capability_id`
unfoldable pub safe_capability_id : Text → Option Text
unfolding capability_id
safe_capability_id name = elim (capability_id name) [ returns i ↦ some i.value | raises e ↦ none ]

unfoldable pub diagnostic_id : PipelineEntry → Option Text
unfolding safe_capability_id
diagnostic_id entry = elim entry.capability_id [
  | some i ↦ some i.value
  | none ↦ safe_capability_id entry.capability.name
]

-- `_emit_capability_started`
unfoldable pub emit_capability_started : Option Text → Run → Attempt Run
unfolding emit
emit_capability_started id =
    emit Diagnostics.capability_started Diagnostics.info (text "Capability started")
      (record no_fields { capability_id = id })

-- `_approved_partial_reasons`
abbrev pub approve : Option Metadatum → Option (List PartialReason)
approve (some (reasons rs)) =
    if length rs == 0 || ltb 4 (length rs) then none else some (sorted_set rs)
approve _ = none

unfoldable pub approved_partial_reasons : Result → Option (List PartialReason)
unfolding sorted_set lookup
approved_partial_reasons r = elim r.status [
  | partial ↦ approve (lookup (text "partial_reasons") r.metadata)
  | _ ↦ none
]

abbrev pub terminal_type : Status → EventType
terminal_type success = Diagnostics.capability_completed
terminal_type partial = Diagnostics.capability_partial
terminal_type failure = Diagnostics.capability_failed
terminal_type error = Diagnostics.capability_error

abbrev pub terminal_severity : Status → Severity
terminal_severity success = Diagnostics.info
terminal_severity partial = Diagnostics.warning
terminal_severity failure = Diagnostics.error
terminal_severity error = Diagnostics.error

abbrev pub terminal_message : Status → Text
terminal_message success = text "Capability completed"
terminal_message partial = text "Capability completed partially"
terminal_message failure = text "Capability failed"
terminal_message error = text "Capability error"

-- `_emit_capability_terminal`
unfoldable pub emit_capability_terminal : Option Text → Result → Run → Attempt Run
unfolding emit
emit_capability_terminal id result =
    emit (terminal_type result.status) (terminal_severity result.status)
      (terminal_message result.status)
      (record no_fields {
        capability_id = id;
        runtime_status = some (status_name result.status);
        partial_reasons = approved_partial_reasons result;
      })

-- `_emit_policy_violation`
unfoldable pub emit_policy_violation : Violation → Option Text → Run → Attempt Run
unfolding emit
emit_policy_violation (limit v) id =
    emit Diagnostics.policy_limit_exceeded Diagnostics.error (text "State limit exceeded")
      (record no_fields {
        capability_id = id;
        policy_type = some (text "state_limit");
        state_key = some (StateKey.name v.state_key);
        observed = some v.observed;
        allowed = some v.allowed;
      })
emit_policy_violation (deadline phase) id =
    emit Diagnostics.policy_deadline_exceeded Diagnostics.error (text "Execution deadline exceeded")
      (record no_fields { capability_id = id; policy_type = some (text "deadline") })

abbrev pub emit_optional_violation : Option Violation → Option Text → Run → Attempt Run
emit_optional_violation none id r = returns r
emit_optional_violation (some v) id r = emit_policy_violation v id r
