-- ===== src/Runtime/Diagnostics.antt =====
-- redforge/observability: the events of the runtime, with the fields that it sets, and
-- `emit_safely`. The constructors of an event and of its fields may raise; the sink may not.
use red_forge.Base.{
  ℕ, ◌≡◌, true, ◌||◌, Option, none, some, List, leb, ltb, if◌then◌else◌, length, any, dedup,
  sort_on, Text, text, text_order, Order, ◌==◌, leb_total, leb_trans, arith, nat_order,
}
use red_forge.Sdk.Exception.{value_error, Attempt, returns, raises, ◌>>=◌, ◌>>◌, require}
use red_forge.Sdk.Result.{
  PartialReason, execution_timeout, malformed_records_skipped, unassociated_records_skipped,
  output_truncated,
}

pub data EventType : Type 0 where
  scan_preparation_started scan_preparation_completed : EventType
  scan_preflight_started scan_preflight_completed scan_preflight_failed : EventType
  scan_build_started scan_build_completed : EventType
  scan_execution_started scan_execution_completed : EventType
  capability_started capability_completed capability_partial : EventType
  capability_failed capability_error : EventType
  policy_limit_exceeded policy_deadline_exceeded : EventType
  scan_result_created : EventType

pub data Severity : Type 0 where
  debug info warning error : Severity

-- `_EVENT_MESSAGES`
unfoldable pub event_message : EventType → Text
event_message scan_preparation_started = text "Scan preparation started"
event_message scan_preparation_completed = text "Scan preparation completed"
event_message scan_preflight_started = text "Scan preflight started"
event_message scan_preflight_completed = text "Scan preflight completed"
event_message scan_preflight_failed = text "Scan preflight failed"
event_message scan_build_started = text "Scan build started"
event_message scan_build_completed = text "Scan build completed"
event_message scan_execution_started = text "Scan execution started"
event_message scan_execution_completed = text "Scan execution completed"
event_message capability_started = text "Capability started"
event_message capability_completed = text "Capability completed"
event_message capability_partial = text "Capability completed partially"
event_message capability_failed = text "Capability failed"
event_message capability_error = text "Capability error"
event_message policy_limit_exceeded = text "State limit exceeded"
event_message policy_deadline_exceeded = text "Execution deadline exceeded"
event_message scan_result_created = text "Scan result created"

-- `_PARTIAL_REASON_ORDER`
abbrev pub reason_index : PartialReason → ℕ
reason_index execution_timeout = 0
reason_index malformed_records_skipped = 1
reason_index unassociated_records_skipped = 2
reason_index output_truncated = 3

abbrev pub reason_code : PartialReason → Text
reason_code execution_timeout = text "execution_timeout"
reason_code malformed_records_skipped = text "malformed_records_skipped"
reason_code unassociated_records_skipped = text "unassociated_records_skipped"
reason_code output_truncated = text "output_truncated"

pub reason_antisym :
    (a b : PartialReason)
    → leb (reason_index a) (reason_index b) ≡ true
    → leb (reason_index b) (reason_index a) ≡ true
    → a ≡ b
reason_antisym a b h k = ground arith

instance abbrev pub reason_order : Order PartialReason
reason_order = record {
  le = λ a b. leb (reason_index a) (reason_index b);
  le_total = λ a b. leb_total (reason_index a) (reason_index b);
  le_trans = λ a b c. leb_trans (reason_index a) (reason_index b) (reason_index c);
  le_antisym = reason_antisym;
}

-- `_validate_text`; the characters that it names are below 32 too
unfoldable pub validate_text : Text → (maximum : ℕ) → Attempt (Unit {0})
unfolding any
validate_text s maximum =
    if length s == 0 || ltb maximum (length s) || any (λ c. ltb c 32) s
    then raises (value_error (text "diagnostic text is invalid"))
    else returns tt

-- `_normalize_partial_reasons` of typed reasons, whose codes are well formed
unfoldable pub normalize_partial_reasons : List PartialReason → Attempt (List PartialReason)
unfolding dedup sort_on
normalize_partial_reasons reasons =
    if length reasons == 0 || ltb 8 (length reasons)
    then raises (value_error (text "diagnostic partial reason count is invalid"))
    else returns (sort_on reason_code (dedup reasons))

pub record DiagnosticFields : Type 0 where
  pub capability_id : Option Text
  pub runtime_status : Option Text
  pub partial_reasons : Option (List PartialReason)
  pub policy_type : Option Text
  pub state_key : Option Text
  pub observed : Option ℕ
  pub allowed : Option ℕ

abbrev pub no_fields : DiagnosticFields
no_fields = record {
  capability_id = none;
  runtime_status = none;
  partial_reasons = none;
  policy_type = none;
  state_key = none;
  observed = none;
  allowed = none;
}

abbrev pub validate_optional : Option Text → Attempt (Unit {0})
validate_optional none = returns tt
validate_optional (some s) = validate_text s 512

abbrev pub normalize_optional : Option (List PartialReason) → Attempt (Option (List PartialReason))
normalize_optional none = returns none
normalize_optional (some rs) = do rs' ← normalize_partial_reasons rs; returns (some rs')

-- `DiagnosticFields.__post_init__`
unfoldable pub diagnostic_fields : DiagnosticFields → Attempt DiagnosticFields
diagnostic_fields f = do
  validate_optional f.capability_id
  validate_optional f.runtime_status
  reasons ← normalize_optional f.partial_reasons
  validate_optional f.policy_type
  validate_optional f.state_key
  returns (record f { partial_reasons = reasons })

pub record DiagnosticEvent : Type 0 where
  pub event_type : EventType
  pub severity : Severity
  pub message : Text
  pub fields : DiagnosticFields

-- `DiagnosticEvent(event_type, severity, message, DiagnosticFields(...))`
unfoldable pub diagnostic_event :
    EventType → Severity → Text → DiagnosticFields → Attempt DiagnosticEvent
diagnostic_event type severity message fields = do
  checked ← diagnostic_fields fields
  validate_text message 128
  require (message == event_message type)
      (value_error (text "diagnostic message does not match event type"))
  returns (record { event_type = type; severity = severity; message = message; fields = checked })
