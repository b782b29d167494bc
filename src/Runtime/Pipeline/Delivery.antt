-- ===== src/Runtime/Pipeline/Delivery.antt =====
-- The events that a round hands to the sink can be made, for an identifier that a diagnostic may
-- hold.
use red_forge.Base.{
  ◌≡◌, ◌≤◌, refl, Bool, true, false, ◌||◌, Option, none, some, List, [], ◌∷◌, ◌++◌, subst, sym,
  arith, Bool-cases, inl, inr, length, any, ltb, Text, text, text_order, ◌==◌, nat_order, dedup,
  sorted_set, lookup, sort, eq_refl, length-sort_on, length-dedup, dedup-nonempty,
}
use red_forge.Sdk.StateKey
use red_forge.Sdk.StateKey.{PipelineStateKey}
use red_forge.Sdk.Exception.{Attempt, returns, raises, ◌>>=◌, succeeds}
use red_forge.Sdk.Result.{
  Status, success, failure, error, partial, status_name, PartialReason, Result, Metadatum, reasons,
}
use red_forge.Runtime.Policy.{Violation, limit, deadline}
use red_forge.Runtime.Diagnostics.{
  DiagnosticEvent, DiagnosticFields, diagnostic_fields, diagnostic_event, validate_text,
  normalize_partial_reasons, EventType, Severity, event_message, no_fields, validate_optional,
  normalize_optional, reason_order,
}
use red_forge.Runtime.Pipeline.{PipelineEntry}
use red_forge.Runtime.Pipeline.Emit.{
  Sink, Run, diagnostic_id, emit, emit_capability_started, emit_capability_terminal,
  emit_policy_violation, emit_optional_violation, approved_partial_reasons, approve, terminal_type,
  terminal_message, terminal_severity,
}
use red_forge.Runtime.Pipeline.Run.{finish_round}
use red_forge.Runtime.Pipeline.Quiet.{emit_optional_violation-SameButEvents}

pub succeeds->>= {ℓ κ} :
    {A : Type ℓ} {B : Type κ} (m : Attempt A) (f : A → Attempt B)
    → succeeds m ≡ true
    → ((a : A) → m ≡ returns a → succeeds (f a) ≡ true)
    → succeeds (m >>= f) ≡ true
unfolding succeeds
succeeds->>= (returns a) f h k = k a refl
succeeds->>= (raises e) f h k = absurd (cc)

-- A diagnostic may hold the identifier of the entry.
abbrev pub id_fits : Option Text → Bool
id_fits none = true
id_fits (some i) = succeeds (validate_text i 512)

status_fits : (s : Status) → succeeds (validate_text (status_name s) 512) ≡ true
unfolding validate_text any succeeds
status_fits success = refl
status_fits failure = refl
status_fits error = refl
status_fits partial = refl

key_fits : (k : PipelineStateKey) → succeeds (validate_text (StateKey.name k) 512) ≡ true
unfolding validate_text any succeeds
key_fits k = ground arith

normalize_partial_reasons_returns :
    (rs : List PartialReason)
    → 1 ≤ length rs
    → length rs ≤ 4
    → succeeds (normalize_partial_reasons (sorted_set rs)) ≡ true
unfolding normalize_partial_reasons sorted_set sort succeeds
normalize_partial_reasons_returns rs lower upper =
    let same = length-sort_on (λ (x : PartialReason). x) (dedup rs) in
    let most = length-dedup rs in
    let least = dedup-nonempty rs lower in ground (arith, same, most, least)

-- A message of an event.
message_fits : (type : EventType) → succeeds (validate_text (event_message type) 128) ≡ true
unfolding validate_text any succeeds event_message
message_fits type = ground arith

diagnostic_event_returns :
    (type : EventType) (severity : Severity) (f : DiagnosticFields)
    → succeeds (diagnostic_fields f) ≡ true
    → succeeds (diagnostic_event type severity (event_message type) f) ≡ true
unfolding diagnostic_event succeeds
diagnostic_event_returns type severity f fits =
    succeeds->>= (diagnostic_fields f) _ fits (λ checked h.
      succeeds->>= (validate_text (event_message type) 128) _ (message_fits type)
        (λ u h'. rw (eq_refl (event_message type)) refl))

-- The sink raises no process control.
abbrev pub IsQuiet : Sink → Type 0
IsQuiet sink = (events : List DiagnosticEvent) → sink events ≡ false

emit_returns :
    (type : EventType) (severity : Severity) (f : DiagnosticFields) (r : Run)
    → IsQuiet r.sink
    → succeeds (diagnostic_fields f) ≡ true
    → succeeds (emit type severity (event_message type) f r) ≡ true
unfolding emit succeeds
emit_returns type severity f r quiet fits =
    succeeds->>= (diagnostic_event type severity (event_message type) f) _
      (diagnostic_event_returns type severity f fits)
      (λ event h. rw (quiet (r.events ++ event ∷ [])) refl)

optional_fits : (id : Option Text) → id_fits id ≡ true → succeeds (validate_optional id) ≡ true
unfolding succeeds
optional_fits none h = refl
optional_fits (some t) h = h

fields_fit :
    (f : DiagnosticFields)
    → id_fits f.capability_id ≡ true
    → id_fits f.runtime_status ≡ true
    → succeeds (normalize_optional f.partial_reasons) ≡ true
    → id_fits f.policy_type ≡ true
    → id_fits f.state_key ≡ true
    → succeeds (diagnostic_fields f) ≡ true
unfolding diagnostic_fields succeeds
fields_fit f id status listed policy key =
    succeeds->>= (validate_optional f.capability_id) _ (optional_fits f.capability_id id) (λ u0 h0.
      succeeds->>= (validate_optional f.runtime_status) _ (optional_fits f.runtime_status status)
        (λ u1 h1. succeeds->>= (normalize_optional f.partial_reasons) _ listed (λ rs h2.
          succeeds->>= (validate_optional f.policy_type) _ (optional_fits f.policy_type policy)
            (λ u3 h3.
              succeeds->>= (validate_optional f.state_key) _ (optional_fits f.state_key key)
                (λ u4 h4. refl)))))

no_reasons_fit : succeeds (normalize_optional none) ≡ true
unfolding succeeds
no_reasons_fit = refl

pub emit_capability_started_returns :
    (id : Option Text) (r : Run)
    → IsQuiet r.sink
    → id_fits id ≡ true
    → succeeds (emit_capability_started id r) ≡ true
unfolding emit_capability_started event_message
emit_capability_started_returns id r quiet fits =
    let f = record no_fields { capability_id = id } in
    emit_returns EventType.capability_started Severity.info f r quiet
      (fields_fit f fits refl no_reasons_fit refl refl)

-- The reasons that an event reports are between one and four.
approve_fits : (m : Option Metadatum) → succeeds (normalize_optional (approve m)) ≡ true
unfolding succeeds
approve_fits none = refl
approve_fits (some (reasons rs)) = elim (Bool-cases (length rs == 0 || ltb 4 (length rs))) [
  | inl e ↦ rw e refl
  | inr e ↦ rw e (
      succeeds->>= (normalize_partial_reasons (sorted_set rs)) _
        (normalize_partial_reasons_returns rs (ground arith) (ground arith)) (λ rs' h. refl))
]
approve_fits (some m) = refl

approved_fits : (r : Result) → succeeds (normalize_optional (approved_partial_reasons r)) ≡ true
unfolding approved_partial_reasons
approved_fits r = by_status r.status
  where
    by_status :
        (s : Status)
        → succeeds (
            normalize_optional (elim s [
              | partial ↦ approve (lookup (text "partial_reasons") r.metadata)
              | _ ↦ none
            ]))
          ≡ true
    by_status success = no_reasons_fit
    by_status failure = no_reasons_fit
    by_status error = no_reasons_fit
    by_status partial = approve_fits (lookup (text "partial_reasons") r.metadata)

terminal_event : (s : Status) → terminal_message s ≡ event_message (terminal_type s)
unfolding event_message
terminal_event success = refl
terminal_event partial = refl
terminal_event failure = refl
terminal_event error = refl

emit_capability_terminal_returns :
    (id : Option Text) (result : Result) (r : Run)
    → IsQuiet r.sink
    → id_fits id ≡ true
    → succeeds (emit_capability_terminal id result r) ≡ true
unfolding emit_capability_terminal
emit_capability_terminal_returns id result r quiet fits =
    let f = record no_fields {
      capability_id = id;
      runtime_status = some (status_name result.status);
      partial_reasons = approved_partial_reasons result;
    } in
    rw (terminal_event result.status) (
      emit_returns (terminal_type result.status) (terminal_severity result.status) f r quiet
        (fields_fit f fits (status_fits result.status) (approved_fits result) refl refl))

emit_policy_violation_returns :
    (v : Violation) (id : Option Text) (r : Run)
    → IsQuiet r.sink
    → id_fits id ≡ true
    → succeeds (emit_policy_violation v id r) ≡ true
unfolding emit_policy_violation event_message validate_text any succeeds
emit_policy_violation_returns (limit v) id r quiet fits =
    let f = record no_fields {
      capability_id = id;
      policy_type = some (text "state_limit");
      state_key = some (StateKey.name v.state_key);
      observed = some v.observed;
      allowed = some v.allowed;
    } in
    emit_returns EventType.policy_limit_exceeded Severity.error f r quiet
      (fields_fit f fits refl no_reasons_fit refl (key_fits v.state_key))
emit_policy_violation_returns (deadline phase) id r quiet fits =
    let f = record no_fields { capability_id = id; policy_type = some (text "deadline") } in
    emit_returns EventType.policy_deadline_exceeded Severity.error f r quiet
      (fields_fit f fits refl no_reasons_fit refl refl)

pub finish_round_returns :
    (entry : PipelineEntry) (r : Result) (v : Option Violation) (a : Run)
    → IsQuiet a.sink
    → id_fits (diagnostic_id entry) ≡ true
    → succeeds (finish_round entry r v a) ≡ true
unfolding finish_round succeeds
finish_round_returns entry r v a quiet fits =
    succeeds->>= (emit_optional_violation v (diagnostic_id entry) a) _ (violation v) (λ b h.
      succeeds->>= (emit_capability_terminal (diagnostic_id entry) r b) _
        (emit_capability_terminal_returns (diagnostic_id entry) r b
          (subst IsQuiet
            (sym (emit_optional_violation-SameButEvents v (diagnostic_id entry) a b h).sink) quiet)
          fits)
        (λ c k. refl))
  where
    violation :
        (o : Option Violation) → succeeds (emit_optional_violation o (diagnostic_id entry) a) ≡ true
    violation none = refl
    violation (some w) = emit_policy_violation_returns w (diagnostic_id entry) a quiet fits
