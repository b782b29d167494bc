-- ===== src/Runtime/Pipeline/Round.antt =====
-- What one round of the loop of `Pipeline.run` adds to the history, on every path that returns.
use red_forge.Base.{
  ℕ, ◌≡◌, refl, ap, ◌∙◌, Bool, true, false, not, Option, none, some, [], ◌∷◌, ◌++◌, arith,
  if◌then◌else◌, Bool-cases, inl, inr, Text,
}
use red_forge.Sdk.Exception.{
  Exception, execution_deadline_exceeded, state_limit_exceeded, Attempt, returns, raises,
  >>=-eq-returns, require->>, process_control,
}
use red_forge.Sdk.Result.{Status, error, Result}
use red_forge.Sdk.Context.{Context}
use red_forge.Runtime.Policy.{Violation, deadline, before_capability, ExecutionPolicy}
use red_forge.Runtime.Pipeline.{
  combine_status, is_usable, Normalized, invalid_result, PipelineEntry, Contracts, Outcome,
  interrupted, finished,
}
use red_forge.Runtime.Pipeline.Emit.{
  CapabilityExecution, Run, policy_failure, diagnostic_id, emit_capability_started,
}
use red_forge.Runtime.Pipeline.Run.{
  finish_round, after_publish, approve_publications, handle_refusal, ruled, after_check,
  first_check, execution_of, record_execution, settle, invoke, skip, round, judge, police,
  declared_outputs, escapes, after_execute,
}
use red_forge.Runtime.Pipeline.Quiet.{
  emit_capability_started-SameButEvents, finish_round-SameButEvents,
}

some_injective : {v w : Violation} → some v ≡ some w → v ≡ w
some_injective e = cc

-- What one round adds to the history.
pub record IsRound (entry : PipelineEntry) (a b : Run) (g : Bool) (x : CapabilityExecution)
    : Type 0 where
  pub name : x.capability_name ≡ entry.capability.name
  pub capability_id : x.capability_id ≡ entry.capability_id
  pub goes_on : g ≡ is_usable x.result.status
  pub executions : b.executions ≡ a.executions ++ x ∷ []
  pub aggregate_status : b.aggregate_status ≡ combine_status a.aggregate_status x.result.status
  pub last_result : b.last_result ≡ some x.result
  pub sink : b.sink ≡ a.sink
  -- an execution with a violation has the result of that violation
  pub violation : (v : Violation) → x.policy_violation ≡ some v → x.result ≡ policy_failure v
  -- only an expiry before the capability leaves it out
  pub left_out : x.executed ≡ false → x.policy_violation ≡ some (deadline before_capability)

abbrev Rounds : PipelineEntry → Run → Run → Bool → Type 0
Rounds entry a b g = (x : CapabilityExecution) × IsRound entry a b g x

-- A round is the same for a state of the loop with the same history, status and sink.
same_history :
    {entry : PipelineEntry} {a a' b : Run} {g : Bool} {x : CapabilityExecution}
    → IsRound entry a' b g x
    → a'.executions ≡ a.executions
    → a'.aggregate_status ≡ a.aggregate_status
    → a'.sink ≡ a.sink
    → IsRound entry a b g x
same_history {x = x} ok e s k = record {
  name = ok.name;
  capability_id = ok.capability_id;
  goes_on = ok.goes_on;
  executions = ok.executions ∙ ap (λ xs. xs ++ x ∷ []) e;
  aggregate_status = ok.aggregate_status ∙ ap (λ t. combine_status t x.result.status) s;
  last_result = ok.last_result;
  sink = ok.sink ∙ k;
  violation = ok.violation;
  left_out = ok.left_out;
}

combine_status_error :
    (s t : Status) → combine_status (combine_status s t) error ≡ combine_status s error
unfolding combine_status
combine_status_error s t = ground arith

finish-IsRound :
    (entry : PipelineEntry) (r : Result) (executed : Bool) (v : Option Violation) (a m b : Run)
    (g : Bool)
    → ((w : Violation) → v ≡ some w → r ≡ policy_failure w)
    → (executed ≡ false → v ≡ some (deadline before_capability))
    → m.executions ≡ a.executions ++ execution_of entry r executed v ∷ []
    → m.aggregate_status ≡ combine_status a.aggregate_status r.status
    → m.last_result ≡ some r
    → m.sink ≡ a.sink
    → finish_round entry r v m ≡ returns (b, g)
    → Rounds entry a b g
finish-IsRound entry r executed v a m b g explained left_out p q l s h =
    let (same, on) = finish_round-SameButEvents entry r v m b g h in
    (
      execution_of entry r executed v,
      record {
        name = refl;
        capability_id = refl;
        goes_on = on;
        executions = same.executions ∙ p;
        aggregate_status = same.aggregate_status ∙ q;
        last_result = same.last_result ∙ l;
        sink = same.sink ∙ s;
        violation = explained;
        left_out = left_out;
      },
    )

after_publish-IsRound :
    (entry : PipelineEntry) (r : Result) (v : Option Violation) (n : Normalized) (a b : Run)
    (g : Bool) (outcome : Attempt Context)
    → ((w : Violation) → v ≡ some w → r ≡ policy_failure w)
    → after_publish entry r v n a (record_execution (execution_of entry r true v) a) outcome
      ≡ returns (b, g)
    → Rounds entry a b g
unfolding after_publish record_execution
after_publish-IsRound entry r v n a b g (returns c) explained h =
    finish-IsRound entry r true v a _ b g explained (λ e. absurd (cc)) refl refl refl refl h
after_publish-IsRound entry r v n a b g (raises _) explained h = (
  execution_of entry (invalid_result entry.capability.name) true none,
  record {
    name = refl;
    capability_id = refl;
    goes_on = ground arith;
    executions = ground arith;
    aggregate_status = ground (arith, combine_status_error a.aggregate_status r.status);
    last_result = ground arith;
    sink = ground arith;
    violation = λ w e. absurd (cc);
    left_out = λ e. absurd (cc);
  },
)

settle-IsRound :
    (entry : PipelineEntry) (r : Result) (v : Option Violation) (n : Normalized) (a b : Run)
    (g : Bool)
    → ((w : Violation) → v ≡ some w → r ≡ policy_failure w)
    → settle entry r v n a ≡ returns (b, g)
    → Rounds entry a b g
unfolding settle
settle-IsRound entry r v n a b g explained h = elim (Bool-cases (is_usable r.status)) [
  | inr stops ↦
      unfold record_execution in
      finish-IsRound entry r true v a _ b g explained (λ e. absurd (cc)) refl refl refl refl
        (rw stops at h)
  | inl usable ↦ after_publish-IsRound entry r v n a b g _ explained (rw usable at h)
]

skip-IsRound :
    (entry : PipelineEntry) (a b : Run) (g : Bool)
    → skip entry a ≡ returns (b, g)
    → Rounds entry a b g
unfolding skip record_execution
skip-IsRound entry a b g h =
    finish-IsRound entry (policy_failure (deadline before_capability)) false
      (some (deadline before_capability)) a _ b g (λ w e. ap policy_failure (some_injective e))
      (λ _. refl) refl refl refl refl h

handle_refusal_violation :
    (name : Text) (e : Exception) (w : Violation)
    → (handle_refusal name e).1 ≡ some w
    → (handle_refusal name e).0 ≡ policy_failure w
unfolding handle_refusal
handle_refusal_violation name execution_deadline_exceeded w h = ap policy_failure (some_injective h)
handle_refusal_violation name (state_limit_exceeded v) w h = ap policy_failure (some_injective h)
handle_refusal_violation name _ w h = cc

ruled_violation :
    (name : Text) (r : Result) (checks : ℕ) (verdict : Attempt (Unit {0})) (w : Violation)
    → (ruled name r checks verdict).1 ≡ some w
    → (ruled name r checks verdict).0 ≡ policy_failure w
unfolding ruled
ruled_violation name r checks (returns _) w h = absurd (cc)
ruled_violation name r checks (raises e) w h = handle_refusal_violation name e w h

police_violation :
    (policy : Option ExecutionPolicy) (checks : ℕ) (name : Text) (r : Result) (n : Normalized)
    (w : Violation)
    → (police policy checks name r n).1 ≡ some w
    → (police policy checks name r n).0 ≡ policy_failure w
unfolding police
police_violation policy checks name r n w =
    let (verdict, checks') = approve_publications policy checks n in
    elim (is_usable r.status)
      as (λ b.
        (if b then ruled name r checks' verdict else (r, none, checks)).1 ≡ some w
        → (if b then ruled name r checks' verdict else (r, none, checks)).0 ≡ policy_failure w) [
          | true ↦ ruled_violation name r checks' verdict w
          | false ↦ λ h. absurd (cc)
        ]

after_execute-IsRound :
    (contracts : Contracts) (policy : Option ExecutionPolicy) (entry : PipelineEntry) (a b : Run)
    (g : Bool) (outcome : Outcome)
    → after_execute contracts policy entry a outcome ≡ returns (b, g)
    → Rounds entry a b g
unfolding after_execute
after_execute-IsRound contracts policy entry a b g interrupted h = absurd (cc)
after_execute-IsRound contracts policy entry a b g (finished candidate) h =
    let (judged, n) = judge entry.capability.name (declared_outputs contracts entry) candidate in
    let (r, violation, checks) = police policy a.deadline_checks entry.capability.name judged n in
    let (_, h') =
      require->> (not (escapes policy a.deadline_checks judged n)) process_control _ h in
    let (x, ok) =
      settle-IsRound entry r violation n (record a { deadline_checks = checks }) b g
        (police_violation policy a.deadline_checks entry.capability.name judged n) h' in
    (x, same_history ok refl refl refl)

invoke-IsRound :
    (contracts : Contracts) (policy : Option ExecutionPolicy) (entry : PipelineEntry) (a b : Run)
    (g : Bool)
    → invoke contracts policy entry a ≡ returns (b, g)
    → Rounds entry a b g
unfolding invoke
invoke-IsRound contracts policy entry a b g h =
    let (outcome, state) = entry.capability.execute a.context in
    let (x, ok) =
      after_execute-IsRound contracts policy entry
        (record a { context = record a.context { state = state } }) b g outcome h in
    (x, same_history ok refl refl refl)

after_check-IsRound :
    (contracts : Contracts) (p : ExecutionPolicy) (entry : PipelineEntry) (a b : Run) (g : Bool)
    (outcome : Attempt (Unit {0}))
    → after_check contracts p entry a outcome ≡ returns (b, g)
    → Rounds entry a b g
unfolding after_check
after_check-IsRound contracts p entry a b g (returns _) h =
    invoke-IsRound contracts (some p) entry a b g h
after_check-IsRound contracts p entry a b g (raises execution_deadline_exceeded) h =
    skip-IsRound entry a b g h
after_check-IsRound contracts p entry a b g (raises e) h = absurd (cc)

first_check-IsRound :
    (contracts : Contracts) (policy : Option ExecutionPolicy) (entry : PipelineEntry) (a b : Run)
    (g : Bool)
    → first_check contracts policy entry a ≡ returns (b, g)
    → Rounds entry a b g
unfolding first_check
first_check-IsRound contracts none entry a b g h = invoke-IsRound contracts none entry a b g h
first_check-IsRound contracts (some p) entry a b g h =
    let (x, ok) = after_check-IsRound contracts p entry _ b g _ h in
    (x, same_history ok refl refl refl)

-- Every round that returns adds one execution for its entry.
pub round-IsRound :
    (contracts : Contracts) (policy : Option ExecutionPolicy) (entry : PipelineEntry) (a b : Run)
    (g : Bool)
    → round contracts policy entry a ≡ returns (b, g)
    → Rounds entry a b g
unfolding round
round-IsRound contracts policy entry a b g h =
    let (started, p, q) = >>=-eq-returns (emit_capability_started (diagnostic_id entry) a) _ h in
    let same = emit_capability_started-SameButEvents (diagnostic_id entry) a started p in
    let (x, ok) = first_check-IsRound contracts policy entry started b g q in
    (x, same_history ok same.executions same.aggregate_status same.sink)
