-- ===== src/Runtime/Pipeline/Returns.antt =====
-- `Pipeline.run` returns: the loop stops, and none of its own steps raises, for identifiers that a
-- diagnostic may hold, a policy whose checks of the deadline raise expiry only, and capabilities and a
-- sink that raise no process control.
use red_forge.Base.{
  ◌≡◌, refl, sym, subst, inl, inr, true, Option, none, some, List, [], ◌∷◌, Bool-cases, All,
}
use red_forge.Sdk.Exception.{Attempt, returns, raises, succeeds, returned_value}
use red_forge.Sdk.Result.{Result}
use red_forge.Sdk.Context.{Context}
use red_forge.Runtime.Policy.{Violation, ExecutionPolicy, policy}
use red_forge.Runtime.Pipeline.{
  is_usable, Normalized, PipelineEntry, Contracts, Pipeline, Capability, Candidate, finished,
}
use red_forge.Runtime.Pipeline.Emit.{Sink, Run, diagnostic_id, emit_capability_started}
use red_forge.Runtime.Pipeline.Run.{
  settle, after_publish, invoke, skip, after_check, first_check, round, run_entries, run,
  PipelineResult, initial_run, after_execute, record_execution, judge, police, declared_outputs,
}
use red_forge.Runtime.Pipeline.Quiet.{emit_capability_started-SameButEvents}
use red_forge.Runtime.Pipeline.Round.{round-IsRound}
use red_forge.Runtime.Pipeline.Delivery.{
  succeeds->>=, id_fits, IsQuiet, emit_capability_started_returns, finish_round_returns,
}
use red_forge.Runtime.Pipeline.Caught.{OnlyExpires, stays}

-- A diagnostic may hold the identifier that the runtime reports for the entry.
abbrev pub EntryFits : PipelineEntry → Type 0
EntryFits entry = id_fits (diagnostic_id entry) ≡ true

-- The capability ends without an exception that `except Exception` does not catch.
abbrev pub IsCaught : Capability → Type 0
IsCaught capability =
    (c : Context) → (candidate : Candidate) × ((capability.execute c).0 ≡ finished candidate)

-- What the theorem asks of an entry.
abbrev pub IsTame : PipelineEntry → Type 0
IsTame entry = EntryFits entry × IsCaught entry.capability

after_publish_returns :
    (entry : PipelineEntry) (r : Result) (v : Option Violation) (n : Normalized) (a recorded : Run)
    (outcome : Attempt Context)
    → IsQuiet recorded.sink
    → EntryFits entry
    → succeeds (after_publish entry r v n a recorded outcome) ≡ true
unfolding after_publish succeeds
after_publish_returns entry r v n a recorded (returns c) quiet fits =
    finish_round_returns entry r v _ quiet fits
after_publish_returns entry r v n a recorded (raises e) quiet fits = refl

settle_returns :
    (entry : PipelineEntry) (r : Result) (v : Option Violation) (n : Normalized) (a : Run)
    → IsQuiet a.sink
    → EntryFits entry
    → succeeds (settle entry r v n a) ≡ true
unfolding settle record_execution
settle_returns entry r v n a quiet fits = elim (Bool-cases (is_usable r.status)) [
  | inl usable ↦ rw usable (after_publish_returns entry r v n a _ _ quiet fits)
  | inr stops ↦ rw stops (finish_round_returns entry r v _ quiet fits)
]

after_execute_returns :
    (contracts : Contracts) (policy : Option ExecutionPolicy) (entry : PipelineEntry) (a : Run)
    (candidate : Candidate)
    → IsQuiet a.sink
    → EntryFits entry
    → OnlyExpires policy
    → succeeds (after_execute contracts policy entry a (finished candidate)) ≡ true
unfolding after_execute
after_execute_returns contracts policy entry a candidate quiet fits expires =
    let (judged, n) = judge entry.capability.name (declared_outputs contracts entry) candidate in
    let (r, violation, checks) = police policy a.deadline_checks entry.capability.name judged n in
    rw (stays policy a.deadline_checks judged n expires)
      (settle_returns entry r violation n (record a { deadline_checks = checks }) quiet fits)

invoke_returns :
    (contracts : Contracts) (policy : Option ExecutionPolicy) (entry : PipelineEntry) (a : Run)
    → IsQuiet a.sink
    → IsTame entry
    → OnlyExpires policy
    → succeeds (invoke contracts policy entry a) ≡ true
unfolding invoke
invoke_returns contracts policy entry a quiet tame expires =
    let (candidate, ends) = tame.1 a.context in
    rw ends (after_execute_returns contracts policy entry _ candidate quiet tame.0 expires)

first_check_returns :
    (contracts : Contracts) (policy : Option ExecutionPolicy) (entry : PipelineEntry) (a : Run)
    → IsQuiet a.sink
    → IsTame entry
    → OnlyExpires policy
    → succeeds (first_check contracts policy entry a) ≡ true
unfolding first_check after_check skip record_execution
first_check_returns contracts none entry a quiet tame expires =
    invoke_returns contracts none entry a quiet tame expires
first_check_returns contracts (some p) entry a quiet tame expires =
    elim (expires.0 a.deadline_checks) [
      | inl passes ↦ rw passes (invoke_returns contracts (some p) entry _ quiet tame expires)
      | inr expired ↦ rw expired (finish_round_returns entry _ _ _ quiet tame.0)
    ]

round_returns :
    (contracts : Contracts) (policy : Option ExecutionPolicy) (entry : PipelineEntry) (a : Run)
    → IsQuiet a.sink
    → IsTame entry
    → OnlyExpires policy
    → succeeds (round contracts policy entry a) ≡ true
unfolding round
round_returns contracts policy entry a quiet tame expires =
    succeeds->>= (emit_capability_started (diagnostic_id entry) a) _
      (emit_capability_started_returns (diagnostic_id entry) a quiet tame.0)
      (λ b h.
        let same = emit_capability_started-SameButEvents (diagnostic_id entry) a b h in
        first_check_returns contracts policy entry b (subst IsQuiet (sym same.sink) quiet) tame
          expires)

run_entries_returns :
    (contracts : Contracts) (policy : Option ExecutionPolicy) (entries : List PipelineEntry)
    (a : Run)
    → IsQuiet a.sink
    → All IsTame entries
    → OnlyExpires policy
    → succeeds (run_entries contracts policy entries a) ≡ true
unfolding run_entries succeeds
run_entries_returns contracts policy [] a quiet tame expires = refl
run_entries_returns contracts policy (entry ∷ entries) a quiet tame expires =
    succeeds->>= (round contracts policy entry a) _
      (round_returns contracts policy entry a quiet tame.0 expires)
      (λ (b, g) h.
        let (x, ok) = round-IsRound contracts policy entry a b g h in
        elim (Bool-cases g) [
          | inl on ↦ rw on (
              run_entries_returns contracts policy entries b (subst IsQuiet (sym ok.sink) quiet)
                tame.1 expires)
          | inr off ↦ rw off refl
        ])

-- A run returns a result, whichever results the capabilities give and whichever exceptions of class
-- `Exception` they raise, under four conditions: no capability and no emission to the sink ends with
-- an exception of another class (`KeyboardInterrupt`, `SystemExit`); a diagnostic may hold the
-- identifier of each entry (a text of 1 to 512 characters, none of them a control character); the
-- checks of the deadline raise nothing but expiry; and the checks of a batch raise nothing but
-- exceptions of class `Exception`.
pub run_returns :
    (p : Pipeline) (c : Context) (policy : Option ExecutionPolicy) (sink : Sink)
    → All IsTame p.entries
    → OnlyExpires policy
    → IsQuiet sink
    → (res : PipelineResult) × (run p c policy sink ≡ returns res)
unfolding run succeeds
run_returns p c policy sink tame expires quiet = returned_value (run p c policy sink) (
    succeeds->>= (run_entries p.output_contracts policy p.entries (initial_run sink c)) _
      (run_entries_returns p.output_contracts policy p.entries (initial_run sink c) quiet tame
        expires)
      (λ final h. refl))
