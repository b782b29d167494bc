-- ===== src/Runtime/Pipeline/Quiet.antt =====
-- Handing an event to the sink changes nothing else of the loop's variables.
use red_forge.Base.{
  ◌≡◌, refl, sym, ap, ◌∙◌, subst, Bool, not, Option, none, some, [], ◌∷◌, ◌++◌, arith, Text,
}
use red_forge.Sdk.Exception.{
  Attempt, returns, raises, ◌>>=◌, >>=-eq-returns, require->>, process_control,
}
use red_forge.Sdk.Result.{Result}
use red_forge.Runtime.Policy.{Violation, limit, deadline}
use red_forge.Runtime.Diagnostics.{DiagnosticEvent, diagnostic_event}
use red_forge.Runtime.Pipeline.{is_usable, PipelineEntry}
use red_forge.Runtime.Pipeline.Emit.{
  Run, emit_safely, diagnostic_id, emit_capability_started, emit_capability_terminal,
  emit_policy_violation, emit_optional_violation,
}
use red_forge.Runtime.Pipeline.Run.{finish_round}

-- Two states of the loop that differ in the reported events only.
pub record SameButEvents (a b : Run) : Type 0 where
  pub context : b.context ≡ a.context
  pub executions : b.executions ≡ a.executions
  pub aggregate_status : b.aggregate_status ≡ a.aggregate_status
  pub last_result : b.last_result ≡ a.last_result
  pub deadline_checks : b.deadline_checks ≡ a.deadline_checks
  pub sink : b.sink ≡ a.sink

pub SameButEvents-refl : (a : Run) → SameButEvents a a
SameButEvents-refl a = record {
  context = refl;
  executions = refl;
  aggregate_status = refl;
  last_result = refl;
  deadline_checks = refl;
  sink = refl;
}

pub SameButEvents-trans : {a b c : Run} → SameButEvents a b → SameButEvents b c → SameButEvents a c
SameButEvents-trans p q = record {
  context = q.context ∙ p.context;
  executions = q.executions ∙ p.executions;
  aggregate_status = q.aggregate_status ∙ p.aggregate_status;
  last_result = q.last_result ∙ p.last_result;
  deadline_checks = q.deadline_checks ∙ p.deadline_checks;
  sink = q.sink ∙ p.sink;
}

pub deliver-SameButEvents :
    (m : Attempt DiagnosticEvent) (a b : Run)
    → (m >>= λ event. emit_safely event a) ≡ returns b
    → SameButEvents a b
deliver-SameButEvents (returns event) a b h =
    let (_, same) = require->> (not (a.sink (a.events ++ event ∷ []))) process_control _ h in
    ground (arith, same)
deliver-SameButEvents (raises e) a b h = absurd (cc)

pub emit_capability_started-SameButEvents :
    (id : Option Text) (a b : Run) → emit_capability_started id a ≡ returns b → SameButEvents a b
unfolding emit_capability_started
emit_capability_started-SameButEvents id a b h =
    deliver-SameButEvents (diagnostic_event _ _ _ _) a b h

pub emit_capability_terminal-SameButEvents :
    (id : Option Text) (r : Result) (a b : Run)
    → emit_capability_terminal id r a ≡ returns b
    → SameButEvents a b
unfolding emit_capability_terminal
emit_capability_terminal-SameButEvents id r a b h =
    deliver-SameButEvents (diagnostic_event _ _ _ _) a b h

pub emit_optional_violation-SameButEvents :
    (v : Option Violation) (id : Option Text) (a b : Run)
    → emit_optional_violation v id a ≡ returns b
    → SameButEvents a b
unfolding emit_policy_violation
emit_optional_violation-SameButEvents none id a b h = ground arith
emit_optional_violation-SameButEvents (some (limit v)) id a b h =
    deliver-SameButEvents (diagnostic_event _ _ _ _) a b h
emit_optional_violation-SameButEvents (some (deadline phase)) id a b h =
    deliver-SameButEvents (diagnostic_event _ _ _ _) a b h

-- A round ends with the reports, and goes on exactly if the result is usable.
pub finish_round-SameButEvents :
    (entry : PipelineEntry) (r : Result) (v : Option Violation) (a b : Run) (g : Bool)
    → finish_round entry r v a ≡ returns (b, g)
    → SameButEvents a b × (g ≡ is_usable r.status)
unfolding finish_round
finish_round-SameButEvents entry r v a b g h =
    let (a', p, h') = >>=-eq-returns (emit_optional_violation v (diagnostic_id entry) a) _ h in
    let (a'', q, h'') = >>=-eq-returns (emit_capability_terminal (diagnostic_id entry) r a') _ h' in
    let e : (a'', is_usable r.status) ≡ (b, g) = cc in
    (
      subst (SameButEvents a) (ap (λ (x : Run × Bool). x.0) e) (
          SameButEvents-trans (emit_optional_violation-SameButEvents v (diagnostic_id entry) a a' p)
            (emit_capability_terminal-SameButEvents (diagnostic_id entry) r a' a'' q)),
      sym (ap (λ (x : Run × Bool). x.1) e),
    )
