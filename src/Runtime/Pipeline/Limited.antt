-- ===== src/Runtime/Pipeline/Limited.antt =====
-- A run under a `StateLimitPolicy` keeps the state within the limits.
use red_forge.Base.{◌≡◌, refl, some, All}
use red_forge.Sdk.Exception.{returns}
use red_forge.Sdk.Context.{Context}
use red_forge.Runtime.Policy.{Clock, StateLimitPolicy, policy}
use red_forge.Runtime.Policy.Limits.{IsWithin, check_limits-IsWithin}
use red_forge.Runtime.Pipeline.{Pipeline}
use red_forge.Runtime.Pipeline.Emit.{Sink}
use red_forge.Runtime.Pipeline.Run.{run, PipelineResult}
use red_forge.Runtime.Pipeline.Approval.{contribution}
use red_forge.Runtime.Pipeline.Typed.{Keyed, Behaves, run_keeps}

-- Every value under a state key with a limit is within that limit.
abbrev pub IsLimited : StateLimitPolicy → Context → Type 0
IsLimited p c = Keyed (IsWithin p.limits) c.state

-- A run with a `StateLimitPolicy`, of capabilities that only read the state and of which none
-- without an output contract is named like a state key, keeps a context within the limits: where no
-- collection is larger than the limit of its key before the run, none is after it, whatever the
-- capabilities return.
pub run-IsLimited :
    (p : Pipeline) (c : Context) (clock : Clock) (limits : StateLimitPolicy) (sink : Sink)
    (res : PipelineResult)
    → All (Behaves p.output_contracts) p.entries
    → IsLimited limits c
    → run p c (some (policy clock limits)) sink ≡ returns res
    → IsLimited limits res.context
unfolding policy
run-IsLimited p c clock limits sink res behave before h =
    run_keeps p c (some (policy clock limits)) sink res (IsWithin limits.limits)
      (λ entry a b r ok usable k v.
        check_limits-IsWithin limits.limits (contribution p.output_contracts entry r).explicit k v
          (ok.allowed (policy clock limits) refl usable))
      behave before h
