-- ===== src/Tests/RuntimeTests.antt =====
-- Runs of the pipeline, and the theorems about runs at them.
use red_forge.Base.{
  true, ◌≡◌, refl, Option, none, some, [], ◌∷◌, text, text_order, nat_order, lookup, All,
}
use red_forge.Sdk.StateKey.{key_order}
use red_forge.Sdk.Exception.{returns}
use red_forge.Sdk.CapabilityId.{id_order}
use red_forge.Sdk.Context.Publish.{IsTyped}
use red_forge.Runtime.Policy.{ExecutionPolicy, policy, deadline, before_capability}
use red_forge.Runtime.Diagnostics.{reason_order}
use red_forge.Runtime.Pipeline.Run.{run, PipelineResult}
use red_forge.Runtime.Pipeline.History.{IsReport, run-IsReport}
use red_forge.Runtime.Pipeline.State.{AllReadOnly, replay, run-replay}
use red_forge.Runtime.Pipeline.Typed.{Behaves, Keyed, run-IsTyped}
use red_forge.Base.{ℕ, zero, suc, Text}
use red_forge.Sdk.CapabilityId.{is_valid}
use red_forge.Sdk.Exception.{raises, value_error, process_control}
use red_forge.Runtime.Pipeline.{Pipeline, raised, interrupted}
use red_forge.Runtime.Pipeline.Emit.{null_sink, CapabilityExecution, policy_failure}
use red_forge.Runtime.Pipeline.Caught.{policy-OnlyExpires}
use red_forge.Runtime.Pipeline.Returns.{IsTame, run_returns}
use red_forge.Runtime.Pipeline.Limited.{IsLimited, run-IsLimited}
use red_forge.Base.{List, map, ◌++◌, has, length, ◌==◌}
use red_forge.Runtime.Pipeline.{Capability}
use red_forge.Runtime.Registry.{
  Instances, register_instance, register_capabilities, list_names, get_instance,
}
use red_forge.Runtime.Registry.Names.{OneOf, register_capabilities_in_order}
use red_forge.Base.{false}
use red_forge.Sdk.StateKey
use red_forge.Sdk.Exception.{Attempt, succeeds}
use red_forge.Sdk.Definition.{typed}
use red_forge.Runtime.Pipeline.{add}
use red_forge.Tests.Samples.{id_of, building}
use red_forge.Tests.Samples.{constantly}
use red_forge.Tests.Samples.{no_result}
use red_forge.Tests.Samples.{
  target_context, four_steps, four_entries, contracts, limits, ticking, entry_of, returned, runtime,
  host_value,
}

abbrev limited : Option ExecutionPolicy
limited = some (policy ticking limits)

unfoldable free_result : PipelineResult
unfolding runtime
free_result = returned no_result (run four_steps target_context none null_sink)

unfoldable limited_result : PipelineResult
unfolding runtime
limited_result = returned no_result (run four_steps target_context limited null_sink)

free_run : run four_steps target_context none null_sink ≡ returns free_result
unfolding runtime free_result
free_run = refl

limited-run : run four_steps target_context limited null_sink ≡ returns limited_result
unfolding runtime limited_result
limited-run = refl

free_names : free_result.executed_capabilities ≡ text "find" ∷ text "resolve" ∷ text "probe" ∷ []
unfolding runtime free_result
free_names = refl

free_hosts : lookup (text "hosts") free_result.context.state ≡ some host_value
unfolding runtime free_result
free_hosts = refl

empty-IsTyped : IsTyped []
unfolding lookup
empty-IsTyped = record { at_key = λ k v found. absurd (cc) }

four_reads : AllReadOnly four_entries
four_reads = ((λ c. refl), ((λ c. refl), ((λ c. refl), ((λ c. refl), tt))))

four_behave : All (Behaves contracts) four_entries
unfolding runtime
four_behave = (
  ((λ c. refl), λ h. refl),
  (((λ c. refl), λ h. refl), (((λ c. refl), λ h. refl), (((λ c. refl), λ h. refl), tt))),
)

empty-IsLimited : IsLimited limits target_context
unfolding lookup Keyed
empty-IsLimited k v found = absurd (cc)

run-IsReport_example : IsReport four_steps limited_result
run-IsReport_example =
    run-IsReport four_steps target_context limited null_sink limited_result limited-run

run-replay_example :
    free_result.context ≡ replay contracts four_entries free_result.executions target_context
run-replay_example =
    run-replay four_steps target_context none null_sink free_result four_reads free_run

run-IsTyped_example : IsTyped free_result.context.state
run-IsTyped_example =
    run-IsTyped four_steps target_context none null_sink free_result four_behave empty-IsTyped
      free_run

run-IsLimited_example : IsLimited limits limited_result.context
run-IsLimited_example =
    run-IsLimited four_steps target_context ticking limits null_sink limited_result four_behave
      empty-IsLimited limited-run

four_are-IsTame : All IsTame four_entries
unfolding runtime
four_are-IsTame = (
  (refl, λ c. (_, refl)),
  ((refl, λ c. (_, refl)), ((refl, λ c. (_, refl)), ((refl, λ c. (_, refl)), tt))),
)

run_returns_example :
    (res : PipelineResult) × (run four_steps target_context limited null_sink ≡ returns res)
run_returns_example =
    run_returns four_steps target_context limited null_sink four_are-IsTame
      (policy-OnlyExpires ticking limits (λ n. (n, refl))) (λ events. refl)

-- Process control of a capability leaves the run, and so does that of the sink.
abbrev interrupting : Pipeline
interrupting = record {
  entries =
      record {
        capability = record { name = text "find"; execute = λ c. (interrupted, c.state) };
        capability_id = none;
      }
      ∷ [];
  output_contracts = [];
}

interrupt_leaves : run interrupting target_context none null_sink ≡ raises process_control
unfolding runtime
interrupt_leaves = refl

sink_interrupt_leaves :
    run four_steps target_context none (λ events. length events == 2) ≡ raises process_control
unfolding runtime
sink_interrupt_leaves = refl

-- A deadline that has expired before the first capability: the history has an entry for it, and the
-- last result is the one of that entry, although nothing was executed.
abbrev expired : Option ExecutionPolicy
expired = some (policy ticking (record { limits = []; expires_at = some 0 }))

unfoldable expired_result : PipelineResult
unfolding runtime
expired_result = returned no_result (run four_steps target_context expired null_sink)

expired-run : run four_steps target_context expired null_sink ≡ returns expired_result
unfolding runtime expired_result
expired-run = refl

expired_last : expired_result.last_result ≡ some (policy_failure (deadline before_capability))
unfolding runtime expired_result
expired_last = refl

expired_history :
    map (λ (x : CapabilityExecution). x.executed) expired_result.executions ≡ false ∷ []
unfolding runtime expired_result
expired_history = refl

expired_names : expired_result.executed_capabilities ≡ []
unfolding runtime expired_result
expired_names = refl

-- An identity of 513 letters is valid, but a run of it raises.
abbrev letters : ℕ → Text
letters zero = []
letters (suc n) = 97 ∷ letters n

abbrev long_step : Pipeline
long_step = record { entries = entry_of (letters 513) raised ∷ []; output_contracts = [] }

long_is_valid : is_valid (letters 513) ≡ true
unfolding runtime
long_is_valid = refl

long_run_raises :
    run long_step target_context none null_sink
    ≡ raises (value_error (text "diagnostic text is invalid"))
unfolding runtime
long_run_raises = refl

abbrev two_capabilities : List Capability
two_capabilities = constantly (text "find") raised ∷ constantly (text "resolve") raised ∷ []

unfoldable two_instances : Instances
unfolding register_instance register_capabilities runtime has
two_instances = returned [] (register_capabilities two_capabilities [])

two_register : register_capabilities two_capabilities [] ≡ returns two_instances
unfolding register_instance register_capabilities runtime two_instances has
two_register = refl

register_capabilities_in_order_example :
    (list_names two_instances ≡ list_names [] ++ map (λ (c : Capability). c.name) two_capabilities)
    × ((c : Capability) → OneOf c two_capabilities → get_instance c.name two_instances ≡ returns c)
register_capabilities_in_order_example =
    register_capabilities_in_order two_capabilities [] two_instances two_register

-- A refused duplicate leaves its contract behind.
abbrev one_entry : Pipeline
one_entry = record {
  entries = record { capability = constantly (text "crawl") raised; capability_id = none } ∷ [];
  output_contracts = [];
}

abbrev refused : Attempt (Unit {0}) × Pipeline
refused =
    add (constantly (text "crawl") raised) (some (typed (id_of (text "crawl"))))
      (some (StateKey.endpoints ∷ [])) one_entry

refused_duplicate : succeeds refused.0 ≡ false
unfolding building
refused_duplicate = refl

refused_contract :
    lookup (id_of (text "crawl")) refused.1.output_contracts ≡ some (StateKey.endpoints ∷ [])
unfolding building
refused_contract = refl
