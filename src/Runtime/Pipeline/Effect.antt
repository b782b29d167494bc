-- ===== src/Runtime/Pipeline/Effect.antt =====
-- What one round of the loop of `Pipeline.run` does to the context, for a capability that does not
-- write to the state by itself.
use red_forge.Base.{
  ◌≡◌, refl, ap, ◌∙◌, Bool, true, false, not, Option, none, some, if◌then◌else◌, Bool-cases, inl,
  inr, distinct, Text, text_order, update, Dict,
}
use red_forge.Sdk.StateKey.{key_order}
use red_forge.Sdk.Exception.{
  execution_deadline_exceeded, Attempt, returns, raises, >>=-eq-returns, require->>,
  process_control,
}
use red_forge.Sdk.Value.{Value}
use red_forge.Sdk.Result.{publication_keys, Result}
use red_forge.Sdk.Context.{Context, updates}
use red_forge.Sdk.Context.Publish.{all_valid, publish_many_ok}
use red_forge.Runtime.Policy.{Violation, deadline, before_capability, ExecutionPolicy}
use red_forge.Runtime.Pipeline.{
  Capability, is_usable, Normalized, normalize_capability_result, PipelineEntry, Contracts, Outcome,
  interrupted, finished,
}
use red_forge.Runtime.Pipeline.Emit.{Run, policy_failure, diagnostic_id, emit_capability_started}
use red_forge.Runtime.Pipeline.Run.{
  declared_outputs, judge, police, record_execution, write_legacy, after_publish, settle, invoke,
  escapes, after_execute, skip, after_check, first_check, round,
}
use red_forge.Runtime.Pipeline.Quiet.{
  finish_round-SameButEvents, emit_capability_started-SameButEvents,
}
use red_forge.Runtime.Pipeline.Approval.{
  contribution, normalize_distinct, judge_usable, IsApproved, police_usable,
}

-- The capability leaves the state that it is given as it is.
abbrev pub ReadsOnly : Capability → Type 0
ReadsOnly capability = (c : Context) → (capability.execute c).1 ≡ c.state

-- The context after the publications of a normalized result.
abbrev pub published_context : Normalized → Context → Context
published_context n c =
    write_legacy n.legacy_value (record c { state = update c.state (updates n.explicit) })

-- The context after a recorded result: a result that is not usable changes nothing.
unfoldable pub applied : Contracts → PipelineEntry → Result → Context → Context
applied contracts entry r c =
    if is_usable r.status then published_context (contribution contracts entry r) c else c

-- What a round does, with the result that it reports.
pub record IsApplied (contracts : Contracts) (policy : Option ExecutionPolicy)
    (entry : PipelineEntry) (a b : Run) (r : Result) : Type 0 where
  pub last_result : b.last_result ≡ some r
  pub context : b.context ≡ applied contracts entry r a.context
  pub valid : is_usable r.status ≡ true → all_valid (contribution contracts entry r).explicit ≡ true
  pub allowed :
      (p : ExecutionPolicy)
      → policy ≡ some p
      → is_usable r.status ≡ true
      → p.validate_publications (contribution contracts entry r).explicit ≡ returns tt

settle_usable :
    (entry : PipelineEntry) (r : Result) (v : Option Violation) (n : Normalized) (a b : Run)
    (g : Bool)
    → is_usable r.status ≡ true
    → distinct (publication_keys n.explicit) ≡ true
    → all_valid n.explicit ≡ true
    → settle entry r v n a ≡ returns (b, g)
    → (b.last_result ≡ some r) × (b.context ≡ published_context n a.context)
unfolding settle after_publish record_execution
settle_usable entry r v n a b g usable d valid h =
    let (same, on) =
      finish_round-SameButEvents entry r v _ b g
        (rw (usable, publish_many_ok n.explicit a.context d valid) at h) in
    (same.last_result, same.context)

settle_stops :
    (entry : PipelineEntry) (r : Result) (v : Option Violation) (n : Normalized) (a b : Run)
    (g : Bool)
    → is_usable r.status ≡ false
    → settle entry r v n a ≡ returns (b, g)
    → (b.last_result ≡ some r) × (b.context ≡ a.context)
unfolding settle record_execution
settle_stops entry r v n a b g stops h =
    let (same, on) = finish_round-SameButEvents entry r v _ b g (rw stops at h) in
    (same.last_result, same.context)

contribution_eq :
    (contracts : Contracts) (entry : PipelineEntry) (r : Result) (n : Normalized)
    → normalize_capability_result entry.capability.name r (declared_outputs contracts entry)
      ≡ returns n
    → contribution contracts entry r ≡ n
unfolding contribution
contribution_eq contracts entry r n h = rw (h, contribution)

stopped :
    (contracts : Contracts) (policy : Option ExecutionPolicy) (entry : PipelineEntry) (a b : Run)
    (r : Result)
    → is_usable r.status ≡ false
    → b.last_result ≡ some r
    → b.context ≡ a.context
    → IsApplied contracts policy entry a b r
unfolding applied
stopped contracts policy entry a b r stops l c = record {
  last_result = l;
  context = rw stops c;
  valid = λ usable. absurd (cc);
  allowed = λ p e usable. absurd (cc);
}

module _ (contracts : Contracts) (policy : Option ExecutionPolicy) (entry : PipelineEntry) where
  settle-IsApplied :
      (r r' : Result) (v : Option Violation) (n : Normalized) (a b : Run) (g : Bool)
      → (is_usable r.status ≡ true
          → normalize_capability_result entry.capability.name r (declared_outputs contracts entry)
            ≡ returns n)
      → (is_usable r'.status ≡ true → IsApproved policy n r r' × (is_usable r.status ≡ true))
      → settle entry r' v n a ≡ returns (b, g)
      → IsApplied contracts policy entry a b r'
  unfolding applied
  settle-IsApplied r r' v n a b g judged policed h = elim (Bool-cases (is_usable r'.status)) [
    | inr stops ↦
        let (l, c) = settle_stops entry r' v n a b g stops h in
        stopped contracts policy entry a b r' stops l c
    | inl usable ↦
        let (approved, u) = policed usable in
        let normal = judged u in
        let name = entry.capability.name in
        let d = normalize_distinct name r (declared_outputs contracts entry) n normal in
        let (l, c) = settle_usable entry r' v n a b g usable d approved.valid h in
        let gives : contribution contracts entry r' ≡ n =
          ap (contribution contracts entry) approved.same
          ∙ contribution_eq contracts entry r n normal in
        record {
          last_result = l;
          context = rw (usable, gives) c;
          valid = λ _. rw gives approved.valid;
          allowed = λ p e _. rw gives (approved.allowed p e);
        }
  ]

  -- The state that a capability hands back is the one that it was given.
  same_state :
      (a : Run) (state : Dict Text Value)
      → state ≡ a.context.state
      → record a.context { state = state } ≡ a.context
  same_state a state e = ap (λ s. record a.context { state = s }) e

  after_execute-IsApplied :
      (a b : Run) (g : Bool) (outcome : Outcome)
      → after_execute contracts policy entry a outcome ≡ returns (b, g)
      → (r : Result) × IsApplied contracts policy entry a b r
  unfolding after_execute
  after_execute-IsApplied a b g interrupted h = absurd (cc)
  after_execute-IsApplied a b g (finished candidate) h =
      let name = entry.capability.name in
      let declared = declared_outputs contracts entry in
      let (judged, n) = judge name declared candidate in
      let (r, v, checks) = police policy a.deadline_checks name judged n in
      let (_, h') =
        require->> (not (escapes policy a.deadline_checks judged n)) process_control _ h in
      let ok =
        settle-IsApplied judged r v n (record a { deadline_checks = checks }) b g
          (judge_usable name declared candidate)
          (police_usable policy a.deadline_checks name judged n) h' in
      (
        r,
        record {
          last_result = ok.last_result;
          context = ok.context;
          valid = ok.valid;
          allowed = ok.allowed;
        },
      )

  invoke-IsApplied :
      (a b : Run) (g : Bool)
      → ReadsOnly entry.capability
      → invoke contracts policy entry a ≡ returns (b, g)
      → (r : Result) × IsApplied contracts policy entry a b r
  unfolding invoke
  invoke-IsApplied a b g reads h =
      let (outcome, state) = entry.capability.execute a.context in
      let (r, ok) =
        after_execute-IsApplied (record a { context = record a.context { state = state } }) b g
          outcome h in
      (
        r,
        record {
          last_result = ok.last_result;
          context =
              ok.context ∙ ap (applied contracts entry r) (same_state a state (reads a.context));
          valid = ok.valid;
          allowed = ok.allowed;
        },
      )

  skip-IsApplied :
      (a b : Run) (g : Bool)
      → skip entry a ≡ returns (b, g)
      → (r : Result) × IsApplied contracts policy entry a b r
  unfolding skip record_execution
  skip-IsApplied a b g h =
      let (same, on) =
        finish_round-SameButEvents entry _ (some (deadline before_capability)) _ b g h in
      (
        policy_failure (deadline before_capability),
        stopped contracts policy entry a b _ (unfold policy_failure in refl) same.last_result
            same.context,
      )

after_check-IsApplied :
    (contracts : Contracts) (p : ExecutionPolicy) (entry : PipelineEntry) (a b : Run) (g : Bool)
    (outcome : Attempt (Unit {0}))
    → ReadsOnly entry.capability
    → after_check contracts p entry a outcome ≡ returns (b, g)
    → (r : Result) × IsApplied contracts (some p) entry a b r
unfolding after_check
after_check-IsApplied contracts p entry a b g (returns _) reads h =
    invoke-IsApplied contracts (some p) entry a b g reads h
after_check-IsApplied contracts p entry a b g (raises execution_deadline_exceeded) reads h =
    skip-IsApplied contracts (some p) entry a b g h
after_check-IsApplied contracts p entry a b g (raises e) reads h = absurd (cc)

first_check-IsApplied :
    (contracts : Contracts) (policy : Option ExecutionPolicy) (entry : PipelineEntry) (a b : Run)
    (g : Bool)
    → ReadsOnly entry.capability
    → first_check contracts policy entry a ≡ returns (b, g)
    → (r : Result) × IsApplied contracts policy entry a b r
unfolding first_check
first_check-IsApplied contracts none entry a b g reads h =
    invoke-IsApplied contracts none entry a b g reads h
first_check-IsApplied contracts (some p) entry a b g reads h =
    let (r, ok) = after_check-IsApplied contracts p entry _ b g _ reads h in
    (
      r,
      record {
        last_result = ok.last_result;
        context = ok.context;
        valid = ok.valid;
        allowed = ok.allowed;
      },
    )

-- A round that returns applies the result that it reports.
pub round-IsApplied :
    (contracts : Contracts) (policy : Option ExecutionPolicy) (entry : PipelineEntry) (a b : Run)
    (g : Bool)
    → ReadsOnly entry.capability
    → round contracts policy entry a ≡ returns (b, g)
    → (r : Result) × IsApplied contracts policy entry a b r
unfolding round
round-IsApplied contracts policy entry a b g reads h =
    let (started, p, q) = >>=-eq-returns (emit_capability_started (diagnostic_id entry) a) _ h in
    let same = emit_capability_started-SameButEvents (diagnostic_id entry) a started p in
    let (r, ok) = first_check-IsApplied contracts policy entry started b g reads q in
    (
      r,
      record {
        last_result = ok.last_result;
        context = ok.context ∙ ap (applied contracts entry r) same.context;
        valid = ok.valid;
        allowed = ok.allowed;
      },
    )
