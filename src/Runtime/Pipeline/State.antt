-- ===== src/Runtime/Pipeline/State.antt =====
-- The state that a run leaves: it is determined by the history, and it stays typed and within the
-- limits of the policy.
use red_forge.Base.{
  ◌≡◌, refl, sym, ap, ◌∙◌, subst, Option, List, [], ◌∷◌, ◌++◌, arith, Bool-cases, inl, inr, All,
  append-nil, append_assoc, text_order,
}
use red_forge.Sdk.Exception.{returns, >>=-eq-returns}
use red_forge.Sdk.Result.{Result}
use red_forge.Sdk.Context.{Context}
use red_forge.Runtime.Policy.{ExecutionPolicy}
use red_forge.Runtime.Pipeline.{PipelineEntry, Contracts, Pipeline}
use red_forge.Runtime.Pipeline.Emit.{Sink, CapabilityExecution, Run}
use red_forge.Runtime.Pipeline.Run.{round, run_entries, run, PipelineResult, initial_run}
use red_forge.Runtime.Pipeline.Round.{round-IsRound}
use red_forge.Runtime.Pipeline.Effect.{ReadsOnly, applied, IsApplied, round-IsApplied}

-- The rule for invariants of the context: it holds after a run if each round keeps it.
module _ (contracts : Contracts) (policy : Option ExecutionPolicy) (P : Context → Type 0)
    (Q : PipelineEntry → Type 0)
    (step : (entry : PipelineEntry) (a b : Run) (r : Result)
      → Q entry
      → IsApplied contracts policy entry a b r
      → P a.context
      → P b.context)
    (reads : (entry : PipelineEntry) → Q entry → ReadsOnly entry.capability) where
  pub run_entries_keeps :
      (entries : List PipelineEntry) (a b : Run)
      → All Q entries
      → P a.context
      → run_entries contracts policy entries a ≡ returns b
      → P b.context
  unfolding run_entries
  run_entries_keeps [] a b qs p h =
      let e : a ≡ b = ground arith in subst (λ (x : Run). P x.context) e p
  run_entries_keeps (entry ∷ entries) a b qs p h =
      let ((a', g), e, rest) = >>=-eq-returns (round contracts policy entry a) _ h in
      let (r, ok) = round-IsApplied contracts policy entry a a' g (reads entry qs.0) e in
      let p' = step entry a a' r qs.0 ok p in
      elim (Bool-cases g) [
        | inl on ↦ run_entries_keeps entries a' b qs.1 p' (rw on at rest)
        | inr off ↦
            let ends : returns a' ≡ returns b = rw off at rest in
            let same : a' ≡ b = ground arith in subst (λ (x : Run). P x.context) same p'
      ]

-- The context that a history makes of the initial one.
unfoldable pub replay :
    Contracts → List PipelineEntry → List CapabilityExecution → Context → Context
replay contracts (entry ∷ entries) (x ∷ xs) c =
    replay contracts entries xs (applied contracts entry x.result c)
replay contracts _ _ c = c

replay_nil :
    (contracts : Contracts) (entries : List PipelineEntry) (c : Context)
    → replay contracts entries [] c ≡ c
unfolding replay
replay_nil contracts [] c = refl
replay_nil contracts (entry ∷ entries) c = refl

abbrev pub AllReadOnly : List PipelineEntry → Type 0
AllReadOnly entries = All (λ (e : PipelineEntry). ReadsOnly e.capability) entries

run_entries-replay :
    (contracts : Contracts) (policy : Option ExecutionPolicy) (entries : List PipelineEntry)
    (a b : Run)
    → AllReadOnly entries
    → run_entries contracts policy entries a ≡ returns b
    → (xs : List CapabilityExecution) × (b.executions ≡ a.executions ++ xs)
      × (b.context ≡ replay contracts entries xs a.context)
unfolding run_entries replay
run_entries-replay contracts policy [] a b reads h =
    ([], ground (arith, append-nil a.executions), ground arith)
run_entries-replay contracts policy (entry ∷ entries) a b reads h =
    let ((a', g), e, rest) = >>=-eq-returns (round contracts policy entry a) _ h in
    let (r, ok) = round-IsApplied contracts policy entry a a' g reads.0 e in
    let (x, added) = round-IsRound contracts policy entry a a' g e in
    let same : r ≡ x.result = cc (ok.last_result, added.last_result) in
    let here : a'.context ≡ applied contracts entry x.result a.context =
      ok.context ∙ ap (λ s. applied contracts entry s a.context) same in
    elim (Bool-cases g) [
      | inl on ↦
          let (ys, es, cs) =
            run_entries-replay contracts policy entries a' b reads.1 (rw on at rest) in
          (
            x ∷ ys,
            es ∙ ap (λ l. l ++ ys) added.executions ∙ append_assoc a.executions (x ∷ []) ys,
            cs ∙ ap (replay contracts entries ys) here,
          )
      | inr off ↦
          let ends : returns a' ≡ returns b = rw off at rest in
          let same : b ≡ a' = ground arith in
          (
            x ∷ [],
            ground (arith, added.executions),
            ap (λ (y : Run). y.context) same
                ∙ here
                ∙ sym (replay_nil contracts entries (applied contracts entry x.result a.context)),
          )
    ]

-- The context that a run leaves is determined by the initial one and the reported executions: each
-- usable result gives its publications, or the value of a capability without a contract, and every
-- other result gives nothing. This holds for capabilities that do not write to the state by
-- themselves.
pub run-replay :
    (p : Pipeline) (c : Context) (policy : Option ExecutionPolicy) (sink : Sink)
    (res : PipelineResult)
    → AllReadOnly p.entries
    → run p c policy sink ≡ returns res
    → res.context ≡ replay p.output_contracts p.entries res.executions c
unfolding run
run-replay p c policy sink res reads h =
    let (final, q, e) =
      >>=-eq-returns (run_entries p.output_contracts policy p.entries (initial_run sink c)) _ h in
    let (xs, same, replayed) =
      run_entries-replay p.output_contracts policy p.entries (initial_run sink c) final reads q in
    let executions : res.executions ≡ xs = ground (arith, same) in
    let context : res.context ≡ final.context = ground arith in
    context ∙ replayed ∙ ap (λ ys. replay p.output_contracts p.entries ys c) (sym executions)
