-- ===== src/Runtime/Pipeline/Typed.antt =====
-- A run keeps the state typed and within the limits of its policy.
use red_forge.Base.{
  ◌≡◌, refl, sym, ap, ◌∙◌, subst, true, false, Option, none, some, List, [], ◌∷◌, arith,
  if◌then◌else◌, Bool-cases, Option-cases, inl, inr, All, distinct, Text, text_order, Dict, lookup,
  lookup-put, eq→≡, ◌==◌, ◌⊎◌,
}
use red_forge.Sdk.StateKey
use red_forge.Sdk.StateKey.{PipelineStateKey, key_order, from_text, from_text-value}
use red_forge.Sdk.Exception.{Attempt, returns, raises, >>=-eq-returns}
use red_forge.Sdk.Value.{Value, validate_pipeline_state_value}
use red_forge.Sdk.Result.{Result, publication_keys}
use red_forge.Sdk.Context.{Context}
use red_forge.Sdk.Context.Publish.{IsTyped, published, published_valid, lookup-update, or_else}
use red_forge.Runtime.Policy.{ExecutionPolicy}
use red_forge.Runtime.Pipeline.{
  is_usable, Normalized, no_publications, PipelineEntry, Contracts, Pipeline,
  normalize_capability_result,
}
use red_forge.Runtime.Pipeline.Emit.{Sink, Run}
use red_forge.Runtime.Pipeline.Run.{
  declared_outputs, run_entries, run, PipelineResult, initial_run, write_legacy,
}
use red_forge.Runtime.Pipeline.Approval.{normalize_distinct, distinct-none}
use red_forge.Runtime.Pipeline.Approval.{contribution}
use red_forge.Runtime.Pipeline.Effect.{ReadsOnly, published_context, applied, IsApplied}
use red_forge.Runtime.Pipeline.State.{run_entries_keeps}

-- A value that a legacy capability writes goes under the name of a capability without a contract.
legacy_key :
    (name : Text) (r : Result) (declared : Option (List PipelineStateKey)) (n : Normalized)
    (key : Text) (v : Value)
    → normalize_capability_result name r declared ≡ returns n
    → n.legacy_value ≡ some (key, v)
    → (key ≡ name) × (declared ≡ none)
unfolding normalize_capability_result
legacy_key name r none n key v h e = ground arith
legacy_key name r (some []) n key v h e = ground arith
legacy_key name r (some (k ∷ [])) n key v h e = ground arith
legacy_key name r (some (k ∷ j ∷ ks)) n key v h e = ground arith

abbrev normalization : Contracts → PipelineEntry → Result → Attempt Normalized
normalization contracts entry r =
    normalize_capability_result entry.capability.name r (declared_outputs contracts entry)

contribution_cases :
    (contracts : Contracts) (entry : PipelineEntry) (r : Result)
    → (normalization contracts entry r ≡ returns (contribution contracts entry r))
      ⊎ (contribution contracts entry r ≡ no_publications)
unfolding contribution
contribution_cases contracts entry r = by_outcome (normalization contracts entry r) refl
  where
    by_outcome :
        (o : Attempt Normalized)
        → normalization contracts entry r ≡ o
        → (normalization contracts entry r ≡ returns (contribution contracts entry r))
          ⊎ (contribution contracts entry r ≡ no_publications)
    by_outcome (returns n) e = inl (ground arith)
    by_outcome (raises x) e = inr (ground arith)

contribution-distinct :
    (contracts : Contracts) (entry : PipelineEntry) (r : Result)
    → distinct (publication_keys (contribution contracts entry r).explicit) ≡ true
contribution-distinct contracts entry r = elim (contribution_cases contracts entry r) [
  | inl e ↦ normalize_distinct entry.capability.name r (declared_outputs contracts entry) _ e
  | inr e ↦ rw e distinct-none
]

-- A legacy capability that is not named like a state key.
abbrev pub IsForeign : Contracts → PipelineEntry → Type 0
IsForeign contracts entry =
    declared_outputs contracts entry ≡ none → from_text entry.capability.name ≡ none

foreign_key :
    (contracts : Contracts) (entry : PipelineEntry) (r : Result) (key : Text) (v : Value)
    → IsForeign contracts entry
    → (contribution contracts entry r).legacy_value ≡ some (key, v)
    → from_text key ≡ none
foreign_key contracts entry r key v foreign h = elim (contribution_cases contracts entry r) [
  | inl e ↦
      let (same, undeclared) =
        legacy_key entry.capability.name r (declared_outputs contracts entry) _ key v e h in
      rw same (foreign undeclared)
  | inr e ↦ absurd (cc (e, h))
]

foreign_text :
    (k : PipelineStateKey) (s : Text) → from_text s ≡ none → (StateKey.value k == s) ≡ false
foreign_text k s none_here = elim (Bool-cases (StateKey.value k == s)) [
  | inl e ↦
      let same = eq→≡ (StateKey.value k) s e in
      absurd (cc (from_text-value k, ap from_text same, none_here))
  | inr e ↦ e
]

lookup-write_legacy :
    (o : Option (Text × Value)) (c : Context) (k : PipelineStateKey)
    → ((key : Text) (v : Value) → o ≡ some (key, v) → from_text key ≡ none)
    → lookup (StateKey.value k) (write_legacy o c).state ≡ lookup (StateKey.value k) c.state
lookup-write_legacy none c k foreign = refl
lookup-write_legacy (some (key, v)) c k foreign =
    lookup-put key (StateKey.value k) v c.state
    ∙ ap (λ b. if b then some v else lookup (StateKey.value k) c.state)
        (foreign_text k key (foreign key v refl))

-- Every value under a state key has a property.
unfoldable pub Keyed : (PipelineStateKey → Value → Type 0) → Dict Text Value → Type 0
Keyed R d = (k : PipelineStateKey) (v : Value) → lookup (StateKey.value k) d ≡ some v → R k v

lookup-published_context :
    (n : Normalized) (c : Context) (k : PipelineStateKey)
    → distinct (publication_keys n.explicit) ≡ true
    → ((key : Text) (v : Value) → n.legacy_value ≡ some (key, v) → from_text key ≡ none)
    → lookup (StateKey.value k) (published_context n c).state
      ≡ or_else (published k n.explicit) (lookup (StateKey.value k) c.state)
lookup-published_context n c k d foreign =
    lookup-write_legacy n.legacy_value _ k foreign ∙ lookup-update k n.explicit c.state d

-- A property of the values under the state keys stays when each published value has it.
module _ (R : PipelineStateKey → Value → Type 0) (contracts : Contracts) (entry : PipelineEntry)
    (r : Result) (c : Context) where
  published_context_keeps :
      IsForeign contracts entry
      → ((k : PipelineStateKey) (v : Value)
          → published k (contribution contracts entry r).explicit ≡ some v
          → R k v)
      → Keyed R c.state
      → Keyed R (published_context (contribution contracts entry r) c).state
  unfolding Keyed
  published_context_keeps foreign new old k v found =
      let n = contribution contracts entry r in
      let e =
        lookup-published_context n c k (contribution-distinct contracts entry r)
          (λ key w h. foreign_key contracts entry r key w foreign h) in
      let after : or_else (published k n.explicit) (lookup (StateKey.value k) c.state) ≡ some v =
        sym e ∙ found in
      elim (Option-cases (published k n.explicit)) [
        | inl none_new ↦ old k v (ground arith)
        | inr (w, some_new) ↦ new k v (ground arith)
      ]

  applied_keeps :
      IsForeign contracts entry
      → (is_usable r.status ≡ true
          → (k : PipelineStateKey) (v : Value)
          → published k (contribution contracts entry r).explicit ≡ some v
          → R k v)
      → Keyed R c.state
      → Keyed R (applied contracts entry r c).state
  unfolding applied
  applied_keeps foreign new old = elim (Bool-cases (is_usable r.status)) [
    | inl usable ↦ rw usable (published_context_keeps foreign (new usable) old)
    | inr stops ↦ rw stops old
  ]

-- A capability that does not write to the state by itself, nor under a state key by its name.
abbrev pub Behaves : Contracts → PipelineEntry → Type 0
Behaves contracts entry = ReadsOnly entry.capability × IsForeign contracts entry

module _ (p : Pipeline) (c : Context) (policy : Option ExecutionPolicy) (sink : Sink)
    (res : PipelineResult) (R : PipelineStateKey → Value → Type 0) where
  pub run_keeps :
      ((entry : PipelineEntry) (a b : Run) (r : Result)
        → IsApplied p.output_contracts policy entry a b r
        → is_usable r.status ≡ true
        → (k : PipelineStateKey) (v : Value)
        → published k (contribution p.output_contracts entry r).explicit ≡ some v
        → R k v)
      → All (Behaves p.output_contracts) p.entries
      → Keyed R c.state
      → run p c policy sink ≡ returns res
      → Keyed R res.context.state
  unfolding run
  run_keeps new behave old h =
      let (final, q, e) =
        >>=-eq-returns (run_entries p.output_contracts policy p.entries (initial_run sink c)) _ h in
      let same : final.context ≡ res.context = ground arith in
      let kept =
        run_entries_keeps p.output_contracts policy (λ x. Keyed R x.state)
          (Behaves p.output_contracts)
          (λ entry a b r good ok before.
            subst (λ (x : Context). Keyed R x.state) (sym ok.context)
              (applied_keeps R p.output_contracts entry r a.context good.1 (new entry a b r ok)
                before))
          (λ entry good. good.0) p.entries (initial_run sink c) final behave old q in
      subst (λ (x : Context). Keyed R x.state) same kept

-- A run of capabilities that only read the state, and of which none without an output contract is
-- named like a state key, leaves a typed state typed: every value under a state key passes the
-- check of its key, whatever the capabilities return.
pub run-IsTyped :
    (p : Pipeline) (c : Context) (policy : Option ExecutionPolicy) (sink : Sink)
    (res : PipelineResult)
    → All (Behaves p.output_contracts) p.entries
    → IsTyped c.state
    → run p c policy sink ≡ returns res
    → IsTyped res.context.state
unfolding Keyed
run-IsTyped p c policy sink res behave typed h = record {
  at_key =
      run_keeps p c policy sink res (λ k v. validate_pipeline_state_value k v ≡ returns tt)
        (λ entry a b r ok usable k v.
          published_valid (contribution p.output_contracts entry r).explicit k v (ok.valid usable))
        behave typed.at_key h;
}
