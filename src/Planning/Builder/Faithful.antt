-- ===== src/Planning/Builder/Faithful.antt =====
-- The pipeline that the builder makes of a plan.
use red_forge.Base.{
  ◌≡◌, refl, sym, ap, ◌∙◌, subst, true, not, none, some, List, [], ◌∷◌, ◌++◌, map, arith,
  Bool-cases, inl, inr, All, All-map, length, distinct, sort, ◌==◌, eq→≡, Text, text_order,
  nat_order, Dict, keys, lookup, append_assoc, append-nil, list_eq, first, subset,
}
use red_forge.Sdk.StateKey.{PipelineStateKey, key_order}
use red_forge.Sdk.Exception.{Attempt, returns, raises, >>=-eq-returns, require->>, traverse}
use red_forge.Sdk.CapabilityId.{CapabilityId, capability_id, id_order}
use red_forge.Sdk.Definition.{typed, normalize_capability_id}
use red_forge.Planning.Registry.{Registry}
use red_forge.Planning.Model.{ExecutionStep, ExecutionPlan, execution_plan, range_from}
use red_forge.Planning.Builder.{check_steps}
use red_forge.Planning.Builder.ContractsOf.{
  as_typed, validated_lookup, ids_of, check_steps_contracts,
}
use red_forge.Planning.Factory.{create, has_factory}
use red_forge.Planning.Builder.{PipelineBuilder, validate, add_all, zip, check_missing, build}
use red_forge.Runtime.Pipeline.{
  Capability, PipelineEntry, Pipeline, pipeline, add, check_identity, validate_output_contracts,
}

-- An entry of the pipeline for a step: the identity is that of the step, and the capability has it
-- as its name.
pub record IsEntryOf (s : ExecutionStep) (e : PipelineEntry) : Type 0 where
  pub identity : e.capability_id ≡ some s.capability_id
  pub named : capability_id e.capability.name ≡ returns s.capability_id

-- One entry for each step, in order.
abbrev pub AreEntriesOf : List ExecutionStep → List PipelineEntry → Type 0
AreEntriesOf [] [] = Unit
AreEntriesOf (s ∷ steps) (e ∷ entries) = IsEntryOf s e × AreEntriesOf steps entries
AreEntriesOf _ _ = ⊥

abbrev entry_for : ExecutionStep → Capability → PipelineEntry
entry_for s c = record { capability = c; capability_id = some s.capability_id }

checked_identity :
    (i : CapabilityId) (name : Text) (o : Attempt CapabilityId)
    → capability_id name ≡ o
    → check_identity (some i) name ≡ returns tt
    → capability_id name ≡ returns i
checked_identity i name (raises e) q h = absurd (ground arith)
checked_identity i name (returns j) q h = elim (Bool-cases (j == i)) [
  | inl same ↦ q ∙ ap returns (eq→≡ j i same)
  | inr other ↦ absurd (ground arith)
]

add_parts :
    (s : ExecutionStep) (c : Capability) (p : Pipeline)
    → (add c (some (typed s.capability_id)) none p).0 ≡ returns tt
    → ((add c (some (typed s.capability_id)) none p).1
        ≡ record p { entries = p.entries ++ entry_for s c ∷ [] })
      × (check_identity (some s.capability_id) c.name ≡ returns tt)
unfolding add normalize_capability_id
add_parts s c p h = ground arith

add_all-AreEntriesOf :
    (steps : List ExecutionStep) (capabilities : List Capability) (p built : Pipeline)
    → length capabilities ≡ length steps
    → add_all (zip steps capabilities) p ≡ returns built
    → (entries : List PipelineEntry) × (built ≡ record p { entries = p.entries ++ entries })
      × AreEntriesOf steps entries
unfolding add_all
add_all-AreEntriesOf [] [] p built same h = ([], ground (arith, append-nil p.entries), tt)
add_all-AreEntriesOf [] (c ∷ cs) p built same h = absurd (ground arith)
add_all-AreEntriesOf (s ∷ steps) [] p built same h = absurd (ground arith)
add_all-AreEntriesOf (s ∷ steps) (c ∷ cs) p built same h =
    let (u, added, q) = >>=-eq-returns (add c (some (typed s.capability_id)) none p).0 _ h in
    let (here, checked) = add_parts s c p added in
    let named = checked_identity s.capability_id c.name (capability_id c.name) refl checked in
    let (entries, rest, good) =
      add_all-AreEntriesOf steps cs (add c (some (typed s.capability_id)) none p).1 built
        (ground arith) q in
    (
      entry_for s c ∷ entries,
      rest
          ∙ ap (λ (x : Pipeline). record x { entries = x.entries ++ entries }) here
          ∙ ap (λ l. record p { entries = l })
              (append_assoc p.entries (entry_for s c ∷ []) entries),
      (record { identity = refl; named = named }, good),
    )

length-traverse {ℓ κ} :
    {A : Type ℓ} {B : Type κ} (f : A → Attempt B) (xs : List A) (ys : List B)
    → traverse f xs ≡ returns ys
    → length ys ≡ length xs
unfolding traverse
length-traverse f [] ys h = ground arith
length-traverse f (x ∷ xs) ys h =
    let (y, p, q) = >>=-eq-returns (f x) _ h in
    let (rest, p', q') = >>=-eq-returns (traverse f xs) _ q in
    ground (arith, length-traverse f xs rest p')

-- The pipeline runs the steps of the plan in order, and its contract for each step lists the keys
-- that the step provides.
pub record IsPipelineOf (plan : ExecutionPlan) (built : Pipeline) : Type 0 where
  pub entries : AreEntriesOf plan.steps built.entries
  pub contracts :
      All
        (λ (s : ExecutionStep).
          lookup s.capability_id built.output_contracts ≡ some (sort s.provides))
        plan.steps

no_keys : distinct {A = CapabilityId} [] ≡ true
unfolding distinct
no_keys = refl

validate_contracts :
    (r : Registry) (plan : ExecutionPlan) (contracts : Dict CapabilityId (List PipelineStateKey))
    → validate r plan ≡ returns contracts
    → All (λ (s : ExecutionStep). lookup s.capability_id contracts ≡ some s.provides) plan.steps
      × (distinct (keys contracts) ≡ true)
unfolding validate
validate_contracts r plan contracts h =
    let (x, h0, r0) =
      >>=-eq-returns (execution_plan plan.goals plan.available_state plan.steps) _ h in
    let (h1, r1) =
      require->> (list_eq (map (λ s. s.position) plan.steps) (range_from 0 plan.steps)) _ _ r0 in
    let (h2, r2) = require->> (distinct (ids_of plan.steps)) _ _ r1 in
    let (found, h3, r3) = >>=-eq-returns (check_steps r plan.available_state [] plan.steps) _ r2 in
    let (h4, r4) = require->> (subset plan.goals found.1) _ _ r3 in
    let same : found.0 ≡ contracts = ground arith in
    let (all_steps, once, others) =
      check_steps_contracts r plan.available_state [] plan.steps found.0 found.1 h2 no_keys h3 in
    subst
      (λ (c : Dict CapabilityId (List PipelineStateKey)).
        All (λ (s : ExecutionStep). lookup s.capability_id c ≡ some s.provides) plan.steps
        × (distinct (keys c) ≡ true))
      same (all_steps, once)

pipeline_parts :
    (contracts : Dict CapabilityId (List PipelineStateKey)) (empty : Pipeline)
    → pipeline (some (as_typed contracts)) none ≡ returns empty
    → (empty.entries ≡ [])
      × (validate_output_contracts [] (as_typed contracts) ≡ returns empty.output_contracts)
unfolding pipeline
pipeline_parts contracts empty h =
    let (v, p, q) = >>=-eq-returns (validate_output_contracts [] (as_typed contracts)) _ h in
    (ground arith, p ∙ ground arith)

-- A pipeline that the builder makes of a plan has one capability for each step, in order, with the
-- identity of the step as its name, and gives each of them the contract that the step provides.
pub build-IsPipelineOf :
    (b : PipelineBuilder) (plan : ExecutionPlan) (built : Pipeline)
    → build b plan ≡ returns built
    → IsPipelineOf plan built
unfolding build
build-IsPipelineOf b plan built h =
    let (contracts, h0, r0) = >>=-eq-returns (validate b.definitions plan) _ h in
    let (u, h1, r1) =
      >>=-eq-returns
        (check_missing
          (first (λ s. not (has_factory (typed s.capability_id) b.factories)) plan.steps))
        _ r0 in
    let (cs, h2, r2) =
      >>=-eq-returns (traverse (λ s. create (typed s.capability_id) b.factories) plan.steps) _ r1 in
    let (empty, h3, r3) = >>=-eq-returns (pipeline (some (as_typed contracts)) none) _ r2 in
    let (entries, same, good) =
      add_all-AreEntriesOf plan.steps cs empty built
        (length-traverse (λ s. create (typed s.capability_id) b.factories) plan.steps cs h2) r3 in
    let (no_entries, validated) = pipeline_parts contracts empty h3 in
    let (all_steps, once) = validate_contracts b.definitions plan contracts h0 in
    let found : built.output_contracts ≡ empty.output_contracts =
      ap (λ (x : Pipeline). x.output_contracts) same in
    let are : built.entries ≡ entries =
      ap (λ (x : Pipeline). x.entries) same ∙ ap (λ l. l ++ entries) no_entries in
    record {
      entries = subst (AreEntriesOf plan.steps) (sym are) good;
      contracts =
          All-map _ _ plan.steps
            (λ s e.
              ap (lookup s.capability_id) found
              ∙ validated_lookup [] contracts empty.output_contracts s.capability_id s.provides
                  validated once e)
            all_steps;
    }
