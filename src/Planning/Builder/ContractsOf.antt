-- ===== src/Planning/Builder/ContractsOf.antt =====
-- The output contracts that the builder gives to the pipeline.
use red_forge.Base.{
  ◌≡◌, refl, sym, ap, ◌∙◌, true, false, not, ◌&&◌, some, List, [], ◌∷◌, ◌++◌, map, arith,
  Bool-cases, inl, inr, All, contains, distinct, sort, ◌==◌, eq→≡, eq_refl, text, text_order,
  nat_order, Dict, keys, lookup, put, has, lookup-put, distinct-keys-put, list_eq, list_eq→≡,
  subset, and-true,
}
use red_forge.Sdk.StateKey.{PipelineStateKey, key_order}
use red_forge.Sdk.Exception.{returns, >>=-eq-returns, require->>}
use red_forge.Sdk.CapabilityId.{CapabilityId, id_order}
use red_forge.Sdk.Definition.{CapabilityDefinition, Identity, typed, is_empty}
use red_forge.Planning.Registry.{Registry, require_definition}
use red_forge.Planning.Model.{ExecutionStep}
use red_forge.Planning.Builder.{check_step, check_steps, mismatch, or_mismatch}
use red_forge.Runtime.Pipeline.{Contracts, validate_output_contracts}

abbrev pub as_typed :
    Dict CapabilityId (List PipelineStateKey) → Dict Identity (List PipelineStateKey)
as_typed contracts = map (λ e. (typed e.0, e.1)) contracts

validate_step :
    (acc : Contracts) (i : CapabilityId) (ks : List PipelineStateKey)
    (rest : Dict Identity (List PipelineStateKey)) (v : Contracts)
    → validate_output_contracts acc ((typed i, ks) ∷ rest) ≡ returns v
    → validate_output_contracts (put i (sort ks) acc) rest ≡ returns v
unfolding validate_output_contracts
validate_step acc i ks rest v h =
    let (a, q) = require->> (not (is_empty ks)) _ _ h in
    let (b, q') = require->> (distinct ks) _ _ q in q'

validated_absent :
    (acc : Contracts) (contracts : Dict CapabilityId (List PipelineStateKey)) (v : Contracts)
    (i : CapabilityId)
    → validate_output_contracts acc (as_typed contracts) ≡ returns v
    → has i contracts ≡ false
    → lookup i v ≡ lookup i acc
unfolding has contains
validated_absent acc [] v i h absent =
    let same : acc ≡ v = unfold validate_output_contracts in ground arith in
    ap (lookup i) (sym same)
validated_absent acc ((j, ks) ∷ rest) v i h absent =
    validated_absent (put j (sort ks) acc) rest v i (validate_step acc j ks (as_typed rest) v h)
      (ground arith)
    ∙ lookup-put j i (sort ks) acc
    ∙ let other : (i == j) ≡ false = ground arith in rw other refl

-- A validated contract lists the keys that were configured for it, in order.
pub validated_lookup :
    (acc : Contracts) (contracts : Dict CapabilityId (List PipelineStateKey)) (v : Contracts)
    (i : CapabilityId) (ks : List PipelineStateKey)
    → validate_output_contracts acc (as_typed contracts) ≡ returns v
    → distinct (keys contracts) ≡ true
    → lookup i contracts ≡ some ks
    → lookup i v ≡ some (sort ks)
unfolding lookup distinct
validated_lookup acc [] v i ks h once found = absurd (cc)
validated_lookup acc ((j, js) ∷ rest) v i ks h once found =
    let next = validate_step acc j js (as_typed rest) v h in
    elim (Bool-cases (i == j)) [
      | inl e ↦
          let same = eq→≡ i j e in
          let absent : contains j (keys rest) ≡ false = ground arith in
          let it : js ≡ ks = ground arith in
          ap (λ k. lookup k v) same
          ∙ validated_absent (put j (sort js) acc) rest v j next (unfold has in absent)
          ∙ lookup-put j j (sort js) acc
          ∙ rw (eq_refl j) (ap (λ l. some (sort l)) it)
      | inr e ↦
          validated_lookup (put j (sort js) acc) rest v i ks next (ground arith) (ground arith)
    ]

abbrev pub ids_of : List ExecutionStep → List CapabilityId
ids_of steps = map (λ (s : ExecutionStep). s.capability_id) steps

check_step_provides :
    (r : Registry) (available : List PipelineStateKey) (s : ExecutionStep)
    (d : CapabilityDefinition)
    → check_step r available s ≡ returns d
    → d.provides ≡ s.provides
unfolding check_step
check_step_provides r available s d h =
    let (x, p, q) =
      >>=-eq-returns
        (or_mismatch (mismatch s (text "planning definition"))
          (require_definition (typed s.capability_id) r))
        _ h in
    let (both, q') =
      require->> (list_eq s.requires x.requires && list_eq s.provides x.provides) _ _ q in
    let (available_now, q'') = require->> (subset x.requires available) _ _ q' in
    let same : x ≡ d = ground arith in
    ap (λ (y : CapabilityDefinition). y.provides) (sym same)
    ∙ sym (list_eq→≡ s.provides x.provides (and-true both).1)

-- The contracts of the builder give each step the keys that it provides.
pub check_steps_contracts :
    (r : Registry) (available : List PipelineStateKey)
    (contracts : Dict CapabilityId (List PipelineStateKey)) (steps : List ExecutionStep)
    (contracts' : Dict CapabilityId (List PipelineStateKey)) (available' : List PipelineStateKey)
    → distinct (ids_of steps) ≡ true
    → distinct (keys contracts) ≡ true
    → check_steps r available contracts steps ≡ returns (contracts', available')
    → All (λ (s : ExecutionStep). lookup s.capability_id contracts' ≡ some s.provides) steps
      × (distinct (keys contracts') ≡ true)
      × ((i : CapabilityId)
          → contains i (ids_of steps) ≡ false
          → lookup i contracts' ≡ lookup i contracts)
unfolding check_steps distinct contains
check_steps_contracts r available contracts [] contracts' available' ids once h =
    let same : contracts ≡ contracts' = ground arith in
    (tt, ap (λ c. distinct (keys c)) (sym same) ∙ once, λ i absent. ap (lookup i) (sym same))
check_steps_contracts r available contracts (s ∷ steps) contracts' available' ids once h =
    let (d, p, q) = >>=-eq-returns (check_step r available s) _ h in
    let provides = check_step_provides r available s d p in
    let (all_steps, once', others) =
      check_steps_contracts r (available ++ d.provides) (put s.capability_id d.provides contracts)
        steps contracts' available' (ground arith)
        (distinct-keys-put s.capability_id d.provides contracts once) q in
    let fresh : contains s.capability_id (ids_of steps) ≡ false = ground arith in
    (
      (
        others s.capability_id fresh
            ∙ lookup-put s.capability_id s.capability_id d.provides contracts
            ∙ rw (eq_refl s.capability_id) (ap some provides),
        all_steps,
      ),
      once',
      λ i absent.
          others i (ground arith)
          ∙ lookup-put s.capability_id i d.provides contracts
          ∙ let other : (i == s.capability_id) ≡ false = ground arith in rw other refl,
    )
