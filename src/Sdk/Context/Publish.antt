-- ===== src/Sdk/Context/Publish.antt =====
-- What `publish_many` does to the state.
use red_forge.Base.{
  ◌≡◌, refl, Bool, true, false, ◌&&◌, Option, none, some, List, [], ◌∷◌, arith, ◌∙◌, ap, all,
  contains, distinct, if◌then◌else◌, Text, text_order, ◌==◌, Dict, lookup, put, update, lookup-put,
  eq→≡, Bool-cases, Option-cases, sym, inl, inr,
}
use red_forge.Sdk.StateKey
use red_forge.Sdk.StateKey.{
  PipelineStateKey, key_order, value_injective, key_le, from_text, from_text-value,
}
use red_forge.Sdk.Exception.{returns, succeeds, succeeds_unit}
use red_forge.Sdk.Value.{Value, validate_pipeline_state_value}
use red_forge.Sdk.Result.{StatePublication, publication_keys}
use red_forge.Sdk.Context.{Context, validate_all, updates, publish_many}

-- The value that a batch gives to a key.
unfoldable pub published : PipelineStateKey → List StatePublication → Option Value
published k [] = none
published k (p ∷ ps) = if k == p.key then some p.value else published k ps

published-absent :
    (k : PipelineStateKey) (ps : List StatePublication)
    → contains k (publication_keys ps) ≡ false
    → published k ps ≡ none
unfolding published contains
published-absent k [] h = refl
published-absent k (p ∷ ps) h = ground (arith, published-absent k ps)

same_text : (j k : PipelineStateKey) → (StateKey.value j == StateKey.value k) ≡ (j == k)
unfolding key_le
same_text j k = refl

abbrev pub or_else {ℓ} : {A : Type ℓ} → Option A → Option A → Option A
or_else (some v) o = some v
or_else none o = o

published_step :
    (k : PipelineStateKey) (p : StatePublication) (ps : List StatePublication) (o : Option Value)
    → distinct (publication_keys (p ∷ ps)) ≡ true
    → or_else (published k ps) (if k == p.key then some p.value else o)
      ≡ or_else (published k (p ∷ ps)) o
unfolding published distinct
published_step k p ps o d = elim (Bool-cases (k == p.key)) [
  | inl e ↦
      let same = eq→≡ k p.key e in
      let absent : published k ps ≡ none = published-absent k ps (rw same (ground arith)) in
      rw (e, absent)
  | inr e ↦ rw e
]

pub lookup-update :
    (k : PipelineStateKey) (ps : List StatePublication) (d : Dict Text Value)
    → distinct (publication_keys ps) ≡ true
    → lookup (StateKey.value k) (update d (updates ps))
      ≡ or_else (published k ps) (lookup (StateKey.value k) d)
unfolding update
lookup-update k [] d h = unfold published in refl
lookup-update k (p ∷ ps) d h =
    lookup-update k ps (put (StateKey.value p.key) p.value d) (unfold distinct in ground arith)
    ∙ ap (or_else (published k ps)) (
        lookup-put (StateKey.value p.key) (StateKey.value k) p.value d
        ∙ ap (λ b. if b then some p.value else lookup (StateKey.value k) d) (same_text k p.key))
    ∙ published_step k p ps (lookup (StateKey.value k) d) h

pub lookup-update_foreign :
    (t : Text) (ps : List StatePublication) (d : Dict Text Value)
    → from_text t ≡ none
    → lookup t (update d (updates ps)) ≡ lookup t d
unfolding update
lookup-update_foreign t [] d h = refl
lookup-update_foreign t (p ∷ ps) d h =
    lookup-update_foreign t ps (put (StateKey.value p.key) p.value d) h
    ∙ lookup-put (StateKey.value p.key) t p.value d
    ∙ ap (λ b. if b then some p.value else lookup t d) (foreign_text t p.key h)
  where
    foreign_text :
        (s : Text) (k : PipelineStateKey) → from_text s ≡ none → (s == StateKey.value k) ≡ false
    foreign_text s k none_here = elim (Bool-cases (s == StateKey.value k)) [
      | inl e ↦
          let same = eq→≡ s (StateKey.value k) e in
          absurd (cc (from_text-value k, ap from_text same, none_here))
      | inr e ↦ e
    ]

-- Every value of the batch passes the check of its key.
unfoldable pub all_valid : List StatePublication → Bool
unfolding all succeeds
all_valid ps = all (λ p. succeeds (validate_pipeline_state_value p.key p.value)) ps

pub validate_all-all_valid :
    (ps : List StatePublication) → succeeds (validate_all ps) ≡ all_valid ps
unfolding validate_all all_valid
validate_all-all_valid [] = refl
validate_all-all_valid (p ∷ ps) = ground (arith, validate_all-all_valid ps)

-- A batch is published exactly when its keys are distinct and each of its values is valid.
pub publish_many_accepts :
    (ps : List StatePublication) (c : Context)
    → succeeds (publish_many ps c) ≡ (distinct (publication_keys ps) && all_valid ps)
unfolding publish_many succeeds
publish_many_accepts ps c = ground (arith, validate_all-all_valid ps)

pub publish_many_ok :
    (ps : List StatePublication) (c : Context)
    → distinct (publication_keys ps) ≡ true
    → all_valid ps ≡ true
    → publish_many ps c ≡ returns (record c { state = update c.state (updates ps) })
unfolding publish_many succeeds
publish_many_ok ps c d v = ground (arith, validate_all-all_valid ps)

publish_many_parts :
    (ps : List StatePublication) (c c' : Context)
    → publish_many ps c ≡ returns c'
    → (distinct (publication_keys ps) ≡ true)
      × (all_valid ps ≡ true)
      × (c' ≡ record c { state = update c.state (updates ps) })
unfolding publish_many succeeds
publish_many_parts ps c c' h = ground (arith, validate_all-all_valid ps)

-- After a batch is published, a state key has the value that the batch gives it, or else the value
-- that it had; any other string key of the state, and all that is not the state, is unchanged.
pub publish_many_reads :
    (ps : List StatePublication) (c c' : Context) (k : PipelineStateKey) (t : Text)
    → publish_many ps c ≡ returns c'
    → from_text t ≡ none
    → (lookup (StateKey.value k) c'.state
        ≡ or_else (published k ps) (lookup (StateKey.value k) c.state))
      × (lookup t c'.state ≡ lookup t c.state)
      × (c'.target_id ≡ c.target_id)
      × (c'.config ≡ c.config)
      × (c'.metadata ≡ c.metadata)
publish_many_reads ps c c' k t h foreign =
    let (d, v, e) = publish_many_parts ps c c' h in
    (
      ap (λ (x : Context). lookup (StateKey.value k) x.state) e ∙ lookup-update k ps c.state d,
      ap (λ (x : Context). lookup t x.state) e ∙ lookup-update_foreign t ps c.state foreign,
      ap (λ (x : Context). x.target_id) e,
      ap (λ (x : Context). x.config) e,
      ap (λ (x : Context). x.metadata) e,
    )

-- Every value that stands under a state key passes the check of that key.
pub record IsTyped (d : Dict Text Value) : Type 0 where
  pub at_key :
      (k : PipelineStateKey) (v : Value)
      → lookup (StateKey.value k) d ≡ some v
      → validate_pipeline_state_value k v ≡ returns tt

pub published_valid :
    (ps : List StatePublication) (k : PipelineStateKey) (v : Value)
    → all_valid ps ≡ true
    → published k ps ≡ some v
    → validate_pipeline_state_value k v ≡ returns tt
unfolding published all_valid
published_valid [] k v h e = absurd (cc)
published_valid (p ∷ ps) k v h e = elim (Bool-cases (k == p.key)) [
  | inl q ↦
      let same = eq→≡ k p.key q in
      let here : p.value ≡ v = ground arith in
      let valid : succeeds (validate_pipeline_state_value p.key p.value) ≡ true = ground arith in
      cc (same, here, succeeds_unit (validate_pipeline_state_value p.key p.value) valid)
  | inr q ↦ published_valid ps k v (ground arith) (ground arith)
]

-- A batch that is published leaves a typed state typed.
pub publish_many-IsTyped :
    (ps : List StatePublication) (c c' : Context)
    → IsTyped c.state
    → publish_many ps c ≡ returns c'
    → IsTyped c'.state
publish_many-IsTyped ps c c' typed h =
    let (d, v, e) = publish_many_parts ps c c' h in
    record {
      at_key = λ k w found.
          let after : or_else (published k ps) (lookup (StateKey.value k) c.state) ≡ some w =
            sym (
              ap (λ (x : Context). lookup (StateKey.value k) x.state) e
              ∙ lookup-update k ps c.state d)
            ∙ found in
          elim (Option-cases (published k ps)) [
            | inl no_new ↦ typed.at_key k w (ground arith)
            | inr (x, new) ↦ published_valid ps k w v (ground arith)
          ];
    }
