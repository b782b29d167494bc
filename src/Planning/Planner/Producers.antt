-- ===== src/Planning/Planner/Producers.antt =====
-- The producers that the planner chooses are registered.
use red_forge.Base.{
  ◌≡◌, ap, ◌∙◌, subst, Bool, true, some, List, [], ◌∷◌, arith, Bool-cases, Option-cases, inl, inr,
  All, keep, contains, Text, lookup,
}
use red_forge.Sdk.StateKey.{PipelineStateKey, key_order}
use red_forge.Sdk.Exception.{returns}
use red_forge.Sdk.CapabilityId.{CapabilityId, id_order}
use red_forge.Sdk.Definition.{CapabilityDefinition}
use red_forge.Planning.Registry.{Registry, definitions_at, all_definitions, producers_for, ids}
use red_forge.Planning.Registry.Queries.{IsRegistry}
use red_forge.Planning.Planner.{single, producer_for}

-- The registry has the definition under its own identity.
abbrev pub IsRegistered : Registry → CapabilityDefinition → Type 0
IsRegistered r d = lookup d.capability_id r ≡ some d

All-keep {ℓ κ} :
    {A : Type ℓ} (P : A → Type κ) (p : A → Bool) (xs : List A)
    → All P xs
    → All (λ x. P x × (p x ≡ true)) (keep p xs)
unfolding keep
All-keep P p [] h = tt
All-keep P p (x ∷ xs) h = elim (Bool-cases (p x)) [
  | inl e ↦ rw e ((h.0, e), All-keep P p xs h.1)
  | inr e ↦ rw e (All-keep P p xs h.1)
]

definitions_at-IsRegistered :
    (r : Registry) (is : List CapabilityId)
    → IsRegistry r
    → All (IsRegistered r) (definitions_at is r)
unfolding definitions_at
definitions_at-IsRegistered r [] ok = tt
definitions_at-IsRegistered r (i ∷ is) ok = elim (Option-cases (lookup i r)) [
  | inl e ↦ rw e (definitions_at-IsRegistered r is ok)
  | inr (d, e) ↦
      let own = ok.own i d e in
      rw e (ap (λ j. lookup j r) own ∙ e, definitions_at-IsRegistered r is ok)
]

-- What `producers_for` lists is registered and provides the key.
pub producers_for-IsRegistered :
    (r : Registry) (key : PipelineStateKey)
    → IsRegistry r
    → All (λ d. IsRegistered r d × (contains key d.provides ≡ true)) (producers_for key r)
unfolding producers_for all_definitions
producers_for-IsRegistered r key ok =
    All-keep (IsRegistered r) (λ d. contains key d.provides) (all_definitions r)
      (definitions_at-IsRegistered r (ids r) ok)

single_of :
    (P : CapabilityDefinition → Type 0) (key : PipelineStateKey) (ds : List CapabilityDefinition)
    (names : List Text) (d : CapabilityDefinition)
    → All P ds
    → single key ds names ≡ returns d
    → P d
unfolding single
single_of P key [] names d all_p h = absurd (cc)
single_of P key (x ∷ []) names d all_p h = let same : x ≡ d = ground arith in subst P same all_p.0
single_of P key (x ∷ y ∷ ds) names d all_p h = absurd (cc)

pub producer_for-IsRegistered :
    (r : Registry) (key : PipelineStateKey) (d : CapabilityDefinition)
    → IsRegistry r
    → producer_for r key ≡ returns d
    → IsRegistered r d × (contains key d.provides ≡ true)
unfolding producer_for
producer_for-IsRegistered r key d ok h =
    single_of (λ x. IsRegistered r x × (contains key x.provides ≡ true)) key (producers_for key r) _
      d (producers_for-IsRegistered r key ok) h
