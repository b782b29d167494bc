-- ===== src/Domain/Correlation/Compare/Merging.antt =====
-- What two findings have in common that the comparison merges without a person.
use red_forge.Base.{
  ◌≡◌, ◌≢◌, refl, sym, ap, ap₂, ◌∙◌, Bool, true, false, Option, none, some, List, [], ◌∷◌, ◌==◌,
  if◌then◌else◌, text, text_order, arith, Order, eq→≡, Bool-cases, ◌⊎◌, inl, inr, option_order,
}
use red_forge.Domain.Strings.{Platform}
use red_forge.Sdk.Exception.{returns, >>=-eq-returns}
use red_forge.Domain.Finding.Subject.{asset_order, endpoint_order, technology_order}
use red_forge.Domain.Finding.Reference.{reference_order}
use red_forge.Domain.Finding.Record.{FindingRecord, fingerprint_order}
use red_forge.Domain.Correlation.Kinds.{
  CorrelationMatchStrength, FindingCorrelationReason, FindingConflictKind, possible, no_match,
  same_asset, conflicting_technology, conflicting_endpoint, conflicting_concrete_reference,
  insufficient_identity,
}
use red_forge.Domain.Correlation.Key.{
  FindingCorrelationKey, key_from_record, key_fields, checked_key, validate_classification_id,
  is_concrete, is_weakness, validate_normalized_title, validate_reference_tuple,
}
use red_forge.Domain.Correlation.Decision.{
  FindingConflict, FindingCorrelationDecision, normal_decision, automatic_merge, is_merge,
  conflict_order,
}
use red_forge.Domain.Correlation.Compare.{
  Keyed, concrete_references_conflict, same_concrete_anchor, blocking, Agreement, both_missing,
  one_missing, equal, different, agreement, same_classification_id, decision, compare_weaknesses,
  compare_identities, compare_classifications, after_technologies, after_endpoints,
  compare_references, compare_keyed, keyed, compare,
}

-- Two optional parts do not contradict each other: where both are there, they are the same.
abbrev pub IsCompatible {ℓ} : {A : Type ℓ} → Option A → Option A → Type ℓ
IsCompatible {A} a b = (x y : A) → a ≡ some x → b ≡ some y → x ≡ y

agreement-IsCompatible {ℓ} :
    {A : Type ℓ} ⦃o : Order A⦄ (a b : Option A) {g : Agreement}
    → agreement a b ≡ g
    → g ≢ different
    → IsCompatible a b
unfolding agreement
agreement-IsCompatible none b e h x y p q = absurd (cc)
agreement-IsCompatible (some a) none e h x y p q = absurd (cc)
agreement-IsCompatible {A} (some a) (some b) {g} e h x y p q =
    let p' : a ≡ x = ground arith in
    let q' : b ≡ y = ground arith in
    elim (Bool-cases (a == b)) [
      | inl t ↦ sym p' ∙ eq→≡ a b t ∙ q'
      | inr t ↦ absurd (h (sym e ∙ ap (λ (u : Bool). if u then equal else different) t))
    ]

module _ (l r : Keyed) where
  abbrev pub Merges : FindingCorrelationDecision → Type 0
  Merges d = automatic_merge d ≡ true

  -- The same asset, the same endpoint and technology where both findings name one, and the same
  -- exact identity or the same first concrete reference.
  abbrev pub IsSameFinding : Type 0
  IsSameFinding =
      (l.key.asset ≡ r.key.asset)
      × IsCompatible l.key.endpoint r.key.endpoint
      × IsCompatible l.key.technology r.key.technology
      × ((l.source.fingerprint ≡ r.source.fingerprint) ⊎ (same_concrete_anchor l.key r.key ≡ true))

  abbrev Identified : Type 0
  Identified =
      (l.source.fingerprint ≡ r.source.fingerprint) ⊎ (same_concrete_anchor l.key r.key ≡ true)

  refused :
      (s : CorrelationMatchStrength) (rs : List FindingCorrelationReason)
      (cs : List FindingConflict)
      → is_merge s ≡ false
      → automatic_merge (decision l r s rs cs) ≡ false
  unfolding automatic_merge decision normal_decision
  refused s rs cs e = rw e

  weaknesses_refused :
      (rs : List FindingCorrelationReason) (cs : List FindingConflict)
      → automatic_merge (compare_weaknesses l r rs cs) ≡ false
  unfolding compare_weaknesses
  weaknesses_refused rs cs = elim (Bool-cases (same_classification_id l r)) [
    | inl t ↦ rw t (refused possible _ cs refl)
    | inr t ↦ rw t (refused no_match _ cs refl)
  ]

  identities-Identified :
      (rs : List FindingCorrelationReason) (cs : List FindingConflict)
      → Merges (compare_identities l r rs cs)
      → Identified
  unfolding compare_identities
  identities-Identified rs cs h = elim (Bool-cases (l.source.fingerprint == r.source.fingerprint)) [
    | inl e ↦ inl (eq→≡ l.source.fingerprint r.source.fingerprint e)
    | inr e ↦ elim (Bool-cases (same_concrete_anchor l.key r.key)) [
      | inl f ↦ inr f
      | inr f ↦ absurd (
          ground (
            arith,
            refused possible (insufficient_identity ∷ rs) cs refl,
            weaknesses_refused rs cs,
          ))
    ]
  ]

  classifications-Identified :
      (rs : List FindingCorrelationReason) → Merges (compare_classifications l r rs) → Identified
  unfolding compare_classifications
  classifications-Identified rs h = elim (Bool-cases (same_classification_id l r)) [
    | inl t ↦ identities-Identified _ _ (rw t at h)
    | inr t ↦ identities-Identified _ _ (rw t at h)
  ]

  technologies-IsSame :
      (rs : List FindingCorrelationReason) (g : Agreement)
      → agreement l.key.technology r.key.technology ≡ g
      → Merges (after_technologies l r rs g)
      → IsCompatible l.key.technology r.key.technology × Identified
  unfolding after_technologies
  technologies-IsSame rs different e h = absurd (
      cc (
        refused no_match (conflicting_technology ∷ rs)
            (blocking FindingConflictKind.technology ∷ []) refl,
        h,
      ))
  technologies-IsSame rs equal e h = (
    agreement-IsCompatible l.key.technology r.key.technology e (λ f. cc),
    classifications-Identified _ h,
  )
  technologies-IsSame rs one_missing e h = (
    agreement-IsCompatible l.key.technology r.key.technology e (λ f. cc),
    classifications-Identified _ h,
  )
  technologies-IsSame rs both_missing e h = (
    agreement-IsCompatible l.key.technology r.key.technology e (λ f. cc),
    classifications-Identified _ h,
  )

  endpoints-IsSame :
      (rs : List FindingCorrelationReason) (g : Agreement)
      → agreement l.key.endpoint r.key.endpoint ≡ g
      → Merges (after_endpoints l r rs g)
      → IsCompatible l.key.endpoint r.key.endpoint
        × IsCompatible l.key.technology r.key.technology
        × Identified
  unfolding after_endpoints
  endpoints-IsSame rs different e h = absurd (
      cc (
        refused no_match (conflicting_endpoint ∷ rs) (blocking FindingConflictKind.endpoint ∷ [])
            refl,
        h,
      ))
  endpoints-IsSame rs equal e h =
      let (t, i) = technologies-IsSame _ _ refl h in
      (agreement-IsCompatible l.key.endpoint r.key.endpoint e (λ f. cc), t, i)
  endpoints-IsSame rs one_missing e h =
      let (t, i) = technologies-IsSame _ _ refl h in
      (agreement-IsCompatible l.key.endpoint r.key.endpoint e (λ f. cc), t, i)
  endpoints-IsSame rs both_missing e h =
      let (t, i) = technologies-IsSame _ _ refl h in
      (agreement-IsCompatible l.key.endpoint r.key.endpoint e (λ f. cc), t, i)

  references-IsSame :
      Merges (compare_references l r)
      → IsCompatible l.key.endpoint r.key.endpoint
        × IsCompatible l.key.technology r.key.technology
        × Identified
  unfolding compare_references
  references-IsSame h =
      elim (Bool-cases
        (concrete_references_conflict l.key.concrete_references r.key.concrete_references)) [
          | inl t ↦ absurd (
              cc (
                refused no_match (conflicting_concrete_reference ∷ same_asset ∷ [])
                    (blocking FindingConflictKind.concrete_reference ∷ []) refl,
                rw t at h,
              ))
          | inr t ↦ endpoints-IsSame _ _ refl (rw t at h)
        ]

  pub merges-IsSameFinding : Merges (compare_keyed l r) → IsSameFinding
  unfolding compare_keyed
  merges-IsSameFinding h = elim (Bool-cases (l.key.asset == r.key.asset)) [
    | inl t ↦
        let (e, u, i) = references-IsSame (rw t at h) in (eq→≡ l.key.asset r.key.asset t, e, u, i)
    | inr t ↦ absurd (
        cc (
          refused no_match (FindingCorrelationReason.asset_mismatch ∷ [])
              (blocking FindingConflictKind.asset_mismatch ∷ []) refl,
          rw t at h,
        ))
  ]

checked_key-same : (k j : FindingCorrelationKey) → checked_key k ≡ returns j → k ≡ j
unfolding checked_key
checked_key-same k j h =
    let (_, _, h1) = >>=-eq-returns (validate_classification_id k.classification_id) _ h in
    let (_, _, h2) = >>=-eq-returns (validate_normalized_title k.normalized_title) _ h1 in
    let (_, _, h3) =
      >>=-eq-returns
        (validate_reference_tuple is_concrete (text "concrete references") k.concrete_references) _
        h2 in
    let (_, _, h4) =
      >>=-eq-returns
        (validate_reference_tuple is_weakness (text "weakness references") k.weakness_references) _
        h3 in
    ground arith

module _ (p : Platform) where
  abbrev pub with_key : FindingRecord → Keyed
  with_key r = record { source = r; key = key_fields p r }

  pub keyed-with_key : (r : FindingRecord) (k : Keyed) → keyed p r ≡ returns k → with_key r ≡ k
  unfolding keyed key_from_record
  keyed-with_key r k h =
      let (j, e, h') = >>=-eq-returns (checked_key (key_fields p r)) _ h in
      let made : record { source = r; key = j } ≡ k = ground arith in
      ap (λ (q : FindingCorrelationKey). record { source = r; key = q })
        (checked_key-same (key_fields p r) j e)
      ∙ made

  -- Two findings that `compare` says to merge automatically are about the same asset, about the same
  -- endpoint and the same technology where both name one, and have the same fingerprint or the same
  -- first concrete reference, with a concrete reference in common.
  pub compare-IsSameFinding :
      (left right : FindingRecord) (d : FindingCorrelationDecision)
      → compare p left right ≡ returns d
      → automatic_merge d ≡ true
      → (left.context.asset ≡ right.context.asset)
        × IsCompatible left.context.endpoint right.context.endpoint
        × IsCompatible left.context.technology right.context.technology
        × ((left.fingerprint ≡ right.fingerprint)
            ⊎ (same_concrete_anchor (key_fields p left) (key_fields p right) ≡ true))
  unfolding compare key_fields
  compare-IsSameFinding left right d h m =
      let (l, p1, h') = >>=-eq-returns (keyed p left) _ h in
      let (r, p2, h'') = >>=-eq-returns (keyed p right) _ h' in
      let same : compare_keyed l r ≡ d = ground arith in
      let left_key = keyed-with_key left l p1 in
      let right_key = keyed-with_key right r p2 in
      let keyed_same : compare_keyed (with_key left) (with_key right) ≡ d =
        ap₂ compare_keyed left_key right_key ∙ same in
      merges-IsSameFinding (with_key left) (with_key right) (ap automatic_merge keyed_same ∙ m)
