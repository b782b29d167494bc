-- ===== src/Domain/Correlation/Compare/Symmetry.antt =====
-- The comparison of two findings does not depend on which of them is the left one.
use red_forge.Base.{
  ◌≡◌, refl, ap, ap₂, ◌∙◌, Bool, true, ◌&&◌, not, Option, none, some, List, [], ◌∷◌, ◌==◌,
  if◌then◌else◌, any, contains, text_order, arith, Order, Bool-cases, inl, inr, option_order,
  pair_order, le_refl, bool_ext,
}
use red_forge.Domain.Strings.{Platform}
use red_forge.Sdk.Exception.{Attempt, returns, raises, ◌>>=◌}
use red_forge.Domain.Finding.Subject.{asset_order, endpoint_order, technology_order}
use red_forge.Domain.Finding.Reference.{FindingReference, reference_order}
use red_forge.Domain.Finding.Subjects.{FindingReferenceKind, cve, ghsa, osv}
use red_forge.Domain.Finding.Record.{FindingRecord, FindingFingerprint, fingerprint_order}
use red_forge.Domain.Correlation.Kinds.{
  CorrelationMatchStrength, FindingCorrelationReason, FindingConflictKind, exact, strong, possible,
  no_match, conflicting_classification, cwe_only_classification, insufficient_identity,
  title_only_similarity,
}
use red_forge.Domain.Correlation.Key.{FindingCorrelationKey}
use red_forge.Domain.Correlation.Decision.{
  FindingConflict, FindingCorrelationDecision, normal_decision,
}
use red_forge.Domain.Correlation.Compare.{
  Keyed, shares, kinds_conflict, concrete_references_conflict, same_concrete_anchor, of_kind,
  selected_concrete_anchor, Agreement, both_missing, one_missing, equal, different, agreement,
  decision, is_complete, compare_weaknesses, compare_identities, compare_classifications,
  after_technologies, after_endpoints, compare_references, compare_keyed, compare_technologies,
  keyed, compare,
}

eq_comm {ℓ} : {A : Type ℓ} ⦃o : Order A⦄ (a b : A) → (a == b) ≡ (b == a)
eq_comm a b = ground arith

branch {ℓ} :
    {A : Type ℓ} {b c : Bool} {x y z w : A}
    → b ≡ c
    → x ≡ y
    → z ≡ w
    → (if b then x else z) ≡ (if c then y else w)
branch {b} {c} {x} {y} {z} {w} e h k =
    ap₂ (λ u v. if b then u else v) h k ∙ ap (λ t. if t then y else w) e

shares_of_member :
    (r : FindingReference) (left right : List FindingReference)
    → contains r left ≡ true
    → contains r right ≡ true
    → shares left right ≡ true
unfolding shares any contains
shares_of_member r [] right h k = absurd (cc)
shares_of_member r (s ∷ left) right h k =
    ground (arith, reference_order.le_antisym r s, shares_of_member r left right)

pub shared_member :
    (left right : List FindingReference)
    → shares left right ≡ true
    → (r : FindingReference) × (contains r left ≡ true) × (contains r right ≡ true)
unfolding shares any contains
shared_member [] right h = absurd (cc)
shared_member (s ∷ left) right h = elim (Bool-cases (contains s right)) [
  | inl e ↦ (s, ground (arith, le_refl s), e)
  | inr e ↦ let (r, k, m) = shared_member left right (ground arith) in (r, ground arith, m)
]

shares-flip :
    (left right : List FindingReference) → shares left right ≡ true → shares right left ≡ true
shares-flip left right h =
    let (r, k, m) = shared_member left right h in shares_of_member r right left m k

pub shares_comm : (left right : List FindingReference) → shares left right ≡ shares right left
shares_comm left right =
    bool_ext (shares left right) (shares right left) (shares-flip left right)
      (shares-flip right left)

kinds_conflict_comm :
    (left right : List FindingReference) (k : FindingReferenceKind)
    → kinds_conflict left right k ≡ kinds_conflict right left k
unfolding kinds_conflict
kinds_conflict_comm left right k = ground (arith, shares_comm (of_kind k left) (of_kind k right))

concrete_references_conflict_comm :
    (left right : List FindingReference)
    → concrete_references_conflict left right ≡ concrete_references_conflict right left
unfolding concrete_references_conflict any
concrete_references_conflict_comm left right = ground (
  arith,
  shares_comm left right,
  kinds_conflict_comm left right cve,
  kinds_conflict_comm left right ghsa,
  kinds_conflict_comm left right osv,
)

agreement_comm {ℓ} : {A : Type ℓ} ⦃o : Order A⦄ (a b : Option A) → agreement a b ≡ agreement b a
unfolding agreement
agreement_comm none none = refl
agreement_comm none (some b) = refl
agreement_comm (some a) none = refl
agreement_comm (some a) (some b) = ap (λ t. if t then equal else different) (eq_comm a b)

same_concrete_anchor_comm :
    (k j : FindingCorrelationKey) → same_concrete_anchor k j ≡ same_concrete_anchor j k
unfolding same_concrete_anchor
same_concrete_anchor_comm k j = ap₂ ◌&&◌ (shares_comm k.concrete_references j.concrete_references) (
    eq_comm (selected_concrete_anchor k.concrete_references)
      (selected_concrete_anchor j.concrete_references))

normal_decision_comm :
    (f g : FindingFingerprint) (s : CorrelationMatchStrength) (rs : List FindingCorrelationReason)
    (cs : List FindingConflict)
    → normal_decision f g s rs cs ≡ normal_decision g f s rs cs
unfolding normal_decision
normal_decision_comm f g s rs cs =
    ground (arith, fingerprint_order.le_antisym f g, fingerprint_order.le_total f g)

module _ (l r : Keyed) where
  decision_comm :
      (s : CorrelationMatchStrength) (rs : List FindingCorrelationReason)
      (cs : List FindingConflict)
      → decision l r s rs cs ≡ decision r l s rs cs
  unfolding decision
  decision_comm s rs cs = normal_decision_comm l.source.fingerprint r.source.fingerprint s rs cs

  is_complete_comm : is_complete l r ≡ is_complete r l
  unfolding is_complete
  is_complete_comm = rw (
    agreement_comm l.key.endpoint r.key.endpoint,
    agreement_comm l.key.technology r.key.technology,
  )

  compare_weaknesses_comm :
      (rs : List FindingCorrelationReason) (cs : List FindingConflict)
      → compare_weaknesses l r rs cs ≡ compare_weaknesses r l rs cs
  unfolding compare_weaknesses
  compare_weaknesses_comm rs cs =
      let weak =
        ap (λ b. if b then cwe_only_classification ∷ rs else rs)
          (shares_comm l.key.weakness_references r.key.weakness_references) in
      branch (eq_comm l.key.classification_id r.key.classification_id)
        (ap (λ ws. decision l r possible (insufficient_identity ∷ ws) cs) weak
          ∙ decision_comm _ _ _)
        (ap (λ ws. decision l r no_match ws cs)
            (branch (eq_comm l.key.normalized_title r.key.normalized_title)
              (ap (λ ws. title_only_similarity ∷ ws) weak) weak)
          ∙ decision_comm _ _ _)

  compare_identities_comm :
      (rs : List FindingCorrelationReason) (cs : List FindingConflict)
      → compare_identities l r rs cs ≡ compare_identities r l rs cs
  unfolding compare_identities
  compare_identities_comm rs cs =
      branch (eq_comm l.source.fingerprint r.source.fingerprint) (decision_comm _ _ _) (
        branch (same_concrete_anchor_comm l.key r.key)
          (ap (λ b. decision l r (if b then exact else strong) rs cs) is_complete_comm
            ∙ decision_comm _ _ _)
          (branch (shares_comm l.key.concrete_references r.key.concrete_references)
            (decision_comm _ _ _) (compare_weaknesses_comm rs cs)))

  compare_classifications_comm :
      (rs : List FindingCorrelationReason)
      → compare_classifications l r rs ≡ compare_classifications r l rs
  unfolding compare_classifications
  compare_classifications_comm rs =
      branch (eq_comm l.key.classification_id r.key.classification_id) (compare_identities_comm _ _)
        (ap
            (λ b.
              compare_identities l r (conflicting_classification ∷ rs)
                (record { kind = FindingConflictKind.classification; blocking = not b } ∷ []))
            (shares_comm l.key.concrete_references r.key.concrete_references)
          ∙ compare_identities_comm _ _)

  after_technologies_comm :
      (rs : List FindingCorrelationReason) (a : Agreement)
      → after_technologies l r rs a ≡ after_technologies r l rs a
  unfolding after_technologies
  after_technologies_comm rs both_missing = compare_classifications_comm rs
  after_technologies_comm rs one_missing = compare_classifications_comm _
  after_technologies_comm rs equal = compare_classifications_comm _
  after_technologies_comm rs different = decision_comm _ _ _

  compare_technologies_comm :
      (rs : List FindingCorrelationReason)
      → compare_technologies l r rs ≡ compare_technologies r l rs
  compare_technologies_comm rs =
      after_technologies_comm rs (agreement l.key.technology r.key.technology)
      ∙ ap (after_technologies r l rs) (agreement_comm l.key.technology r.key.technology)

  after_endpoints_comm :
      (rs : List FindingCorrelationReason) (a : Agreement)
      → after_endpoints l r rs a ≡ after_endpoints r l rs a
  unfolding after_endpoints
  after_endpoints_comm rs both_missing = compare_technologies_comm rs
  after_endpoints_comm rs one_missing = compare_technologies_comm _
  after_endpoints_comm rs equal = compare_technologies_comm _
  after_endpoints_comm rs different = decision_comm _ _ _

  compare_references_comm : compare_references l r ≡ compare_references r l
  unfolding compare_references
  compare_references_comm =
      branch (concrete_references_conflict_comm l.key.concrete_references r.key.concrete_references)
        (decision_comm _ _ _)
        (ap₂ (after_endpoints l r)
            (branch (shares_comm l.key.concrete_references r.key.concrete_references) refl refl)
            (agreement_comm l.key.endpoint r.key.endpoint)
          ∙ after_endpoints_comm _ _)

  compare_keyed_comm : compare_keyed l r ≡ compare_keyed r l
  unfolding compare_keyed
  compare_keyed_comm =
      branch (eq_comm l.key.asset r.key.asset) compare_references_comm (decision_comm _ _ _)

module _ (p : Platform) where
  both_keys_comm :
      (m n : Attempt Keyed) {d : FindingCorrelationDecision}
      → (m >>= λ l. n >>= λ r. returns (compare_keyed l r)) ≡ returns d
      → (n >>= λ r. m >>= λ l. returns (compare_keyed r l)) ≡ returns d
  both_keys_comm (raises e) n h = absurd (cc)
  both_keys_comm (returns l) (raises e) h = absurd (cc)
  both_keys_comm (returns l) (returns r) h = ap returns (compare_keyed_comm r l) ∙ h

  -- When two findings can be compared at all, comparing them in the other order gives the same
  -- decision: the same fingerprints in the same places, strength, reasons and conflicts.
  pub compare_comm :
      (left right : FindingRecord) (d : FindingCorrelationDecision)
      → compare p left right ≡ returns d
      → compare p right left ≡ returns d
  unfolding compare
  compare_comm left right d h = both_keys_comm (keyed p left) (keyed p right) h
