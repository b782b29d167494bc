-- ===== src/Domain/Correlation/Anchor/Stable.antt =====
-- The groups that are formed always have an anchor.
use red_forge.Base.{
  or_false, not_and, eq-false→≢, distinct, ◌==◌, ◌≡◌, ◌≢◌, refl, sym, ap, ◌∙◌, true, false, ◌||◌,
  Option, List, [], ◌∷◌, map, nat_order, if◌then◌else◌, All, All-map, Bool-cases, inl, inr, arith,
  eq→≡, ≡→eq, keep, contains, dedup, option_order, text_order, Order,
}
use red_forge.Sdk.Exception.{returns}
use red_forge.Domain.Hostname.{is_empty}
use red_forge.Domain.Finding.Reference.{FindingReference, reference_order}
use red_forge.Domain.Finding.Record.{FindingFingerprint, fingerprint_order}
use red_forge.Domain.Correlation.Key.{is_concrete, validate_classification_id}
use red_forge.Domain.Correlation.Compare.{
  Keyed, selected_concrete_anchor, smallest, same_concrete_anchor,
}
use red_forge.Domain.Correlation.Compare.Merging.{merges-IsSameFinding}
use red_forge.Domain.Correlation.Group.{merges, group_records}
use red_forge.Domain.Correlation.Group.Kept.{Pairwise, group_records-All, group_records-Pairwise}
use red_forge.Domain.Correlation.Group.Partition.{MergesWithin, group_records-partition}
use red_forge.Domain.Correlation.Anchor.{
  CanonicalFindingAnchor, anchor_for, stable_reference, selected_anchors, canonical_finding_anchor,
  check_anchor, concrete_anchor, classification_anchor, common_concrete, intersect,
}

abbrev selected : Keyed → Option FindingReference
selected k = selected_concrete_anchor k.key.concrete_references

-- All keys select the same first reference.
abbrev SelectsSame : Keyed → List Keyed → Type 0
SelectsSame k ks = All (λ j. selected k ≡ selected j) ks

abbrev AllConcrete : List FindingReference → Type 0
AllConcrete refs = All (λ r. is_concrete r.kind ≡ true) refs

-- What a key that was checked has: concrete references that are concrete, and a classification of the
-- record's identity that is valid.
abbrev pub IsSound : Keyed → Type 0
IsSound k =
    AllConcrete k.key.concrete_references
    × (validate_classification_id k.source.identity.classification_id ≡ returns tt)

smallest-concrete :
    (r : FindingReference) (rs : List FindingReference)
    → is_concrete r.kind ≡ true
    → AllConcrete rs
    → is_concrete (smallest r rs).kind ≡ true
unfolding smallest
smallest-concrete r [] h hs = h
smallest-concrete r (s ∷ rs) h hs =
    ground (arith, smallest-concrete r rs h hs.1, smallest-concrete s rs hs.0 hs.1)

dedup_const {ℓ} :
    {A : Type ℓ} ⦃o : Order A⦄ (a : A) (xs : List A) → All (λ x. a ≡ x) xs → dedup (a ∷ xs) ≡ a ∷ []
unfolding dedup contains
dedup_const a [] h = refl
dedup_const a (x ∷ xs) h =
    let rest = dedup_const x xs (All-map (λ y. a ≡ y) (λ y. x ≡ y) xs (λ y e. sym h.0 ∙ e) h.1) in
    let seen : contains a (dedup (x ∷ xs)) ≡ true =
      ap (contains a) rest ∙ ap (λ b. b || false) (≡→eq a x h.0) in
    ap (λ b. if b then dedup (x ∷ xs) else a ∷ dedup (x ∷ xs)) seen
    ∙ rest
    ∙ ap (λ y. y ∷ []) (sym h.0)

All-selected :
    (k : Keyed) (ks : List Keyed) → SelectsSame k ks → All (λ o. selected k ≡ o) (map selected ks)
All-selected k [] h = tt
All-selected k (j ∷ ks) h = (h.0, All-selected k ks h.1)

-- With a first reference that all keys select, the choice succeeds.
stable-returns :
    (k : Keyed) (ks : List Keyed) (refs : List FindingReference)
    → selected k ≡ selected_concrete_anchor refs
    → AllConcrete refs
    → SelectsSame k ks
    → is_empty refs ≡ false
    → (r : FindingReference) × (stable_reference (selected_anchors (k ∷ ks)) ≡ returns r)
      × (is_concrete r.kind ≡ true)
unfolding selected_anchors selected_concrete_anchor
stable-returns k ks [] e c h n = absurd (cc)
stable-returns k ks (r ∷ refs) e c h n =
    let one = dedup_const (selected k) (map selected ks) (All-selected k ks h) in
    (
      smallest r refs,
      ap stable_reference (one ∙ ap (λ o. o ∷ []) e),
      smallest-concrete r refs c.0 c.1,
    )

common_concrete-nil : (ks : List Keyed) → common_concrete [] ks ≡ []
unfolding common_concrete intersect keep
common_concrete-nil [] = refl
common_concrete-nil (k ∷ ks) = common_concrete-nil ks

common-nonempty :
    (refs : List FindingReference) (ks : List Keyed)
    → is_empty (common_concrete refs ks) ≡ false
    → is_empty refs ≡ false
common-nonempty [] ks h = absurd (cc (ap is_empty (common_concrete-nil ks), h))
common-nonempty (r ∷ refs) ks h = refl

anchor_for-returns :
    (k : Keyed) (ks : List Keyed)
    → IsSound k
    → SelectsSame k ks
    → (a : CanonicalFindingAnchor) × (anchor_for k ks ≡ returns a)
unfolding anchor_for canonical_finding_anchor check_anchor
anchor_for-returns k ks s h =
    elim (Bool-cases (is_empty (common_concrete k.key.concrete_references ks))) [
      | inl e ↦ (classification_anchor k, rw (e, s.1))
      | inr e ↦
          let (r, found, c) =
            stable-returns k ks k.key.concrete_references refl s.0 h
              (common-nonempty k.key.concrete_references ks e) in
          (concrete_anchor k ks r, rw (e, found, c))
    ]

-- Records with different fingerprints that merge select the same first reference.
merges-selects :
    (k j : Keyed)
    → k.source.fingerprint ≢ j.source.fingerprint
    → merges k j ≡ true
    → selected k ≡ selected j
unfolding merges same_concrete_anchor
merges-selects k j d m = elim (merges-IsSameFinding k j m).3 [
  | inl e ↦ absurd (d e)
  | inr e ↦ eq→≡ (selected k) (selected j) (ground arith)
]

-- The two records do not have the same fingerprint.
abbrev pub Apart : Keyed → Keyed → Type 0
Apart k j = k.source.fingerprint ≢ j.source.fingerprint

selects_of :
    (k : Keyed) (ks : List Keyed)
    → All (Apart k) ks
    → All (λ j. merges k j ≡ true) ks
    → SelectsSame k ks
selects_of k [] d m = tt
selects_of k (j ∷ ks) d m = (merges-selects k j d.0 m.0, selects_of k ks d.1 m.1)

-- The group has an anchor.
abbrev pub HasAnchor : List Keyed → Type 0
HasAnchor [] = Unit
HasAnchor (k ∷ ks) = (a : CanonicalFindingAnchor) × (anchor_for k ks ≡ returns a)

groups-HasAnchor :
    (groups : List (List Keyed))
    → All (All IsSound) groups
    → All (Pairwise Apart) groups
    → All MergesWithin groups
    → All HasAnchor groups
groups-HasAnchor [] s d m = tt
groups-HasAnchor ([] ∷ groups) s d m = (tt, groups-HasAnchor groups s.1 d.1 m.1)
groups-HasAnchor ((k ∷ ks) ∷ groups) s d m = (
  anchor_for-returns k ks s.0.0 (selects_of k ks d.0.0 m.0.0),
  groups-HasAnchor groups s.1 d.1 m.1,
)

abbrev pub fingerprints : List Keyed → List FindingFingerprint
fingerprints ks = map (λ (k : Keyed). k.source.fingerprint) ks

fingerprints-Apart :
    (k : Keyed) (ks : List Keyed)
    → contains k.source.fingerprint (fingerprints ks) ≡ false
    → All (Apart k) ks
unfolding contains
fingerprints-Apart k [] h = tt
fingerprints-Apart k (j ∷ ks) h =
    let (head, rest) = or_false (k.source.fingerprint == j.source.fingerprint) _ h in
    (eq-false→≢ k.source.fingerprint j.source.fingerprint head, fingerprints-Apart k ks rest)

distinct-Pairwise : (ks : List Keyed) → distinct (fingerprints ks) ≡ true → Pairwise Apart ks
unfolding distinct
distinct-Pairwise [] h = tt
distinct-Pairwise (k ∷ ks) h =
    let (head, rest) = not_and (contains k.source.fingerprint (fingerprints ks)) _ h in
    (fingerprints-Apart k ks head, distinct-Pairwise ks rest)

-- For records with pairwise different fingerprints, as a record collection holds them, whose keys and
-- classifications are valid, `_anchor_for` returns an anchor for every group that is formed: the
-- refusal of records that share no stable concrete anchor is never met.
pub group_records-HasAnchor :
    (ks : List Keyed)
    → All IsSound ks
    → distinct (fingerprints ks) ≡ true
    → All HasAnchor (group_records [] ks)
group_records-HasAnchor ks s d =
    groups-HasAnchor (group_records [] ks) (group_records-All IsSound [] ks tt s)
      (group_records-Pairwise Apart [] ks tt tt (distinct-Pairwise ks d))
      (group_records-partition ks).1
