-- ===== src/Domain/Correlation/Aggregate/Strongest.antt =====
-- What the strongest confidence and quality are: the first of the greatest by the rank.
use red_forge.Base.{
  ℕ, suc, Order, if◌then◌else◌, text_le, ◌≤◌, ◌<◌, ◌≡◌, refl, ap, ap₂, List, [], ◌∷◌, ◌++◌, ltb,
  map, not, text, ◌==◌, sym, subst, All, All-map, Bool-cases, inl, inr, arith,
}
use red_forge.Sdk.Exception.{returns, value_error, >>=-eq-returns, require, traverse}
use red_forge.Domain.Strings.{Platform}
use red_forge.Domain.Hostname.{is_empty}
use red_forge.Domain.Finding.Observations.{
  EvidenceConfidence, EvidenceQuality, confidence_members, quality_members, confidence_order,
  quality_order,
}
use red_forge.Domain.Finding.Reference.{reference_order}
use red_forge.Domain.Finding.Metadata.{FindingEvidence, source_order, summary_order}
use red_forge.Domain.Finding.Record.{FindingRecord}
use red_forge.Domain.Correlation.Compare.{Keyed, keyed}
use red_forge.Domain.Correlation.Group.{record_tuple}
use red_forge.Domain.Correlation.Anchor.{id_from_anchor, finding_id_order}
use red_forge.Domain.Correlation.Aggregate.{
  CanonicalFinding, max_by, max_from, confidence_rank, quality_rank, concat_map, canonical_finding,
  value_tuple, anchor_of, aggregate_keyed, aggregate,
}

module _ {ℓ} {A : Type ℓ} (rank : A → ℕ) where
  -- Of the items, this is the first that none exceeds.
  abbrev pub IsFirstGreatest : A → List A → Type ℓ
  IsFirstGreatest m xs =
      (before : List A) × (after : List A) × (xs ≡ before ++ (m ∷ after))
      × All (λ x. rank x < rank m) before
      × All (λ x. rank x ≤ rank m) after

  All-less :
      (m n : A) (xs : List A)
      → rank m < rank n
      → All (λ x. rank x ≤ rank m) xs
      → All (λ x. rank x < rank n) xs
  All-less m n xs h =
      All-map (λ x. rank x ≤ rank m) (λ x. rank x < rank n) xs (λ x k. omega (arith, h, k))

  max_from-le : (xs : List A) (best : A) → rank best ≤ rank (max_from rank best xs)
  unfolding max_from
  max_from-le [] best = omega arith
  max_from-le (x ∷ xs) best = ground (arith, max_from-le xs x, max_from-le xs best)

  -- An item after the first that does not exceed it changes nothing.
  passed_over :
      (x best m : A) (xs : List A)
      → rank x ≤ rank best
      → rank best ≤ rank m
      → IsFirstGreatest m (best ∷ xs)
      → IsFirstGreatest m (best ∷ x ∷ xs)
  passed_over x best m xs h k ([], after, same, less, rest) =
      let head : best ≡ m = ground arith in
      let tail : xs ≡ after = ground arith in
      ([], x ∷ after, ap₂ (λ b ys. b ∷ x ∷ ys) head tail, tt, (omega (arith, h, k), rest))
  passed_over x best m xs h k (b ∷ before, after, same, less, rest) =
      let head : best ≡ b = ground arith in
      let tail : xs ≡ before ++ (m ∷ after) = ground arith in
      (
        b ∷ x ∷ before,
        after,
        ap₂ (λ c ys. c ∷ x ∷ ys) head tail,
        (less.0, (ground (arith, ap rank head, less.0), less.1)),
        rest,
      )

  max_from-first : (xs : List A) (best : A) → IsFirstGreatest (max_from rank best xs) (best ∷ xs)
  unfolding max_from
  max_from-first [] best = ([], [], refl, tt, tt)
  max_from-first (x ∷ xs) best = elim (Bool-cases (ltb (rank best) (rank x))) [
    | inl e ↦
        let (before, after, same, less, rest) = max_from-first xs x in
        rw e (
          best ∷ before,
          after,
          ap (λ ys. best ∷ ys) same,
          (ground (arith, max_from-le xs x), less),
          rest,
        )
    | inr e ↦ rw e (
        passed_over x best (max_from rank best xs) xs (ground arith) (max_from-le xs best)
          (max_from-first xs best))
  ]

  -- What `max_by` returns is the first of the greatest.
  max_by-first : (xs : List A) (m : A) → max_by rank xs ≡ returns m → IsFirstGreatest m xs
  unfolding max_by
  max_by-first [] m h = absurd (cc)
  max_by-first (x ∷ xs) m h =
      let same : max_from rank x xs ≡ m = ground arith in
      subst (λ z. IsFirstGreatest z (x ∷ xs)) same (max_from-first xs x)

module _ {ℓ} {A : Type ℓ} (f g : A → ℕ) (same : (a : A) → f a ≡ g a) where
  IsFirstGreatest-by : (m : A) (xs : List A) → IsFirstGreatest f m xs → IsFirstGreatest g m xs
  IsFirstGreatest-by m xs (before, after, e, less, rest) = (
    before,
    after,
    e,
    All-map (λ x. f x < f m) (λ x. g x < g m) before (λ x k. omega (arith, k, same x, same m)) less,
    All-map (λ x. f x ≤ f m) (λ x. g x ≤ g m) after (λ x k. omega (arith, k, same x, same m)) rest,
  )

-- How many members of an enumeration stand before a value.
abbrev pub position {ℓ} : {A : Type ℓ} ⦃o : Order A⦄ → List A → A → ℕ
position [] a = 0
position (x ∷ xs) a = let later = position xs a in if x == a then 0 else suc later

confidence_in_order : (c : EvidenceConfidence) → confidence_rank c ≡ position confidence_members c
unfolding text_le
confidence_in_order EvidenceConfidence.unknown = refl
confidence_in_order EvidenceConfidence.low = refl
confidence_in_order EvidenceConfidence.medium = refl
confidence_in_order EvidenceConfidence.high = refl
confidence_in_order EvidenceConfidence.certain = refl

quality_in_order : (q : EvidenceQuality) → quality_rank q ≡ position quality_members q
unfolding text_le
quality_in_order EvidenceQuality.unknown = refl
quality_in_order EvidenceQuality.weak = refl
quality_in_order EvidenceQuality.normal = refl
quality_in_order EvidenceQuality.strong = refl
quality_in_order EvidenceQuality.verified = refl

returns_injective : {f g : CanonicalFinding} → returns f ≡ returns g → f ≡ g
returns_injective h = cc

module _ (p : Platform) where
  abbrev evidence_of : List FindingRecord → List FindingEvidence
  evidence_of records = concat_map (λ (r : FindingRecord). r.evidence) records

  -- The confidence and the quality are the ones of some evidence of the records, and no evidence of
  -- the records has a higher one, which is one that the enumeration lists later.
  abbrev pub IsStrongest : List FindingRecord → CanonicalFinding → Type 0
  IsStrongest records f =
      IsFirstGreatest (position confidence_members) f.strongest_confidence
        (map (λ (e : FindingEvidence). e.confidence) (evidence_of records))
      × IsFirstGreatest (position quality_members) f.strongest_evidence_quality
          (map (λ (e : FindingEvidence). e.quality) (evidence_of records))

  canonical_finding-kept :
      (given f : CanonicalFinding)
      → canonical_finding p given ≡ returns f
      → (f.strongest_confidence ≡ given.strongest_confidence)
        × (f.strongest_evidence_quality ≡ given.strongest_evidence_quality)
  unfolding canonical_finding
  canonical_finding-kept given f h =
      let (expected, _, h1) = >>=-eq-returns (id_from_anchor p given.anchor) _ h in
      let (_, _, h2) =
        >>=-eq-returns
          (require (given.canonical_id == expected)
            (value_error (text "canonical finding identity does not match anchor")))
          _ h1 in
      let (records, _, h3) = >>=-eq-returns (record_tuple p given.source_records) _ h2 in
      let (_, _, h4) =
        >>=-eq-returns
          (require (not (is_empty records))
            (value_error (text "canonical finding requires source records")))
          _ h3 in
      let (_, _, h5) = >>=-eq-returns (value_tuple given.references) _ h4 in
      let (_, _, h6) = >>=-eq-returns (value_tuple given.evidence_summaries) _ h5 in
      let (_, _, h7) = >>=-eq-returns (value_tuple given.provenance_sources) _ h6 in
      let e = returns_injective h7 in
      (
        sym (ap (λ (x : CanonicalFinding). x.strongest_confidence) e),
        sym (ap (λ (x : CanonicalFinding). x.strongest_evidence_quality) e),
      )

  aggregate_keyed-IsStrongest :
      (ordered : List FindingRecord) (ks : List Keyed) (f : CanonicalFinding)
      → aggregate_keyed p ordered ks ≡ returns f
      → IsStrongest ordered f
  unfolding aggregate_keyed
  aggregate_keyed-IsStrongest ordered ks f h =
      let confidences = map (λ (e : FindingEvidence). e.confidence) (evidence_of ordered) in
      let qualities = map (λ (e : FindingEvidence). e.quality) (evidence_of ordered) in
      let (anchor, _, h1) = >>=-eq-returns (anchor_of p ks) _ h in
      let (_, _, h2) = >>=-eq-returns (id_from_anchor p anchor) _ h1 in
      let (confidence, one, h3) = >>=-eq-returns (max_by confidence_rank confidences) _ h2 in
      let (quality, two, h4) = >>=-eq-returns (max_by quality_rank qualities) _ h3 in
      let (same, same') = canonical_finding-kept _ f h4 in
      (
        subst (λ m. IsFirstGreatest (position confidence_members) m confidences) (sym same)
            (IsFirstGreatest-by confidence_rank (position confidence_members) confidence_in_order
              confidence confidences (max_by-first confidence_rank confidences confidence one)),
        subst (λ m. IsFirstGreatest (position quality_members) m qualities) (sym same')
            (IsFirstGreatest-by quality_rank (position quality_members) quality_in_order quality
              qualities (max_by-first quality_rank qualities quality two)),
      )

  -- A canonical finding that `_aggregate` makes of records has the confidence and the quality of
  -- some evidence of these records, and no evidence of them has a higher confidence or a higher
  -- quality, in the order in which the enumerations list their members. The records are taken as
  -- `_record_tuple` orders them, and of several items of the greatest rank the first is taken.
  pub aggregate-IsStrongest :
      (records : List FindingRecord) (f : CanonicalFinding)
      → aggregate p records ≡ returns f
      → (ordered : List FindingRecord) × (record_tuple p records ≡ returns ordered)
        × IsStrongest ordered f
  unfolding aggregate
  aggregate-IsStrongest records f h =
      let (ordered, made, h1) = >>=-eq-returns (record_tuple p records) _ h in
      let (ks, _, h2) = >>=-eq-returns (traverse (keyed p) ordered) _ h1 in
      (ordered, made, aggregate_keyed-IsStrongest ordered ks f h2)
