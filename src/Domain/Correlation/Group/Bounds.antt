-- ===== src/Domain/Correlation/Group/Bounds.antt =====
-- The number of pairs of at most 512 records, and of groups.
use red_forge.Base.{
  ℕ, zero, suc, ◌+◌, ◌≤◌, ◌<◌, ◌≡◌, refl, sym, ap, ◌∙◌, Bool, not, List, [], ◌∷◌, map, nat_order,
  leb, length, length-append, length-map, keep, arith, sorted_set, dedup, sort, sort_on,
  length-sort_on, length-dedup, text, subst, pair_order, texts_order, text_table_order, text_order,
}
use red_forge.Sdk.Exception.{Attempt, returns, traverse, >>=-eq-returns, require->>, value_error}
use red_forge.Domain.Strings.{Platform}
use red_forge.Domain.Finding.Record.{FindingRecord, record_order}
use red_forge.Domain.Correlation.Decision.{
  FindingCorrelationDecision, automatic_merge, decision_order,
}
use red_forge.Domain.Correlation.Compare.{Keyed, compare_keyed, keyed}
use red_forge.Domain.Correlation.Group.{
  pairs, pair_decisions, unmerged, place, group_records, append_to_candidate, record_tuple,
  record_sort_key, max_correlation_records, max_unmerged_decisions,
}

-- 0 + 1 + ... + (n - 1)
abbrev triangle : ℕ → ℕ
triangle zero = 0
triangle (suc n) = n + triangle n

triangle_mono : (n m : ℕ) → n ≤ m → triangle n ≤ triangle m
triangle_mono zero m h = omega arith
triangle_mono (suc n) zero h = absurd (omega arith)
triangle_mono (suc n) (suc m) h = omega (arith, triangle_mono n m)

length-pairs {ℓ} : {A : Type ℓ} (xs : List A) → length (pairs xs) ≡ triangle (length xs)
unfolding pairs
length-pairs [] = refl
length-pairs {A} (x ∷ xs) = omega (
  arith,
  length-append (map {B = A × A} (λ y. (x, y)) xs) (pairs xs),
  length-map {B = A × A} (λ y. (x, y)) xs,
  length-pairs xs,
)

length-keep {ℓ} : {A : Type ℓ} (p : A → Bool) (xs : List A) → length (keep p xs) ≤ length xs
unfolding keep
length-keep p [] = omega arith
length-keep p (x ∷ xs) = ground (arith, length-keep p xs)

length-sorted_set : (ds : List FindingCorrelationDecision) → length (sorted_set ds) ≤ length ds
unfolding sorted_set sort
length-sorted_set ds = omega (arith, length-sort_on (λ d. d) (dedup ds), length-dedup ds)

-- 512 records have 130,816 pairs.
pairs_of_512 : triangle 512 ≡ 130816
pairs_of_512 = refl

pub length-unmerged :
    (ks : List Keyed) → length ks ≤ 512 → length (sorted_set (unmerged ks)) ≤ 130816
unfolding unmerged pair_decisions
length-unmerged ks h = omega (
  arith,
  length-sorted_set (unmerged ks),
  length-keep (λ d. not (automatic_merge d)) (pair_decisions ks),
  length-map (λ (q : Keyed × Keyed). compare_keyed q.0 q.1) (pairs ks),
  length-pairs ks,
  triangle_mono (length ks) 512 h,
  pairs_of_512,
)

length-append_to :
    (r : Keyed) (gs : List (List Keyed)) → length (append_to_candidate r gs) ≡ length gs
unfolding append_to_candidate
length-append_to r [] = refl
length-append_to r (g ∷ gs) = ground (arith, length-append_to r gs)

length-place : (gs : List (List Keyed)) (r : Keyed) → length (place gs r) ≤ suc (length gs)
unfolding place
length-place gs r = ground (arith, length-append_to r gs, length-append gs ((r ∷ []) ∷ []))

pub length-group_records :
    (gs : List (List Keyed)) (ks : List Keyed)
    → length (group_records gs ks) ≤ length gs + length ks
unfolding group_records
length-group_records gs [] = omega arith
length-group_records gs (k ∷ ks) =
    omega (arith, length-group_records (place gs k) ks, length-place gs k)

length-traverse {ℓ κ} :
    {A : Type ℓ} {B : Type κ} (f : A → Attempt B) (xs : List A) (ys : List B)
    → traverse f xs ≡ returns ys
    → length ys ≡ length xs
unfolding traverse
length-traverse f [] ys h = let same : [] ≡ ys = ground arith in ap length (sym same)
length-traverse f (x ∷ xs) ys h =
    let (z, one, h') = >>=-eq-returns (f x) _ h in
    let (zs, more, h'') = >>=-eq-returns (traverse f xs) _ h' in
    let same : z ∷ zs ≡ ys = ground arith in
    ap length (sym same) ∙ ap suc (length-traverse f xs zs more)

length-record_tuple :
    (p : Platform) (records ordered : List FindingRecord)
    → record_tuple p records ≡ returns ordered
    → length ordered ≤ 512
unfolding record_tuple
length-record_tuple p records ordered h =
    let (few, h') =
      require->> (leb (length records) 512)
        (value_error (text "too many source records for correlation")) _ h in
    let same : sort_on (record_sort_key p) (dedup records) ≡ ordered = ground arith in
    let short : length (sort_on (record_sort_key p) (dedup records)) ≤ 512 =
      ground (arith, length-sort_on (record_sort_key p) (dedup records), length-dedup records) in
    subst (λ rs. length rs ≤ 512) same short

-- Once the records are accepted (512 at most), neither of the two limits of the result can be
-- passed: there are at most 512 groups, and at most 130,816 decisions, below the limit of 131,000.
pub group-within_limits :
    (p : Platform) (records ordered : List FindingRecord) (ks : List Keyed)
    → record_tuple p records ≡ returns ordered
    → traverse (keyed p) ordered ≡ returns ks
    → (length (group_records [] ks) ≤ max_correlation_records)
      × (length (sorted_set (unmerged ks)) ≤ 130816)
      × (130816 < max_unmerged_decisions)
group-within_limits p records ordered ks h k =
    let few : length ks ≤ 512 =
      omega
        (arith, length-traverse (keyed p) ordered ks k, length-record_tuple p records ordered h) in
    (omega (arith, length-group_records [] ks, few), length-unmerged ks few, omega arith)
