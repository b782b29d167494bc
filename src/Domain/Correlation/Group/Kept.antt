-- ===== src/Domain/Correlation/Group/Kept.antt =====
-- What holds of the records, or of every two of them, holds within the groups.
use red_forge.Base.{
  List, [], ◌∷◌, ◌++◌, ◌==◌, nat_order, All, All-append, All-map, Bool-cases, inl, inr,
}
use red_forge.Domain.Correlation.Compare.{Keyed}
use red_forge.Domain.Correlation.Group.{fits, candidates, append_to_candidate, place, group_records}

module _ (Q : Keyed → Type 0) where
  append_to-All :
      (r : Keyed) (groups : List (List Keyed))
      → All (All Q) groups
      → Q r
      → All (All Q) (append_to_candidate r groups)
  unfolding append_to_candidate
  append_to-All r [] h q = tt
  append_to-All r (g ∷ groups) h q = elim (Bool-cases (fits r g)) [
    | inl e ↦ rw e (All-append Q g (r ∷ []) h.0 (q, tt), h.1)
    | inr e ↦ rw e (h.0, append_to-All r groups h.1 q)
  ]

  place-All :
      (groups : List (List Keyed)) (r : Keyed)
      → All (All Q) groups
      → Q r
      → All (All Q) (place groups r)
  unfolding place
  place-All groups r h q = elim (Bool-cases (candidates r groups == 1)) [
    | inl e ↦ rw e (append_to-All r groups h q)
    | inr e ↦ rw e (All-append (All Q) groups ((r ∷ []) ∷ []) h ((q, tt), tt))
  ]

  pub group_records-All :
      (groups : List (List Keyed)) (rs : List Keyed)
      → All (All Q) groups
      → All Q rs
      → All (All Q) (group_records groups rs)
  unfolding group_records
  group_records-All groups [] h q = h
  group_records-All groups (r ∷ rs) h q =
      group_records-All (place groups r) rs (place-All groups r h q.0) q.1

module _ (R : Keyed → Keyed → Type 0) where
  -- The relation holds of every record and those after it.
  abbrev pub Pairwise : List Keyed → Type 0
  Pairwise [] = Unit
  Pairwise (r ∷ rs) = All (R r) rs × Pairwise rs

  abbrev Before : List Keyed → List (List Keyed) → Type 0
  Before rs groups = All (All (λ e. All (R e) rs)) groups

  abbrev BeforeOne : Keyed → List (List Keyed) → Type 0
  BeforeOne r groups = All (All (λ e. R e r)) groups

  Pairwise-append :
      (g : List Keyed) (r : Keyed) → Pairwise g → All (λ e. R e r) g → Pairwise (g ++ (r ∷ []))
  Pairwise-append [] r h b = (tt, tt)
  Pairwise-append (e ∷ g) r h b =
      (All-append (R e) g (r ∷ []) h.0 (b.0, tt), Pairwise-append g r h.1 b.1)

  append_to-Pairwise :
      (r : Keyed) (groups : List (List Keyed))
      → All Pairwise groups
      → BeforeOne r groups
      → All Pairwise (append_to_candidate r groups)
  unfolding append_to_candidate
  append_to-Pairwise r [] h b = tt
  append_to-Pairwise r (g ∷ groups) h b = elim (Bool-cases (fits r g)) [
    | inl e ↦ rw e (Pairwise-append g r h.0 b.0, h.1)
    | inr e ↦ rw e (h.0, append_to-Pairwise r groups h.1 b.1)
  ]

  place-Pairwise :
      (groups : List (List Keyed)) (r : Keyed)
      → All Pairwise groups
      → BeforeOne r groups
      → All Pairwise (place groups r)
  unfolding place
  place-Pairwise groups r h b = elim (Bool-cases (candidates r groups == 1)) [
    | inl e ↦ rw e (append_to-Pairwise r groups h b)
    | inr e ↦ rw e (All-append Pairwise groups ((r ∷ []) ∷ []) h ((tt, tt), tt))
  ]

  heads :
      (r : Keyed) (rs : List Keyed) (groups : List (List Keyed))
      → Before (r ∷ rs) groups
      → BeforeOne r groups
  heads r rs groups b =
      All-map (All (λ e. All (R e) (r ∷ rs))) (All (λ e. R e r)) groups
        (λ g h. All-map (λ e. All (R e) (r ∷ rs)) (λ e. R e r) g (λ e k. k.0) h) b

  tails :
      (r : Keyed) (rs : List Keyed) (groups : List (List Keyed))
      → Before (r ∷ rs) groups
      → Before rs groups
  tails r rs groups b =
      All-map (All (λ e. All (R e) (r ∷ rs))) (All (λ e. All (R e) rs)) groups
        (λ g h. All-map (λ e. All (R e) (r ∷ rs)) (λ e. All (R e) rs) g (λ e k. k.1) h) b

  pub group_records-Pairwise :
      (groups : List (List Keyed)) (rs : List Keyed)
      → All Pairwise groups
      → Before rs groups
      → Pairwise rs
      → All Pairwise (group_records groups rs)
  unfolding group_records
  group_records-Pairwise groups [] h b w = h
  group_records-Pairwise groups (r ∷ rs) h b w =
      group_records-Pairwise (place groups r) rs (place-Pairwise groups r h (heads r rs groups b))
        (place-All (λ e. All (R e) rs) groups r (tails r rs groups b) w.0) w.1
