-- ===== src/Domain/Correlation/Group/Partition.antt =====
-- The groups of the loop: every record in one of them, and all records of a group merge.
use red_forge.Base.{
  ℕ, ◌+◌, ◌≡◌, Bool, true, false, List, [], ◌∷◌, ◌++◌, ◌==◌, nat_order, if◌then◌else◌, all, All,
  All-append, Bool-cases, inl, inr, arith, eq→≡,
}
use red_forge.Domain.Correlation.Compare.{Keyed}
use red_forge.Domain.Correlation.Group.{
  merges, fits, candidates, append_to_candidate, place, group_records,
}

-- How many of the records pass a test.
unfoldable pub count : (Keyed → Bool) → List Keyed → ℕ
count test [] = 0
count test (r ∷ rs) = if test r then 1 + count test rs else count test rs

unfoldable pub count_all : (Keyed → Bool) → List (List Keyed) → ℕ
unfolding count
count_all test [] = 0
count_all test (g ∷ gs) = count test g + count_all test gs

-- Every record of the group merges with those that were there before it.
abbrev pub MergesWithin : List Keyed → Type 0
MergesWithin [] = Unit
MergesWithin (r ∷ rs) = All (λ s. merges r s ≡ true) rs × MergesWithin rs

count-append :
    (test : Keyed → Bool) (g h : List Keyed) → count test (g ++ h) ≡ count test g + count test h
unfolding count
count-append test [] h = omega arith
count-append test (r ∷ g) h = ground (arith, count-append test g h)

count_all-append :
    (test : Keyed → Bool) (gs hs : List (List Keyed))
    → count_all test (gs ++ hs) ≡ count_all test gs + count_all test hs
unfolding count_all
count_all-append test [] hs = omega arith
count_all-append test (g ∷ gs) hs = omega (arith, count_all-append test gs hs)

-- With a candidate, the record is added to a group.
count_all-append_to :
    (test : Keyed → Bool) (r : Keyed) (groups : List (List Keyed))
    → (candidates r groups == 0) ≡ false
    → count_all test (append_to_candidate r groups) ≡ count_all test groups + count test (r ∷ [])
unfolding candidates append_to_candidate count_all
count_all-append_to test r [] h = absurd (cc)
count_all-append_to test r (g ∷ groups) h = elim (Bool-cases (fits r g)) [
  | inl e ↦ rw e (omega (arith, count-append test g (r ∷ [])))
  | inr e ↦
      let h' : (candidates r groups == 0) ≡ false = rw e at h in
      rw e (omega (arith, count_all-append_to test r groups h'))
]

count_all-snoc :
    (test : Keyed → Bool) (groups : List (List Keyed)) (r : Keyed)
    → count_all test (groups ++ ((r ∷ []) ∷ [])) ≡ count_all test groups + count test (r ∷ [])
unfolding count_all
count_all-snoc test groups r = omega (arith, count_all-append test groups ((r ∷ []) ∷ []))

count_all-place :
    (test : Keyed → Bool) (groups : List (List Keyed)) (r : Keyed)
    → count_all test (place groups r) ≡ count_all test groups + count test (r ∷ [])
unfolding place
count_all-place test groups r = elim (Bool-cases (candidates r groups == 1)) [
  | inl e ↦
      rw e (count_all-append_to test r groups (ground (arith, eq→≡ (candidates r groups) 1 e)))
  | inr e ↦ rw e (count_all-snoc test groups r)
]

pub count_all-group_records :
    (test : Keyed → Bool) (groups : List (List Keyed)) (rs : List Keyed)
    → count_all test (group_records groups rs) ≡ count_all test groups + count test rs
unfolding group_records count
count_all-group_records test groups [] = omega arith
count_all-group_records test groups (r ∷ rs) =
    ground (arith, count_all-group_records test (place groups r) rs, count_all-place test groups r)

MergesWithin-append :
    (g : List Keyed) (r : Keyed) → MergesWithin g → fits r g ≡ true → MergesWithin (g ++ (r ∷ []))
unfolding fits all
MergesWithin-append [] r h f = (tt, tt)
MergesWithin-append (s ∷ g) r h f = (
  All-append (λ t. merges s t ≡ true) g (r ∷ []) h.0 (ground arith, tt),
  MergesWithin-append g r h.1 (ground arith),
)

append_to-MergesWithin :
    (r : Keyed) (groups : List (List Keyed))
    → All MergesWithin groups
    → All MergesWithin (append_to_candidate r groups)
unfolding append_to_candidate
append_to-MergesWithin r [] h = tt
append_to-MergesWithin r (g ∷ groups) h = elim (Bool-cases (fits r g)) [
  | inl e ↦ rw e (MergesWithin-append g r h.0 e, h.1)
  | inr e ↦ rw e (h.0, append_to-MergesWithin r groups h.1)
]

place-MergesWithin :
    (groups : List (List Keyed)) (r : Keyed)
    → All MergesWithin groups
    → All MergesWithin (place groups r)
unfolding place
place-MergesWithin groups r h = elim (Bool-cases (candidates r groups == 1)) [
  | inl e ↦ rw e (append_to-MergesWithin r groups h)
  | inr e ↦ rw e (All-append MergesWithin groups ((r ∷ []) ∷ []) h ((tt, tt), tt))
]

group_records-MergesWithin :
    (groups : List (List Keyed)) (rs : List Keyed)
    → All MergesWithin groups
    → All MergesWithin (group_records groups rs)
unfolding group_records
group_records-MergesWithin groups [] h = h
group_records-MergesWithin groups (r ∷ rs) h =
    group_records-MergesWithin (place groups r) rs (place-MergesWithin groups r h)

-- The groups are a partition of the records: whatever is counted, there are as many such records in
-- all groups together as in the input. In each group every two records merge automatically.
pub group_records-partition :
    (rs : List Keyed)
    → ((test : Keyed → Bool) → count_all test (group_records [] rs) ≡ count test rs)
      × All MergesWithin (group_records [] rs)
unfolding count_all
group_records-partition rs =
    (λ test. omega (arith, count_all-group_records test [] rs), group_records-MergesWithin [] rs tt)
