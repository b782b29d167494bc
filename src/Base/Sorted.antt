-- ===== src/Base/Sorted.antt =====
-- Sorted lists: what `sort` returns, that it leaves them alone, and that a sorted list without
-- repetitions is determined by its members.
use red_forge.Base.Tests.{Bool-cases}
use red_forge.Base.Lists.{All, All-map}
use red_forge.Base.Orders.{Order, le_refl, contains, distinct}
use red_forge.Base.Sorting.{
  insert_on, sort, dedup, sorted_set, All-insert_on, contains-sort, contains-sorted_set,
  distinct-sort, distinct-sorted_set,
}
use mathlib.Core.Path.{◌≡◌, refl, sym, ap, subst, ◌∙◌}
use mathlib.Core.Logic.{inl, inr}
use mathlib.Core.Bool.{true, false}
use mathlib.Core.List.{List, [], ◌∷◌}
use native.Mathlib.Omega.{arith}

module _ {ℓ} {A : Type ℓ} ⦃o : Order A⦄ where
  abbrev pub Below : A → List A → Type 0
  Below x xs = All (λ y. o.le x y ≡ true) xs

  abbrev pub Ascending : List A → Type 0
  Ascending [] = Unit
  Ascending (x ∷ xs) = Below x xs × Ascending xs

  Below-contains : (x a : A) (xs : List A) → Below x xs → contains a xs ≡ true → o.le x a ≡ true
  unfolding contains
  Below-contains x a [] b m = cc
  Below-contains x a (y ∷ ys) b m = ground (arith, o.le_antisym a y, Below-contains x a ys b.1)

  Below-trans : (x y : A) (ys : List A) → o.le x y ≡ true → Below y ys → Below x ys
  Below-trans x y ys h b =
      All-map (λ z. o.le y z ≡ true) (λ z. o.le x z ≡ true) ys (λ z k. o.le_trans x y z h k) b

  Ascending-insert_on : (x : A) (xs : List A) → Ascending xs → Ascending (insert_on (λ y. y) x xs)
  unfolding insert_on
  Ascending-insert_on x [] h = (tt, tt)
  Ascending-insert_on x (y ∷ ys) h = elim (Bool-cases (o.le x y)) [
    | inl e ↦ rw e ((e, Below-trans x y ys e h.0), h)
    | inr e ↦ rw e (
      All-insert_on (λ z. z) (λ z. o.le y z ≡ true) x ys (o.le_total x y e) h.0,
      Ascending-insert_on x ys h.1,
    )
  ]

  pub sort-Ascending : (xs : List A) → Ascending (sort xs)
  unfolding sort
  sort-Ascending [] = tt
  sort-Ascending (x ∷ xs) = Ascending-insert_on x (sort xs) (sort-Ascending xs)

  insert_on-Below : (x : A) (xs : List A) → Below x xs → insert_on (λ y. y) x xs ≡ x ∷ xs
  unfolding insert_on
  insert_on-Below x [] h = refl
  insert_on-Below x (y ∷ ys) h = rw (h.0)

  pub sort_of_Ascending : (xs : List A) → Ascending xs → sort xs ≡ xs
  unfolding sort
  sort_of_Ascending [] h = refl
  sort_of_Ascending (x ∷ xs) h =
      ap (insert_on (λ y. y) x) (sort_of_Ascending xs h.1) ∙ insert_on-Below x xs h.0

  pub sort_idem : (xs : List A) → sort (sort xs) ≡ sort xs
  sort_idem xs = sort_of_Ascending (sort xs) (sort-Ascending xs)

  abbrev pub SameMembers : List A → List A → Type ℓ
  SameMembers xs ys = (a : A) → contains a xs ≡ contains a ys

  SameMembers-tail :
      (x : A) (xs ys : List A)
      → contains x xs ≡ false
      → contains x ys ≡ false
      → SameMembers (x ∷ xs) (x ∷ ys)
      → SameMembers xs ys
  unfolding contains
  SameMembers-tail x xs ys p q h a = ground (arith, h a, o.le_antisym a x)

  heads_agree :
      (x y : A) (xs ys : List A) → Below x xs → Below y ys → SameMembers (x ∷ xs) (y ∷ ys) → x ≡ y
  unfolding contains
  heads_agree x y xs ys b c h = ground (
    arith,
    h x,
    h y,
    le_refl x,
    le_refl y,
    o.le_antisym x y,
    Below-contains x y xs b,
    Below-contains y x ys c,
  )

  pub Ascending-ext :
      (xs ys : List A)
      → Ascending xs
      → Ascending ys
      → distinct xs ≡ true
      → distinct ys ≡ true
      → SameMembers xs ys
      → xs ≡ ys
  unfolding contains distinct
  Ascending-ext [] [] p q d e h = refl
  Ascending-ext [] (y ∷ ys) p q d e h = ground (arith, h y, le_refl y)
  Ascending-ext (x ∷ xs) [] p q d e h = ground (arith, h x, le_refl x)
  Ascending-ext (x ∷ xs) (y ∷ ys) p q d e h =
      let same = heads_agree x y xs ys p.0 q.0 h in
      let h' = subst (λ z. SameMembers (x ∷ xs) (z ∷ ys)) (sym same) h in
      let e' = subst (λ z. distinct (z ∷ ys) ≡ true) (sym same) e in
      cc (
        same,
        Ascending-ext xs ys p.1 q.1 (ground arith) (ground arith)
            (SameMembers-tail x xs ys (ground arith) (ground arith) h'),
      )

  pub sort_ext :
      (xs ys : List A)
      → distinct xs ≡ true
      → distinct ys ≡ true
      → SameMembers xs ys
      → sort xs ≡ sort ys
  sort_ext xs ys d e h =
      Ascending-ext (sort xs) (sort ys) (sort-Ascending xs) (sort-Ascending ys)
        (distinct-sort xs ∙ d) (distinct-sort ys ∙ e)
        (λ a. contains-sort a xs ∙ h a ∙ sym (contains-sort a ys))

  pub sorted_set-Ascending : (xs : List A) → Ascending (sorted_set xs)
  unfolding sorted_set
  sorted_set-Ascending xs = sort-Ascending (dedup xs)

  pub sort-sorted_set : (xs : List A) → sort (sorted_set xs) ≡ sorted_set xs
  sort-sorted_set xs = sort_of_Ascending (sorted_set xs) (sorted_set-Ascending xs)

  pub sorted_set_ext : (xs ys : List A) → SameMembers xs ys → sorted_set xs ≡ sorted_set ys
  sorted_set_ext xs ys h =
      Ascending-ext (sorted_set xs) (sorted_set ys) (sorted_set-Ascending xs)
        (sorted_set-Ascending ys) (distinct-sorted_set xs) (distinct-sorted_set ys)
        (λ a. contains-sorted_set a xs ∙ h a ∙ sym (contains-sorted_set a ys))
