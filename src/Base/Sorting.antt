-- ===== src/Base/Sorting.antt =====
-- `sorted` and `set` of Python, for keys in a total order: a stable insertion sort, and the removal
-- of repetitions. A sorted list without repetitions is determined by its members.
use red_forge.Base.Tests.{Bool-cases, if◌then◌else◌}
use red_forge.Base.Lists.{All}
use red_forge.Base.Orders.{Order, ◌==◌, le_refl, contains, distinct}
use mathlib.Core.Path.{◌≡◌, refl, ap, ap₂, ◌∙◌}
use mathlib.Core.Logic.{inl, inr}
use mathlib.Core.Bool.{Bool, true, false, not, ◌&&◌, ◌||◌}
use mathlib.Core.List.{List, [], ◌∷◌}
use native.Mathlib.Omega.{arith}

module _ {ℓ κ} {A : Type ℓ} {B : Type κ} ⦃o : Order A⦄ where
  unfoldable pub insert_on : (B → A) → B → List B → List B
  insert_on f x [] = x ∷ []
  insert_on f x (y ∷ ys) = if o.le (f x) (f y) then x ∷ y ∷ ys else y ∷ insert_on f x ys

  -- `sorted(xs, key=f)`
  unfoldable pub sort_on : (B → A) → List B → List B
  unfolding insert_on
  sort_on f [] = []
  sort_on f (x ∷ xs) = insert_on f x (sort_on f xs)

  pub All-insert_on {μ} :
      (f : B → A) (P : B → Type μ) (x : B) (xs : List B) → P x → All P xs → All P (insert_on f x xs)
  unfolding insert_on
  All-insert_on f P x [] h hs = (h, tt)
  All-insert_on f P x (y ∷ ys) h hs = elim (Bool-cases (o.le (f x) (f y))) [
    | inl e ↦ rw e (h, (hs.0, hs.1))
    | inr e ↦ rw e (hs.0, All-insert_on f P x ys h hs.1)
  ]

  pub All-sort_on {μ} : (f : B → A) (P : B → Type μ) (xs : List B) → All P xs → All P (sort_on f xs)
  unfolding sort_on
  All-sort_on f P [] hs = tt
  All-sort_on f P (x ∷ xs) hs = All-insert_on f P x (sort_on f xs) hs.0 (All-sort_on f P xs hs.1)

module _ {ℓ} {A : Type ℓ} ⦃o : Order A⦄ where
  -- `sorted(xs)`
  unfoldable pub sort : List A → List A
  unfolding sort_on
  sort xs = sort_on (λ x. x) xs

  -- `set(xs)`, as the list of its members
  unfoldable pub dedup : List A → List A
  unfolding contains
  dedup [] = []
  dedup (x ∷ xs) = let rest = dedup xs in if contains x rest then rest else x ∷ rest

  -- `sorted(set(xs))`
  unfoldable pub sorted_set : List A → List A
  unfolding sort dedup
  sorted_set xs = sort (dedup xs)

  unfoldable pub list_eq : List A → List A → Bool
  list_eq [] [] = true
  list_eq (x ∷ xs) (y ∷ ys) = x == y && list_eq xs ys
  list_eq _ _ = false

  pub list_eq_refl : (xs : List A) → list_eq xs xs ≡ true
  unfolding list_eq
  list_eq_refl [] = refl
  list_eq_refl (x ∷ xs) = ground (arith, le_refl x, list_eq_refl xs)

  pub list_eq→≡ : (xs ys : List A) → list_eq xs ys ≡ true → xs ≡ ys
  unfolding list_eq
  list_eq→≡ [] [] h = refl
  list_eq→≡ [] (y ∷ ys) h = cc
  list_eq→≡ (x ∷ xs) [] h = cc
  list_eq→≡ (x ∷ xs) (y ∷ ys) h = ground (arith, o.le_antisym x y, list_eq→≡ xs ys)

  pub contains-insert_on :
      (a x : A) (xs : List A) → contains a (insert_on (λ y. y) x xs) ≡ (a == x || contains a xs)
  unfolding insert_on contains
  contains-insert_on a x [] = refl
  contains-insert_on a x (y ∷ ys) = ground (arith, contains-insert_on a x ys)

  pub contains-sort : (a : A) (xs : List A) → contains a (sort xs) ≡ contains a xs
  unfolding sort contains
  contains-sort a [] = refl
  contains-sort a (x ∷ xs) =
      contains-insert_on a x (sort xs) ∙ ap (λ b. a == x || b) (contains-sort a xs)

  pub contains-dedup : (a : A) (xs : List A) → contains a (dedup xs) ≡ contains a xs
  unfolding dedup contains
  contains-dedup a [] = refl
  contains-dedup a (x ∷ xs) =
      ground (arith, o.le_antisym a x, contains-dedup a xs, contains-dedup x xs)

  pub contains-sorted_set : (a : A) (xs : List A) → contains a (sorted_set xs) ≡ contains a xs
  unfolding sorted_set
  contains-sorted_set a xs = contains-sort a (dedup xs) ∙ contains-dedup a xs

  pub distinct-insert_on :
      (x : A) (xs : List A)
      → distinct (insert_on (λ y. y) x xs) ≡ (not (contains x xs) && distinct xs)
  unfolding insert_on distinct
  distinct-insert_on x [] = refl
  distinct-insert_on x (y ∷ ys) = ground (arith, contains-insert_on y x ys, distinct-insert_on x ys)

  pub distinct-sort : (xs : List A) → distinct (sort xs) ≡ distinct xs
  unfolding sort distinct
  distinct-sort [] = refl
  distinct-sort (x ∷ xs) =
      distinct-insert_on x (sort xs)
      ∙ ap₂ (λ a b. not a && b) (contains-sort x xs) (distinct-sort xs)

  pub distinct-dedup : (xs : List A) → distinct (dedup xs) ≡ true
  unfolding dedup distinct
  distinct-dedup [] = refl
  distinct-dedup (x ∷ xs) = ground (arith, distinct-dedup xs)

  pub distinct-sorted_set : (xs : List A) → distinct (sorted_set xs) ≡ true
  unfolding sorted_set
  distinct-sorted_set xs = distinct-sort (dedup xs) ∙ distinct-dedup xs
