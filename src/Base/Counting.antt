-- ===== src/Base/Counting.antt =====
-- Lengths: of a list without repetition and of one that contains it, of sorted lists and of sets.
use red_forge.Base.Tests.{if◌then◌else◌, Bool-cases}
use red_forge.Base.Lists.{length}
use red_forge.Base.Sorting.{insert_on, sort_on, dedup, contains-dedup}
use red_forge.Base.Orders.{
  Order, ◌==◌, contains, subset, distinct, eq→≡, contains-subset, subset_of,
}
use mathlib.Core.Path.{refl, ap, ◌∙◌}
use mathlib.Core.Bool.{◌||◌}
use red_forge.Base.Orders.{eq_refl}
use Prim.Native.Nat.{suc, ◌≤◌}
use mathlib.Core.Path.{◌≡◌}
use mathlib.Core.Logic.{inl, inr}
use mathlib.Core.Bool.{true, false}
use mathlib.Core.List.{List, [], ◌∷◌}
use native.Mathlib.Omega.{arith}

module _ {ℓ} {A : Type ℓ} ⦃o : Order A⦄ where
  -- The list without the first occurrence of a member.
  unfoldable pub without : A → List A → List A
  without x [] = []
  without x (y ∷ ys) = if x == y then ys else y ∷ without x ys

  length-without :
      (x : A) (ys : List A) → contains x ys ≡ true → suc (length (without x ys)) ≡ length ys
  unfolding without contains
  length-without x [] h = absurd (cc)
  length-without x (y ∷ ys) h = ground (arith, length-without x ys)

  contains-without :
      (a x : A) (ys : List A)
      → contains a ys ≡ true
      → (a == x) ≡ false
      → contains a (without x ys) ≡ true
  unfolding without contains
  contains-without a x [] h k = h
  contains-without a x (y ∷ ys) h k = ground (arith, contains-without a x ys, o.le_antisym x y)

  pub distinct-subset-length :
      (xs ys : List A) → distinct xs ≡ true → subset xs ys ≡ true → length xs ≤ length ys
  unfolding distinct subset
  distinct-subset-length [] ys d s = omega arith
  distinct-subset-length (x ∷ xs) ys d s =
      let one = length-without x ys (ground arith) in
      let rest = distinct-subset-length xs (without x ys) (ground arith) (
        subset_of xs (without x ys) (λ a member.
          contains-without a x ys (contains-subset a xs ys (ground arith) member)
            (differs a member (ground arith)))) in
      omega (arith, one, rest)
    where
      differs : (a : A) → contains a xs ≡ true → contains x xs ≡ false → (a == x) ≡ false
      differs a member absent = elim (Bool-cases (a == x)) [
        | inl e ↦ absurd (cc (eq→≡ a x e, member, absent))
        | inr e ↦ e
      ]

module _ {ℓ κ} {A : Type ℓ} {B : Type κ} ⦃o : Order A⦄ where
  length-insert_on : (f : B → A) (x : B) (xs : List B) → length (insert_on f x xs) ≡ suc (length xs)
  unfolding insert_on
  length-insert_on f x [] = refl
  length-insert_on f x (y ∷ ys) = ground (arith, length-insert_on f x ys)

  pub length-sort_on : (f : B → A) (xs : List B) → length (sort_on f xs) ≡ length xs
  unfolding sort_on
  length-sort_on f [] = refl
  length-sort_on f (x ∷ xs) = length-insert_on f x (sort_on f xs) ∙ ap suc (length-sort_on f xs)

module _ {ℓ} {A : Type ℓ} ⦃o : Order A⦄ where
  contains-nonempty : (x : A) (xs : List A) → contains x xs ≡ true → 1 ≤ length xs
  unfolding contains
  contains-nonempty x [] h = absurd (cc)
  contains-nonempty x (y ∷ ys) h = omega arith

  pub length-dedup : (xs : List A) → length (dedup xs) ≤ length xs
  unfolding dedup
  length-dedup [] = omega arith
  length-dedup (x ∷ xs) = ground (arith, length-dedup xs)

  pub dedup-nonempty : (xs : List A) → 1 ≤ length xs → 1 ≤ length (dedup xs)
  unfolding contains
  dedup-nonempty [] h = absurd (omega arith)
  dedup-nonempty (x ∷ xs) h =
      contains-nonempty x (dedup (x ∷ xs))
        (contains-dedup x (x ∷ xs) ∙ ap (λ b. b || contains x xs) (eq_refl x))
