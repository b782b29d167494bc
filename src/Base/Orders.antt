-- ===== src/Base/Orders.antt =====
-- Total orders with a Boolean test, as Python's comparison gives on strings, enumerations of
-- strings and the dataclasses that hold one string. Equality is comparison both ways.
use red_forge.Base.Tests.{leb}
use Prim.Native.Nat.{ℕ}
use mathlib.Core.Path.{◌≡◌, refl}
use mathlib.Core.Logic.{◌≢◌}
use mathlib.Core.Bool.{Bool, true, false, not, ◌&&◌, ◌||◌}
use mathlib.Core.List.{List, [], ◌∷◌, ◌++◌}
use native.Mathlib.Omega.{arith}

pub record Order {ℓ} (A : Type ℓ) : Type ℓ where
  pub le : A → A → Bool
  pub le_total : (a b : A) → le a b ≡ false → le b a ≡ true
  pub le_trans : (a b c : A) → le a b ≡ true → le b c ≡ true → le a c ≡ true
  pub le_antisym : (a b : A) → le a b ≡ true → le b a ≡ true → a ≡ b

pub leb_total : (a b : ℕ) → leb a b ≡ false → leb b a ≡ true
leb_total a b h = ground arith

pub leb_trans : (a b c : ℕ) → leb a b ≡ true → leb b c ≡ true → leb a c ≡ true
leb_trans a b c h k = ground arith

pub leb_antisym : (a b : ℕ) → leb a b ≡ true → leb b a ≡ true → a ≡ b
leb_antisym a b h k = ground arith

instance abbrev pub nat_order : Order ℕ
nat_order = record {
  le = leb;
  le_total = leb_total;
  le_trans = leb_trans;
  le_antisym = leb_antisym;
}

module _ {ℓ} {A : Type ℓ} ⦃o : Order A⦄ where
  infix 50 ◌==◌
  abbrev pub ◌==◌ : A → A → Bool
  a == b = o.le a b && o.le b a

  pub le_refl : (a : A) → o.le a a ≡ true
  le_refl a = ground (arith, o.le_total a a)

  pub eq_refl : (a : A) → (a == a) ≡ true
  eq_refl a = ground (arith, le_refl a)

  pub eq→≡ : (a b : A) → (a == b) ≡ true → a ≡ b
  eq→≡ a b h = ground (arith, o.le_antisym a b)

  pub ≡→eq : (a b : A) → a ≡ b → (a == b) ≡ true
  ≡→eq a b e = rw e (eq_refl b)

  pub eq-false→≢ : (a b : A) → (a == b) ≡ false → a ≢ b
  eq-false→≢ a b h e = cc (≡→eq a b e)

  -- `a in xs`
  unfoldable pub contains : A → List A → Bool
  contains a [] = false
  contains a (x ∷ xs) = a == x || contains a xs

  -- `set(xs).issubset(ys)`
  unfoldable pub subset : List A → List A → Bool
  subset [] ys = true
  subset (x ∷ xs) ys = contains x ys && subset xs ys

  -- `len(xs) == len(set(xs))`
  unfoldable pub distinct : List A → Bool
  unfolding contains
  distinct [] = true
  distinct (x ∷ xs) = not (contains x xs) && distinct xs

  pub contains-append :
      (a : A) (xs ys : List A) → contains a (xs ++ ys) ≡ (contains a xs || contains a ys)
  unfolding contains
  contains-append a [] ys = refl
  contains-append a (x ∷ xs) ys = ground (arith, contains-append a xs ys)

  pub contains-subset :
      (a : A) (xs ys : List A) → subset xs ys ≡ true → contains a xs ≡ true → contains a ys ≡ true
  unfolding subset contains
  contains-subset a [] ys h k = cc
  contains-subset a (x ∷ xs) ys h k = ground (arith, o.le_antisym a x, contains-subset a xs ys)

  pub subset_of :
      (xs ys : List A)
      → ((a : A) → contains a xs ≡ true → contains a ys ≡ true)
      → subset xs ys ≡ true
  unfolding subset contains
  subset_of [] ys h = refl
  subset_of (x ∷ xs) ys h =
      ground (arith, h x, le_refl x, subset_of xs ys (λ a m. h a (ground arith)))
