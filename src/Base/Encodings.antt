-- ===== src/Base/Encodings.antt =====
-- Orders built from others: Python compares sequences and tuples item by item, first to last, and
-- a dataclass with `order=True` as the tuple of its fields. An order carries over along an encoding
-- that can be read back.
use red_forge.Base.Tests.{leb, if◌then◌else◌}
use red_forge.Base.Orders.{Order, ◌==◌, nat_order}
use red_forge.Base.Texts.{Text, text_le, text_order}
use Prim.Native.Nat.{ℕ}
use mathlib.Core.Path.{◌≡◌, refl, sym, ap, ◌∙◌}
use mathlib.Core.Bool.{Bool, true, false, not, ◌&&◌, ◌||◌}
use mathlib.Core.List.{List, [], ◌∷◌}
use mathlib.Core.Option.{Option, none, some}
use native.Mathlib.Omega.{arith}

module _ {ℓ} {A : Type ℓ} ⦃o : Order A⦄ where
  unfoldable pub list_le : List A → List A → Bool
  list_le [] ys = true
  list_le (x ∷ xs) [] = false
  list_le (x ∷ xs) (y ∷ ys) = let rest = list_le xs ys in o.le x y && (not (o.le y x) || rest)

  pub list_le_total : (xs ys : List A) → list_le xs ys ≡ false → list_le ys xs ≡ true
  unfolding list_le
  list_le_total [] ys h = absurd (cc)
  list_le_total (x ∷ xs) [] h = refl
  list_le_total (x ∷ xs) (y ∷ ys) h =
      ground (arith, o.le_total x y, o.le_total y x, list_le_total xs ys)

  pub list_le_trans :
      (xs ys zs : List A) → list_le xs ys ≡ true → list_le ys zs ≡ true → list_le xs zs ≡ true
  unfolding list_le
  list_le_trans [] ys zs h k = refl
  list_le_trans (x ∷ xs) [] zs h k = absurd (cc)
  list_le_trans (x ∷ xs) (y ∷ ys) [] h k = absurd (cc)
  list_le_trans (x ∷ xs) (y ∷ ys) (z ∷ zs) h k =
      ground (arith, o.le_trans x y z, o.le_trans z x y, o.le_trans y z x, list_le_trans xs ys zs)

  pub list_le_antisym : (xs ys : List A) → list_le xs ys ≡ true → list_le ys xs ≡ true → xs ≡ ys
  unfolding list_le
  list_le_antisym [] [] h k = refl
  list_le_antisym [] (y ∷ ys) h k = absurd (cc)
  list_le_antisym (x ∷ xs) [] h k = absurd (cc)
  list_le_antisym (x ∷ xs) (y ∷ ys) h k = ground (arith, o.le_antisym x y, list_le_antisym xs ys)

  abbrev pub list_order : Order (List A)
  list_order = record {
    le = list_le;
    le_total = list_le_total;
    le_trans = list_le_trans;
    le_antisym = list_le_antisym;
  }

module _ {ℓ κ} {A : Type ℓ} {B : Type κ} ⦃o : Order A⦄ ⦃q : Order B⦄ where
  abbrev pub pair_le : A × B → A × B → Bool
  pair_le (a, b) (c, d) = let rest = q.le b d in o.le a c && (not (o.le c a) || rest)

  pub pair_le_total : (x y : A × B) → pair_le x y ≡ false → pair_le y x ≡ true
  pair_le_total (a, b) (c, d) h = ground (arith, o.le_total a c, o.le_total c a, q.le_total b d)

  pub pair_le_trans : (x y z : A × B) → pair_le x y ≡ true → pair_le y z ≡ true → pair_le x z ≡ true
  pair_le_trans (a, b) (c, d) (e, f) h k =
      ground (arith, o.le_trans a c e, o.le_trans e a c, o.le_trans c e a, q.le_trans b d f)

  pub pair_le_antisym : (x y : A × B) → pair_le x y ≡ true → pair_le y x ≡ true → x ≡ y
  pair_le_antisym (a, b) (c, d) h k = ground (arith, o.le_antisym a c, q.le_antisym b d)

  instance abbrev pub pair_order : Order (A × B)
  pair_order = record {
    le = pair_le;
    le_total = pair_le_total;
    le_trans = pair_le_trans;
    le_antisym = pair_le_antisym;
  }

-- The order of the encoded values, for an encoding `f` that `g` reads back.
abbrev pub order_along {ℓ κ} :
    {A : Type ℓ} {B : Type κ} ⦃o : Order A⦄ (f : B → A) (g : A → B)
    → ((b : B) → g (f b) ≡ b)
    → Order B
order_along ⦃o⦄ f g back = record {
  le = λ x y. o.le (f x) (f y);
  le_total = λ x y h. o.le_total (f x) (f y) h;
  le_trans = λ x y z h k. o.le_trans (f x) (f y) (f z) h k;
  le_antisym = λ x y h k. sym (back x) ∙ ap g (o.le_antisym (f x) (f y) h k) ∙ back y;
}

instance abbrev pub texts_order : Order (List Text)
texts_order = list_order

instance abbrev pub text_table_order : Order (List (List Text))
text_table_order = list_order

-- `None`, or a value: the empty list, or a list of one item.
abbrev pub option_list {ℓ} : {A : Type ℓ} → Option A → List A
option_list none = []
option_list (some a) = a ∷ []

abbrev pub list_option {ℓ} : {A : Type ℓ} → List A → Option A
list_option [] = none
list_option (a ∷ _) = some a

pub list_option-option_list {ℓ} : {A : Type ℓ} (o : Option A) → list_option (option_list o) ≡ o
list_option-option_list none = refl
list_option-option_list (some a) = refl

instance abbrev pub option_order {ℓ} : {A : Type ℓ} ⦃o : Order A⦄ → Order (Option A)
option_order = order_along ⦃o = list_order⦄ option_list list_option list_option-option_list

-- `False < True`, as the numbers 0 and 1.
abbrev pub bit : Bool → ℕ
bit false = 0
bit true = 1

abbrev pub from_bit : ℕ → Bool
from_bit n = not (leb n 0)

pub from_bit-bit : (b : Bool) → from_bit (bit b) ≡ b
from_bit-bit false = refl
from_bit-bit true = refl

instance abbrev pub bool_order : Order Bool
bool_order = order_along bit from_bit from_bit-bit

-- `E(s)` of a `StrEnum` E, whose first member stands for the ValueError.
unfoldable pub member_named {ℓ} : {K : Type ℓ} → K → (K → Text) → List K → Text → K
unfolding text_le
member_named d value [] s = d
member_named d value (k ∷ ks) s = if value k == s then k else member_named d value ks s
