-- ===== src/Sdk/CapabilityId.antt =====
-- redforge/sdk/capability_id.py. `str.strip` and `str.lower` are Python's, on code points; beyond
-- ASCII `lower` keeps only the letter whose lower case is ASCII, which is all that a test for ASCII
-- letters afterwards can see.
pub mod Grammar
use red_forge.Base.{
  ℕ, ◌+◌, ◌≡◌, refl, sym, ap, Bool, true, false, not, ◌&&◌, ◌||◌, List, [], ◌∷◌, ◌++◌, map, arith,
  Order, ◌==◌, nat_order, leb, all, any, if◌then◌else◌, Text, text, text_le, text_le_total,
  text_le_trans, text_le_antisym, text_order,
}
use red_forge.Sdk.Exception.{Exception, value_error, Attempt, returns, raises}
use mathlib.Core.List.{reverse}

abbrev pub is_lower : ℕ → Bool
is_lower c = leb 97 c && leb c 122

abbrev pub is_upper : ℕ → Bool
is_upper c = leb 65 c && leb c 90

abbrev pub is_digit : ℕ → Bool
is_digit c = leb 48 c && leb c 57

-- `c.isascii() and c.isalnum()`
abbrev pub is_alnum : ℕ → Bool
is_alnum c = is_lower c || is_upper c || is_digit c

-- The white space of `str.strip`.
abbrev pub is_space : ℕ → Bool
is_space c =
    (leb 9 c && leb c 13)
    || (leb 28 c && leb c 32)
    || c == 133
    || c == 160
    || c == 5760
    || (leb 8192 c && leb c 8202)
    || c == 8232
    || c == 8233
    || c == 8239
    || c == 8287
    || c == 12288

-- `s.lstrip()`
unfoldable pub lstrip : Text → Text
lstrip [] = []
lstrip (c ∷ s) = if is_space c then lstrip s else c ∷ s

-- `s.strip()`
unfoldable pub strip : Text → Text
unfolding lstrip
strip s = reverse (lstrip (reverse (lstrip s)))

-- `s.lower()`; 8490 is the Kelvin sign.
abbrev pub to_lower : ℕ → ℕ
to_lower c = if is_upper c then c + 32 else if c == 8490 then 107 else c

abbrev pub lower : Text → Text
lower s = map to_lower s

abbrev pub underscore : ℕ
underscore = 95

-- `s[-1]` of `c ∷ s`
unfoldable pub last_or : ℕ → Text → ℕ
last_or c [] = c
last_or c (d ∷ s) = last_or d s

abbrev pub starts_with_underscore : Text → Bool
starts_with_underscore [] = false
starts_with_underscore (c ∷ s) = c == underscore

-- `"__" in s`
unfoldable pub has_double : Text → Bool
has_double [] = false
has_double (c ∷ s) = (c == underscore && starts_with_underscore s) || has_double s

-- The test of `CapabilityId.__post_init__`, clause by clause.
unfoldable pub is_valid : Text → Bool
unfolding strip last_or has_double all text_le
is_valid [] = false
is_valid (c ∷ s) =
    (c ∷ s) == lower (strip (c ∷ s))
    && is_lower c
    && not (c == underscore)
    && not (last_or c s == underscore)
    && not (has_double (c ∷ s))
    && all (λ d. is_alnum d || d == underscore) (c ∷ s)

pub record CapabilityId : Type 0 where
  pub value : Text

-- `CapabilityId(s)`, and `normalize_capability_id(s)` of a string
unfoldable pub capability_id : Text → Attempt CapabilityId
unfolding is_valid
capability_id s =
    if is_valid s
    then returns (record { value = s })
    else raises (value_error (text "capability ID is invalid"))

unfoldable pub id_le : CapabilityId → CapabilityId → Bool
unfolding text_le
id_le a b = text_le a.value b.value

pub id_le_total : (a b : CapabilityId) → id_le a b ≡ false → id_le b a ≡ true
unfolding id_le
id_le_total a b h = text_le_total a.value b.value h

pub id_le_trans : (a b c : CapabilityId) → id_le a b ≡ true → id_le b c ≡ true → id_le a c ≡ true
unfolding id_le
id_le_trans a b c p q = text_le_trans a.value b.value c.value p q

pub id_le_antisym : (a b : CapabilityId) → id_le a b ≡ true → id_le b a ≡ true → a ≡ b
unfolding id_le
id_le_antisym a b p q = cc (text_le_antisym a.value b.value p q)

-- `@dataclass(order=True)` compares the one field.
instance abbrev pub id_order : Order CapabilityId
id_order = record {
  le = id_le;
  le_total = id_le_total;
  le_trans = id_le_trans;
  le_antisym = id_le_antisym;
}
