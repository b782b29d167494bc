-- ===== src/Domain/Strings.antt =====
-- The methods of Python's `str` that the domain uses, on code points, and what the standard library
-- brings whose tables are no part of the program.
pub mod Splitting
use red_forge.Base.{
  ℕ, zero, suc, ◌+◌, ◌≤◌, ◌≡◌, refl, sym, ap, ◌∙◌, Bool, true, false, ◌||◌, ◌&&◌, not, Option, none,
  some, List, [], ◌∷◌, ◌++◌, ◌==◌, nat_order, leb, ltb, if◌then◌else◌, any, length, Text, text,
  eq_refl, arith, append_assoc, eq→≡, ◌≢◌, Order, text_order, text_le,
}
use red_forge.Sdk.CapabilityId.{strip}
use mathlib.Core.List.{reverse}

-- What `ipaddress.ip_address` returns: the version and the printed form.
pub record IpAddress : Type 0 where
  pub version : ℕ
  pub printed : Text

-- `s.lower()`, `s.upper()`, `s.casefold()`, `unicodedata.normalize("NFKC", s)`, `ip_address(s)`,
-- `s.encode("idna").decode("ascii")` and `sha256(json.dumps(items).encode()).hexdigest()`, of the JSON
-- text in ASCII and (`path_digest`) with its characters as they are; `none` is the exception.
pub record Platform : Type 0 where
  pub lower : Text → Text
  pub upper : Text → Text
  pub casefold : Text → Text
  pub nfkc : Text → Text
  pub ip_address : Text → Option IpAddress
  pub idna : Text → Option Text
  pub digest : List Text → Text
  pub path_digest : List Text → Text

-- `s.startswith(p)`
unfoldable pub starts_with : Text → Text → Bool
starts_with s [] = true
starts_with [] (p ∷ ps) = false
starts_with (c ∷ s) (p ∷ ps) = c == p && starts_with s ps

-- `s.endswith(p)`
unfoldable pub ends_with : Text → Text → Bool
unfolding text_le
ends_with [] p = [] == p
ends_with (c ∷ s) p = (c ∷ s) == p || ends_with s p

-- `p in s`
unfoldable pub has_text : Text → Text → Bool
unfolding starts_with
has_text [] p = starts_with [] p
has_text (c ∷ s) p = starts_with (c ∷ s) p || has_text s p

-- The line breaks and other controls of `ord(c) < 32 or ord(c) == 127`.
abbrev pub is_control : ℕ → Bool
is_control c = ltb c 32 || c == 127

-- `s.split(c)`: the first part, and the others.
abbrev pub Parts : Type 0
Parts = Text × List Text

abbrev pub parts_cons : Bool → ℕ → Parts → Parts
parts_cons true c (part, parts) = ([], part ∷ parts)
parts_cons false c (part, parts) = (c ∷ part, parts)

unfoldable pub split : ℕ → Text → Parts
split d [] = ([], [])
split d (c ∷ s) = parts_cons (c == d) c (split d s)

abbrev pub parts_list : Parts → List Text
parts_list (part, parts) = part ∷ parts

-- `sep.join(parts)` of a separator of one character
unfoldable pub join_rest : ℕ → List Text → Text
join_rest d [] = []
join_rest d (part ∷ parts) = d ∷ (part ++ join_rest d parts)

unfoldable pub join : ℕ → List Text → Text
unfolding join_rest
join d [] = []
join d (part ∷ parts) = part ++ join_rest d parts

abbrev pub dot : ℕ
dot = 46

-- `s[:-1]` of a text that ends with the character, the text otherwise
unfoldable pub without_last : ℕ → Text → Text
without_last d [] = []
without_last d (c ∷ []) = if c == d then [] else c ∷ []
without_last d (c ∷ e ∷ s) = c ∷ without_last d (e ∷ s)
