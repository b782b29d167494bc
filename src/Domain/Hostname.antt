-- ===== src/Domain/Hostname.antt =====
-- redforge/domain/hostname.py. Every refusal is the same ValueError, and so is a UnicodeError of the
-- encoding.
pub mod Shape
use red_forge.Base.{
  ℕ, ◌+◌, Bool, true, false, ◌||◌, ◌&&◌, not, Option, none, some, List, [], ◌∷◌, ◌++◌, ◌==◌,
  nat_order, leb, ltb, if◌then◌else◌, any, all, length, Text, text, text_order, text_le, arith,
}
use red_forge.Sdk.Exception.{
  Attempt, returns, raises, ◌>>=◌, ◌>>◌, require, value_error, traverse, Exception,
}
use red_forge.Sdk.CapabilityId.{strip, is_space, is_alnum}
use red_forge.Domain.Strings.{
  Platform, starts_with, ends_with, has_text, is_control, split, parts_list, join, dot,
  without_last,
}

abbrev pub invalid_hostname : Exception
invalid_hostname = value_error (text "invalid hostname")

abbrev pub is_empty {ℓ} : {A : Type ℓ} → List A → Bool
is_empty [] = true
is_empty (x ∷ xs) = false

-- `character.isspace() or ord(character) < 32 or ord(character) == 127`
abbrev pub is_blank : ℕ → Bool
is_blank c = is_space c || is_control c

abbrev pub markers : List Text
markers = text "://" ∷ text "/" ∷ text "?" ∷ text "#" ∷ text ":" ∷ []

abbrev pub hyphen : ℕ
hyphen = 45

-- `label.encode("idna").decode("ascii")` is a label of letters, digits and inner hyphens.
unfoldable pub is_label : Text → Bool
unfolding all starts_with ends_with
is_label encoded =
    not (is_empty encoded)
    && leb (length encoded) 63
    && not (starts_with encoded (hyphen ∷ []))
    && not (ends_with encoded (hyphen ∷ []))
    && all (λ c. is_alnum c || c == hyphen) encoded

module _ (p : Platform) where
  abbrev pub check_label : Option Text → Attempt Text
  check_label none = raises invalid_hostname
  check_label (some encoded) = require (is_label encoded) invalid_hostname >> returns encoded

  abbrev pub encode_label : Text → Attempt Text
  encode_label label = check_label (p.idna label)

  abbrev pub is_address : Text → Bool
  is_address s = elim (p.ip_address s) [ none ↦ false | some _ ↦ true ]

  -- From the encoded labels on.
  unfoldable pub encoded_hostname : Bool → List Text → Attempt Text
  unfolding join
  encoded_hostname reject_ip labels =
      let normalized = join dot labels in
      require (leb (length normalized) 253) invalid_hostname
      >> (require (not (reject_ip && is_address normalized)) invalid_hostname >> returns normalized)

  -- From `hostname.split(".")` on.
  unfoldable pub labelled_hostname : Bool → List Text → Attempt Text
  unfolding traverse encoded_hostname
  labelled_hostname reject_ip labels =
      require (leb 2 (length labels) && not (any is_empty labels)) invalid_hostname
      >> (traverse encode_label labels >>= encoded_hostname reject_ip)

  -- From `hostname = value.lower()` on, with the final dot removed.
  unfoldable pub checked_hostname : Bool → Text → Attempt Text
  unfolding starts_with any has_text labelled_hostname split
  checked_hostname reject_ip hostname =
      require
        (not (is_empty hostname)
          && leb (length hostname) 253
          && not (starts_with hostname (text "*.")))
        invalid_hostname
      >> (require (not (any (has_text hostname) markers)) invalid_hostname
          >> labelled_hostname reject_ip (parts_list (split dot hostname)))

  unfoldable pub normalize_dns_hostname : Bool → Text → Attempt Text
  unfolding checked_hostname strip any without_last text_le
  normalize_dns_hostname reject_ip value =
      require (not (is_empty value)) invalid_hostname
      >> (require (value == strip value && not (any is_blank value)) invalid_hostname
          >> checked_hostname reject_ip (without_last dot (p.lower value)))
