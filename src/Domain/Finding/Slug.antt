-- ===== src/Domain/Finding/Slug.antt =====
-- `_text` and `_slug` of redforge/domain/finding_intelligence.py. The label of a message is a part of
-- it.
use red_forge.Base.{
  ℕ, Bool, true, false, ◌||◌, ◌&&◌, not, [], ◌∷◌, ◌++◌, ◌==◌, nat_order, leb, if◌then◌else◌, any,
  length, Text, text, text_order, text_le,
}
use red_forge.Sdk.Exception.{Attempt, returns, ◌>>=◌, ◌>>◌, require, value_error, Exception}
use red_forge.Sdk.CapabilityId.{strip, is_lower, is_digit}
use red_forge.Domain.Strings.{Platform, is_control}
use red_forge.Domain.Hostname.{is_empty}
use mathlib.Core.List.{reverse}

abbrev pub max_identifier : ℕ
max_identifier = 256

abbrev pub max_title : ℕ
max_title = 512

abbrev pub max_summary : ℕ
max_summary = 512

abbrev pub max_reference : ℕ
max_reference = 2048

abbrev pub invalid : Text → Exception
invalid label = value_error (label ++ text " is invalid")

-- `_text(value, label=label, maximum=maximum)`
unfoldable pub checked_text : Text → ℕ → Text → Attempt Text
unfolding strip any text_le
checked_text label maximum value =
    require
      (not (is_empty value)
        && value == strip value
        && leb (length value) maximum
        && not (any is_control value))
      (invalid label)
    >> returns value

abbrev pub is_slug_char : ℕ → Bool
is_slug_char c = is_lower c || is_digit c

-- `re.sub(r"[^a-z0-9]+", "_", s)`, where the test tells that the last character was replaced.
unfoldable pub replace_runs : Bool → Text → Text
replace_runs replaced [] = []
replace_runs replaced (c ∷ s) =
    let kept = replace_runs false s in
    let rest = replace_runs true s in
    if is_slug_char c then c ∷ kept else if replaced then rest else 95 ∷ rest

-- `s.lstrip("_")` and `s.strip("_")`
unfoldable pub lstrip_underscores : Text → Text
lstrip_underscores [] = []
lstrip_underscores (c ∷ s) = if c == 95 then lstrip_underscores s else c ∷ s

unfoldable pub strip_underscores : Text → Text
unfolding lstrip_underscores
strip_underscores s = reverse (lstrip_underscores (reverse (lstrip_underscores s)))

unfoldable pub slug_of : Text → Text
unfolding replace_runs strip_underscores
slug_of s = strip_underscores (replace_runs false s)

module _ (p : Platform) where
  -- `_slug(value, label=label)`
  unfoldable pub slug : Text → Text → Attempt Text
  unfolding checked_text slug_of
  slug label value = checked_text label max_identifier value >>= λ s.
      let slugged = slug_of (p.casefold (p.nfkc s)) in
      require (not (is_empty slugged) && leb (length slugged) max_identifier) (invalid label)
      >> returns slugged
