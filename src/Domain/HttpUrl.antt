-- ===== src/Domain/HttpUrl.antt =====
-- redforge/domain/http_probe.py, `normalize_http_url` and its helpers.
pub mod Matching
pub mod Bounds
use red_forge.Base.{
  ℕ, Bool, true, false, ◌||◌, ◌&&◌, not, Option, none, some, [], ◌∷◌, ◌++◌, ◌==◌, nat_order,
  if◌then◌else◌, any, all, Text, text, text_order, text_le, contains, decimal,
}
use red_forge.Sdk.Exception.{Attempt, returns, raises, ◌>>=◌, ◌>>◌, require, value_error, Exception}
use red_forge.Sdk.CapabilityId.{is_digit, is_lower, is_upper, strip, is_alnum}
use red_forge.Domain.Strings.{Platform}
use red_forge.Domain.Hostname.{normalize_dns_hostname, is_empty, is_blank}
use red_forge.Domain.Scope.{after_prefix, digits_value, in_port_range}

pub record NormalizedHttpUrl : Type 0 where
  pub value : Text
  pub scheme : Text
  pub hostname : Text
  pub port : ℕ

abbrev pub invalid_url : Exception
invalid_url = value_error (text "invalid HTTP URL")

-- The longest run of characters that pass a test, and the rest.
abbrev pub onto {ℓ} : {A : Type ℓ} → ℕ → Text × A → Text × A
onto c (run, rest) = (c ∷ run, rest)

unfoldable pub span : (ℕ → Bool) → Text → Text × Text
span p [] = ([], [])
span p (c ∷ s) = let later = span p s in if p c then onto c later else ([], c ∷ s)

-- `[A-Za-z0-9+.-]`
abbrev pub is_scheme_char : ℕ → Bool
is_scheme_char c = is_alnum c || c == 43 || c == 46 || c == 45

abbrev pub is_scheme : Text → Bool
is_scheme [] = false
is_scheme (c ∷ s) = is_lower c || is_upper c

-- `[^/?#]`
abbrev pub is_authority_char : ℕ → Bool
is_authority_char c = not (c == 47 || c == 63 || c == 35)

-- The groups of a match of `_HTTP_URL_PATTERN`.
pub record UrlMatch : Type 0 where
  pub scheme : Text
  pub authority : Text
  pub suffix : Text

abbrev pub match_suffix : Text → Text × Text → Option UrlMatch
match_suffix scheme (authority, suffix) =
    if contains 35 suffix
    then none
    else some (record { scheme = scheme; authority = authority; suffix = suffix })

abbrev pub match_rest : Text → Option Text → Option UrlMatch
match_rest scheme none = none
match_rest scheme (some rest) = match_suffix scheme (span is_authority_char rest)

abbrev pub match_scheme : Text × Text → Option UrlMatch
match_scheme (scheme, rest) =
    if is_scheme scheme then match_rest scheme (after_prefix rest (text "://")) else none

unfoldable pub match_url : Text → Option UrlMatch
unfolding span contains after_prefix
match_url value = match_scheme (span is_scheme_char value)

-- The hostname and the port of an authority.
abbrev pub HostPort : Type 0
HostPort = Text × Option ℕ

unfoldable pub port_of : Text → Text → Attempt HostPort
unfolding all digits_value
port_of hostname port_text =
    require (not (is_empty port_text) && all is_digit port_text) invalid_url
    >> returns (hostname, some (digits_value 0 port_text))

abbrev pub colon : ℕ
colon = 58

-- What follows the bracket that closes an IPv6 address.
abbrev pub after_bracket : Text × Text → Attempt HostPort
after_bracket (hostname, []) = raises invalid_url
after_bracket (hostname, _ ∷ []) = returns (hostname, none)
after_bracket (hostname, _ ∷ c ∷ port_text) =
    require (c == colon) invalid_url >> port_of hostname port_text

-- An authority with no bracket, split at its first colon.
abbrev pub split_at : Text → Text × Text → Attempt HostPort
split_at authority (hostname, []) = returns (authority, none)
split_at authority (hostname, _ ∷ port_text) =
    require (not (contains colon port_text)) invalid_url >> port_of hostname port_text

unfoldable pub split_authority : Text → Attempt HostPort
unfolding span contains port_of
split_authority [] = returns ([], none)
split_authority (c ∷ s) =
    if c == 91
    then after_bracket (span (λ d. not (d == 93)) s)
    else split_at (c ∷ s) (span (λ d. not (d == colon)) (c ∷ s))

-- `[address]` of an IPv6 address
abbrev pub bracketed : Text → Text
bracketed s = text "[" ++ s ++ text "]"

abbrev pub default_port : Text → ℕ
default_port scheme = if scheme == text "https" then 443 else 80

-- The host with the port, where it is not the one of the scheme.
unfoldable pub with_port : Text → ℕ → Text → Text
unfolding text_le decimal
with_port host port scheme =
    if port == default_port scheme then host else host ++ text ":" ++ decimal port

unfoldable pub port_or : Option ℕ → Text → ℕ
unfolding text_le
port_or none scheme = default_port scheme
port_or (some port) scheme = port

module _ (p : Platform) where
  unfoldable pub normalize_url_host : Text → Attempt Text
  unfolding contains normalize_dns_hostname
  normalize_url_host value =
      require (not (contains 37 value)) invalid_url >> elim (p.ip_address value) [
        | some a ↦ returns a.printed
        | none ↦ normalize_dns_hostname p true value
      ]

  abbrev pub serialized_host : Text → Text
  serialized_host hostname = elim (p.ip_address hostname) [
    | none ↦ hostname
    | some a ↦ if a.version == 6 then bracketed a.printed else hostname
  ]

  -- From the effective port on.
  unfoldable pub canonical_url : Text → Text → ℕ → Text → Attempt NormalizedHttpUrl
  unfolding with_port in_port_range
  canonical_url scheme hostname port suffix =
      require (in_port_range port) invalid_url
      >> returns (record {
        value = scheme ++ text "://" ++ with_port (serialized_host hostname) port scheme ++ suffix;
        scheme = scheme;
        hostname = hostname;
        port = port;
      })

  -- From `_split_authority` on.
  unfoldable pub url_of_authority : Text → Text → HostPort → Attempt NormalizedHttpUrl
  unfolding normalize_url_host canonical_url port_or
  url_of_authority scheme suffix (hostname_value, port) =
      normalize_url_host hostname_value >>= λ hostname.
      canonical_url scheme hostname (port_or port scheme) suffix

  -- From the match on.
  unfoldable pub url_of_match : Option UrlMatch → Attempt NormalizedHttpUrl
  unfolding split_authority url_of_authority text_le contains
  url_of_match none = raises invalid_url
  url_of_match (some m) =
      let scheme = p.lower m.scheme in
      require
        ((scheme == text "http" || scheme == text "https")
          && not (is_empty m.authority)
          && not (contains 64 m.authority))
        invalid_url
      >> (split_authority m.authority >>= url_of_authority scheme m.suffix)

  unfoldable pub normalize_http_url : Text → Attempt NormalizedHttpUrl
  unfolding url_of_match match_url strip any text_le
  normalize_http_url value =
      require (not (is_empty value)) invalid_url
      >> (require (value == strip value && not (any is_blank value)) invalid_url
          >> url_of_match (match_url value))
