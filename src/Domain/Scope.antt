-- ===== src/Domain/Scope.antt =====
-- redforge/domain/scan_scope.py and redforge/domain/endpoint.py. A port is a number from 0 on: a
-- negative one is refused where 0 is.
pub mod Labels
use red_forge.Base.{
  ℕ, ◌+◌, ◌-◌, Bool, true, false, ◌||◌, ◌&&◌, not, Option, none, some, List, [], ◌∷◌, ◌++◌, ◌==◌,
  nat_order, leb, ltb, if◌then◌else◌, any, all, length, Text, text, text_order, text_le, arith,
  decimal,
}
use Prim.Native.Nat.{◌*◌}
use red_forge.Sdk.Exception.{Attempt, returns, raises, ◌>>=◌, ◌>>◌, require, value_error, Exception}
use red_forge.Sdk.CapabilityId.{is_space, is_digit}
use red_forge.Domain.Strings.{Platform, IpAddress, starts_with, ends_with, dot}
use red_forge.Domain.Hostname.{normalize_dns_hostname, is_empty}

pub record Endpoint : Type 0 where
  pub host : Text
  pub port : ℕ
  pub protocol : Text
  pub path : Option Text
  pub description : Option Text

pub record ScanTarget : Type 0 where
  pub value : Text

pub record ExactNetworkTarget : Type 0 where
  pub value : Text
  pub scheme : Text
  pub hostname : Text
  pub port : ℕ
  pub expected_ip : Text

pub data Root : Type 0 where
  dns_root : ScanTarget → Root
  exact_root : ExactNetworkTarget → Root

-- A ValueError of the call becomes the given one.
abbrev pub or_error {ℓ} : {A : Type ℓ} → Exception → Attempt A → Attempt A
or_error e (returns a) = returns a
or_error e (raises _) = raises e

abbrev pub invalid_exact_target : Exception
invalid_exact_target = value_error (text "exact network target is invalid")

-- The groups of a match of `_EXACT_ORIGIN_PATTERN`.
pub record Origin : Type 0 where
  pub scheme : Text
  pub hostname : Text
  pub port : Text

-- `[^/?#:@\s]`
abbrev pub is_host_char : ℕ → Bool
is_host_char c = not (c == 47 || c == 63 || c == 35 || c == 58 || c == 64 || is_space c)

abbrev pub onto_host : ℕ → Text × Text → Text × Text
onto_host c (host, rest) = (c ∷ host, rest)

-- The longest run of such characters, and the rest.
unfoldable pub span_host : Text → Text × Text
span_host [] = ([], [])
span_host (c ∷ s) =
    let later = span_host s in if is_host_char c then onto_host c later else ([], c ∷ s)

-- `/?` at the end
abbrev pub without_slash : Text → Text
without_slash [] = []
without_slash (c ∷ []) = if c == 47 then [] else c ∷ []
without_slash (c ∷ d ∷ s) = c ∷ without_slash (d ∷ s)

abbrev pub is_port_text : Text → Bool
is_port_text s = leb 1 (length s) && leb (length s) 5 && all is_digit s

-- `:port` to the end
abbrev pub origin_port : Text → Text × Text → Option Origin
origin_port scheme (host, []) = none
origin_port scheme (host, c ∷ s) =
    if c == 58 && not (is_empty host) && is_port_text (without_slash s)
    then some (record { scheme = scheme; hostname = host; port = without_slash s })
    else none

unfoldable pub after_prefix : Text → Text → Option Text
after_prefix s [] = some s
after_prefix [] (d ∷ ds) = none
after_prefix (c ∷ s) (d ∷ ds) = if c == d then after_prefix s ds else none

abbrev pub origin_after : Text → Option Text → Option Origin
origin_after scheme none = none
origin_after scheme (some rest) = origin_port scheme (span_host rest)

abbrev pub or_else {ℓ} : {A : Type ℓ} → Option A → Option A → Option A
or_else (some a) o = some a
or_else none o = o

-- `_EXACT_ORIGIN_PATTERN.fullmatch(value)`: `://` follows one of the two schemes only.
unfoldable pub match_origin : Text → Option Origin
unfolding span_host after_prefix all
match_origin value =
    or_else (origin_after (text "http") (after_prefix value (text "http://")))
      (origin_after (text "https") (after_prefix value (text "https://")))

-- `int(s)` of decimal digits
unfoldable pub digits_value : ℕ → Text → ℕ
digits_value n [] = n
digits_value n (c ∷ s) = digits_value (n * 10 + (c - 48)) s

unfoldable pub in_port_range : ℕ → Bool
in_port_range port = leb 1 port && leb port 65535

-- `ExactNetworkTarget.contains_endpoint`
unfoldable pub is_exact_endpoint : ExactNetworkTarget → Endpoint → Bool
unfolding text_le
is_exact_endpoint target e =
    e.protocol == target.scheme && e.host == target.hostname && e.port == target.port

-- The comparison of a normalized hostname with the root.
unfoldable pub under_root : Root → Text → Bool
unfolding text_le ends_with
under_root (exact_root target) normalized = normalized == target.hostname
under_root (dns_root target) normalized =
    normalized == target.value || ends_with normalized (dot ∷ target.value)

module _ (p : Platform) where
  -- `ScanTarget(value)`
  unfoldable pub scan_target : Text → Attempt ScanTarget
  unfolding normalize_dns_hostname
  scan_target value =
      or_error (value_error (text "scan target is invalid")) (normalize_dns_hostname p true value)
      >>= λ normalized. returns (record { value = normalized })

  abbrev pub printed_address : Text → Attempt Text
  printed_address s = elim (p.ip_address s) [
    | none ↦ raises invalid_exact_target
    | some a ↦ returns a.printed
  ]

  -- From the match on.
  unfoldable pub exact_target_of : Text → Option Origin → Attempt ExactNetworkTarget
  unfolding normalize_dns_hostname digits_value in_port_range decimal
  exact_target_of expected_ip none = raises invalid_exact_target
  exact_target_of expected_ip (some o) = do
    hostname ← or_error invalid_exact_target (normalize_dns_hostname p true o.hostname)
    address ← printed_address expected_ip
    _ ← require (in_port_range (digits_value 0 o.port)) invalid_exact_target
    returns (record {
      value = o.scheme ++ text "://" ++ hostname ++ text ":" ++ decimal (digits_value 0 o.port);
      scheme = o.scheme;
      hostname = hostname;
      port = digits_value 0 o.port;
      expected_ip = address;
    })

  -- `ExactNetworkTarget(value, expected_ip=expected_ip)`
  unfoldable pub exact_network_target : Text → Text → Attempt ExactNetworkTarget
  unfolding match_origin exact_target_of
  exact_network_target value expected_ip = exact_target_of expected_ip (match_origin value)

  abbrev pub if_normal : Root → Attempt Text → Bool
  if_normal root (raises _) = false
  if_normal root (returns normalized) = under_root root normalized

  -- `ScanScope.contains_hostname`
  unfoldable pub contains_hostname : Root → Text → Bool
  unfolding under_root normalize_dns_hostname
  contains_hostname root hostname = if_normal root (normalize_dns_hostname p true hostname)

  -- `ScanScope.contains_endpoint`
  unfoldable pub contains_endpoint : Root → Endpoint → Bool
  unfolding is_exact_endpoint contains_hostname in_port_range text_le
  contains_endpoint (exact_root target) e = is_exact_endpoint target e
  contains_endpoint (dns_root target) e =
      (e.protocol == text "http" || e.protocol == text "https")
      && in_port_range e.port
      && contains_hostname (dns_root target) e.host
