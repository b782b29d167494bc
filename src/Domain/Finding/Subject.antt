-- ===== src/Domain/Finding/Subject.antt =====
-- The affected asset, endpoint and technology, and the identity of a finding:
-- redforge/domain/finding_intelligence.py.
use red_forge.Base.{
  ℕ, refl, Bool, true, false, Option, none, some, List, [], ◌∷◌, ◌++◌, ◌==◌, nat_order,
  if◌then◌else◌, Text, text, text_order, Order, order_along, pair_order, option_order, decimal,
}
use red_forge.Sdk.Exception.{Attempt, returns, raises, ◌>>=◌, require, value_error, Exception}
use red_forge.Sdk.CapabilityId.{is_space}
use red_forge.Domain.Strings.{Platform, starts_with}
use red_forge.Domain.Hostname.{normalize_dns_hostname}
use red_forge.Domain.Scope.{after_prefix, in_port_range, or_error}
use red_forge.Domain.HttpUrl.{NormalizedHttpUrl, normalize_http_url, bracketed, with_port}
use red_forge.Domain.Finding.Subjects.{AssetIdentityKind, asset_kind_order}
use red_forge.Domain.Finding.Slug.{checked_text, slug, max_identifier}

pub record AffectedAsset : Type 0 where
  pub kind : AssetIdentityKind
  pub value : Text

pub record AffectedEndpoint : Type 0 where
  pub scheme : Text
  pub hostname : Text
  pub port : ℕ
  pub path : Text

pub record AffectedTechnology : Type 0 where
  pub name : Text
  pub version : Option Text

pub record FindingIdentity : Type 0 where
  pub classification_id : Text
  pub asset : AffectedAsset
  pub endpoint : Option AffectedEndpoint
  pub technology : Option AffectedTechnology

instance abbrev pub asset_order : Order AffectedAsset
asset_order =
    order_along (λ (a : AffectedAsset). (a.kind, a.value))
      (λ (kind, value). record { kind = kind; value = value }) (λ _. refl)

instance abbrev pub endpoint_order : Order AffectedEndpoint
endpoint_order =
    order_along (λ (e : AffectedEndpoint). (e.scheme, (e.hostname, (e.port, e.path))))
      (λ (scheme, (hostname, (port, path))). record {
        scheme = scheme;
        hostname = hostname;
        port = port;
        path = path;
      })
      (λ _. refl)

instance abbrev pub technology_order : Order AffectedTechnology
technology_order =
    order_along (λ (t : AffectedTechnology). (t.name, t.version))
      (λ (name, version). record { name = name; version = version }) (λ _. refl)

instance abbrev pub identity_order : Order FindingIdentity
identity_order =
    order_along
      (λ (i : FindingIdentity). (i.classification_id, (i.asset, (i.endpoint, i.technology))))
      (λ (classification_id, (asset, (endpoint, technology))). record {
        classification_id = classification_id;
        asset = asset;
        endpoint = endpoint;
        technology = technology;
      })
      (λ _. refl)

-- `value.removeprefix(prefix)`
unfoldable pub remove_prefix : Text → Text → Text
unfolding after_prefix
remove_prefix value prefix = elim (after_prefix value prefix) [ none ↦ value | some rest ↦ rest ]

-- `text or "/"`
abbrev pub or_slash : Text → Text
or_slash [] = text "/"
or_slash (c ∷ s) = c ∷ s

-- `s.split()`: the current word and the words after it.
abbrev pub push_word : Text → List Text → List Text
push_word [] words = words
push_word (c ∷ s) words = (c ∷ s) ∷ words

abbrev pub word_step : Bool → ℕ → Text × List Text → Text × List Text
word_step true c (word, words) = ([], push_word word words)
word_step false c (word, words) = (c ∷ word, words)

unfoldable pub words_from : Text → Text × List Text
words_from [] = ([], [])
words_from (c ∷ s) = word_step (is_space c) c (words_from s)

abbrev pub all_words : Text × List Text → List Text
all_words (word, words) = push_word word words

unfoldable pub join_words : List Text → Text
join_words [] = []
join_words (w ∷ []) = w
join_words (w ∷ v ∷ vs) = w ++ text " " ++ join_words (v ∷ vs)

-- `" ".join(s.split())`
unfoldable pub collapse_spaces : Text → Text
unfolding words_from join_words
collapse_spaces s = join_words (all_words (words_from s))

-- The ValueError of `ip_address`.
abbrev pub invalid_address : Exception
invalid_address = value_error (text "ip_address")

module _ (p : Platform) where
  -- The value of an asset, by its kind.
  unfoldable pub asset_value : AssetIdentityKind → Text → Attempt Text
  unfolding normalize_dns_hostname slug
  asset_value AssetIdentityKind.hostname value = normalize_dns_hostname p true value
  asset_value AssetIdentityKind.ip_address value = elim (p.ip_address value) [
    | none ↦ raises invalid_address
    | some a ↦ returns a.printed
  ]
  asset_value AssetIdentityKind.logical value =
      slug p (text "affected logical asset identity") value

  -- `AffectedAsset(kind, value)`
  unfoldable pub affected_asset : AssetIdentityKind → Text → Attempt AffectedAsset
  unfolding checked_text asset_value
  affected_asset kind value = do
    checked ← checked_text (text "affected asset identity") max_identifier value
    canonical ← asset_value kind checked
    returns (record { kind = kind; value = canonical })

  -- `_serialized_authority(hostname, port, scheme)`
  unfoldable pub serialized_authority : Text → ℕ → Text → Text
  unfolding with_port
  serialized_authority hostname port scheme =
      with_port
        (elim (p.ip_address hostname) [
          | none ↦ hostname
          | some a ↦ if a.version == 6 then bracketed a.printed else a.printed
        ])
        port scheme

  -- The host of `_authority`, an address or a normalized name.
  abbrev pub host_of : Text → Attempt Text
  host_of host = elim (p.ip_address host) [
    | none ↦ normalize_dns_hostname p true host
    | some a ↦ returns (if a.version == 6 then bracketed a.printed else a.printed)
  ]

  -- `_authority(hostname, port)`
  unfoldable pub authority : Text → ℕ → Attempt Text
  unfolding checked_text normalize_dns_hostname in_port_range decimal
  authority hostname port = do
    host ← checked_text (text "affected endpoint hostname") 253 hostname
    _ ← require (in_port_range port) (value_error (text "affected endpoint port is invalid"))
    serialized ← host_of host
    returns (serialized ++ text ":" ++ decimal port)

  -- The path of a normalized URL.
  unfoldable pub path_of : NormalizedHttpUrl → Text
  unfolding remove_prefix serialized_authority
  path_of u = or_slash (
      remove_prefix u.value
        (u.scheme ++ text "://" ++ serialized_authority u.hostname u.port u.scheme))

  -- `AffectedEndpoint(scheme, hostname, port, path)`
  unfoldable pub affected_endpoint : Text → Text → ℕ → Text → Attempt AffectedEndpoint
  unfolding checked_text authority normalize_http_url path_of starts_with
  affected_endpoint scheme hostname port path = do
    scheme_text ← checked_text (text "affected endpoint scheme") 16 scheme
    path_text ← checked_text (text "affected endpoint path") 2048 path
    _ ←
        require (starts_with path_text (text "/"))
          (value_error (text "affected endpoint path is invalid"))
    u ← or_error (value_error (text "affected endpoint is invalid")) (
        authority hostname port >>= λ a.
        normalize_http_url p (p.lower scheme_text ++ text "://" ++ a ++ path_text))
    returns (record { scheme = u.scheme; hostname = u.hostname; port = u.port; path = path_of u })

  -- `AffectedEndpoint.from_url`
  unfoldable pub endpoint_from_url : Text → Attempt AffectedEndpoint
  unfolding normalize_http_url affected_endpoint path_of
  endpoint_from_url value =
      normalize_http_url p value >>= λ u. affected_endpoint u.scheme u.hostname u.port (path_of u)

  -- `AffectedEndpoint.canonical_url`
  unfoldable pub endpoint_url : AffectedEndpoint → Text
  unfolding serialized_authority
  endpoint_url e =
      e.scheme ++ text "://" ++ serialized_authority e.hostname e.port e.scheme ++ e.path

  -- The version of a technology, which may be missing.
  unfoldable pub checked_version : Option Text → Attempt (Option Text)
  unfolding checked_text
  checked_version none = returns none
  checked_version (some v) =
      checked_text (text "affected technology version") max_identifier v >>= λ w. returns (some w)

  -- `AffectedTechnology(name, version)`
  unfoldable pub affected_technology : Text → Option Text → Attempt AffectedTechnology
  unfolding checked_text checked_version collapse_spaces
  affected_technology name version = do
    checked ← checked_text (text "affected technology name") max_identifier name
    known ← checked_version version
    returns (record { name = collapse_spaces (p.casefold (p.nfkc checked)); version = known })

  -- `FindingIdentity(classification_id, asset, endpoint, technology)`
  unfoldable pub finding_identity :
      Text
      → AffectedAsset
      → Option AffectedEndpoint
      → Option AffectedTechnology
      → Attempt FindingIdentity
  unfolding slug
  finding_identity classification_id asset endpoint technology =
      slug p (text "finding classification identity") classification_id >>= λ canonical.
      returns (record {
        classification_id = canonical;
        asset = asset;
        endpoint = endpoint;
        technology = technology;
      })
