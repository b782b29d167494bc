-- ===== src/Domain/HttpUrl/Bounds.antt =====
-- What a normalized URL is made of.
use red_forge.Base.{
  ℕ, ◌≤◌, ◌⊎◌, inl, inr, [], decimal, text_le, append-nil, append_assoc, ◌∙◌, sym, ap, eq→≡, false,
  Bool-cases, ◌≡◌, refl, true, ◌||◌, ◌&&◌, not, Option, none, some, ◌++◌, ◌==◌, nat_order, any,
  contains, leb, Text, text, text_order, arith, and_left, subst,
}
use red_forge.Sdk.Exception.{returns, require->>, >>=-eq-returns}
use red_forge.Sdk.CapabilityId.{strip}
use red_forge.Domain.Strings.{Platform}
use red_forge.Domain.Hostname.{is_empty, is_blank}
use red_forge.Domain.Scope.{in_port_range}
use red_forge.Domain.HttpUrl.Matching.{IsMatch, match_url-IsMatch}
use red_forge.Domain.HttpUrl.{
  NormalizedHttpUrl, HostPort, UrlMatch, normalize_http_url, url_of_match, url_of_authority,
  canonical_url, split_authority, normalize_url_host, port_or, with_port, default_port,
  serialized_host, invalid_url, match_url,
}

-- The port that the scheme stands for.
abbrev pub IsDefault : Text → ℕ → Type 0
IsDefault scheme port =
    ((scheme ≡ text "https") × (port ≡ 443)) ⊎ ((scheme ≡ text "http") × (port ≡ 80))

-- How a URL writes its port: not at all where it is the default one, else after a colon.
abbrev pub IsPortText : Text → ℕ → Text → Type 0
IsPortText scheme port written =
    (IsDefault scheme port × (written ≡ []))
    ⊎ (¬ IsDefault scheme port × (written ≡ text ":" ++ decimal port))

-- The port that an authority gives, or the one of the scheme.
abbrev pub IsPortOf : Text → Option ℕ → ℕ → Type 0
IsPortOf scheme none port = IsDefault scheme port
IsPortOf scheme (some given) port = port ≡ given

default_port-IsDefault :
    (scheme : Text)
    → (scheme ≡ text "https") ⊎ (scheme ≡ text "http")
    → IsDefault scheme (default_port scheme)
unfolding text_le
default_port-IsDefault scheme (inl s) = inl (s, ap default_port s)
default_port-IsDefault scheme (inr s) = inr (s, ap default_port s)

port_or-IsPortOf :
    (given : Option ℕ) (scheme : Text)
    → (scheme ≡ text "https") ⊎ (scheme ≡ text "http")
    → IsPortOf scheme given (port_or given scheme)
unfolding port_or
port_or-IsPortOf none scheme s = default_port-IsDefault scheme s
port_or-IsPortOf (some given) scheme s = refl

differ : (a b : ℕ) → (a == b) ≡ false → ¬ (a ≡ b)
differ a b h e = ground (arith, h, e)

with_port-by :
    (host scheme : Text) (port d : ℕ)
    → default_port scheme ≡ d
    → (port ≡ d → IsDefault scheme port)
    → (IsDefault scheme port → port ≡ d)
    → (written : Text) × (with_port host port scheme ≡ host ++ written)
      × IsPortText scheme port written
unfolding with_port
with_port-by host scheme port d e f g = elim (Bool-cases (port == d)) [
  | inl t ↦ ([], rw (e, t) (sym (append-nil host)), inl (f (eq→≡ port d t), refl))
  | inr t ↦ (
    text ":" ++ decimal port,
    rw (e, t) (append_assoc host (text ":") (decimal port)),
    inr ((λ x. differ port d t (g x)), refl),
  )
]

two_schemes : ¬ (text "https" ≡ text "http")
two_schemes h = cc

with_port-IsPortText :
    (host scheme : Text) (port : ℕ)
    → (scheme ≡ text "https") ⊎ (scheme ≡ text "http")
    → (written : Text) × (with_port host port scheme ≡ host ++ written)
      × IsPortText scheme port written
unfolding text_le
with_port-IsPortText host scheme port (inl s) =
    with_port-by host scheme port 443 (ap default_port s) (λ e. inl (s, e))
      (λ x. elim x [ inl (_, e) ↦ e | inr (s', _) ↦ absurd (two_schemes (sym s ∙ s')) ])
with_port-IsPortText host scheme port (inr s) =
    with_port-by host scheme port 80 (ap default_port s) (λ e. inr (s, e))
      (λ x. elim x [ inl (s', _) ↦ absurd (two_schemes (sym s' ∙ s)) | inr (_, e) ↦ e ])

one_of :
    (scheme : Text)
    → (scheme == text "http" || scheme == text "https") ≡ true
    → (scheme ≡ text "https") ⊎ (scheme ≡ text "http")
one_of scheme h = elim (Bool-cases (scheme == text "http")) [
  | inl e ↦ inr (eq→≡ scheme (text "http") e)
  | inr e ↦ inl (eq→≡ scheme (text "https") (rw e at h))
]

module _ (p : Platform) where
  -- The scheme is http or https, the port from 1 to 65535, and the text is the scheme of the given
  -- value in lower case, the host, the port as a URL writes it, and the given value's suffix, with
  -- its path and its query; the host and the port are the ones of the given authority.
  abbrev pub IsCanonical : Text → NormalizedHttpUrl → Type 0
  IsCanonical value u =
      ((u.scheme ≡ text "https") ⊎ (u.scheme ≡ text "http"))
      × (1 ≤ u.port)
      × (u.port ≤ 65535)
      × (m : UrlMatch) × (a : HostPort) × (written : Text) × IsMatch value m
      × (u.scheme ≡ p.lower m.scheme)
      × (split_authority m.authority ≡ returns a)
      × (normalize_url_host p a.0 ≡ returns u.hostname)
      × IsPortOf u.scheme a.1 u.port
      × IsPortText u.scheme u.port written
      × (u.value ≡ u.scheme ++ text "://" ++ (serialized_host p u.hostname ++ written) ++ m.suffix)

  canonical_url-IsCanonical :
      (value hostname : Text) (a : HostPort) (m : UrlMatch) (u : NormalizedHttpUrl)
      → IsMatch value m
      → split_authority m.authority ≡ returns a
      → normalize_url_host p a.0 ≡ returns hostname
      → (p.lower m.scheme ≡ text "https") ⊎ (p.lower m.scheme ≡ text "http")
      → canonical_url p (p.lower m.scheme) hostname (port_or a.1 (p.lower m.scheme)) m.suffix
        ≡ returns u
      → IsCanonical value u
  unfolding canonical_url in_port_range
  canonical_url-IsCanonical value hostname a m u is_match made_of named s h =
      let port = port_or a.1 (p.lower m.scheme) in
      let (range, h') = require->> (leb 1 port && leb port 65535) invalid_url _ h in
      let (written, host, port_text) =
        with_port-IsPortText (serialized_host p hostname) (p.lower m.scheme) port s in
      let made : record {
        value =
            p.lower m.scheme
            ++ text "://"
            ++ with_port (serialized_host p hostname) port (p.lower m.scheme)
            ++ m.suffix;
        scheme = p.lower m.scheme;
        hostname = hostname;
        port = port;
      }
          ≡ u =
        ground arith in
      subst (IsCanonical value) made (
        s,
        ground arith,
        ground arith,
        m,
        a,
        written,
        is_match,
        refl,
        made_of,
        named,
        port_or-IsPortOf a.1 (p.lower m.scheme) s,
        port_text,
        ap (λ z. p.lower m.scheme ++ text "://" ++ z ++ m.suffix) host,
      )

  url_of_authority-IsCanonical :
      (value : Text) (m : UrlMatch) (a : HostPort) (u : NormalizedHttpUrl)
      → IsMatch value m
      → split_authority m.authority ≡ returns a
      → (p.lower m.scheme ≡ text "https") ⊎ (p.lower m.scheme ≡ text "http")
      → url_of_authority p (p.lower m.scheme) m.suffix a ≡ returns u
      → IsCanonical value u
  unfolding url_of_authority
  url_of_authority-IsCanonical value m (hostname_value, port) u is_match made_of s h =
      let (hostname, named, h') = >>=-eq-returns (normalize_url_host p hostname_value) _ h in
      canonical_url-IsCanonical value hostname (hostname_value, port) m u is_match made_of named s
        h'

  url_of_match-IsCanonical :
      (value : Text) (o : Option UrlMatch) (u : NormalizedHttpUrl)
      → match_url value ≡ o
      → url_of_match p o ≡ returns u
      → IsCanonical value u
  unfolding url_of_match
  url_of_match-IsCanonical value none u e h = absurd (cc)
  url_of_match-IsCanonical value (some m) u e h =
      let scheme = p.lower m.scheme in
      let (tests, h') =
        require->>
          ((scheme == text "http" || scheme == text "https")
            && not (is_empty m.authority)
            && not (contains 64 m.authority))
          invalid_url _ h in
      let known : (scheme == text "http" || scheme == text "https") ≡ true =
        and_left _ (not (is_empty m.authority))
          (and_left _ (not (contains 64 m.authority)) tests) in
      let (a, made_of, h'') = >>=-eq-returns (split_authority m.authority) _ h' in
      url_of_authority-IsCanonical value m a u (match_url-IsMatch value m e) made_of
        (one_of scheme known) h''

  -- A URL that `normalize_http_url` returns has the scheme http or https, the scheme of the given
  -- value in lower case, and a port from 1 to 65535. Its text is the scheme, `://`, the host, the
  -- port after a colon or nothing where it is the one of the scheme (443 for https, 80 for http),
  -- and what follows the authority in the given value, unchanged. The host is the normalized host of
  -- the given authority, and the port the one that the authority gives, or where it gives none the
  -- one of the scheme.
  pub normalize_http_url-IsCanonical :
      (value : Text) (u : NormalizedHttpUrl)
      → normalize_http_url p value ≡ returns u
      → IsCanonical value u
  unfolding normalize_http_url
  normalize_http_url-IsCanonical value u h =
      let (_, h') = require->> (not (is_empty value)) invalid_url _ h in
      let (_, h'') =
        require->> (value == strip value && not (any is_blank value)) invalid_url _ h' in
      url_of_match-IsCanonical value (match_url value) u refl h''
