-- ===== src/Domain/Finding/Reference.antt =====
-- The references of a finding and the tests of their texts: redforge/domain/finding_intelligence.py.
use red_forge.Base.{
  ℕ, zero, suc, refl, Bool, true, false, ◌&&◌, not, Option, none, some, [], ◌∷◌, ◌==◌, nat_order,
  leb, if◌then◌else◌, length, all, Text, text, text_order, text_le, Order, order_along, pair_order,
  contains,
}
use red_forge.Sdk.Exception.{Attempt, returns, ◌>>=◌, ◌>>◌, require, Exception}
use red_forge.Sdk.CapabilityId.{is_digit}
use red_forge.Domain.Strings.{Platform}
use red_forge.Domain.Hostname.{is_empty}
use red_forge.Domain.Scope.{after_prefix}
use red_forge.Domain.HttpUrl.{normalize_http_url}
use red_forge.Domain.Finding.Subjects.{
  FindingReferenceKind, cve, cwe, ghsa, osv, vendor_advisory, research_article, internal,
  reference_kind_order,
}
use red_forge.Domain.Finding.Slug.{checked_text, max_reference, invalid}

pub record FindingReference : Type 0 where
  pub kind : FindingReferenceKind
  pub value : Text

instance abbrev pub reference_order : Order FindingReference
reference_order =
    order_along (λ (r : FindingReference). (r.kind, r.value))
      (λ (kind, value). record { kind = kind; value = value }) (λ _. refl)

-- `x{n}` of a class of characters at the start, and the rest.
unfoldable pub after_run : (ℕ → Bool) → ℕ → Text → Option Text
after_run p zero s = some s
after_run p (suc n) [] = none
after_run p (suc n) (c ∷ s) = if p c then after_run p n s else none

abbrev pub and_then : Option Text → (Text → Option Text) → Option Text
and_then none f = none
and_then (some s) f = f s

abbrev pub matches : (Text → Bool) → Option Text → Bool
matches f none = false
matches f (some s) = f s

-- `-` and then `x{n}`
abbrev pub after_group : (ℕ → Bool) → ℕ → Text → Option Text
after_group p n s = and_then (after_prefix s (text "-")) (after_run p n)

-- `CVE-[0-9]{4}-[0-9]{4}`
unfoldable pub is_cve : Text → Bool
unfolding after_prefix after_run all
is_cve s =
    matches (λ number. leb 4 (length number) && all is_digit number)
      (and_then (after_prefix s (text "CVE"))
        (λ year. and_then (after_group is_digit 4 year) (λ rest. after_prefix rest (text "-"))))

-- `CWE-[0-9]+`
unfoldable pub is_cwe : Text → Bool
unfolding after_prefix all
is_cwe s =
    matches (λ number. not (is_empty number) && all is_digit number) (after_prefix s (text "CWE-"))

-- `[23456789CFGHJMPQRVWX]`
abbrev pub is_ghsa_char : ℕ → Bool
is_ghsa_char c = contains c (text "23456789CFGHJMPQRVWX")

-- `GHSA` and three groups of four
unfoldable pub is_ghsa : Text → Bool
unfolding after_prefix after_run contains
is_ghsa s = matches is_empty (
    and_then (after_prefix s (text "GHSA")) (λ first_group.
      and_then (after_group is_ghsa_char 4 first_group) (λ second_group.
        and_then (after_group is_ghsa_char 4 second_group) (after_group is_ghsa_char 4))))

-- `patterns.get(kind)`, as a test
unfoldable pub fits_pattern : FindingReferenceKind → Text → Bool
unfolding is_cve is_cwe is_ghsa
fits_pattern cve s = is_cve s
fits_pattern cwe s = is_cwe s
fits_pattern ghsa s = is_ghsa s
fits_pattern osv s = true
fits_pattern vendor_advisory s = true
fits_pattern research_article s = true
fits_pattern internal s = true

abbrev pub is_link : FindingReferenceKind → Bool
is_link cve = false
is_link cwe = false
is_link ghsa = false
is_link osv = false
is_link vendor_advisory = true
is_link research_article = true
is_link internal = false

abbrev pub is_numbered : FindingReferenceKind → Bool
is_numbered cve = true
is_numbered cwe = true
is_numbered ghsa = true
is_numbered osv = false
is_numbered vendor_advisory = false
is_numbered research_article = false
is_numbered internal = false

abbrev pub invalid_reference : Exception
invalid_reference = invalid (text "finding reference")

module _ (p : Platform) where
  -- The scheme of a link.
  unfoldable pub check_link : Bool → Text → Attempt (Unit {0})
  unfolding normalize_http_url text_le
  check_link false value = returns tt
  check_link true value =
      normalize_http_url p value >>= λ u. require (u.scheme == text "https") invalid_reference

  -- `_validate_reference(kind, value)`
  unfoldable pub validate_reference : FindingReferenceKind → Text → Attempt (Unit {0})
  unfolding fits_pattern check_link
  validate_reference kind value =
      require (fits_pattern kind (p.upper value)) invalid_reference
      >> check_link (is_link kind) value

  abbrev pub link_or : Bool → Text → Attempt Text
  link_or false value = returns value
  link_or true value = normalize_http_url p value >>= λ u. returns u.value

  -- The canonical text of a reference.
  unfoldable pub canonical_reference : FindingReferenceKind → Text → Attempt Text
  unfolding normalize_http_url
  canonical_reference kind value =
      let linked = link_or (is_link kind) value in
      if is_numbered kind then returns (p.upper value) else linked

  -- `FindingReference(kind, value)`
  unfoldable pub finding_reference : FindingReferenceKind → Text → Attempt FindingReference
  unfolding checked_text validate_reference canonical_reference
  finding_reference kind value = do
    checked ← checked_text (text "finding reference") max_reference value
    _ ← validate_reference kind checked
    canonical ← canonical_reference kind checked
    returns (record { kind = kind; value = canonical })
