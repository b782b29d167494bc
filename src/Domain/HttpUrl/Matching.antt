-- ===== src/Domain/HttpUrl/Matching.antt =====
-- What a match of `_HTTP_URL_PATTERN` says: the value is the groups of the match, one after another.
use red_forge.Base.{
  ℕ, ◌≡◌, refl, sym, ap, subst, Bool, true, false, Option, none, some, [], ◌∷◌, ◌++◌, ◌==◌,
  nat_order, all, contains, Text, text, text_order, arith, Bool-cases, inl, inr, eq→≡,
}
use red_forge.Domain.Scope.{after_prefix}
use red_forge.Domain.HttpUrl.{
  UrlMatch, span, onto, is_scheme, is_scheme_char, is_authority_char, match_suffix, match_rest,
  match_scheme, match_url,
}

-- The text is empty, or its first character fails the test.
abbrev pub Stops : (ℕ → Bool) → Text → Type 0
Stops t [] = Unit
Stops t (c ∷ s) = t c ≡ false

-- The run passes the test, what follows does not, and the two make the text.
abbrev IsSpan : (ℕ → Bool) → Text → Text × Text → Type 0
IsSpan t s (run, rest) = (s ≡ run ++ rest) × (all t run ≡ true) × Stops t rest

onto-IsSpan :
    (t : ℕ → Bool) (c : ℕ) (s : Text) (r : Text × Text)
    → t c ≡ true
    → IsSpan t s r
    → IsSpan t (c ∷ s) (onto c r)
unfolding all
onto-IsSpan t c s (run, rest) h (same, passes, stops) =
    (ap (λ z. c ∷ z) same, ground (arith, h, passes), stops)

span-IsSpan : (t : ℕ → Bool) (s : Text) → IsSpan t s (span t s)
unfolding span all
span-IsSpan t [] = (refl, refl, tt)
span-IsSpan t (c ∷ s) = elim (Bool-cases (t c)) [
  | inl e ↦ rw e (onto-IsSpan t c s (span t s) e (span-IsSpan t s))
  | inr e ↦ rw e (refl, refl, e)
]

after_prefix-eq-some : (s d r : Text) → after_prefix s d ≡ some r → s ≡ d ++ r
unfolding after_prefix
after_prefix-eq-some s [] r h = cc
after_prefix-eq-some [] (d ∷ ds) r h = absurd (cc)
after_prefix-eq-some (c ∷ s) (d ∷ ds) r h = elim (Bool-cases (c == d)) [
  | inl e ↦ cc (eq→≡ c d e, after_prefix-eq-some s ds r (rw e at h))
  | inr e ↦ absurd (let no : none ≡ some r = rw e at h in cc)
]

-- The value is the scheme, `://`, the authority and the suffix; the authority has none of the
-- characters `/`, `?` and `#`, and the suffix is empty or starts with one of them.
abbrev pub IsMatch : Text → UrlMatch → Type 0
IsMatch value m =
    (value ≡ m.scheme ++ (text "://" ++ (m.authority ++ m.suffix)))
    × (all is_authority_char m.authority ≡ true)
    × Stops is_authority_char m.suffix

match_suffix-IsMatch :
    (scheme rest : Text) (parts : Text × Text) (m : UrlMatch)
    → IsSpan is_authority_char rest parts
    → match_suffix scheme parts ≡ some m
    → IsMatch (scheme ++ (text "://" ++ rest)) m
match_suffix-IsMatch scheme rest (authority, suffix) m (same, passes, stops) h =
    elim (Bool-cases (contains 35 suffix)) [
      | inl e ↦ absurd (let no : none ≡ some m = rw e at h in cc)
      | inr e ↦
          let made : some (record { scheme = scheme; authority = authority; suffix = suffix })
              ≡ some m =
            rw e at h in
          let m' : record { scheme = scheme; authority = authority; suffix = suffix } ≡ m = cc in
          subst (IsMatch (scheme ++ (text "://" ++ rest))) m'
            (ap (λ z. scheme ++ (text "://" ++ z)) same, passes, stops)
    ]

match_rest-IsMatch :
    (scheme rest : Text) (after : Option Text) (m : UrlMatch)
    → after_prefix rest (text "://") ≡ after
    → match_rest scheme after ≡ some m
    → IsMatch (scheme ++ rest) m
match_rest-IsMatch scheme rest none m e h = absurd (cc)
match_rest-IsMatch scheme rest (some after) m e h =
    subst (λ z. IsMatch (scheme ++ z) m) (sym (after_prefix-eq-some rest (text "://") after e))
      (match_suffix-IsMatch scheme after (span is_authority_char after) m
        (span-IsSpan is_authority_char after) h)

match_scheme-IsMatch :
    (value : Text) (parts : Text × Text) (m : UrlMatch)
    → IsSpan is_scheme_char value parts
    → match_scheme parts ≡ some m
    → IsMatch value m
match_scheme-IsMatch value (scheme, rest) m (same, passes, stops) h =
    elim (Bool-cases (is_scheme scheme)) [
      | inl e ↦
          subst (λ z. IsMatch z m) (sym same)
            (match_rest-IsMatch scheme rest (after_prefix rest (text "://")) m refl (rw e at h))
      | inr e ↦ absurd (let no : none ≡ some m = rw e at h in cc)
    ]

pub match_url-IsMatch : (value : Text) (m : UrlMatch) → match_url value ≡ some m → IsMatch value m
unfolding match_url
match_url-IsMatch value m h =
    match_scheme-IsMatch value (span is_scheme_char value) m (span-IsSpan is_scheme_char value) h
