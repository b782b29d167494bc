-- ===== src/Sdk/CapabilityId/Grammar.antt =====
-- The test for a capability identity against a recogniser of its grammar, which is
-- `[a-z] ([a-z0-9] | _ [a-z0-9])*`.
use red_forge.Base.{
  ℕ, ◌≡◌, refl, sym, ap, ◌∙◌, Bool, true, false, not, ◌&&◌, ◌||◌, inl, inr, [], ◌∷◌, arith, ◌==◌,
  nat_order, all, if◌then◌else◌, Text, text_order, Bool-cases, All, All-append, eq→≡, ≡→eq,
  and-true, subst,
}
use red_forge.Sdk.CapabilityId.{
  is_lower, is_upper, is_digit, is_alnum, is_space, lstrip, strip, lower, underscore, last_or,
  starts_with_underscore, has_double, is_valid,
}
use mathlib.Core.List.{reverse, reverse-append, reverse-reverse}

abbrev pub is_slug : ℕ → Bool
is_slug c = is_lower c || is_digit c

-- What may follow: `after` says that an underscore stands just before.
unfoldable pub follows : (after : Bool) → Text → Bool
follows after [] = not after
follows after (c ∷ s) =
    let joined = follows true s in
    let plain = follows false s in
    if c == underscore then not after && joined else is_slug c && plain

unfoldable pub matches : Text → Bool
unfolding follows
matches [] = false
matches (c ∷ s) = is_lower c && follows false s

abbrev ok : ℕ → Bool
ok d = is_slug d || d == underscore

last_is : Bool → Text → Bool
last_is b [] = b
last_is b (c ∷ s) = last_is (c == underscore) s

last_is-last_or : (c : ℕ) (s : Text) → last_is (c == underscore) s ≡ (last_or c s == underscore)
unfolding last_is last_or
last_is-last_or c [] = refl
last_is-last_or c (d ∷ s) = last_is-last_or d s

-- The two sides of `follows_eq` at one more character, read as an underscore and as another one.
underscore_step :
    (b sl rest sw hd l : Bool)
    → (not b && (rest && not (true && sw) && not hd && not l))
      ≡ ((sl || true) && rest && not (b && true) && not ((true && sw) || hd) && not l)
underscore_step b sl rest sw hd l = ground arith

plain_step :
    (b sl rest sw hd l : Bool)
    → (sl && (rest && not (false && sw) && not hd && not l))
      ≡ ((sl || false) && rest && not (b && false) && not ((false && sw) || hd) && not l)
plain_step b sl rest sw hd l = ground arith

follows_eq :
    (b : Bool) (s : Text)
    → follows b s
      ≡ (all ok s && not (b && starts_with_underscore s) && not (has_double s) && not (last_is b s))
unfolding follows all has_double last_is
follows_eq b [] = ground arith
follows_eq b (c ∷ s) = elim (Bool-cases (c == underscore)) [
  | inl e ↦
      rw (e, follows_eq true s)
        (underscore_step b (is_slug c) (all ok s) (starts_with_underscore s) (has_double s)
          (last_is true s))
  | inr e ↦
      rw (e, follows_eq false s)
        (plain_step b (is_slug c) (all ok s) (starts_with_underscore s) (has_double s)
          (last_is false s))
]

-- Lower case text has no upper case letter.
abbrev IsPlain : ℕ → Type 0
IsPlain c = is_upper c ≡ false

lower-IsPlain : (s : Text) → All IsPlain (lower s)
lower-IsPlain [] = tt
lower-IsPlain (c ∷ s) = (ground arith, lower-IsPlain s)

all-ok_of :
    (s : Text) → All IsPlain s → all (λ d. is_alnum d || d == underscore) s ≡ true → all ok s ≡ true
unfolding all
all-ok_of [] p h = refl
all-ok_of (c ∷ s) p h = let q = p.0 in ground (arith, all-ok_of s p.1)

all_alnum_of : (s : Text) → all ok s ≡ true → all (λ d. is_alnum d || d == underscore) s ≡ true
unfolding all
all_alnum_of [] h = refl
all_alnum_of (c ∷ s) h = ground (arith, all_alnum_of s)

lower-ok : (s : Text) → all ok s ≡ true → lower s ≡ s
unfolding all
lower-ok [] h = refl
lower-ok (c ∷ s) h = ground (arith, lower-ok s)

-- Text without white space is left alone by `strip`.
abbrev NoSpace : ℕ → Type 0
NoSpace c = is_space c ≡ false

ok-NoSpace : (s : Text) → all ok s ≡ true → All NoSpace s
unfolding all
ok-NoSpace [] h = tt
ok-NoSpace (c ∷ s) h = (ground arith, ok-NoSpace s (ground arith))

lstrip-NoSpace : (s : Text) → All NoSpace s → lstrip s ≡ s
unfolding lstrip
lstrip-NoSpace [] h = refl
lstrip-NoSpace (c ∷ s) h = rw (h.0)

All-reverse : (s : Text) → All NoSpace s → All NoSpace (reverse s)
All-reverse [] h = tt
All-reverse (c ∷ s) h =
    rw (reverse-append (c ∷ []) s)
      (All-append NoSpace (reverse s) (c ∷ []) (All-reverse s h.1) (h.0, tt))

strip-NoSpace : (s : Text) → All NoSpace s → strip s ≡ s
unfolding strip
strip-NoSpace s h =
    rw (lstrip-NoSpace s h, lstrip-NoSpace (reverse s) (All-reverse s h)) (reverse-reverse s)

bool_ext : (a b : Bool) → (a ≡ true → b ≡ true) → (b ≡ true → a ≡ true) → a ≡ b
bool_ext true b f g = sym (f refl)
bool_ext false true f g = g refl
bool_ext false false f g = refl

-- The comparison with the stripped lower case text rules out upper case, and nothing else.
normal_alnum :
    (t : Text) → (t == lower (strip t) && all (λ d. is_alnum d || d == underscore) t) ≡ all ok t
normal_alnum t =
    bool_ext _ _
      (λ h.
        let (same, alnum) = and-true h in
        all-ok_of t (subst (All IsPlain) (sym (eq→≡ t _ same)) (lower-IsPlain (strip t))) alnum)
      (λ h. rw (
        ≡→eq t (lower (strip t)) (sym (ap lower (strip-NoSpace t (ok-NoSpace t h)) ∙ lower-ok t h)),
        all_alnum_of t h,
      ))

valid_cases :
    (e lo us last hd al okc okr sw hd' last' : Bool)
    → (lo ≡ true → us ≡ false)
    → (lo ≡ true → okc ≡ okr)
    → (lo ≡ true → hd ≡ hd')
    → (lo ≡ true → last ≡ last')
    → (e && al) ≡ okc
    → (e && lo && not us && not last && not hd && al)
      ≡ (lo && (okr && not (false && sw) && not hd' && not last'))
valid_cases e lo us last hd al okc okr sw hd' last' h k d l q = ground arith

lower_ne_underscore : (c : ℕ) → is_lower c ≡ true → (c == underscore) ≡ false
lower_ne_underscore c h = ground arith

-- A text is accepted as a capability identity exactly when it has the form
-- `[a-z] ([a-z0-9] | _ [a-z0-9])*`.
pub is_valid-matches : (s : Text) → is_valid s ≡ matches s
unfolding is_valid matches
is_valid-matches [] = refl
is_valid-matches (c ∷ s) = rw (follows_eq false s) (
    valid_cases ((c ∷ s) == lower (strip (c ∷ s))) (is_lower c) (c == underscore)
      (last_or c s == underscore) (has_double (c ∷ s))
      (all (λ d. is_alnum d || d == underscore) (c ∷ s)) (all ok (c ∷ s)) (all ok s)
      (starts_with_underscore s) (has_double s) (last_is false s) (lower_ne_underscore c)
      (λ h. rw h) (λ h. rw (lower_ne_underscore c h))
      (λ h. sym (ap (λ b. last_is b s) (sym (lower_ne_underscore c h)) ∙ last_is-last_or c s))
      (normal_alnum (c ∷ s)))
