-- ===== src/Domain/Strings/Splitting.antt =====
-- Splitting a text on a character and joining the parts again, and what a suffix is.
use red_forge.Base.{
  ℕ, ◌≡◌, refl, sym, ap, ◌∙◌, Bool, true, false, List, [], ◌∷◌, ◌++◌, ◌==◌, nat_order, Text,
  eq_refl, arith, append_assoc, eq→≡, text_order, Bool-cases, inl, inr,
}
use red_forge.Domain.Strings.{ends_with, Parts, parts_cons, parts_list, split, join, join_rest}

join-parts_cons :
    (d c : ℕ) (b : Bool) (q : Parts)
    → (c == d) ≡ b
    → join d (parts_list (parts_cons b c q)) ≡ c ∷ join d (parts_list q)
unfolding join
join-parts_cons d c true q e = cc (eq→≡ c d e)
join-parts_cons d c false q e = refl

pub join-split : (d : ℕ) (s : Text) → join d (parts_list (split d s)) ≡ s
unfolding split join
join-split d [] = refl
join-split d (c ∷ s) =
    join-parts_cons d c (c == d) (split d s) refl ∙ ap (λ t. c ∷ t) (join-split d s)

-- The two parts of a text that the separator stands between.
parts_cons-append :
    (b : Bool) (c : ℕ) (q : Parts) (ys : List Text) (r : Parts)
    → parts_list r ≡ parts_list q ++ ys
    → parts_list (parts_cons b c r) ≡ parts_list (parts_cons b c q) ++ ys
parts_cons-append true c q ys r e = ap (λ (zs : List Text). [] ∷ zs) e
parts_cons-append false c (part, parts) ys (part', parts') e = ground arith

pub split-append :
    (d : ℕ) (s t : Text)
    → parts_list (split d (s ++ (d ∷ t))) ≡ parts_list (split d s) ++ parts_list (split d t)
unfolding split
split-append d [] t = rw (eq_refl d)
split-append d (c ∷ s) t =
    parts_cons-append (c == d) c (split d s) (parts_list (split d t)) (split d (s ++ (d ∷ t)))
      (split-append d s t)

join_rest-append :
    (d : ℕ) (xs : List Text) (y : Text) (ys : List Text)
    → join_rest d (xs ++ (y ∷ ys)) ≡ join_rest d xs ++ (d ∷ join d (y ∷ ys))
unfolding join
join_rest-append d [] y ys = refl
join_rest-append d (x ∷ xs) y ys =
    ap (λ t. d ∷ t)
      (ap (λ t. x ++ t) (join_rest-append d xs y ys)
        ∙ sym (append_assoc x (join_rest d xs) (d ∷ join d (y ∷ ys))))

pub join-append :
    (d : ℕ) (x : Text) (xs : List Text) (y : Text) (ys : List Text)
    → join d (x ∷ xs ++ (y ∷ ys)) ≡ join d (x ∷ xs) ++ (d ∷ join d (y ∷ ys))
unfolding join
join-append d x xs y ys =
    ap (λ t. x ++ t) (join_rest-append d xs y ys)
    ∙ sym (append_assoc x (join_rest d xs) (d ∷ join d (y ∷ ys)))

pub ends_with-append : (s t : Text) → ends_with (s ++ t) t ≡ true
unfolding ends_with
ends_with-append [] [] = refl
ends_with-append [] (c ∷ t) = ground (arith, eq_refl (c ∷ t))
ends_with-append (c ∷ s) t = ground (arith, ends_with-append s t)

pub before_suffix : (s t : Text) → ends_with s t ≡ true → (q : Text) × (s ≡ q ++ t)
unfolding ends_with
before_suffix [] t h = ([], eq→≡ [] t h)
before_suffix (c ∷ s) t h = elim (Bool-cases ((c ∷ s) == t)) [
  | inl e ↦ ([], eq→≡ (c ∷ s) t e)
  | inr e ↦ let (q, same) = before_suffix s t (ground arith) in (c ∷ q, ap (λ r. c ∷ r) same)
]
