-- ===== src/Domain/Scope/Labels.antt =====
-- The scope of a DNS root, seen on the labels of names: the root and what has more labels before it.
use red_forge.Base.{
  ◌≡◌, refl, sym, ap, ◌∙◌, ◌↔◌, true, ◌||◌, inl, inr, List, [], ◌∷◌, ◌++◌, ◌==◌, Text, eq_refl,
  arith, eq→≡, text_order, Bool-cases,
}
use red_forge.Sdk.Exception.{Attempt, returns, raises}
use red_forge.Domain.Strings.{Platform, ends_with, Parts, parts_list, split, join, dot}
use red_forge.Domain.Strings.Splitting.{
  join-split, split-append, join-append, ends_with-append, before_suffix,
}
use red_forge.Domain.Hostname.{normalize_dns_hostname}
use red_forge.Domain.Scope.{ScanTarget, dns_root, under_root, contains_hostname, if_normal}

-- `"www.example.com"` has the labels `www`, `example` and `com`.
abbrev pub labels : Text → List Text
labels s = parts_list (split dot s)

-- The name has the labels of the root after its own ones.
abbrev pub IsBelow : Text → Text → Type 0
IsBelow root name = (own : List Text) × (labels name ≡ own ++ labels root)

IsBelow-under_root :
    (t : ScanTarget) (name : Text) → under_root (dns_root t) name ≡ true → IsBelow t.value name
unfolding under_root
IsBelow-under_root t name h = elim (Bool-cases (name == t.value)) [
  | inl e ↦ ([], ap labels (eq→≡ name t.value e))
  | inr e ↦
      let (q, same) = before_suffix name (dot ∷ t.value) (ground arith) in
      (labels q, ap labels same ∙ split-append dot q t.value)
]

ends_of :
    (root name : Text) (q : Parts) (own : List Text)
    → parts_list q ≡ labels root
    → labels name ≡ own ++ parts_list q
    → (name == root || ends_with name (dot ∷ root)) ≡ true
ends_of root name (part, parts) [] e h =
    let same : name ≡ root =
      sym (join-split dot name) ∙ ap (join dot) (h ∙ e) ∙ join-split dot root in
    ground (arith, same, eq_refl root)
ends_of root name (part, parts) (x ∷ xs) e h =
    let same : name ≡ join dot (x ∷ xs) ++ (dot ∷ root) =
      sym (join-split dot name)
      ∙ ap (join dot) h
      ∙ join-append dot x xs part parts
      ∙ ap (λ t. join dot (x ∷ xs) ++ (dot ∷ t)) (ap (join dot) e ∙ join-split dot root) in
    let ends : ends_with name (dot ∷ root) ≡ true =
      ap (λ n. ends_with n (dot ∷ root)) same ∙ ends_with-append (join dot (x ∷ xs)) (dot ∷ root) in
    ground arith

under_root-IsBelow :
    (t : ScanTarget) (name : Text) → IsBelow t.value name → under_root (dns_root t) name ≡ true
unfolding under_root
under_root-IsBelow t name (own, h) = ends_of t.value name (split dot t.value) own refl h

module _ (p : Platform) where
  -- The hostname is a valid one, and the name that it stands for is the root or a subdomain of it.
  abbrev pub InScope : ScanTarget → Text → Type 0
  InScope t hostname =
      (name : Text) × (normalize_dns_hostname p true hostname ≡ returns name) × IsBelow t.value name

  if_normal-InScope :
      (t : ScanTarget) (m : Attempt Text)
      → if_normal p (dns_root t) m ≡ true
      → (name : Text) × (m ≡ returns name) × IsBelow t.value name
  if_normal-InScope t (raises e) h = absurd (cc)
  if_normal-InScope t (returns name) h = (name, refl, IsBelow-under_root t name h)

  -- A scope with a DNS root contains a hostname if and only if the hostname normalizes to a name
  -- whose labels end with the labels of the root.
  pub contains_hostname-InScope :
      (t : ScanTarget) (hostname : Text)
      → (contains_hostname p (dns_root t) hostname ≡ true) ↔ InScope t hostname
  unfolding contains_hostname
  contains_hostname-InScope t hostname = (
    if_normal-InScope t (normalize_dns_hostname p true hostname),
    λ (name, e, below). ap (if_normal p (dns_root t)) e ∙ under_root-IsBelow t name below,
  )
