-- ===== src/Runtime/Registry/Names.antt =====
-- The names in a registry of instances, and what it gives back under them.
use red_forge.Base.{
  ◌≡◌, refl, sym, ap, ◌∙◌, false, some, List, [], ◌∷◌, ◌++◌, map, arith, append-nil, append_assoc,
  Bool-cases, ◌⊎◌, inl, inr, contains, Text, text_order, ◌==◌, eq→≡, eq_refl, Dict, keys, lookup,
  put, has, lookup-put, has-of_some, Order,
}
use red_forge.Sdk.Exception.{returns, >>=-eq-returns}
use red_forge.Runtime.Pipeline.{Capability}
use red_forge.Runtime.Registry.{
  Instances, register_instance, get_instance, list_names, register_capabilities,
}

keys-put_fresh {ℓ κ} :
    {K : Type ℓ} {V : Type κ} ⦃o : Order K⦄ (k : K) (v : V) (d : Dict K V)
    → has k d ≡ false
    → keys (put k v d) ≡ keys d ++ k ∷ []
unfolding put has contains
keys-put_fresh k v [] h = refl
keys-put_fresh k v ((j, w) ∷ d) h = ground (arith, keys-put_fresh k v d)

abbrev names_of : List Capability → List Text
names_of cs = map (λ (c : Capability). c.name) cs

register_instance_parts :
    (c : Capability) (r r' : Instances)
    → register_instance c r ≡ returns r'
    → (has c.name r ≡ false) × (r' ≡ put c.name c r)
unfolding register_instance
register_instance_parts c r r' h = ground arith

register_capabilities_keeps :
    (cs : List Capability) (r r' : Instances) (name : Text) (c : Capability)
    → register_capabilities cs r ≡ returns r'
    → lookup name r ≡ some c
    → lookup name r' ≡ some c
unfolding register_capabilities
register_capabilities_keeps [] r r' name c h found =
    let same : r ≡ r' = ground arith in ap (lookup name) (sym same) ∙ found
register_capabilities_keeps (x ∷ cs) r r' name c h found =
    let (s, p, q) = >>=-eq-returns (register_instance x r) _ h in
    let (fresh, same) = register_instance_parts x r s p in
    let there = has-of_some name r c found in
    let other : (name == x.name) ≡ false = elim (Bool-cases (name == x.name)) [
      | inl e ↦ absurd (cc (ap (λ n. has n r) (eq→≡ name x.name e), there, fresh))
      | inr e ↦ e
    ] in
    register_capabilities_keeps cs s r' name c q
      (ap (lookup name) same ∙ lookup-put x.name name x r ∙ rw other found)

-- `d` is one of `cs`.
abbrev pub OneOf : Capability → List Capability → Type 0
OneOf c [] = ⊥
OneOf c (d ∷ ds) = (c ≡ d) ⊎ OneOf c ds

register_capabilities_gives :
    (cs : List Capability) (r r' : Instances) (c : Capability)
    → register_capabilities cs r ≡ returns r'
    → OneOf c cs
    → lookup c.name r' ≡ some c
unfolding register_capabilities
register_capabilities_gives [] r r' c h member = absurd member
register_capabilities_gives (x ∷ cs) r r' c h member =
    let (s, p, q) = >>=-eq-returns (register_instance x r) _ h in
    elim member [
      | inl e ↦
          let (fresh, same) = register_instance_parts x r s p in
          register_capabilities_keeps cs s r' c.name c q (
            rw e
              (ap (lookup x.name) same ∙ lookup-put x.name x.name x r ∙ rw (eq_refl x.name) refl))
      | inr there ↦ register_capabilities_gives cs s r' c q there
    ]

register_capabilities_names :
    (cs : List Capability) (r r' : Instances)
    → register_capabilities cs r ≡ returns r'
    → list_names r' ≡ list_names r ++ names_of cs
unfolding register_capabilities
register_capabilities_names [] r r' h =
    let same : r ≡ r' = ground arith in ap keys (sym same) ∙ sym (append-nil (keys r))
register_capabilities_names (c ∷ cs) r r' h =
    let (s, p, q) = >>=-eq-returns (register_instance c r) _ h in
    let (fresh, same) = register_instance_parts c r s p in
    register_capabilities_names cs s r' q
    ∙ ap (λ l. l ++ map (λ (x : Capability). x.name) cs)
        (ap keys same ∙ keys-put_fresh c.name c r fresh)
    ∙ append_assoc (keys r) (c.name ∷ []) (map (λ (x : Capability). x.name) cs)

given :
    (name : Text) (r : Instances) (c : Capability)
    → lookup name r ≡ some c
    → get_instance name r ≡ returns c
unfolding get_instance
given name r c found = ground arith

-- Registering capabilities adds their names in the order of the list, and gives each of them back
-- under its name.
pub register_capabilities_in_order :
    (cs : List Capability) (r r' : Instances)
    → register_capabilities cs r ≡ returns r'
    → (list_names r' ≡ list_names r ++ map (λ (c : Capability). c.name) cs)
      × ((c : Capability) → OneOf c cs → get_instance c.name r' ≡ returns c)
register_capabilities_in_order cs r r' h = (
  register_capabilities_names cs r r' h,
  λ c member. given c.name r' c (register_capabilities_gives cs r r' c h member),
)
