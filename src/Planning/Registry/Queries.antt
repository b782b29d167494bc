-- ===== src/Planning/Registry/Queries.antt =====
-- What the queries of a registry answer.
use red_forge.Base.{
  ◌≡◌, refl, sym, ap, ◌∙◌, true, false, some, List, [], ◌∷◌, arith, if◌then◌else◌, Bool-cases,
  Option-cases, ◌⊎◌, inl, inr, contains, distinct, sort, sort_ext, ◌==◌, eq→≡, eq_refl, keys,
  lookup, put, has, lookup-put, distinct-keys-put, has-of_some, some-of_has, keep,
}
use red_forge.Sdk.StateKey.{PipelineStateKey, key_order}
use red_forge.Sdk.Exception.{returns, >>=-eq-returns}
use red_forge.Sdk.CapabilityId.{CapabilityId, id_order}
use red_forge.Sdk.Definition.{CapabilityDefinition}
use red_forge.Planning.Registry.{
  Registry, register, register_all, registry, definitions_at, ids, all_definitions, producers_for,
}

-- A definition stands under its own identity, and an identity at most once.
pub record IsRegistry (r : Registry) : Type 0 where
  pub own :
      (i : CapabilityId) (d : CapabilityDefinition) → lookup i r ≡ some d → d.capability_id ≡ i
  pub once : distinct (keys r) ≡ true

register_parts :
    (d : CapabilityDefinition) (r r' : Registry)
    → register d r ≡ returns r'
    → (has d.capability_id r ≡ false) × (r' ≡ put d.capability_id d r)
unfolding register
register_parts d r r' h = ground arith

register-IsRegistry :
    (d : CapabilityDefinition) (r r' : Registry)
    → IsRegistry r
    → register d r ≡ returns r'
    → IsRegistry r'
register-IsRegistry d r r' ok h =
    let (fresh, same) = register_parts d r r' h in
    record {
      own = λ i x found.
          let after : (if i == d.capability_id then some d else lookup i r) ≡ some x =
            sym (ap (lookup i) same ∙ lookup-put d.capability_id i d r) ∙ found in
          elim (Bool-cases (i == d.capability_id)) [
            | inl e ↦
                let here = eq→≡ i d.capability_id e in
                let it : d ≡ x = ground arith in cc (here, it)
            | inr e ↦ ok.own i x (ground arith)
          ];
      once = ap (λ s. distinct (keys s)) same ∙ distinct-keys-put d.capability_id d r ok.once;
    }

register_all-IsRegistry :
    (ds : List CapabilityDefinition) (r r' : Registry)
    → IsRegistry r
    → register_all ds r ≡ returns r'
    → IsRegistry r'
unfolding register_all
register_all-IsRegistry [] r r' ok h = let e : r ≡ r' = ground arith in rw (sym e) ok
register_all-IsRegistry (d ∷ ds) r r' ok h =
    let (s, p, q) = >>=-eq-returns (register d r) _ h in
    register_all-IsRegistry ds s r' (register-IsRegistry d r s ok p) q

-- The registry of a list of definitions is well formed.
pub registry-IsRegistry :
    (ds : List CapabilityDefinition) (r : Registry) → registry ds ≡ returns r → IsRegistry r
unfolding registry lookup distinct
registry-IsRegistry ds r h =
    register_all-IsRegistry ds [] r (record { own = λ i d e. absurd (cc); once = refl }) h

-- `d` is one of `ds`.
abbrev pub Listed : CapabilityDefinition → List CapabilityDefinition → Type 0
Listed d [] = ⊥
Listed d (e ∷ es) = (d ≡ e) ⊎ Listed d es

register_all_keeps :
    (ds : List CapabilityDefinition) (r s : Registry) (i : CapabilityId) (d : CapabilityDefinition)
    → register_all ds r ≡ returns s
    → lookup i r ≡ some d
    → lookup i s ≡ some d
unfolding register_all
register_all_keeps [] r s i d h found = let e : r ≡ s = ground arith in rw (sym e) found
register_all_keeps (x ∷ ds) r s i d h found =
    let (t, p, q) = >>=-eq-returns (register x r) _ h in
    let (fresh, same) = register_parts x r t p in
    let there = has-of_some i r d found in
    let other : (i == x.capability_id) ≡ false = elim (Bool-cases (i == x.capability_id)) [
      | inl e ↦ absurd (cc (ap (λ j. has j r) (eq→≡ i x.capability_id e), there, fresh))
      | inr e ↦ e
    ] in
    register_all_keeps ds t s i d q (
      ap (lookup i) same
      ∙ lookup-put x.capability_id i x r
      ∙ ap (λ b. if b then some x else lookup i r) other
      ∙ found)

register_all-Listed :
    (ds : List CapabilityDefinition) (r s : Registry) (d : CapabilityDefinition)
    → register_all ds r ≡ returns s
    → Listed d ds
    → lookup d.capability_id s ≡ some d
unfolding register_all
register_all-Listed [] r s d h member = absurd member
register_all-Listed (x ∷ ds) r s d h member =
    let (t, p, q) = >>=-eq-returns (register x r) _ h in
    elim member [
      | inl e ↦
          let (fresh, same) = register_parts x r t p in
          register_all_keeps ds t s d.capability_id d q (
            rw e (
              ap (lookup x.capability_id) same
              ∙ lookup-put x.capability_id x.capability_id x r
              ∙ ap (λ b. if b then some x else lookup x.capability_id r) (eq_refl x.capability_id)))
      | inr there ↦ register_all-Listed ds t s d q there
    ]

Listed-register_all :
    (ds : List CapabilityDefinition) (r s : Registry) (i : CapabilityId) (d : CapabilityDefinition)
    → register_all ds r ≡ returns s
    → lookup i s ≡ some d
    → (lookup i r ≡ some d) ⊎ Listed d ds
unfolding register_all
Listed-register_all [] r s i d h found = let e : r ≡ s = ground arith in inl (rw e found)
Listed-register_all (x ∷ ds) r s i d h found =
    let (t, p, q) = >>=-eq-returns (register x r) _ h in
    let (fresh, same) = register_parts x r t p in
    elim (Listed-register_all ds t s i d q found) [
      | inl before ↦
          let after : (if i == x.capability_id then some x else lookup i r) ≡ some d =
            sym (ap (lookup i) same ∙ lookup-put x.capability_id i x r) ∙ before in
          elim (Bool-cases (i == x.capability_id)) [
            | inl e ↦ let it : d ≡ x = ground arith in inr (inl it)
            | inr e ↦ inl (ground arith)
          ]
      | inr there ↦ inr (inr there)
    ]

-- A registry finds under an identity exactly the definition with that identity that it was given.
pub registry-finds :
    (ds : List CapabilityDefinition) (r : Registry) (d : CapabilityDefinition)
    → registry ds ≡ returns r
    → (Listed d ds → lookup d.capability_id r ≡ some d)
      × ((i : CapabilityId) → lookup i r ≡ some d → Listed d ds × (d.capability_id ≡ i))
unfolding registry lookup
registry-finds ds r d h = (
  register_all-Listed ds [] r d h,
  λ i found. elim (Listed-register_all ds [] r i d h found) [
    | inl none_before ↦ absurd (cc)
    | inr there ↦ (there, (registry-IsRegistry ds r h).own i d found)
  ],
)

-- Same lookups, same queries.
definitions_at_ext :
    (is : List CapabilityId) (r s : Registry)
    → ((i : CapabilityId) → lookup i r ≡ lookup i s)
    → definitions_at is r ≡ definitions_at is s
unfolding definitions_at
definitions_at_ext [] r s h = refl
definitions_at_ext (i ∷ is) r s h = rw (h i, definitions_at_ext is r s h)

has-lookup :
    (r s : Registry) (i : CapabilityId) → lookup i r ≡ lookup i s → has i r ≡ true → has i s ≡ true
has-lookup r s i e h = let (d, found) = some-of_has i r h in has-of_some i s d (sym e ∙ found)

has_ext : (r s : Registry) (i : CapabilityId) → lookup i r ≡ lookup i s → has i r ≡ has i s
has_ext r s i e = let to = has-lookup r s i e in let back = has-lookup s r i (sym e) in ground arith

all_definitions_ext :
    (r s : Registry)
    → IsRegistry r
    → IsRegistry s
    → ((i : CapabilityId) → lookup i r ≡ lookup i s)
    → all_definitions r ≡ all_definitions s
unfolding all_definitions ids has
all_definitions_ext r s p q h =
    definitions_at_ext (sort (keys r)) r s h
    ∙ ap (λ is. definitions_at is s)
        (sort_ext (keys r) (keys s) p.once q.once (λ i. has_ext r s i (h i)))

lookup_agrees :
    (ds es : List CapabilityDefinition) (r s : Registry) (i : CapabilityId)
    → ((d : CapabilityDefinition) → Listed d ds → Listed d es)
    → registry ds ≡ returns r
    → registry es ≡ returns s
    → (d : CapabilityDefinition) → lookup i r ≡ some d
    → lookup i s ≡ some d
lookup_agrees ds es r s i sub p q d found =
    let (there, own) = (registry-finds ds r d p).1 i found in
    ap (λ j. lookup j s) (sym own) ∙ (registry-finds es s d q).0 (sub d there)

lookup_same :
    (r s : Registry) (i : CapabilityId)
    → ((d : CapabilityDefinition) → lookup i r ≡ some d → lookup i s ≡ some d)
    → ((d : CapabilityDefinition) → lookup i s ≡ some d → lookup i r ≡ some d)
    → lookup i r ≡ lookup i s
lookup_same r s i to back = elim (Option-cases (lookup i r)) [
  | inr (d, found) ↦ found ∙ sym (to d found)
  | inl absent ↦ elim (Option-cases (lookup i s)) [
    | inl missing ↦ absent ∙ sym missing
    | inr (d, found) ↦ absurd (cc (back d found, absent))
  ]
]

-- The order in which definitions are registered does not show in the answers: registries of the
-- same definitions list the same definitions, and the same producers of each key, in the same order.
pub registry-order_independent :
    (ds es : List CapabilityDefinition) (r s : Registry) (k : PipelineStateKey)
    → registry ds ≡ returns r
    → registry es ≡ returns s
    → ((d : CapabilityDefinition) → Listed d ds → Listed d es)
    → ((d : CapabilityDefinition) → Listed d es → Listed d ds)
    → (all_definitions r ≡ all_definitions s) × (producers_for k r ≡ producers_for k s)
unfolding producers_for
registry-order_independent ds es r s k p q to back =
    let same =
      all_definitions_ext r s (registry-IsRegistry ds r p) (registry-IsRegistry es s q) (λ i.
        lookup_same r s i (lookup_agrees ds es r s i to p q)
          (lookup_agrees es ds s r i back q p)) in
    (same, ap (keep (λ d. contains k d.provides)) same)
