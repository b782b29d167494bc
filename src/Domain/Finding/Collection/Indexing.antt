-- ===== src/Domain/Finding/Collection/Indexing.antt =====
-- The loop that indexes records by fingerprint: without a conflict it ends with an index of all the
-- records, and only a conflict refuses them.
use red_forge.Base.{
  ◌≡◌, refl, sym, ap, ◌∙◌, subst, Bool, true, ◌||◌, Option, none, some, List, [], ◌∷◌, ◌==◌, arith,
  keys, lookup, has, if◌then◌else◌, contains, distinct, map, lookup-put, contains-keys-put,
  distinct-keys-put, has-of_some, eq_refl, eq→≡, ≡→eq, Bool-cases, Option-cases, inl, inr,
  text_order, le_refl,
}
use red_forge.Sdk.Exception.{
  returns, raises, Exception, require->>, require->>-of_true, require->>-of_false,
}
use red_forge.Domain.Finding.Record.{
  FindingFingerprint, FindingRecord, fingerprint_order, record_order,
}
use red_forge.Domain.Finding.Collection.{
  Index, agrees, set_default, index_records, conflicting_records,
}

abbrev pub IsIn : FindingRecord → List FindingRecord → Type 0
IsIn r rs = contains r rs ≡ true

-- Records of one fingerprint are the same record.
abbrev pub NoConflict : List FindingRecord → Type 0
NoConflict rs =
    (a b : FindingRecord) → IsIn a rs → IsIn b rs → a.fingerprint ≡ b.fingerprint → a ≡ b

-- The index holds records of the list, each at its fingerprint.
abbrev pub IsIndexOf : Index → List FindingRecord → Type 0
IsIndexOf d rs =
    (f : FindingFingerprint) (r : FindingRecord)
    → lookup f d ≡ some r
    → IsIn r rs × (r.fingerprint ≡ f)

abbrev pub fingerprints : List FindingRecord → List FindingFingerprint
fingerprints rs = map (λ (r : FindingRecord). r.fingerprint) rs

set_default-IsIndexOf :
    (all : List FindingRecord) (r : FindingRecord) (d : Index) (o : Option FindingRecord)
    → IsIn r all
    → IsIndexOf d all
    → IsIndexOf (set_default r o d) all
unfolding set_default
set_default-IsIndexOf all r d none m h f s e = elim (Bool-cases (f == r.fingerprint)) [
  | inl t ↦
      let same : some r ≡ some s =
        ap (λ (b : Bool). if b then some r else lookup f d) (sym t)
        ∙ sym (lookup-put r.fingerprint f r d)
        ∙ e in
      let same' : r ≡ s = ground arith in
      (
        subst (λ q. IsIn q all) same' m,
        ap (λ (q : FindingRecord). q.fingerprint) (sym same') ∙ sym (eq→≡ f r.fingerprint t),
      )
  | inr t ↦ h f s (
      ap (λ (b : Bool). if b then some r else lookup f d) (sym t)
      ∙ sym (lookup-put r.fingerprint f r d)
      ∙ e)
]
set_default-IsIndexOf all r d (some s) m h f t e = h f t e

set_default-distinct :
    (r : FindingRecord) (d : Index) (o : Option FindingRecord)
    → distinct (keys d) ≡ true
    → distinct (keys (set_default r o d)) ≡ true
unfolding set_default
set_default-distinct r d none h = distinct-keys-put r.fingerprint r d h
set_default-distinct r d (some s) h = h

set_default-has :
    (r : FindingRecord) (d : Index) (f : FindingFingerprint)
    → has f (set_default r (lookup r.fingerprint d) d) ≡ (f == r.fingerprint || has f d)
unfolding set_default has
set_default-has r d f = elim (Option-cases (lookup r.fingerprint d)) [
  | inl e ↦ rw e (contains-keys-put r.fingerprint f r d)
  | inr (s, e) ↦ rw e (absorbed (has-of_some r.fingerprint d s e))
]
  where
    absorbed :
        has r.fingerprint d ≡ true
        → contains f (keys d) ≡ (f == r.fingerprint || contains f (keys d))
    absorbed e = elim (Bool-cases (f == r.fingerprint)) [
      | inl t ↦ rw t (ap (λ g. contains g (keys d)) (eq→≡ f r.fingerprint t) ∙ e)
      | inr t ↦ rw t
    ]

index_records-step :
    (r : FindingRecord) (rs : List FindingRecord) (d : Index)
    → agrees r (lookup r.fingerprint d) ≡ true
    → index_records d (r ∷ rs) ≡ index_records (set_default r (lookup r.fingerprint d) d) rs
unfolding index_records
index_records-step r rs d ok =
    require->>-of_true (agrees r (lookup r.fingerprint d)) conflicting_records
      (index_records (set_default r (lookup r.fingerprint d) d) rs) ok

-- What a loop over some of the records leaves.
abbrev pub Indexed : List FindingRecord → Index → List FindingRecord → Index → Type 0
Indexed all d rs e =
    (index_records d rs ≡ returns e)
    × IsIndexOf e all
    × (distinct (keys e) ≡ true)
    × ((f : FindingFingerprint) → has f e ≡ (contains f (fingerprints rs) || has f d))

agrees_of :
    (all : List FindingRecord) (r : FindingRecord) (d : Index) (o : Option FindingRecord)
    → NoConflict all
    → IsIn r all
    → IsIndexOf d all
    → lookup r.fingerprint d ≡ o
    → agrees r o ≡ true
agrees_of all r d none n m h e = refl
agrees_of all r d (some s) n m h e =
    let (found, same) = h r.fingerprint s e in ≡→eq s r (n s r found m same)

or_swap : (a b c : Bool) → (a || (b || c)) ≡ ((b || a) || c)
or_swap a b c = ground arith

step-Indexed :
    (all : List FindingRecord) (r : FindingRecord) (rs : List FindingRecord) (d : Index)
    → agrees r (lookup r.fingerprint d) ≡ true
    → (e : Index) × Indexed all (set_default r (lookup r.fingerprint d) d) rs e
    → (e : Index) × Indexed all d (r ∷ rs) e
unfolding contains
step-Indexed all r rs d ok (e, (run, good, unique, members)) = (
  e,
  (
    index_records-step r rs d ok ∙ run,
    good,
    unique,
    λ f.
        members f
        ∙ ap (λ b. contains f (fingerprints rs) || b) (set_default-has r d f)
        ∙ or_swap (contains f (fingerprints rs)) (f == r.fingerprint) (has f d),
  ),
)

-- Without a conflict the loop runs to its end.
pub index_all :
    (all : List FindingRecord)
    → NoConflict all
    → (rs : List FindingRecord) (d : Index) → ((r : FindingRecord) → IsIn r rs → IsIn r all)
    → IsIndexOf d all
    → distinct (keys d) ≡ true
    → (e : Index) × Indexed all d rs e
unfolding index_records contains
index_all all n [] d within h u = (d, (refl, h, u, λ f. refl))
index_all all n (r ∷ rs) d within h u =
    let member : IsIn r all = within r (ground (arith, le_refl r)) in
    step-Indexed all r rs d (agrees_of all r d (lookup r.fingerprint d) n member h refl) (
      index_all all n rs (set_default r (lookup r.fingerprint d) d) (λ s m. within s (ground arith))
        (set_default-IsIndexOf all r d (lookup r.fingerprint d) member h)
        (set_default-distinct r d (lookup r.fingerprint d) u))

set_default-keeps :
    (s : FindingRecord) (d : Index) (o : Option FindingRecord) (f : FindingFingerprint)
    (r : FindingRecord)
    → lookup s.fingerprint d ≡ o
    → lookup f d ≡ some r
    → lookup f (set_default s o d) ≡ some r
unfolding set_default
set_default-keeps s d (some t) f r q k = k
set_default-keeps s d none f r q k =
    lookup-put s.fingerprint f s d ∙ elim (Bool-cases (f == s.fingerprint)) [
      | inl t ↦ absurd (cc (q, k, ap (λ g. lookup g d) (eq→≡ f s.fingerprint t)))
      | inr t ↦ ap (λ b. if b then some s else lookup f d) t ∙ k
    ]

set_default-there :
    (s : FindingRecord) (d : Index) (o : Option FindingRecord)
    → lookup s.fingerprint d ≡ o
    → agrees s o ≡ true
    → lookup s.fingerprint (set_default s o d) ≡ some s
unfolding set_default
set_default-there s d none q h =
    lookup-put s.fingerprint s.fingerprint s d
    ∙ ap (λ b. if b then some s else lookup s.fingerprint d) (eq_refl s.fingerprint)
set_default-there s d (some t) q h = q ∙ ap some (eq→≡ t s h)

-- A record of the index stays there, and every record that the loop passes is there.
index_keeps :
    (rs : List FindingRecord) (d e : Index)
    → index_records d rs ≡ returns e
    → (f : FindingFingerprint) (r : FindingRecord) → lookup f d ≡ some r
    → lookup f e ≡ some r
unfolding index_records
index_keeps [] d e h f r k =
    let same : d ≡ e = ground arith in subst (λ x. lookup f x ≡ some r) same k
index_keeps (s ∷ rs) d e h f r k =
    let (_, h') = require->> (agrees s (lookup s.fingerprint d)) conflicting_records _ h in
    index_keeps rs (set_default s (lookup s.fingerprint d) d) e h' f r
      (set_default-keeps s d (lookup s.fingerprint d) f r refl k)

index_found :
    (rs : List FindingRecord) (d e : Index)
    → index_records d rs ≡ returns e
    → (r : FindingRecord) → IsIn r rs
    → lookup r.fingerprint e ≡ some r
unfolding index_records contains
index_found [] d e h r m = absurd (cc)
index_found (s ∷ rs) d e h r m =
    let (ok, h') = require->> (agrees s (lookup s.fingerprint d)) conflicting_records _ h in
    elim (Bool-cases (r == s)) [
      | inl t ↦
          let there =
            index_keeps rs (set_default s (lookup s.fingerprint d) d) e h' s.fingerprint s
              (set_default-there s d (lookup s.fingerprint d) refl ok) in
          subst (λ (q : FindingRecord). lookup q.fingerprint e ≡ some q) (sym (eq→≡ r s t)) there
      | inr t ↦ index_found rs (set_default s (lookup s.fingerprint d) d) e h' r (ground arith)
    ]

pub index-NoConflict :
    (rs : List FindingRecord) (d e : Index) → index_records d rs ≡ returns e → NoConflict rs
index-NoConflict rs d e h a b m n same =
    let one = index_found rs d e h a m in
    let two = index_found rs d e h b n in
    let both : some a ≡ some b = sym one ∙ ap (λ f. lookup f e) same ∙ two in ground arith

pub index-raises :
    (rs : List FindingRecord) (d : Index) {x : Exception}
    → index_records d rs ≡ raises x
    → x ≡ conflicting_records
unfolding index_records
index-raises [] d h = absurd (cc)
index-raises (r ∷ rs) d {x} h = elim (Bool-cases (agrees r (lookup r.fingerprint d))) [
  | inl t ↦
      index-raises rs (set_default r (lookup r.fingerprint d) d)
        (sym (index_records-step r rs d t) ∙ h)
  | inr t ↦
      let same : raises conflicting_records ≡ raises x =
        sym (
          require->>-of_false (agrees r (lookup r.fingerprint d)) conflicting_records
            (index_records (set_default r (lookup r.fingerprint d) d) rs) t)
        ∙ h in
      ground arith
]
