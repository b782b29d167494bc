-- ===== src/Domain/Finding/Collection/Members.antt =====
-- A record collection depends on the set of the records only.
use red_forge.Base.{
  ◌≡◌, refl, sym, ap, ap₂, ◌∙◌, subst, true, ◌||◌, some, List, [], ◌∷◌, ◌==◌, sort, keys, lookup,
  has, contains, distinct, some-of_has, lookup-none_of, sort_ext, eq_refl, eq→≡, ≡→eq, Bool-cases,
  inl, inr, SameMembers, text_order, bool_ext, or_right,
}
use red_forge.Sdk.Exception.{
  Attempt, returns, raises, ◌>>=◌, Exception, >>=-eq-returns, >>=-eq-raises,
}
use red_forge.Domain.Finding.Record.{
  FindingFingerprint, FindingRecord, fingerprint_order, record_order,
}
use red_forge.Domain.Finding.Collection.{
  Index, index_records, records_at, onto_record, finding_record_collection, conflicting_records,
}
use red_forge.Domain.Finding.Collection.Indexing.{
  IsIn, NoConflict, IsIndexOf, fingerprints, Indexed, index_all, index-NoConflict, index-raises,
}

fingerprint_of_member :
    (r : FindingRecord) (rs : List FindingRecord)
    → IsIn r rs
    → contains r.fingerprint (fingerprints rs) ≡ true
unfolding contains
fingerprint_of_member r [] m = absurd (cc)
fingerprint_of_member r (s ∷ rs) m = elim (Bool-cases (r == s)) [
  | inl t ↦
      let same : (r.fingerprint == s.fingerprint) ≡ true =
        ≡→eq r.fingerprint s.fingerprint (ap (λ (q : FindingRecord). q.fingerprint) (eq→≡ r s t)) in
      ap (λ b. b || contains r.fingerprint (fingerprints rs)) same
  | inr t ↦
      let rest = fingerprint_of_member r rs (ap (λ b. b || contains r rs) (sym t) ∙ m) in
      or_right (r.fingerprint == s.fingerprint) (contains r.fingerprint (fingerprints rs)) rest
]

member_of_fingerprint :
    (f : FindingFingerprint) (rs : List FindingRecord)
    → contains f (fingerprints rs) ≡ true
    → (r : FindingRecord) × IsIn r rs × (r.fingerprint ≡ f)
unfolding contains
member_of_fingerprint f [] m = absurd (cc)
member_of_fingerprint f (s ∷ rs) m = elim (Bool-cases (f == s.fingerprint)) [
  | inl t ↦ (s, ap (λ b. b || contains s rs) (eq_refl s), sym (eq→≡ f s.fingerprint t))
  | inr t ↦
      let (r, n, same) =
        member_of_fingerprint f rs (ap (λ b. b || contains f (fingerprints rs)) (sym t) ∙ m) in
      (r, or_right (r == s) (contains r rs) n, same)
]

fingerprints_through :
    (rs ss : List FindingRecord) (f : FindingFingerprint)
    → SameMembers rs ss
    → contains f (fingerprints rs) ≡ true
    → contains f (fingerprints ss) ≡ true
fingerprints_through rs ss f same m =
    let (r, n, e) = member_of_fingerprint f rs m in
    subst (λ g. contains g (fingerprints ss) ≡ true) e
      (fingerprint_of_member r ss (sym (same r) ∙ n))

lookups_agree :
    (all : List FindingRecord) (d e : Index) (f : FindingFingerprint)
    → NoConflict all
    → IsIndexOf d all
    → IsIndexOf e all
    → has f d ≡ has f e
    → lookup f d ≡ lookup f e
lookups_agree all d e f n h k same = elim (Bool-cases (has f d)) [
  | inl t ↦
      let (r, p) = some-of_has f d t in
      let (s, q) = some-of_has f e (sym same ∙ t) in
      let (rm, rf) = h f r p in
      let (sm, sf) = k f s q in p ∙ ap some (n r s rm sm (rf ∙ sym sf)) ∙ sym q
  | inr t ↦ lookup-none_of f d t ∙ sym (lookup-none_of f e (sym same ∙ t))
]

records_at-ext :
    (d e : Index) (fs : List FindingFingerprint)
    → ((f : FindingFingerprint) → lookup f d ≡ lookup f e)
    → records_at d fs ≡ records_at e fs
unfolding records_at
records_at-ext d e [] h = refl
records_at-ext d e (f ∷ fs) h = ap₂ onto_record (h f) (records_at-ext d e fs h)

same_records :
    (all : List FindingRecord) (d e : Index)
    → NoConflict all
    → IsIndexOf d all
    → IsIndexOf e all
    → distinct (keys d) ≡ true
    → distinct (keys e) ≡ true
    → ((f : FindingFingerprint) → has f d ≡ has f e)
    → records_at d (sort (keys d)) ≡ records_at e (sort (keys e))
unfolding has
same_records all d e n h k u v same =
    ap (records_at d) (sort_ext (keys d) (keys e) u v same)
    ∙ records_at-ext d e (sort (keys e)) (λ f. lookups_agree all d e f n h k (same f))

-- The collection of two lists of records that have the same members, none in conflict.
collected :
    (rs ss : List FindingRecord)
    → NoConflict rs
    → SameMembers rs ss
    → (out : List FindingRecord) × (finding_record_collection rs ≡ returns out)
      × (finding_record_collection ss ≡ returns out)
unfolding finding_record_collection lookup distinct
collected rs ss n same =
    both (index_all rs n rs [] (λ r m. m) nothing refl)
      (index_all rs n ss [] (λ r m. same r ∙ m) nothing refl)
  where
    nothing : IsIndexOf [] rs
    nothing f r h = absurd (cc h)

    both :
        (d : Index) × Indexed rs [] rs d
        → (e : Index) × Indexed rs [] ss e
        → (out : List FindingRecord) × ((index_records [] rs >>= λ d.
              returns (records_at d (sort (keys d))))
            ≡ returns out)
          × ((index_records [] ss >>= λ d. returns (records_at d (sort (keys d)))) ≡ returns out)
    both (d, (run, good, unique, members)) (e, (run', good', unique', members')) = (
      records_at e (sort (keys e)),
      ap (λ (m : Attempt Index). m >>= λ x. returns (records_at x (sort (keys x)))) run
          ∙ ap returns (
              same_records rs d e n good good' unique unique' (λ f.
                members f
                ∙ ap (λ b. b || has {V = FindingRecord} f [])
                    (bool_ext (contains f (fingerprints rs)) (contains f (fingerprints ss))
                      (fingerprints_through rs ss f same)
                      (fingerprints_through ss rs f (λ r. sym (same r))))
                ∙ sym (members' f))),
      ap (λ (m : Attempt Index). m >>= λ x. returns (records_at x (sort (keys x)))) run',
    )

returned-NoConflict :
    (rs out : List FindingRecord) → finding_record_collection rs ≡ returns out → NoConflict rs
unfolding finding_record_collection
returned-NoConflict rs out h =
    let (d, run, _) = >>=-eq-returns (index_records [] rs) _ h in index-NoConflict rs [] d run

raised-conflict :
    (rs : List FindingRecord) (x : Exception)
    → finding_record_collection rs ≡ raises x
    → x ≡ conflicting_records
unfolding finding_record_collection
raised-conflict rs x h = elim (>>=-eq-raises (index_records [] rs) _ h) [
  | inl e ↦ index-raises rs [] e
  | inr (d, _, e) ↦ absurd (cc)
]

-- What a record collection is made of does not depend on the order of the records or on how often
-- one is given: for two lists with the same members, either both are refused, for the same reason,
-- or both give the same collection.
pub finding_record_collection-SameMembers :
    (rs ss : List FindingRecord)
    → SameMembers rs ss
    → finding_record_collection rs ≡ finding_record_collection ss
finding_record_collection-SameMembers rs ss same =
    compare_outcomes (finding_record_collection rs) (finding_record_collection ss) refl refl
  where
    returned :
        (us vs out : List FindingRecord)
        → SameMembers us vs
        → finding_record_collection us ≡ returns out
        → finding_record_collection us ≡ finding_record_collection vs
    returned us vs out h e =
        let (_, one, two) = collected us vs (returned-NoConflict us out e) h in one ∙ sym two

    compare_outcomes :
        (m n : Attempt (List FindingRecord))
        → finding_record_collection rs ≡ m
        → finding_record_collection ss ≡ n
        → finding_record_collection rs ≡ finding_record_collection ss
    compare_outcomes (returns out) n e f = returned rs ss out same e
    compare_outcomes (raises x) (returns out) e f = sym (returned ss rs out (λ a. sym (same a)) f)
    compare_outcomes (raises x) (raises y) e f =
        e ∙ ap raises (raised-conflict rs x e ∙ sym (raised-conflict ss y f)) ∙ sym f
