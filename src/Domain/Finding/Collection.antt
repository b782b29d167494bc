-- ===== src/Domain/Finding/Collection.antt =====
-- `FindingRecordCollection` of redforge/domain/finding_intelligence.py: one record for each
-- fingerprint, in the order of the fingerprints.
pub mod Indexing
pub mod Members
use red_forge.Base.{
  ◌≡◌, refl, sym, ap, ◌∙◌, subst, Bool, true, false, not, Option, none, some, List, [], ◌∷◌, ◌==◌,
  Text, text, text_le, arith, Order, sort, Dict, keys, lookup, put, if◌then◌else◌, contains,
  distinct, map,
}
use red_forge.Sdk.Exception.{
  Attempt, returns, raises, ◌>>=◌, ◌>>◌, require, value_error, Exception, require->>,
  >>=-eq-returns,
}
use red_forge.Domain.Finding.Record.{
  FindingFingerprint, FindingRecord, fingerprint_order, record_order,
}

abbrev pub conflicting_records : Exception
conflicting_records = value_error (text "finding fingerprint records conflict")

abbrev pub Index : Type 0
Index = Dict FindingFingerprint FindingRecord

-- `existing is not None and existing != record`
abbrev pub agrees : FindingRecord → Option FindingRecord → Bool
agrees r none = true
agrees r (some existing) = existing == r

-- `by_fingerprint.setdefault(record.fingerprint, record)`
unfoldable pub set_default : FindingRecord → Option FindingRecord → Index → Index
set_default r none d = put r.fingerprint r d
set_default r (some _) d = d

-- The loop over the records.
unfoldable pub index_records : Index → List FindingRecord → Attempt Index
index_records d [] = returns d
index_records d (r ∷ rs) =
    let rest = index_records (set_default r (lookup r.fingerprint d) d) rs in
    require (agrees r (lookup r.fingerprint d)) conflicting_records >> rest

-- `tuple(by_fingerprint[key] for key in keys)`, where every key has a record.
abbrev pub onto_record : Option FindingRecord → List FindingRecord → List FindingRecord
onto_record none rs = rs
onto_record (some r) rs = r ∷ rs

unfoldable pub records_at : Index → List FindingFingerprint → List FindingRecord
records_at d [] = []
records_at d (f ∷ fs) = onto_record (lookup f d) (records_at d fs)

-- `FindingRecordCollection(records)`
unfoldable pub finding_record_collection : List FindingRecord → Attempt (List FindingRecord)
finding_record_collection records =
    index_records [] records >>= λ d. returns (records_at d (sort (keys d)))
