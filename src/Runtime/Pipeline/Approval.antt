-- ===== src/Runtime/Pipeline/Approval.antt =====
-- What a usable result of a round has passed, and what it gives to the state.
use red_forge.Base.{
  ℕ, ◌≡◌, refl, true, false, Option, some, List, [], ◌∷◌, arith, Bool-cases, inl, inr, distinct,
  Text, text_order,
}
use red_forge.Sdk.StateKey
use red_forge.Sdk.StateKey.{PipelineStateKey, key_order}
use red_forge.Sdk.Exception.{
  Exception, execution_deadline_exceeded, Attempt, returns, raises, ◌>>◌, succeeds,
}
use red_forge.Sdk.Result.{publication_keys, Result}
use red_forge.Sdk.Context.Publish.{all_valid, validate_all-all_valid}
use red_forge.Runtime.Policy.{ExecutionPolicy}
use red_forge.Runtime.Pipeline.{
  Candidate, raised, unusable, produced, is_usable, Normalized, no_publications,
  normalize_capability_result, PipelineEntry, Contracts,
}
use red_forge.Runtime.Pipeline.Emit.{policy_failure}
use red_forge.Runtime.Pipeline.Run.{
  declared_outputs, normalized, judge, approve_publications, handle_refusal, ruled, police,
}

-- What a result gives to the state: its publications, or the value of a legacy capability.
unfoldable pub contribution : Contracts → PipelineEntry → Result → Normalized
contribution contracts entry r =
    elim (normalize_capability_result entry.capability.name r (declared_outputs contracts entry)) [
      | returns n ↦ n
      | raises _ ↦ no_publications
    ]

pub distinct-one : (k : PipelineStateKey) → distinct (k ∷ []) ≡ true
unfolding distinct
distinct-one k = refl

pub distinct-none : distinct {A = PipelineStateKey} [] ≡ true
unfolding distinct
distinct-none = refl

pub declared_one : Option (List PipelineStateKey) → PipelineStateKey
declared_one (some (k ∷ ks)) = k
declared_one _ = StateKey.hosts

pub normalize_distinct :
    (name : Text) (r : Result) (declared : Option (List PipelineStateKey)) (n : Normalized)
    → normalize_capability_result name r declared ≡ returns n
    → distinct (publication_keys n.explicit) ≡ true
unfolding normalize_capability_result
normalize_distinct name r (some (k ∷ [])) n h = ground (arith, distinct-one k, distinct-none)
normalize_distinct name r declared n h = ground (arith, distinct-none)

pub normalized_usable :
    (name : Text) (r : Result) (declared : Option (List PipelineStateKey))
    (outcome : Attempt Normalized)
    → normalize_capability_result name r declared ≡ outcome
    → is_usable (normalized name r outcome).0.status ≡ true
    → normalize_capability_result name (normalized name r outcome).0 declared
      ≡ returns (normalized name r outcome).1
unfolding normalized
normalized_usable name r declared (returns n) e h = e
normalized_usable name r declared (raises _) e h = absurd (cc)

pub judge_usable :
    (name : Text) (declared : Option (List PipelineStateKey)) (candidate : Candidate)
    → is_usable (judge name declared candidate).0.status ≡ true
    → normalize_capability_result name (judge name declared candidate).0 declared
      ≡ returns (judge name declared candidate).1
unfolding judge
judge_usable name declared raised h = absurd (cc)
judge_usable name declared unusable h = absurd (cc)
judge_usable name declared (produced r) h = normalized_usable name r declared _ refl h

pub handle_refusal_unusable :
    (name : Text) (e : Exception) → is_usable (handle_refusal name e).0.status ≡ false
unfolding handle_refusal policy_failure
handle_refusal_unusable name execution_deadline_exceeded = refl
handle_refusal_unusable name _ = refl

-- A result that is still usable after the policy is the judged one, and its publications passed.
pub record IsApproved (policy : Option ExecutionPolicy) (n : Normalized) (r r' : Result)
    : Type 0 where
  pub same : r' ≡ r
  pub valid : all_valid n.explicit ≡ true
  pub allowed :
      (p : ExecutionPolicy) → policy ≡ some p → p.validate_publications n.explicit ≡ returns tt

pub then_returns : (m k : Attempt (Unit {0})) {u : Unit {0}} → (m >> k) ≡ returns u → k ≡ returns tt
then_returns (returns _) (returns _) h = refl
then_returns (returns _) (raises e) h = absurd (cc)
then_returns (raises e) k h = absurd (cc)

pub approve_publications_returns :
    (policy : Option ExecutionPolicy) (checks : ℕ) (n : Normalized) (r : Result) {u : Unit {0}}
    → (approve_publications policy checks n).0 ≡ returns u
    → IsApproved policy n r r
unfolding approve_publications succeeds
approve_publications_returns policy checks n r h = record {
  same = refl;
  valid = ground (arith, validate_all-all_valid n.explicit);
  allowed = λ p e.
      then_returns (p.check_deadline checks) (p.validate_publications n.explicit) (ground arith);
}

pub ruled_usable :
    (policy : Option ExecutionPolicy) (checks k : ℕ) (name : Text) (r : Result) (n : Normalized)
    (verdict : Attempt (Unit {0}))
    → (approve_publications policy checks n).0 ≡ verdict
    → is_usable (ruled name r k verdict).0.status ≡ true
    → IsApproved policy n r (ruled name r k verdict).0
unfolding ruled
ruled_usable policy checks k name r n (returns u) e h =
    approve_publications_returns policy checks n r e
ruled_usable policy checks k name r n (raises x) e h = absurd (cc (handle_refusal_unusable name x))

pub police_usable :
    (policy : Option ExecutionPolicy) (checks : ℕ) (name : Text) (r : Result) (n : Normalized)
    → is_usable (police policy checks name r n).0.status ≡ true
    → IsApproved policy n r (police policy checks name r n).0 × (is_usable r.status ≡ true)
unfolding police
police_usable policy checks name r n h = elim (Bool-cases (is_usable r.status)) [
  | inl usable ↦ (rw usable (ruled_usable policy checks _ name r n _ refl (rw usable at h)), usable)
  | inr stops ↦ absurd (cc (rw stops at h))
]
