-- ===== src/Runtime/Policy/Limits.antt =====
-- What `validate_publications` of a `StateLimitPolicy` lets through.
use red_forge.Base.{
  ℕ, ◌≡◌, ◌≤◌, sym, not, some, List, [], ◌∷◌, arith, Bool-cases, inl, inr, ltb, ◌==◌, eq→≡,
}
use red_forge.Sdk.StateKey.{PipelineStateKey, key_order}
use red_forge.Sdk.Exception.{returns, >>=-eq-returns, require-returns}
use red_forge.Sdk.Value.{Value}
use red_forge.Sdk.Result.{StatePublication}
use red_forge.Sdk.Context.Publish.{published}
use red_forge.Runtime.Policy.{StateLimit, bounded_state_size, limit_for, check_limit, check_limits}

-- A value is no larger than the limit of its key.
pub record IsWithin (limits : List StateLimit) (k : PipelineStateKey) (v : Value) : Type 0 where
  pub size :
      (l : StateLimit)
      → limit_for k limits ≡ some l
      → (n : ℕ) × (bounded_state_size k v ≡ returns n) × (n ≤ l.maximum)

check_limit-IsWithin :
    (limits : List StateLimit) (p : StatePublication)
    → check_limit limits p ≡ returns tt
    → IsWithin limits p.key p.value
unfolding check_limit
check_limit-IsWithin limits p h = record {
  size = λ l found.
      let (n, measured, rest) =
        >>=-eq-returns (bounded_state_size p.key p.value) _ (rw (found, check_limit) at h) in
      let fits = require-returns (not (ltb l.maximum n)) _ rest in (n, measured, ground arith);
}

-- Every value that a batch gives to a key is within the limit of the key.
pub check_limits-IsWithin :
    (limits : List StateLimit) (ps : List StatePublication) (k : PipelineStateKey) (v : Value)
    → check_limits limits ps ≡ returns tt
    → published k ps ≡ some v
    → IsWithin limits k v
unfolding check_limits published
check_limits-IsWithin limits [] k v h e = absurd (cc)
check_limits-IsWithin limits (p ∷ ps) k v h e =
    let (u, first_ok, rest) = >>=-eq-returns (check_limit limits p) _ h in
    elim (Bool-cases (k == p.key)) [
      | inl q ↦
          let same = eq→≡ k p.key q in
          let here : p.value ≡ v = ground arith in
          rw (same, sym here) (check_limit-IsWithin limits p first_ok)
      | inr q ↦ check_limits-IsWithin limits ps k v rest (ground arith)
    ]
