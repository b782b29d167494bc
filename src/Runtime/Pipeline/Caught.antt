-- ===== src/Runtime/Pipeline/Caught.antt =====
-- Policies whose checks raise no process control, and what the second `try` of a round then does:
-- redforge/runtime/pipeline.py. With finite readings of its clock, `StateLimitPolicy` is one of them.
use red_forge.Base.{
  ℕ, ◌+◌, ◌≡◌, refl, subst, ◌⊎◌, inl, inr, false, Option, none, some, List, [], ◌∷◌, Bool-cases,
  Option-cases, leb, arith,
}
use red_forge.Sdk.StateKey.{PipelineStateKey}
use red_forge.Sdk.Exception.{Exception, execution_deadline_exceeded, Attempt, returns, raises, ◌>>◌}
use red_forge.Sdk.Value.{
  Value, validate_pipeline_state_value, validate_instance, validate_typed_tuple,
}
use red_forge.Sdk.Result.{Result, StatePublication}
use red_forge.Sdk.Context.{validate_all}
use red_forge.Runtime.Policy.{
  ExecutionPolicy, StateLimit, StateLimitPolicy, Clock, at, policy, deadline_check, check_limit,
  check_limits, bounded_state_size,
}
use red_forge.Runtime.Pipeline.{is_usable, Normalized}
use red_forge.Runtime.Pipeline.Run.{is_control, escapes, approve_publications}

-- A check of the deadline passes, or raises expiry; a check of a batch raises no process control.
abbrev pub OnlyExpires : Option ExecutionPolicy → Type 0
OnlyExpires none = Unit
OnlyExpires (some p) =
    ((n : ℕ)
      → (p.check_deadline n ≡ returns tt)
        ⊎ (p.check_deadline n ≡ raises execution_deadline_exceeded))
    × ((ps : List StatePublication) → is_control (p.validate_publications ps) ≡ false)

caught->> :
    (m k : Attempt (Unit {0}))
    → is_control m ≡ false
    → is_control k ≡ false
    → is_control (m >> k) ≡ false
caught->> (returns _) k h h' = h'
caught->> (raises e) k h h' = h

-- A check of a value raises no process control.
value_caught :
    (k : PipelineStateKey) (v : Value) → is_control (validate_pipeline_state_value k v) ≡ false
unfolding validate_pipeline_state_value validate_instance validate_typed_tuple
value_caught k v = ground arith

validate_all_caught : (ps : List StatePublication) → is_control (validate_all ps) ≡ false
unfolding validate_all
validate_all_caught [] = refl
validate_all_caught (p ∷ ps) =
    caught->> (validate_pipeline_state_value p.key p.value) (validate_all ps)
      (value_caught p.key p.value) (validate_all_caught ps)

limit_caught :
    (limits : List StateLimit) (p : StatePublication) → is_control (check_limit limits p) ≡ false
unfolding check_limit bounded_state_size
limit_caught limits p = ground arith

check_limits_caught :
    (limits : List StateLimit) (ps : List StatePublication)
    → is_control (check_limits limits ps) ≡ false
unfolding check_limits
check_limits_caught limits [] = refl
check_limits_caught limits (p ∷ ps) =
    caught->> (check_limit limits p) (check_limits limits ps) (limit_caught limits p)
      (check_limits_caught limits ps)

deadline_caught :
    (m : Attempt (Unit {0}))
    → (m ≡ returns tt) ⊎ (m ≡ raises execution_deadline_exceeded)
    → is_control m ≡ false
deadline_caught m (inl h) = rw h refl
deadline_caught m (inr h) = rw h refl

verdict_cases : (m : Attempt (Unit {0})) → (m ≡ returns tt) ⊎ ((e : Exception) × (m ≡ raises e))
verdict_cases (returns tt) = inl refl
verdict_cases (raises e) = inr (e, refl)

-- The verdict of such a policy is not process control.
approve_caught :
    (policy : Option ExecutionPolicy) (checks : ℕ) (n : Normalized)
    → OnlyExpires policy
    → is_control (approve_publications policy checks n).0 ≡ false
unfolding approve_publications
approve_caught none checks n expires = elim (verdict_cases (validate_all n.explicit)) [
  | inl valid ↦ rw (valid, is_control) refl
  | inr (e, refused) ↦
      rw (refused, is_control)
        (subst (λ m. is_control m ≡ false) refused (validate_all_caught n.explicit))
]
approve_caught (some p) checks n expires = elim (verdict_cases (validate_all n.explicit)) [
  | inl valid ↦
      rw (valid, is_control)
        (caught->> (p.check_deadline checks) (p.validate_publications n.explicit)
          (deadline_caught (p.check_deadline checks) (expires.0 checks)) (expires.1 n.explicit))
  | inr (e, refused) ↦
      rw (refused, is_control)
        (subst (λ m. is_control m ≡ false) refused (validate_all_caught n.explicit))
]

pub stays :
    (policy : Option ExecutionPolicy) (checks : ℕ) (r : Result) (n : Normalized)
    → OnlyExpires policy
    → escapes policy checks r n ≡ false
unfolding escapes
stays policy checks r n expires = elim (Bool-cases (is_usable r.status)) [
  | inl usable ↦ rw usable (approve_caught policy checks n expires)
  | inr stops ↦ rw stops refl
]

deadline_or_expiry :
    (clock : Clock) (limits : StateLimitPolicy)
    → ((n : ℕ) → (t : ℕ) × (clock n ≡ at t))
    → (n : ℕ)
    → ((policy clock limits).check_deadline n ≡ returns tt)
      ⊎ ((policy clock limits).check_deadline n ≡ raises execution_deadline_exceeded)
unfolding policy deadline_check
deadline_or_expiry clock limits finite n = elim (Option-cases limits.expires_at) [
  | inl never ↦ inl (ground arith)
  | inr (e, until) ↦
      let (t, reading) = finite (1 + n) in
      elim (Bool-cases (leb e t)) [
        | inl expired ↦ inr (rw (until, reading, expired) refl)
        | inr on_time ↦ inl (rw (until, reading, on_time) refl)
      ]
]

-- With a clock that gives finite readings, a `StateLimitPolicy` raises expiry only, and for a batch
-- no process control.
pub policy-OnlyExpires :
    (clock : Clock) (limits : StateLimitPolicy)
    → ((n : ℕ) → (t : ℕ) × (clock n ≡ at t))
    → OnlyExpires (some (policy clock limits))
policy-OnlyExpires clock limits finite =
    (deadline_or_expiry clock limits finite, unfold policy in check_limits_caught limits.limits)
