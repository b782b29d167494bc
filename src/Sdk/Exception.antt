-- ===== src/Sdk/Exception.antt =====
-- The exceptions that the modelled code raises (redforge/planning/errors.py,
-- redforge/runtime/exceptions.py, redforge/runtime/execution_policy.py and Python's own), and code
-- that may raise. A message is kept where it is no fixed function of the other fields.
use red_forge.Base.{ℕ, ◌≡◌, refl, ap, ◌⊎◌, inl, inr, Bool, true, false, List, [], ◌∷◌, Text, arith}
use red_forge.Sdk.StateKey.{PipelineStateKey}

-- StateLimitViolation
pub record StateLimitViolation : Type 0 where
  pub state_key : PipelineStateKey
  pub observed : ℕ
  pub allowed : ℕ

pub data Exception : Type 0 where
  value_error type_error : Text → Exception
  invalid_planning_input : Text → Exception
  unknown_capability : (capability_name : Text) → Exception
  missing_producer : (state_key : Text) → Exception
  ambiguous_producer : (state_key : Text) (candidates : List Text) → Exception
  dependency_cycle : (cycle_path : List Text) → Exception
  missing_capability_factory : (capability_name : Text) → Exception
  invalid_capability_factory : (capability_name : Text) (failed : Bool) → Exception
  capability_descriptor_mismatch : (capability_name detail : Text) → Exception
  capability_not_found duplicate_capability : (name : Text) → Exception
  state_limit_exceeded : StateLimitViolation → Exception
  execution_deadline_exceeded : Exception
  -- no exception of the program: where the fuel of a loop of the model ends
  out_of_fuel : Exception
  -- what a provider, a policy or a capability of the caller raises
  foreign_error : ℕ → Exception
  -- `KeyboardInterrupt` and `SystemExit`, which `except Exception` does not catch
  process_control : Exception

pub data Attempt {ℓ} (A : Type ℓ) : Type ℓ where
  returns : A → Attempt A
  raises : Exception → Attempt A

infixl 5 ◌>>=◌ ◌>>◌
abbrev pub ◌>>=◌ {ℓ κ} : {A : Type ℓ} {B : Type κ} → Attempt A → (A → Attempt B) → Attempt B
returns a >>= f = f a
raises e >>= f = raises e

abbrev pub ◌>>◌ {ℓ} : {B : Type ℓ} → Attempt (Unit {0}) → Attempt B → Attempt B
m >> k = m >>= λ _. k

-- `if not test: raise e`
abbrev pub require : Bool → Exception → Attempt (Unit {0})
require true e = returns tt
require false e = raises e

unfoldable pub succeeds {ℓ} : {A : Type ℓ} → Attempt A → Bool
succeeds (returns a) = true
succeeds (raises e) = false

pub succeeds_unit : (m : Attempt (Unit {0})) → succeeds m ≡ true → m ≡ returns tt
unfolding succeeds
succeeds_unit (returns tt) h = refl
succeeds_unit (raises e) h = absurd (cc)

-- `[f(x) for x in xs]`
unfoldable pub traverse {ℓ κ} :
    {A : Type ℓ} {B : Type κ} → (A → Attempt B) → List A → Attempt (List B)
traverse f [] = returns []
traverse f (x ∷ xs) = do y ← f x; ys ← traverse f xs; returns (y ∷ ys)

pub >>=-eq-returns {ℓ κ} :
    {A : Type ℓ} {B : Type κ} (m : Attempt A) (f : A → Attempt B) {b : B}
    → (m >>= f) ≡ returns b
    → (a : A) × (m ≡ returns a) × (f a ≡ returns b)
>>=-eq-returns (returns a) f h = (a, refl, h)
>>=-eq-returns (raises e) f h = absurd (cc)

pub require-returns : (b : Bool) (e : Exception) {u : Unit {0}} → require b e ≡ returns u → b ≡ true
require-returns true e h = refl
require-returns false e h = absurd (cc)

pub require->> {ℓ} :
    {A : Type ℓ} (b : Bool) (e : Exception) (m : Attempt A) {a : A}
    → (require b e >> m) ≡ returns a
    → (b ≡ true) × (m ≡ returns a)
require->> true e m h = (refl, h)
require->> false e m h = absurd (cc)

pub >>=-eq-raises {ℓ κ} :
    {A : Type ℓ} {B : Type κ} (m : Attempt A) (f : A → Attempt B) {e : Exception}
    → (m >>= f) ≡ raises e
    → (m ≡ raises e) ⊎ ((a : A) × (m ≡ returns a) × (f a ≡ raises e))
>>=-eq-raises (returns a) f h = inr (a, refl, h)
>>=-eq-raises (raises x) f {e} h = inl (let same : x ≡ e = ground arith in ap raises same)

pub require->>-eq-raises {ℓ} :
    {A : Type ℓ} (b : Bool) (e : Exception) (a : A) {x : Exception}
    → (require b e >> returns a) ≡ raises x
    → e ≡ x
require->>-eq-raises true e a h = absurd (cc)
require->>-eq-raises false e a h = ground arith

pub require->>-of_true {ℓ} :
    {A : Type ℓ} (b : Bool) (e : Exception) (m : Attempt A) → b ≡ true → (require b e >> m) ≡ m
require->>-of_true b e m h = ap (λ c. require c e >> m) h

pub require->>-of_false {ℓ} :
    {A : Type ℓ} (b : Bool) (e : Exception) (m : Attempt A)
    → b ≡ false
    → (require b e >> m) ≡ raises e
require->>-of_false b e m h = ap (λ c. require c e >> m) h

pub returned_value {ℓ} :
    {A : Type ℓ} (m : Attempt A) → succeeds m ≡ true → (a : A) × (m ≡ returns a)
unfolding succeeds
returned_value (returns a) h = (a, refl)
returned_value (raises e) h = absurd (cc)
