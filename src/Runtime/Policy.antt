-- ===== src/Runtime/Policy.antt =====
-- redforge/runtime/execution_policy.py and redforge/application/scan_limits.py. A clock is the
-- sequence of its readings, in nanoseconds; the rounding of floats is left out.
pub mod Limits
use red_forge.Base.{
  ℕ, ◌+◌, ◌≡◌, Bool, true, false, not, ◌&&◌, Option, none, some, List, [], ◌∷◌, map, leb, ltb,
  if◌then◌else◌, length, first, contains, distinct, sort_on, Text, text, ◌==◌,
}
use Prim.Native.Nat.{◌*◌}
use red_forge.Sdk.StateKey
use red_forge.Sdk.StateKey.{PipelineStateKey, key_order}
use red_forge.Sdk.Exception.{
  Exception, StateLimitViolation, value_error, type_error, foreign_error, state_limit_exceeded,
  execution_deadline_exceeded, Attempt, returns, raises, ◌>>=◌, ◌>>◌, require,
}
use red_forge.Sdk.Value.{Value, subdomain_discovery_result, host_resolution, tuple}
use red_forge.Sdk.Result.{StatePublication}

-- `_BOUNDED_STATE_KEYS`
abbrev pub bounded_state_keys : List PipelineStateKey
bounded_state_keys =
    StateKey.subdomains ∷ StateKey.hosts ∷ StateKey.alive_hosts ∷ StateKey.http_endpoints
    ∷ StateKey.endpoints ∷ StateKey.technologies ∷ []

pub record StateLimit : Type 0 where
  pub state_key : PipelineStateKey
  pub maximum : ℕ

-- `StateLimit(state_key, maximum)`
unfoldable pub state_limit : PipelineStateKey → ℕ → Attempt StateLimit
unfolding contains
state_limit key maximum = do
  require (contains key bounded_state_keys)
      (value_error (text "state limit key is not a bounded collection"))
  require (leb 1 maximum) (value_error (text "state limit maximum must be a positive integer"))
  returns (record { state_key = key; maximum = maximum })

pub data DeadlinePhase : Type 0 where
  before_capability after_capability : DeadlinePhase

-- ExecutionPolicyViolation
pub data Violation : Type 0 where
  limit : StateLimitViolation → Violation
  deadline : DeadlinePhase → Violation

-- A reading that is no finite number is invalid.
pub data Reading : Type 0 where
  invalid : Reading
  at : ℕ → Reading

-- The nth reading.
abbrev pub Clock : Type 0
Clock = ℕ → Reading

abbrev pub nanoseconds : ℕ
nanoseconds = 1_000_000_000

abbrev pub clock_error : Exception
clock_error = value_error (text "monotonic clock returned an invalid value")

-- `ExecutionDeadline.after`, from the reading that it takes: the time of expiry.
unfoldable pub deadline_after : (seconds : ℕ) → Reading → Attempt ℕ
deadline_after seconds started =
    if ltb seconds 1
    then raises (value_error (text "execution deadline duration must be positive"))
    else elim started [ at t ↦ returns (t + seconds * nanoseconds) | invalid ↦ raises clock_error ]

-- `ExecutionDeadline.check`, on the reading that it takes
unfoldable pub deadline_check : (expires_at : ℕ) → Reading → Attempt (Unit {0})
deadline_check expires_at invalid = raises clock_error
deadline_check expires_at (at t) =
    if leb expires_at t then raises execution_deadline_exceeded else returns tt

-- The protocol `ExecutionPolicy`: what the nth check of a run does, and the check of a batch.
pub record ExecutionPolicy : Type 0 where
  pub check_deadline : ℕ → Attempt (Unit {0})
  pub validate_publications : List StatePublication → Attempt (Unit {0})

pub record StateLimitPolicy : Type 0 where
  pub limits : List StateLimit
  pub expires_at : Option ℕ

-- `StateLimitPolicy(limits, deadline)`. The keys are distinct, so sorting by key is sorting.
unfoldable pub state_limit_policy : List StateLimit → Option ℕ → Attempt StateLimitPolicy
unfolding distinct sort_on
state_limit_policy limits expires_at = do
  require (distinct (map (λ l. l.state_key) limits))
      (value_error (text "state limits contain duplicate keys"))
  returns (record { limits = sort_on (λ l. l.state_key) limits; expires_at = expires_at })

-- `_bounded_state_size`. The runtime measures only values that passed the check of their key; for
-- any other value `len` is foreign to the model.
unfoldable pub bounded_state_size : PipelineStateKey → Value → Attempt ℕ
bounded_state_size StateKey.subdomains (subdomain_discovery_result hostnames) =
    returns (length hostnames)
bounded_state_size StateKey.hosts (host_resolution hosts) = returns (length hosts)
bounded_state_size StateKey.alive_hosts (tuple items) = returns (length items)
bounded_state_size StateKey.http_endpoints (tuple items) = returns (length items)
bounded_state_size StateKey.endpoints (tuple items) = returns (length items)
bounded_state_size StateKey.technologies (tuple items) = returns (length items)
bounded_state_size key value =
    if contains key bounded_state_keys
    then raises (foreign_error 0)
    else raises (value_error (text "state limit configured for an unbounded state key"))

-- `next((item for item in limits if item.state_key is key), None)`
unfoldable pub limit_for : PipelineStateKey → List StateLimit → Option StateLimit
unfolding first
limit_for key limits = first (λ l. l.state_key == key) limits

-- One round of the loop of `validate_publications`.
unfoldable pub check_limit : List StateLimit → StatePublication → Attempt (Unit {0})
unfolding limit_for bounded_state_size
check_limit limits p = elim (limit_for p.key limits) [
  | none ↦ returns tt
  | some l ↦ do
    observed ← bounded_state_size p.key p.value
    require (not (ltb l.maximum observed)) (
        state_limit_exceeded
          (record { state_key = p.key; observed = observed; allowed = l.maximum }))
]

unfoldable pub check_limits : List StateLimit → List StatePublication → Attempt (Unit {0})
unfolding check_limit
check_limits limits [] = returns tt
check_limits limits (p ∷ ps) = check_limit limits p >> check_limits limits ps

-- A `StateLimitPolicy` as a policy. The clock gave one reading when the deadline was set.
unfoldable pub policy : Clock → StateLimitPolicy → ExecutionPolicy
unfolding deadline_check check_limits
policy clock p = record {
  check_deadline =
      λ n. elim p.expires_at [ none ↦ returns tt | some t ↦ deadline_check t (clock (1 + n)) ];
  validate_publications = check_limits p.limits;
}

-- The fields of `ScanLimits` that the policy reads.
pub record ScanLimits : Type 0 where
  pub max_subdomains : ℕ
  pub max_hosts : ℕ
  pub max_alive_hosts : ℕ
  pub max_http_endpoints : ℕ
  pub max_crawl_endpoints : ℕ
  pub max_technologies : ℕ
  pub overall_timeout_seconds : ℕ

-- `create_scan_limit_policy`
unfoldable pub create_scan_limit_policy : ScanLimits → Clock → Attempt StateLimitPolicy
unfolding state_limit deadline_after state_limit_policy
create_scan_limit_policy l clock = do
  l0 ← state_limit StateKey.subdomains l.max_subdomains
  l1 ← state_limit StateKey.hosts l.max_hosts
  l2 ← state_limit StateKey.alive_hosts l.max_alive_hosts
  l3 ← state_limit StateKey.http_endpoints l.max_http_endpoints
  l4 ← state_limit StateKey.endpoints l.max_crawl_endpoints
  l5 ← state_limit StateKey.technologies l.max_technologies
  expires ← deadline_after l.overall_timeout_seconds (clock 0)
  state_limit_policy (l0 ∷ l1 ∷ l2 ∷ l3 ∷ l4 ∷ l5 ∷ []) (some expires)
