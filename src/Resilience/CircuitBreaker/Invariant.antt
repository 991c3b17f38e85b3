-- ===== src/Resilience/CircuitBreaker/Invariant.antt =====
-- What holds of a breaker between two calls, and what each call may change.
use scry_proxy.Base.{ℕ, ◌≤◌, ◌<◌, ◌≡◌, Bool, Option, List, [], ◌∷◌, arith, u32_mod}
use scry_proxy.Resilience.CircuitBreaker.{
  closed, CircuitBreaker, CircuitBreakerConfig, HealthStatus, Call, allow, success, failure,
  health_report, new, get_state, allow_request, record_success, record_failure, report_health, step,
  run,
}

pub record IsValid (b : CircuitBreaker) : Type 0 where
  pub state_code : b.state ≤ 2
  pub thresholds : (0 < b.failure_threshold) × (0 < b.success_threshold)
  pub words : (b.failure_threshold < u32_mod) × (b.success_threshold < u32_mod)
  pub below_failures : get_state b ≡ closed → b.consecutive_failures < b.failure_threshold
  pub below_successes : b.consecutive_successes < b.success_threshold

pub new-IsValid :
    (c : CircuitBreakerConfig) (now : ℕ)
    → 0 < c.failure_threshold
    → 0 < c.success_threshold
    → c.failure_threshold < u32_mod
    → c.success_threshold < u32_mod
    → IsValid (new c now)
unfolding new get_state
new-IsValid c now hf hs wf ws = ground arith

allow_request-IsValid : (now : ℕ) (b : CircuitBreaker) → IsValid b → IsValid (allow_request now b).0
unfolding allow_request get_state
allow_request-IsValid now b v = ground arith

record_success-IsValid : (now : ℕ) (b : CircuitBreaker) → IsValid b → IsValid (record_success now b)
unfolding record_success get_state
record_success-IsValid now b v = ground arith

record_failure-IsValid :
    (health : Option HealthStatus) (now : ℕ) (b : CircuitBreaker)
    → IsValid b
    → IsValid (record_failure health now b)
unfolding record_failure get_state
record_failure-IsValid health now b v = ground arith

report_health-IsValid :
    (up : Bool) (now : ℕ) (b : CircuitBreaker) → IsValid b → IsValid (report_health up now b)
unfolding report_health get_state
report_health-IsValid up now b v = ground arith

pub step-IsValid : (b : CircuitBreaker) (c : ℕ × Call) → IsValid b → IsValid (step b c)
unfolding step
step-IsValid b (now, allow) v = allow_request-IsValid now b v
step-IsValid b (now, success) v = record_success-IsValid now b v
step-IsValid b (now, failure health) v = record_failure-IsValid health now b v
step-IsValid b (now, health_report up) v = report_health-IsValid up now b v

-- Whatever calls come, and whatever the clock reads: a valid breaker stays valid. Its state byte is a state, the
-- failures that are counted stay below the threshold while it is closed, and the successes below theirs.
pub run-IsValid : (b : CircuitBreaker) (cs : List (ℕ × Call)) → IsValid b → IsValid (run b cs)
unfolding run
run-IsValid b [] v = v
run-IsValid b (c ∷ cs) v = run-IsValid (step b c) cs (step-IsValid b c v)
