-- ===== src/Resilience/CircuitBreaker.antt =====
-- scry-proxy/src/resilience/circuit_breaker.rs. Each atomic is a field that holds its machine
-- integer; a method returns the new breaker. The wall clock, in seconds, is the argument `now`,
-- and what the health monitor answers is an argument of `record_failure`.
-- `allow_request_at` takes the state that the thread has loaded, which another thread may have
-- changed since.
pub mod Invariant
pub mod Traces
pub mod Decisions
pub mod Race
pub mod Exchanges
mod Tests
use scry_proxy.Base.{
  ℕ, suc, ◌+◌, ◌≡◌, Bool, true, false, not, ◌&&◌, Option, none, some, List, [], ◌∷◌, leb, ltb, ◌==◌,
  if◌then◌else◌, inc32, inc64, sub64,
}

pub data CircuitState : Type 0 where
  closed open_circuit half_open : CircuitState

-- `CircuitState as u8`
pub to_u8 : CircuitState → ℕ
to_u8 closed = 0
to_u8 open_circuit = 1
to_u8 half_open = 2

-- `From<u8>`: an invalid value counts as closed.
pub from_u8 : ℕ → CircuitState
from_u8 value = if value == 1 then open_circuit else if value == 2 then half_open else closed

pub data HealthStatus : Type 0 where
  healthy degraded unhealthy : HealthStatus

pub record CircuitBreakerConfig : Type 0 where
  pub enabled : Bool
  pub failure_threshold : ℕ
  pub success_threshold : ℕ
  pub window_secs : ℕ
  pub open_timeout_secs : ℕ
  pub use_health_monitor : Bool

pub record CircuitBreaker : Type 0 where
  pub config : CircuitBreakerConfig
  pub open config use *
  pub state : ℕ
  pub consecutive_failures : ℕ
  pub consecutive_successes : ℕ
  pub failure_count_in_window : ℕ
  pub requests_allowed : ℕ
  pub requests_rejected : ℕ
  pub window_start : ℕ
  pub open_timestamp : ℕ
  pub last_state_change : ℕ

pub new : CircuitBreakerConfig → ℕ → CircuitBreaker
unfolding to_u8
new config now = record {
  config = config;
  state = to_u8 closed;
  consecutive_failures = 0;
  consecutive_successes = 0;
  failure_count_in_window = 0;
  requests_allowed = 0;
  requests_rejected = 0;
  window_start = now;
  open_timestamp = 0;
  last_state_change = now;
}

unfoldable pub get_state : CircuitBreaker → CircuitState
unfolding from_u8
get_state b = from_u8 b.state

pub transition_to_open : ℕ → CircuitBreaker → CircuitBreaker
unfolding to_u8
transition_to_open now b = record b {
  state = to_u8 open_circuit;
  open_timestamp = now;
  last_state_change = now;
  consecutive_successes = 0;
}

pub transition_to_closed : ℕ → CircuitBreaker → CircuitBreaker
unfolding to_u8
transition_to_closed now b = record b {
  state = to_u8 closed;
  last_state_change = now;
  consecutive_failures = 0;
  consecutive_successes = 0;
}

-- The compare-and-exchange from open to half-open, and whether it took place.
pub try_transition_to_half_open : ℕ → CircuitBreaker → CircuitBreaker × Bool
unfolding to_u8
try_transition_to_half_open now b =
    if b.state == to_u8 open_circuit
    then (
      record b { state = to_u8 half_open; last_state_change = now; consecutive_successes = 0 },
      true,
    )
    else (b, false)

pub reset_window_if_needed : ℕ → CircuitBreaker → CircuitBreaker
reset_window_if_needed now b =
    if leb b.window_secs (sub64 now b.window_start)
    then record b { window_start = now; failure_count_in_window = 0 }
    else b

abbrev pub count_allowed : CircuitBreaker → CircuitBreaker
count_allowed b = record b { requests_allowed = inc64 b.requests_allowed }

abbrev pub count_rejected : CircuitBreaker → CircuitBreaker
count_rejected b = record b { requests_rejected = inc64 b.requests_rejected }

-- Behind the compare-and-exchange of `allow_request`: the loser of a race is rejected.
abbrev pub after_exchange : CircuitBreaker × Bool → CircuitBreaker × Bool
after_exchange (b, true) = (count_allowed b, true)
after_exchange (b, false) = (count_rejected b, false)

-- `allow_request` from the `match` on, at the state that was loaded. `true` is `Ok(())`, `false` is
-- `Err(CircuitOpen)`.
pub allow_request_at : CircuitState → ℕ → CircuitBreaker → CircuitBreaker × Bool
unfolding try_transition_to_half_open transition_to_closed
allow_request_at closed now b = (count_allowed b, true)
allow_request_at open_circuit now b =
    if leb b.open_timeout_secs (sub64 now b.open_timestamp)
    then after_exchange (try_transition_to_half_open now b)
    else (count_rejected b, false)
allow_request_at half_open now b =
    if ltb b.consecutive_successes b.success_threshold
    then (count_allowed b, true)
    else (count_allowed (transition_to_closed now b), true)

unfoldable pub allow_request : ℕ → CircuitBreaker → CircuitBreaker × Bool
unfolding allow_request_at get_state
allow_request now b = if not b.enabled then (b, true) else allow_request_at (get_state b) now b

-- `record_success` from the `match` on.
pub record_success_at : CircuitState → ℕ → CircuitBreaker → CircuitBreaker
unfolding transition_to_closed
record_success_at closed now b = record b { consecutive_failures = 0 }
record_success_at half_open now b =
    let successes = inc32 b.consecutive_successes in
    let counted = record b { consecutive_successes = successes } in
    if leb b.success_threshold successes then transition_to_closed now counted else counted
record_success_at open_circuit now b = transition_to_closed now b

pub record_success : ℕ → CircuitBreaker → CircuitBreaker
unfolding record_success_at get_state
record_success now b = if not b.enabled then b else record_success_at (get_state b) now b

abbrev pub is_unhealthy : Option HealthStatus → Bool
is_unhealthy (some unhealthy) = true
is_unhealthy _ = false

-- `record_failure` from the `match` on. `health` is `none` where the breaker has no monitor.
pub record_failure_at : CircuitState → Option HealthStatus → ℕ → CircuitBreaker → CircuitBreaker
unfolding transition_to_open
record_failure_at closed health now b =
    let failures = inc32 b.consecutive_failures in
    let counted = record b {
      consecutive_failures = failures;
      failure_count_in_window = inc32 b.failure_count_in_window;
    } in
    if leb b.failure_threshold failures
    then transition_to_open now counted
    else if b.use_health_monitor && is_unhealthy health
    then transition_to_open now counted
    else counted
record_failure_at half_open health now b = transition_to_open now b
record_failure_at open_circuit health now b = record b {
  failure_count_in_window = inc32 b.failure_count_in_window;
}

unfoldable pub record_failure : Option HealthStatus → ℕ → CircuitBreaker → CircuitBreaker
unfolding record_failure_at get_state reset_window_if_needed
record_failure health now b =
    if not b.enabled
    then b
    else record_failure_at (get_state b) health now (reset_window_if_needed now b)

-- The active healthcheck's report. It does not ask whether the breaker is enabled.
report_health_at : Bool → CircuitState → ℕ → CircuitBreaker → CircuitBreaker
unfolding transition_to_open try_transition_to_half_open
report_health_at false open_circuit now b = b
report_health_at false _ now b = transition_to_open now b
report_health_at true open_circuit now b = (try_transition_to_half_open now b).0
report_health_at true _ now b = b

pub report_health : Bool → ℕ → CircuitBreaker → CircuitBreaker
unfolding report_health_at get_state
report_health up now b = report_health_at up (get_state b) now b

-- One call on the breaker.
pub data Call : Type 0 where
  allow : Call
  success : Call
  failure : Option HealthStatus → Call
  health_report : Bool → Call

pub step : CircuitBreaker → ℕ × Call → CircuitBreaker
step b (now, allow) = (allow_request now b).0
step b (now, success) = record_success now b
step b (now, failure health) = record_failure health now b
step b (now, health_report up) = report_health up now b

pub run : CircuitBreaker → List (ℕ × Call) → CircuitBreaker
run b [] = b
run b (c ∷ cs) = run (step b c) cs
