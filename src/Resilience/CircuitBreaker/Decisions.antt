-- ===== src/Resilience/CircuitBreaker/Decisions.antt =====
-- What one call of scry-proxy/src/resilience/circuit_breaker.rs decides, on every branch.
use scry_proxy.Base.{
  ℕ, ◌+◌, ◌≤◌, ◌<◌, ◌≡◌, refl, Bool, true, false, arith, u64_mod, sub64, inc64, leb, if◌then◌else◌,
}
use scry_proxy.Resilience.CircuitBreaker.{
  allow_request_at, CircuitState, closed, open_circuit, half_open, CircuitBreaker, get_state,
  allow_request, report_health,
}

-- What the documented state diagram says of a request, given whether the open timeout is over.
abbrev pub probe_allowed : CircuitState → Bool → Bool
probe_allowed closed over = true
probe_allowed open_circuit over = over
probe_allowed half_open over = true

-- What it says of the state after a request, given whether the request was admitted and whether enough successes
-- were counted.
abbrev pub state_after : Bool → Bool → CircuitState → CircuitState
state_after false enough s = open_circuit
state_after true enough closed = closed
state_after true enough open_circuit = half_open
state_after true true half_open = closed
state_after true false half_open = half_open

-- What it says of an active healthcheck's report.
abbrev pub gated : Bool → CircuitState → CircuitState
gated false s = open_circuit
gated true closed = closed
gated true open_circuit = half_open
gated true half_open = half_open

state_after-at :
    (st : CircuitState) (now : ℕ) (b : CircuitBreaker)
    → get_state b ≡ st
    → get_state (allow_request_at st now b).0
      ≡ state_after
          (allow_request_at st now b).1
          (leb b.success_threshold b.consecutive_successes)
          st
unfolding get_state allow_request_at
state_after-at closed now b e = ground arith
state_after-at open_circuit now b e = ground arith
state_after-at half_open now b e = ground arith

-- A request of an enabled breaker is admitted in the states `Closed` and `HalfOpen` always, and in
-- `Open` exactly if the time since the opening, as a wrapping `u64` difference, has reached the
-- timeout. A rejected request leaves the breaker open, a probe that is admitted in `Open` leaves it half open,
-- and in `HalfOpen` the breaker closes if enough successes have been counted. Exactly one of the two request counters is raised.
pub allow_request_decides :
    (now : ℕ) (b : CircuitBreaker)
    → b.enabled ≡ true
    → let (q, ok) = allow_request now b in
      (ok ≡ probe_allowed (get_state b) (leb b.open_timeout_secs (sub64 now b.open_timestamp)))
      × (q.requests_allowed ≡ (if ok then inc64 b.requests_allowed else b.requests_allowed))
      × (q.requests_rejected ≡ (if ok then b.requests_rejected else inc64 b.requests_rejected))
      × (get_state q
          ≡ state_after ok (leb b.success_threshold b.consecutive_successes) (get_state b))
unfolding allow_request get_state
allow_request_decides now b en = ground (arith, state_after-at (get_state b) now b refl)

-- The clock may step back. If an enabled breaker is open and the clock reads a time before the
-- opening, by less than 2 ^ 64 minus the timeout, the difference wraps: the request is admitted
-- and the breaker is half open although no time has passed.
pub clock_step_back_half_opens :
    (now : ℕ) (b : CircuitBreaker)
    → b.enabled ≡ true
    → get_state b ≡ open_circuit
    → now < b.open_timestamp
    → b.open_timestamp < u64_mod
    → b.open_timestamp + b.open_timeout_secs ≤ now + u64_mod
    → ((allow_request now b).1 ≡ true) × (get_state (allow_request now b).0 ≡ half_open)
unfolding allow_request get_state
clock_step_back_half_opens now b en st back w room = ground arith

-- An unhealthy probe leaves every breaker open, and a healthy one takes an open breaker to half open
-- and leaves any other as it is, also where the breaker is not enabled.
pub report_health_gates :
    (up : Bool) (now : ℕ) (b : CircuitBreaker)
    → get_state (report_health up now b) ≡ gated up (get_state b)
unfolding report_health get_state
report_health_gates up now b = ground arith
