-- ===== src/Resilience/CircuitBreaker/Exchanges.antt =====
-- A request and the record of its failure, as the pool of scry-proxy/src/proxy/tcp_pool.rs makes these two calls.
use scry_proxy.Base.{
  ℕ, suc, ◌+◌, ◌≤◌, ◌<◌, ◌≡◌, true, false, Option, arith, u64_mod, sub64-eq_sub, ltb, if◌then◌else◌,
}
use scry_proxy.Resilience.CircuitBreaker.{
  CircuitBreaker, closed, open_circuit, HealthStatus, allow, failure, get_state, allow_request,
  record_failure, step,
}
use scry_proxy.Resilience.CircuitBreaker.Invariant.{IsValid, step-IsValid}

abbrev pub failed_exchange : ℕ → ℕ → Option HealthStatus → CircuitBreaker → CircuitBreaker
failed_exchange asked_at recorded_at health b =
    record_failure health recorded_at (allow_request asked_at b).0

pub failed_exchange-IsValid :
    (asked_at recorded_at : ℕ) (health : Option HealthStatus) (b : CircuitBreaker)
    → IsValid b
    → IsValid (failed_exchange asked_at recorded_at health b)
unfolding step
failed_exchange-IsValid asked_at recorded_at health b v =
    step-IsValid (step b (asked_at, allow)) (recorded_at, failure health)
      (step-IsValid b (asked_at, allow) v)

pub failed_exchange_closed :
    (asked_at recorded_at : ℕ) (health : Option HealthStatus) (b : CircuitBreaker)
    → IsValid b
    → b.enabled ≡ true
    → b.use_health_monitor ≡ false
    → get_state b ≡ closed
    → let q = failed_exchange asked_at recorded_at health b in
      ((allow_request asked_at b).1 ≡ true)
      × (get_state q
          ≡ (if ltb (suc b.consecutive_failures) b.failure_threshold then closed else open_circuit))
      × (q.consecutive_failures ≡ suc b.consecutive_failures)
      × (q.config ≡ b.config)
unfolding allow_request record_failure get_state
failed_exchange_closed asked_at recorded_at health b v en mon st = ground arith

pub failed_exchange_open :
    (asked_at recorded_at : ℕ) (health : Option HealthStatus) (b : CircuitBreaker)
    → b.enabled ≡ true
    → get_state b ≡ open_circuit
    → ((allow_request asked_at b).1 ≡ true
        → get_state (failed_exchange asked_at recorded_at health b) ≡ open_circuit)
      × ((allow_request asked_at b).1 ≡ false
          → get_state (allow_request asked_at b).0 ≡ open_circuit)
      × ((allow_request asked_at b).0.config ≡ b.config)
      × ((failed_exchange asked_at recorded_at health b).config ≡ b.config)
unfolding allow_request record_failure get_state
failed_exchange_open asked_at recorded_at health b en st = ground arith

pub allow_request_refuses :
    (now : ℕ) (b : CircuitBreaker)
    → b.enabled ≡ true
    → get_state b ≡ open_circuit
    → b.open_timestamp ≤ now
    → now < b.open_timestamp + b.open_timeout_secs
    → now < u64_mod
    → (allow_request now b).1 ≡ false
unfolding allow_request get_state
allow_request_refuses now b en st after before w = ground (arith, sub64-eq_sub now b.open_timestamp)
