-- ===== src/Proxy/TcpPool/Tests.antt =====
-- A pool with a dead backend: runs, and an instance of the result.
use scry_proxy.Base.{ℕ, suc, ◌≡◌, refl, true, false, none, some, [], ◌∷◌, ok, err, arith}
use scry_proxy.Resilience.CircuitBreaker.{
  CircuitBreakerConfig, CircuitBreaker, allow_request, record_failure, get_state,
}
use scry_proxy.Resilience.CircuitBreaker.Invariant.{IsValid}
use scry_proxy.Resilience.Retry.{Effects}
use scry_proxy.Proxy.TcpPool.{
  PoolError, backend, circuit_open, pool_failed, Readings, checkout, get, get_without_breaker,
  failed_health_check, reset_not_supported, recycle,
}
use scry_proxy.Proxy.TcpPool.Shedding.{get_times, get_times_sheds}

abbrev settings : CircuitBreakerConfig
settings = record {
  enabled = true;
  failure_threshold = 2;
  success_threshold = 1;
  window_secs = 60;
  open_timeout_secs = 30;
  use_health_monitor = false;
}

abbrev breaker : CircuitBreaker
breaker = record {
  config = settings;
  state = 0;
  consecutive_failures = 0;
  consecutive_successes = 0;
  failure_count_in_window = 0;
  requests_allowed = 0;
  requests_rejected = 0;
  window_start = 100;
  open_timestamp = 0;
  last_state_change = 100;
}

breaker-IsValid : IsValid breaker
breaker-IsValid = record {
  state_code = omega arith;
  thresholds = (omega arith, omega arith);
  words = (omega arith, omega arith);
  below_failures = λ e. omega arith;
  below_successes = omega arith;
}

-- The world counts the checkouts that reach the backend.
abbrev dead : Effects ℕ ℕ (PoolError ℕ)
dead = record {
  operation = λ (s : ℕ). (suc s, err (backend 111));
  sleep = λ (ms : ℕ) (s : ℕ). s;
  gen_range = λ (range : ℕ) (s : ℕ). (s, 0);
  is_retryable = λ (e : PoolError ℕ). true;
}

abbrev at : ℕ → Readings
at now = record { asked_at = now; recorded_at = now; health = none }

get_times_sheds_example :
    let (b', s') = get_times none dead (at 101 ∷ at 102 ∷ []) breaker 0 in
    ((get (at 110) none dead b' s').1 ≡ s')
    × ((get (at 110) none dead b' s').2 ≡ some (err circuit_open))
unfolding get_times get get_state allow_request record_failure
get_times_sheds_example =
    get_times_sheds none dead (at 101 ∷ at 102 ∷ []) (at 110) breaker 0 (λ s. (backend 111, refl))
      breaker-IsValid refl refl refl (omega arith) (omega arith) (omega arith) (omega arith)

get_without_breaker_run :
    get_without_breaker none dead 3 ≡ (4, some (err (pool_failed (backend 111))))
unfolding get_without_breaker checkout
get_without_breaker_run = refl

-- A protocol that cannot reset has its connections thrown away.
recycle_run :
    (recycle {E = ℕ} (λ (s : ℕ). (s, ok true)) (λ (s : ℕ). (s, ok false)) 0
      ≡ (0, err reset_not_supported))
    × (recycle {E = ℕ} (λ (s : ℕ). (s, ok false)) (λ (s : ℕ). (s, ok true)) 0
        ≡ (0, err failed_health_check))
unfolding recycle
recycle_run = (refl, refl)
