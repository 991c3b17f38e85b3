-- ===== src/Resilience/CircuitBreaker/Tests.antt =====
-- The breaker at concrete settings: runs, and an instance of each result.
use scry_proxy.Base.{ℕ, ◌≡◌, refl, true, false, none, [], ◌∷◌}
use scry_proxy.Resilience.CircuitBreaker.{
  closed, CircuitBreakerConfig, CircuitBreaker, allow, success, failure, step, record_success,
  record_failure, new, get_state, allow_request, run,
}
use scry_proxy.Resilience.CircuitBreaker.Race.{race, race_admits_one, admitted}

abbrev settings : CircuitBreakerConfig
settings = record {
  enabled = true;
  failure_threshold = 2;
  success_threshold = 1;
  window_secs = 60;
  open_timeout_secs = 30;
  use_health_monitor = false;
}

abbrev breaker_in : ℕ → CircuitBreaker
breaker_in state = record {
  config = settings;
  state = state;
  consecutive_failures = 0;
  consecutive_successes = 0;
  failure_count_in_window = 0;
  requests_allowed = 3;
  requests_rejected = 1;
  window_start = 100;
  open_timestamp = 100;
  last_state_change = 100;
}

-- Two failures open the breaker, a request within the timeout is refused, one after it is a probe, and its
-- success closes the breaker.
life_cycle :
    get_state (
      run (new settings 100) (
        (101, failure none)
        ∷ (102, failure none)
        ∷ (110, allow)
        ∷ (140, allow)
        ∷ (141, success)
        ∷ []))
    ≡ closed
unfolding run new get_state step record_success allow_request record_failure
life_cycle = refl

refused_in_timeout :
    (allow_request 110 (run (new settings 100) ((101, failure none) ∷ (102, failure none) ∷ []))).1
    ≡ false
unfolding run new allow_request step record_failure
refused_in_timeout = refl

race_admits_one_example : admitted (race (120 ∷ 131 ∷ 132 ∷ []) (breaker_in 1)).1 ≡ 1
unfolding get_state
race_admits_one_example = race_admits_one (120 ∷ 131 ∷ 132 ∷ []) (breaker_in 1) refl
