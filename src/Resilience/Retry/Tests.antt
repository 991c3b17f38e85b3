-- ===== src/Resilience/Retry/Tests.antt =====
-- An operation that fails twice: runs, and an instance of each result.
use scry_proxy.Base.{ℕ, suc, ◌+◌, ◌*◌, ◌≡◌, refl, true, Result, ok, err, ltb, if◌then◌else◌}
use scry_proxy.Resilience.Retry.{
  ConnectionRetryConfig, Effects, finished, calculate_jitter, execute, execute_with_classifier,
}
use scry_proxy.Resilience.Retry.Bounds.{Counts, Stops, execute_with_classifier-Stops}

abbrev settings : ConnectionRetryConfig
settings = record {
  enabled = true;
  max_attempts = 4;
  initial_backoff_ms = 100;
  max_backoff_ms = 300;
  backoff_multiplier = λ n. 2 * n;
  jitter_factor = λ n. 0;
}

-- The attempts made and the time slept.
abbrev flaky_operation : ℕ × ℕ → (ℕ × ℕ) × Result ℕ ℕ
flaky_operation (made, slept) = ((suc made, slept), if ltb made 2 then err made else ok made)

abbrev flaky : Effects (ℕ × ℕ) ℕ ℕ
flaky = record {
  operation = flaky_operation;
  sleep = λ (ms : ℕ) (s : ℕ × ℕ). (s.0, s.1 + ms);
  gen_range = λ (range : ℕ) (s : ℕ × ℕ). (s, range);
  is_retryable = λ (e : ℕ). true;
}

abbrev made : ℕ × ℕ → ℕ
made s = s.0

flaky-Counts : Counts flaky made
flaky-Counts = record {
  by_operation = λ s. refl;
  by_sleep = λ ms s. refl;
  by_gen_range = λ range s. refl;
}

-- The third attempt succeeds, after sleeps of 100 and 200.
execute_run : execute settings flaky (0, 0) ≡ ((3, 300), finished (ok 2))
unfolding execute
execute_run = refl

jitter_run : (calculate_jitter settings flaky 100 (0, 0)).1 ≡ 0
unfolding calculate_jitter
jitter_run = refl

execute_with_classifier-Stops_example :
    Stops settings flaky made 0 (0, 0) (execute_with_classifier settings flaky (0, 0))
execute_with_classifier-Stops_example =
    execute_with_classifier-Stops settings flaky made (0, 0) flaky-Counts refl
