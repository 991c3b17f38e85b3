-- ===== src/Resilience/Retry.antt =====
-- scry-proxy/src/resilience/retry.rs. The operation, the sleep and the random draw act on a world `S`, which the
-- caller gives; the two products of floating-point numbers, `(b as f64 * factor) as u64`, are functions that it gives.
pub mod Bounds
mod Tests
use scry_proxy.Base.{
  ℕ, zero, suc, ◌+◌, ◌%◌, min, Bool, true, false, not, if◌then◌else◌, leb, ltb, Result, ok, err,
  u64_mod,
}

pub record ConnectionRetryConfig : Type 0 where
  pub enabled : Bool
  pub max_attempts : ℕ
  pub initial_backoff_ms : ℕ
  pub max_backoff_ms : ℕ
  pub backoff_multiplier : ℕ → ℕ
  pub jitter_factor : ℕ → ℕ

abbrev pub next_backoff : ConnectionRetryConfig → ℕ → ℕ
next_backoff config backoff_ms = min (config.backoff_multiplier backoff_ms) config.max_backoff_ms

-- What the loop ends with; `unfinished` is a loop that has used up its fuel.
pub data Retried (T E : Type 0) : Type 0 where
  finished : Result T E → Retried T E
  unfinished : Retried T E

-- What the strategy calls: the operation, the sleep and the draw from `0..=range`.
pub record Effects (S T E : Type 0) : Type 0 where
  pub operation : S → S × Result T E
  pub sleep : ℕ → S → S
  pub gen_range : ℕ → S → S × ℕ
  pub is_retryable : E → Bool

module _ {S T E : Type 0} where
  pub calculate_jitter : ConnectionRetryConfig → Effects S T E → ℕ → S → S × ℕ
  calculate_jitter config fx base_ms s =
      let jitter_range = config.jitter_factor base_ms in
      if ltb 0 jitter_range then fx.gen_range jitter_range s else (s, 0)

  -- The wait between two attempts, with its jitter.
  pub back_off : ConnectionRetryConfig → Effects S T E → ℕ → S → S
  unfolding calculate_jitter
  back_off config fx backoff_ms s =
      let (s', jitter) = calculate_jitter config fx backoff_ms s in
      fx.sleep ((backoff_ms + jitter) % u64_mod) s'

  -- What the loop does with the answer of an attempt: `again` is the rest of the loop.
  abbrev pub after_attempt :
      ConnectionRetryConfig → Effects S T E → ℕ → S × Retried T E → S × Result T E → S × Retried T E
  after_attempt config fx attempt again (s, ok result) = (s, finished (ok result))
  after_attempt config fx attempt again (s, err e) =
      if not (fx.is_retryable e)
      then (s, finished (err e))
      else if leb config.max_attempts attempt
      then (s, finished (err e))
      else again

  -- The loop; `attempt` attempts have been made.
  pub attempts : ConnectionRetryConfig → Effects S T E → ℕ → ℕ → ℕ → S → S × Retried T E
  unfolding back_off
  attempts config fx zero attempt backoff_ms s = (s, unfinished)
  attempts config fx (suc fuel) attempt backoff_ms s =
      let tried = fx.operation s in
      let again =
        attempts config fx fuel (suc attempt) (next_backoff config backoff_ms)
          (back_off config fx backoff_ms tried.0) in
      after_attempt config fx (suc attempt) again tried

  -- Each round is an attempt, so their greatest number and one more bounds the rounds.
  pub execute_with_classifier : ConnectionRetryConfig → Effects S T E → S → S × Retried T E
  unfolding attempts
  execute_with_classifier config fx s =
      if not config.enabled
      then (let (s', r) = fx.operation s in (s', finished r))
      else attempts config fx (suc config.max_attempts) 0 config.initial_backoff_ms s

  abbrev pub retry_all : Effects S T E → Effects S T E
  retry_all fx = record fx { is_retryable = λ e. true }

  -- `execute`: every error is worth another attempt.
  pub execute : ConnectionRetryConfig → Effects S T E → S → S × Retried T E
  unfolding execute_with_classifier
  execute config fx s = execute_with_classifier config (retry_all fx) s
