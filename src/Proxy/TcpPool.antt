-- ===== src/Proxy/TcpPool.antt =====
-- scry-proxy/src/proxy/tcp_pool.rs: checkout through the circuit breaker and the retry strategy, and
-- recycling. The deadpool pool is a parameter: `pool_get` is its `get`, on a world `S`.
pub mod Shedding
mod Tests
use scry_proxy.Base.{
  ℕ, zero, suc, Bool, true, false, Option, none, some, List, [], ◌∷◌, if◌then◌else◌, Result, ok,
  err,
}
use scry_proxy.Resilience.CircuitBreaker.{
  CircuitBreaker, HealthStatus, allow_request, record_success, record_failure,
}
use scry_proxy.Resilience.Retry.{
  ConnectionRetryConfig, Effects, Retried, finished, unfinished, execute_with_classifier,
}

-- deadpool's `PoolError`: what a checkout fails with.
pub data PoolError (E : Type 0) : Type 0 where
  timeout : PoolError E
  backend : E → PoolError E
  closed_pool : PoolError E
  no_runtime : PoolError E
  post_create_hook : E → PoolError E

-- `matches!(err, PoolError::Backend(_) | PoolError::Timeout(_))`
abbrev pub pool_error_is_retryable : {E : Type 0} → PoolError E → Bool
pool_error_is_retryable timeout = true
pool_error_is_retryable (backend e) = true
pool_error_is_retryable _ = false

-- The errors of `get`.
pub data GetError (E : Type 0) : Type 0 where
  circuit_open : GetError E
  pool_failed : PoolError E → GetError E

-- The readings of the clock at the breaker's two calls, and what the health monitor says.
pub record Readings : Type 0 where
  pub asked_at : ℕ
  pub recorded_at : ℕ
  pub health : Option HealthStatus

abbrev pub as_get_result : {C E : Type 0} → Result C (PoolError E) → Result C (GetError E)
as_get_result (ok c) = ok c
as_get_result (err e) = err (pool_failed e)

-- A retry loop that used up its fuel has no result.
abbrev pub as_option : {C E : Type 0} → Retried C (PoolError E) → Option (Result C (GetError E))
as_option (finished r) = some (as_get_result r)
as_option unfinished = none

-- Step 3 of `get`.
abbrev pub record_result :
    {C E : Type 0} → Readings → CircuitBreaker → Option (Result C (GetError E)) → CircuitBreaker
record_result now b (some (ok c)) = record_success now.recorded_at b
record_result now b (some (err e)) = record_failure now.health now.recorded_at b
record_result now b none = b

module _ {S C E : Type 0} where
  -- The pool with the strategy's sleep and its draw.
  pub get_with_retry :
      ConnectionRetryConfig → Effects S C (PoolError E) → S → S × Option (Result C (GetError E))
  get_with_retry retry_config fx s =
      let (s', r) =
        execute_with_classifier retry_config (record fx { is_retryable = pool_error_is_retryable })
          s in
      (s', as_option r)

  abbrev pub pool_get : Effects S C (PoolError E) → S → S × Option (Result C (GetError E))
  pool_get fx s = let (s', r) = fx.operation s in (s', some (as_get_result r))

  -- Step 2 of `get`.
  pub checkout :
      Option ConnectionRetryConfig
      → Effects S C (PoolError E)
      → S
      → S × Option (Result C (GetError E))
  unfolding get_with_retry
  checkout (some retry_config) fx s =
      if retry_config.enabled then get_with_retry retry_config fx s else pool_get fx s
  checkout none fx s = pool_get fx s

  abbrev pub get_admitted :
      Readings
      → Option ConnectionRetryConfig
      → Effects S C (PoolError E)
      → S
      → CircuitBreaker × Bool
      → CircuitBreaker × S × Option (Result C (GetError E))
  get_admitted now retry fx s (b, true) =
      let (s', r) = checkout retry fx s in (record_result now b r, s', r)
  get_admitted now retry fx s (b, false) = (b, s, some (err circuit_open))

  -- `get` of a pool with a breaker, and of one without.
  pub get :
      Readings
      → Option ConnectionRetryConfig
      → Effects S C (PoolError E)
      → CircuitBreaker
      → S
      → CircuitBreaker × S × Option (Result C (GetError E))
  unfolding checkout
  get now retry fx b s = get_admitted now retry fx s (allow_request now.asked_at b)

  pub get_without_breaker :
      Option ConnectionRetryConfig
      → Effects S C (PoolError E)
      → S
      → S × Option (Result C (GetError E))
  get_without_breaker retry fx s = checkout retry fx s

-- The answers of the protocol's `health_check` and `reset_connection`; recycling is the same for both transports.
pub data RecycleError (E : Type 0) : Type 0 where
  failed_health_check : RecycleError E
  reset_not_supported : RecycleError E
  protocol_error : E → RecycleError E

module _ {S E : Type 0} where
  abbrev pub after_reset : S × Result Bool E → S × Result (Unit {0}) (RecycleError E)
  after_reset (s, ok true) = (s, ok tt)
  after_reset (s, ok false) = (s, err reset_not_supported)
  after_reset (s, err e) = (s, err (protocol_error e))

  abbrev pub after_health_check :
      (S → S × Result Bool E) → S × Result Bool E → S × Result (Unit {0}) (RecycleError E)
  after_health_check reset_connection (s, ok true) = after_reset (reset_connection s)
  after_health_check reset_connection (s, ok false) = (s, err failed_health_check)
  after_health_check reset_connection (s, err e) = (s, err (protocol_error e))

  unfoldable pub recycle :
      (S → S × Result Bool E) → (S → S × Result Bool E) → S → S × Result (Unit {0}) (RecycleError E)
  recycle health_check reset_connection s = after_health_check reset_connection (health_check s)
