-- ===== src/Proxy/TcpPool/Shedding.antt =====
-- The checkout of scry-proxy/src/proxy/tcp_pool.rs with a failing backend: the circuit breaker opens, and then the
-- pool is left alone.
use scry_proxy.Base.{
  suc, ◌+◌, ◌≤◌, ◌<◌, ◌≡◌, refl, ap, sym, subst, ◌∙◌, true, false, Option, none, some, List, [],
  ◌∷◌, ltb, arith, if◌then◌else◌, Result, err, length, u64_mod, Bool-cases, inl, inr,
}
use scry_proxy.Resilience.CircuitBreaker.{
  CircuitBreaker, closed, open_circuit, get_state, allow_request,
}
use scry_proxy.Resilience.CircuitBreaker.Invariant.{IsValid}
use scry_proxy.Resilience.Retry.{ConnectionRetryConfig, Effects}
use scry_proxy.Resilience.Retry.Bounds.{IsDown, execute_with_classifier-Fails}
use scry_proxy.Resilience.CircuitBreaker.Exchanges.{
  failed_exchange, failed_exchange-IsValid, failed_exchange_closed, failed_exchange_open,
  allow_request_refuses,
}
use scry_proxy.Proxy.TcpPool.{
  PoolError, pool_get, get_with_retry, as_option, as_get_result, pool_error_is_retryable, GetError,
  circuit_open, pool_failed, Readings, checkout, record_result, get, get_admitted,
}

module _ {S C E : Type 0} where
  -- A checkout through the breaker, again and again.
  unfoldable pub get_times :
      Option ConnectionRetryConfig
      → Effects S C (PoolError E)
      → List Readings
      → CircuitBreaker
      → S
      → CircuitBreaker × S
  get_times retry fx [] b s = (b, s)
  get_times retry fx (now ∷ later) b s =
      let (b', s', r) = get now retry fx b s in get_times retry fx later b' s'

  abbrev GivesError : S × Option (Result C (GetError E)) → Type 0
  GivesError end = (e : GetError E) × (end.1 ≡ some (err e))

  pool_get_fails : (fx : Effects S C (PoolError E)) (s : S) → IsDown fx → GivesError (pool_get fx s)
  pool_get_fails fx s down =
      let (e, failed) = down s in (pool_failed e, ap (λ r. some (as_get_result r)) failed)

  checkout_fails :
      (retry : Option ConnectionRetryConfig) (fx : Effects S C (PoolError E)) (s : S)
      → IsDown fx
      → GivesError (checkout retry fx s)
  unfolding checkout get_with_retry
  checkout_fails none fx s down = pool_get_fails fx s down
  checkout_fails (some retry_config) fx s down = elim (Bool-cases retry_config.enabled) [
    | inr off ↦
        let (e, failed) = pool_get_fails fx s down in
        let plain : checkout (some retry_config) fx s ≡ pool_get fx s =
          ap (λ b. if b then get_with_retry retry_config fx s else pool_get fx s) off in
        (e, ap (λ r. r.1) plain ∙ failed)
    | inl on ↦
        let fx' = record fx { is_retryable = pool_error_is_retryable } in
        let (e, failed) = execute_with_classifier-Fails retry_config fx' s down on in
        let retried : checkout (some retry_config) fx s ≡ get_with_retry retry_config fx s =
          ap (λ b. if b then get_with_retry retry_config fx s else pool_get fx s) on in
        (pool_failed e, ap (λ r. r.1) retried ∙ ap as_option failed)
  ]

  -- A checkout of a failing pool that the breaker admits is an exchange that fails.
  get_admitted_fails :
      (retry : Option ConnectionRetryConfig) (fx : Effects S C (PoolError E)) (now : Readings)
      (b : CircuitBreaker) (s : S)
      → IsDown fx
      → (allow_request now.asked_at b).1 ≡ true
      → (get now retry fx b s).0 ≡ failed_exchange now.asked_at now.recorded_at now.health b
  unfolding get
  get_admitted_fails retry fx now b s down admitted =
      let asked = (allow_request now.asked_at b).0 in
      let (e, failed) = checkout_fails retry fx s down in
      ap (λ ok. (get_admitted now retry fx s (asked, ok)).0) admitted
      ∙ ap (record_result now asked) failed

  get_refused :
      (retry : Option ConnectionRetryConfig) (fx : Effects S C (PoolError E)) (now : Readings)
      (b : CircuitBreaker) (s : S)
      → (allow_request now.asked_at b).1 ≡ false
      → get now retry fx b s ≡ ((allow_request now.asked_at b).0, s, some (err circuit_open))
  unfolding get
  get_refused retry fx now b s refused =
      ap (λ ok. get_admitted now retry fx s ((allow_request now.asked_at b).0, ok)) refused

  get_closed :
      (retry : Option ConnectionRetryConfig) (fx : Effects S C (PoolError E)) (now : Readings)
      (b : CircuitBreaker) (s : S)
      → IsDown fx
      → IsValid b
      → b.enabled ≡ true
      → b.use_health_monitor ≡ false
      → get_state b ≡ closed
      → let b' = (get now retry fx b s).0 in
        (get_state b'
          ≡ (if ltb (suc b.consecutive_failures) b.failure_threshold then closed else open_circuit))
        × (b'.consecutive_failures ≡ suc b.consecutive_failures)
        × (b'.config ≡ b.config)
        × IsValid b'
  get_closed retry fx now b s down v en mon st =
      let (admitted, st', n, conf) =
        failed_exchange_closed now.asked_at now.recorded_at now.health b v en mon st in
      let e = get_admitted_fails retry fx now b s down admitted in
      (
        ap get_state e ∙ st',
        ap (λ (q : CircuitBreaker). q.consecutive_failures) e ∙ n,
        ap (λ (q : CircuitBreaker). q.config) e ∙ conf,
        subst IsValid (sym e) (failed_exchange-IsValid now.asked_at now.recorded_at now.health b v),
      )

  get_open :
      (retry : Option ConnectionRetryConfig) (fx : Effects S C (PoolError E)) (now : Readings)
      (b : CircuitBreaker) (s : S)
      → IsDown fx
      → b.enabled ≡ true
      → get_state b ≡ open_circuit
      → let b' = (get now retry fx b s).0 in (get_state b' ≡ open_circuit) × (b'.config ≡ b.config)
  get_open retry fx now b s down en st =
      let (probed, refused, conf, conf') =
        failed_exchange_open now.asked_at now.recorded_at now.health b en st in
      elim (Bool-cases (allow_request now.asked_at b).1) [
        | inl yes' ↦
            let e = get_admitted_fails retry fx now b s down yes' in
            (ap get_state e ∙ probed yes', ap (λ (q : CircuitBreaker). q.config) e ∙ conf')
        | inr no' ↦
            let e = ap (λ r. r.0) (get_refused retry fx now b s no') in
            (ap get_state e ∙ refused no', ap (λ (q : CircuitBreaker). q.config) e ∙ conf)
      ]

  get_times_open :
      (retry : Option ConnectionRetryConfig) (fx : Effects S C (PoolError E)) (nows : List Readings)
      (b : CircuitBreaker) (s : S)
      → IsDown fx
      → b.enabled ≡ true
      → get_state b ≡ open_circuit
      → let b' = (get_times retry fx nows b s).0 in
        (get_state b' ≡ open_circuit) × (b'.config ≡ b.config)
  unfolding get_times
  get_times_open retry fx [] b s down en st = (st, refl)
  get_times_open retry fx (now ∷ nows) b s down en st =
      let (st', conf) = get_open retry fx now b s down en st in
      let r = get now retry fx b s in
      let (st'', conf') =
        get_times_open retry fx nows r.0 r.1 down (ap (λ c. c.enabled) conf ∙ en) st' in
      (st'', conf' ∙ conf)

  -- With a failing backend, a closed breaker is open once as many checkouts as it takes have been made.
  get_times_opens :
      (retry : Option ConnectionRetryConfig) (fx : Effects S C (PoolError E)) (nows : List Readings)
      (b : CircuitBreaker) (s : S)
      → IsDown fx
      → IsValid b
      → b.enabled ≡ true
      → b.use_health_monitor ≡ false
      → get_state b ≡ closed
      → b.failure_threshold ≤ b.consecutive_failures + length nows
      → let b' = (get_times retry fx nows b s).0 in
        (get_state b' ≡ open_circuit) × (b'.config ≡ b.config)
  unfolding get_times
  get_times_opens retry fx [] b s down v en mon st many =
      absurd (omega (arith, v.below_failures st, many))
  get_times_opens retry fx (now ∷ nows) b s down v en mon st many =
      let (st', n, conf, v') = get_closed retry fx now b s down v en mon st in
      let r = get now retry fx b s in
      let en' = ap (λ c. c.enabled) conf ∙ en in
      elim (Bool-cases (ltb (suc b.consecutive_failures) b.failure_threshold)) [
        | inl below ↦
            let (st'', conf') =
              get_times_opens retry fx nows r.0 r.1 down v' en'
                (ap (λ c. c.use_health_monitor) conf ∙ mon)
                (st' ∙ ap (λ b. if b then closed else open_circuit) below)
                (omega (arith, n, ap (λ c. c.failure_threshold) conf, many)) in
            (st'', conf' ∙ conf)
        | inr over ↦
            let (st'', conf') =
              get_times_open retry fx nows r.0 r.1 down en'
                (st' ∙ ap (λ b. if b then closed else open_circuit) over) in
            (st'', conf' ∙ conf)
      ]

  -- The pool sheds load: with a backend that always fails, after as many checkouts as the breaker's threshold asks
  -- for, a checkout in the time-out of the open breaker fails with `circuit_open` and leaves the pool untouched.
  -- Conditions: the breaker is valid, enabled, closed and goes by failures alone; retries may be on or off, and the
  -- clock readings of the failing checkouts are arbitrary.
  pub get_times_sheds :
      (retry : Option ConnectionRetryConfig) (fx : Effects S C (PoolError E)) (nows : List Readings)
      (now : Readings) (b : CircuitBreaker) (s : S)
      → IsDown fx
      → IsValid b
      → b.enabled ≡ true
      → b.use_health_monitor ≡ false
      → get_state b ≡ closed
      → b.failure_threshold ≤ b.consecutive_failures + length nows
      → (get_times retry fx nows b s).0.open_timestamp ≤ now.asked_at
      → now.asked_at < (get_times retry fx nows b s).0.open_timestamp + b.open_timeout_secs
      → now.asked_at < u64_mod
      → let (b', s') = get_times retry fx nows b s in
        ((get now retry fx b' s').1 ≡ s') × ((get now retry fx b' s').2 ≡ some (err circuit_open))
  get_times_sheds retry fx nows now b s down v en mon st many after before small =
      let (b', s') = get_times retry fx nows b s in
      let (st', conf) = get_times_opens retry fx nows b s down v en mon st many in
      let refused =
        allow_request_refuses now.asked_at b' (ap (λ c. c.enabled) conf ∙ en) st' after
          (omega (arith, before, ap (λ c. c.open_timeout_secs) conf)) small in
      let e = get_refused retry fx now b' s' refused in (ap (λ r. r.1) e, ap (λ r. r.2) e)
