-- ===== src/Resilience/Retry/Bounds.antt =====
-- How often scry-proxy/src/resilience/retry.rs tries, and why it stops.
use scry_proxy.Base.{
  ℕ, zero, suc, ◌+◌, ◌≤◌, ◌<◌, max, ◌≡◌, ◌⊎◌, inl, inr, refl, sym, subst, ◌∙◌, true, false, leb,
  ltb, Result, ok, err, arith, Bool-cases,
}
use scry_proxy.Resilience.Retry.{
  ConnectionRetryConfig, Retried, finished, Effects, calculate_jitter, back_off, next_backoff,
  after_attempt, attempts, execute_with_classifier,
}

module _ {S T E : Type 0} where
  -- A counter of the attempts in the world: the operation raises it by one, and nothing else touches it.
  pub record Counts (fx : Effects S T E) (made : S → ℕ) : Type 0 where
    pub by_operation : (s : S) → made (fx.operation s).0 ≡ suc (made s)
    pub by_sleep : (ms : ℕ) (s : S) → made (fx.sleep ms s) ≡ made s
    pub by_gen_range : (range : ℕ) (s : S) → made (fx.gen_range range s).0 ≡ made s

  -- Why an execution that made `n` attempts stopped.
  abbrev pub StopsWith : ConnectionRetryConfig → Effects S T E → ℕ → Result T E → Type 0
  StopsWith config fx n (ok result) = (1 ≤ n) × (n ≤ max 1 config.max_attempts)
  StopsWith config fx n (err e) =
      (1 ≤ n)
      × (n ≤ max 1 config.max_attempts)
      × (fx.is_retryable e ≡ false ⊎ n ≡ max 1 config.max_attempts)

  -- From `s`, with some attempts made, the loop ends with a result after `k` more.
  abbrev pub Stops :
      ConnectionRetryConfig → Effects S T E → (S → ℕ) → ℕ → S → S × Retried T E → Type 0
  Stops config fx made attempt s end =
      (k : ℕ) × (r : Result T E) × (end.1 ≡ finished r)
      × (made end.0 ≡ made s + k)
      × StopsWith config fx (attempt + k) r

  back_off-made :
      (config : ConnectionRetryConfig) (fx : Effects S T E) (made : S → ℕ) (backoff_ms : ℕ) (s : S)
      → Counts fx made
      → made (back_off config fx backoff_ms s) ≡ made s
  unfolding back_off calculate_jitter
  back_off-made config fx made backoff_ms s c =
      let range = config.jitter_factor backoff_ms in
      elim (Bool-cases (ltb 0 range)) [
        | inl some_range ↦ rw (back_off, some_range) (c.by_sleep _ _ ∙ c.by_gen_range range s)
        | inr no_range ↦ rw (back_off, no_range) (c.by_sleep _ _)
      ]

  -- One round, given that the rest of the loop stops where there is one.
  after_attempt-Stops :
      (config : ConnectionRetryConfig) (fx : Effects S T E) (made : S → ℕ) (attempt : ℕ)
      (again : S × Retried T E) (s s' : S) (r : Result T E)
      → attempt < max 1 config.max_attempts
      → made s' ≡ suc (made s)
      → (suc attempt < max 1 config.max_attempts → Stops config fx made (suc attempt) s' again)
      → Stops config fx made attempt s (after_attempt config fx (suc attempt) again (s', r))
  after_attempt-Stops config fx made attempt again s s' (ok result) below one rest =
      (1, ok result, refl, omega (arith, one), (omega arith, omega (arith, below)))
  after_attempt-Stops config fx made attempt again s s' (err e) below one rest =
      elim (Bool-cases (fx.is_retryable e)) [
        | inr permanent ↦
            rw permanent (
              1,
              err e,
              refl,
              omega (arith, one),
              (omega arith, omega (arith, below), inl permanent),
            )
        | inl transient ↦ elim (Bool-cases (leb config.max_attempts (suc attempt))) [
          | inl last ↦
              rw (transient, last)
                (
                  1,
                  err e,
                  refl,
                  omega (arith, one),
                  (omega arith, omega (arith, below), inr (ground (arith, last, below))),
                )
          | inr more ↦
              let (k, r, ended, counted, stop) = rest (ground (arith, more)) in
              rw (transient, more)
                (
                  suc k,
                  r,
                  ended,
                  omega (arith, one, counted),
                  subst (λ n. StopsWith config fx n r) (omega arith) stop,
                )
        ]
      ]

  attempts_stop :
      (config : ConnectionRetryConfig) (fx : Effects S T E) (made : S → ℕ)
      (fuel attempt backoff_ms : ℕ) (s : S)
      → Counts fx made
      → attempt < max 1 config.max_attempts
      → config.max_attempts < fuel + attempt
      → Stops config fx made attempt s (attempts config fx fuel attempt backoff_ms s)
  unfolding attempts
  attempts_stop config fx made zero attempt backoff_ms s c below enough = absurd (omega arith)
  attempts_stop config fx made (suc fuel) attempt backoff_ms s c below enough =
      let (s', r) = fx.operation s in
      let waited = back_off config fx backoff_ms s' in
      after_attempt-Stops config fx made attempt
        (attempts config fx fuel (suc attempt) (next_backoff config backoff_ms) waited) s s' r below
        (c.by_operation s)
        (λ (more : suc attempt < max 1 config.max_attempts).
          subst
            (λ n.
              (k : ℕ) × (r' : Result T E) × ((attempts config fx fuel (suc attempt)
                  (next_backoff config backoff_ms) waited).1
                ≡ finished r')
              × (made
                    (attempts config fx fuel (suc attempt) (next_backoff config backoff_ms)
                      waited).0
                  ≡ n + k)
              × StopsWith config fx (suc attempt + k) r')
            (back_off-made config fx made backoff_ms s' c)
            (attempts_stop config fx made fuel (suc attempt) (next_backoff config backoff_ms) waited
              c more (omega arith)))

  -- Retries end: with retries enabled, an execution makes at least one attempt and at most `max_attempts`, or one
  -- where that is 0, and returns a result. If the result is an error, then it is one that the classifier does not
  -- retry, or every attempt was used. Condition: only the operation raises the count of attempts.
  pub execute_with_classifier-Stops :
      (config : ConnectionRetryConfig) (fx : Effects S T E) (made : S → ℕ) (s : S)
      → Counts fx made
      → config.enabled ≡ true
      → Stops config fx made 0 s (execute_with_classifier config fx s)
  unfolding execute_with_classifier
  execute_with_classifier-Stops config fx made s c on =
      rw (execute_with_classifier, on)
        (attempts_stop config fx made (suc config.max_attempts) 0 config.initial_backoff_ms s c
          (omega arith) (omega arith))

  -- The operation fails, whatever the world.
  abbrev pub IsDown : Effects S T E → Type 0
  IsDown fx = (s : S) → (e : E) × ((fx.operation s).1 ≡ err e)

  abbrev pub Fails : S × Retried T E → Type 0
  Fails end = (e : E) × (end.1 ≡ finished (err e))

  after_attempt-Fails :
      (config : ConnectionRetryConfig) (fx : Effects S T E) (attempt : ℕ) (again : S × Retried T E)
      (s : S) (e : E)
      → (attempt < config.max_attempts → Fails again)
      → Fails (after_attempt config fx attempt again (s, err e))
  after_attempt-Fails config fx attempt again s e rest = elim (Bool-cases (fx.is_retryable e)) [
    | inr permanent ↦ rw permanent (e, refl)
    | inl transient ↦ elim (Bool-cases (leb config.max_attempts attempt)) [
      | inl last ↦ rw (transient, last) (e, refl)
      | inr more ↦ rw (transient, more) (rest (ground (arith, more)))
    ]
  ]

  attempts_fail :
      (config : ConnectionRetryConfig) (fx : Effects S T E) (fuel attempt backoff_ms : ℕ) (s : S)
      → IsDown fx
      → config.max_attempts < fuel + attempt
      → 0 < fuel
      → Fails (attempts config fx fuel attempt backoff_ms s)
  unfolding attempts
  attempts_fail config fx zero attempt backoff_ms s down enough some_fuel = absurd (omega arith)
  attempts_fail config fx (suc fuel) attempt backoff_ms s down enough some_fuel =
      let (e, failed) = down s in
      let s' = (fx.operation s).0 in
      let backoff' = next_backoff config backoff_ms in
      let waited = back_off config fx backoff_ms s' in
      let again = attempts config fx fuel (suc attempt) backoff' waited in
      subst (λ r. Fails (after_attempt config fx (suc attempt) again (s', r))) (sym failed)
        (after_attempt-Fails config fx (suc attempt) again s' e
          (λ (more : suc attempt < config.max_attempts).
            attempts_fail config fx fuel (suc attempt) backoff' waited down (omega arith)
              (omega arith)))

  pub execute_with_classifier-Fails :
      (config : ConnectionRetryConfig) (fx : Effects S T E) (s : S)
      → IsDown fx
      → config.enabled ≡ true
      → Fails (execute_with_classifier config fx s)
  unfolding execute_with_classifier
  execute_with_classifier-Fails config fx s down on =
      rw (execute_with_classifier, on)
        (attempts_fail config fx (suc config.max_attempts) 0 config.initial_backoff_ms s down
          (omega arith) (omega arith))
