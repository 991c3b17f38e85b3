-- ===== src/Resilience/CircuitBreaker/Traces.antt =====
-- The breaker over sequences of calls: when it opens, when it closes, what it sheds.
use scry_proxy.Base.{
  ℕ, suc, ◌+◌, ◌≤◌, ◌<◌, ◌≡◌, refl, ◌∙◌, inl, inr, true, Option, List, [], ◌∷◌, arith, u64_mod,
  sub64-eq_sub, ◌%◌, ap, Bool-cases, ltb, length, map, All, if◌then◌else◌,
}
use scry_proxy.Resilience.CircuitBreaker.{
  closed, open_circuit, half_open, CircuitBreaker, HealthStatus, Call, allow, success, failure,
  health_report, get_state, allow_request, record_success, record_failure, step, run,
}
use scry_proxy.Resilience.CircuitBreaker.Invariant.{IsValid, step-IsValid}

abbrev pub as_failure : ℕ × Option HealthStatus → ℕ × Call
as_failure (now, health) = (now, failure health)

abbrev pub as_success : ℕ → ℕ × Call
as_success now = (now, success)

success_half_open :
    (b : CircuitBreaker) (now : ℕ)
    → IsValid b
    → b.enabled ≡ true
    → get_state b ≡ half_open
    → let q = step b (now, success) in
      (get_state q
        ≡ (if ltb (suc b.consecutive_successes) b.success_threshold then half_open else closed))
      × (get_state q ≡ half_open → q.consecutive_successes ≡ suc b.consecutive_successes)
      × (get_state q ≡ closed → q.consecutive_failures ≡ 0)
      × (q.config ≡ b.config)
unfolding step record_success get_state
success_half_open b now v en st = ground arith

success_closed :
    (b : CircuitBreaker) (now : ℕ)
    → get_state b ≡ closed
    → get_state (step b (now, success)) ≡ closed
unfolding step record_success get_state
success_closed b now st = ground arith

successes_closed :
    (b : CircuitBreaker) (ts : List ℕ)
    → get_state b ≡ closed
    → get_state (run b (map as_success ts)) ≡ closed
unfolding run
successes_closed b [] st = st
successes_closed b (now ∷ ts) st =
    successes_closed (step b (now, success)) ts (success_closed b now st)

-- A valid enabled breaker that is half open and has counted `k` successes: after the calls of a
-- list of successes it is half open exactly while `k` and their number stay below the threshold,
-- and closed from then on.
pub closes_at_threshold :
    (b : CircuitBreaker) (ts : List ℕ)
    → IsValid b
    → b.enabled ≡ true
    → get_state b ≡ half_open
    → get_state (run b (map as_success ts)) ≡ (
        if ltb (b.consecutive_successes + length ts) b.success_threshold then half_open else closed)
unfolding run
closes_at_threshold b [] v en st = ground (arith, v.below_successes)
closes_at_threshold b (now ∷ ts) v en st =
    let q = step b (now, success) in
    let (st', n, _, conf) = success_half_open b now v en st in
    elim (Bool-cases (ltb (suc b.consecutive_successes) b.success_threshold)) [
      | inl below ↦
          let h =
            closes_at_threshold q ts (step-IsValid b (now, success) v)
              (ap (λ c. c.enabled) conf ∙ en) (st' ∙ (rw below)) in
          h ∙ ground (arith, n (st' ∙ (rw below)), ap (λ c. c.success_threshold) conf)
      | inr over ↦ successes_closed q ts (st' ∙ (rw over)) ∙ ground (arith, over)
    ]

-- Calls made while the open period lasts: requests, and failures of requests that were under way.
abbrev pub IsShed : CircuitBreaker → ℕ × Call → Type 0
IsShed b (now, allow) =
    (b.open_timestamp ≤ now) × (now < b.open_timestamp + b.open_timeout_secs) × (now < u64_mod)
IsShed b (now, failure health) = Unit
IsShed b (now, _) = ⊥

abbrev pub requests : List (ℕ × Call) → ℕ
requests [] = 0
requests ((now, allow) ∷ cs) = suc (requests cs)
requests ((now, _) ∷ cs) = requests cs

requests-cons :
    (c : ℕ × Call) (cs : List (ℕ × Call)) → requests (c ∷ cs) ≡ requests (c ∷ []) + requests cs
requests-cons (now, allow) cs = omega arith
requests-cons (now, success) cs = omega arith
requests-cons (now, failure health) cs = omega arith
requests-cons (now, health_report up) cs = omega arith

shed_step :
    (b : CircuitBreaker) (c : ℕ × Call)
    → b.enabled ≡ true
    → get_state b ≡ open_circuit
    → b.requests_rejected < u64_mod
    → IsShed b c
    → let q = step b c in
      (get_state q ≡ open_circuit)
      × (q.config ≡ b.config)
      × (q.open_timestamp ≡ b.open_timestamp)
      × (q.requests_allowed ≡ b.requests_allowed)
      × (q.requests_rejected ≡ (b.requests_rejected + requests (c ∷ [])) % u64_mod)
unfolding step allow_request record_failure get_state
shed_step b (now, allow) en st w h = ground (arith, sub64-eq_sub now b.open_timestamp)
shed_step b (now, success) en st w h = absurd h
shed_step b (now, failure health) en st w h = ground arith
shed_step b (now, health_report up) en st w h = absurd h

IsShed-of_eq :
    (b q : CircuitBreaker) (cs : List (ℕ × Call))
    → q.config ≡ b.config
    → q.open_timestamp ≡ b.open_timestamp
    → All (IsShed b) cs
    → All (IsShed q) cs
IsShed-of_eq b q [] conf stamp h = tt
IsShed-of_eq b q ((now, allow) ∷ cs) conf stamp h =
    let limit = ap (λ c. c.open_timeout_secs) conf in
    (omega (arith, limit, h.0), IsShed-of_eq b q cs conf stamp h.1)
IsShed-of_eq b q ((now, success) ∷ cs) conf stamp h = absurd h.0
IsShed-of_eq b q ((now, failure health) ∷ cs) conf stamp h =
    (tt, IsShed-of_eq b q cs conf stamp h.1)
IsShed-of_eq b q ((now, health_report up) ∷ cs) conf stamp h = absurd h.0

-- While the timeout of an open, enabled breaker runs (no clock reading lies before the opening),
-- any sequence of requests and failure records leaves it open, admits no request and counts each
-- request as rejected, modulo 2 ^ 64.
pub open_sheds :
    (b : CircuitBreaker) (cs : List (ℕ × Call))
    → b.enabled ≡ true
    → get_state b ≡ open_circuit
    → b.requests_rejected < u64_mod
    → All (IsShed b) cs
    → let q = run b cs in
      (get_state q ≡ open_circuit)
      × (q.requests_allowed ≡ b.requests_allowed)
      × (q.requests_rejected ≡ (b.requests_rejected + requests cs) % u64_mod)
unfolding run
open_sheds b [] en st w h = (st, refl, omega arith)
open_sheds b (c ∷ cs) en st w h =
    let q = step b c in
    let (st', conf, stamp, same, more) = shed_step b c en st w h.0 in
    let (st'', same', more') =
      open_sheds q cs (ap (λ c. c.enabled) conf ∙ en) st' (omega (arith, more))
        (IsShed-of_eq b q cs conf stamp h.1) in
    (st'', same' ∙ same, omega (arith, more, more', requests-cons c cs))
