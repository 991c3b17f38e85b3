-- ===== src/Resilience/CircuitBreaker/Race.antt =====
-- Threads that have all loaded the state `Open` race for the one probe request.
use scry_proxy.Base.{
  ℕ, suc, ◌≡◌, refl, ◌≢◌, Bool, true, false, List, [], ◌∷◌, arith, sub64, leb, ◌||◌, inl, inr,
  Bool-cases, ap, ◌∙◌, if◌then◌else◌,
}
use scry_proxy.Resilience.CircuitBreaker.{open_circuit, CircuitBreaker, get_state, allow_request_at}

-- The threads run the rest of `allow_request` in some order; `true` stands for an admitted request.
pub race : List ℕ → CircuitBreaker → CircuitBreaker × List Bool
race [] b = (b, [])
race (now ∷ ts) b =
    let (c, ok) = allow_request_at open_circuit now b in let (d, oks) = race ts c in (d, ok ∷ oks)

abbrev pub admitted : List Bool → ℕ
admitted [] = 0
admitted (true ∷ oks) = suc (admitted oks)
admitted (false ∷ oks) = admitted oks

lost :
    (now : ℕ) (b : CircuitBreaker)
    → get_state b ≢ open_circuit
    → (get_state (allow_request_at open_circuit now b).0 ≢ open_circuit)
      × ((allow_request_at open_circuit now b).1 ≡ false)
unfolding allow_request_at get_state
lost now b h = ground arith

race_lost :
    (ts : List ℕ) (b : CircuitBreaker) → get_state b ≢ open_circuit → admitted (race ts b).1 ≡ 0
unfolding race
race_lost [] b h = refl
race_lost (now ∷ ts) b h =
    let (still, refused) = lost now b h in
    rw refused (race_lost ts (allow_request_at open_circuit now b).0 still)

-- The exchange succeeds: the request is admitted and the state is no longer `Open`.
won :
    (now : ℕ) (b : CircuitBreaker)
    → get_state b ≡ open_circuit
    → leb b.open_timeout_secs (sub64 now b.open_timestamp) ≡ true
    → (get_state (allow_request_at open_circuit now b).0 ≢ open_circuit)
      × ((allow_request_at open_circuit now b).1 ≡ true)
unfolding allow_request_at get_state
won now b st h = ground arith

early :
    (now : ℕ) (b : CircuitBreaker)
    → get_state b ≡ open_circuit
    → leb b.open_timeout_secs (sub64 now b.open_timestamp) ≡ false
    → let q = (allow_request_at open_circuit now b).0 in
      (get_state q ≡ open_circuit)
      × ((allow_request_at open_circuit now b).1 ≡ false)
      × (q.open_timeout_secs ≡ b.open_timeout_secs)
      × (q.open_timestamp ≡ b.open_timestamp)
unfolding allow_request_at get_state
early now b st h = ground arith

-- Some thread goes on after the open timeout.
abbrev pub any_elapsed : ℕ → ℕ → List ℕ → Bool
any_elapsed timeout opened [] = false
any_elapsed timeout opened (now ∷ ts) =
    leb timeout (sub64 now opened) || any_elapsed timeout opened ts

-- Any number of threads have loaded `Open`, and the breaker is still open when the first of them
-- goes on: exactly one of their requests is admitted if one of them reads a time past the open
-- timeout, and none otherwise.
pub race_admits_one :
    (ts : List ℕ) (b : CircuitBreaker)
    → get_state b ≡ open_circuit
    → admitted (race ts b).1
      ≡ (if any_elapsed b.open_timeout_secs b.open_timestamp ts then 1 else 0)
unfolding race
race_admits_one [] b st = refl
race_admits_one (now ∷ ts) b st =
    elim (Bool-cases (leb b.open_timeout_secs (sub64 now b.open_timestamp))) [
      | inl past ↦
          let (gone, ok) = won now b st past in
          rw (ok, past) (ap suc (race_lost ts (allow_request_at open_circuit now b).0 gone))
      | inr before ↦
          let (st', ko, timeout, opened) = early now b st before in
          rw (ko, before)
            (race_admits_one ts (allow_request_at open_circuit now b).0 st'
              ∙ (λ i. if any_elapsed (timeout i) (opened i) ts then 1 else 0))
    ]
