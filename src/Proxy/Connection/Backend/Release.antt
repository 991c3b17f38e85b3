-- ===== src/Proxy/Connection/Backend/Release.antt =====
-- When a round gives the connection back to the pool.
use scry_proxy.Base.{
  ℕ, ◌≡◌, ◌≢◌, inl, inr, refl, ap, sym, subst, ◌∙◌, Bool, true, false, Option, none, some, List, [],
  ◌∷◌, arith, Bytes, if◌then◌else◌, Option-cases, Bool-cases, All,
}
use scry_proxy.Protocol.Messages.{parse_msg}
use scry_proxy.Protocol.ErrorFields.{extract_error}
use scry_proxy.Protocol.Scan.{Scan, found, stuck, is_query_complete, extract_ready_for_query}
use scry_proxy.Protocol.Anonymize.{SqlParser}
use scry_proxy.Proxy.Transaction.{TransactionTracker, idle, is_in_transaction, is_idle}
use scry_proxy.Proxy.ConnectionState.{is_pinned}
use scry_proxy.Proxy.Connection.{
  PoolingStrategy, disabled, session, transaction, hybrid, should_release_connection,
}
use scry_proxy.Proxy.Connection.Events.{AnonymizationSettings}
use scry_proxy.Proxy.Connection.Session.{
  Run, done, ◌>>=◌, run_scan, >>=-eq_done, Settings, Session, disarm_deadline,
}
use scry_proxy.Proxy.Connection.Client.{Step, forwarded, handle_message}
use scry_proxy.Proxy.Connection.Client.Pinning.{handle_parse_pins}
use scry_proxy.Proxy.Connection.Backend.{
  Labels, Reports, observe, track_status, BackendTurn, turn_of, on_backend_chunk,
}

-- The strategies under which a connection may change hands within a session.
abbrev pub shares : PoolingStrategy → Bool
shares disabled = false
shares session = false
shares transaction = true
shares hybrid = true

-- The session after a round that gives the connection back, and the session before it.
pub record MayRelease (strategy : PoolingStrategy) (before after : Session) : Type 0 where
  pub shared : shares strategy ≡ true
  pub free : is_pinned before.conn_state ≡ false
  pub was_busy : before.txn_tracker.state ≢ idle
  pub is_done : after.txn_tracker.state ≡ idle

-- Neither what the connection holds nor the transaction state is changed.
abbrev pub Same : Session → Session → Type 0
Same s s' = (s'.conn_state ≡ s.conn_state) × (s'.txn_tracker ≡ s.txn_tracker)

track_status-releases :
    (strategy : PoolingStrategy) (status : Option ℕ) (s : Session)
    → (track_status strategy status s).1 ≡ true
    → MayRelease strategy s (track_status strategy status s).0
unfolding track_status should_release_connection is_in_transaction is_idle
track_status-releases strategy none s h = absurd (cc)
track_status-releases disabled (some status) s h = absurd (ground arith)
track_status-releases session (some status) s h = absurd (ground arith)
track_status-releases transaction (some status) s h = ground arith
track_status-releases hybrid (some status) s h = ground arith

track_status-conn_state :
    (strategy : PoolingStrategy) (status : Option ℕ) (s : Session)
    → (track_status strategy status s).0.conn_state ≡ s.conn_state
unfolding track_status
track_status-conn_state strategy none s = refl
track_status-conn_state strategy (some status) s = refl

pub disarm_deadline-Same : (settings : Settings) (s : Session) → Same s (disarm_deadline settings s)
unfolding disarm_deadline
disarm_deadline-Same settings s = (refl, refl)

pinned_not_free : (s : Session) → is_pinned s.conn_state ≡ false → is_pinned s.conn_state ≡ true → ⊥
pinned_not_free s p q = cc

module _ {S : Type 0} (sql : SqlParser S) (hash_hex : Bytes → Bytes) where
  complete-Same :
      (r : Scan Bool) (s : Session) (a b : Session × Reports) (out : Session × Reports)
      → Same s a.0
      → Same s b.0
      → (run_scan r >>= λ complete. done (if complete then a else b)) ≡ done out
      → Same s out.0
  complete-Same (found true) s a b out p q e = ground arith
  complete-Same (found false) s a b out p q e = ground arith
  complete-Same stuck s a b out p q e = absurd (cc)

  pub observe-Same :
      (fuel : ℕ) (anon : AnonymizationSettings) (labels : Labels) (now : ℕ) (chunk : Bytes)
      (s : Session) (out : Session × Reports)
      → observe sql hash_hex fuel anon labels now chunk s ≡ done out
      → Same s out.0
  unfolding observe
  observe-Same fuel anon labels now chunk s out e = elim (Option-cases (extract_error chunk)) [
    | inl no_error ↦
        complete-Same (is_query_complete fuel chunk) s _ _ out (refl, refl) (refl, refl)
          (rw (no_error, observe) at e)
    | inr (error_msg, is_error) ↦ ground (arith, is_error)
  ]

  -- A round ends with the session after `observe`, but for the deadline, and the status that it has read.
  on_backend_chunk_parts :
      (fuel : ℕ) (settings : Settings) (anon : AnonymizationSettings) (labels : Labels) (now : ℕ)
      (chunk : Bytes) (s : Session) (t : BackendTurn)
      → on_backend_chunk sql hash_hex fuel settings anon labels now chunk s ≡ done t
      → (s' : Session) × (reports : Reports) × (status : Option ℕ) × Same s s'
        × (turn_of chunk reports (track_status settings.connection_pooling status s') ≡ t)
  unfolding on_backend_chunk
  on_backend_chunk_parts fuel settings anon labels now chunk s t e =
      let (out, e1, e2) =
        >>=-eq_done (observe sql hash_hex fuel anon labels now chunk s)
          (λ out. run_scan (extract_ready_for_query fuel chunk) >>= λ status. done (
            turn_of chunk out.1
              (track_status settings.connection_pooling status (disarm_deadline settings out.0))))
          e in
      let (status, e3, e4) =
        >>=-eq_done (run_scan (extract_ready_for_query fuel chunk))
          (λ status. done (
            turn_of chunk out.1
              (track_status settings.connection_pooling status (disarm_deadline settings out.0))))
          e2 in
      let kept = observe-Same fuel anon labels now chunk s out e1 in
      let kept' = disarm_deadline-Same settings out.0 in
      (
        disarm_deadline settings out.0,
        out.1,
        status,
        (kept'.0 ∙ kept.0, kept'.1 ∙ kept.1),
        ground arith,
      )

  -- A backend connection changes hands within a session only where that is safe: the strategy is transaction or hybrid,
  -- nothing pins the connection, a transaction was under way, and the backend's last ReadyForQuery says that it is
  -- over. The next connection is then acquired as one that is not sticky.
  -- Condition: the round comes to an end.
  pub on_backend_chunk-MayRelease :
      (fuel : ℕ) (settings : Settings) (anon : AnonymizationSettings) (labels : Labels) (now : ℕ)
      (chunk : Bytes) (s : Session) (t : BackendTurn)
      → on_backend_chunk sql hash_hex fuel settings anon labels now chunk s ≡ done t
      → t.releases ≡ true
      → MayRelease settings.connection_pooling s t.session × (t.sticky ≡ false)
  on_backend_chunk-MayRelease fuel settings anon labels now chunk s t e r =
      let (s', reports, status, kept, same) =
        on_backend_chunk_parts fuel settings anon labels now chunk s t e in
      let strategy = settings.connection_pooling in
      let may =
        track_status-releases strategy status s' (ap (λ (t : BackendTurn). t.releases) same ∙ r) in
      let session_is = ap (λ (t : BackendTurn). t.session) same in
      (
        record {
          shared = may.shared;
          free = sym (ap is_pinned kept.0) ∙ may.free;
          was_busy = λ was. may.was_busy (ap (λ (t : TransactionTracker). t.state) kept.1 ∙ was);
          is_done = sym (ap (λ (s : Session). s.txn_tracker.state) session_is) ∙ may.is_done;
        },
        sym (ap (λ (t : BackendTurn). t.sticky) same)
            ∙ ap is_pinned (track_status-conn_state strategy status s')
            ∙ may.free,
      )

  on_backend_chunk-conn_state :
      (fuel : ℕ) (settings : Settings) (anon : AnonymizationSettings) (labels : Labels) (now : ℕ)
      (chunk : Bytes) (s : Session) (t : BackendTurn)
      → on_backend_chunk sql hash_hex fuel settings anon labels now chunk s ≡ done t
      → t.session.conn_state ≡ s.conn_state
  on_backend_chunk-conn_state fuel settings anon labels now chunk s t e =
      let (s', reports, status, kept, same) =
        on_backend_chunk_parts fuel settings anon labels now chunk s t e in
      sym (ap (λ (t : BackendTurn). t.session.conn_state) same)
      ∙ track_status-conn_state settings.connection_pooling status s'
      ∙ kept.0

  -- Rounds for the chunks that the backend sends, each at its time, and which of them give the connection back.
  unfoldable pub backend_rounds :
      ℕ → Settings → AnonymizationSettings → Labels → List (ℕ × Bytes) → Session → Run (List Bool)
  backend_rounds fuel settings anon labels [] s = done []
  backend_rounds fuel settings anon labels ((now, chunk) ∷ rest) s = do
    t ← on_backend_chunk sql hash_hex fuel settings anon labels now chunk s
    releases ← backend_rounds fuel settings anon labels rest t.session
    done (t.releases ∷ releases)

  pinned_never_releases :
      (fuel : ℕ) (settings : Settings) (anon : AnonymizationSettings) (labels : Labels)
      (chunks : List (ℕ × Bytes)) (s : Session) (releases : List Bool)
      → is_pinned s.conn_state ≡ true
      → backend_rounds fuel settings anon labels chunks s ≡ done releases
      → All (λ r. r ≡ false) releases
  unfolding backend_rounds
  pinned_never_releases fuel settings anon labels [] s releases p e =
      let none_left : [] ≡ releases = ground arith in subst (All (λ r. r ≡ false)) none_left tt
  pinned_never_releases fuel settings anon labels ((now, chunk) ∷ rest) s releases p e =
      let (t, e1, e2) =
        >>=-eq_done (on_backend_chunk sql hash_hex fuel settings anon labels now chunk s)
          (λ t. backend_rounds fuel settings anon labels rest t.session >>= λ more.
            done (t.releases ∷ more))
          e in
      let (more, e3, e4) =
        >>=-eq_done (backend_rounds fuel settings anon labels rest t.session)
          (λ more. done (t.releases ∷ more)) e2 in
      let kept = on_backend_chunk-conn_state fuel settings anon labels now chunk s t e1 in
      let still : t.releases ≡ false = elim (Bool-cases t.releases) [
        | inl r ↦ absurd (
            pinned_not_free s
              (on_backend_chunk-MayRelease fuel settings anon labels now chunk s t e1 r).0.free p)
        | inr r ↦ r
      ] in
      let all_of : t.releases ∷ more ≡ releases = ground arith in
      subst (All (λ r. r ≡ false)) all_of (
        still,
        pinned_never_releases fuel settings anon labels rest t.session more (ap is_pinned kept ∙ p)
            e3,
      )

  -- A prepared statement keeps its connection: once a Parse has been accepted, no chunks of the backend, however many,
  -- make the handler give the connection back, whatever the strategy is, until the client sends something again.
  -- Condition: the rounds come to an end.
  pub parse_keeps_connection :
      (fuel : ℕ) (settings : Settings) (anon : AnonymizationSettings) (labels : Labels) (now i : ℕ)
      (name query : Bytes) (oids : List ℕ) (s : Session) (step : Step) (chunks : List (ℕ × Bytes))
      (releases : List Bool)
      → handle_message settings now i (parse_msg name query oids) s ≡ done step
      → step.fate ≡ forwarded
      → backend_rounds fuel settings anon labels chunks step.session ≡ done releases
      → All (λ r. r ≡ false) releases
  parse_keeps_connection fuel settings anon labels now i name query oids s step chunks releases e f
        r =
      pinned_never_releases fuel settings anon labels chunks step.session releases
        (handle_parse_pins settings now i name query oids s step e f) r
