-- ===== src/Proxy/Connection/Session.antt =====
-- scry-proxy/src/proxy/connection.rs: what `handle_with_managed_connection` keeps for a client, in its local
-- variables, and what its loop may come to. The span of a query carries its command tag; its other fields are constant
-- or one-way.
use scry_proxy.Base.{
  ◌≡◌, refl, ℕ, ◌+◌, ◌*◌, ◌^◌, Bool, true, false, not, ◌&&◌, Option, none, some, [], ltb, Bytes,
  is_some,
}
use scry_proxy.Protocol.CommandDetector.{Outcome, gives, panics}
use scry_proxy.Protocol.Scan.{Scan, found, stuck}
use scry_proxy.Protocol.Messages.{Parsed, parsed, rejected, panicked}
use scry_proxy.Protocol.Bind.{ParamValue, Floats}
use scry_proxy.Proxy.Transaction.{TransactionTracker}
use scry_proxy.Proxy.Transaction
use scry_proxy.Proxy.ConnectionState.{ConnectionState}
use scry_proxy.Proxy.ConnectionState
use scry_proxy.Proxy.StatementCache.{PreparedStatementCache, PendingExecution, has_pending}
use scry_proxy.Proxy.StatementCache
use scry_proxy.Proxy.Connection.{PoolingStrategy}

-- A round of the loop ends with a value, or it panics, or a scan of a chunk goes on for ever.
pub data Run {ℓ} (A : Type ℓ) : Type ℓ where
  done : A → Run A
  panicked_run : Run A
  hangs : Run A

infixl 5 ◌>>=◌
abbrev pub ◌>>=◌ {ℓ κ} : {A : Type ℓ} {B : Type κ} → Run A → (A → Run B) → Run B
done x >>= next = next x
panicked_run >>= next = panicked_run
hangs >>= next = hangs

-- Inversion of a bind that ends with a value.
pub >>=-eq_done :
    {A B : Type 0} (m : Run A) (f : A → Run B) {b : B}
    → (m >>= f) ≡ done b
    → (a : A) × (m ≡ done a) × (f a ≡ done b)
>>=-eq_done (done a) f e = (a, refl, e)
>>=-eq_done panicked_run f e = absurd (cc)
>>=-eq_done hangs f e = absurd (cc)

abbrev pub run_outcome {ℓ} : {A : Type ℓ} → Outcome A → Run A
run_outcome (gives a) = done a
run_outcome panics = panicked_run

abbrev pub run_scan {ℓ} : {A : Type ℓ} → Scan A → Run A
run_scan (found a) = done a
run_scan stuck = hangs

-- `decode_params` never answers `rejected`.
abbrev pub run_parsed {ℓ} : {A : Type ℓ} → Parsed A → Run A
run_parsed (parsed a) = done a
run_parsed rejected = panicked_run
run_parsed panicked = panicked_run

-- `Span::none()`, or the span of a query with its command tag.
pub data QuerySpan : Type 0 where
  no_span : QuerySpan
  query_span : (command : Bytes) → QuerySpan

abbrev pub Cache : Type 0
Cache = PreparedStatementCache ParamValue QuerySpan

abbrev pub Execution : Type 0
Execution = PendingExecution ParamValue QuerySpan

-- What the configuration says; a time is a number of nanoseconds.
pub record Settings : Type 0 where
  pub connection_pooling : PoolingStrategy
  pub query_timeout_secs : ℕ
  pub max_prepared_statements : ℕ
  pub floats : Floats

pub record Session : Type 0 where
  pub frontend_buffer : Bytes
  pub stmt_cache : Cache
  pub txn_tracker : TransactionTracker
  pub conn_state : ConnectionState
  pub query_deadline : Option ℕ

unfoldable pub start_session : Settings → Session
start_session settings = record {
  frontend_buffer = [];
  stmt_cache = StatementCache.new settings.max_prepared_statements;
  txn_tracker = Transaction.new;
  conn_state = ConnectionState.new settings.max_prepared_statements;
  query_deadline = none;
}

abbrev pub query_timeout_enabled : Settings → Bool
query_timeout_enabled settings = ltb 0 settings.query_timeout_secs

-- `if query_timeout_enabled && query_deadline.is_none() && stmt_cache.has_pending("")`
unfoldable pub arm_deadline : Settings → ℕ → Session → Session
arm_deadline settings now s =
    let due =
      (query_timeout_enabled settings && not (is_some s.query_deadline))
      && has_pending [] s.stmt_cache in
    record s {
      query_deadline = elim due [
        | true ↦ some (now + settings.query_timeout_secs * 10 ^ 9)
        | false ↦ s.query_deadline
      ];
    }

-- `if query_timeout_enabled && !stmt_cache.has_pending("")`
unfoldable pub disarm_deadline : Settings → Session → Session
disarm_deadline settings s =
    let idle = query_timeout_enabled settings && not (has_pending [] s.stmt_cache) in
    record s { query_deadline = elim idle [ true ↦ none | false ↦ s.query_deadline ] }
