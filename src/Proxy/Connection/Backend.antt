-- ===== src/Proxy/Connection/Backend.antt =====
-- scry-proxy/src/proxy/connection.rs: what the handler does with a chunk that the backend sent, and when a query's
-- deadline expires, in `handle_with_managed_connection`. The SQL parser and the hash of the anonymizer are parameters;
-- a duration is a difference of two readings of the clock. What is logged is left out, and so is the answer of the
-- event queue, which changes nothing here. `fuel` bounds the rounds of the scans of a chunk.
pub mod Release
pub mod Publishing
pub mod Frames
mod Tests
use scry_proxy.Base.{
  ℕ, ◌-◌, Bool, true, false, not, ◌&&◌, Option, none, some, List, [], ◌∷◌, ◌++◌, Bytes, codes,
  is_some, if◌then◌else◌,
}
use scry_proxy.Protocol.CommandDetector.{split_statements}
use scry_proxy.Protocol.ErrorFields.{extract_error}
use scry_proxy.Protocol.Scan.{is_query_complete, extract_ready_for_query}
use scry_proxy.Protocol.AuthMessages.{build_error_response}
use scry_proxy.Protocol.Anonymize.{SqlParser}
use scry_proxy.Proxy.Transaction.{
  TransactionTracker, update_from_ready_for_query, is_in_transaction, is_idle,
}
use scry_proxy.Proxy.ConnectionState.{is_pinned, mark_unknown_command}
use scry_proxy.Proxy.StatementCache.{take_pending}
use scry_proxy.Proxy.Connection.{PoolingStrategy, should_release_connection, build_ready_for_query}
use scry_proxy.Proxy.Connection.Events.{
  AnonymizationSettings, QueryEvent, Outline, error_field, build_event,
}
use scry_proxy.Proxy.Connection.Session.{
  Run, done, ◌>>=◌, run_scan, Execution, Settings, Session, disarm_deadline,
}

-- The names that every event of the connection carries.
pub record Labels : Type 0 where
  pub connection_id : Bytes
  pub database : Bytes

-- What a round reports: the events for the queue, the fingerprints for the hot data, and the successes of the queries
-- that the metrics count.
pub record Reports : Type 0 where
  pub events : List QueryEvent
  pub hot_data : List Bytes
  pub queries : List Bool

abbrev pub no_reports : Reports
no_reports = record { events = []; hot_data = []; queries = [] }

abbrev pub outline_of : Labels → ℕ → Execution → Bool → Option Bytes → Outline
outline_of labels now pending success error = record {
  params_incomplete = pending.params_incomplete;
  duration = now - pending.started_at;
  success = success;
  error = error;
  connection_id = labels.connection_id;
  database = labels.database;
}

-- An event that is not dropped, before those of later statements.
abbrev pub add_event : Option (QueryEvent × List Bytes) → Reports → Reports
add_event none r = r
add_event (some (event, fingerprints)) r = record r {
  events = event ∷ r.events;
  hot_data = fingerprints ++ r.hot_data;
}

-- `stmt_cache.take_pending("")`
abbrev pub take_unnamed : Session → Session × Option Execution
take_unnamed s =
    let (cache, pending) = take_pending [] s.stmt_cache in
    (record s { stmt_cache = cache }, pending)

module _ {S : Type 0} (sql : SqlParser S) (hash_hex : Bytes → Bytes) where
  -- A query that failed: one event for the whole text.
  unfoldable pub report_failure :
      AnonymizationSettings → Labels → ℕ → Bytes → Bytes → Option Execution → Reports
  report_failure anon labels now chunk error_msg none = no_reports
  report_failure anon labels now chunk error_msg (some pending) =
      add_event
        (build_event sql hash_hex anon pending.query pending.params
          (outline_of labels now pending false (error_field anon chunk error_msg)))
        (record { events = []; hot_data = []; queries = false ∷ [] })

  -- The loop over the statements of a query that completed.
  unfoldable pub report_statements :
      AnonymizationSettings → Labels → ℕ → Execution → List Bytes → Reports
  report_statements anon labels now pending [] = record {
    events = [];
    hot_data = [];
    queries = true ∷ [];
  }
  report_statements anon labels now pending (stmt_text ∷ rest) =
      add_event
        (build_event sql hash_hex anon stmt_text pending.params
          (outline_of labels now pending true none))
        (report_statements anon labels now pending rest)

  unfoldable pub report_success : AnonymizationSettings → Labels → ℕ → Option Execution → Reports
  report_success anon labels now none = no_reports
  report_success anon labels now (some pending) =
      report_statements anon labels now pending (split_statements pending.query)

  -- The first part of the branch: the query under way is over, with an error or without, or it goes on.
  unfoldable pub observe :
      ℕ → AnonymizationSettings → Labels → ℕ → Bytes → Session → Run (Session × Reports)
  observe fuel anon labels now chunk s =
      let (s', pending) = take_unnamed s in
      elim (extract_error chunk) [
        | some error_msg ↦ done (s', report_failure anon labels now chunk error_msg pending)
        | none ↦ run_scan (is_query_complete fuel chunk) >>= λ complete.
            done
              (if complete then (s', report_success anon labels now pending) else (s, no_reports))
      ]

-- After a ReadyForQuery: the transaction state, and whether the connection goes back to the pool.
unfoldable pub track_status : PoolingStrategy → Option ℕ → Session → Session × Bool
track_status strategy none s = (s, false)
track_status strategy (some status) s =
    let txn_tracker = update_from_ready_for_query status s.txn_tracker in
    (
      record s { txn_tracker = txn_tracker },
      (is_in_transaction s.txn_tracker && is_idle txn_tracker)
          && should_release_connection strategy s.conn_state,
    )

-- What the round does outside. With `releases`, the connection goes back to the pool once the client has the chunk, and
-- another is acquired, sticky if `sticky`.
pub record BackendTurn : Type 0 where
  pub session : Session
  pub to_client : Bytes
  pub reports : Reports
  pub releases : Bool
  pub sticky : Bool

abbrev pub turn_of : Bytes → Reports → Session × Bool → BackendTurn
turn_of chunk reports (s, releases) = record {
  session = s;
  to_client = chunk;
  reports = reports;
  releases = releases;
  sticky = is_pinned s.conn_state;
}

module _ {S : Type 0} (sql : SqlParser S) (hash_hex : Bytes → Bytes) where
  -- A chunk from the backend, at a time.
  unfoldable pub on_backend_chunk :
      ℕ → Settings → AnonymizationSettings → Labels → ℕ → Bytes → Session → Run BackendTurn
  on_backend_chunk fuel settings anon labels now chunk s = do
    (s', reports) ← observe sql hash_hex fuel anon labels now chunk s
    status ← run_scan (extract_ready_for_query fuel chunk)
    done (
        turn_of chunk reports
          (track_status settings.connection_pooling status (disarm_deadline settings s')))

-- The deadline expired: the client is told, and the loop ends.
pub record Cancelled : Type 0 where
  pub session : Session
  pub to_client : Bytes
  pub queries : List Bool
  pub query_timeouts : ℕ

unfoldable pub on_query_timeout : Session → Cancelled
on_query_timeout s = record {
  session = record s { conn_state = mark_unknown_command s.conn_state };
  to_client =
      build_error_response (codes "ERROR") (codes "57014")
        (codes "canceling statement due to query timeout")
      ++ build_ready_for_query s.txn_tracker.state;
  queries = false ∷ [];
  query_timeouts = 1;
}
