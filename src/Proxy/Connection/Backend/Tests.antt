-- ===== src/Proxy/Connection/Backend/Tests.antt =====
-- A backend that ends a transaction.
use scry_proxy.Base.{arith, some, ◌≡◌, refl, true, false, none, [], ◌∷◌, Bytes, codes, All}
use scry_proxy.Protocol.Anonymize.Sample.{sample}
use scry_proxy.Protocol.Scan.{
  extract_ready_for_query, scan_status, is_query_complete, scan_complete,
}
use scry_proxy.Protocol.ErrorFields.{extract_error, find_error_fields, scan_error}
use scry_proxy.Proxy.Transaction.{
  in_transaction, idle, update_from_ready_for_query, is_in_transaction, is_idle,
}
use scry_proxy.Proxy.StatementCache.{set_pending, insert_statement}
use scry_proxy.Proxy.StatementCache
use scry_proxy.Proxy.ConnectionState.{is_pinned, add_prepared_statement}
use scry_proxy.Proxy.ConnectionState.Pins.{add_prepared_statement-is_pinned}
use scry_proxy.Proxy.ConnectionState.Tests.{apply_query_commit}
use scry_proxy.Proxy.ModeEnforcer.{validate}
use scry_proxy.Protocol.Messages.{parse_msg}
use scry_proxy.Proxy.ConnectionState
use scry_proxy.Proxy.Connection.{
  transaction, hybrid, pooling_mode, apply_parse_state, should_release_connection,
}
use scry_proxy.Proxy.Connection.Events.{AnonymizationSettings, redact}
use scry_proxy.Proxy.Connection.Session.{
  Settings, Session, Execution, no_span, done, disarm_deadline,
}
use scry_proxy.Proxy.Connection.Client.{forwarded, handle_message, accept_parse}
use scry_proxy.Proxy.Connection.Backend.{
  Labels, no_reports, Reports, take_unnamed, report_success, observe, track_status, BackendTurn,
  on_backend_chunk,
}
use scry_proxy.Proxy.Connection.Backend.Release.{
  backend_rounds, parse_keeps_connection, MayRelease, on_backend_chunk-MayRelease,
}
use scry_proxy.Protocol.Wire.{Frame}
use scry_proxy.Proxy.Connection.Backend.Frames.{tracked, releases_on, on_backend_chunk-stream_bytes}

abbrev settings : Settings
settings = record {
  connection_pooling = transaction;
  query_timeout_secs = 30;
  max_prepared_statements = 100;
  floats = record { parse_f32 = λ s. none; parse_f64 = λ s. none };
}

abbrev anon : AnonymizationSettings
anon = record {
  enabled = true;
  anonymizer = record { salt = codes "salt" };
  parse_failure = redact;
}

abbrev labels : Labels
labels = record { connection_id = codes "7"; database = codes "app" }

abbrev busy : Session
busy = record {
  frontend_buffer = [];
  stmt_cache = StatementCache.new 100;
  txn_tracker = record { state = in_transaction };
  conn_state = ConnectionState.new 100;
  query_deadline = none;
}

abbrev pending : Execution
pending = record {
  query = codes "SELECT 1";
  params = [];
  params_incomplete = false;
  started_at = 4;
  span = no_span;
}

abbrev idle_status : Bytes
idle_status = b'Z' ∷ 0 ∷ 0 ∷ 0 ∷ 5 ∷ b'I' ∷ []

abbrev turn : BackendTurn
turn = record {
  session = record busy { txn_tracker = record { state = idle } };
  to_client = idle_status;
  reports = no_reports;
  releases = true;
  sticky = false;
}

turn_run : on_backend_chunk sample (λ b. b) 2 settings anon labels 9 idle_status busy ≡ done turn
unfolding on_backend_chunk observe track_status disarm_deadline should_release_connection
    is_in_transaction is_idle update_from_ready_for_query extract_ready_for_query scan_status
    is_query_complete scan_complete StatementCache.new ConnectionState.new extract_error
    find_error_fields scan_error is_pinned StatementCache.take_pending StatementCache.has_pending
    report_success
turn_run = refl

on_backend_chunk-MayRelease_example :
    MayRelease transaction busy turn.session × (turn.sticky ≡ false)
on_backend_chunk-MayRelease_example =
    on_backend_chunk-MayRelease sample (λ b. b) 2 settings anon labels 9 idle_status busy turn
      turn_run refl

abbrev waiting : Session
waiting = record busy { stmt_cache = set_pending [] pending (StatementCache.new 100) }

abbrev command_complete : Bytes
command_complete = b'C' ∷ 0 ∷ 0 ∷ 0 ∷ 6 ∷ b'O' ∷ 0 ∷ []

abbrev finished : Session × Reports
finished = (
  (take_unnamed waiting).0,
  report_success sample (λ b. b) anon labels 9 (take_unnamed waiting).1,
)

abbrev hybrid_settings : Settings
hybrid_settings = record settings { connection_pooling = hybrid }

-- The session after a Parse of a COMMIT under the name `s1`.
abbrev after_parse : Session
after_parse = record busy {
  stmt_cache =
      set_pending []
        (record pending { query = codes "COMMIT"; params_incomplete = true; started_at = 5 })
        (insert_statement (codes "s1") (record { query = codes "COMMIT"; param_oids = [] })
          (StatementCache.new 100));
  conn_state = add_prepared_statement (codes "s1") (codes "COMMIT") [] (ConnectionState.new 100);
}

parse_run :
    handle_message hybrid_settings 5 0 (parse_msg (codes "s1") (codes "COMMIT") []) busy
    ≡ done (record { session = after_parse; fate = forwarded })
unfolding handle_message accept_parse validate pooling_mode apply_parse_state
parse_run = rw (apply_query_commit (ConnectionState.new 100)) refl

rounds_run :
    backend_rounds sample (λ b. b) 2 hybrid_settings anon labels ((9, idle_status) ∷ []) after_parse
    ≡ done (false ∷ [])
unfolding backend_rounds on_backend_chunk observe track_status disarm_deadline
    should_release_connection is_in_transaction is_idle update_from_ready_for_query
    extract_ready_for_query scan_status is_query_complete scan_complete StatementCache.new
    extract_error find_error_fields scan_error
rounds_run =
    rw (add_prepared_statement-is_pinned (codes "s1") (codes "COMMIT") [] (ConnectionState.new 100))
      refl

parse_keeps_connection_example : All (λ r. r ≡ false) (false ∷ [])
parse_keeps_connection_example =
    parse_keeps_connection sample (λ b. b) 2 hybrid_settings anon labels 5 0 (codes "s1")
      (codes "COMMIT") [] busy (record { session = after_parse; fate = forwarded })
      ((9, idle_status) ∷ []) (false ∷ []) parse_run refl rounds_run

abbrev idle_frame : Frame
idle_frame = record { tag = b'Z'; payload = b'I' ∷ [] }

on_backend_chunk-stream_bytes_example :
    (t : BackendTurn) × (on_backend_chunk sample (λ b. b) 2 settings anon labels 9 idle_status busy
      ≡ done t)
    × (t.to_client ≡ idle_status)
    × (t.session.txn_tracker ≡ tracked (some b'I') busy.txn_tracker)
    × (t.session.conn_state ≡ busy.conn_state)
    × (t.releases ≡ releases_on transaction (some b'I') busy)
on_backend_chunk-stream_bytes_example =
    on_backend_chunk-stream_bytes sample (λ b. b) 2 settings anon labels 9 (idle_frame ∷ []) [] busy
      ((omega arith, λ e. omega arith), tt) (omega arith) (omega arith) (omega arith)
