-- ===== src/Proxy/Connection/Client/Tests.antt =====
-- Chunks of a client, and the theorems at them.
use scry_proxy.Base.{
  ◌≡◌, refl, true, false, none, some, ap, ◌+◌, ◌*◌, ◌^◌, List, [], ◌∷◌, ◌++◌, arith, Bytes, codes,
}
use scry_proxy.Protocol.CommandDetector.{gives, outcome_map}
use scry_proxy.Protocol.Messages.{
  Message, query_msg, sync_msg, terminate_msg, parse_message, parse_query_message, read_cstring,
  split_nul,
}
use scry_proxy.Protocol.Utf8.{is_utf8}
use scry_proxy.Protocol.Reassembly.{returned, extract_messages, drain, header}
use scry_proxy.Proxy.Transaction
use scry_proxy.Protocol.CommandDetector.Tests.{detect_commit, detect_set}
use scry_proxy.Proxy.ModeEnforcer.{allowed, refused, verdict, validate, no_session_variables}
use scry_proxy.Proxy.ConnectionState.Tests.{apply_query_commit}
use scry_proxy.Proxy.Transaction.{is_in_transaction}
use scry_proxy.Proxy.Connection.Client.Swallowing.{on_client_chunk_swallows}
use scry_proxy.Proxy.StatementCache.{has_pending}
use scry_proxy.Proxy.StatementCache
use scry_proxy.Proxy.ConnectionState
use scry_proxy.Proxy.Connection.{transaction, pooling_mode, should_intercept_terminate}
use scry_proxy.Proxy.Connection.Session.{Settings, Session, arm_deadline, done}
use scry_proxy.Proxy.Connection.Client.{
  Turn, Fate, refusal, handle_message, handle_messages, conclude, on_client_chunk,
}
use scry_proxy.Proxy.Connection.Client.Forwarding.{
  Decided, backend_part, client_part, ends_session, on_client_chunk-Decided,
}

abbrev settings : Settings
settings = record {
  connection_pooling = transaction;
  query_timeout_secs = 30;
  max_prepared_statements = 100;
  floats = record { parse_f32 = λ s. none; parse_f64 = λ s. none };
}

abbrev first_session : Session
first_session = record {
  frontend_buffer = [];
  stmt_cache = StatementCache.new 100;
  txn_tracker = Transaction.new;
  conn_state = ConnectionState.new 100;
  query_deadline = none;
}

-- A Sync, and a Terminate behind it.
abbrev chunk : Bytes
chunk = b'S' ∷ 0 ∷ 0 ∷ 0 ∷ 4 ∷ b'X' ∷ 0 ∷ 0 ∷ 0 ∷ 4 ∷ []

abbrev messages : List Message
messages = sync_msg ∷ terminate_msg ∷ []

chunk-messages : extract_messages [] chunk ≡ returned messages []
unfolding extract_messages parse_message
chunk-messages = refl

abbrev turn : Turn
turn = record { session = first_session; to_backend = chunk; to_client = []; ends = false }

chunk-turn : on_client_chunk settings 7 chunk first_session ≡ done turn
unfolding on_client_chunk handle_messages handle_message should_intercept_terminate extract_messages
    parse_message conclude arm_deadline has_pending StatementCache.new
chunk-turn = refl

on_client_chunk-Decided_example :
    (fate : Fate) × Decided settings Transaction.new 0 messages fate
    × (turn.to_backend ≡ backend_part fate chunk)
    × (turn.to_client ≡ client_part fate)
    × (turn.ends ≡ ends_session fate)
on_client_chunk-Decided_example =
    on_client_chunk-Decided settings 7 chunk [] messages first_session turn chunk-messages
      chunk-turn

-- A COMMIT, which is allowed, and a SET outside a transaction, which is refused.
abbrev two_queries : Bytes
two_queries =
    b'Q'
    ∷ 0
    ∷ 0
    ∷ 0
    ∷ 11
    ∷ (codes "COMMIT" ++ 0 ∷ b'Q' ∷ 0 ∷ 0 ∷ 0 ∷ 14 ∷ (codes "SET x = 1" ++ 0 ∷ []))

two_queries_messages :
    extract_messages [] two_queries
    ≡ returned (query_msg (codes "COMMIT") ∷ query_msg (codes "SET x = 1") ∷ []) []
unfolding extract_messages drain header parse_message parse_query_message read_cstring is_utf8
    split_nul
two_queries_messages = refl

commit_allowed :
    validate (pooling_mode transaction) (codes "COMMIT") (is_in_transaction Transaction.new)
    ≡ gives allowed
unfolding validate pooling_mode is_in_transaction Transaction.new
commit_allowed = ap (outcome_map (verdict false)) detect_commit

set_refused :
    validate (pooling_mode transaction) (codes "SET x = 1") (is_in_transaction Transaction.new)
    ≡ gives (refused no_session_variables)
unfolding validate pooling_mode is_in_transaction Transaction.new
set_refused = ap (outcome_map (verdict false)) detect_set

on_client_chunk_swallows_example :
    (t : Turn) × (on_client_chunk settings 7 two_queries first_session ≡ done t)
    × (t.to_backend ≡ [])
    × (t.to_client ≡ refusal no_session_variables Transaction.new)
    × (t.session.conn_state ≡ ConnectionState.new 100)
    × (has_pending [] t.session.stmt_cache ≡ true)
    × (t.session.query_deadline ≡ some (7 + 30 * 10 ^ 9))
on_client_chunk_swallows_example =
    on_client_chunk_swallows settings 7 two_queries [] (codes "COMMIT") (codes "SET x = 1")
      no_session_variables [] (ConnectionState.new 100) first_session two_queries_messages
      commit_allowed set_refused (apply_query_commit (ConnectionState.new 100)) (omega arith) refl
