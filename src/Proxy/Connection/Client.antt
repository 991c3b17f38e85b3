-- ===== src/Proxy/Connection/Client.antt =====
-- scry-proxy/src/proxy/connection.rs: what the handler does with a chunk that the client sent, in
-- `handle_with_managed_connection`. A failed write, which ends the handler with an error, is left out, and so is what
-- is logged.
pub mod Forwarding
pub mod Pinning
pub mod Swallowing
mod Tests
use scry_proxy.Base.{
  ℕ, suc, Bool, true, false, Option, none, some, List, [], ◌∷◌, ◌++◌, map, Bytes, codes, ◌==◌,
  if◌then◌else◌,
}
use scry_proxy.Protocol.CommandDetector.{Outcome, gives, panics}
use scry_proxy.Protocol.Messages.{
  Message, query_msg, parse_msg, bind_msg, execute_msg, close_msg, sync_msg, terminate_msg,
}
use scry_proxy.Protocol.Reassembly.{Extracted, returned, crash, no_end, extract_messages}
use scry_proxy.Protocol.Bind.{ParamValue, null, unknown_value, decode_params}
use scry_proxy.Proxy.Transaction.{TransactionTracker, is_in_transaction}
use scry_proxy.Proxy.ModeEnforcer.{Verdict, allowed, refused, validate}
use scry_proxy.Proxy.ModeEnforcer
use scry_proxy.Proxy.ConnectionState.{ConnectionState, apply_query, remove_prepared_statement}
use scry_proxy.Proxy.StatementCache.{
  PreparedStatement, PendingExecution, insert_statement, get_statement, remove_statement,
  set_pending, clear_pending,
}
use scry_proxy.Proxy.Connection.{
  pooling_mode, should_intercept_terminate, apply_parse_state, build_ready_for_query, command_tag,
}
use scry_proxy.Proxy.Connection.Session.{
  Run, done, panicked_run, hangs, ◌>>=◌, run_outcome, run_parsed, QuerySpan, no_span, query_span,
  Cache, Execution, Settings, Session, arm_deadline,
}

-- What becomes of the chunk: it is forwarded whole, or a message of it is refused with a reply and it is not, or a
-- Terminate is kept from the backend.
pub data Fate : Type 0 where
  forwarded : Fate
  refused_with : (reply : Bytes) → Fate
  terminated : Fate

-- What one message leaves: the loop goes on, or it breaks.
pub record Step : Type 0 where
  pub session : Session
  pub fate : Fate

abbrev pub go_on : Session → Run Step
go_on s = done (record { session = s; fate = forwarded })

-- The ErrorResponse, and the ReadyForQuery that ends the cycle.
abbrev pub refusal : Bytes → TransactionTracker → Bytes
refusal err_msg txn_tracker =
    ModeEnforcer.build_error_response err_msg ++ build_ready_for_query txn_tracker.state

abbrev pub unless_refused : Session → Run Step → Verdict → Run Step
unless_refused s rest allowed = rest
unless_refused s rest (refused err_msg) =
    done (record { session = s; fate = refused_with (refusal err_msg s.txn_tracker) })

abbrev pub with_conn_state : Session → ConnectionState → Session
with_conn_state s state = record s { conn_state = state }

abbrev pub with_cache : Session → Cache → Session
with_cache s cache = record s { stmt_cache = cache }

-- A Parse that is allowed.
unfoldable pub accept_parse : ℕ → Bytes → Bytes → List ℕ → Session → Run Step
accept_parse now name query param_oids s = do
  let placeholder : Execution = record {
    query = query;
    params = [];
    params_incomplete = true;
    started_at = now;
    span = no_span;
  }
  let cache =
      set_pending [] placeholder
        (insert_statement name (record { query = query; param_oids = param_oids }) s.stmt_cache)
  state ← run_outcome (apply_parse_state name query param_oids s.conn_state)
  go_on (with_conn_state (with_cache s cache) state)

-- A Query that is allowed.
unfoldable pub accept_query : ℕ → Bytes → Session → Run Step
accept_query now query s = do
  let pending : Execution = record {
    query = query;
    params = [];
    params_incomplete = false;
    started_at = now;
    span = query_span (command_tag query);
  }
  state ← run_outcome (apply_query query s.conn_state)
  go_on (with_conn_state (with_cache s (set_pending [] pending s.stmt_cache)) state)

abbrev pub raw_param : Option Bytes → ParamValue
raw_param none = null
raw_param (some bytes) = unknown_value 0 bytes

-- The query of a Bind, its parameters, and whether they are incomplete.
abbrev pub bound_query :
    Settings
    → Bytes
    → List ℕ
    → List (Option Bytes)
    → Option PreparedStatement
    → Run (Bytes × List ParamValue × Bool)
bound_query settings statement format_codes params_raw (some stmt) =
    run_parsed (decode_params settings.floats params_raw format_codes stmt.param_oids) >>= λ params.
    done (stmt.query, params, false)
bound_query settings statement format_codes params_raw none =
    done (codes "[unknown: " ++ statement ++ codes "]", map raw_param params_raw, true)

unfoldable pub accept_bind :
    Settings → ℕ → Bytes → Bytes → List ℕ → List (Option Bytes) → Session → Run Step
accept_bind settings now portal statement format_codes params_raw s = do
  let (cache, cached) = get_statement statement s.stmt_cache
  (query, params, incomplete) ← bound_query settings statement format_codes params_raw cached
  let pending : Execution = record {
    query = query;
    params = params;
    params_incomplete = incomplete;
    started_at = now;
    span = query_span (command_tag query);
  }
  go_on (with_cache s (set_pending portal pending cache))

unfoldable pub accept_close : ℕ → Bytes → Session → Run Step
accept_close kind name s =
    if kind == b'S'
    then go_on (record s {
      stmt_cache = remove_statement name s.stmt_cache;
      conn_state = remove_prepared_statement name s.conn_state;
    })
    else if kind == b'P'
    then go_on (with_cache s (clear_pending name s.stmt_cache))
    else go_on s

-- The `match` on the message.
unfoldable pub handle_message : Settings → ℕ → ℕ → Message → Session → Run Step
handle_message settings now msg_index (parse_msg name query param_oids) s =
    run_outcome
      (validate (pooling_mode settings.connection_pooling) query (is_in_transaction s.txn_tracker))
    >>= unless_refused s (accept_parse now name query param_oids s)
handle_message settings now msg_index (bind_msg portal statement format_codes params_raw) s =
    accept_bind settings now portal statement format_codes params_raw s
handle_message settings now msg_index (query_msg query) s =
    run_outcome
      (validate (pooling_mode settings.connection_pooling) query (is_in_transaction s.txn_tracker))
    >>= unless_refused s (accept_query now query s)
handle_message settings now msg_index (close_msg kind name) s = accept_close kind name s
handle_message settings now msg_index terminate_msg s =
    if should_intercept_terminate msg_index
    then done (record { session = s; fate = terminated })
    else go_on s
handle_message settings now msg_index (execute_msg portal) s = go_on s
handle_message settings now msg_index sync_msg s = go_on s

abbrev pub then_rest : (Session → Run Step) → Step → Run Step
then_rest rest step = elim step.fate [
  | forwarded ↦ rest step.session
  | refused_with reply ↦ done step
  | terminated ↦ done step
]

-- The loop over the messages of a chunk, from the index on.
unfoldable pub handle_messages : Settings → ℕ → ℕ → List Message → Session → Run Step
handle_messages settings now msg_index [] s = go_on s
handle_messages settings now msg_index (msg ∷ rest) s =
    handle_message settings now msg_index msg s
    >>= then_rest (handle_messages settings now (suc msg_index) rest)

-- What the round does outside: bytes for either side, and whether the loop ends.
pub record Turn : Type 0 where
  pub session : Session
  pub to_backend : Bytes
  pub to_client : Bytes
  pub ends : Bool

unfoldable pub conclude : Settings → ℕ → Bytes → Step → Turn
conclude settings now chunk step = elim step.fate [
  | forwarded ↦ record {
    session = arm_deadline settings now step.session;
    to_backend = chunk;
    to_client = [];
    ends = false;
  }
  | refused_with reply ↦ record {
    session = arm_deadline settings now step.session;
    to_backend = [];
    to_client = reply;
    ends = false;
  }
  | terminated ↦ record { session = step.session; to_backend = []; to_client = []; ends = true }
]

abbrev pub handle_extracted : Settings → ℕ → Bytes → Session → Extracted → Run Turn
handle_extracted settings now chunk s (returned messages buffer) =
    handle_messages settings now 0 messages (record s { frontend_buffer = buffer }) >>= λ step.
    done (conclude settings now chunk step)
handle_extracted settings now chunk s crash = panicked_run
handle_extracted settings now chunk s no_end = hangs

-- A chunk from the client, at a time.
unfoldable pub on_client_chunk : Settings → ℕ → Bytes → Session → Run Turn
on_client_chunk settings now chunk s =
    handle_extracted settings now chunk s (extract_messages s.frontend_buffer chunk)
