-- ===== src/Proxy/Connection/Client/Swallowing.antt =====
-- A chunk with a refused message in it: the messages before that one are on the handler's books, and the backend never
-- sees them.
use scry_proxy.Base.{
  ℕ, ◌+◌, ◌*◌, ◌^◌, ◌<◌, ◌≡◌, refl, ap, ◌∙◌, true, false, none, some, List, [], ◌∷◌, arith, Bytes,
  contains_key-insert,
}
use scry_proxy.Protocol.CommandDetector.{gives}
use scry_proxy.Protocol.Messages.{Message, query_msg}
use scry_proxy.Protocol.Reassembly.{returned, extract_messages}
use scry_proxy.Proxy.Transaction.{is_in_transaction}
use scry_proxy.Proxy.ModeEnforcer.{allowed, refused, validate}
use scry_proxy.Proxy.ConnectionState.{ConnectionState, apply_query}
use scry_proxy.Proxy.StatementCache.{has_pending, set_pending}
use scry_proxy.Proxy.Connection.{pooling_mode, command_tag}
use scry_proxy.Proxy.Connection.Session.{
  done, ◌>>=◌, query_span, Execution, Settings, Session, arm_deadline,
}
use scry_proxy.Proxy.Connection.Client.{
  Step, forwarded, refused_with, refusal, accept_query, handle_message, handle_messages, Turn,
  conclude, handle_extracted, on_client_chunk, with_conn_state, with_cache,
}

-- The session after the first query.
abbrev after_query : ℕ → Bytes → ConnectionState → Session → Session
after_query now query state s =
    let pending : Execution = record {
      query = query;
      params = [];
      params_incomplete = false;
      started_at = now;
      span = query_span (command_tag query);
    } in
    with_conn_state (with_cache s (set_pending [] pending s.stmt_cache)) state

handle_message-allowed :
    (settings : Settings) (now i : ℕ) (query : Bytes) (state : ConnectionState) (s : Session)
    → validate (pooling_mode settings.connection_pooling) query (is_in_transaction s.txn_tracker)
      ≡ gives allowed
    → apply_query query s.conn_state ≡ gives state
    → handle_message settings now i (query_msg query) s
      ≡ done (record { session = after_query now query state s; fate = forwarded })
unfolding handle_message accept_query
handle_message-allowed settings now i query state s ok st = rw (ok, st) refl

handle_message-refused :
    (settings : Settings) (now i : ℕ) (query err_msg : Bytes) (s : Session)
    → validate (pooling_mode settings.connection_pooling) query (is_in_transaction s.txn_tracker)
      ≡ gives (refused err_msg)
    → handle_message settings now i (query_msg query) s
      ≡ done (record { session = s; fate = refused_with (refusal err_msg s.txn_tracker) })
unfolding handle_message
handle_message-refused settings now i query err_msg s bad = rw bad refl

handle_messages-swallows :
    (settings : Settings) (now : ℕ) (query query' err_msg : Bytes) (rest : List Message)
    (state : ConnectionState) (s : Session)
    → validate (pooling_mode settings.connection_pooling) query (is_in_transaction s.txn_tracker)
      ≡ gives allowed
    → validate (pooling_mode settings.connection_pooling) query' (is_in_transaction s.txn_tracker)
      ≡ gives (refused err_msg)
    → apply_query query s.conn_state ≡ gives state
    → handle_messages settings now 0 (query_msg query ∷ query_msg query' ∷ rest) s
      ≡ done (record {
        session = after_query now query state s;
        fate = refused_with (refusal err_msg s.txn_tracker);
      })
unfolding handle_messages
handle_messages-swallows settings now query query' err_msg rest state s ok bad st =
    rw
      (
        handle_message-allowed settings now 0 query state s ok st,
        handle_message-refused settings now 1 query' err_msg (after_query now query state s) bad,
      )
      refl

armed :
    (settings : Settings) (now : ℕ) (s : Session)
    → 0 < settings.query_timeout_secs
    → s.query_deadline ≡ none
    → has_pending [] s.stmt_cache ≡ true
    → (arm_deadline settings now s).query_deadline
      ≡ some (now + settings.query_timeout_secs * 10 ^ 9)
unfolding arm_deadline
armed settings now s on idle pending = ground (arith, idle, pending)

pending_after :
    (now : ℕ) (query : Bytes) (state : ConnectionState) (s : Session)
    → has_pending [] (after_query now query state s).stmt_cache ≡ true
unfolding has_pending set_pending
pending_after now query state s = rw (contains_key-insert [] [] _ s.stmt_cache.pending) refl

-- Two queries in one chunk, of which the mode enforcer allows the first and refuses the second: nothing is sent to the
-- backend, the client gets one reply, for the second, and the first is on the books as if it were under way: its
-- state is applied to the connection's record, it is pending, and a deadline is set for it.
-- Conditions: they are the first two messages of the chunk, the detector answers for both, there is a query timeout, and no
-- deadline is set before.
pub on_client_chunk_swallows :
    (settings : Settings) (now : ℕ) (chunk buffer query query' err_msg : Bytes)
    (rest : List Message) (state : ConnectionState) (s : Session)
    → extract_messages s.frontend_buffer chunk
      ≡ returned (query_msg query ∷ query_msg query' ∷ rest) buffer
    → validate (pooling_mode settings.connection_pooling) query (is_in_transaction s.txn_tracker)
      ≡ gives allowed
    → validate (pooling_mode settings.connection_pooling) query' (is_in_transaction s.txn_tracker)
      ≡ gives (refused err_msg)
    → apply_query query s.conn_state ≡ gives state
    → 0 < settings.query_timeout_secs
    → s.query_deadline ≡ none
    → (t : Turn) × (on_client_chunk settings now chunk s ≡ done t)
      × (t.to_backend ≡ [])
      × (t.to_client ≡ refusal err_msg s.txn_tracker)
      × (t.session.conn_state ≡ state)
      × (has_pending [] t.session.stmt_cache ≡ true)
      × (t.session.query_deadline ≡ some (now + settings.query_timeout_secs * 10 ^ 9))
unfolding on_client_chunk conclude arm_deadline
on_client_chunk_swallows settings now chunk buffer query query' err_msg rest state s x ok bad st on
      idle =
    let s0 : Session = record s { frontend_buffer = buffer } in
    let step : Step = record {
      session = after_query now query state s0;
      fate = refused_with (refusal err_msg s.txn_tracker);
    } in
    (
      conclude settings now chunk step,
      ap (handle_extracted settings now chunk s) x
          ∙ ap (λ r. r >>= λ step. done (conclude settings now chunk step))
              (handle_messages-swallows settings now query query' err_msg rest state s0 ok bad st),
      refl,
      refl,
      refl,
      pending_after now query state s0,
      armed settings now step.session on idle (pending_after now query state s0),
    )
