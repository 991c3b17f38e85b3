-- ===== src/Proxy/Connection.antt =====
-- scry-proxy/src/proxy/connection.rs: the handler of one client connection, in parts. Here are its decisions: what a
-- pooling strategy means, when a connection goes back to the pool, and which Terminate is kept from the backend.
pub mod Events
pub mod Replies
pub mod Session
pub mod Client
pub mod Backend
use scry_proxy.Base.{
  ℕ, Bool, true, false, not, ◌||◌, Option, none, some, List, [], ◌∷◌, Bytes, codes, drop, length,
  is_empty, is_space, trim_start, to_uppercase, starts_with, ◌==◌, if◌then◌else◌,
}
use scry_proxy.Protocol.CommandDetector.{Outcome, outcome_map}
use scry_proxy.Proxy.Transaction.{TransactionState, idle, in_transaction, in_error}
use scry_proxy.Proxy.ConnectionState.{
  ConnectionState, is_pinned, apply_query, add_prepared_statement,
}
use scry_proxy.Proxy.ModeEnforcer.{PoolingMode}
use scry_proxy.Proxy.ModeEnforcer

-- config/mod.rs
pub data PoolingStrategy : Type 0 where
  disabled session transaction hybrid : PoolingStrategy

unfoldable pub pooling_mode : PoolingStrategy → PoolingMode
pooling_mode disabled = ModeEnforcer.session
pooling_mode session = ModeEnforcer.session
pooling_mode transaction = ModeEnforcer.transaction
pooling_mode hybrid = ModeEnforcer.hybrid

unfoldable pub should_release_connection : PoolingStrategy → ConnectionState → Bool
should_release_connection disabled conn_state = false
should_release_connection session conn_state = false
should_release_connection transaction conn_state = not (is_pinned conn_state)
should_release_connection hybrid conn_state = not (is_pinned conn_state)

unfoldable pub should_intercept_terminate : ℕ → Bool
should_intercept_terminate message_index = message_index == 0

unfoldable pub apply_parse_state :
    Bytes → Bytes → List ℕ → ConnectionState → Outcome ConnectionState
apply_parse_state name query param_oids conn_state =
    outcome_map (add_prepared_statement name query param_oids) (apply_query query conn_state)

abbrev pub status_byte : TransactionState → ℕ
status_byte idle = b'I'
status_byte in_transaction = b'T'
status_byte in_error = b'E'

unfoldable pub build_ready_for_query : TransactionState → Bytes
build_ready_for_query state = b'Z' ∷ 0 ∷ 0 ∷ 0 ∷ 5 ∷ status_byte state ∷ []

-- `KEYWORDS`, in the order in which they are tried.
abbrev pub keywords : List Bytes
keywords =
    codes "SELECT"
    ∷ codes "INSERT"
    ∷ codes "UPDATE"
    ∷ codes "DELETE"
    ∷ codes "WITH"
    ∷ codes "VALUES"
    ∷ codes "TABLE"
    ∷ codes "BEGIN"
    ∷ codes "START"
    ∷ codes "COMMIT"
    ∷ codes "ROLLBACK"
    ∷ codes "SAVEPOINT"
    ∷ codes "RELEASE"
    ∷ codes "SET"
    ∷ codes "SHOW"
    ∷ codes "EXPLAIN"
    ∷ codes "CREATE"
    ∷ codes "DROP"
    ∷ codes "ALTER"
    ∷ codes "DECLARE"
    ∷ codes "CLOSE"
    ∷ codes "DEALLOCATE"
    ∷ codes "LISTEN"
    ∷ codes "UNLISTEN"
    ∷ codes "NOTIFY"
    ∷ []

abbrev pub ends_keyword : Bytes → Bool
ends_keyword [] = true
ends_keyword (c ∷ rest) = (is_space c || c == b'(') || c == b';'

-- The loop over the keywords.
unfoldable pub first_keyword : List Bytes → Bytes → Bytes
first_keyword [] upper = codes "OTHER"
first_keyword (kw ∷ kws) upper =
    if starts_with kw upper
    then if ends_keyword (drop (length kw) upper) then kw else first_keyword kws upper
    else first_keyword kws upper

unfoldable pub command_tag : Bytes → Bytes
unfolding first_keyword trim_start to_uppercase starts_with
command_tag sql = first_keyword keywords (to_uppercase (trim_start sql))
