-- ===== src/Proxy/ModeEnforcer.antt =====
-- scry-proxy/src/proxy/mode_enforcer.rs: which statements a pooling mode allows, and the ErrorResponse that a client
-- gets for the others.
pub mod Replies
use scry_proxy.Base.{
  ℕ, ◌+◌, Bool, true, false, Option, none, some, List, [], ◌∷◌, ◌++◌, Bytes, codes, length,
  if◌then◌else◌,
}
use scry_proxy.Protocol.Wire.{be32_bytes}
use scry_proxy.Protocol.CommandDetector.{
  DetectedCommand, set_var, create_temp_table, declare_cursor, advisory_lock, Outcome, gives,
  outcome_map, detect,
}

pub data PoolingMode : Type 0 where
  session transaction hybrid : PoolingMode

-- `Ok(())`, or `Err` with its message.
pub data Verdict : Type 0 where
  allowed : Verdict
  refused : Bytes → Verdict

abbrev pub no_session_variables : Bytes
no_session_variables = codes "session variables not supported in transaction pooling mode"

abbrev pub no_temp_tables : Bytes
no_temp_tables = codes "temporary tables not supported in transaction pooling mode"

abbrev pub no_held_cursors : Bytes
no_held_cursors = codes "cursors WITH HOLD not supported in transaction pooling mode"

abbrev pub no_advisory_locks : Bytes
no_advisory_locks = codes "advisory locks not supported in transaction pooling mode"

-- The `match` on what was detected.
abbrev pub verdict : Bool → Option DetectedCommand → Verdict
verdict in_transaction (some (set_var name value)) =
    if in_transaction then allowed else refused no_session_variables
verdict in_transaction (some (create_temp_table name)) = refused no_temp_tables
verdict in_transaction (some (declare_cursor name true)) = refused no_held_cursors
verdict in_transaction (some (advisory_lock key)) = refused no_advisory_locks
verdict in_transaction _ = allowed

unfoldable pub validate : PoolingMode → Bytes → Bool → Outcome Verdict
validate session sql in_transaction = gives allowed
validate hybrid sql in_transaction = gives allowed
validate transaction sql in_transaction = outcome_map (verdict in_transaction) (detect sql)

-- The severity, the SQLSTATE and the message, each with its type byte and a zero byte behind it.
abbrev pub response_fields : Bytes → Bytes
response_fields message =
    b'S' ∷ (codes "ERROR" ++ 0 ∷ b'C' ∷ (codes "0A000" ++ 0 ∷ b'M' ∷ (message ++ 0 ∷ 0 ∷ [])))

pub build_error_response : Bytes → Bytes
build_error_response message =
    let fields = response_fields message in b'E' ∷ (be32_bytes (length fields + 4) ++ fields)
