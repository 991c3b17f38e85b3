-- ===== src/Proxy/ConnectionState.antt =====
-- scry-proxy/src/proxy/connection_state.rs: what a backend connection holds for its client, and when
-- it is pinned. Hash sets are lists without repetition; names are texts.
pub mod Pins
pub mod Prepared
pub mod Batches
pub mod Tests
use scry_proxy.Base.{
  ℕ, suc, Bool, true, false, not, ◌&&◌, ◌||◌, Option, none, some, List, [], ◌∷◌, ◌++◌, max, Bytes,
  bytes_key, int_key, ℤ, is_empty, if◌then◌else◌, contains_key, insert, remove, without, add,
}
use scry_proxy.Protocol.CommandDetector.{
  DetectedCommand, set_var, reset_var, reset_all, create_temp_table, drop_table, declare_cursor,
  close_cursor, advisory_lock, advisory_unlock, discard_all, deallocate, deallocate_all, listen_on,
  unlisten, notify, CommandClass, clean, stateful, unknown, Outcome, gives, panics, classify,
  split_statements,
}
use scry_proxy.Proxy.Lru.{evict}

pub data PinReason : Type 0 where
  prepared_statement session_variable temp_table cursor_pin advisory_lock_pin listen_pin
        unknown_command_pin :
      PinReason

pub is_unsafe : PinReason → Bool
is_unsafe prepared_statement = false
is_unsafe session_variable = false
is_unsafe temp_table = true
is_unsafe cursor_pin = true
is_unsafe advisory_lock_pin = true
is_unsafe listen_pin = true
is_unsafe unknown_command_pin = true

pub record ConnectionState : Type 0 where
  pub prepared_statements : List (Bytes × (Bytes × List ℕ))
  pub session_variables : List (Bytes × Bytes)
  pub temp_tables : List Bytes
  pub cursors : List Bytes
  pub advisory_locks : List ℤ
  pub listen_channels : List Bytes
  pub unknown_command : Bool
  pub max_prepared_statements : ℕ
  pub prepared_statements_lru : List Bytes

unfoldable pub new : ℕ → ConnectionState
new max_prepared_statements = record {
  prepared_statements = [];
  session_variables = [];
  temp_tables = [];
  cursors = [];
  advisory_locks = [];
  listen_channels = [];
  unknown_command = false;
  max_prepared_statements = max max_prepared_statements 1;
  prepared_statements_lru = [];
}

unfoldable pub is_pinned : ConnectionState → Bool
is_pinned s =
    (((((s.unknown_command || not (is_empty s.prepared_statements))
            || not (is_empty s.session_variables))
          || not (is_empty s.temp_tables))
        || not (is_empty s.cursors))
      || not (is_empty s.advisory_locks))
    || not (is_empty s.listen_channels)

pub has_unsafe_state : ConnectionState → Bool
has_unsafe_state s =
    (((s.unknown_command || not (is_empty s.temp_tables)) || not (is_empty s.cursors))
      || not (is_empty s.advisory_locks))
    || not (is_empty s.listen_channels)

abbrev reason_if : Bool → PinReason → List PinReason → List PinReason
reason_if true r rs = r ∷ rs
reason_if false r rs = rs

pub pin_reasons : ConnectionState → List PinReason
pin_reasons s = reason_if (not (is_empty s.prepared_statements)) prepared_statement (
    reason_if (not (is_empty s.session_variables)) session_variable (
      reason_if (not (is_empty s.temp_tables)) temp_table (
        reason_if (not (is_empty s.cursors)) cursor_pin (
          reason_if (not (is_empty s.advisory_locks)) advisory_lock_pin (
            reason_if (not (is_empty s.listen_channels)) listen_pin
              (reason_if s.unknown_command unknown_command_pin []))))))

pub mark_unknown_command : ConnectionState → ConnectionState
mark_unknown_command s = record s { unknown_command = true }

-- A name that is tracked is refreshed; for a new one the loop makes room first.
pub add_prepared_statement : Bytes → Bytes → List ℕ → ConnectionState → ConnectionState
add_prepared_statement name query param_oids s =
    let (kept, order) =
      if contains_key name s.prepared_statements
      then (s.prepared_statements, without name s.prepared_statements_lru)
      else evict s.max_prepared_statements s.prepared_statements s.prepared_statements_lru in
    record s {
      prepared_statements = insert name (query, param_oids) kept;
      prepared_statements_lru = order ++ name ∷ [];
    }

pub remove_prepared_statement : Bytes → ConnectionState → ConnectionState
remove_prepared_statement name s = record s {
  prepared_statements = remove name s.prepared_statements;
  prepared_statements_lru = without name s.prepared_statements_lru;
}

pub clear_prepared_statements : ConnectionState → ConnectionState
clear_prepared_statements s = record s { prepared_statements = []; prepared_statements_lru = [] }

pub add_session_variable : Bytes → Bytes → ConnectionState → ConnectionState
add_session_variable name value s = record s {
  session_variables = insert name value s.session_variables;
}

pub remove_session_variable : Bytes → ConnectionState → ConnectionState
remove_session_variable name s = record s { session_variables = remove name s.session_variables }

pub clear_session_variables : ConnectionState → ConnectionState
clear_session_variables s = record s { session_variables = [] }

pub add_temp_table : Bytes → ConnectionState → ConnectionState
add_temp_table name s = record s { temp_tables = add name s.temp_tables }

pub remove_temp_table : Bytes → ConnectionState → ConnectionState
remove_temp_table name s = record s { temp_tables = without name s.temp_tables }

pub add_cursor : Bytes → ConnectionState → ConnectionState
add_cursor name s = record s { cursors = add name s.cursors }

pub remove_cursor : Bytes → ConnectionState → ConnectionState
remove_cursor name s = record s { cursors = without name s.cursors }

pub add_advisory_lock : ℤ → ConnectionState → ConnectionState
add_advisory_lock key s = record s { advisory_locks = add key s.advisory_locks }

pub remove_advisory_lock : ℤ → ConnectionState → ConnectionState
remove_advisory_lock key s = record s { advisory_locks = without key s.advisory_locks }

pub add_listen_channel : Bytes → ConnectionState → ConnectionState
add_listen_channel channel s = record s { listen_channels = add channel s.listen_channels }

pub remove_listen_channel : Bytes → ConnectionState → ConnectionState
remove_listen_channel channel s = record s { listen_channels = without channel s.listen_channels }

pub clear_listen_channels : ConnectionState → ConnectionState
clear_listen_channels s = record s { listen_channels = [] }

pub clear_all : ConnectionState → ConnectionState
clear_all s = record s {
  prepared_statements = [];
  prepared_statements_lru = [];
  session_variables = [];
  temp_tables = [];
  cursors = [];
  advisory_locks = [];
  listen_channels = [];
  unknown_command = false;
}

-- The inner `match` of `apply_single_statement`.
pub apply_command : DetectedCommand → ConnectionState → ConnectionState
unfolding add_session_variable remove_session_variable clear_session_variables add_temp_table
    remove_temp_table add_cursor remove_cursor add_advisory_lock remove_advisory_lock
    add_listen_channel remove_listen_channel clear_listen_channels clear_all
    remove_prepared_statement clear_prepared_statements
apply_command (set_var name value) s = add_session_variable name value s
apply_command (reset_var name) s = remove_session_variable name s
apply_command reset_all s = clear_session_variables s
apply_command (create_temp_table name) s = add_temp_table name s
apply_command (drop_table name) s = remove_temp_table name s
apply_command (declare_cursor name with_hold) s = add_cursor name s
apply_command (close_cursor name) s = remove_cursor name s
apply_command (advisory_lock (some key)) s = add_advisory_lock key s
apply_command (advisory_lock none) s = s
apply_command (advisory_unlock (some key)) s = remove_advisory_lock key s
apply_command (advisory_unlock none) s = s
apply_command discard_all s = clear_all s
apply_command (deallocate name) s = remove_prepared_statement name s
apply_command deallocate_all s = clear_prepared_statements s
apply_command (listen_on channel) s = add_listen_channel channel s
apply_command (unlisten (some name)) s = remove_listen_channel name s
apply_command (unlisten none) s = clear_listen_channels s
apply_command (notify channel payload) s = s

pub apply_class : CommandClass → ConnectionState → ConnectionState
unfolding mark_unknown_command apply_command
apply_class clean s = s
apply_class unknown s = mark_unknown_command s
apply_class (stateful cmd) s = apply_command cmd s

abbrev pub with_class : ConnectionState → Outcome CommandClass → Outcome ConnectionState
with_class s (gives c) = gives (apply_class c s)
with_class s panics = panics

pub apply_single_statement : Bytes → ConnectionState → Outcome ConnectionState
apply_single_statement query s = with_class s (classify query)

abbrev pub and_then :
    Outcome ConnectionState → (ConnectionState → Outcome ConnectionState) → Outcome ConnectionState
and_then (gives s) f = f s
and_then panics f = panics

pub apply_statements : List Bytes → ConnectionState → Outcome ConnectionState
unfolding apply_single_statement
apply_statements [] s = gives s
apply_statements (q ∷ qs) s = and_then (apply_single_statement q s) (apply_statements qs)

-- With no statement in it, the text itself is classified.
pub apply_query : Bytes → ConnectionState → Outcome ConnectionState
unfolding apply_statements
apply_query query s = elim (split_statements query) [
  | [] ↦ apply_single_statement query s
  | q ∷ qs ↦ apply_statements (q ∷ qs) s
]
