-- ===== src/Proxy/ConnectionState/Pins.antt =====
-- When a connection is pinned: what scry-proxy/src/proxy/connection_state.rs answers after each command and
-- after a batch of statements.
use scry_proxy.Base.{
  ℕ, ◌≡◌, refl, ap, sym, ◌∙◌, Bool, true, false, not, ◌||◌, Option, none, some, List, [], ◌∷◌, ◌++◌,
  arith, is_empty, Bytes, bytes_key, int_key, insert, insert-ne-nil, add, without, remove,
  contains_key, if◌then◌else◌,
}
use scry_proxy.Proxy.Lru.{evict}
use scry_proxy.Protocol.CommandDetector.{
  DetectedCommand, set_var, reset_var, reset_all, create_temp_table, drop_table, declare_cursor,
  close_cursor, advisory_lock, advisory_unlock, discard_all, deallocate, deallocate_all, listen_on,
  unlisten, notify, CommandClass, clean, stateful, unknown, Outcome, gives,
}
use scry_proxy.Proxy.ConnectionState.{
  PinReason, is_unsafe, ConnectionState, is_pinned, has_unsafe_state, pin_reasons, apply_command,
  apply_class, mark_unknown_command, add_prepared_statement,
}

abbrev pub any_unsafe : List PinReason → Bool
any_unsafe [] = false
any_unsafe (r ∷ rs) = is_unsafe r || any_unsafe rs

-- A connection is pinned exactly if it has a pin reason, and has unsafe state exactly if one of its pin
-- reasons is unsafe.
pub is_pinned-pin_reasons :
    (s : ConnectionState)
    → (is_pinned s ≡ not (is_empty (pin_reasons s)))
      × (has_unsafe_state s ≡ any_unsafe (pin_reasons s))
unfolding is_pinned pin_reasons has_unsafe_state is_unsafe
is_pinned-pin_reasons s = ground arith

-- The classes that leave something behind on a session that had nothing.
abbrev pub leaves_state : CommandClass → Bool
leaves_state clean = false
leaves_state unknown = true
leaves_state (stateful (set_var name value)) = true
leaves_state (stateful (create_temp_table name)) = true
leaves_state (stateful (declare_cursor name with_hold)) = true
leaves_state (stateful (advisory_lock (some key))) = true
leaves_state (stateful (listen_on channel)) = true
leaves_state (stateful other) = false

pub add_ne_nil :
    {K : Type 0} ⦃e : scry_proxy.Base.Eq K⦄ → (k : K) (xs : List K) → is_empty (add k xs) ≡ false
add_ne_nil k [] = refl
add_ne_nil k (x ∷ xs) = ground arith

is_pinned-unknown : (s : ConnectionState) → is_pinned (mark_unknown_command s) ≡ true
unfolding is_pinned mark_unknown_command
is_pinned-unknown s = refl

prepared-is_pinned : (s : ConnectionState) → (s.prepared_statements ≡ [] → ⊥) → is_pinned s ≡ true
unfolding is_pinned
prepared-is_pinned s h = ground arith

add_prepared_statement-ne-nil :
    (name query : Bytes) (oids : List ℕ) (s : ConnectionState)
    → (add_prepared_statement name query oids s).prepared_statements ≡ []
    → ⊥
unfolding add_prepared_statement
add_prepared_statement-ne-nil name query oids s =
    insert-ne-nil name (query, oids)
      (if contains_key name s.prepared_statements
        then (s.prepared_statements, without name s.prepared_statements_lru)
        else evict s.max_prepared_statements s.prepared_statements s.prepared_statements_lru).0

-- A prepared statement pins, whatever else is there and whatever leaves to make room.
pub add_prepared_statement-is_pinned :
    (name query : Bytes) (oids : List ℕ) (s : ConnectionState)
    → is_pinned (add_prepared_statement name query oids s) ≡ true
add_prepared_statement-is_pinned name query oids s =
    prepared-is_pinned (add_prepared_statement name query oids s)
      (add_prepared_statement-ne-nil name query oids s)

abbrev IsFree : ConnectionState → Type 0
IsFree s =
    ((s.unknown_command ≡ false)
      × (s.prepared_statements ≡ [])
      × (s.session_variables ≡ [])
      × (s.temp_tables ≡ []))
    × (s.cursors ≡ [])
    × (s.advisory_locks ≡ [])
    × (s.listen_channels ≡ [])

is_pinned-IsFree : (s : ConnectionState) → is_pinned s ≡ false → IsFree s
unfolding is_pinned
is_pinned-IsFree s h = ground arith

apply_command_pins :
    (c : DetectedCommand) (s : ConnectionState)
    → IsFree s
    → is_pinned (apply_command c s) ≡ leaves_state (stateful c)
unfolding is_pinned apply_command
apply_command_pins (set_var n v) s f = ground arith
apply_command_pins (reset_var n) s f = ground arith
apply_command_pins reset_all s f = ground arith
apply_command_pins (create_temp_table n) s f = ground arith
apply_command_pins (drop_table n) s f = ground arith
apply_command_pins (declare_cursor n h) s f = ground arith
apply_command_pins (close_cursor n) s f = ground arith
apply_command_pins (advisory_lock (some k)) s f = ground arith
apply_command_pins (advisory_lock none) s f = ground arith
apply_command_pins (advisory_unlock (some k)) s f = ground arith
apply_command_pins (advisory_unlock none) s f = ground arith
apply_command_pins discard_all s f = ground arith
apply_command_pins (deallocate n) s f = ground arith
apply_command_pins deallocate_all s f = ground arith
apply_command_pins (listen_on ch) s f = ground arith
apply_command_pins (unlisten (some n)) s f = ground arith
apply_command_pins (unlisten none) s f = ground arith
apply_command_pins (notify ch p) s f = ground arith

-- Whether a connection without state is pinned by a statement depends on the class of the statement alone.
pub apply_class_pins :
    (c : CommandClass) (s : ConnectionState)
    → is_pinned s ≡ false
    → is_pinned (apply_class c s) ≡ leaves_state c
unfolding apply_class mark_unknown_command
apply_class_pins clean s free = free
apply_class_pins unknown s free = is_pinned-unknown s
apply_class_pins (stateful c) s free = apply_command_pins c s (is_pinned-IsFree s free)

abbrev pub discards : Outcome CommandClass → Bool
discards (gives (stateful discard_all)) = true
discards other = false
