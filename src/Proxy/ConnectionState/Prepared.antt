-- ===== src/Proxy/ConnectionState/Prepared.antt =====
-- The prepared statements that scry-proxy/src/proxy/connection_state.rs keeps for a connection: the bound and the
-- order of use, under all calls.
pub mod Tracking
use scry_proxy.Base.{
  ℕ, ◌≤◌, ◌≡◌, refl, ap, true, false, none, some, List, [], ◌∷◌, ◌++◌, arith, length, Bytes,
  bytes_key, int_key, insert, insert-ne-nil, contains_key, without, has, ltb, if◌then◌else◌,
  length-insert, length-remove-le, lookup, lookup-insert, bytes_eq, bytes_eq_iff, ◌⊎◌, Bool-cases,
  inl, inr,
}
use scry_proxy.Protocol.CommandDetector.{
  DetectedCommand, set_var, reset_var, reset_all, create_temp_table, drop_table, declare_cursor,
  close_cursor, advisory_lock, advisory_unlock, discard_all, deallocate, deallocate_all, listen_on,
  unlisten, notify, CommandClass, clean, stateful, unknown, Outcome, gives, panics, classify,
  split_statements,
}
use scry_proxy.Proxy.Lru.{
  evict, Synced, evict-Synced, evict_bound, Synced-insert, Synced-refresh, Synced-remove,
  lookup-evict, has-evict, evict_room,
}
use scry_proxy.Proxy.ConnectionState.{
  ConnectionState, new, is_pinned, add_prepared_statement, remove_prepared_statement,
  clear_prepared_statements, apply_command, apply_class, mark_unknown_command,
  apply_single_statement, apply_statements, apply_query, clear_all, with_class, and_then,
}

-- The map and the queue hold the same names, and no more than the configured number of them.
pub record IsValid (s : ConnectionState) : Type 0 where
  pub synced : Synced s.prepared_statements s.prepared_statements_lru
  pub bound : length s.prepared_statements ≤ s.max_prepared_statements
  pub room : 1 ≤ s.max_prepared_statements

pub data Call : Type 0 where
  query_text : Bytes → Call
  parsed : (name query : Bytes) (param_oids : List ℕ) → Call
  closed : (name : Bytes) → Call
  reset : Call

pub call : Call → ConnectionState → Outcome ConnectionState
unfolding apply_query add_prepared_statement remove_prepared_statement clear_all
call (query_text q) s = apply_query q s
call (parsed name query oids) s = gives (add_prepared_statement name query oids s)
call (closed name) s = gives (remove_prepared_statement name s)
call reset s = gives (clear_all s)

no_statements : (k : ℕ) → Synced {K = Bytes} {V = Bytes × List ℕ} [] []
no_statements k = record {
  distinct_keys = tt;
  distinct_order = tt;
  same_keys = λ k. refl;
  same_length = refl;
}

pub new-IsValid : (n : ℕ) → IsValid (new n)
unfolding new
new-IsValid n = record { synced = no_statements 0; bound = omega arith; room = ground arith }

-- A new name, inserted after the loop has made room.
add_new :
    (name : Bytes) (info : Bytes × List ℕ) (m : List (Bytes × (Bytes × List ℕ)))
    (order : List Bytes) (n : ℕ)
    → contains_key name m ≡ false
    → Synced m order
    → 1 ≤ n
    → let (kept, order') = evict n m order in
      Synced (insert name info kept) (order' ++ name ∷ []) × (length (insert name info kept) ≤ n)
add_new name info m order n fresh s one =
    let s' = evict-Synced n m order s in
    let gone : contains_key name (evict n m order).0 ≡ false =
      ground (arith, has-evict n name m order, s.same_keys name, s'.same_keys name) in
    (
      Synced-insert name info (evict n m order).0 (evict n m order).1 gone s',
      ground
          (arith, length-insert name info (evict n m order).0, evict_bound n m order s, gone, one),
    )

add_prepared_statement-IsValid :
    (name query : Bytes) (oids : List ℕ) (s : ConnectionState)
    → IsValid s
    → IsValid (add_prepared_statement name query oids s)
unfolding add_prepared_statement
add_prepared_statement-IsValid name query oids s v =
    elim (Bool-cases (contains_key name s.prepared_statements)) [
      | inl old ↦ rw old (record {
        synced =
            Synced-refresh name (query, oids) s.prepared_statements s.prepared_statements_lru old
              v.synced;
        bound =
            ground (arith, length-insert name (query, oids) s.prepared_statements, old, v.bound);
        room = v.room;
      })
      | inr fresh ↦
          let (synced, bound) =
            add_new name (query, oids) s.prepared_statements s.prepared_statements_lru
              s.max_prepared_statements fresh v.synced v.room in
          rw fresh (record { synced = synced; bound = bound; room = v.room })
    ]

remove_prepared_statement-IsValid :
    (name : Bytes) (s : ConnectionState) → IsValid s → IsValid (remove_prepared_statement name s)
unfolding remove_prepared_statement
remove_prepared_statement-IsValid name s v = record {
  synced = Synced-remove name s.prepared_statements s.prepared_statements_lru v.synced;
  bound = omega (arith, length-remove-le name s.prepared_statements, v.bound);
  room = v.room;
}

clear_all-IsValid : (s : ConnectionState) → IsValid s → IsValid (clear_all s)
unfolding clear_all
clear_all-IsValid s v = record { synced = no_statements 0; bound = omega arith; room = v.room }

clear_prepared_statements-IsValid :
    (s : ConnectionState) → IsValid s → IsValid (clear_prepared_statements s)
unfolding clear_prepared_statements
clear_prepared_statements-IsValid s v = record {
  synced = no_statements 0;
  bound = omega arith;
  room = v.room;
}

apply_command-IsValid :
    (c : DetectedCommand) (s : ConnectionState) → IsValid s → IsValid (apply_command c s)
unfolding apply_command
apply_command-IsValid (set_var n x) s v = record {
  synced = v.synced;
  bound = v.bound;
  room = v.room;
}
apply_command-IsValid (reset_var n) s v = record {
  synced = v.synced;
  bound = v.bound;
  room = v.room;
}
apply_command-IsValid reset_all s v = record { synced = v.synced; bound = v.bound; room = v.room }
apply_command-IsValid (create_temp_table n) s v = record {
  synced = v.synced;
  bound = v.bound;
  room = v.room;
}
apply_command-IsValid (drop_table n) s v = record {
  synced = v.synced;
  bound = v.bound;
  room = v.room;
}
apply_command-IsValid (declare_cursor n h) s v = record {
  synced = v.synced;
  bound = v.bound;
  room = v.room;
}
apply_command-IsValid (close_cursor n) s v = record {
  synced = v.synced;
  bound = v.bound;
  room = v.room;
}
apply_command-IsValid (advisory_lock (some k)) s v = record {
  synced = v.synced;
  bound = v.bound;
  room = v.room;
}
apply_command-IsValid (advisory_unlock (some k)) s v = record {
  synced = v.synced;
  bound = v.bound;
  room = v.room;
}
apply_command-IsValid (listen_on ch) s v = record {
  synced = v.synced;
  bound = v.bound;
  room = v.room;
}
apply_command-IsValid (unlisten (some n)) s v = record {
  synced = v.synced;
  bound = v.bound;
  room = v.room;
}
apply_command-IsValid (unlisten none) s v = record {
  synced = v.synced;
  bound = v.bound;
  room = v.room;
}
apply_command-IsValid (advisory_lock none) s v = v
apply_command-IsValid (advisory_unlock none) s v = v
apply_command-IsValid (notify ch p) s v = v
apply_command-IsValid discard_all s v = clear_all-IsValid s v
apply_command-IsValid (deallocate name) s v = remove_prepared_statement-IsValid name s v
apply_command-IsValid deallocate_all s v = clear_prepared_statements-IsValid s v

-- What a call ends with is valid, unless it panics.
abbrev pub Holds : (ConnectionState → Type 0) → Outcome ConnectionState → Type 0
Holds P (gives s) = P s
Holds P panics = Unit

with_class-IsValid :
    (s : ConnectionState) (o : Outcome CommandClass) → IsValid s → Holds IsValid (with_class s o)
unfolding apply_class mark_unknown_command
with_class-IsValid s (gives clean) v = v
with_class-IsValid s (gives unknown) v = record {
  synced = v.synced;
  bound = v.bound;
  room = v.room;
}
with_class-IsValid s (gives (stateful c)) v = apply_command-IsValid c s v
with_class-IsValid s panics v = tt

and_then-IsValid :
    (o : Outcome ConnectionState) (f : ConnectionState → Outcome ConnectionState)
    → Holds IsValid o
    → ((s : ConnectionState) → IsValid s → Holds IsValid (f s))
    → Holds IsValid (and_then o f)
and_then-IsValid (gives s) f h g = g s h
and_then-IsValid panics f h g = tt

apply_statements-IsValid :
    (qs : List Bytes) (s : ConnectionState) → IsValid s → Holds IsValid (apply_statements qs s)
unfolding apply_statements apply_single_statement
apply_statements-IsValid [] s v = v
apply_statements-IsValid (q ∷ qs) s v =
    and_then-IsValid (with_class s (classify q)) (apply_statements qs)
      (with_class-IsValid s (classify q) v) (apply_statements-IsValid qs)

apply_query-IsValid :
    (q : Bytes) (s : ConnectionState) → IsValid s → Holds IsValid (apply_query q s)
unfolding apply_query apply_single_statement
apply_query-IsValid q s v =
    elim (split_statements q)
      as (λ qs.
        Holds IsValid
          (elim qs [ [] ↦ apply_single_statement q s | p ∷ ps ↦ apply_statements (p ∷ ps) s ])) [
            | [] ↦ with_class-IsValid s (classify q) v
            | p ∷ ps ↦ apply_statements-IsValid (p ∷ ps) s v
          ]

-- After every call on a valid connection state that does not panic, the recency queue holds the names of the prepared statements, each
-- once, and there are at most `max_prepared_statements` of them, which is at least one.
pub call-IsValid : (c : Call) (s : ConnectionState) → IsValid s → Holds IsValid (call c s)
unfolding call
call-IsValid (query_text q) s v = apply_query-IsValid q s v
call-IsValid (parsed name query oids) s v = add_prepared_statement-IsValid name query oids s v
call-IsValid (closed name) s v = remove_prepared_statement-IsValid name s v
call-IsValid reset s v = clear_all-IsValid s v
