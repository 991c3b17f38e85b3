-- ===== src/Proxy/ConnectionState/Prepared/Tracking.antt =====
-- What a statement that is prepared in scry-proxy/src/proxy/connection_state.rs leaves of the others.
use scry_proxy.Base.{
  ℕ, ◌≤◌, ◌≡◌, ap, true, false, none, some, List, arith, length, Bytes, bytes_key, int_key,
  insert-ne-nil, contains_key, without, has, ltb, if◌then◌else◌, lookup, lookup-insert, bytes_eq,
  bytes_eq_iff, ◌⊎◌, Bool-cases, inl, inr,
}
use scry_proxy.Proxy.Lru.{evict, Synced, evict-Synced, lookup-evict, evict_room}
use scry_proxy.Proxy.ConnectionState.{ConnectionState, is_pinned, add_prepared_statement}
use scry_proxy.Proxy.ConnectionState.Prepared.{IsValid}

-- The loop keeps an entry, or removes it when there was no room.
evict_keeps :
    (n : ℕ) (j : Bytes) (m : List (Bytes × (Bytes × List ℕ))) (order : List Bytes)
    → Synced m order
    → (lookup j (evict n m order).0 ≡ lookup j m)
      ⊎ (lookup j (evict n m order).0 ≡ none) × (n ≤ length m)
evict_keeps n j m order s =
    let kept = evict-Synced n m order s in
    elim (Bool-cases (ltb (length m) n)) [
      | inl room ↦ inl (ap (λ r. lookup j r.0) (evict_room n m order (ground (arith, room))))
      | inr full ↦ elim (Bool-cases (has j (evict n m order).1)) [
        | inl there ↦ inl (lookup-evict n j m order s there)
        | inr gone ↦ inr (ground (arith, kept.same_keys j, gone), ground (arith, full))
      ]
    ]

abbrev pub KeptOrEvicted : ConnectionState → ConnectionState → Bytes → Type 0
KeptOrEvicted s s' j =
    (lookup j s'.prepared_statements ≡ lookup j s.prepared_statements)
    ⊎ (lookup j s'.prepared_statements ≡ none)
      × (s.max_prepared_statements ≤ length s.prepared_statements)

add_prepared_statement_keeps :
    (name query j : Bytes) (oids : List ℕ) (s : ConnectionState)
    → IsValid s
    → bytes_eq name j ≡ false
    → KeptOrEvicted s (add_prepared_statement name query oids s) j
unfolding add_prepared_statement
add_prepared_statement_keeps name query j oids s v other =
    let m = s.prepared_statements in
    elim (Bool-cases (contains_key name m)) [
      | inl old ↦ rw old (inl (ground (arith, lookup-insert name j (query, oids) m, other)))
      | inr fresh ↦
          let (kept, order) = evict s.max_prepared_statements m s.prepared_statements_lru in
          let same = lookup-insert name j (query, oids) kept in
          rw (fresh, same, other)
            (evict_keeps s.max_prepared_statements j m s.prepared_statements_lru v.synced)
    ]

-- A statement that is prepared is tracked and pins the connection, and each other statement is tracked as
-- before, or is evicted because `max_prepared_statements` were tracked.
pub add_prepared_statement_tracks :
    (name query other : Bytes) (oids : List ℕ) (s : ConnectionState)
    → IsValid s
    → bytes_eq name other ≡ false
    → let s' = add_prepared_statement name query oids s in
      (lookup name s'.prepared_statements ≡ some (query, oids))
      × (is_pinned s' ≡ true)
      × KeptOrEvicted s s' other
unfolding add_prepared_statement is_pinned
add_prepared_statement_tracks name query other oids s v differs =
    let kept =
      (if contains_key name s.prepared_statements
        then (s.prepared_statements, without name s.prepared_statements_lru)
        else evict s.max_prepared_statements s.prepared_statements s.prepared_statements_lru).0 in
    (
      ground (arith, lookup-insert name name (query, oids) kept, bytes_eq_iff name name),
      ground (arith, insert-ne-nil name (query, oids) kept),
      add_prepared_statement_keeps name query other oids s v differs,
    )
