-- ===== src/Proxy/PoolManager/Sticky.antt =====
-- Sticky bindings of scry-proxy/src/proxy/pool_manager.rs: a client gets its own connection back, and the calls of
-- another client do not touch it.
use scry_proxy.Base.{
  ℕ, ◌≡◌, refl, ap, sym, ◌∙◌, Bool, true, not, Option, none, some, List, [], arith, nat_eq, lookup,
  remove, insert, lookup-insert, lookup-remove, Option-cases, inl, inr, if◌then◌else◌, if-holds,
}
use scry_proxy.Proxy.ConnectionState.{PinReason}
use scry_proxy.Proxy.WaitQueue.{WaitQueue, enqueue}
use scry_proxy.Proxy.PoolManager.{
  StickyConnectionInfo, ManagedConnection, PoolManager, Backends, Acquired, connected, acquire,
  release, pin, unpin, get_sticky_connection, keep_pinned, pin_held, pin_option, release_held,
  bind_sticky, from_pool, or_pool, start_wait, taken, failed, notify, paused,
}

module _ {P C : Type 0} (pools : Backends P C) where
  -- A client that is bound gets its connection, with the pool untouched.
  abbrev pub binding : ℕ → PoolManager P C → Option (C × StickyConnectionInfo)
  binding client_id m = lookup client_id m.sticky_map

  acquire_bound :
      (client_id : ℕ) (m : PoolManager P C) (c : C) (info : StickyConnectionInfo)
      → m.accepting ≡ true
      → binding client_id m ≡ some (c, info)
      → acquire pools client_id true m ≡ (
        record m { sticky_map = remove client_id m.sticky_map },
        connected (taken client_id (c, info)),
      )
  unfolding acquire get_sticky_connection
  acquire_bound client_id m c info open' found =
      let r = or_pool pools client_id (get_sticky_connection client_id m) in
      let opened : acquire pools client_id true m ≡ r =
        ap (λ b. if not b then (m, failed paused) else r) open' in
      opened ∙ rw (get_sticky_connection, found) refl

  release_absent :
      (now client_id : ℕ) (entry : C × StickyConnectionInfo) (m : PoolManager P C)
      → binding client_id m ≡ none
      → release pools now (taken client_id entry) m
        ≡ notify (bind_sticky now client_id [] entry.0 m)
  unfolding release keep_pinned
  release_absent now client_id (c, info) m absent = rw (keep_pinned, absent) refl

  -- A client that is bound and asks for its sticky connection gets it, marked as pinned, with the pool untouched; and
  -- when it releases it, it is bound to it again. But the reasons of the pin are gone then, and the binding has a new
  -- number.
  pub release-acquire :
      (now client_id : ℕ) (m : PoolManager P C) (c : C) (info : StickyConnectionInfo)
      → m.accepting ≡ true
      → binding client_id m ≡ some (c, info)
      → let (m1, r) = acquire pools client_id true m in
        let m2 = release pools now (taken client_id (c, info)) m1 in
        (r ≡ connected (taken client_id (c, info)))
        × (m1.pool ≡ m.pool)
        × (binding client_id m1 ≡ none)
        × (m2.pool ≡ m.pool)
        × (binding client_id m2
            ≡ some
                (c, record { pin_reasons = []; last_used = now; binding_id = m.next_binding_id }))
  release-acquire now client_id m c info open' found =
      let e = acquire_bound client_id m c info open' found in
      let gone : PoolManager P C = record m { sticky_map = remove client_id m.sticky_map } in
      let absent : binding client_id gone ≡ none =
        ground (arith, lookup-remove client_id client_id m.sticky_map) in
      let entry : StickyConnectionInfo = record {
        pin_reasons = [];
        last_used = now;
        binding_id = m.next_binding_id;
      } in
      let back =
        ap (release pools now (taken client_id (c, info))) (ap (λ r. r.0) e)
        ∙ release_absent now client_id (c, info) gone absent in
      (
        ap (λ r. r.1) e,
        ap (λ (r : PoolManager P C × Acquired C). r.0.pool) e,
        ap (λ (r : PoolManager P C × Acquired C). binding client_id r.0) e ∙ absent,
        ap (λ (q : PoolManager P C). q.pool) back,
        ap (binding client_id) back
            ∙ ground (arith, lookup-insert client_id client_id (c, entry) gone.sticky_map),
      )

  -- What every call keeps for a client: the book entry is as before.
  abbrev pub Keeps : ℕ → PoolManager P C → PoolManager P C → Type 0
  Keeps other m m' = binding other m' ≡ binding other m

  insert_keeps :
      (client_id other : ℕ) (entry : C × StickyConnectionInfo)
      (sticky_map : List (ℕ × (C × StickyConnectionInfo)))
      → ¬ (client_id ≡ other)
      → lookup other (insert client_id entry sticky_map) ≡ lookup other sticky_map
  insert_keeps client_id other entry sticky_map different =
      ground (arith, lookup-insert client_id other entry sticky_map)

  remove_keeps :
      (client_id other : ℕ) (sticky_map : List (ℕ × (C × StickyConnectionInfo)))
      → ¬ (client_id ≡ other)
      → lookup other (remove client_id sticky_map) ≡ lookup other sticky_map
  remove_keeps client_id other sticky_map different =
      ground (arith, lookup-remove client_id other sticky_map)

  start_wait-Keeps :
      (other : ℕ) (m : PoolManager P C) (r : WaitQueue × Option ℕ)
      → Keeps other m (start_wait m r).0
  start_wait-Keeps other m (q, none) = refl
  start_wait-Keeps other m (q, some channel) = refl

  from_pool-Keeps :
      (client_id other : ℕ) (m : PoolManager P C) (r : P × Option C)
      → Keeps other m (from_pool client_id m r).0
  from_pool-Keeps client_id other m (p, some c) = refl
  from_pool-Keeps client_id other m (p, none) =
      start_wait-Keeps other (record m { pool = p }) (enqueue m.wait_queue)

  or_pool-Keeps :
      (client_id other : ℕ) (m : PoolManager P C)
      → ¬ (client_id ≡ other)
      → Keeps other m (or_pool pools client_id (get_sticky_connection client_id m)).0
  unfolding get_sticky_connection
  or_pool-Keeps client_id other m different = elim (Option-cases (lookup client_id m.sticky_map)) [
    | inl absent ↦
        rw (get_sticky_connection, absent) (from_pool-Keeps client_id other m (pools.get m.pool))
    | inr (entry, found) ↦
        rw (get_sticky_connection, found) (remove_keeps client_id other m.sticky_map different)
  ]

  acquire-Keeps :
      (client_id other : ℕ) (needs_sticky : Bool) (m : PoolManager P C)
      → ¬ (client_id ≡ other)
      → Keeps other m (acquire pools client_id needs_sticky m).0
  unfolding acquire
  acquire-Keeps client_id other needs_sticky m different =
      let Kept = λ (r : PoolManager P C × Acquired C). Keeps other m r.0 in
      if-holds Kept (not m.accepting) refl (
        if-holds Kept needs_sticky (or_pool-Keeps client_id other m different)
          (from_pool-Keeps client_id other m (pools.get m.pool)))

  -- An update of one client's entry, or the making of one.
  keep_pinned-Keeps :
      (now client_id other : ℕ) (c : C) (m : PoolManager P C)
      → ¬ (client_id ≡ other)
      → Keeps other m (keep_pinned pools now client_id c m)
  unfolding keep_pinned
  keep_pinned-Keeps now client_id other c m different =
      elim (Option-cases (lookup client_id m.sticky_map)) [
        | inl absent ↦
            rw (keep_pinned, absent) (insert_keeps client_id other _ m.sticky_map different)
        | inr (entry, found) ↦
            rw (keep_pinned, found) (insert_keeps client_id other _ m.sticky_map different)
      ]

  pin_held-Keeps :
      (now client_id other : ℕ) (reason : PinReason) (c : C) (m : PoolManager P C)
      → ¬ (client_id ≡ other)
      → Keeps other m (pin_held pools now client_id reason c m)
  unfolding pin_held
  pin_held-Keeps now client_id other reason c m different =
      elim (Option-cases (lookup client_id m.sticky_map)) [
        | inl absent ↦ rw (pin_held, absent) (insert_keeps client_id other _ m.sticky_map different)
        | inr (entry, found) ↦
            rw (pin_held, found) (insert_keeps client_id other _ m.sticky_map different)
      ]

  release-Keeps :
      (now other : ℕ) (conn : ManagedConnection C) (m : PoolManager P C)
      → ¬ (conn.client_id ≡ other)
      → Keeps other m (release pools now conn m)
  unfolding release
  release-Keeps now other conn m different = elim (Option-cases conn.connection) [
    | inl gone ↦ ap (λ o. binding other (release_held pools now conn o m)) gone
    | inr (c, held) ↦
        ap (λ o. binding other (release_held pools now conn o m)) held
        ∙ if-holds (Keeps other m) conn.is_pinned
            (keep_pinned-Keeps now conn.client_id other c m different) refl
  ]

  pin-Keeps :
      (now client_id other : ℕ) (reason : PinReason) (conn : ManagedConnection C)
      (m : PoolManager P C)
      → ¬ (client_id ≡ other)
      → Keeps other m (pin pools now client_id reason conn m)
  unfolding pin
  pin-Keeps now client_id other reason conn m different = elim (Option-cases conn.connection) [
    | inl gone ↦ ap (λ o. binding other (pin_option pools now client_id reason o m)) gone
    | inr (c, held) ↦
        ap (λ o. binding other (pin_option pools now client_id reason o m)) held
        ∙ pin_held-Keeps now client_id other reason c m different
  ]

  unpin-Keeps :
      (client_id other : ℕ) (m : PoolManager P C)
      → ¬ (client_id ≡ other)
      → Keeps other m (unpin pools client_id m)
  unfolding unpin
  unpin-Keeps client_id other m different = elim (Option-cases (lookup client_id m.sticky_map)) [
    | inl absent ↦ rw (unpin, absent) refl
    | inr (entry, found) ↦ rw (unpin, found) (remove_keeps client_id other m.sticky_map different)
  ]

  -- Clients are isolated: a client's calls, whatever they come to, leave the sticky binding of every other client as it
  -- was. Condition: the connection that it releases was handed out under its own number.
  pub clients_isolated :
      (now client_id other : ℕ) (needs_sticky : Bool) (reason : PinReason)
      (conn : ManagedConnection C) (m : PoolManager P C)
      → ¬ (client_id ≡ other)
      → conn.client_id ≡ client_id
      → Keeps other m (acquire pools client_id needs_sticky m).0
        × Keeps other m (release pools now conn m)
        × Keeps other m (pin pools now client_id reason conn m)
        × Keeps other m (unpin pools client_id m)
  clients_isolated now client_id other needs_sticky reason conn m different own = (
    acquire-Keeps client_id other needs_sticky m different,
    release-Keeps now other conn m (λ e. different (sym own ∙ e)),
    pin-Keeps now client_id other reason conn m different,
    unpin-Keeps client_id other m different,
  )
