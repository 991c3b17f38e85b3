-- ===== src/Proxy/PoolManager.antt =====
-- scry-proxy/src/proxy/pool_manager.rs: checkout with sticky connections, release, pins and the clean-up of idle ones.
-- The pool beneath is a parameter: `get` is its checkout, with the breaker and the retries, and `put_back` is the drop of
-- a `PooledConnection`. Instants are nanoseconds. A caller that waits is in the queue between `acquire` and
-- `after_wait` or `after_timeout`.
pub mod Balance
pub mod Calls
pub mod Runs
pub mod Sticky
pub mod Cleanup
mod Tests
use scry_proxy.Base.{
  ℕ, zero, suc, ◌+◌, ◌-◌, ◌*◌, ◌^◌, Bool, true, false, not, ◌||◌, Option, none, some, List, [], ◌∷◌,
  ◌++◌, map, ltb, ◌==◌, if◌then◌else◌, inc64, nat_eq, lookup, contains_key, insert, remove, is_some,
  length,
}
use scry_proxy.Proxy.ConnectionState.{
  PinReason, prepared_statement, session_variable, temp_table, cursor_pin, advisory_lock_pin,
  listen_pin, unknown_command_pin,
}
use scry_proxy.Proxy.WaitQueue.{WaitQueue, enqueue, notify_one, drop_waiter}

pub data AcquireError : Type 0 where
  pool_error queue_full wait_timeout paused : AcquireError

pub record PoolManagerConfig : Type 0 where
  pub lifo : Bool
  pub queue_depth : ℕ
  pub idle_unpin_secs : ℕ
  pub wait_timeout_ms : ℕ

pub record StickyConnectionInfo : Type 0 where
  pub pin_reasons : List PinReason
  pub last_used : ℕ
  pub binding_id : ℕ

pub touch : ℕ → StickyConnectionInfo → StickyConnectionInfo
touch now info = record info { last_used = now }

pub record ManagedConnection (C : Type 0) : Type 0 where
  pub connection : Option C
  pub client_id : ℕ
  pub is_pinned : Bool
  pub binding_id : Option ℕ

pub record PoolManager (P C : Type 0) : Type 0 where
  pub pool : P
  pub sticky_map : List (ℕ × (C × StickyConnectionInfo))
  pub wait_queue : WaitQueue
  pub config : PoolManagerConfig
  pub next_binding_id : ℕ
  pub accepting : Bool

-- The calls on the pool.
pub record Backends (P C : Type 0) : Type 0 where
  pub get : P → P × Option C
  pub put_back : C → P → P

-- What a call of `acquire` comes to at once.
pub data Acquired (C : Type 0) : Type 0 where
  connected : ManagedConnection C → Acquired C
  failed : AcquireError → Acquired C
  waiting : (channel : ℕ) → Acquired C

abbrev pub reason_code : PinReason → ℕ
reason_code prepared_statement = 0
reason_code session_variable = 1
reason_code temp_table = 2
reason_code cursor_pin = 3
reason_code advisory_lock_pin = 4
reason_code listen_pin = 5
reason_code unknown_command_pin = 6

abbrev pub contains_reason : PinReason → List PinReason → Bool
contains_reason r [] = false
contains_reason r (q ∷ qs) = reason_code q == reason_code r || contains_reason r qs

-- `if !info.pin_reasons.contains(&reason) { info.pin_reasons.push(reason) }`
abbrev pub add_reason : PinReason → StickyConnectionInfo → StickyConnectionInfo
add_reason reason info =
    if contains_reason reason info.pin_reasons
    then info
    else record info { pin_reasons = info.pin_reasons ++ reason ∷ [] }

abbrev pub is_idle : ℕ → ℕ → StickyConnectionInfo → Bool
is_idle now idle_unpin_secs info = ltb (idle_unpin_secs * 10 ^ 9) (now - info.last_used)

abbrev pub taken : {C : Type 0} → ℕ → C × StickyConnectionInfo → ManagedConnection C
taken client_id (c, info) = record {
  connection = some c;
  client_id = client_id;
  is_pinned = true;
  binding_id = some info.binding_id;
}

abbrev pub fresh : {C : Type 0} → ℕ → C → ManagedConnection C
fresh client_id c = record {
  connection = some c;
  client_id = client_id;
  is_pinned = false;
  binding_id = none;
}

-- The clients whose connections have been idle for too long.
abbrev pub idle_clients : {C : Type 0} → ℕ → ℕ → List (ℕ × (C × StickyConnectionInfo)) → List ℕ
idle_clients now secs [] = []
idle_clients now secs ((client_id, (c, info)) ∷ rest) =
    let later = idle_clients now secs rest in
    if is_idle now secs info then client_id ∷ later else later

module _ {P C : Type 0} where
  pub new : P → WaitQueue → PoolManagerConfig → PoolManager P C
  new pool wait_queue config = record {
    pool = pool;
    sticky_map = [];
    wait_queue = wait_queue;
    config = config;
    next_binding_id = 1;
    accepting = true;
  }

  unfoldable pub pause : PoolManager P C → PoolManager P C
  pause m = record m { accepting = false }

  abbrev pub notify : PoolManager P C → PoolManager P C
  notify m = record m { wait_queue = notify_one m.wait_queue }

  unfoldable pub resume : PoolManager P C → PoolManager P C
  resume m = notify (record m { accepting = true })

  -- A `PooledConnection` is dropped: it goes back to the pool.
  abbrev pub drop_connection : Backends P C → Option C → PoolManager P C → PoolManager P C
  drop_connection pools none m = m
  drop_connection pools (some c) m = record m { pool = pools.put_back c m.pool }

  -- The connection leaves the map.
  pub get_sticky_connection : ℕ → PoolManager P C → PoolManager P C × Option (ManagedConnection C)
  get_sticky_connection client_id m = elim (lookup client_id m.sticky_map) [
    | none ↦ (m, none)
    | some entry ↦
        (record m { sticky_map = remove client_id m.sticky_map }, some (taken client_id entry))
  ]

  -- `wait_for_connection` up to its wait.
  abbrev pub start_wait : PoolManager P C → WaitQueue × Option ℕ → PoolManager P C × Acquired C
  start_wait m (q, none) = (record m { wait_queue = q }, failed queue_full)
  start_wait m (q, some channel) = (record m { wait_queue = q }, waiting channel)

  abbrev pub from_pool : ℕ → PoolManager P C → P × Option C → PoolManager P C × Acquired C
  from_pool client_id m (p, some c) = (record m { pool = p }, connected (fresh client_id c))
  from_pool client_id m (p, none) = start_wait (record m { pool = p }) (enqueue m.wait_queue)

  abbrev pub or_pool :
      Backends P C
      → ℕ
      → PoolManager P C × Option (ManagedConnection C)
      → PoolManager P C × Acquired C
  or_pool pools client_id (m, some conn) = (m, connected conn)
  or_pool pools client_id (m, none) = from_pool client_id m (pools.get m.pool)

  unfoldable pub acquire : Backends P C → ℕ → Bool → PoolManager P C → PoolManager P C × Acquired C
  unfolding get_sticky_connection
  acquire pools client_id needs_sticky m =
      if not m.accepting
      then (m, failed paused)
      else if needs_sticky
      then or_pool pools client_id (get_sticky_connection client_id m)
      else from_pool client_id m (pools.get m.pool)

  abbrev pub got_after_wait : ℕ → PoolManager P C → P × Option C → PoolManager P C × Acquired C
  got_after_wait client_id m (p, some c) = (record m { pool = p }, connected (fresh client_id c))
  got_after_wait client_id m (p, none) = (record m { pool = p }, failed pool_error)

  abbrev pub leave_queue : ℕ → PoolManager P C → PoolManager P C
  leave_queue channel m = record m { wait_queue = drop_waiter channel m.wait_queue }

  -- `wait_for_connection` from its wait on: the waiter was notified, or its time is up. It is dropped at the end.
  pub after_wait : Backends P C → ℕ → ℕ → PoolManager P C → PoolManager P C × Acquired C
  after_wait pools client_id channel m =
      let (m', r) = got_after_wait client_id m (pools.get m.pool) in (leave_queue channel m', r)

  pub after_timeout : ℕ → PoolManager P C → PoolManager P C × Acquired C
  after_timeout channel m = (leave_queue channel m, failed wait_timeout)

  abbrev pub bind_sticky : ℕ → ℕ → List PinReason → C → PoolManager P C → PoolManager P C
  bind_sticky now client_id pin_reasons c m = record m {
    sticky_map =
        insert client_id
          (c, record { pin_reasons = pin_reasons; last_used = now; binding_id = m.next_binding_id })
          m.sticky_map;
    next_binding_id = inc64 m.next_binding_id;
  }

  abbrev pub change_info :
      (StickyConnectionInfo → StickyConnectionInfo)
      → ℕ
      → C × StickyConnectionInfo
      → PoolManager P C
      → PoolManager P C
  change_info f client_id (c, info) m = record m {
    sticky_map = insert client_id (c, f info) m.sticky_map;
  }

  -- A pinned connection goes to the map; where the client has an entry there, its entry is touched, and the
  -- connection that is released is dropped.
  pub keep_pinned : Backends P C → ℕ → ℕ → C → PoolManager P C → PoolManager P C
  unfolding touch
  keep_pinned pools now client_id c m = elim (lookup client_id m.sticky_map) [
    | some entry ↦ drop_connection pools (some c) (change_info (touch now) client_id entry m)
    | none ↦ bind_sticky now client_id [] c m
  ]

  abbrev pub release_held :
      Backends P C → ℕ → ManagedConnection C → Option C → PoolManager P C → PoolManager P C
  release_held pools now conn none m = m
  release_held pools now conn (some c) m =
      if conn.is_pinned
      then keep_pinned pools now conn.client_id c m
      else drop_connection pools (some c) m

  pub release : Backends P C → ℕ → ManagedConnection C → PoolManager P C → PoolManager P C
  unfolding keep_pinned
  release pools now conn m = notify (release_held pools now conn conn.connection m)

  pub pin_held : Backends P C → ℕ → ℕ → PinReason → C → PoolManager P C → PoolManager P C
  unfolding touch
  pin_held pools now client_id reason c m = elim (lookup client_id m.sticky_map) [
    | some entry ↦
        drop_connection pools (some c)
          (change_info (λ info. touch now (add_reason reason info)) client_id entry m)
    | none ↦ bind_sticky now client_id (reason ∷ []) c m
  ]

  abbrev pub pin_option :
      Backends P C → ℕ → ℕ → PinReason → Option C → PoolManager P C → PoolManager P C
  pin_option pools now client_id reason none m = m
  pin_option pools now client_id reason (some c) m = pin_held pools now client_id reason c m

  pub pin :
      Backends P C → ℕ → ℕ → PinReason → ManagedConnection C → PoolManager P C → PoolManager P C
  unfolding pin_held
  pin pools now client_id reason conn m = pin_option pools now client_id reason conn.connection m

  pub unpin : Backends P C → ℕ → PoolManager P C → PoolManager P C
  unpin pools client_id m = elim (lookup client_id m.sticky_map) [
    | none ↦ m
    | some (c, info) ↦
        notify
          (drop_connection pools (some c) (record m { sticky_map = remove client_id m.sticky_map }))
  ]

  pub has_sticky : ℕ → PoolManager P C → Bool
  has_sticky client_id m = contains_key client_id m.sticky_map

  pub get_sticky_info : ℕ → PoolManager P C → Option StickyConnectionInfo
  get_sticky_info client_id m = elim (lookup client_id m.sticky_map) [
    | none ↦ none
    | some (c, info) ↦ some info
  ]

  pub sticky_count : PoolManager P C → ℕ
  sticky_count m = length m.sticky_map

  abbrev pub drop_if_idle :
      Backends P C
      → ℕ
      → ℕ
      → Option (C × StickyConnectionInfo)
      → PoolManager P C × ℕ
      → PoolManager P C × ℕ
  drop_if_idle pools now client_id none (m, cleaned) = (m, cleaned)
  drop_if_idle pools now client_id (some (c, info)) (m, cleaned) =
      if is_idle now m.config.idle_unpin_secs info
      then (
        drop_connection pools (some c) (record m { sticky_map = remove client_id m.sticky_map }),
        suc cleaned,
      )
      else (m, cleaned)

  -- The second loop: each is looked up again, and tested again.
  pub clean : Backends P C → ℕ → List ℕ → PoolManager P C × ℕ → PoolManager P C × ℕ
  clean pools now [] done = done
  clean pools now (client_id ∷ rest) (m, cleaned) =
      clean pools now rest
        (drop_if_idle pools now client_id (lookup client_id m.sticky_map) (m, cleaned))

  abbrev pub notify_cleaned : ℕ → PoolManager P C → PoolManager P C
  notify_cleaned zero m = m
  notify_cleaned (suc n) m = notify_cleaned n (notify m)

  -- The new manager, and how many connections were unpinned.
  pub cleanup_idle : Backends P C → ℕ → PoolManager P C → PoolManager P C × ℕ
  unfolding clean
  cleanup_idle pools now m =
      if m.config.idle_unpin_secs == 0
      then (m, 0)
      else (let (m', cleaned) =
            clean pools now (idle_clients now m.config.idle_unpin_secs m.sticky_map) (m, 0) in
          (notify_cleaned cleaned m', cleaned))
