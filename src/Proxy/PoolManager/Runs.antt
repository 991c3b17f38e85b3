-- ===== src/Proxy/PoolManager/Runs.antt =====
-- Runs of the calls of scry-proxy/src/proxy/pool_manager.rs, by any clients in any order.
use scry_proxy.Base.{
  ℕ, suc, ◌+◌, ◌≡◌, refl, ap, sym, subst, Bool, some, List, [], ◌∷◌, ◌++◌, length, nat_eq,
}
use scry_proxy.Proxy.ConnectionState.{PinReason}
use scry_proxy.Proxy.WaitQueue.{WaitQueue}
use scry_proxy.Proxy.PoolManager.{
  ManagedConnection, PoolManager, PoolManagerConfig, Backends, Acquired, connected, failed, waiting,
  new, acquire, after_wait, after_timeout, release, pin, unpin, cleanup_idle, pause, resume,
  sticky_count,
}
use scry_proxy.Proxy.PoolManager.Balance.{CountsOut, IsBalanced, hold, Grants}
use scry_proxy.Proxy.PoolManager.Calls.{
  acquire-Grants, after_wait-Grants, release-IsBalanced, pin-IsBalanced, unpin-IsBalanced,
  cleanup_idle-IsBalanced,
}

module _ {P C : Type 0} (pools : Backends P C) (out : P → ℕ) where
  -- The connections in the hands of callers, after a call that is to give one.
  abbrev pub hand : Acquired C → List (ManagedConnection C) → List (ManagedConnection C)
  hand (connected conn) held = conn ∷ held
  hand (failed e) held = held
  hand (waiting channel) held = held

  length-hand :
      (r : Acquired C) (held : List (ManagedConnection C))
      → length (hand r held) ≡ hold pools out r (length held)
  length-hand (connected conn) held = refl
  length-hand (failed e) held = refl
  length-hand (waiting channel) held = refl

  -- One call. A connection that is released or pinned leaves the hands of its caller.
  pub data Step
      : PoolManager P C
        → List (ManagedConnection C)
        → PoolManager P C
        → List (ManagedConnection C)
        → Type 0 where
    acquired :
        (client_id : ℕ) (needs_sticky : Bool) (m : PoolManager P C)
        (held : List (ManagedConnection C))
        → Step m held
            (acquire pools client_id needs_sticky m).0
            (hand (acquire pools client_id needs_sticky m).1 held)
    woken :
        (client_id channel : ℕ) (m : PoolManager P C) (held : List (ManagedConnection C))
        → Step m held
            (after_wait pools client_id channel m).0
            (hand (after_wait pools client_id channel m).1 held)
    timed_out :
        (channel : ℕ) (m : PoolManager P C) (held : List (ManagedConnection C))
        → Step m held (after_timeout channel m).0 held
    released :
        (now : ℕ) (conn : ManagedConnection C) (c : C) (m : PoolManager P C)
        (before after : List (ManagedConnection C))
        → conn.connection ≡ some c
        → Step m (before ++ (conn ∷ after)) (release pools now conn m) (before ++ after)
    pinned :
        (now client_id : ℕ) (reason : PinReason) (conn : ManagedConnection C) (c : C)
        (m : PoolManager P C) (before after : List (ManagedConnection C))
        → conn.connection ≡ some c
        → Step m
            (before ++ (conn ∷ after))
            (pin pools now client_id reason conn m)
            (before ++ after)
    unpinned :
        (client_id : ℕ) (m : PoolManager P C) (held : List (ManagedConnection C))
        → Step m held (unpin pools client_id m) held
    cleaned :
        (now : ℕ) (m : PoolManager P C) (held : List (ManagedConnection C))
        → Step m held (cleanup_idle pools now m).0 held
    paused_all :
        (m : PoolManager P C) (held : List (ManagedConnection C)) → Step m held (pause m) held
    resumed :
        (m : PoolManager P C) (held : List (ManagedConnection C)) → Step m held (resume m) held

  abbrev pub Balanced : PoolManager P C → List (ManagedConnection C) → Type 0
  Balanced m held = IsBalanced pools out m (length held)

  hand-Balanced :
      (r : PoolManager P C × Acquired C) (held : List (ManagedConnection C))
      → Grants pools out (length held) r
      → Balanced r.0 (hand r.1 held)
  hand-Balanced r held = subst (IsBalanced pools out r.0) (sym (length-hand r.1 held))

  -- A caller's connection, out of the others.
  length-middle :
      (conn : ManagedConnection C) (before after : List (ManagedConnection C))
      → length (before ++ (conn ∷ after)) ≡ suc (length (before ++ after))
  length-middle conn [] after = refl
  length-middle conn (b ∷ before) after = ap suc (length-middle conn before after)

  Step-Balanced :
      {m m' : PoolManager P C} {held held' : List (ManagedConnection C)}
      → CountsOut pools out
      → Step m held m' held'
      → Balanced m held
      → Balanced m' held'
  unfolding after_timeout pause resume
  Step-Balanced a (acquired client_id needs_sticky m held) b =
      hand-Balanced (acquire pools client_id needs_sticky m) held
        (acquire-Grants pools out client_id needs_sticky m (length held) a b)
  Step-Balanced a (woken client_id channel m held) b =
      hand-Balanced (after_wait pools client_id channel m) held
        (after_wait-Grants pools out client_id channel m (length held) a b)
  Step-Balanced a (timed_out channel m held) b = record {
    distinct = b.distinct;
    balance = b.balance;
  }
  Step-Balanced a (released now conn c m before after e) b =
      release-IsBalanced pools out now conn c m (length (before ++ after)) e a
        (subst (IsBalanced pools out m) (length-middle conn before after) b)
  Step-Balanced a (pinned now client_id reason conn c m before after e) b =
      pin-IsBalanced pools out now client_id reason conn c m (length (before ++ after)) e a
        (subst (IsBalanced pools out m) (length-middle conn before after) b)
  Step-Balanced a (unpinned client_id m held) b =
      unpin-IsBalanced pools out client_id m (length held) a b
  Step-Balanced a (cleaned now m held) b = cleanup_idle-IsBalanced pools out now m (length held) a b
  Step-Balanced a (paused_all m held) b = record { distinct = b.distinct; balance = b.balance }
  Step-Balanced a (resumed m held) b = record { distinct = b.distinct; balance = b.balance }

  pub data Reach (m : PoolManager P C) : PoolManager P C → List (ManagedConnection C) → Type 0 where
    here : Reach m m []
    next :
        {m' m'' : PoolManager P C} {held held' : List (ManagedConnection C)}
        → Reach m m' held
        → Step m' held m'' held'
        → Reach m m'' held'

  Reach-Balanced :
      {m m' : PoolManager P C} {held : List (ManagedConnection C)}
      → CountsOut pools out
      → Balanced m []
      → Reach m m' held
      → Balanced m' held
  Reach-Balanced a b here = b
  Reach-Balanced a b (next path step) = Step-Balanced a step (Reach-Balanced a b path)

  -- No connection is lost: after any calls on a new manager, by any clients in any order, the pool counts as checked
  -- out exactly the connections in the hands of callers and those of the sticky map. Conditions: the pool, from none
  -- checked out, counts one more for a checkout that gives a connection, none for one that fails, and one less for a
  -- connection that is dropped; callers give back only connections that they hold, each with its connection in it.
  pub no_connection_lost :
      (pool : P) (wait_queue : WaitQueue) (config : PoolManagerConfig) {m : PoolManager P C}
      {held : List (ManagedConnection C)}
      → CountsOut pools out
      → out pool ≡ 0
      → Reach (new pool wait_queue config) m held
      → out m.pool ≡ length held + sticky_count m
  unfolding new sticky_count
  no_connection_lost pool wait_queue config a none_out path =
      (Reach-Balanced a (record { distinct = tt; balance = none_out }) path).balance
