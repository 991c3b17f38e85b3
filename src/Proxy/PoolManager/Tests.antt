-- ===== src/Proxy/PoolManager/Tests.antt =====
-- A pool that counts its connections: runs, and an instance of each result.
use scry_proxy.Base.{
  ℕ, zero, suc, ◌+◌, ◌-◌, ◌≡◌, refl, true, false, none, some, Option, [], ◌∷◌, arith, nat_eq,
}
use scry_proxy.Proxy.ConnectionState.{temp_table, session_variable}
use scry_proxy.Proxy.WaitQueue.{WaitQueue}
use scry_proxy.Proxy.PoolManager.{
  StickyConnectionInfo, PoolManager, PoolManagerConfig, Backends, new, acquire, release, pin, unpin,
  cleanup_idle, fresh, has_sticky, get_sticky_info, sticky_count,
}
use scry_proxy.Proxy.PoolManager.Balance.{CountsOut}
use scry_proxy.Proxy.PoolManager.Runs.{Reach, here, next, acquired, pinned, no_connection_lost}
use scry_proxy.Proxy.PoolManager.Sticky.{Keeps, clients_isolated}

-- Connections are numbers; the pool's state is the number of them that are out, and there are two.
abbrev counted_get : ℕ → ℕ × Option ℕ
counted_get zero = (1, some 0)
counted_get (suc zero) = (2, some 1)
counted_get (suc (suc n)) = (suc (suc n), none)

abbrev counted : Backends ℕ ℕ
counted = record { get = counted_get; put_back = λ (c : ℕ) (n : ℕ). n - 1 }

abbrev out : ℕ → ℕ
out n = n

counted_got : (n c : ℕ) → (counted_get n).1 ≡ some c → (counted_get n).0 ≡ suc n
counted_got zero c e = refl
counted_got (suc zero) c e = refl
counted_got (suc (suc n)) c e = cc

counted_missed : (n : ℕ) → (counted_get n).1 ≡ none → (counted_get n).0 ≡ n
counted_missed zero e = cc
counted_missed (suc zero) e = cc
counted_missed (suc (suc n)) e = refl

counted-CountsOut : CountsOut counted out
counted-CountsOut = record { got = counted_got; missed = counted_missed; back = λ c n. refl }

abbrev queue : WaitQueue
queue = record {
  max_depth = 1;
  depth = 0;
  waiters = [];
  receivers = [];
  notified = [];
  next_channel = 0;
}

abbrev settings : PoolManagerConfig
settings = record { lifo = true; queue_depth = 1; idle_unpin_secs = 60; wait_timeout_ms = 500 }

abbrev bound_at : ℕ → StickyConnectionInfo
bound_at last_used = record { pin_reasons = temp_table ∷ []; last_used = last_used; binding_id = 1 }

-- Client 7 is bound to connection 0.
abbrev one_bound : PoolManager ℕ ℕ
one_bound = record {
  pool = 1;
  sticky_map = (7, (0, bound_at 5)) ∷ [];
  wait_queue = queue;
  config = settings;
  next_binding_id = 2;
  accepting = true;
}

-- Client 7 gets a connection and pins it, and client 8 gets the other one.
no_connection_lost_example :
    let m =
      (acquire counted 8 false (
        pin counted 5 7 temp_table
          (fresh 7 0)
          (acquire counted 7 true (new 0 queue settings)).0)).0 in
    out m.pool ≡ 1 + sticky_count m
unfolding new acquire pin sticky_count
no_connection_lost_example =
    let m : PoolManager ℕ ℕ = new 0 queue settings in
    let m1 = (acquire counted 7 true m).0 in
    let path : Reach counted out m m1 (fresh 7 0 ∷ []) = next here (acquired 7 true m []) in
    let m2 = pin counted 5 7 temp_table (fresh 7 0) m1 in
    let path2 : Reach counted out m m2 [] =
      next path (pinned 5 7 temp_table (fresh 7 0) 0 m1 [] [] refl) in
    no_connection_lost counted out 0 queue settings counted-CountsOut refl
      (next path2 (acquired 8 false m2 []))

clients_isolated_example :
    Keeps counted 7 one_bound (acquire counted 8 true one_bound).0
    × Keeps counted 7 one_bound (release counted 9 (fresh 8 1) one_bound)
    × Keeps counted 7 one_bound (pin counted 9 8 session_variable (fresh 8 1) one_bound)
    × Keeps counted 7 one_bound (unpin counted 8 one_bound)
clients_isolated_example =
    clients_isolated counted 9 8 7 true session_variable (fresh 8 1) one_bound
      (λ e. omega (arith, e)) refl

-- The binding is kept up to its time, and unpinned after it: the connection goes back.
cleanup_run :
    ((cleanup_idle counted 60000000005 one_bound).1 ≡ 0)
    × ((cleanup_idle counted 60000000006 one_bound).1 ≡ 1)
    × ((cleanup_idle counted 60000000006 one_bound).0.pool ≡ 0)
unfolding cleanup_idle
cleanup_run = (refl, refl, refl)

binding_run :
    (has_sticky 7 one_bound ≡ true)
    × (get_sticky_info 7 one_bound ≡ some (bound_at 5))
    × (has_sticky 7 (unpin counted 7 one_bound) ≡ false)
unfolding has_sticky get_sticky_info unpin
binding_run = (refl, refl, refl)
