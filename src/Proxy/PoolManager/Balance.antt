-- ===== src/Proxy/PoolManager/Balance.antt =====
-- No connection is lost: whatever calls are made on the manager of scry-proxy/src/proxy/pool_manager.rs, the pool counts
-- as checked out the connections that callers hold and those of the sticky map.
use scry_proxy.Base.{
  ℕ, suc, ◌+◌, ◌-◌, ◌≡◌, ap, sym, subst, Option, none, some, List, arith, length, nat_eq, lookup,
  remove, keys, Distinct, length-insert, length-remove, insert-Distinct, remove-Distinct,
  Option-cases, inl, inr, is_some,
}
use scry_proxy.Proxy.ConnectionState.{PinReason}
use scry_proxy.Proxy.WaitQueue.{WaitQueue, enqueue}
use scry_proxy.Proxy.PoolManager.{
  StickyConnectionInfo, PoolManager, Backends, Acquired, connected, failed, waiting,
  drop_connection, change_info, bind_sticky, from_pool, start_wait,
}

module _ {P C : Type 0} (pools : Backends P C) (out : P → ℕ) where
  -- `out` is the number of connections that a pool counts as checked out.
  pub record CountsOut : Type 0 where
    pub got : (p : P) (c : C) → (pools.get p).1 ≡ some c → out (pools.get p).0 ≡ suc (out p)
    pub missed : (p : P) → (pools.get p).1 ≡ none → out (pools.get p).0 ≡ out p
    pub back : (c : C) (p : P) → out (pools.put_back c p) ≡ out p - 1

  -- With `held` connections in the hands of callers.
  pub record IsBalanced (m : PoolManager P C) (held : ℕ) : Type 0 where
    pub distinct : Distinct (keys m.sticky_map)
    pub balance : out m.pool ≡ held + length m.sticky_map

  pub drop_connection-IsBalanced :
      (c : C) (m : PoolManager P C) (held : ℕ)
      → CountsOut
      → IsBalanced m (suc held)
      → IsBalanced (drop_connection pools (some c) m) held
  drop_connection-IsBalanced c m held a b = record {
    distinct = b.distinct;
    balance = omega (arith, a.back c m.pool, b.balance);
  }

  pub remove-IsBalanced :
      (client_id : ℕ) (m : PoolManager P C) (held : ℕ) (entry : C × StickyConnectionInfo)
      → lookup client_id m.sticky_map ≡ some entry
      → IsBalanced m held
      → IsBalanced (record m { sticky_map = remove client_id m.sticky_map }) (suc held)
  remove-IsBalanced client_id m held entry found b = record {
    distinct = remove-Distinct client_id m.sticky_map b.distinct;
    balance =
        omega
          (arith, length-remove client_id m.sticky_map b.distinct (ap is_some found), b.balance);
  }

  pub change_info-IsBalanced :
      (f : StickyConnectionInfo → StickyConnectionInfo) (client_id : ℕ)
      (entry : C × StickyConnectionInfo) (m : PoolManager P C) (held : ℕ)
      → lookup client_id m.sticky_map ≡ some entry
      → IsBalanced m held
      → IsBalanced (change_info f client_id entry m) held
  change_info-IsBalanced f client_id (c, info) m held found b = record {
    distinct = insert-Distinct client_id (c, f info) m.sticky_map b.distinct;
    balance =
        ground
          (arith, length-insert client_id (c, f info) m.sticky_map, ap is_some found, b.balance);
  }

  pub bind_sticky-IsBalanced :
      (now client_id : ℕ) (reasons : List PinReason) (c : C) (m : PoolManager P C) (held : ℕ)
      → lookup client_id m.sticky_map ≡ none
      → IsBalanced m (suc held)
      → IsBalanced (bind_sticky now client_id reasons c m) held
  bind_sticky-IsBalanced now client_id reasons c m held absent b =
      let info : StickyConnectionInfo = record {
        pin_reasons = reasons;
        last_used = now;
        binding_id = m.next_binding_id;
      } in
      record {
        distinct = insert-Distinct client_id (c, info) m.sticky_map b.distinct;
        balance =
            ground
              (arith, length-insert client_id (c, info) m.sticky_map, ap is_some absent, b.balance);
      }

  -- The number of connections that callers hold after a call that is to give one.
  abbrev pub hold : Acquired C → ℕ → ℕ
  hold (connected conn) held = suc held
  hold (failed e) held = held
  hold (waiting channel) held = held

  pub get-IsBalanced :
      (m : PoolManager P C) (held : ℕ) (c : C)
      → CountsOut
      → (pools.get m.pool).1 ≡ some c
      → IsBalanced m held
      → IsBalanced (record m { pool = (pools.get m.pool).0 }) (suc held)
  get-IsBalanced m held c a e b = record {
    distinct = b.distinct;
    balance = omega (arith, a.got m.pool c e, b.balance);
  }

  pub miss-IsBalanced :
      (m : PoolManager P C) (held : ℕ)
      → CountsOut
      → (pools.get m.pool).1 ≡ none
      → IsBalanced m held
      → IsBalanced (record m { pool = (pools.get m.pool).0 }) held
  miss-IsBalanced m held a e b = record {
    distinct = b.distinct;
    balance = omega (arith, a.missed m.pool e, b.balance);
  }

  -- A call that gives a caller a connection or none.
  abbrev pub Grants : ℕ → PoolManager P C × Acquired C → Type 0
  Grants held r = IsBalanced r.0 (hold r.1 held)

  pub start_wait-Grants :
      (m : PoolManager P C) (held : ℕ) (r : WaitQueue × Option ℕ)
      → IsBalanced m held
      → Grants held (start_wait m r)
  start_wait-Grants m held (q, none) b = record { distinct = b.distinct; balance = b.balance }
  start_wait-Grants m held (q, some channel) b = record {
    distinct = b.distinct;
    balance = b.balance;
  }

  pub from_pool-Grants :
      (client_id : ℕ) (m : PoolManager P C) (held : ℕ)
      → CountsOut
      → IsBalanced m held
      → Grants held (from_pool client_id m (pools.get m.pool))
  from_pool-Grants client_id m held a b =
      let (p, o) = pools.get m.pool in
      elim (Option-cases o) [
        | inl none_got ↦
            subst (λ o. Grants held (from_pool client_id m (p, o))) (sym none_got)
              (start_wait-Grants (record m { pool = p }) held (enqueue m.wait_queue)
                (miss-IsBalanced m held a none_got b))
        | inr (c, got) ↦
            subst (λ o. Grants held (from_pool client_id m (p, o))) (sym got)
              (get-IsBalanced m held c a got b)
      ]
