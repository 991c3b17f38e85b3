-- ===== src/Proxy/PoolManager/Calls.antt =====
-- Each call of scry-proxy/src/proxy/pool_manager.rs keeps the books of the pool balanced.
use scry_proxy.Base.{
  ℕ, zero, suc, ◌≡◌, sym, subst, Bool, not, some, List, [], ◌∷◌, nat_eq, lookup, remove,
  Option-cases, inl, inr, ◌==◌, if-holds,
}
use scry_proxy.Proxy.ConnectionState.{PinReason}
use scry_proxy.Proxy.PoolManager.{
  StickyConnectionInfo, ManagedConnection, PoolManager, Backends, acquire, after_wait, release,
  release_held, pin, unpin, cleanup_idle, get_sticky_connection, keep_pinned, pin_held, pin_option,
  clean, change_info, or_pool, got_after_wait, leave_queue, notify, notify_cleaned, drop_if_idle,
  touch, add_reason, idle_clients, is_idle,
}
use scry_proxy.Proxy.PoolManager.Balance.{
  CountsOut, IsBalanced, drop_connection-IsBalanced, remove-IsBalanced, change_info-IsBalanced,
  bind_sticky-IsBalanced, get-IsBalanced, miss-IsBalanced, Grants, from_pool-Grants,
}

module _ {P C : Type 0} (pools : Backends P C) (out : P → ℕ) where
  pub or_pool-Grants :
      (client_id : ℕ) (m : PoolManager P C) (held : ℕ)
      → CountsOut pools out
      → IsBalanced pools out m held
      → Grants pools out held (or_pool pools client_id (get_sticky_connection client_id m))
  unfolding get_sticky_connection
  or_pool-Grants client_id m held a b = elim (Option-cases (lookup client_id m.sticky_map)) [
    | inl absent ↦
        rw (get_sticky_connection, absent) (from_pool-Grants pools out client_id m held a b)
    | inr (entry, found) ↦
        rw (get_sticky_connection, found)
          (remove-IsBalanced pools out client_id m held entry found b)
  ]

  pub acquire-Grants :
      (client_id : ℕ) (needs_sticky : Bool) (m : PoolManager P C) (held : ℕ)
      → CountsOut pools out
      → IsBalanced pools out m held
      → Grants pools out held (acquire pools client_id needs_sticky m)
  unfolding acquire get_sticky_connection
  acquire-Grants client_id needs_sticky m held a b =
      if-holds (Grants pools out held) (not m.accepting) b (
        if-holds (Grants pools out held) needs_sticky (or_pool-Grants client_id m held a b)
          (from_pool-Grants pools out client_id m held a b))

  pub after_wait-Grants :
      (client_id channel : ℕ) (m : PoolManager P C) (held : ℕ)
      → CountsOut pools out
      → IsBalanced pools out m held
      → Grants pools out held (after_wait pools client_id channel m)
  unfolding after_wait
  after_wait-Grants client_id channel m held a b =
      let (p, o) = pools.get m.pool in
      elim (Option-cases o) [
        | inl none_got ↦
            subst
              (λ o.
                Grants pools out held
                  (let (m', r) = got_after_wait client_id m (p, o) in (leave_queue channel m', r)))
              (sym none_got)
              (record {
                distinct = b.distinct;
                balance = (miss-IsBalanced pools out m held a none_got b).balance;
              })
        | inr (c, got) ↦
            subst
              (λ o.
                Grants pools out held
                  (let (m', r) = got_after_wait client_id m (p, o) in (leave_queue channel m', r)))
              (sym got)
              (record {
                distinct = b.distinct;
                balance = (get-IsBalanced pools out m held c a got b).balance;
              })
      ]

  pub keep_pinned-IsBalanced :
      (now client_id : ℕ) (c : C) (m : PoolManager P C) (held : ℕ)
      → CountsOut pools out
      → IsBalanced pools out m (suc held)
      → IsBalanced pools out (keep_pinned pools now client_id c m) held
  unfolding keep_pinned touch
  keep_pinned-IsBalanced now client_id c m held a b =
      elim (Option-cases (lookup client_id m.sticky_map)) [
        | inl absent ↦
            rw (keep_pinned, absent)
              (bind_sticky-IsBalanced pools out now client_id [] c m held absent b)
        | inr (entry, found) ↦
            rw (keep_pinned, found)
              (drop_connection-IsBalanced pools out c (change_info (touch now) client_id entry m)
                held a
                (change_info-IsBalanced pools out (touch now) client_id entry m (suc held) found b))
      ]

  pub pin_held-IsBalanced :
      (now client_id : ℕ) (reason : PinReason) (c : C) (m : PoolManager P C) (held : ℕ)
      → CountsOut pools out
      → IsBalanced pools out m (suc held)
      → IsBalanced pools out (pin_held pools now client_id reason c m) held
  unfolding pin_held touch
  pin_held-IsBalanced now client_id reason c m held a b =
      elim (Option-cases (lookup client_id m.sticky_map)) [
        | inl absent ↦
            rw (pin_held, absent)
              (bind_sticky-IsBalanced pools out now client_id (reason ∷ []) c m held absent b)
        | inr (entry, found) ↦
            let change = λ (info : StickyConnectionInfo). touch now (add_reason reason info) in
            rw (pin_held, found)
              (drop_connection-IsBalanced pools out c (change_info change client_id entry m) held a
                (change_info-IsBalanced pools out change client_id entry m (suc held) found b))
      ]

  pub notify-IsBalanced :
      (m : PoolManager P C) (held : ℕ)
      → IsBalanced pools out m held
      → IsBalanced pools out (notify m) held
  notify-IsBalanced m held b = record { distinct = b.distinct; balance = b.balance }

  pub unpin-IsBalanced :
      (client_id : ℕ) (m : PoolManager P C) (held : ℕ)
      → CountsOut pools out
      → IsBalanced pools out m held
      → IsBalanced pools out (unpin pools client_id m) held
  unfolding unpin
  unpin-IsBalanced client_id m held a b = elim (Option-cases (lookup client_id m.sticky_map)) [
    | inl absent ↦ rw (unpin, absent) b
    | inr (entry, found) ↦
        rw (unpin, found)
          (notify-IsBalanced _ held (
            drop_connection-IsBalanced pools out entry.0 _ held a
              (remove-IsBalanced pools out client_id m held entry found b)))
  ]

  pub drop_if_idle-IsBalanced :
      (now client_id : ℕ) (m : PoolManager P C) (cleaned held : ℕ)
      → CountsOut pools out
      → IsBalanced pools out m held
      → IsBalanced pools out
          (drop_if_idle pools now client_id (lookup client_id m.sticky_map) (m, cleaned)).0
          held
  drop_if_idle-IsBalanced now client_id m cleaned held a b =
      elim (Option-cases (lookup client_id m.sticky_map)) [
        | inl absent ↦
            subst
              (λ o. IsBalanced pools out (drop_if_idle pools now client_id o (m, cleaned)).0 held)
              (sym absent) b
        | inr ((c, info), found) ↦
            subst
              (λ o. IsBalanced pools out (drop_if_idle pools now client_id o (m, cleaned)).0 held)
              (sym found)
              (if-holds (λ (r : PoolManager P C × ℕ). IsBalanced pools out r.0 held)
                (is_idle now m.config.idle_unpin_secs info)
                (drop_connection-IsBalanced pools out c
                  (record m { sticky_map = remove client_id m.sticky_map }) held a
                  (remove-IsBalanced pools out client_id m held (c, info) found b))
                b)
      ]

  pub clean-IsBalanced :
      (now : ℕ) (clients : List ℕ) (m : PoolManager P C) (cleaned held : ℕ)
      → CountsOut pools out
      → IsBalanced pools out m held
      → IsBalanced pools out (clean pools now clients (m, cleaned)).0 held
  unfolding clean
  clean-IsBalanced now [] m cleaned held a b = b
  clean-IsBalanced now (client_id ∷ rest) m cleaned held a b =
      let (m', cleaned') =
        drop_if_idle pools now client_id (lookup client_id m.sticky_map) (m, cleaned) in
      clean-IsBalanced now rest m' cleaned' held a
        (drop_if_idle-IsBalanced now client_id m cleaned held a b)

  pub notify_cleaned-IsBalanced :
      (n : ℕ) (m : PoolManager P C) (held : ℕ)
      → IsBalanced pools out m held
      → IsBalanced pools out (notify_cleaned n m) held
  notify_cleaned-IsBalanced zero m held b = b
  notify_cleaned-IsBalanced (suc n) m held b =
      notify_cleaned-IsBalanced n (notify m) held (notify-IsBalanced m held b)

  pub cleanup_idle-IsBalanced :
      (now : ℕ) (m : PoolManager P C) (held : ℕ)
      → CountsOut pools out
      → IsBalanced pools out m held
      → IsBalanced pools out (cleanup_idle pools now m).0 held
  unfolding cleanup_idle
  cleanup_idle-IsBalanced now m held a b =
      let idle = idle_clients now m.config.idle_unpin_secs m.sticky_map in
      let (m', cleaned) = clean pools now idle (m, 0) in
      if-holds (λ (r : PoolManager P C × ℕ). IsBalanced pools out r.0 held)
        (m.config.idle_unpin_secs == 0) b
        (notify_cleaned-IsBalanced cleaned m' held (clean-IsBalanced now idle m 0 held a b))

  pub release-IsBalanced :
      (now : ℕ) (conn : ManagedConnection C) (c : C) (m : PoolManager P C) (held : ℕ)
      → conn.connection ≡ some c
      → CountsOut pools out
      → IsBalanced pools out m (suc held)
      → IsBalanced pools out (release pools now conn m) held
  unfolding release
  release-IsBalanced now conn c m held e a b =
      subst (λ o. IsBalanced pools out (notify (release_held pools now conn o m)) held) (sym e)
        (notify-IsBalanced (release_held pools now conn (some c) m) held (
          if-holds (λ (r : PoolManager P C). IsBalanced pools out r held) conn.is_pinned
            (keep_pinned-IsBalanced now conn.client_id c m held a b)
            (drop_connection-IsBalanced pools out c m held a b)))

  pub pin-IsBalanced :
      (now client_id : ℕ) (reason : PinReason) (conn : ManagedConnection C) (c : C)
      (m : PoolManager P C) (held : ℕ)
      → conn.connection ≡ some c
      → CountsOut pools out
      → IsBalanced pools out m (suc held)
      → IsBalanced pools out (pin pools now client_id reason conn m) held
  unfolding pin
  pin-IsBalanced now client_id reason conn c m held e a b =
      subst (λ o. IsBalanced pools out (pin_option pools now client_id reason o m) held) (sym e)
        (pin_held-IsBalanced now client_id reason c m held a b)
