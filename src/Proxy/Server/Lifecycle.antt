-- ===== src/Proxy/Server/Lifecycle.antt =====
-- A task and its abort handle: the accept loop stores the handle after the spawn, while the task runs.
use scry_proxy.Base.{
  ℕ, ◌+◌, ◌≤◌, ◌<◌, u64_mod, ◌≡◌, refl, ap, ◌∙◌, Bool, true, false, not, ◌&&◌, none, some, arith,
  Bytes, nat_eq, ==_iff, has, has-without, leb, inc64, lookup, contains_key, contains_key-insert,
  contains_key-remove, is_some, Bool-cases, inl, inr,
}
use scry_proxy.Proxy.ClientRegistry.{
  ClientRegistry, ClientEntry, register, register_abort_handle, deregister, kill_by_database, get,
}
use scry_proxy.Proxy.ClientRegistry.Kill.{found_of, kill_by_database-handles}
use scry_proxy.Proxy.Server.{
  ProxyServer, spawn_connection_handler, accept, store_handle, drop_guard, Step, accepts, stores,
  registers, ends, kills, Reach, here, next,
}
use scry_proxy.Proxy.Server.Limit.{IsCounted}

-- A handle of a task that is gone, under an id that is not given out again.
pub record IsStale (id : ℕ) (p : ProxyServer) : Type 0 where
  pub issued : id ≤ p.connection_count
  pub gone : has id p.tasks ≡ false
  pub kept : contains_key id p.client_registry.abort_handles ≡ true

accept-IsStale :
    (id : ℕ) (p : ProxyServer)
    → p.connection_count + 1 < u64_mod
    → IsStale id p
    → IsStale id (accept p)
unfolding accept spawn_connection_handler
accept-IsStale id p small v = elim (Bool-cases (leb p.max_connections p.active_connections)) [
  | inl full ↦ rw full (record { issued = v.issued; gone = v.gone; kept = v.kept })
  | inr room ↦
      let next_id : inc64 p.connection_count ≡ p.connection_count + 1 = omega arith in
      rw (room, next_id)
        (record {
          issued = omega (arith, v.issued);
          gone = ground (arith, v.gone, v.issued);
          kept = v.kept;
        })
]

store_handle-IsStale :
    (id conn_id : ℕ) (p : ProxyServer) → IsStale id p → IsStale id (store_handle conn_id p)
unfolding store_handle register_abort_handle
store_handle-IsStale id conn_id p v = record {
  issued = v.issued;
  gone = v.gone;
  kept = ground (arith, v.kept, contains_key-insert conn_id id tt p.client_registry.abort_handles);
}

drop_guard-IsStale :
    (id conn_id : ℕ) (p : ProxyServer)
    → has conn_id p.tasks ≡ true
    → IsStale id p
    → IsStale id (drop_guard conn_id p)
unfolding drop_guard deregister
drop_guard-IsStale id conn_id p alive v = record {
  issued = v.issued;
  gone = ground (arith, v.gone, has-without conn_id id p.tasks);
  kept = ground (
    arith,
    v.kept,
    v.gone,
    alive,
    ==_iff conn_id id,
    contains_key-remove conn_id id p.client_registry.abort_handles,
  );
}

-- A client that has no entry is not killed, and keeps what handle there is.
not_listed :
    (db : Bytes) (id : ℕ) (r : ClientRegistry)
    → contains_key id r.inner ≡ false
    → found_of db (lookup id r.inner) ≡ false
not_listed db id r h = ground arith

not_in_inner :
    (id : ℕ) (p : ProxyServer)
    → IsCounted p
    → has id p.tasks ≡ false
    → contains_key id p.client_registry.inner ≡ false
not_in_inner id p v gone = elim (Bool-cases (contains_key id p.client_registry.inner)) [
  | inl there ↦ absurd (alive_and_gone (has id p.tasks) (v.live id there) gone)
  | inr absent ↦ absent
]
  where
    alive_and_gone : (b : Bool) → b ≡ true → b ≡ false → ⊥
    alive_and_gone b p q = cc

kills-IsStale :
    (id : ℕ) (db : Bytes) (p : ProxyServer)
    → IsCounted p
    → IsStale id p
    → contains_key id (kill_by_database db p.client_registry).registry.abort_handles ≡ true
unfolding get
kills-IsStale id db p v s =
    kill_by_database-handles db id p.client_registry v.valid
    ∙ ap (λ b. not b && contains_key id p.client_registry.abort_handles)
        (not_listed db id p.client_registry (not_in_inner id p v s.gone))
    ∙ s.kept

-- A handle whose task is gone is never removed: no step of the server or of a task takes it away, a KILL included, so it
-- stays as long as the server runs.
-- Condition: the server is in a state that satisfies the invariant of the connection limit.
pub Step-IsStale :
    {p q : ProxyServer} (id : ℕ) → Step p q → IsCounted p → IsStale id p → IsStale id q
Step-IsStale id (accepts p idle small) v s = accept-IsStale id p small s
Step-IsStale id (stores p conn_id e) v s = store_handle-IsStale id conn_id p s
Step-IsStale id (registers p entry alive) v s = register_keeps id p entry s
  where
    register_keeps :
        (id : ℕ) (p : ProxyServer) (entry : ClientEntry)
        → IsStale id p
        → IsStale id (record p { client_registry = register entry p.client_registry })
    register_keeps id p entry s = record {
      issued = s.issued;
      gone = s.gone;
      kept = unfold register in s.kept;
    }
Step-IsStale id (ends p conn_id alive) v s = drop_guard-IsStale id conn_id p alive s
Step-IsStale id (kills p db) v s = record {
  issued = s.issued;
  gone = s.gone;
  kept = kills-IsStale id db p v s;
}

-- What an accepted client leaves.
accept_lem :
    (p : ProxyServer)
    → p.active_connections < p.max_connections
    → p.connection_count + 1 < u64_mod
    → ((accept p).spawned ≡ some (p.connection_count + 1))
      × (has (p.connection_count + 1) (accept p).tasks ≡ true)
      × ((accept p).connection_count ≡ p.connection_count + 1)
unfolding accept spawn_connection_handler
accept_lem p room small =
    let id : inc64 p.connection_count ≡ p.connection_count + 1 = omega arith in
    let open_door : leb p.max_connections p.active_connections ≡ false = ground arith in
    rw (open_door, id) (refl, ground arith, refl)

end_store-IsStale :
    (id : ℕ) (p : ProxyServer)
    → id ≤ p.connection_count
    → IsStale id (store_handle id (drop_guard id p))
unfolding store_handle drop_guard deregister register_abort_handle
end_store-IsStale id p issued = record {
  issued = issued;
  gone = ground (arith, has-without id id p.tasks);
  kept =
      ground (arith, contains_key-insert id id tt (deregister id p.client_registry).abort_handles);
}

drop_guard-spawned : (id : ℕ) (p : ProxyServer) → (drop_guard id p).spawned ≡ p.spawned
unfolding drop_guard
drop_guard-spawned id p = refl

-- A client may end before the accept loop has stored its handle, and then the handle is stored for nothing: whenever a
-- client can be accepted, these three steps are possible, and after them the handle is there and its task is gone.
-- Conditions: no other handle is still to be stored, and the limit is not reached.
pub accept_end_store-IsStale :
    (p : ProxyServer)
    → p.spawned ≡ none
    → p.active_connections < p.max_connections
    → p.connection_count + 1 < u64_mod
    → (q : ProxyServer) × Reach p q × IsStale (p.connection_count + 1) q
accept_end_store-IsStale p idle room small =
    let id : ℕ = p.connection_count + 1 in
    let (is_spawned, alive, count) = accept_lem p room small in
    (
      store_handle id (drop_guard id (accept p)),
      next (next (next here (accepts p (ap is_some idle) small)) (ends (accept p) id alive))
          (stores (drop_guard id (accept p)) id (drop_guard-spawned id (accept p) ∙ is_spawned)),
      end_store-IsStale id (accept p) (omega (arith, count)),
    )
