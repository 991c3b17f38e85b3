-- ===== src/Proxy/Server/Limit.antt =====
-- The connection limit, over all runs of the server and its tasks.
use scry_proxy.Base.{
  ℕ, ◌+◌, ◌≤◌, ◌<◌, u64_mod, ◌≡◌, refl, ap, sym, subst, ◌∙◌, true, false, Option, none, some, List,
  [], ◌∷◌, arith, Bytes, nat_eq, ==_iff, has, without, has-without, without-Distinct,
  length-without, Distinct, All, length, leb, inc64, lookup, contains_key, contains_key-insert,
  contains_key-remove, is_some, Bool-cases, inl, inr,
}
use scry_proxy.Proxy.ClientRegistry.{
  ClientRegistry, ClientEntry, register, register_abort_handle, deregister, kill_by_database, get,
  new,
}
use scry_proxy.Proxy.ClientRegistry.Kill.{
  IsValid, register-IsValid, register_abort_handle-IsValid, deregister-IsValid,
  kill_by_database-IsValid, kill_by_database-get, unless_killed,
}
use scry_proxy.Proxy.Server.{
  ProxyServer, start, spawn_connection_handler, accept, store_handle, drop_guard, Step, accepts,
  stores, registers, ends, kills, Reach, here, next,
}

-- The tasks are told apart, and their ids have been given out.
abbrev AreIssued : ℕ → List ℕ → Type 0
AreIssued count tasks = All (λ id. id ≤ count) tasks

pub record IsCounted (p : ProxyServer) : Type 0 where
  pub counted : p.active_connections ≡ length p.tasks
  pub metrics : p.metrics_active ≡ length p.tasks
  pub limit : length p.tasks ≤ p.max_connections
  pub small : p.max_connections < u64_mod
  pub issued : AreIssued p.connection_count p.tasks
  pub distinct : Distinct p.tasks
  pub valid : IsValid p.client_registry
  pub live : (id : ℕ) → contains_key id p.client_registry.inner ≡ true → has id p.tasks ≡ true

AreIssued-suc : (count : ℕ) (tasks : List ℕ) → AreIssued count tasks → AreIssued (count + 1) tasks
AreIssued-suc count [] h = tt
AreIssued-suc count (id ∷ tasks) h = (omega (arith, h.0), AreIssued-suc count tasks h.1)

AreIssued-fresh :
    (count : ℕ) (tasks : List ℕ) → AreIssued count tasks → has (count + 1) tasks ≡ false
AreIssued-fresh count [] h = refl
AreIssued-fresh count (id ∷ tasks) h = ground (arith, AreIssued-fresh count tasks h.1)

AreIssued-without :
    (id count : ℕ) (tasks : List ℕ) → AreIssued count tasks → AreIssued count (without id tasks)
AreIssued-without id count [] h = tt
AreIssued-without id count (k ∷ tasks) h = ground (arith, AreIssued-without id count tasks h.1)

start-IsCounted : (n : ℕ) → n < u64_mod → IsCounted (start n)
unfolding start new
start-IsCounted n h = record {
  counted = refl;
  metrics = refl;
  limit = omega arith;
  small = h;
  issued = tt;
  distinct = tt;
  valid = record { keyed = tt; distinct = tt; distinct_handles = tt };
  live = λ id h. cc;
}

-- A client that is let in.
spawn-IsCounted :
    (p : ProxyServer)
    → IsCounted p
    → p.active_connections < p.max_connections
    → p.connection_count + 1 < u64_mod
    → IsCounted (
        spawn_connection_handler
          (inc64 p.connection_count)
          (record p { connection_count = inc64 p.connection_count }))
unfolding spawn_connection_handler
spawn-IsCounted p v room count =
    let id : inc64 p.connection_count ≡ p.connection_count + 1 = omega arith in
    rw id (record {
      counted = ground (arith, v.counted, v.limit, v.small);
      metrics = ground (arith, v.metrics, v.limit, v.small);
      limit = ground (arith, v.counted);
      small = v.small;
      issued = (omega arith, AreIssued-suc p.connection_count p.tasks v.issued);
      distinct = (AreIssued-fresh p.connection_count p.tasks v.issued, v.distinct);
      valid = v.valid;
      live = λ k h. ground (arith, v.live k h);
    })

accept-IsCounted :
    (p : ProxyServer) → IsCounted p → p.connection_count + 1 < u64_mod → IsCounted (accept p)
unfolding accept
accept-IsCounted p v count = elim (Bool-cases (leb p.max_connections p.active_connections)) [
  | inl full ↦ rw full (record {
    counted = v.counted;
    metrics = v.metrics;
    limit = v.limit;
    small = v.small;
    issued = v.issued;
    distinct = v.distinct;
    valid = v.valid;
    live = v.live;
  })
  | inr room ↦ rw room (spawn-IsCounted p v (ground arith) count)
]

drop_guard-IsCounted :
    (p : ProxyServer) (id : ℕ) → IsCounted p → has id p.tasks ≡ true → IsCounted (drop_guard id p)
unfolding drop_guard deregister
drop_guard-IsCounted p id v alive =
    let fewer = length-without id p.tasks v.distinct alive in
    record {
      counted = omega (arith, v.counted, fewer, v.limit, v.small);
      metrics = omega (arith, v.metrics, fewer, v.limit, v.small);
      limit = omega (arith, fewer, v.limit);
      small = v.small;
      issued = AreIssued-without id p.connection_count p.tasks v.issued;
      distinct = without-Distinct id p.tasks v.distinct;
      valid = deregister-IsValid id p.client_registry v.valid;
      live = λ k h. still id k p v h;
    }
  where
    still :
        (id k : ℕ) (p : ProxyServer)
        → IsCounted p
        → contains_key k (deregister id p.client_registry).inner ≡ true
        → has k (without id p.tasks) ≡ true
    still id k p v h = ground (
      arith,
      contains_key-remove id k p.client_registry.inner,
      has-without id k p.tasks,
      v.live k,
    )

-- A change of the registry alone, after which its entries are still those of live tasks.
with_registry :
    (p : ProxyServer) (r : ClientRegistry) (spawned : Option ℕ)
    → IsCounted p
    → IsValid r
    → ((id : ℕ) → contains_key id r.inner ≡ true → has id p.tasks ≡ true)
    → IsCounted (record p { client_registry = r; spawned = spawned })
with_registry p r spawned v valid live = record {
  counted = v.counted;
  metrics = v.metrics;
  limit = v.limit;
  small = v.small;
  issued = v.issued;
  distinct = v.distinct;
  valid = valid;
  live = live;
}

registered_live :
    (p : ProxyServer) (entry : ClientEntry) (id : ℕ)
    → IsCounted p
    → has entry.conn_id p.tasks ≡ true
    → contains_key id (register entry p.client_registry).inner ≡ true
    → has id p.tasks ≡ true
unfolding register
registered_live p entry id v alive h = ground (
  arith,
  contains_key-insert entry.conn_id id entry p.client_registry.inner,
  ==_iff entry.conn_id id,
  v.live id,
)

unless_killed-is_some :
    (db : Bytes) (o : Option ClientEntry) → is_some (unless_killed db o) ≡ true → is_some o ≡ true
unless_killed-is_some db none h = h
unless_killed-is_some db (some e) h = refl

killed_live :
    (p : ProxyServer) (db : Bytes) (id : ℕ)
    → IsCounted p
    → contains_key id (kill_by_database db p.client_registry).registry.inner ≡ true
    → has id p.tasks ≡ true
unfolding get
killed_live p db id v h = v.live id (
    unless_killed-is_some db (lookup id p.client_registry.inner)
      (sym (ap is_some (kill_by_database-get db id p.client_registry v.valid).0) ∙ h))

Step-IsCounted : {p q : ProxyServer} → Step p q → IsCounted p → IsCounted q
unfolding store_handle register_abort_handle
Step-IsCounted (accepts p idle count) v = accept-IsCounted p v count
Step-IsCounted (stores p id e) v =
    with_registry p (register_abort_handle id p.client_registry) none v
      (register_abort_handle-IsValid id p.client_registry v.valid) v.live
Step-IsCounted (registers p entry alive) v =
    with_registry p (register entry p.client_registry) p.spawned v
      (register-IsValid entry p.client_registry v.valid)
      (λ id h. registered_live p entry id v alive h)
Step-IsCounted (ends p id alive) v = drop_guard-IsCounted p id v alive
Step-IsCounted (kills p db) v =
    with_registry p (kill_by_database db p.client_registry).registry p.spawned v
      (kill_by_database-IsValid db p.client_registry v.valid) (λ id h. killed_live p db id v h)

Reach-IsCounted : {p q : ProxyServer} → IsCounted p → Reach p q → IsCounted q
Reach-IsCounted v here = v
Reach-IsCounted v (next r s) = Step-IsCounted s (Reach-IsCounted v r)

Step-max_connections : {p q : ProxyServer} → Step p q → q.max_connections ≡ p.max_connections
unfolding accept spawn_connection_handler store_handle drop_guard
Step-max_connections (accepts p idle count) = ground arith
Step-max_connections (stores p id e) = refl
Step-max_connections (registers p entry alive) = refl
Step-max_connections (ends p id alive) = refl
Step-max_connections (kills p db) = refl

max_connections-Reach : {p q : ProxyServer} → Reach p q → q.max_connections ≡ p.max_connections
max_connections-Reach here = refl
max_connections-Reach (next r s) = Step-max_connections s ∙ max_connections-Reach r

-- However clients connect, register, end and are killed, and in whatever order: the connections that are served are
-- never more than the limit, both counters of active connections are exact, and the registry lists only clients
-- whose task is alive.
-- Conditions: the limit is a 64-bit number, and fewer than 2 ^ 64 clients connect.
pub Reach-limit :
    (n : ℕ) (p : ProxyServer)
    → n < u64_mod
    → Reach (start n) p
    → (length p.tasks ≤ n)
      × (p.active_connections ≡ length p.tasks)
      × (p.metrics_active ≡ length p.tasks)
      × ((id : ℕ) → contains_key id p.client_registry.inner ≡ true → has id p.tasks ≡ true)
unfolding start
Reach-limit n p small r =
    let v = Reach-IsCounted (start-IsCounted n small) r in
    (
      subst (λ m. length p.tasks ≤ m) (max_connections-Reach r) v.limit,
      v.counted,
      v.metrics,
      v.live,
    )
