-- ===== src/Admin/Commands/Pausing.antt =====
-- What PAUSE and RESUME do to the pools.
use scry_proxy.Base.{
  ℕ, ◌≡◌, refl, ap, sym, ◌∙◌, Bool, false, Option, none, some, List, [], ◌∷◌, arith, Bytes,
  bytes_eq, bytes_eq_iff, bytes_key, codes, lookup, if◌then◌else◌,
}
use scry_proxy.Proxy.PoolManager.{PoolManager, Backends, failed, paused, acquire, pause, resume}
use scry_proxy.Admin.Response.{AdminResponse, command_complete}
use scry_proxy.Admin.Commands.{
  Handles, resolve_pool_manager, update_pool, update_all, on_resolved, pause_pools, resume_pools,
}

module _ {P C : Type 0} where
  abbrev pub changed :
      (PoolManager P C → PoolManager P C) → Option (PoolManager P C) → Option (PoolManager P C)
  changed f none = none
  changed f (some m) = some (f m)

  lookup-update_pool :
      (f : PoolManager P C → PoolManager P C) (key k : Bytes)
      (pools : List (Bytes × PoolManager P C))
      → lookup k (update_pool f key pools)
        ≡ (if bytes_eq key k then changed f (lookup k pools) else lookup k pools)
  lookup-update_pool f key k [] = ground arith
  lookup-update_pool f key k ((j, m) ∷ rest) = ground (
    arith,
    bytes_eq_iff j key,
    bytes_eq_iff j k,
    bytes_eq_iff key k,
    lookup-update_pool f key k rest,
  )

  lookup-update_all :
      (f : PoolManager P C → PoolManager P C) (k : Bytes) (pools : List (Bytes × PoolManager P C))
      → lookup k (update_all f pools) ≡ changed f (lookup k pools)
  lookup-update_all f k [] = refl
  lookup-update_all f k ((j, m) ∷ rest) = ground (arith, lookup-update_all f k rest)

  acquire-pause :
      (pools : Backends P C) (client_id : ℕ) (sticky : Bool) (m : PoolManager P C)
      → acquire pools client_id sticky (pause m) ≡ (pause m, failed paused)
  unfolding acquire pause
  acquire-pause pools client_id sticky m = refl

  update_pool-at :
      (f : PoolManager P C → PoolManager P C) (key k : Bytes)
      (pools : List (Bytes × PoolManager P C)) (m : PoolManager P C)
      → lookup key pools ≡ some m
      → (lookup key (update_pool f key pools) ≡ some (f m))
        × (bytes_eq key k ≡ false → lookup k (update_pool f key pools) ≡ lookup k pools)
  update_pool-at f key k pools m there = (
    lookup-update_pool f key key pools
        ∙ ap (λ b. if b then changed f (lookup key pools) else lookup key pools)
            ((bytes_eq_iff key key).1 refl)
        ∙ ap (changed f) there,
    λ other.
        lookup-update_pool f key k pools
        ∙ ap (λ b. if b then changed f (lookup k pools) else lookup k pools) other,
  )

  pause_pools-resolved :
      (db key : Bytes) (h : Handles P C)
      → resolve_pool_manager db h ≡ some key
      → pause_pools (some db) h ≡ (
        record h { pool_managers = update_pool pause key h.pool_managers },
        command_complete (codes "PAUSE"),
      )
  pause_pools-resolved db key h e =
      unfold pause_pools in ap (on_resolved pause (codes "PAUSE") db h) e

  -- PAUSE of a database pauses its pool and no other: the answer is PAUSE, the pool is paused in the console's map, an
  -- acquire on the paused pool, by any client, one with a sticky connection included, is refused as paused and changes
  -- nothing, and every other pool is as before. (A client that waits already is not concerned.)
  -- Conditions: the name resolves to a pool, which is there.
  pub pause_pools-acquire :
      (db key k : Bytes) (h : Handles P C) (m : PoolManager P C) (pools : Backends P C)
      (client_id : ℕ) (needs_sticky : Bool)
      → resolve_pool_manager db h ≡ some key
      → lookup key h.pool_managers ≡ some m
      → let (h', answer) = pause_pools (some db) h in
        (answer ≡ command_complete (codes "PAUSE"))
        × (lookup key h'.pool_managers ≡ some (pause m))
        × (acquire pools client_id needs_sticky (pause m) ≡ (pause m, failed paused))
        × (bytes_eq key k ≡ false → lookup k h'.pool_managers ≡ lookup k h.pool_managers)
  pause_pools-acquire db key k h m pools client_id needs_sticky e there =
      let (at_key, at_others) = update_pool-at pause key k h.pool_managers m there in
      let same = pause_pools-resolved db key h e in
      (
        ap (λ (r : Handles P C × AdminResponse). r.1) same,
        ap (λ (r : Handles P C × AdminResponse). lookup key r.0.pool_managers) same ∙ at_key,
        acquire-pause pools client_id needs_sticky m,
        λ other.
            ap (λ (r : Handles P C × AdminResponse). lookup k r.0.pool_managers) same
            ∙ at_others other,
      )

  resume-pause : (m : PoolManager P C) → resume (pause m) ≡ resume m
  unfolding pause resume
  resume-pause m = refl

  -- PAUSE of all databases and then RESUME of all leaves every pool as RESUME alone does: what was paused in between
  -- leaves no trace, and no pool appears or disappears.
  pub resume_pools-pause_pools :
      (k : Bytes) (h : Handles P C)
      → lookup k (resume_pools none (pause_pools none h).0).0.pool_managers
        ≡ lookup k (resume_pools none h).0.pool_managers
  unfolding pause_pools resume_pools
  resume_pools-pause_pools k h =
      lookup-update_all resume k (update_all pause h.pool_managers)
      ∙ ap (changed resume) (lookup-update_all pause k h.pool_managers)
      ∙ twice (lookup k h.pool_managers)
      ∙ sym (lookup-update_all resume k h.pool_managers)
    where
      twice : (o : Option (PoolManager P C)) → changed resume (changed pause o) ≡ changed resume o
      twice none = refl
      twice (some m) = ap some (resume-pause m)
