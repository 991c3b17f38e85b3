-- ===== src/Admin/Commands/Tests.antt =====
-- A console with two pools of numbers.
use scry_proxy.Base.{
  ℕ, ◌≡◌, refl, true, false, some, [], ◌∷◌, codes, lookup, bytes_eq, bytes_key,
  eq_ignore_ascii_case,
}
use scry_proxy.Proxy.WaitQueue
use scry_proxy.Proxy.PoolManager.{PoolManager, Backends, pause, acquire, failed, paused, new}
use scry_proxy.Proxy.ClientRegistry
use scry_proxy.Admin.Response.{command_complete}
use scry_proxy.Admin.Commands.{Handles, resolve_pool_manager, pause_pools}
use scry_proxy.Admin.Commands.Pausing.{pause_pools-acquire}

abbrev pools : Backends ℕ ℕ
pools = record { get = λ n. (n, some n); put_back = λ (c : ℕ) (n : ℕ). n }

abbrev pool : PoolManager ℕ ℕ
pool =
    new 0 (WaitQueue.new 1)
      (record { lifo = true; queue_depth = 1; idle_unpin_secs = 60; wait_timeout_ms = 500 })

abbrev handles : Handles ℕ ℕ
handles = record {
  pool_managers = (codes "*", pool) ∷ (codes "app", pool) ∷ [];
  databases = record { name = codes "Main"; pool_key = codes "*" } ∷ [];
  client_registry = ClientRegistry.new;
}

resolved : resolve_pool_manager (codes "main") handles ≡ some (codes "*")
unfolding resolve_pool_manager eq_ignore_ascii_case
resolved = refl

pause_pools-acquire_example :
    let (h', answer) = pause_pools (some (codes "main")) handles in
    (answer ≡ command_complete (codes "PAUSE"))
    × (lookup (codes "*") h'.pool_managers ≡ some (pause pool))
    × (acquire pools 7 true (pause pool) ≡ (pause pool, failed paused))
    × (bytes_eq (codes "*") (codes "app") ≡ false
        → lookup (codes "app") h'.pool_managers ≡ lookup (codes "app") handles.pool_managers)
pause_pools-acquire_example =
    pause_pools-acquire (codes "main") (codes "*") (codes "app") handles pool pools 7 true resolved
      refl
