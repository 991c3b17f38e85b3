-- ===== src/Proxy/Server/Tests.antt =====
-- Clients that come and go.
use scry_proxy.Base.{◌≡◌, ◌≤◌, ◌+◌, refl, true, ℕ, arith, length, has, contains_key, nat_eq}
use scry_proxy.Proxy.Server.{
  ProxyServer, start, spawn_connection_handler, accept, store_handle, Reach, here, next, accepts,
  stores,
}
use scry_proxy.Proxy.Server.Limit.{Reach-limit}
use scry_proxy.Proxy.Server.Lifecycle.{IsStale, accept_end_store-IsStale}

abbrev served : ProxyServer
served = store_handle 1 (accept (start 2))

served-Reach : Reach (start 2) served
unfolding start accept spawn_connection_handler
served-Reach =
    next (next here (accepts (start 2) refl (omega arith))) (stores (accept (start 2)) 1 refl)

Reach-limit_example :
    (length served.tasks ≤ 2)
    × (served.active_connections ≡ length served.tasks)
    × (served.metrics_active ≡ length served.tasks)
    × ((id : ℕ) → contains_key id served.client_registry.inner ≡ true → has id served.tasks ≡ true)
Reach-limit_example = Reach-limit 2 served (omega arith) served-Reach

accept_end_store-IsStale_example :
    (q : ProxyServer) × Reach (start 2) q × IsStale ((start 2).connection_count + 1) q
unfolding start
accept_end_store-IsStale_example =
    accept_end_store-IsStale (start 2) refl (omega arith) (omega arith)
