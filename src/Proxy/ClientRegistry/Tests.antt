-- ===== src/Proxy/ClientRegistry/Tests.antt =====
-- A registry of two clients, of which one has no abort handle yet.
use scry_proxy.Base.{nat_eq, ◌≡◌, refl, false, ◌&&◌, [], ◌∷◌, codes, ℕ, Bytes, has, contains_key}
use scry_proxy.Proxy.ClientRegistry.{ClientEntry, ClientRegistry, active, kill_by_database, get}
use scry_proxy.Proxy.ClientRegistry.Kill.{unless_killed, found_of, kill_by_database-get}

abbrev client : ℕ → Bytes → ClientEntry
client id database = record {
  conn_id = id;
  addr = codes "127.0.0.1:5000";
  user = codes "app";
  database = database;
  state = active;
  connect_time = 1;
  last_request_time = 1;
  tls = false;
}

abbrev registry : ClientRegistry
registry = record {
  inner = (1, client 1 (codes "Main")) ∷ (2, client 2 (codes "other")) ∷ [];
  abort_handles = (2, tt) ∷ [];
}

kill_by_database-get_example :
    let k = kill_by_database (codes "main") registry in
    (get 1 k.registry ≡ unless_killed (codes "main") (get 1 registry))
    × (has 1 k.ids ≡ found_of (codes "main") (get 1 registry))
    × (has 1 k.stopped
        ≡ (found_of (codes "main") (get 1 registry) && contains_key 1 registry.abort_handles))
kill_by_database-get_example = kill_by_database-get (codes "main") 1 registry (record {
  keyed = (refl, (refl, tt));
  distinct = (refl, (refl, tt));
  distinct_handles = (refl, tt);
})
