-- ===== src/Routing/Choice.antt =====
-- Which backend the router of scry-proxy/src/routing/mod.rs chooses.
use scry_proxy.Base.{
  ℕ, ◌≡◌, refl, ap, ◌∙◌, Option, none, some, List, [], ◌∷◌, Bytes, bytes_eq, bytes_key, is_some,
  lookup, insert, lookup-insert, if◌then◌else◌,
}
use scry_proxy.Routing.{
  DatabaseConfig, BackendConfig, add_routes, from_backend, new, unwrap_or, route, has_route,
}

-- The last database of a name in a list, from the configuration's point of view; `seen` is one that stands before.
pub last_named : Bytes → List DatabaseConfig → Option DatabaseConfig → Option DatabaseConfig
last_named name [] seen = seen
last_named name (db ∷ rest) seen =
    last_named name rest (if bytes_eq db.name name then some db else seen)

lookup-add_routes :
    (name : Bytes) (databases : List DatabaseConfig) (routes : List (Bytes × DatabaseConfig))
    → lookup name (add_routes databases routes) ≡ last_named name databases (lookup name routes)
unfolding add_routes last_named
lookup-add_routes name [] routes = refl
lookup-add_routes name (db ∷ rest) routes =
    lookup-add_routes name rest (insert db.name db routes)
    ∙ ap (last_named name rest) (lookup-insert db.name name db routes)

-- A client is sent to the last database that is configured under the name it asks for, and where there is none to the
-- default backend, with the default size of the pool; and `has_route` says which of the two it is.
pub route-new :
    (name : Bytes) (databases : List DatabaseConfig) (backend : BackendConfig)
    (default_pool_size : ℕ)
    → let r = new databases backend default_pool_size in
      let chosen = last_named name databases none in
      (route name r ≡ unwrap_or (from_backend backend default_pool_size) chosen)
      × (has_route name r ≡ is_some chosen)
unfolding new route has_route
route-new name databases backend default_pool_size =
    let chosen = lookup-add_routes name databases [] in
    (ap (unwrap_or (from_backend backend default_pool_size)) chosen, ap is_some chosen)
