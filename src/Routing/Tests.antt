-- ===== src/Routing/Tests.antt =====
-- Two databases of one name and one of another: runs, and an instance of the result.
use scry_proxy.Base.{ℕ, ◌≡◌, refl, none, List, [], ◌∷◌, Bytes, codes}
use scry_proxy.Routing.{DatabaseConfig, BackendConfig, new, route, database_names, route_count}

abbrev on_port : Bytes → ℕ → DatabaseConfig
on_port name port = record {
  name = name;
  host = codes "h";
  port = port;
  database = name;
  user = codes "u";
  password = [];
  pool_size = none;
}

abbrev backend : BackendConfig
backend = record {
  host = codes "d";
  port = 5432;
  database = codes "db";
  user = codes "u";
  password = [];
}

abbrev databases : List DatabaseConfig
databases = on_port (codes "app") 1 ∷ on_port (codes "log") 2 ∷ on_port (codes "app") 3 ∷ []

route_run :
    (route (codes "app") (new databases backend 50) ≡ on_port (codes "app") 3)
    × ((route (codes "x") (new databases backend 50)).port ≡ 5432)
    × (database_names (new databases backend 50) ≡ codes "app" ∷ codes "log" ∷ [])
    × (route_count (new databases backend 50) ≡ 2)
unfolding new route database_names route_count
route_run = (refl, refl, refl, refl)
