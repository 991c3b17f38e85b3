-- ===== src/Routing.antt =====
-- scry-proxy/src/routing/mod.rs: the backend of a database's name.
pub mod Choice
mod Tests
use scry_proxy.Base.{
  ℕ, Bool, Option, none, some, List, [], ◌∷◌, Bytes, bytes_key, codes, lookup, contains_key, insert,
  keys, length,
}

pub record DatabaseConfig : Type 0 where
  pub name : Bytes
  pub host : Bytes
  pub port : ℕ
  pub database : Bytes
  pub user : Bytes
  pub password : Bytes
  pub pool_size : Option ℕ

-- The fields of the default backend that the router reads.
pub record BackendConfig : Type 0 where
  pub host : Bytes
  pub port : ℕ
  pub database : Bytes
  pub user : Bytes
  pub password : Bytes

pub record DatabaseRouter : Type 0 where
  pub routes : List (Bytes × DatabaseConfig)
  pub default_config : DatabaseConfig

-- The loop of `new`.
pub add_routes : List DatabaseConfig → List (Bytes × DatabaseConfig) → List (Bytes × DatabaseConfig)
add_routes [] routes = routes
add_routes (db ∷ rest) routes = add_routes rest (insert db.name db routes)

abbrev pub from_backend : BackendConfig → ℕ → DatabaseConfig
from_backend backend default_pool_size = record {
  name = codes "*";
  host = backend.host;
  port = backend.port;
  database = backend.database;
  user = backend.user;
  password = backend.password;
  pool_size = some default_pool_size;
}

pub new : List DatabaseConfig → BackendConfig → ℕ → DatabaseRouter
unfolding add_routes
new databases default_backend default_pool_size = record {
  routes = add_routes databases [];
  default_config = from_backend default_backend default_pool_size;
}

abbrev pub unwrap_or : {A : Type 0} → A → Option A → A
unwrap_or d none = d
unwrap_or d (some a) = a

pub route : Bytes → DatabaseRouter → DatabaseConfig
route database_name r = unwrap_or r.default_config (lookup database_name r.routes)

pub has_route : Bytes → DatabaseRouter → Bool
has_route database_name r = contains_key database_name r.routes

pub database_names : DatabaseRouter → List Bytes
database_names r = keys r.routes

pub route_count : DatabaseRouter → ℕ
route_count r = length r.routes
