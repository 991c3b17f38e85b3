-- ===== src/Proxy/Server.antt =====
-- scry-proxy/src/proxy/server.rs: the connection limit of the accept loops, the tasks with their drop guards, and the
-- login of the admin console. The tasks run beside the accept loop: what each of them does is a step.
pub mod Lifecycle
pub mod Limit
pub mod Admin
mod Tests
use scry_proxy.Base.{
  ℕ, ◌+◌, ◌<◌, u64_mod, Bool, true, false, not, ◌&&◌, Option, none, some, List, [], ◌∷◌, Bytes,
  codes, nat_eq, has, without, length, leb, inc64, dec64, if◌then◌else◌, is_some, ◌≡◌,
}
use scry_proxy.Protocol.AuthMessages.{build_error_response}
use scry_proxy.Proxy.ClientRegistry.{
  ClientRegistry, ClientEntry, Killed, register, register_abort_handle, deregister,
  kill_by_database,
}
use scry_proxy.Proxy.ClientRegistry

-- The server with the counters of the metrics that the guard touches, the connections whose task is alive, and the
-- task that the accept loop has spawned and whose abort handle it has still to store.
pub record ProxyServer : Type 0 where
  pub max_connections : ℕ
  pub active_connections : ℕ
  pub metrics_active : ℕ
  pub connections_rejected : ℕ
  pub connection_count : ℕ
  pub client_registry : ClientRegistry
  pub tasks : List ℕ
  pub spawned : Option ℕ

unfoldable pub start : ℕ → ProxyServer
start max_connections = record {
  max_connections = max_connections;
  active_connections = 0;
  metrics_active = 0;
  connections_rejected = 0;
  connection_count = 0;
  client_registry = ClientRegistry.new;
  tasks = [];
  spawned = none;
}

-- The counters before the spawn, and the task.
unfoldable pub spawn_connection_handler : ℕ → ProxyServer → ProxyServer
spawn_connection_handler conn_id p = record p {
  active_connections = inc64 p.active_connections;
  metrics_active = inc64 p.metrics_active;
  tasks = conn_id ∷ p.tasks;
  spawned = some conn_id;
}

-- A client that connects, over TCP or a UNIX socket.
unfoldable pub accept : ProxyServer → ProxyServer
unfolding spawn_connection_handler
accept p =
    if leb p.max_connections p.active_connections
    then record p { connections_rejected = inc64 p.connections_rejected }
    else let conn_id = inc64 p.connection_count in
      spawn_connection_handler conn_id (record p { connection_count = conn_id })

-- The end of the spawn functions.
unfoldable pub store_handle : ℕ → ProxyServer → ProxyServer
store_handle conn_id p = record p {
  client_registry = register_abort_handle conn_id p.client_registry;
  spawned = none;
}

-- `ConnectionCountGuard::drop`, with the end of its task.
unfoldable pub drop_guard : ℕ → ProxyServer → ProxyServer
drop_guard conn_id p = record p {
  active_connections = dec64 p.active_connections;
  metrics_active = dec64 p.metrics_active;
  client_registry = deregister conn_id p.client_registry;
  tasks = without conn_id p.tasks;
}

-- What the server and its tasks do, in any order that the guards allow: the accept loop has stored the handle of one
-- task before it accepts again, and only a live task registers or ends. Fewer than 2 ^ 64 clients connect.
pub data Step : ProxyServer → ProxyServer → Type 0 where
  accepts :
      (p : ProxyServer)
      → is_some p.spawned ≡ false
      → p.connection_count + 1 < u64_mod
      → Step p (accept p)
  stores :
      (p : ProxyServer) (conn_id : ℕ) → p.spawned ≡ some conn_id → Step p (store_handle conn_id p)
  registers :
      (p : ProxyServer) (entry : ClientEntry)
      → has entry.conn_id p.tasks ≡ true
      → Step p (record p { client_registry = register entry p.client_registry })
  ends :
      (p : ProxyServer) (conn_id : ℕ) → has conn_id p.tasks ≡ true → Step p (drop_guard conn_id p)
  kills :
      (p : ProxyServer) (db : Bytes)
      → Step p (record p { client_registry = (kill_by_database db p.client_registry).registry })

pub data Reach (p : ProxyServer) : ProxyServer → Type 0 where
  here : Reach p p
  next : {q r : ProxyServer} → Reach p q → Step q r → Reach p r
