-- ===== src/Admin/Commands.antt =====
-- scry-proxy/src/admin/commands.rs: the commands of the admin console that change something, with the commands that
-- report as a parameter. The pools stand by key; the answers of the reload function and of the shutdown trigger, and how
-- the wait for a drain ends, are parameters.
pub mod Pausing
mod Tests
use scry_proxy.Base.{
  ℕ, ◌+◌, Bool, true, false, not, ◌&&◌, ◌||◌, Option, none, some, List, [], ◌∷◌, ◌++◌, Bytes,
  bytes_eq, bytes_key, codes, lookup, contains_key, insert, map, length, decimal, trim,
  to_uppercase, to_lowercase, starts_with, drop, split_whitespace, eq_ignore_ascii_case,
  if◌then◌else◌, Result, ok, err, is_some,
}
use scry_proxy.Proxy.PoolManager.{PoolManager, pause, resume}
use scry_proxy.Proxy.ClientRegistry.{ClientRegistry, Killed, kill_by_database}
use scry_proxy.Admin.Response.{AdminResponse, command_complete, error}

pub data AdminCommand : Type 0 where
  show_pools show_stats show_databases show_clients show_servers show_version show_config :
      AdminCommand
  pause_command resume_command kill_command : (database : Option Bytes) → AdminCommand
  reload_command : AdminCommand
  shutdown_command : (wait : Bool) → AdminCommand

abbrev pub is_any : List Bytes → Bytes → Bool
is_any [] s = false
is_any (t ∷ ts) s = bytes_eq s t || is_any ts s

abbrev pub show_of : Bytes → Option AdminCommand
show_of what =
    if bytes_eq what (codes "POOLS")
    then some show_pools
    else if is_any (codes "STATS" ∷ codes "STATS_TOTALS" ∷ codes "STATS_AVERAGES" ∷ []) what
    then some show_stats
    else if bytes_eq what (codes "DATABASES")
    then some show_databases
    else if bytes_eq what (codes "CLIENTS")
    then some show_clients
    else if bytes_eq what (codes "SERVERS")
    then some show_servers
    else if bytes_eq what (codes "VERSION")
    then some show_version
    else if bytes_eq what (codes "CONFIG")
    then some show_config
    else none

abbrev pub show_command : List Bytes → Option AdminCommand
show_command [] = none
show_command (what ∷ rest) = show_of what

-- `parts.get(1).map(|s| s.to_lowercase())`
abbrev pub database_of : List Bytes → Option Bytes
database_of [] = none
database_of (db ∷ rest) = some (to_lowercase db)

abbrev pub waits : List Bytes → Bool
waits [] = false
waits (word ∷ rest) = bytes_eq word (codes "WAIT")

-- The `match` on the first word.
unfoldable pub command_of : List Bytes → Option AdminCommand
command_of [] = none
command_of (verb ∷ args) =
    if bytes_eq verb (codes "SHOW")
    then show_command args
    else if bytes_eq verb (codes "PAUSE")
    then some (pause_command (database_of args))
    else if bytes_eq verb (codes "RESUME")
    then some (resume_command (database_of args))
    else if bytes_eq verb (codes "RELOAD")
    then some reload_command
    else if bytes_eq verb (codes "SHUTDOWN")
    then some (shutdown_command (waits args))
    else if bytes_eq verb (codes "KILL")
    then some (kill_command (database_of args))
    else none

unfoldable pub parse : Bytes → Option AdminCommand
unfolding command_of trim to_uppercase split_whitespace
parse sql = command_of (split_whitespace (to_uppercase (trim sql)))

abbrev pub first_of : List Bytes → Bytes
first_of [] = []
first_of (word ∷ rest) = word

abbrev pub report_words : List Bytes
report_words =
    codes "POOLS"
    ∷ codes "STATS"
    ∷ codes "STATS_TOTALS"
    ∷ codes "STATS_AVERAGES"
    ∷ codes "DATABASES"
    ∷ codes "CLIENTS"
    ∷ codes "SERVERS"
    ∷ codes "VERSION"
    ∷ codes "CONFIG"
    ∷ []

unfoldable pub is_admin_command : Bytes → Bool
unfolding trim to_uppercase split_whitespace starts_with
is_admin_command sql =
    let upper = to_uppercase (trim sql) in
    if starts_with (codes "SHOW ") upper
    then is_any report_words (first_of (split_whitespace (trim (drop 5 upper))))
    else (((starts_with (codes "PAUSE") upper || starts_with (codes "RESUME") upper)
          || starts_with (codes "RELOAD") upper)
        || starts_with (codes "SHUTDOWN") upper)
      || starts_with (codes "KILL") upper

-- The name that clients use for a database, and the key of its pool.
pub record DatabaseEntry : Type 0 where
  pub name : Bytes
  pub pool_key : Bytes

-- What the console works on: the pools, the entries of the configuration with the default one first, and the clients.
pub record Handles (P C : Type 0) : Type 0 where
  pub pool_managers : List (Bytes × PoolManager P C)
  pub databases : List DatabaseEntry
  pub client_registry : ClientRegistry

abbrev pub find_entry : Bytes → List DatabaseEntry → Option Bytes
find_entry db [] = none
find_entry db (e ∷ rest) =
    if eq_ignore_ascii_case e.name db then some e.pool_key else find_entry db rest

abbrev pub is_known : Bytes → List DatabaseEntry → Bool
is_known db [] = false
is_known db (e ∷ rest) =
    (eq_ignore_ascii_case e.name db || eq_ignore_ascii_case e.pool_key db) || is_known db rest

-- The one line of an answer that it is an error.
abbrev pub no_such_database : Bytes → AdminResponse
no_such_database db = error (codes "no such database: " ++ db)

unfoldable pub reload : Result (Unit {0}) Bytes → AdminResponse
reload (ok done) = command_complete (codes "RELOAD")
reload (err e) = error (codes "reload failed: " ++ e)

-- What the wait for the drain comes to.
pub data Drain : Type 0 where
  drained signal_lost too_late : Drain

abbrev pub after_wait : ℕ → Drain → AdminResponse
after_wait bound drained = command_complete (codes "SHUTDOWN")
after_wait bound signal_lost = error (
    codes "shutdown initiated but drain completion signal was lost before confirming within "
    ++ (decimal bound ++ codes "s (drain proceeding in background)"))
after_wait bound too_late = error (
    codes "shutdown initiated but drain did not complete within "
    ++ (decimal bound ++ codes "s (drain proceeding in background)"))

-- Whether the trigger was heard, the wait, and the configured time limit of a shutdown.
unfoldable pub shutdown : Bool → Bool → ℕ → Drain → AdminResponse
shutdown triggered wait timeout_secs drain =
    if not triggered
    then error (
        codes
          "shutdown already in progress (or the server is no longer accepting the shutdown signal)")
    else if not wait
    then command_complete (codes "SHUTDOWN")
    else after_wait (timeout_secs + 2) drain

-- What a command finds outside the console.
pub record Surroundings : Type 0 where
  pub reloaded : Result (Unit {0}) Bytes
  pub triggered : Bool
  pub timeout_secs : ℕ
  pub drain : Drain
  pub report : AdminCommand → AdminResponse

module _ {P C : Type 0} where
  abbrev pub if_pool : Handles P C → Option Bytes → Option Bytes
  if_pool h none = none
  if_pool h (some key) = if contains_key key h.pool_managers then some key else none

  -- The key of the pool that `resolve_pool_manager` answers.
  unfoldable pub resolve_pool_manager : Bytes → Handles P C → Option Bytes
  resolve_pool_manager db h =
      if contains_key db h.pool_managers then some db else if_pool h (find_entry db h.databases)

  abbrev pub update_pool :
      (PoolManager P C → PoolManager P C)
      → Bytes
      → List (Bytes × PoolManager P C)
      → List (Bytes × PoolManager P C)
  update_pool f key [] = []
  update_pool f key ((k, m) ∷ rest) =
      if bytes_eq k key then (k, f m) ∷ rest else (k, m) ∷ update_pool f key rest

  abbrev pub update_all :
      (PoolManager P C → PoolManager P C)
      → List (Bytes × PoolManager P C)
      → List (Bytes × PoolManager P C)
  update_all f [] = []
  update_all f ((k, m) ∷ rest) = (k, f m) ∷ update_all f rest

  -- One pool, or every pool; `pause` and `resume` differ in what they do to it, and in their tag.
  abbrev pub on_resolved :
      (PoolManager P C → PoolManager P C)
      → Bytes
      → Bytes
      → Handles P C
      → Option Bytes
      → Handles P C × AdminResponse
  on_resolved f tag db h none = (h, no_such_database db)
  on_resolved f tag db h (some key) =
      (record h { pool_managers = update_pool f key h.pool_managers }, command_complete tag)

  abbrev pub on_pools :
      (PoolManager P C → PoolManager P C)
      → Bytes
      → Option Bytes
      → Handles P C
      → Handles P C × AdminResponse
  on_pools f tag none h =
      (record h { pool_managers = update_all f h.pool_managers }, command_complete tag)
  on_pools f tag (some db) h = on_resolved f tag db h (resolve_pool_manager db h)

  unfoldable pub pause_pools : Option Bytes → Handles P C → Handles P C × AdminResponse
  unfolding resolve_pool_manager
  pause_pools database h = on_pools pause (codes "PAUSE") database h

  unfoldable pub resume_pools : Option Bytes → Handles P C → Handles P C × AdminResponse
  unfolding resolve_pool_manager
  resume_pools database h = on_pools resume (codes "RESUME") database h

  unfoldable pub kill : Option Bytes → Handles P C → Handles P C × AdminResponse
  kill none h = (h, error (codes "KILL requires a database name (usage: KILL <db>)"))
  kill (some db) h =
      let killed = kill_by_database db h.client_registry in
      if is_known db h.databases
      then (
        record h { client_registry = killed.registry },
        command_complete (codes "KILL " ++ decimal (length killed.ids)),
      )
      else (h, no_such_database db)

  unfoldable pub execute_command :
      Surroundings → AdminCommand → Handles P C → Handles P C × AdminResponse
  unfolding pause_pools resume_pools reload shutdown kill
  execute_command out (pause_command database) h = pause_pools database h
  execute_command out (resume_command database) h = resume_pools database h
  execute_command out reload_command h = (h, reload out.reloaded)
  execute_command out (shutdown_command wait) h =
      (h, shutdown out.triggered wait out.timeout_secs out.drain)
  execute_command out (kill_command database) h = kill database h
  execute_command out show_pools h = (h, out.report show_pools)
  execute_command out show_stats h = (h, out.report show_stats)
  execute_command out show_databases h = (h, out.report show_databases)
  execute_command out show_clients h = (h, out.report show_clients)
  execute_command out show_servers h = (h, out.report show_servers)
  execute_command out show_version h = (h, out.report show_version)
  execute_command out show_config h = (h, out.report show_config)

  abbrev pub execute_parsed :
      Surroundings → Bytes → Handles P C → Option AdminCommand → Handles P C × AdminResponse
  execute_parsed out sql h none = (h, error (codes "Unknown admin command: " ++ sql))
  execute_parsed out sql h (some cmd) = execute_command out cmd h

  -- `execute`, with the error that the console makes of its failure.
  unfoldable pub execute : Surroundings → Bytes → Handles P C → Handles P C × AdminResponse
  unfolding parse execute_command
  execute out sql h = execute_parsed out sql h (parse sql)
