-- ===== src/Proxy/ClientRegistry.antt =====
-- scry-proxy/src/proxy/admin_handles.rs: the registry of live client connections. An abort handle is named by the
-- connection whose task it stops, and a call that aborts tasks returns whom it aborted. Instants are numbers.
pub mod Kill
mod Tests
use scry_proxy.Base.{
  ℕ, Bool, true, false, Option, none, some, List, [], ◌∷◌, Bytes, nat_eq, lookup, contains_key,
  insert, remove, length, is_empty, eq_ignore_ascii_case, if◌then◌else◌,
}

pub data ClientState : Type 0 where
  active admin : ClientState

pub record ClientEntry : Type 0 where
  pub conn_id : ℕ
  pub addr : Bytes
  pub user : Bytes
  pub database : Bytes
  pub state : ClientState
  pub connect_time : ℕ
  pub last_request_time : ℕ
  pub tls : Bool

-- The handles by connection; their tasks need no name of their own.
pub record ClientRegistry : Type 0 where
  pub inner : List (ℕ × ClientEntry)
  pub abort_handles : List (ℕ × Unit {0})

unfoldable pub new : ClientRegistry
new = record { inner = []; abort_handles = [] }

unfoldable pub register : ClientEntry → ClientRegistry → ClientRegistry
register entry r = record r { inner = insert entry.conn_id entry r.inner }

unfoldable pub register_abort_handle : ℕ → ClientRegistry → ClientRegistry
register_abort_handle conn_id r = record r { abort_handles = insert conn_id tt r.abort_handles }

unfoldable pub deregister : ℕ → ClientRegistry → ClientRegistry
deregister conn_id r = record {
  inner = remove conn_id r.inner;
  abort_handles = remove conn_id r.abort_handles;
}

-- The connections of a database, by the id that each entry states.
unfoldable pub matching : Bytes → List (ℕ × ClientEntry) → List ℕ
matching db [] = []
matching db ((k, e) ∷ rest) =
    if eq_ignore_ascii_case e.database db then e.conn_id ∷ matching db rest else matching db rest

abbrev pub remove_all {ℓ} : {V : Type ℓ} → List ℕ → List (ℕ × V) → List (ℕ × V)
remove_all [] m = m
remove_all (id ∷ ids) m = remove_all ids (remove id m)

-- Those whose handle is found, and so aborted.
unfoldable pub aborted : List ℕ → List (ℕ × Unit {0}) → List ℕ
aborted [] handles = []
aborted (id ∷ ids) handles =
    if contains_key id handles
    then id ∷ aborted ids (remove id handles)
    else aborted ids (remove id handles)

pub record Killed : Type 0 where
  pub registry : ClientRegistry
  pub ids : List ℕ
  pub stopped : List ℕ

unfoldable pub kill_by_database : Bytes → ClientRegistry → Killed
unfolding matching aborted
kill_by_database db r =
    let matched = matching db r.inner in
    record {
      registry = record {
        inner = remove_all matched r.inner;
        abort_handles = remove_all matched r.abort_handles;
      };
      ids = matched;
      stopped = aborted matched r.abort_handles;
    }

abbrev pub touched :
    ClientState → ℕ → Option ClientEntry → ℕ → List (ℕ × ClientEntry) → List (ℕ × ClientEntry)
touched state now none conn_id m = m
touched state now (some entry) conn_id m =
    insert conn_id (record entry { state = state; last_request_time = now }) m

unfoldable pub touch : ℕ → ClientState → ℕ → ClientRegistry → ClientRegistry
touch conn_id state now r = record r {
  inner = touched state now (lookup conn_id r.inner) conn_id r.inner;
}

unfoldable pub len : ClientRegistry → ℕ
len r = length r.inner

unfoldable pub get : ℕ → ClientRegistry → Option ClientEntry
get conn_id r = lookup conn_id r.inner
