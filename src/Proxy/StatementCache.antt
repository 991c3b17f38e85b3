-- ===== src/Proxy/StatementCache.antt =====
-- scry-proxy/src/proxy/cache.rs: the prepared statements and the executions under way of one client. The
-- parameter values of the external crate and the tracing span are the types `Param` and `Span`.
pub mod Laws
mod Tests
use scry_proxy.Base.{
  ℕ, suc, Bool, true, false, Option, none, some, List, [], ◌∷◌, ◌++◌, length, is_empty, leb,
  if◌then◌else◌, Bytes, bytes_key, lookup, contains_key, insert, remove, without,
}
use scry_proxy.Proxy.Lru.{evict}

pub record PreparedStatement : Type 0 where
  pub query : Bytes
  pub param_oids : List ℕ

-- The clock's reading is a number.
pub record PendingExecution (Param Span : Type 0) : Type 0 where
  pub query : Bytes
  pub params : List Param
  pub params_incomplete : Bool
  pub started_at : ℕ
  pub span : Span

pub record PreparedStatementCache (Param Span : Type 0) : Type 0 where
  pub statements : List (Bytes × PreparedStatement)
  pub lru_order : List Bytes
  pub max_size : ℕ
  pub pending : List (Bytes × PendingExecution Param Span)

module _ {Param Span : Type 0} where
  unfoldable pub new : ℕ → PreparedStatementCache Param Span
  new max_size = record { statements = []; lru_order = []; max_size = max_size; pending = [] }

  -- A name that the cache has leaves the queue before the loop that makes room runs, so its entry in
  -- the map still counts there.
  pub insert_statement :
      Bytes
      → PreparedStatement
      → PreparedStatementCache Param Span
      → PreparedStatementCache Param Span
  insert_statement name stmt c =
      let order =
        if contains_key name c.statements then without name c.lru_order else c.lru_order in
      let (kept, order') = evict c.max_size c.statements order in
      record c { statements = insert name stmt kept; lru_order = order' ++ name ∷ [] }

  pub get_statement :
      Bytes
      → PreparedStatementCache Param Span
      → PreparedStatementCache Param Span × Option PreparedStatement
  get_statement name c =
      if contains_key name c.statements
      then (
        record c { lru_order = without name c.lru_order ++ name ∷ [] },
        lookup name c.statements,
      )
      else (c, none)

  pub remove_statement :
      Bytes → PreparedStatementCache Param Span → PreparedStatementCache Param Span
  remove_statement name c = record c {
    statements = remove name c.statements;
    lru_order = without name c.lru_order;
  }

  unfoldable pub set_pending :
      Bytes
      → PendingExecution Param Span
      → PreparedStatementCache Param Span
      → PreparedStatementCache Param Span
  set_pending portal p c = record c { pending = insert portal p c.pending }

  unfoldable pub take_pending :
      Bytes
      → PreparedStatementCache Param Span
      → PreparedStatementCache Param Span × Option (PendingExecution Param Span)
  take_pending portal c = (record c { pending = remove portal c.pending }, lookup portal c.pending)

  unfoldable pub has_pending : Bytes → PreparedStatementCache Param Span → Bool
  has_pending portal c = contains_key portal c.pending

  pub clear_pending : Bytes → PreparedStatementCache Param Span → PreparedStatementCache Param Span
  clear_pending portal c = record c { pending = remove portal c.pending }

  pub clear : PreparedStatementCache Param Span → PreparedStatementCache Param Span
  clear c = record c { statements = []; lru_order = []; pending = [] }

  pub len : PreparedStatementCache Param Span → ℕ
  len c = length c.statements
