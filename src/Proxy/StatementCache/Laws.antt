-- ===== src/Proxy/StatementCache/Laws.antt =====
-- The statement cache: its bound, its order, and what an insertion does to the other statements.
use scry_proxy.Base.{
  ℕ, suc, ◌-◌, ◌≤◌, ◌≡◌, refl, ap, sym, ◌∙◌, true, false, some, List, [], ◌∷◌, ◌++◌, arith, max,
  length, Bytes, bytes_key, bytes_eq_iff, contains_key, insert, remove, has, without, lookup-insert,
  length-insert, length-remove-le, has-without, length-remove, Bool-cases, inl, inr,
  contains_key-insert, bytes_eq, contains_key-remove,
}
use mathlib.Core.Path.{subst₂}
use scry_proxy.Proxy.Lru.{
  evict, Synced, Synced-remove, Synced-insert, Synced-refresh_order, Synced-replace, evict-Distinct,
  evict_pred, contains_key-evict_other, evict-Synced, evict_bound, has-evict, evict_one,
}
use scry_proxy.Proxy.StatementCache.{
  PreparedStatement, PendingExecution, PreparedStatementCache, new, insert_statement, get_statement,
  remove_statement, set_pending, take_pending, clear_pending, clear, len,
}

-- The map and the queue behind the loop of `insert_statement`, for a name that is not cached.
insert_new :
    (name : Bytes) (stmt : PreparedStatement) (m : List (Bytes × PreparedStatement))
    (order : List Bytes) (n : ℕ)
    → contains_key name m ≡ false
    → Synced m order
    → let (kept, order') = evict n m order in
      Synced (insert name stmt kept) (order' ++ name ∷ [])
      × (length (insert name stmt kept) ≤ max 1 n)
insert_new name stmt m order n fresh s =
    let s' = evict-Synced n m order s in
    let gone : contains_key name (evict n m order).0 ≡ false =
      ground (arith, has-evict n name m order, s.same_keys name, s'.same_keys name) in
    (
      Synced-insert name stmt (evict n m order).0 (evict n m order).1 gone s',
      ground (arith, length-insert name stmt (evict n m order).0, evict_bound n m order s, gone),
    )

-- The same for a name that is cached, and that has left the queue.
insert_old :
    (name : Bytes) (stmt : PreparedStatement) (m : List (Bytes × PreparedStatement))
    (order : List Bytes) (n : ℕ)
    → contains_key name m ≡ true
    → Synced m order
    → let (kept, order') = evict n m (without name order) in
      Synced (insert name stmt kept) (order' ++ name ∷ [])
      × (length (insert name stmt kept) ≤ max 1 n)
insert_old name stmt m order n old s =
    let rest : List Bytes = without name order in
    let out : has name rest ≡ false =
      ground (arith, has-without name name order, bytes_eq_iff name name) in
    let (same_map, same_order) = evict_pred n name m rest s.distinct_keys old out in
    let d = evict-Distinct n m rest s.distinct_keys in
    let there = contains_key-evict_other n name m rest out old in
    let small = Synced-remove name m order s in
    let s' : Synced (remove name (evict n m rest).0) (evict n m rest).1 =
      subst₂ Synced (sym same_map) (sym same_order)
        (evict-Synced (n - 1) (remove name m) rest small) in
    (
      Synced-replace name stmt (evict n m rest).0 (evict n m rest).1 d there s',
      ground (
        arith,
        length-insert name stmt (evict n m rest).0,
        there,
        evict_bound (n - 1) (remove name m) rest small,
        length-remove name (evict n m rest).0 d there,
        ap length same_map,
      ),
    )

-- One call on the cache.
pub data Call (Param Span : Type 0) : Type 0 where
  inserts : Bytes → PreparedStatement → Call Param Span
  gets removes takes clears_pending : Bytes → Call Param Span
  sets : Bytes → PendingExecution Param Span → Call Param Span
  clears : Call Param Span

module _ {Param Span : Type 0} where
  pub record IsValid (c : PreparedStatementCache Param Span) : Type 0 where
    pub synced : Synced c.statements c.lru_order
    pub bounded : length c.statements ≤ max 1 c.max_size

  pub new-IsValid : (n : ℕ) → IsValid (new n)
  unfolding new
  new-IsValid n = record {
    synced = record {
      distinct_keys = tt;
      distinct_order = tt;
      same_keys = λ k. refl;
      same_length = refl;
    };
    bounded = omega arith;
  }

  remove_statement-IsValid :
      (name : Bytes) (c : PreparedStatementCache Param Span)
      → IsValid c
      → IsValid (remove_statement name c)
  unfolding remove_statement
  remove_statement-IsValid name c v = record {
    synced = Synced-remove name c.statements c.lru_order v.synced;
    bounded = omega (arith, v.bounded, length-remove-le name c.statements);
  }

  get_statement-IsValid :
      (name : Bytes) (c : PreparedStatementCache Param Span)
      → IsValid c
      → IsValid (get_statement name c).0
  unfolding get_statement
  get_statement-IsValid name c v = elim (Bool-cases (contains_key name c.statements)) [
    | inl old ↦ rw old (record {
      synced = Synced-refresh_order name c.statements c.lru_order old v.synced;
      bounded = v.bounded;
    })
    | inr fresh ↦ rw fresh v
  ]

  insert_statement-IsValid :
      (name : Bytes) (stmt : PreparedStatement) (c : PreparedStatementCache Param Span)
      → IsValid c
      → IsValid (insert_statement name stmt c)
  unfolding insert_statement
  insert_statement-IsValid name stmt c v = elim (Bool-cases (contains_key name c.statements)) [
    | inl old ↦
        let (s, b) = insert_old name stmt c.statements c.lru_order c.max_size old v.synced in
        rw old (record { synced = s; bounded = b })
    | inr fresh ↦
        let (s, b) = insert_new name stmt c.statements c.lru_order c.max_size fresh v.synced in
        rw fresh (record { synced = s; bounded = b })
  ]

  pub apply :
      Call Param Span → PreparedStatementCache Param Span → PreparedStatementCache Param Span
  unfolding set_pending take_pending clear_pending clear
  apply (inserts name stmt) c = insert_statement name stmt c
  apply (gets name) c = (get_statement name c).0
  apply (removes name) c = remove_statement name c
  apply (takes portal) c = (take_pending portal c).0
  apply (clears_pending portal) c = clear_pending portal c
  apply (sets portal p) c = set_pending portal p c
  apply clears c = clear c

  -- Every call on the cache keeps the queue at the keys of the map, each once, and the map at
  -- `max_size` entries at most, or one where `max_size` is 0.
  pub apply-IsValid :
      (call : Call Param Span) (c : PreparedStatementCache Param Span)
      → IsValid c
      → IsValid (apply call c)
  unfolding apply
  apply-IsValid (inserts name stmt) c v = insert_statement-IsValid name stmt c v
  apply-IsValid (gets name) c v = get_statement-IsValid name c v
  apply-IsValid (removes name) c v = remove_statement-IsValid name c v
  apply-IsValid (takes portal) c v = record { synced = v.synced; bounded = v.bounded }
  apply-IsValid (clears_pending portal) c v = record { synced = v.synced; bounded = v.bounded }
  apply-IsValid (sets portal p) c v = record { synced = v.synced; bounded = v.bounded }
  apply-IsValid clears c v = record {
    synced = record {
      distinct_keys = tt;
      distinct_order = tt;
      same_keys = λ k. refl;
      same_length = refl;
    };
    bounded = omega arith;
  }

  -- A statement is found right after it was inserted, whatever was cached before.
  pub get_statement-insert_statement :
      (name : Bytes) (stmt : PreparedStatement) (c : PreparedStatementCache Param Span)
      → (get_statement name (insert_statement name stmt c)).1 ≡ some stmt
  unfolding get_statement insert_statement
  get_statement-insert_statement name stmt c = elim (Bool-cases (contains_key name c.statements)) [
    | inl old ↦
        let m = (evict c.max_size c.statements (without name c.lru_order)).0 in
        rw old (ground (arith, lookup-insert name name stmt m, bytes_eq_iff name name))
    | inr fresh ↦
        let m = (evict c.max_size c.statements c.lru_order).0 in
        rw fresh (ground (arith, lookup-insert name name stmt m, bytes_eq_iff name name))
  ]

  -- Inserting a name anew evicts another statement from a full cache: the least recent one is gone, though
  -- the number of statements was not to grow.
  pub reinsert_evicts_other :
      (name oldest : Bytes) (rest : List Bytes) (stmt : PreparedStatement)
      (c : PreparedStatementCache Param Span)
      → IsValid c
      → contains_key name c.statements ≡ true
      → length c.statements ≡ c.max_size
      → without name c.lru_order ≡ oldest ∷ rest
      → (contains_key oldest c.statements ≡ true)
        × (contains_key oldest (insert_statement name stmt c).statements ≡ false)
        × (suc (len (insert_statement name stmt c)) ≡ len c)
  unfolding insert_statement len
  reinsert_evicts_other name oldest rest stmt c v old full first =
      let m : List (Bytes × PreparedStatement) = c.statements in
      let behind : has oldest (without name c.lru_order) ≡ true =
        ap (has oldest) first ∙ ground (arith, bytes_eq_iff oldest oldest) in
      let there : contains_key oldest m ≡ true =
        ground (arith, behind, has-without name oldest c.lru_order, v.synced.same_keys oldest) in
      let size = length-remove oldest m v.synced.distinct_keys there in
      let other : bytes_eq name oldest ≡ false =
        ground (arith, behind, has-without name oldest c.lru_order) in
      (
        there,
        rw
            (
              old,
              first,
              evict_one c.max_size oldest m rest (omega (arith, full)) (omega (arith, full, size)),
            )
            (ground (
              arith,
              contains_key-insert name oldest stmt (remove oldest m),
              other,
              contains_key-remove oldest oldest m,
              bytes_eq_iff oldest oldest,
            )),
        rw
            (
              old,
              first,
              evict_one c.max_size oldest m rest (omega (arith, full)) (omega (arith, full, size)),
            )
            (ground (
              arith,
              length-insert name stmt (remove oldest m),
              contains_key-remove oldest name m,
              old,
              other,
              size,
              bytes_eq_iff oldest name,
              bytes_eq_iff name oldest,
            )),
      )
