-- ===== src/Proxy/StatementCache/Tests.antt =====
-- A cache with two places: an instance of each result.
use scry_proxy.Base.{refl, [], ◌∷◌, arith, bytes_key, codes}
use scry_proxy.Proxy.StatementCache.{PreparedStatement, PreparedStatementCache}
use scry_proxy.Proxy.StatementCache.Laws.{IsValid, inserts, apply, apply-IsValid}

abbrev one_column : PreparedStatement
one_column = record { query = codes "SELECT 1"; param_oids = [] }

abbrev by_id : PreparedStatement
by_id = record { query = codes "SELECT $1"; param_oids = 23 ∷ [] }

-- Full, and `b` was used last.
abbrev full : PreparedStatementCache Unit Unit
full = record {
  statements = (codes "a", one_column) ∷ (codes "b", by_id) ∷ [];
  lru_order = codes "a" ∷ codes "b" ∷ [];
  max_size = 2;
  pending = [];
}

full-IsValid : IsValid full
full-IsValid = record {
  synced = record {
    distinct_keys = (refl, (refl, tt));
    distinct_order = (refl, (refl, tt));
    same_keys = λ k. ground arith;
    same_length = refl;
  };
  bounded = omega arith;
}

apply-IsValid_example : IsValid (apply (inserts (codes "c") by_id) full)
apply-IsValid_example = apply-IsValid (inserts (codes "c") by_id) full full-IsValid
