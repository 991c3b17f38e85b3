-- ===== src/Proxy/ConnectionState/Tests.antt =====
-- A connection and its statements: an instance of each result.
use scry_proxy.Base.{
  ◌≡◌, refl, ap, find, to_uppercase, true, false, [], ◌∷◌, bytes_key, codes, trim,
}
use scry_proxy.Protocol.CommandDetector.{gives}
use scry_proxy.Protocol.CommandDetector.Tests.{
  split_vacuum, classify_vacuum, classify_commit, split_commit,
}
use scry_proxy.Proxy.ConnectionState.{
  ConnectionState, new, is_pinned, has_unsafe_state, apply_class, apply_query, apply_statements,
  apply_single_statement,
}
use scry_proxy.Proxy.ConnectionState.Batches.{EndsWith, outcome_discards, apply_query_fails_closed}
use scry_proxy.Proxy.ConnectionState.Prepared.{
  parsed, call, IsValid, Holds, call-IsValid, new-IsValid,
}

abbrev fresh : ConnectionState
fresh = record {
  prepared_statements = [];
  session_variables = [];
  temp_tables = [];
  cursors = [];
  advisory_locks = [];
  listen_channels = [];
  unknown_command = false;
  max_prepared_statements = 2;
  prepared_statements_lru = [];
}

apply_query_fails_closed_example :
    EndsWith
      (λ s'. (is_pinned s' ≡ true) × (has_unsafe_state s' ≡ true))
      (apply_query (codes "SELECT 1; VACUUM; COMMIT") fresh)
unfolding find to_uppercase trim
apply_query_fails_closed_example =
    apply_query_fails_closed (codes "SELECT 1; VACUUM; COMMIT") (codes "SELECT 1" ∷ [])
      (codes "COMMIT" ∷ []) (codes "VACUUM") fresh split_vacuum (refl, tt) (refl, tt)
      classify_vacuum (ap outcome_discards classify_commit, tt)

call-IsValid_example :
    Holds IsValid (call (parsed (codes "s1") (codes "SELECT $1") (23 ∷ [])) (new 2))
call-IsValid_example =
    call-IsValid (parsed (codes "s1") (codes "SELECT $1") (23 ∷ [])) (new 2) (new-IsValid 2)

pub apply_query_commit : (s : ConnectionState) → apply_query (codes "COMMIT") s ≡ gives s
unfolding apply_query apply_statements apply_single_statement apply_class
apply_query_commit s =
    rw (split_commit, classify_commit, apply_query, apply_statements, apply_single_statement) refl
