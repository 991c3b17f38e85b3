-- ===== src/Protocol/CommandDetector/Tests.antt =====
-- Statements and their classes: runs, and an instance of each result.
use scry_proxy.Base.{
  some, first_word, word, ◌≡◌, refl, none, [], ◌∷◌, codes, trim, to_uppercase, parse_i64,
  starts_with, contains, trim_start, find, to_lowercase, trim_matches, split,
}
use scry_proxy.Protocol.CommandDetector.{
  set_var, advisory_lock, listen_on, parse_listen, clean, stateful, unknown, gives, panics,
  classify, detect, is_known_clean, any_keyword, starts_with_keyword, parse_set, extract_lock_key,
  split_statements,
}

classify_set :
    classify (codes "set Search_Path TO 'app'")
    ≡ gives (stateful (set_var (codes "search_path") (codes "app")))
unfolding classify detect is_known_clean any_keyword starts_with_keyword parse_set starts_with
    to_uppercase trim contains find to_lowercase trim_matches
classify_set = refl

-- With two keys, the lock is detected and its key is not.
classify_lock_of_two :
    classify (codes "SELECT pg_advisory_lock(1, 2)") ≡ gives (stateful (advisory_lock none))
unfolding classify detect is_known_clean any_keyword starts_with_keyword extract_lock_key
    starts_with to_uppercase trim contains parse_i64
classify_lock_of_two = refl

pub classify_vacuum : classify (codes "VACUUM") ≡ gives unknown
unfolding classify detect is_known_clean any_keyword starts_with_keyword starts_with to_uppercase
    trim contains trim_start
classify_vacuum = refl

pub classify_commit : classify (codes "COMMIT") ≡ gives clean
unfolding classify detect is_known_clean any_keyword starts_with_keyword starts_with to_uppercase
    trim contains trim_start
classify_commit = refl

pub split_vacuum :
    split_statements (codes "SELECT 1; VACUUM; COMMIT")
    ≡ codes "SELECT 1" ∷ codes "VACUUM" ∷ codes "COMMIT" ∷ []
unfolding split_statements split trim
split_vacuum = refl

-- The first `)` stands before the first `(`.
classify_crossed : classify (codes "/* :) */ SELECT pg_advisory_lock(1)") ≡ panics
unfolding classify detect is_known_clean any_keyword starts_with_keyword extract_lock_key
    starts_with to_uppercase trim contains
classify_crossed = refl

split_batch :
    split_statements (codes "BEGIN; SET x = 1 ;;COMMIT")
    ≡ codes "BEGIN" ∷ codes "SET x = 1" ∷ codes "COMMIT" ∷ []
unfolding split_statements split trim
split_batch = refl

pub detect_listen : detect (codes "LISTEN jobs") ≡ gives (some (listen_on (codes "jobs")))
unfolding detect parse_listen starts_with to_uppercase trim contains first_word trim_matches word
detect_listen = refl

pub detect_commit : detect (codes "COMMIT") ≡ gives none
unfolding detect starts_with_keyword starts_with to_uppercase trim contains trim_start
detect_commit = refl

pub detect_set : detect (codes "SET x = 1") ≡ gives (some (set_var (codes "x") (codes "1")))
unfolding detect starts_with_keyword parse_set starts_with to_uppercase trim contains find
    to_lowercase trim_matches
detect_set = refl

pub split_commit : split_statements (codes "COMMIT") ≡ codes "COMMIT" ∷ []
unfolding split_statements split trim
split_commit = refl
