-- ===== src/Protocol/CommandDetector.antt =====
-- scry-proxy/src/protocol/command_detector.rs, on ASCII statements. The tests stand in the source's order.
-- Slicing a text with its end before its start panics: `panics`.
pub mod Classify
pub mod Tests
use scry_proxy.Base.{
  ℕ, suc, ◌+◌, ◌-◌, Bool, true, false, not, ◌&&◌, ◌||◌, Option, none, some, List, [], ◌∷◌, Bytes,
  bytes_eq, map, length, take, drop, keep_if, is_empty, ltb, ◌==◌, if◌then◌else◌, codes, is_space,
  to_uppercase, to_lowercase, trim, trim_start, trim_matches, starts_with, find, contains,
  first_word, eq_ignore_ascii_case, split, ℤ, parse_i64,
}
use mathlib.Core.Option

pub data DetectedCommand : Type 0 where
  set_var : (name value : Bytes) → DetectedCommand
  reset_var : (name : Bytes) → DetectedCommand
  reset_all : DetectedCommand
  create_temp_table drop_table : (name : Bytes) → DetectedCommand
  declare_cursor : (name : Bytes) (with_hold : Bool) → DetectedCommand
  close_cursor : (name : Bytes) → DetectedCommand
  advisory_lock advisory_unlock : (key : Option ℤ) → DetectedCommand
  discard_all : DetectedCommand
  deallocate : (name : Bytes) → DetectedCommand
  deallocate_all : DetectedCommand
  listen_on : (channel : Bytes) → DetectedCommand
  unlisten : (channel : Option Bytes) → DetectedCommand
  notify : (channel : Bytes) (payload : Option Bytes) → DetectedCommand

pub data CommandClass : Type 0 where
  clean : CommandClass
  stateful : DetectedCommand → CommandClass
  unknown : CommandClass

pub data Outcome {ℓ} (A : Type ℓ) : Type ℓ where
  gives : A → Outcome A
  panics : Outcome A

abbrev pub outcome_map {ℓ κ} : {A : Type ℓ} {B : Type κ} → (A → B) → Outcome A → Outcome B
outcome_map f (gives a) = gives (f a)
outcome_map f panics = panics

abbrev pub at_boundary : Bytes → Bool
at_boundary [] = true
at_boundary (c ∷ cs) = (is_space c || c == b'(') || c == b';'

-- The keyword at the start, followed by white space, `(`, `;` or nothing.
pub starts_with_keyword : Bytes → Bytes → Bool
starts_with_keyword upper kw = starts_with kw upper && at_boundary (drop (length kw) upper)

abbrev pub clean_keywords : List Bytes
clean_keywords =
    codes "SELECT"
    ∷ codes "INSERT"
    ∷ codes "UPDATE"
    ∷ codes "DELETE"
    ∷ codes "WITH"
    ∷ codes "VALUES"
    ∷ codes "TABLE"
    ∷ codes "EXPLAIN"
    ∷ codes "SHOW"
    ∷ codes "BEGIN"
    ∷ codes "START"
    ∷ codes "COMMIT"
    ∷ codes "ROLLBACK"
    ∷ codes "END"
    ∷ codes "ABORT"
    ∷ codes "SAVEPOINT"
    ∷ codes "RELEASE"
    ∷ []

pub any_keyword : Bytes → List Bytes → Bool
unfolding starts_with_keyword
any_keyword upper [] = false
any_keyword upper (kw ∷ kws) = starts_with_keyword upper kw || any_keyword upper kws

pub is_known_clean : Bytes → Bool
unfolding any_keyword
is_known_clean sql =
    let upper = to_uppercase (trim_start sql) in
    if contains (codes "SET_CONFIG") upper then false else any_keyword upper clean_keywords

-- `str::trim_matches('\'')` of a trimmed value.
abbrev unquoted : Bytes → Bytes
unquoted value = trim_matches b'\'' (trim value)

abbrev set_at : Bytes → ℕ → ℕ → DetectedCommand
set_at rest pos width =
    set_var (to_lowercase (trim (take pos rest))) (unquoted (drop (pos + width) rest))

-- `name = value` first, then `name TO value`.
parse_set : Bytes → Option DetectedCommand
parse_set sql =
    let rest = trim (drop 3 sql) in
    elim (find (codes "=") rest) [
      | some pos ↦ some (set_at rest pos 1)
      | none ↦ Option.map (λ pos. set_at rest pos 4) (find (codes " TO ") (to_uppercase rest))
    ]

parse_reset : Bytes → Option DetectedCommand
parse_reset sql =
    let rest = trim (drop 5 sql) in
    some
      (if eq_ignore_ascii_case rest (codes "ALL") then reset_all else reset_var (to_lowercase rest))

abbrev or_else : Option ℕ → Option ℕ → Option ℕ
or_else none o = o
or_else (some a) o = some a

parse_create_temp_table : Bytes → Option DetectedCommand
parse_create_temp_table sql =
    let upper = to_uppercase sql in
    elim (or_else (Option.map (λ p. p + 10) (find (codes "TEMP TABLE") upper))
      (Option.map (λ p. p + 15) (find (codes "TEMPORARY TABLE") upper))) [
        | none ↦ none
        | some pos ↦ Option.map create_temp_table (first_word (trim (drop pos sql)))
      ]

parse_drop_table : Bytes → Option DetectedCommand
parse_drop_table sql =
    let rest = trim (drop 10 sql) in
    let named =
      if starts_with (codes "IF EXISTS") (to_uppercase rest) then trim (drop 9 rest) else rest in
    if starts_with (codes "DROP TABLE") (to_uppercase sql)
    then Option.map drop_table (first_word named)
    else none

parse_declare_cursor : Bytes → Option DetectedCommand
parse_declare_cursor sql =
    let upper = to_uppercase sql in
    if starts_with (codes "DECLARE ") upper
    then Option.map (λ name. declare_cursor name (contains (codes "WITH HOLD") upper))
        (first_word (trim (drop 8 sql)))
    else none

parse_close_cursor : Bytes → Option DetectedCommand
parse_close_cursor sql =
    if starts_with (codes "CLOSE ") (to_uppercase sql)
    then Option.map close_cursor (first_word (trim (drop 6 sql)))
    else none

parse_deallocate : Bytes → Option DetectedCommand
parse_deallocate sql =
    let rest = trim (drop 11 sql) in
    let named =
      if starts_with (codes "PREPARE ") (to_uppercase rest) then trim (drop 8 rest) else rest in
    if not (starts_with (codes "DEALLOCATE ") (to_uppercase sql))
    then none
    else if eq_ignore_ascii_case named (codes "ALL")
    then some deallocate_all
    else Option.map deallocate (first_word named)

parse_listen : Bytes → Option DetectedCommand
parse_listen sql =
    Option.map (λ w. listen_on (trim_matches b'"' w)) (first_word (trim (drop 7 sql)))

parse_unlisten : Bytes → Option DetectedCommand
parse_unlisten sql =
    let rest = trim (drop 8 sql) in
    if is_empty rest || bytes_eq rest (codes "*")
    then some (unlisten none)
    else Option.map (λ w. unlisten (some (trim_matches b'"' w))) (first_word rest)

abbrev notify_from : Bytes → Option ℕ → DetectedCommand
notify_from rest none = notify (trim_matches b'"' (trim rest)) none
notify_from rest (some idx) =
    notify (trim_matches b'"' (trim (take idx rest))) (some (unquoted (drop (idx + 1) rest)))

parse_notify : Bytes → Option DetectedCommand
parse_notify sql = let rest = trim (drop 7 sql) in some (notify_from rest (find (codes ",") rest))

-- `sql[start + 1..end]` between the first `(` and the first `)` of the whole statement.
pub extract_lock_key : Bytes → Outcome (Option ℤ)
extract_lock_key sql = elim (find (codes "(") sql) [
  | none ↦ gives none
  | some start ↦ elim (find (codes ")") sql) [
    | none ↦ gives none
    | some end ↦
        if ltb end (start + 1)
        then panics
        else gives (parse_i64 (trim (take (end - (start + 1)) (drop (start + 1) sql))))
  ]
]

pub detect : Bytes → Outcome (Option DetectedCommand)
unfolding parse_set parse_reset parse_create_temp_table parse_drop_table parse_declare_cursor
    parse_close_cursor parse_deallocate parse_listen parse_unlisten parse_notify extract_lock_key
detect sql =
    let sql_trimmed = trim sql in
    let sql_upper = to_uppercase sql_trimmed in
    if starts_with (codes "SET ") sql_upper
    then gives (parse_set sql_trimmed)
    else if starts_with (codes "RESET ") sql_upper
    then gives (parse_reset sql_trimmed)
    else if starts_with (codes "DISCARD ALL") sql_upper
    then gives (some discard_all)
    else if contains (codes "CREATE") sql_upper
        && (contains (codes "TEMP TABLE") sql_upper || contains (codes "TEMPORARY TABLE") sql_upper)
    then gives (parse_create_temp_table sql_trimmed)
    else if starts_with (codes "DROP TABLE") sql_upper
    then gives (parse_drop_table sql_trimmed)
    else if starts_with (codes "DECLARE ") sql_upper && contains (codes "CURSOR") sql_upper
    then gives (parse_declare_cursor sql_trimmed)
    else if starts_with (codes "CLOSE ") sql_upper
    then gives (parse_close_cursor sql_trimmed)
    else if starts_with (codes "DEALLOCATE ") sql_upper
    then gives (parse_deallocate sql_trimmed)
    else if starts_with (codes "LISTEN ") sql_upper
    then gives (parse_listen sql_trimmed)
    else if starts_with (codes "UNLISTEN ") sql_upper || bytes_eq sql_upper (codes "UNLISTEN")
    then gives (parse_unlisten sql_trimmed)
    else if starts_with (codes "NOTIFY ") sql_upper
    then gives (parse_notify sql_trimmed)
    else if contains (codes "PG_ADVISORY_LOCK") sql_upper
        && not (contains (codes "PG_ADVISORY_UNLOCK") sql_upper)
    then outcome_map (λ key. some (advisory_lock key)) (extract_lock_key sql_upper)
    else if contains (codes "PG_ADVISORY_UNLOCK") sql_upper
    then outcome_map (λ key. some (advisory_unlock key)) (extract_lock_key sql_upper)
    else gives none

abbrev pub class_of : Bool → Option DetectedCommand → CommandClass
class_of known (some cmd) = stateful cmd
class_of true none = clean
class_of false none = unknown

pub classify : Bytes → Outcome CommandClass
classify sql = outcome_map (class_of (is_known_clean sql)) (detect sql)

pub split_statements : Bytes → List Bytes
split_statements sql = keep_if (λ s. not (is_empty s)) (map trim (split b';' sql))
