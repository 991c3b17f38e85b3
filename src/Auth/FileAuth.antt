-- ===== src/Auth/FileAuth.antt =====
-- scry-proxy/src/auth/file_auth.rs: the users of a file in the format of PgBouncer's userlist. `md5` is the digest in
-- hexadecimal, a parameter. The reading of the file itself is left out; a text is that of ASCII.
mod Tests
use scry_proxy.Base.{
  ℕ, zero, suc, Bool, true, false, not, ◌&&◌, ◌||◌, Option, none, some, List, [], ◌∷◌, ◌++◌, Bytes,
  bytes_eq, bytes_key, length, drop, is_empty, ◌==◌, if◌then◌else◌, lookup, contains_key, insert,
  codes, starts_with, trim, split, Result, ok, err,
}

pub data PasswordEntry : Type 0 where
  plain md5_hash scram_sha_256 : Bytes → PasswordEntry

pub record FileAuthenticator : Type 0 where
  pub users : List (Bytes × PasswordEntry)

pub data AuthFileError : Type 0 where
  invalid_format : (line : Bytes) → AuthFileError

-- `parse_line`: the texts between pairs of quotes.
pub quoted_parts : (in_quotes : Bool) → (current : Bytes) → Bytes → List Bytes
quoted_parts in_quotes current [] = []
quoted_parts true current (ch ∷ line) =
    if ch == b'"'
    then current ∷ quoted_parts false [] line
    else quoted_parts true (current ++ ch ∷ []) line
quoted_parts false current (ch ∷ line) = quoted_parts (ch == b'"') current line

abbrev pub first_two : List Bytes → Option (Bytes × Bytes)
first_two (user ∷ pass ∷ rest) = some (user, pass)
first_two _ = none

pub parse_line : Bytes → Option (Bytes × Bytes)
unfolding quoted_parts
parse_line line = first_two (quoted_parts false [] line)

abbrev pub as_entry : Bytes → PasswordEntry
as_entry pass =
    if starts_with (codes "md5") pass && length pass == 35
    then md5_hash (drop 3 pass)
    else if starts_with (codes "SCRAM-SHA-256$") pass
    then scram_sha_256 pass
    else plain pass

abbrev pub is_skipped : Bytes → Bool
is_skipped line = is_empty line || starts_with (codes ";") line || starts_with (codes "#") line

abbrev pub add_user :
    Bytes
    → List (Bytes × PasswordEntry)
    → Option (Bytes × Bytes)
    → Result (List (Bytes × PasswordEntry)) AuthFileError
add_user line users none = err (invalid_format line)
add_user line users (some (user, pass)) = ok (insert user (as_entry pass) users)

abbrev pub and_then :
    {A B : Type 0} → Result A AuthFileError → (A → Result B AuthFileError) → Result B AuthFileError
and_then (ok a) f = f a
and_then (err e) f = err e

-- The loop of `from_string`.
pub load_lines :
    List Bytes → List (Bytes × PasswordEntry) → Result (List (Bytes × PasswordEntry)) AuthFileError
unfolding parse_line trim
load_lines [] users = ok users
load_lines (l ∷ rest) users =
    let line = trim l in
    and_then (if is_skipped line then ok users else add_user line users (parse_line line))
      (load_lines rest)

pub from_string : Bytes → Result FileAuthenticator AuthFileError
unfolding load_lines split
from_string content =
    and_then (load_lines (split 10 content) []) (λ users. ok (record { users = users }))

pub has_user : Bytes → FileAuthenticator → Bool
has_user username f = contains_key username f.users

pub compute_md5_password : (Bytes → Bytes) → Bytes → Bytes → Bytes
compute_md5_password md5 password username = md5 (password ++ username)

pub check_password : (Bytes → Bytes) → Bytes → Bytes → FileAuthenticator → Bool
check_password md5 username password f = elim (lookup username f.users) [
  | none ↦ false
  | some (plain stored) ↦ bytes_eq stored password
  | some (md5_hash stored_hash) ↦ bytes_eq (compute_md5_password md5 password username) stored_hash
  | some (scram_sha_256 stored) ↦ false
]

-- The password of a user whose entry is a plain text.
pub get_password : Bytes → FileAuthenticator → Option Bytes
get_password username f = elim (lookup username f.users) [
  | none ↦ none
  | some (plain stored) ↦ some stored
  | some (md5_hash stored_hash) ↦ none
  | some (scram_sha_256 stored) ↦ none
]
