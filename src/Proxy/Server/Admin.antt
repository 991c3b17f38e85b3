-- ===== src/Proxy/Server/Admin.antt =====
-- scry-proxy/src/proxy/server.rs: the login of the admin console, in `handle_admin_connection`, and the comparison of
-- passwords. The client's first read after the request for a password is an argument.
pub mod Passwords
mod Tests
use Prim.Native.Nat.{bit_or, bit_xor}
use scry_proxy.Base.{
  ℕ, Bool, true, false, not, ◌&&◌, Option, none, some, List, [], ◌∷◌, ◌++◌, Bytes, codes, length,
  is_empty, ◌==◌, if◌then◌else◌, eq_ignore_ascii_case,
}
use scry_proxy.Protocol.Messages.{Parsed, parsed, rejected, panicked}
use scry_proxy.Protocol.AuthMessages.{
  build_error_response, build_auth_cleartext_password, build_auth_ok, parse_password_message,
}

-- The loop over the pairs of bytes, from a difference on.
unfoldable pub difference : ℕ → Bytes → Bytes → ℕ
difference diff (x ∷ a) (y ∷ b) = difference (bit_or diff (bit_xor x y)) a b
difference diff [] b = diff
difference diff (x ∷ a) [] = diff

unfoldable pub constant_time_eq : Bytes → Bytes → Bool
unfolding difference
constant_time_eq a b = if not (length a == length b) then false else difference 0 a b == 0

-- config/mod.rs
pub record AdminConfig : Type 0 where
  pub enabled : Bool
  pub admin_users : Option Bytes
  pub admin_password : Option Bytes

-- The credential that is asked for; without one the console is refused.
abbrev pub expected_password : Bool → Option Bytes → Option Bytes
expected_password enabled (some pw) = if enabled && not (is_empty pw) then some pw else none
expected_password enabled none = none

-- What the client is sent, and whether the console opens; a message that makes the parser panic ends the task.
pub data Login : Type 0 where
  refused_login : (sent : Bytes) → Login
  opens : (sent : Bytes) → Login
  panics_login : Login

abbrev pub admin_ready : Bytes
admin_ready = b'Z' ∷ 0 ∷ 0 ∷ 0 ∷ 5 ∷ b'I' ∷ []

abbrev pub check_password : Bytes → Parsed Bytes → Login
check_password expected (parsed provided) =
    if constant_time_eq provided expected
    then opens (build_auth_cleartext_password ++ build_auth_ok ++ admin_ready)
    else refused_login (
        build_auth_cleartext_password
        ++ build_error_response (codes "FATAL") (codes "28P01")
            (codes "admin authentication failed"))
check_password expected rejected = refused_login (
    build_auth_cleartext_password
    ++ build_error_response (codes "FATAL") (codes "28P01") (codes "admin authentication failed"))
check_password expected panicked = panics_login

abbrev pub login_with : Option Bytes → Parsed Bytes → Login
login_with none auth = refused_login (
    build_error_response (codes "FATAL") (codes "28000")
      (codes "administrative console is disabled on this server"))
login_with (some expected) auth = check_password expected auth

unfoldable pub login : AdminConfig → Bytes → Login
unfolding constant_time_eq
login admin auth =
    login_with (expected_password admin.enabled admin.admin_password) (parse_password_message auth)
