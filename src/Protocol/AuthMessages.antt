-- ===== src/Protocol/AuthMessages.antt =====
-- scry-proxy/src/protocol/auth_messages.rs: the messages of the start-up and of authentication. A text is its bytes;
-- `from_utf8_lossy` and `md5`, which gives the digest in hexadecimal, are parameters. A slice out of range panics.
pub mod RoundTrip
pub mod Panics
mod Tests
use scry_proxy.Base.{
  ℕ, zero, suc, ◌-◌, ◌+◌, ◌^◌, Bool, true, false, Option, none, some, List, [], ◌∷◌, ◌++◌, Bytes,
  bytes_eq, bytes_key, length, take, drop, ltb, ◌==◌, if◌then◌else◌, is_empty, insert, lookup,
  codes, not, sub64,
}
use scry_proxy.Protocol.Wire.{byte_at, be32, be32_bytes, i32_to_usize, add_usize}
use scry_proxy.Protocol.Utf8.{is_utf8}
use scry_proxy.Protocol.Messages.{Parsed, parsed, rejected, panicked, ◌>>=◌, split_nul}
use scry_proxy.Protocol.Startup.{be32_at}

pub record StartupMessage : Type 0 where
  pub protocol_version : ℕ
  pub parameters : List (Bytes × Bytes)

abbrev pub protocol_version_3 : ℕ
protocol_version_3 = 196608

-- A text up to its zero byte, or to the end.
pub until_nul : Bytes → Bytes × Bytes
until_nul bytes = elim (split_nul bytes) [ none ↦ (bytes, []) | some (s, rest) ↦ (s, rest) ]

-- The loop over keys and values. A round consumes a zero byte, so as many rounds as there are bytes are enough.
pub read_parameters : (Bytes → Bytes) → ℕ → Bytes → List (Bytes × Bytes) → List (Bytes × Bytes)
unfolding until_nul
read_parameters lossy zero rest parameters = parameters
read_parameters lossy (suc fuel) rest parameters = elim (split_nul rest) [
  | none ↦ parameters
  | some (key, rest1) ↦
      let (value, rest2) = until_nul rest1 in
      let later = read_parameters lossy fuel rest2 (insert (lossy key) (lossy value) parameters) in
      if is_empty (lossy key) then parameters else later
]

-- `StartupMessage::parse`
unfoldable pub parse_startup : (Bytes → Bytes) → Bytes → Option StartupMessage
unfolding read_parameters
parse_startup lossy bytes =
    let size = i32_to_usize (be32_at bytes 0) in
    let protocol_version = be32_at bytes 4 in
    if ltb (length bytes) 8
    then none
    else if ltb (length bytes) size
    then none
    else if protocol_version == 80877103
    then none
    else some (record {
      protocol_version = protocol_version;
      parameters = read_parameters lossy (length bytes) (take (size - 8) (drop 8 bytes)) [];
    })

unfoldable pub user : StartupMessage → Option Bytes
user m = lookup (codes "user") m.parameters

pub database : StartupMessage → Option Bytes
database m = lookup (codes "database") m.parameters

abbrev pub pairs_bytes : List (Bytes × Bytes) → Bytes
pairs_bytes [] = 0 ∷ []
pairs_bytes ((key, value) ∷ rest) = key ++ (0 ∷ (value ++ (0 ∷ pairs_bytes rest)))

-- `StartupMessage::build`
unfoldable pub build_startup : Bytes → Bytes → List (Bytes × Bytes) → Bytes
build_startup user database extra_params =
    let params = pairs_bytes ((codes "user", user) ∷ (codes "database", database) ∷ extra_params) in
    be32_bytes (8 + length params) ++ (be32_bytes protocol_version_3 ++ params)

pub data AuthRequest : Type 0 where
  auth_ok cleartext_password : AuthRequest
  md5_password : (salt : Bytes) → AuthRequest
  sasl : (mechanisms : List Bytes) → AuthRequest
  sasl_continue sasl_final : (bytes : Bytes) → AuthRequest

-- `&data[from..to]`
abbrev pub slice : ℕ → ℕ → Bytes → Parsed Bytes
slice from to bytes =
    if ltb to from
    then panicked
    else if ltb (length bytes) to
    then panicked
    else parsed (take (to - from) (drop from bytes))

abbrev pub push_mechanism : Bytes → List Bytes → List Bytes
push_mechanism name later =
    if is_empty name then later else if is_utf8 name then name ∷ later else later

abbrev pub at_double_nul : Bytes → Bool
at_double_nul [] = false
at_double_nul (b ∷ bytes) = b == 0

-- The loop over the names; a round consumes a byte.
pub read_mechanisms : ℕ → Bytes → List Bytes
unfolding until_nul
read_mechanisms fuel [] = []
read_mechanisms zero (b ∷ rest) = []
read_mechanisms (suc fuel) (b ∷ rest) =
    let (name, rest') = until_nul (b ∷ rest) in
    let later = read_mechanisms fuel rest' in
    push_mechanism name (if at_double_nul rest' then [] else later)

-- The six codes; `end` is `1 + length`.
abbrev pub auth_request : ℕ → ℕ → Bytes → Parsed AuthRequest
auth_request code end bytes =
    if code == 0
    then parsed auth_ok
    else if code == 3
    then parsed cleartext_password
    else if code == 5
    then (if ltb (length bytes) 13 then rejected else parsed (md5_password (take 4 (drop 9 bytes))))
    else if code == 10
    then parsed (sasl (read_mechanisms (length bytes) (take (end - 9) (drop 9 bytes))))
    else if code == 11
    then (slice 9 end bytes >>= λ payload. parsed (sasl_continue payload))
    else if code == 12
    then (slice 9 end bytes >>= λ payload. parsed (sasl_final payload))
    else rejected

-- `AuthRequest::parse`
pub parse_auth_request : Bytes → Parsed AuthRequest
unfolding read_mechanisms
parse_auth_request bytes =
    let end = add_usize 1 (i32_to_usize (be32_at bytes 1)) in
    if ltb (length bytes) 9
    then rejected
    else if not (byte_at bytes 0 == b'R')
    then rejected
    else if ltb (length bytes) end
    then rejected
    else auth_request (be32_at bytes 5) end bytes

pub build_auth_ok : Bytes
build_auth_ok = b'R' ∷ (be32_bytes 8 ++ be32_bytes 0)

pub build_auth_cleartext_password : Bytes
build_auth_cleartext_password = b'R' ∷ (be32_bytes 8 ++ be32_bytes 3)

pub build_auth_md5_password : Bytes → Bytes
build_auth_md5_password salt = b'R' ∷ (be32_bytes 12 ++ (be32_bytes 5 ++ salt))

abbrev pub if_utf8 : Bytes → Parsed Bytes
if_utf8 s = if is_utf8 s then parsed s else rejected

-- The end of the slice, `1 + length - 1`, wraps twice.
pub parse_password_message : Bytes → Parsed Bytes
parse_password_message bytes =
    let end = add_usize 1 (i32_to_usize (be32_at bytes 1)) in
    if ltb (length bytes) 5
    then rejected
    else if not (byte_at bytes 0 == b'p')
    then rejected
    else if ltb (length bytes) end
    then rejected
    else slice 5 (sub64 end 1) bytes >>= if_utf8

pub build_password_message : Bytes → Bytes
build_password_message password =
    b'p' ∷ (be32_bytes (4 + length password + 1) ++ (password ++ 0 ∷ []))

pub build_sasl_initial_response : Bytes → Bytes → Bytes
build_sasl_initial_response mechanism client_first =
    b'p'
    ∷ (be32_bytes (4 + (length mechanism + 1 + 4 + length client_first))
        ++ (mechanism ++ (0 ∷ (be32_bytes (length client_first) ++ client_first))))

pub build_sasl_response : Bytes → Bytes
build_sasl_response bytes = b'p' ∷ (be32_bytes (4 + length bytes) ++ bytes)

pub build_error_response : Bytes → Bytes → Bytes → Bytes
build_error_response severity code message =
    let fields =
      b'S' ∷ (severity ++ (0 ∷ b'C' ∷ (code ++ (0 ∷ b'M' ∷ (message ++ (0 ∷ 0 ∷ [])))))) in
    b'E' ∷ (be32_bytes (4 + length fields) ++ fields)

pub compute_md5_response : (Bytes → Bytes) → Bytes → Bytes → Bytes → Bytes
compute_md5_response md5 password username salt =
    let inner_hash = md5 (password ++ username) in codes "md5" ++ md5 (inner_hash ++ salt)

pub verify_md5_response : (Bytes → Bytes) → Bytes → Bytes → Bytes → Bytes → Bool
unfolding compute_md5_response
verify_md5_response md5 client_response password username salt =
    bytes_eq client_response (compute_md5_response md5 password username salt)
