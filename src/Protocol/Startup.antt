-- ===== src/Protocol/Startup.antt =====
-- scry-proxy/src/protocol/startup.rs: the first message of a connection. The stream is a parameter with its states `S`:
-- `read_exact n` is its read of `n` bytes.
pub mod Framing
mod Tests
use scry_proxy.Base.{
  ℕ, zero, suc, ◌-◌, ◌+◌, ◌^◌, Bool, true, false, Option, none, some, List, [], ◌∷◌, ◌++◌, Bytes,
  length, ltb, ◌==◌, if◌then◌else◌, Result, ok, err,
}
use scry_proxy.Protocol.Wire.{byte_at, be32, i32_to_usize}

abbrev pub max_startup_message_size : ℕ
max_startup_message_size = 65536

abbrev pub min_startup_message_size : ℕ
min_startup_message_size = 8

pub data StartupError : Type 0 where
  no_length no_body : StartupError
  too_small too_large : (length : ℕ) → StartupError

-- The pattern of the `i32` at an offset of a slice.
abbrev pub be32_at : Bytes → ℕ → ℕ
be32_at bytes offset =
    be32 (byte_at bytes offset) (byte_at bytes (offset + 1)) (byte_at bytes (offset + 2))
      (byte_at bytes (offset + 3))

module _ {S : Type 0} where
  abbrev pub with_body : Bytes → S × Option Bytes → S × Result Bytes StartupError
  with_body length_buf (s, some body) = (s, ok (length_buf ++ body))
  with_body length_buf (s, none) = (s, err no_body)

  abbrev pub with_length :
      (ℕ → S → S × Option Bytes) → S × Option Bytes → S × Result Bytes StartupError
  with_length read_exact (s, none) = (s, err no_length)
  with_length read_exact (s, some length_buf) =
      let length = i32_to_usize (be32_at length_buf 0) in
      if ltb length min_startup_message_size
      then (s, err (too_small length))
      else if ltb max_startup_message_size length
      then (s, err (too_large length))
      else with_body length_buf (read_exact (length - 4) s)

  unfoldable pub read_startup_message :
      (ℕ → S → S × Option Bytes) → S → S × Result Bytes StartupError
  read_startup_message read_exact s = with_length read_exact (read_exact 4 s)

abbrev pub ssl_request_code : ℕ
ssl_request_code = 80877103

unfoldable pub is_ssl_request : Bytes → Bool
is_ssl_request bytes =
    if ltb (length bytes) 8
    then false
    else if be32_at bytes 0 == 8
    then be32_at bytes 4 == ssl_request_code
    else false
