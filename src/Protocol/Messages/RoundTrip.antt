-- ===== src/Protocol/Messages/RoundTrip.antt =====
-- What a frontend writes, from the protocol's description, and that the parsers read it back.
use scry_proxy.Base.{
  ℕ, ◌-◌, ◌^◌, ◌<◌, ◌≡◌, refl, true, Option, none, some, List, [], ◌∷◌, ◌++◌, arith, Bytes, length,
  All,
}
use scry_proxy.Protocol.Wire.{be16_bytes, be32_bytes}
use scry_proxy.Protocol.Utf8.{is_utf8}
use scry_proxy.Protocol.Messages.{
  Message, query_msg, parse_msg, bind_msg, execute_msg, close_msg, sync_msg, terminate_msg, parsed,
  msg_query, msg_parse, msg_bind, msg_execute, msg_close, msg_sync, msg_terminate, split_nul,
  read_cstring,
}

-- A text that can be sent: no zero byte, and UTF-8.
pub record IsText (s : Bytes) : Type 0 where
  pub no_nul : All (λ b. 0 < b) s
  pub utf8 : is_utf8 s ≡ true

abbrev pub cstring : Bytes → Bytes → Bytes
cstring s rest = s ++ (0 ∷ rest)

abbrev pub words32 : List ℕ → Bytes
words32 [] = []
words32 (n ∷ ns) = be32_bytes n ++ words32 ns

abbrev pub words16 : List ℕ → Bytes → Bytes
words16 [] rest = rest
words16 (n ∷ ns) rest = be16_bytes n ++ words16 ns rest

abbrev pub values : List (Option Bytes) → Bytes
values [] = []
values (none ∷ ps) = be32_bytes (2 ^ 32 - 1) ++ values ps
values (some v ∷ ps) = be32_bytes (length v) ++ (v ++ values ps)

abbrev pub tag_of : Message → ℕ
tag_of (query_msg query) = msg_query
tag_of (parse_msg name query param_oids) = msg_parse
tag_of (bind_msg portal statement format_codes params_raw) = msg_bind
tag_of (execute_msg portal) = msg_execute
tag_of (close_msg kind name) = msg_close
tag_of sync_msg = msg_sync
tag_of terminate_msg = msg_terminate

-- The payload of a message. An Execute also carries a row limit, which the parser does not read.
abbrev pub payload_of : Message → Bytes
payload_of (query_msg query) = cstring query []
payload_of (parse_msg name query param_oids) =
    cstring name (cstring query (be16_bytes (length param_oids) ++ words32 param_oids))
payload_of (bind_msg portal statement format_codes params_raw) = cstring portal (
    cstring statement (
      be16_bytes (length format_codes)
      ++ words16 format_codes (be16_bytes (length params_raw) ++ values params_raw)))
payload_of (execute_msg portal) = cstring portal (be32_bytes 0)
payload_of (close_msg kind name) = kind ∷ cstring name []
payload_of sync_msg = []
payload_of terminate_msg = []

abbrev pub IsValue : Option Bytes → Type 0
IsValue none = Unit
IsValue (some v) = length v < 2 ^ 31

-- A message within the limits: counts below 2 ^ 15, 32-bit OIDs, 16-bit codes.
abbrev pub IsMessage : Message → Type 0
IsMessage (query_msg query) = IsText query
IsMessage (parse_msg name query param_oids) =
    IsText name × IsText query × (length param_oids < 2 ^ 15) × All (λ n. n < 2 ^ 32) param_oids
IsMessage (bind_msg portal statement format_codes params_raw) =
    IsText portal
    × IsText statement
    × (length format_codes < 2 ^ 15)
    × All (λ n. n < 2 ^ 16) format_codes
    × (length params_raw < 2 ^ 15)
    × All IsValue params_raw
IsMessage (execute_msg portal) = IsText portal
IsMessage (close_msg kind name) = IsText name
IsMessage sync_msg = Unit
IsMessage terminate_msg = Unit

pub split_nul-cstring :
    (s rest : Bytes) → All (λ b. 0 < b) s → split_nul (cstring s rest) ≡ some (s, rest)
unfolding split_nul
split_nul-cstring [] rest h = refl
split_nul-cstring (b ∷ s) rest h = ground (arith, split_nul-cstring s rest h.1)

pub read_cstring-cstring :
    (s rest : Bytes) → IsText s → read_cstring (cstring s rest) ≡ parsed (s, rest)
unfolding read_cstring
read_cstring-cstring s rest t = rw (split_nul-cstring s rest t.no_nul, read_cstring) (rw t.utf8)
