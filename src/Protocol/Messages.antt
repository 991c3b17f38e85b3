-- ===== src/Protocol/Messages.antt =====
-- scry-proxy/src/protocol/mod.rs (`Message`) and extractor.rs: the parsers of the frontend's
-- messages. The source walks a payload by an offset that only grows; here what is left of the payload is
-- passed on, with the offset where a wrap of it matters. A text is its bytes. A slice out of range
-- and a capacity above `isize::MAX` panic: `panicked`.
pub mod RoundTrip
pub mod Panics
mod Tests
use scry_proxy.Base.{
  ℕ, zero, suc, ◌+◌, ◌-◌, ◌*◌, ◌^◌, Bool, true, false, not, Option, none, some, List, [], ◌∷◌,
  Bytes, length, take, drop, leb, ltb, ◌==◌, if◌then◌else◌,
}
use scry_proxy.Protocol.Wire.{be16, be32, i16_to_usize, i32_to_usize, add_usize}
use scry_proxy.Protocol.Utf8.{is_utf8}

abbrev pub msg_query : ℕ
msg_query = b'Q'

abbrev pub msg_parse : ℕ
msg_parse = b'P'

abbrev pub msg_bind : ℕ
msg_bind = b'B'

abbrev pub msg_execute : ℕ
msg_execute = b'E'

abbrev pub msg_sync : ℕ
msg_sync = b'S'

abbrev pub msg_terminate : ℕ
msg_terminate = b'X'

abbrev pub msg_close : ℕ
msg_close = b'C'

-- Format codes are the patterns of their `i16`.
pub data Message : Type 0 where
  query_msg : (query : Bytes) → Message
  parse_msg : (name query : Bytes) (param_oids : List ℕ) → Message
  bind_msg :
      (portal statement : Bytes) (format_codes : List ℕ) (params_raw : List (Option Bytes))
      → Message
  execute_msg : (portal : Bytes) → Message
  close_msg : (kind : ℕ) (name : Bytes) → Message
  sync_msg terminate_msg : Message

-- What a parser does: it returns a value, it returns `None`, or it panics.
pub data Parsed {ℓ} (A : Type ℓ) : Type ℓ where
  parsed : A → Parsed A
  rejected : Parsed A
  panicked : Parsed A

infixl 5 ◌>>=◌
abbrev pub ◌>>=◌ {ℓ κ} : {A : Type ℓ} {B : Type κ} → Parsed A → (A → Parsed B) → Parsed B
parsed a >>= f = f a
rejected >>= f = rejected
panicked >>= f = panicked

abbrev pub cons_left : ℕ → Option (Bytes × Bytes) → Option (Bytes × Bytes)
cons_left c none = none
cons_left c (some (s, r)) = some (c ∷ s, r)

-- The bytes before the first zero byte, and what follows it.
unfoldable pub split_nul : Bytes → Option (Bytes × Bytes)
split_nul [] = none
split_nul (b ∷ bs) = if b == 0 then some ([], bs) else cons_left b (split_nul bs)

-- `read_cstring`: `None` with no terminator, or where the bytes are not UTF-8.
unfoldable pub read_cstring : Bytes → Parsed (Bytes × Bytes)
read_cstring bytes = elim (split_nul bytes) [
  | none ↦ rejected
  | some (s, rest) ↦ if is_utf8 s then parsed (s, rest) else rejected
]

abbrev pub read_u16 : Bytes → Parsed (ℕ × Bytes)
read_u16 (a ∷ b ∷ rest) = parsed (be16 a b, rest)
read_u16 _ = rejected

abbrev pub read_u32 : Bytes → Parsed (ℕ × Bytes)
read_u32 (a ∷ b ∷ c ∷ d ∷ rest) = parsed (be32 a b c d, rest)
read_u32 _ = rejected

-- `Vec::with_capacity(count)` of items of `size` bytes.
pub with_capacity : ℕ → ℕ → Parsed (Unit {0})
with_capacity size count = if ltb (count * size) (2 ^ 63) then parsed tt else panicked

pub read_oids : ℕ → Bytes → Parsed (List ℕ)
read_oids zero rest = parsed []
read_oids (suc n) rest = do
  (oid, rest') ← read_u32 rest
  oids ← read_oids n rest'
  parsed (oid ∷ oids)

pub read_codes : ℕ → Bytes → Parsed (List ℕ × Bytes)
read_codes zero rest = parsed ([], rest)
read_codes (suc n) rest = do
  (c, rest') ← read_u16 rest
  (codes, rest'') ← read_codes n rest'
  parsed (c ∷ codes, rest'')

-- `payload[offset..offset + len]` behind the test `offset + len > payload.len()`, whose sum wraps:
-- past the end is `None`, and an end before the start panics.
abbrev pub slice_value : ℕ → ℕ → Bytes → Parsed (Bytes × Bytes)
slice_value offset len rest =
    let end = add_usize offset len in
    if ltb (offset + length rest) end
    then rejected
    else if ltb end offset
    then panicked
    else parsed (take len rest, drop len rest)

-- The value behind a length field, at the offset of that field. The length -1 stands for NULL.
abbrev pub read_value : ℕ → ℕ → Bytes → Parsed (Option Bytes × Bytes)
read_value offset len rest =
    if len == 2 ^ 32 - 1
    then parsed (none, rest)
    else (slice_value (offset + 4) (i32_to_usize len) rest >>= λ (value, rest').
        parsed (some value, rest'))

pub read_param : ℕ → Bytes → Parsed (Option Bytes × Bytes)
read_param offset rest = do (len, rest') ← read_u32 rest; read_value offset len rest'

-- The end of the payload stands at `total`.
pub read_params : ℕ → ℕ → Bytes → Parsed (List (Option Bytes))
read_params zero total rest = parsed []
read_params (suc n) total rest = do
  (p, rest') ← read_param (total - length rest) rest
  ps ← read_params n total rest'
  parsed (p ∷ ps)

unfoldable pub parse_query_message : Bytes → Parsed Message
unfolding read_cstring
parse_query_message payload = do (query, _) ← read_cstring payload; parsed (query_msg query)

pub parse_parse_message : Bytes → Parsed Message
parse_parse_message payload = do
  (name, r1) ← read_cstring payload
  (query, r2) ← read_cstring r1
  (num, r3) ← read_u16 r2
  _ ← with_capacity 4 (i16_to_usize num)
  oids ← read_oids (i16_to_usize num) r3
  parsed (parse_msg name query oids)

pub parse_bind_message : Bytes → Parsed Message
parse_bind_message payload = do
  (portal, r1) ← read_cstring payload
  (statement, r2) ← read_cstring r1
  (num_codes, r3) ← read_u16 r2
  _ ← with_capacity 2 (i16_to_usize num_codes)
  (codes, r4) ← read_codes (i16_to_usize num_codes) r3
  (num_params, r5) ← read_u16 r4
  _ ← with_capacity 24 (i16_to_usize num_params)
  params ← read_params (i16_to_usize num_params) (length payload) r5
  parsed (bind_msg portal statement codes params)

pub parse_execute_message : Bytes → Parsed Message
parse_execute_message payload = do (portal, _) ← read_cstring payload; parsed (execute_msg portal)

pub parse_close_message : Bytes → Parsed Message
parse_close_message [] = rejected
parse_close_message (kind ∷ rest) = do (name, _) ← read_cstring rest; parsed (close_msg kind name)

-- The `match` on the type byte, in `extract_messages` and in `extract_message`.
unfoldable pub parse_message : ℕ → Bytes → Parsed Message
unfolding parse_query_message parse_parse_message parse_bind_message parse_execute_message
    parse_close_message
parse_message tag payload =
    if tag == msg_query
    then parse_query_message payload
    else if tag == msg_parse
    then parse_parse_message payload
    else if tag == msg_bind
    then parse_bind_message payload
    else if tag == msg_execute
    then parse_execute_message payload
    else if tag == msg_close
    then parse_close_message payload
    else if tag == msg_sync
    then parsed sync_msg
    else if tag == msg_terminate
    then parsed terminate_msg
    else rejected
