-- ===== src/Protocol/Bind.antt =====
-- scry-proxy/src/protocol/bind.rs: the values of Bind parameters. A floating-point value is its bit pattern, and its
-- reading from a text is a parameter; `parse::<i16>()` and `parse::<i32>()` are `parse::<i64>()` with a bound.
pub mod Bytea
mod Tests
use scry_proxy.Base.{
  ℕ, zero, suc, ◌+◌, ◌-◌, ◌*◌, ◌^◌, Bool, true, false, not, ◌&&◌, ◌||◌, Option, none, some, List,
  [], ◌∷◌, ◌++◌, Bytes, bytes_eq, length, drop, leb, ltb, ◌==◌, if◌then◌else◌, keep_if, get_elem?,
  starts_with, codes, is_empty, ℤ, pos, negsuc, parse_i64, is_some,
}
use scry_proxy.Protocol.Wire.{be16, be32}
use scry_proxy.Protocol.Utf8.{is_utf8}
use scry_proxy.Protocol.Messages.{Parsed, parsed, rejected, panicked, ◌>>=◌}

-- The values of the external crate, with the variants that the source names. The decoders make the first few.
mutual
  pub data ParamValue : Type 0 where
    null : ParamValue
    bool_value : Bool → ParamValue
    int16 int32 int64 : ℤ → ParamValue
    float32 float64 : (bits : ℕ) → ParamValue
    numeric text json : Bytes → ParamValue
    bytes_value uuid : Bytes → ParamValue
    unknown_value : (oid : ℕ) → Bytes → ParamValue
    date time timestamp timestamp_tz : ℤ → ParamValue
    interval : (months days microseconds : ℤ) → ParamValue
    array : (elements : ParamValues) (dimensions : List ℤ) → ParamValue
    range : (lower upper : Bound) (lower_inc upper_inc : Bool) → ParamValue
    composite : (fields : ParamValues) → ParamValue

  -- `Vec<ParamValue>`
  pub data ParamValues : Type 0 where
    nil : ParamValues
    cons : ParamValue → ParamValues → ParamValues

  -- `Option<Box<ParamValue>>`
  pub data Bound : Type 0 where
    unbounded : Bound
    bounded : ParamValue → Bound

-- The readings of a text as a floating-point number, as bits.
pub record Floats : Type 0 where
  pub parse_f32 : Bytes → Option ℕ
  pub parse_f64 : Bytes → Option ℕ

abbrev pub get_format_code : List ℕ → ℕ → ℕ
get_format_code [] index = 0
get_format_code (c ∷ []) index = c
get_format_code (c ∷ d ∷ cs) index = elim (get_elem? (c ∷ d ∷ cs) index) [
  | none ↦ 0
  | some code ↦ code
]

abbrev pub or_text : {A : Type 0} → (A → ParamValue) → Bytes → Option A → ParamValue
or_text value s none = text s
or_text value s (some a) = value a

abbrev pub signed : ℕ → ℕ → ℤ
signed w n = if ltb n (2 ^ (w - 1)) then pos n else negsuc (2 ^ w - 1 - n)

-- A number that fits in `w` bits.
abbrev pub fits : ℕ → Option ℤ → Option ℤ
fits w none = none
fits w (some (pos n)) = if ltb n (2 ^ (w - 1)) then some (pos n) else none
fits w (some (negsuc n)) = if ltb n (2 ^ (w - 1)) then some (negsuc n) else none

abbrev pub is_one_of : Bytes → List Bytes → Bool
is_one_of s [] = false
is_one_of s (t ∷ ts) = bytes_eq s t || is_one_of s ts

abbrev pub decode_bool : Bytes → ParamValue
decode_bool s =
    if is_one_of s (codes "t" ∷ codes "true" ∷ codes "TRUE" ∷ codes "1" ∷ [])
    then bool_value true
    else if is_one_of s (codes "f" ∷ codes "false" ∷ codes "FALSE" ∷ codes "0" ∷ [])
    then bool_value false
    else text s

unfoldable pub hex_digit : ℕ → Option ℕ
hex_digit c =
    if leb b'0' c && leb c b'9'
    then some (c - b'0')
    else if leb b'a' c && leb c b'f'
    then some (c - b'a' + 10)
    else if leb b'A' c && leb c b'F'
    then some (c - b'A' + 10)
    else none

abbrev pub two_digits : Option ℕ → Option ℕ → Option ℕ
two_digits (some a) (some b) = some (a * 16 + b)
two_digits _ _ = none

-- `u8::from_str_radix` of two bytes, base 16; a sign may come first.
abbrev pub hex_byte : ℕ → ℕ → Option ℕ
hex_byte a b = if a == b'+' then hex_digit b else two_digits (hex_digit a) (hex_digit b)

-- The offset before a continuation byte is no boundary of characters: a slice that ends there panics.
abbrev pub at_boundary : Bytes → Bool
at_boundary [] = true
at_boundary (c ∷ rest) = not (leb 0x80 c && ltb c 0xc0)

-- The bytes of `&hex[i..i + 2]` for every second `i`, up to the first that are no number.
pub hex_bytes : Bytes → Parsed Bytes
unfolding hex_digit
hex_bytes [] = parsed []
hex_bytes (a ∷ []) = panicked
hex_bytes (a ∷ b ∷ rest) =
    let later = hex_bytes rest in
    if not (at_boundary rest)
    then panicked
    else elim (hex_byte a b) [ none ↦ rejected | some n ↦ (later >>= λ ns. parsed (n ∷ ns)) ]

abbrev pub or_text_bytes : Bytes → Parsed Bytes → Parsed ParamValue
or_text_bytes s (parsed bytes) = parsed (bytes_value bytes)
or_text_bytes s rejected = parsed (text s)
or_text_bytes s panicked = panicked

abbrev pub decode_bytea : Bytes → Parsed ParamValue
decode_bytea s =
    if starts_with (codes "\\x") s then or_text_bytes s (hex_bytes (drop 2 s)) else parsed (text s)

-- The digits of a UUID in pairs; all are digits.
abbrev pub uuid_bytes : Bytes → Bytes
uuid_bytes [] = []
uuid_bytes (a ∷ []) = []
uuid_bytes (a ∷ b ∷ rest) = elim (hex_byte a b) [
  | none ↦ 0 ∷ uuid_bytes rest
  | some n ↦ n ∷ uuid_bytes rest
]

abbrev pub decode_uuid : Bytes → ParamValue
decode_uuid s =
    let hex = keep_if (λ c. is_some (hex_digit c)) s in
    if length hex == 32 then uuid (uuid_bytes hex) else text s

-- The type numbers, in the order of the source's list of tests.
unfoldable pub decode_text_param : Floats → Bytes → ℕ → Parsed ParamValue
unfolding hex_bytes
decode_text_param floats s oid =
    if not (is_utf8 s)
    then parsed (bytes_value s)
    else if oid == 16
    then parsed (decode_bool s)
    else if oid == 21
    then parsed (or_text int16 s (fits 16 (parse_i64 s)))
    else if oid == 23 || oid == 26
    then parsed (or_text int32 s (fits 32 (parse_i64 s)))
    else if oid == 20
    then parsed (or_text int64 s (parse_i64 s))
    else if oid == 700
    then parsed (or_text float32 s (floats.parse_f32 s))
    else if oid == 701
    then parsed (or_text float64 s (floats.parse_f64 s))
    else if oid == 1700
    then parsed (numeric s)
    else if oid == 25 || oid == 1043
    then parsed (text s)
    else if oid == 114 || oid == 3802
    then parsed (json s)
    else if oid == 2950
    then parsed (decode_uuid s)
    else if oid == 17
    then decode_bytea s
    else parsed (text s)

abbrev pub be64 : Bytes → ℕ
be64 (a ∷ b ∷ c ∷ d ∷ e ∷ f ∷ g ∷ h ∷ rest) = be32 a b c d * 2 ^ 32 + be32 e f g h
be64 _ = 0

abbrev pub be_value : Bytes → ℕ
be_value (a ∷ b ∷ []) = be16 a b
be_value (a ∷ b ∷ c ∷ d ∷ []) = be32 a b c d
be_value bytes = be64 bytes

-- A value of a fixed size.
abbrev pub sized : ℕ → ParamValue → ℕ → Bytes → ParamValue
sized size value oid bytes = if length bytes == size then value else unknown_value oid bytes

abbrev pub is_true : Bytes → Bool
is_true [] = false
is_true (b ∷ bytes) = not (b == 0)

abbrev pub decode_json : ℕ → Bytes → Bytes → ParamValue
decode_json oid json_data bytes =
    if is_utf8 json_data then json json_data else unknown_value oid bytes

pub decode_binary_param : Bytes → ℕ → ParamValue
decode_binary_param bytes oid =
    if oid == 16
    then sized 1 (bool_value (is_true bytes)) oid bytes
    else if oid == 21
    then sized 2 (int16 (signed 16 (be_value bytes))) oid bytes
    else if oid == 23 || oid == 26
    then sized 4 (int32 (signed 32 (be_value bytes))) oid bytes
    else if oid == 20
    then sized 8 (int64 (signed 64 (be_value bytes))) oid bytes
    else if oid == 700
    then sized 4 (float32 (be_value bytes)) oid bytes
    else if oid == 701
    then sized 8 (float64 (be_value bytes)) oid bytes
    else if oid == 2950
    then sized 16 (uuid bytes) oid bytes
    else if oid == 25 || oid == 1043
    then (if is_utf8 bytes then text bytes else bytes_value bytes)
    else if oid == 17
    then bytes_value bytes
    else if oid == 114
    then decode_json oid bytes bytes
    else if oid == 3802
    then decode_json oid (drop 1 bytes) bytes
    else unknown_value oid bytes

pub decode_param : Floats → Bytes → ℕ → ℕ → Parsed ParamValue
unfolding decode_text_param decode_binary_param
decode_param floats bytes oid format =
    if format == 0
    then decode_text_param floats bytes oid
    else parsed (decode_binary_param bytes oid)

abbrev pub decode_option : Floats → ℕ → ℕ → Option Bytes → Parsed ParamValue
decode_option floats oid format none = parsed null
decode_option floats oid format (some bytes) = decode_param floats bytes oid format

abbrev pub oid_at : List ℕ → ℕ → ℕ
oid_at param_oids i = elim (get_elem? param_oids i) [ none ↦ 0 | some oid ↦ oid ]

-- The parameters from the i-th on.
pub decode_from : Floats → List ℕ → List ℕ → ℕ → List (Option Bytes) → Parsed (List ParamValue)
unfolding decode_param
decode_from floats format_codes param_oids i [] = parsed []
decode_from floats format_codes param_oids i (raw ∷ rest) = do
  value ← decode_option floats (oid_at param_oids i) (get_format_code format_codes i) raw
  values ← decode_from floats format_codes param_oids (suc i) rest
  parsed (value ∷ values)

pub decode_params : Floats → List (Option Bytes) → List ℕ → List ℕ → Parsed (List ParamValue)
unfolding decode_from
decode_params floats params_raw format_codes param_oids =
    decode_from floats format_codes param_oids 0 params_raw
