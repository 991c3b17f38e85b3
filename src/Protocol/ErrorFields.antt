-- ===== src/Protocol/ErrorFields.antt =====
-- scry-proxy/src/protocol/extractor.rs: the error that a backend reports, found in a chunk and read field by field.
-- Each round of a loop takes a byte at least, so the chunk's length bounds the rounds.
pub mod Reading
pub mod Fuel
mod Tests
use scry_proxy.Base.{
  ℕ, zero, suc, Bool, true, false, ◌&&◌, Option, none, some, List, [], ◌∷◌, ◌++◌, Bytes, codes,
  length, take, drop, leb, ltb, ◌==◌, if◌then◌else◌, sub64,
}
use scry_proxy.Protocol.Wire.{be32, i32_to_usize}
use scry_proxy.Protocol.Utf8.{is_utf8}
use scry_proxy.Protocol.Messages.{split_nul}

abbrev pub msg_error_response : ℕ
msg_error_response = b'E'

pub record ErrorFields : Type 0 where
  pub severity : Option Bytes
  pub sqlstate : Option Bytes
  pub message : Option Bytes

-- `ErrorFields::default()`
abbrev pub no_fields : ErrorFields
no_fields = record { severity = none; sqlstate = none; message = none }

-- One field: a value that is not UTF-8 and a type other than these three are ignored.
abbrev pub set_field : ℕ → Bytes → ErrorFields → ErrorFields
set_field field_type value fields =
    if is_utf8 value
    then (if field_type == b'S'
        then record fields { severity = some value }
        else if field_type == b'C'
        then record fields { sqlstate = some value }
        else if field_type == b'M'
        then record fields { message = some value }
        else fields)
    else fields

pub read_fields : ℕ → Bytes → ErrorFields → ErrorFields
read_fields zero bytes fields = fields
read_fields (suc fuel) [] fields = fields
read_fields (suc fuel) (field_type ∷ bytes) fields =
    if field_type == 0 then fields else elim (split_nul bytes) [
      | none ↦ fields
      | some (value, rest) ↦ read_fields fuel rest (set_field field_type value fields)
    ]

pub parse_error_fields : Bytes → ErrorFields
unfolding read_fields
parse_error_fields bytes = read_fields (length bytes) bytes no_fields

-- The loop. An ErrorResponse that is not complete is stepped into behind its header; any other message is
-- stepped over, where it has a payload that is complete.
unfoldable pub scan_error : ℕ → Bytes → Option ErrorFields
unfolding parse_error_fields
scan_error (suc fuel) (tag ∷ a ∷ b ∷ c ∷ d ∷ rest) =
    let len = i32_to_usize (be32 a b c d) in
    let inside = scan_error fuel rest in
    let behind = scan_error fuel (drop (sub64 len 4) rest) in
    if tag == msg_error_response
    then (if leb (sub64 len 4) (length rest)
        then some (parse_error_fields (take (sub64 len 4) rest))
        else inside)
    else if ltb 4 len && leb (sub64 len 4) (length rest)
    then behind
    else none
scan_error _ _ = none

unfoldable pub find_error_fields : Bytes → Option ErrorFields
unfolding scan_error
find_error_fields bytes = scan_error (length bytes) bytes

-- `format!("{}: {}", a, b)` of two that are there, or the one that is.
abbrev pub joined_text : Option Bytes → Option Bytes → Option Bytes
joined_text (some a) (some b) = some (a ++ codes ": " ++ b)
joined_text none (some b) = some b
joined_text (some a) none = some a
joined_text none none = none

abbrev pub full_text : Option ErrorFields → Option Bytes
full_text none = none
full_text (some fields) = joined_text fields.severity fields.message

abbrev pub scrubbed_text : Option ErrorFields → Option Bytes
scrubbed_text none = none
scrubbed_text (some fields) = joined_text fields.severity fields.sqlstate

unfoldable pub extract_error : Bytes → Option Bytes
unfolding find_error_fields
extract_error bytes = full_text (find_error_fields bytes)

pub extract_error_scrubbed : Bytes → Option Bytes
extract_error_scrubbed bytes = scrubbed_text (find_error_fields bytes)
