-- ===== src/Protocol/ErrorFields/Reading.antt =====
-- An ErrorResponse is read back, alone and behind other messages of a chunk.
use mathlib.Core.List.{append_assoc}
use scry_proxy.Base.{
  ℕ, zero, suc, ◌+◌, ◌≤◌, ◌<◌, ◌^◌, ◌≡◌, ◌≢◌, refl, ap, ◌∙◌, none, some, List, [], ◌∷◌, ◌++◌, arith,
  Bytes, codes, Option, true, ◌==◌, if◌then◌else◌, length, length-append, take-append, drop-append,
  sub64, sub64-eq_sub, All,
}
use scry_proxy.Protocol.Utf8.{is_utf8}
use scry_proxy.Protocol.Wire.{Frame, frame_bytes, stream_bytes, be32_round, i32_to_usize}
use scry_proxy.Protocol.Messages.RoundTrip.{IsText, cstring, split_nul-cstring}
use scry_proxy.Protocol.ErrorFields.{
  ErrorFields, no_fields, set_field, read_fields, parse_error_fields, scan_error, find_error_fields,
  extract_error, extract_error_scrubbed, full_text, scrubbed_text, joined_text, msg_error_response,
}

-- A field: its type and its text.
abbrev pub IsField : ℕ × Bytes → Type 0
IsField (field_type, value) = (0 < field_type) × IsText value

-- The payload of an ErrorResponse with these fields.
abbrev pub fields_bytes : List (ℕ × Bytes) → Bytes
fields_bytes [] = 0 ∷ []
fields_bytes ((field_type, value) ∷ fs) = field_type ∷ cstring value (fields_bytes fs)

-- The fields, set one after the other.
abbrev pub set_fields : List (ℕ × Bytes) → ErrorFields → ErrorFields
set_fields [] fields = fields
set_fields ((field_type, value) ∷ fs) fields = set_fields fs (set_field field_type value fields)

read_fields-fields_bytes :
    (fs : List (ℕ × Bytes)) (fuel : ℕ) (fields : ErrorFields)
    → All IsField fs
    → length fs < fuel
    → read_fields fuel (fields_bytes fs) fields ≡ set_fields fs fields
unfolding read_fields
read_fields-fields_bytes fs zero fields w h = ground arith
read_fields-fields_bytes [] (suc fuel) fields w h = refl
read_fields-fields_bytes ((t, v) ∷ fs) (suc fuel) fields w h = ground (
  arith,
  split_nul-cstring v (fields_bytes fs) w.0.1.no_nul,
  read_fields-fields_bytes fs fuel (set_field t v fields) w.1,
)

length-fields_bytes : (fs : List (ℕ × Bytes)) → length fs < length (fields_bytes fs)
length-fields_bytes [] = omega arith
length-fields_bytes ((t, v) ∷ fs) =
    omega (arith, length-append v (0 ∷ fields_bytes fs), length-fields_bytes fs)

-- Every ErrorResponse payload is read back, whatever fields it has: each value is set in turn, so the last of its
-- type counts. Conditions: the field types are not zero, and the values are UTF-8 without a zero byte.
pub parse_error_fields-fields_bytes :
    (fs : List (ℕ × Bytes))
    → All IsField fs
    → parse_error_fields (fields_bytes fs) ≡ set_fields fs no_fields
unfolding parse_error_fields
parse_error_fields-fields_bytes fs w =
    read_fields-fields_bytes fs (length (fields_bytes fs)) no_fields w (length-fields_bytes fs)

-- A message that the search steps over: not an ErrorResponse, with a payload of its own.
abbrev pub IsOther : Frame → Type 0
IsOther f = (f.tag ≢ msg_error_response) × (1 ≤ length f.payload) × (length f.payload + 4 < 2 ^ 31)

abbrev pub error_frame : List (ℕ × Bytes) → Frame
error_frame fs = record { tag = msg_error_response; payload = fields_bytes fs }

frame_len : (n : ℕ) → n + 4 < 2 ^ 31 → (i32_to_usize (n + 4) ≡ n + 4) × (sub64 (n + 4) 4 ≡ n)
frame_len n h = (ground arith, ground (arith, sub64-eq_sub (n + 4) 4))

scan_error-other :
    (f : Frame) (rest : Bytes) (fuel : ℕ)
    → IsOther f
    → scan_error (suc fuel) (frame_bytes f ++ rest) ≡ scan_error fuel rest
unfolding scan_error
scan_error-other f rest fuel (other, some_payload, small) =
    let n = length f.payload in
    let (len, inner) = frame_len n small in
    rw (be32_round (n + 4) (omega (arith, small)), len, inner, drop-append f.payload rest)
      (ground (arith, length-append f.payload rest, other, some_payload))

scan_error-error :
    (fs : List (ℕ × Bytes)) (rest : Bytes) (fuel : ℕ)
    → All IsField fs
    → length (fields_bytes fs) + 4 < 2 ^ 31
    → scan_error (suc fuel) (frame_bytes (error_frame fs) ++ rest) ≡ some (set_fields fs no_fields)
unfolding scan_error
scan_error-error fs rest fuel w small =
    let n = length (fields_bytes fs) in
    let (len, inner) = frame_len n small in
    rw
      (
        be32_round (n + 4) (omega (arith, small)),
        len,
        inner,
        take-append (fields_bytes fs) rest,
        parse_error_fields-fields_bytes fs w,
      )
      (ground (arith, length-append (fields_bytes fs) rest))

scan_error-stream :
    (others : List Frame) (fs : List (ℕ × Bytes)) (rest : Bytes) (fuel : ℕ)
    → All IsOther others
    → All IsField fs
    → length (fields_bytes fs) + 4 < 2 ^ 31
    → length others < fuel
    → scan_error fuel (stream_bytes others ++ (frame_bytes (error_frame fs) ++ rest))
      ≡ some (set_fields fs no_fields)
scan_error-stream others fs rest zero o w small h = ground arith
scan_error-stream [] fs rest (suc fuel) o w small h = scan_error-error fs rest fuel w small
scan_error-stream (f ∷ others) fs rest (suc fuel) o w small h =
    ap (scan_error (suc fuel)) (append_assoc (frame_bytes f) (stream_bytes others) _)
    ∙ scan_error-other f (stream_bytes others ++ (frame_bytes (error_frame fs) ++ rest)) fuel o.0
    ∙ scan_error-stream others fs rest fuel o.1 w small (omega (arith, h))

length-stream_bytes-le : (fs : List Frame) → length fs ≤ length (stream_bytes fs)
length-stream_bytes-le [] = omega arith
length-stream_bytes-le (f ∷ fs) =
    omega (arith, length-append (frame_bytes f) (stream_bytes fs), length-stream_bytes-le fs)

-- The last value of a type among the fields, or the one seen before.
abbrev pub last_of : ℕ → Option Bytes → List (ℕ × Bytes) → Option Bytes
last_of t seen [] = seen
last_of t seen ((field_type, value) ∷ fs) =
    last_of t (if field_type == t then some value else seen) fs

-- The texts that are there, with a colon and a space between two.
abbrev pub with_colon : Option Bytes → Option Bytes → Option Bytes
with_colon none b = b
with_colon (some a) none = some a
with_colon (some a) (some b) = some (a ++ codes ": " ++ b)

set_field-fields :
    (t : ℕ) (v : Bytes) (fields : ErrorFields)
    → is_utf8 v ≡ true
    → let found = set_field t v fields in
      (found.severity ≡ (if t == b'S' then some v else fields.severity))
      × (found.sqlstate ≡ (if t == b'C' then some v else fields.sqlstate))
      × (found.message ≡ (if t == b'M' then some v else fields.message))
set_field-fields t v fields utf8 =
    (ground (arith, utf8), ground (arith, utf8), ground (arith, utf8))

set_fields-last_of :
    (fs : List (ℕ × Bytes)) (fields : ErrorFields)
    → All IsField fs
    → let found = set_fields fs fields in
      (found.severity ≡ last_of b'S' fields.severity fs)
      × (found.sqlstate ≡ last_of b'C' fields.sqlstate fs)
      × (found.message ≡ last_of b'M' fields.message fs)
set_fields-last_of [] fields w = (refl, refl, refl)
set_fields-last_of ((t, v) ∷ fs) fields w =
    let (severity, sqlstate, message) = set_fields-last_of fs (set_field t v fields) w.1 in
    let (s, c, m) = set_field-fields t v fields w.0.1.utf8 in
    (
      severity ∙ ap (λ o. last_of b'S' o fs) s,
      sqlstate ∙ ap (λ o. last_of b'C' o fs) c,
      message ∙ ap (λ o. last_of b'M' o fs) m,
    )

joined_text-with_colon : (a b : Option Bytes) → joined_text a b ≡ with_colon a b
joined_text-with_colon none none = refl
joined_text-with_colon none (some b) = refl
joined_text-with_colon (some a) none = refl
joined_text-with_colon (some a) (some b) = refl

-- The error of such a chunk, by its fields set one after the other.
pub extract_error-set_fields :
    (others : List Frame) (fs : List (ℕ × Bytes)) (rest : Bytes)
    → All IsOther others
    → All IsField fs
    → length (fields_bytes fs) + 4 < 2 ^ 31
    → let chunk = stream_bytes others ++ (frame_bytes (error_frame fs) ++ rest) in
      (extract_error chunk ≡ full_text (some (set_fields fs no_fields)))
      × (extract_error_scrubbed chunk ≡ scrubbed_text (some (set_fields fs no_fields)))
unfolding extract_error extract_error_scrubbed find_error_fields
extract_error-set_fields others fs rest o w small =
    let chunk = stream_bytes others ++ (frame_bytes (error_frame fs) ++ rest) in
    let found = scan_error-stream others fs rest (length chunk) o w small (
      omega (
        arith,
        length-append (stream_bytes others) (frame_bytes (error_frame fs) ++ rest),
        length-stream_bytes-le others,
      )) in
    (ap full_text found, ap scrubbed_text found)

-- A chunk has some messages with payloads, none of them an ErrorResponse, and then an ErrorResponse: the full error is
-- the last severity and the last message among its fields, and the scrubbed one the last severity and the last SQLSTATE,
-- with a colon between them where both are there.
-- Conditions: every message is shorter than 2 ^ 31 bytes; the field types are not zero, and the values are UTF-8
-- without a zero byte.
pub extract_error-error_frame :
    (others : List Frame) (fs : List (ℕ × Bytes)) (rest : Bytes)
    → All IsOther others
    → All IsField fs
    → length (fields_bytes fs) + 4 < 2 ^ 31
    → let chunk = stream_bytes others ++ (frame_bytes (error_frame fs) ++ rest) in
      (extract_error chunk ≡ with_colon (last_of b'S' none fs) (last_of b'M' none fs))
      × (extract_error_scrubbed chunk ≡ with_colon (last_of b'S' none fs) (last_of b'C' none fs))
extract_error-error_frame others fs rest o w small =
    let (full, scrubbed) = extract_error-set_fields others fs rest o w small in
    let (severity, sqlstate, message) = set_fields-last_of fs no_fields w in
    (
      full
          ∙ joined_text-with_colon (set_fields fs no_fields).severity
              (set_fields fs no_fields).message
          ∙ rw (severity, message) refl,
      scrubbed
          ∙ joined_text-with_colon (set_fields fs no_fields).severity
              (set_fields fs no_fields).sqlstate
          ∙ rw (severity, sqlstate) refl,
    )

-- A message without a payload, such as ParseComplete or BindComplete, ends the search: an ErrorResponse behind it in
-- the chunk is not found.
pub extract_error_stops :
    (tag : ℕ) (rest : Bytes)
    → tag ≢ msg_error_response
    → (extract_error (tag ∷ 0 ∷ 0 ∷ 0 ∷ 4 ∷ rest) ≡ none)
      × (extract_error_scrubbed (tag ∷ 0 ∷ 0 ∷ 0 ∷ 4 ∷ rest) ≡ none)
unfolding extract_error extract_error_scrubbed find_error_fields scan_error
extract_error_stops tag rest other = ground arith
