-- ===== src/Admin/Response/Rows.antt =====
-- What a client reads of an answer: whole frames, whose last one is a ReadyForQuery, and the values of each row.
use mathlib.Core.List.{append_assoc, append-nil}
use scry_proxy.Base.{
  ℕ, zero, suc, ◌+◌, ◌<◌, ◌^◌, u64_mod, ◌≡◌, refl, ap, sym, ◌∙◌, Option, none, some, List, [], ◌∷◌,
  ◌++◌, arith, Bytes, codes, length, length-append, take, drop, take-append, drop-append, All,
  decimal, leb, if◌then◌else◌,
}
use scry_proxy.Protocol.Wire.{
  be16, be32, be16_bytes, be32_bytes, be16_round, be32_round, Frame, frame_bytes, stream_bytes,
}
use scry_proxy.Protocol.Scan.{found, extract_ready_for_query}
use scry_proxy.Protocol.Scan.Stream.{IsFrame, last_status, extract_ready_for_query_last}
use scry_proxy.Admin.Response.{
  AdminResponse, row_set, command_complete, error, column_fields, build_row_description, row_values,
  build_data_row, build_command_complete, error_fields, build_error_response, build_data_rows,
  to_wire, ready_idle,
}

abbrev pub row_payload : List Bytes → Bytes
row_payload values = be16_bytes (length values) ++ row_values values

abbrev row_frame : List Bytes → Frame
row_frame values = record { tag = b'D'; payload = row_payload values }

abbrev columns_frame : List Bytes → Frame
columns_frame columns = record {
  tag = b'T';
  payload = be16_bytes (length columns) ++ column_fields columns;
}

abbrev tag_frame : Bytes → Frame
tag_frame tag = record { tag = b'C'; payload = tag ++ 0 ∷ [] }

abbrev ready_frame : Frame
ready_frame = record { tag = b'Z'; payload = b'I' ∷ [] }

abbrev row_frames : List (List Bytes) → List Frame
row_frames [] = []
row_frames (row ∷ rest) = row_frame row ∷ row_frames rest

-- The frames of an answer.
abbrev pub frames : AdminResponse → List Frame
frames (row_set columns rows) =
    columns_frame columns
    ∷ (row_frames rows ++ (tag_frame (codes "SELECT " ++ decimal (length rows)) ∷ ready_frame ∷ []))
frames (command_complete tag) = tag_frame tag ∷ ready_frame ∷ []
frames (error message) = record { tag = b'E'; payload = error_fields message } ∷ ready_frame ∷ []

stream_bytes-append :
    (fs gs : List Frame) → stream_bytes (fs ++ gs) ≡ stream_bytes fs ++ stream_bytes gs
stream_bytes-append [] gs = refl
stream_bytes-append (f ∷ fs) gs =
    ap (λ b. frame_bytes f ++ b) (stream_bytes-append fs gs)
    ∙ sym (append_assoc (frame_bytes f) (stream_bytes fs) (stream_bytes gs))

data_row_frame : (row : List Bytes) → build_data_row row ≡ frame_bytes (row_frame row)
unfolding build_data_row
data_row_frame row = ap (λ n. b'D' ∷ (be32_bytes n ++ row_payload row)) (omega arith)

data_rows_frames :
    (rows : List (List Bytes)) → build_data_rows rows ≡ stream_bytes (row_frames rows)
unfolding build_data_rows
data_rows_frames [] = refl
data_rows_frames (row ∷ rest) =
    ap (λ b. b ++ build_data_rows rest) (data_row_frame row)
    ∙ ap (λ b. frame_bytes (row_frame row) ++ b) (data_rows_frames rest)

command_complete_frame : (tag : Bytes) → build_command_complete tag ≡ frame_bytes (tag_frame tag)
unfolding build_command_complete
command_complete_frame tag =
    ap (λ n. b'C' ∷ (be32_bytes n ++ (tag ++ 0 ∷ [])))
      (let n : 4 + length tag + 1 ≡ length (tag ++ 0 ∷ []) + 4 =
          omega (arith, length-append tag (0 ∷ [])) in
        n)

columns_frame_bytes :
    (columns : List Bytes) → build_row_description columns ≡ frame_bytes (columns_frame columns)
unfolding build_row_description
columns_frame_bytes columns =
    ap (λ n. b'T' ∷ (be32_bytes n ++ (be16_bytes (length columns) ++ column_fields columns)))
      (omega arith)

error_frame_bytes :
    (message : Bytes)
    → build_error_response message
      ≡ frame_bytes (record { tag = b'E'; payload = error_fields message })
unfolding build_error_response
error_frame_bytes message = ap (λ n. b'E' ∷ (be32_bytes n ++ error_fields message)) (omega arith)

-- With a frame at the end of a stream.
two_frames : (a : Frame) → stream_bytes (a ∷ ready_frame ∷ []) ≡ frame_bytes a ++ ready_idle
two_frames a = refl

to_wire-frames : (r : AdminResponse) → to_wire r ≡ stream_bytes (frames r)
unfolding to_wire
to_wire-frames (row_set columns rows) =
    let tag : Bytes = codes "SELECT " ++ decimal (length rows) in
    ap (λ b. b ++ (build_data_rows rows ++ (build_command_complete tag ++ ready_idle)))
      (columns_frame_bytes columns)
    ∙ ap
        (λ b.
          frame_bytes (columns_frame columns) ++ (b ++ (build_command_complete tag ++ ready_idle)))
        (data_rows_frames rows)
    ∙ ap
        (λ b.
          frame_bytes (columns_frame columns)
          ++ (stream_bytes (row_frames rows) ++ (b ++ ready_idle)))
        (command_complete_frame tag)
    ∙ ap (λ b. frame_bytes (columns_frame columns) ++ b)
        (sym (stream_bytes-append (row_frames rows) (tag_frame tag ∷ ready_frame ∷ [])))
to_wire-frames (command_complete tag) = ap (λ b. b ++ ready_idle) (command_complete_frame tag)
to_wire-frames (error message) = ap (λ b. b ++ ready_idle) (error_frame_bytes message)

last_status-append :
    (fs gs : List Frame) (seen : Option ℕ)
    → last_status seen (fs ++ gs) ≡ last_status (last_status seen fs) gs
last_status-append [] gs seen = refl
last_status-append (f ∷ fs) gs seen = last_status-append fs gs _

last_status-frames : (r : AdminResponse) → last_status none (frames r) ≡ some b'I'
last_status-frames (row_set columns rows) =
    last_status-append (row_frames rows)
      (tag_frame (codes "SELECT " ++ decimal (length rows)) ∷ ready_frame ∷ []) none
last_status-frames (command_complete tag) = refl
last_status-frames (error message) = refl

-- Every answer of the console is a sequence of whole frames, and the scanner of the proxy reads at its end that the
-- server is idle, so that a client knows the answer to be over.
-- Conditions: each frame's length fits an `i32`, the answer is shorter than 2 ^ 64 bytes, and the scan may take a round
-- for each frame.
pub extract_ready_for_query-to_wire :
    (r : AdminResponse) (fuel : ℕ)
    → All IsFrame (frames r)
    → length (to_wire r) < u64_mod
    → length (frames r) < fuel
    → (to_wire r ≡ stream_bytes (frames r))
      × (extract_ready_for_query fuel (to_wire r) ≡ found (some b'I'))
extract_ready_for_query-to_wire r fuel w small enough =
    let whole : stream_bytes (frames r) ++ [] ≡ to_wire r =
      append-nil (stream_bytes (frames r)) ∙ sym (to_wire-frames r) in
    (
      to_wire-frames r,
      sym (ap (extract_ready_for_query fuel) whole)
          ∙ extract_ready_for_query_last (frames r) [] fuel w (omega arith)
              (let bound : length (stream_bytes (frames r) ++ []) < u64_mod =
                  omega (arith, ap length whole, small) in
                bound)
              enough
          ∙ ap (λ s. found s) (last_status-frames r),
    )

-- A client's reader of a DataRow: so many values, each behind its length.
abbrev pub push_value : Bytes → Option (List Bytes) → Option (List Bytes)
push_value v none = none
push_value v (some vs) = some (v ∷ vs)

pub read_values : ℕ → Bytes → Option (List Bytes)
read_values zero [] = some []
read_values zero (b ∷ rest) = none
read_values (suc n) (a ∷ b ∷ c ∷ d ∷ rest) =
    let len = be32 a b c d in
    let later = read_values n (drop len rest) in
    if leb len (length rest) then push_value (take len rest) later else none
read_values (suc n) _ = none

pub read_row : Bytes → Option (List Bytes)
unfolding read_values
read_row (a ∷ b ∷ rest) = read_values (be16 a b) rest
read_row _ = none

abbrev pub IsRow : List Bytes → Type 0
IsRow = All (λ v. length v < 2 ^ 31)

read_values-row_values :
    (values : List Bytes)
    → IsRow values
    → read_values (length values) (row_values values) ≡ some values
unfolding read_values row_values
read_values-row_values [] h = refl
read_values-row_values (v ∷ values) h =
    let small : length v < 2 ^ 32 = omega (arith, h.0) in
    rw
      (
        be32_round (length v) small,
        take-append v (row_values values),
        drop-append v (row_values values),
        read_values-row_values values h.1,
      )
      (ground (arith, length-append v (row_values values)))

-- The values of a row are read back from its DataRow, whatever bytes they consist of.
-- Conditions: there are fewer than 2 ^ 15 values, each shorter than 2 ^ 31 bytes.
pub read_row-row_payload :
    (values : List Bytes)
    → IsRow values
    → length values < 2 ^ 15
    → (build_data_row values ≡ frame_bytes (record { tag = b'D'; payload = row_payload values }))
      × (read_row (row_payload values) ≡ some values)
unfolding read_row
read_row-row_payload values h few = (
  data_row_frame values,
  rw (be16_round (length values) (omega (arith, few))) (read_values-row_values values h),
)
