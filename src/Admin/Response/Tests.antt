-- ===== src/Admin/Response/Tests.antt =====
-- An answer with a row.
use scry_proxy.Base.{
  ◌≡◌, ◌<◌, u64_mod, arith, some, [], ◌∷◌, List, Bytes, codes, length, decimal, All,
}
use scry_proxy.Protocol.Wire.{stream_bytes}
use scry_proxy.Protocol.Scan.Stream.{IsFrame}
use scry_proxy.Protocol.Scan.{found, extract_ready_for_query}
use scry_proxy.Admin.Response.{
  AdminResponse, row_set, column_fields, build_row_description, row_values, build_data_row,
  build_command_complete, build_data_rows, to_wire,
}
use scry_proxy.Admin.Response.Rows.{frames, extract_ready_for_query-to_wire}

abbrev row : List Bytes
row = codes "main" ∷ codes "" ∷ []

abbrev answer : AdminResponse
answer = row_set (codes "name" ∷ codes "host" ∷ []) (row ∷ [])

answer_is_short : length (to_wire answer) < u64_mod
unfolding to_wire build_row_description column_fields build_data_row row_values
    build_command_complete build_data_rows decimal
answer_is_short = omega arith

answer-frames : All IsFrame (frames answer)
unfolding column_fields row_values decimal
answer-frames = (
  (omega arith, λ e. omega arith),
  (
    (omega arith, λ e. omega arith),
    ((omega arith, λ e. omega arith), ((omega arith, λ e. omega arith), tt)),
  ),
)

extract_ready_for_query-to_wire_example :
    (to_wire answer ≡ stream_bytes (frames answer))
    × (extract_ready_for_query 5 (to_wire answer) ≡ found (some b'I'))
extract_ready_for_query-to_wire_example =
    extract_ready_for_query-to_wire answer 5 answer-frames answer_is_short (omega arith)
