-- ===== src/Admin/Response.antt =====
-- scry-proxy/src/admin/response.rs: the answers of the admin console on the wire. A length that is cast to `i16` or to
-- `i32` keeps its low bits, as the byte functions do.
pub mod Rows
mod Tests
use scry_proxy.Base.{ℕ, ◌+◌, List, [], ◌∷◌, ◌++◌, Bytes, codes, length, decimal}
use scry_proxy.Protocol.Wire.{be16_bytes, be32_bytes}

pub data AdminResponse : Type 0 where
  row_set : (columns : List Bytes) (rows : List (List Bytes)) → AdminResponse
  command_complete : (tag : Bytes) → AdminResponse
  error : (message : Bytes) → AdminResponse

-- The table, the column, the type, its size, its modifier and the format of a column of text.
abbrev pub text_column : Bytes
text_column =
    be32_bytes 0
    ++ (be16_bytes 0
        ++ (be32_bytes 25 ++ (0xff ∷ 0xff ∷ (0xff ∷ 0xff ∷ 0xff ∷ 0xff ∷ be16_bytes 0))))

unfoldable pub column_fields : List Bytes → Bytes
column_fields [] = []
column_fields (col ∷ rest) = col ++ (0 ∷ (text_column ++ column_fields rest))

unfoldable pub build_row_description : List Bytes → Bytes
unfolding column_fields
build_row_description columns =
    let fields = column_fields columns in
    b'T' ∷ (be32_bytes (4 + 2 + length fields) ++ (be16_bytes (length columns) ++ fields))

unfoldable pub row_values : List Bytes → Bytes
row_values [] = []
row_values (value ∷ rest) = be32_bytes (length value) ++ (value ++ row_values rest)

unfoldable pub build_data_row : List Bytes → Bytes
unfolding row_values
build_data_row values =
    let columns = row_values values in
    b'D' ∷ (be32_bytes (4 + 2 + length columns) ++ (be16_bytes (length values) ++ columns))

unfoldable pub build_command_complete : Bytes → Bytes
build_command_complete tag = b'C' ∷ (be32_bytes (4 + length tag + 1) ++ (tag ++ 0 ∷ []))

abbrev pub ready_idle : Bytes
ready_idle = b'Z' ∷ 0 ∷ 0 ∷ 0 ∷ 5 ∷ b'I' ∷ []

abbrev pub error_fields : Bytes → Bytes
error_fields message =
    b'S' ∷ (codes "ERROR" ++ 0 ∷ b'C' ∷ (codes "42000" ++ 0 ∷ b'M' ∷ (message ++ 0 ∷ 0 ∷ [])))

unfoldable pub build_error_response : Bytes → Bytes
build_error_response message =
    let fields = error_fields message in b'E' ∷ (be32_bytes (4 + length fields) ++ fields)

unfoldable pub build_data_rows : List (List Bytes) → Bytes
unfolding build_data_row
build_data_rows [] = []
build_data_rows (row ∷ rest) = build_data_row row ++ build_data_rows rest

unfoldable pub to_wire : AdminResponse → Bytes
unfolding build_row_description build_data_rows build_command_complete build_error_response
to_wire (row_set columns rows) =
    build_row_description columns
    ++ (build_data_rows rows
        ++ (build_command_complete (codes "SELECT " ++ decimal (length rows)) ++ ready_idle))
to_wire (command_complete tag) = build_command_complete tag ++ ready_idle
to_wire (error message) = build_error_response message ++ ready_idle
