-- ===== src/Protocol/ErrorFields/Tests.antt =====
-- A backend's replies: an instance of each result.
use scry_proxy.Base.{ℕ, ◌≡◌, refl, some, List, [], ◌∷◌, ◌++◌, arith, Bytes, codes, All}
use scry_proxy.Protocol.Utf8.{is_utf8, utf8_from, utf8_step}
use scry_proxy.Protocol.Wire.{Frame, frame_bytes, stream_bytes}
use scry_proxy.Protocol.ErrorFields.{extract_error, extract_error_scrubbed}
use scry_proxy.Protocol.ErrorFields.Reading.{IsField, error_frame, extract_error-error_frame}

-- A unique violation whose message repeats a literal of the statement.
abbrev violation : List (ℕ × Bytes)
violation = (b'S', codes "ERROR") ∷ (b'C', codes "23505") ∷ (b'M', codes "Key (id)=(7) exists") ∷ []

violation-IsField : All IsField violation
unfolding is_utf8 utf8_from utf8_step
violation-IsField = (
  (omega arith, record { no_nul = ground arith; utf8 = refl }),
  (
    (omega arith, record { no_nul = ground arith; utf8 = refl }),
    ((omega arith, record { no_nul = ground arith; utf8 = refl }), tt),
  ),
)

abbrev notice : List Frame
notice = record { tag = b'N'; payload = codes "x" } ∷ []

extract_error-error_frame_example :
    let chunk = stream_bytes notice ++ (frame_bytes (error_frame violation) ++ []) in
    (extract_error chunk ≡ some (codes "ERROR: Key (id)=(7) exists"))
    × (extract_error_scrubbed chunk ≡ some (codes "ERROR: 23505"))
unfolding is_utf8 utf8_from utf8_step
extract_error-error_frame_example =
    extract_error-error_frame notice violation [] ((λ e. omega arith, omega arith, omega arith), tt)
      violation-IsField (omega arith)
