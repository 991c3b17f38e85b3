-- ===== src/Protocol/Bind/Tests.antt =====
-- Parameters of several types: runs, and an instance of the result.
use scry_proxy.Base.{
  ◌≡◌, refl, true, none, some, [], ◌∷◌, codes, pos, negsuc, parse_i64, starts_with,
}
use scry_proxy.Protocol.Utf8.{is_utf8}
use scry_proxy.Protocol.Messages.{parsed}
use scry_proxy.Protocol.Bind.{
  null, bool_value, int16, int32, text, bytes_value, unknown_value, Floats, decode_text_param,
  decode_params,
}

abbrev no_floats : Floats
no_floats = record { parse_f32 = λ s. none; parse_f64 = λ s. none }

decode_run :
    (decode_params no_floats
        (some (codes "42") ∷ none ∷ some (255 ∷ 254 ∷ []) ∷ some (7 ∷ []) ∷ [])
        (0 ∷ 0 ∷ 1 ∷ 1 ∷ [])
        (23 ∷ 23 ∷ 21 ∷ 99 ∷ [])
      ≡ parsed (int32 (pos 42) ∷ null ∷ int16 (negsuc 1) ∷ unknown_value 99 (7 ∷ []) ∷ []))
    × (decode_text_param no_floats (codes "\\x0aFF") 17 ≡ parsed (bytes_value (10 ∷ 255 ∷ [])))
    × (decode_text_param no_floats (codes "\\xzz") 17 ≡ parsed (text (codes "\\xzz")))
    × (decode_text_param no_floats (codes "t") 16 ≡ parsed (bool_value true))
unfolding decode_params decode_text_param is_utf8 parse_i64 starts_with
decode_run = (refl, refl, refl, refl)
