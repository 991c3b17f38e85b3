-- ===== src/Protocol/Bind/Bytea.antt =====
-- Text parameters of type bytea, in scry-proxy/src/protocol/bind.rs.
use scry_proxy.Base.{
  ℕ, suc, ◌%◌, ◌<◌, ◌≡◌, ◌↔◌, refl, ap, sym, ◌∙◌, true, not, [], ◌∷◌, Bytes, length, if◌then◌else◌,
  All, arith, starts_with, is_some, Option-cases, inl, inr,
}
use scry_proxy.Protocol.Messages.{Parsed, parsed, rejected, panicked, ◌>>=◌}
use scry_proxy.Protocol.Bind.{
  hex_digit, hex_byte, at_boundary, hex_bytes, or_text_bytes, Floats, bytes_value,
  decode_text_param,
}
use scry_proxy.Protocol.Utf8.{is_utf8, utf8_from, utf8_step, start}

-- The test of a hexadecimal digit.
abbrev pub IsHex : ℕ → Type 0
IsHex c = is_some (hex_digit c) ≡ true

IsHex-boundary : (c : ℕ) (rest : Bytes) → IsHex c → at_boundary (c ∷ rest) ≡ true
unfolding hex_digit
IsHex-boundary c rest h = ground (arith, h)

All-boundary : (s : Bytes) → All IsHex s → at_boundary s ≡ true
All-boundary [] h = refl
All-boundary (c ∷ rest) h = IsHex-boundary c rest h.0

hex_byte_digits : (a b : ℕ) → IsHex a → IsHex b → is_some (hex_byte a b) ≡ true
unfolding hex_digit
hex_byte_digits a b h k = ground (arith, h, k)

-- One pair of digits.
hex_bytes-pair :
    (a b : ℕ) (rest : Bytes)
    → IsHex a
    → IsHex b
    → All IsHex rest
    → (n : ℕ) × (hex_bytes (a ∷ b ∷ rest) ≡ (hex_bytes rest >>= λ ns. parsed (n ∷ ns)))
unfolding hex_bytes
hex_bytes-pair a b rest h k r = elim (Option-cases (hex_byte a b)) [
  | inl bad ↦ absurd (cc (hex_byte_digits a b h k, bad))
  | inr (n, good) ↦ (n, rw (hex_bytes, All-boundary rest r, good) refl)
]

cons_panics :
    (n : ℕ) (p : Parsed Bytes) → ((p >>= λ ns. parsed (n ∷ ns)) ≡ panicked) ↔ (p ≡ panicked)
cons_panics n (parsed ns) = (λ e. cc, λ e. cc)
cons_panics n rejected = (λ e. cc, λ e. cc)
cons_panics n panicked = (λ e. refl, λ e. refl)

-- A bytea text of hexadecimal digits, behind its `\x`, makes the decoder panic exactly if the number of digits is odd.
pub hex_bytes_panics : (s : Bytes) → All IsHex s → (hex_bytes s ≡ panicked) ↔ (length s % 2 ≡ 1)
unfolding hex_bytes
hex_bytes_panics [] h = (λ e. cc, λ e. cc)
hex_bytes_panics (a ∷ []) h = (λ e. refl, λ e. refl)
hex_bytes_panics (a ∷ b ∷ rest) (h, (k, r)) =
    let (n, pair) = hex_bytes-pair a b rest h k r in
    let (there, back) = cons_panics n (hex_bytes rest) in
    let (odd, panics) = hex_bytes_panics rest r in
    (
      λ (e : hex_bytes (a ∷ b ∷ rest) ≡ panicked). omega (arith, odd (there (sym pair ∙ e))),
      λ (e : suc (suc (length rest)) % 2 ≡ 1). pair ∙ back (panics (omega (arith, e))),
    )

IsHex-ascii : (c : ℕ) → IsHex c → c < 0x80
unfolding hex_digit
IsHex-ascii c h = ground (arith, h)

is_utf8_hex : (s : Bytes) → All IsHex s → utf8_from start s ≡ true
unfolding utf8_from utf8_step
is_utf8_hex [] h = refl
is_utf8_hex (c ∷ s) h = ground (arith, IsHex-ascii c h.0, is_utf8_hex s h.1)

or_text_bytes_panics :
    (s : Bytes) (p : Parsed Bytes) → (or_text_bytes s p ≡ panicked) ↔ (p ≡ panicked)
or_text_bytes_panics s (parsed ns) = (λ e. cc, λ e. cc)
or_text_bytes_panics s rejected = (λ e. cc, λ e. cc)
or_text_bytes_panics s panicked = (λ e. refl, λ e. refl)

decode_text_param-bytea :
    (floats : Floats) (s : Bytes)
    → is_utf8 (b'\\' ∷ b'x' ∷ s) ≡ true
    → decode_text_param floats (b'\\' ∷ b'x' ∷ s) 17
      ≡ or_text_bytes (b'\\' ∷ b'x' ∷ s) (hex_bytes s)
unfolding decode_text_param starts_with
decode_text_param-bytea floats s fine =
    ap
      (λ b.
        if not b
        then parsed (bytes_value (b'\\' ∷ b'x' ∷ s))
        else or_text_bytes (b'\\' ∷ b'x' ∷ s) (hex_bytes s))
      fine

-- A parameter of type bytea in text format, `\x` and then hexadecimal digits, makes the decoder panic exactly if the
-- number of its digits is odd.
pub decode_text_param_panics :
    (floats : Floats) (s : Bytes)
    → All IsHex s
    → (decode_text_param floats (b'\\' ∷ b'x' ∷ s) 17 ≡ panicked) ↔ (length s % 2 ≡ 1)
unfolding is_utf8 utf8_from utf8_step
decode_text_param_panics floats s h =
    let decoded = decode_text_param-bytea floats s (is_utf8_hex s h) in
    let (there, back) = or_text_bytes_panics (b'\\' ∷ b'x' ∷ s) (hex_bytes s) in
    let (odd, panics) = hex_bytes_panics s h in
    (λ e. odd (there (sym decoded ∙ e)), λ e. decoded ∙ back (panics e))
