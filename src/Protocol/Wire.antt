-- ===== src/Protocol/Wire.antt =====
-- Big-endian integers and frames. A byte is a number below 256; a signed integer is the bit pattern
-- read from the wire, and a cast to `usize` extends its sign.
use scry_proxy.Base.{
  ℕ, zero, suc, ◌+◌, ◌-◌, ◌*◌, ◌/◌, ◌%◌, ◌^◌, ◌<◌, ◌≡◌, ap, ◌∙◌, List, [], ◌∷◌, ◌++◌, arith, Bytes,
  length, ltb, if◌then◌else◌, u64_mod,
}

-- A byte of a slice; the source checks the index first.
abbrev pub byte_at : Bytes → ℕ → ℕ
byte_at [] i = 0
byte_at (b ∷ bs) zero = b
byte_at (b ∷ bs) (suc i) = byte_at bs i

abbrev pub be16 : ℕ → ℕ → ℕ
be16 a b = a * 2 ^ 8 + b

-- The pattern of `i32::from_be_bytes`.
abbrev pub be32 : ℕ → ℕ → ℕ → ℕ → ℕ
be32 a b c d = a * 2 ^ 24 + b * 2 ^ 16 + c * 2 ^ 8 + d

-- `i32 as usize` and `i16 as usize`, on a 64-bit machine.
abbrev pub i32_to_usize : ℕ → ℕ
i32_to_usize n = if ltb n (2 ^ 31) then n else n + (2 ^ 64 - 2 ^ 32)

abbrev pub i16_to_usize : ℕ → ℕ
i16_to_usize n = if ltb n (2 ^ 15) then n else n + (2 ^ 64 - 2 ^ 16)

-- `usize` addition in a release build.
abbrev pub add_usize : ℕ → ℕ → ℕ
add_usize a b = (a + b) % u64_mod

-- `to_be_bytes`
abbrev pub be16_bytes : ℕ → Bytes
be16_bytes n = n / 2 ^ 8 % 2 ^ 8 ∷ n % 2 ^ 8 ∷ []

abbrev pub be32_bytes : ℕ → Bytes
be32_bytes n = n / 2 ^ 24 % 2 ^ 8 ∷ n / 2 ^ 16 % 2 ^ 8 ∷ n / 2 ^ 8 % 2 ^ 8 ∷ n % 2 ^ 8 ∷ []

pub be16_round : (n : ℕ) → n < 2 ^ 16 → be16 (n / 2 ^ 8 % 2 ^ 8) (n % 2 ^ 8) ≡ n
be16_round n h = omega arith

pub be32_round :
    (n : ℕ)
    → n < 2 ^ 32
    → be32 (n / 2 ^ 24 % 2 ^ 8) (n / 2 ^ 16 % 2 ^ 8) (n / 2 ^ 8 % 2 ^ 8) (n % 2 ^ 8) ≡ n
be32_round n h = omega arith

-- A message: its type byte and its payload. The length field counts itself and the payload.
pub record Frame : Type 0 where
  pub tag : ℕ
  pub payload : Bytes

abbrev pub frame_bytes : Frame → Bytes
frame_bytes f = f.tag ∷ (be32_bytes (length f.payload + 4) ++ f.payload)

abbrev pub stream_bytes : List Frame → Bytes
stream_bytes [] = []
stream_bytes (f ∷ fs) = frame_bytes f ++ stream_bytes fs

pub byte_at-append : (xs ys : Bytes) (i : ℕ) → byte_at (xs ++ ys) (length xs + i) ≡ byte_at ys i
byte_at-append [] ys i = ap (byte_at ys) (omega arith)
byte_at-append (x ∷ xs) ys i = ap (byte_at (x ∷ (xs ++ ys))) shift ∙ byte_at-append xs ys i
  where
    shift : length (x ∷ xs) + i ≡ suc (length xs + i)
    shift = omega arith
