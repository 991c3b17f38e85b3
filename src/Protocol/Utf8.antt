-- ===== src/Protocol/Utf8.antt =====
-- `str::from_utf8` of the standard library as a test: well-formed UTF-8, with no overlong form, no
-- surrogate and nothing above U+10FFFF.
use scry_proxy.Base.{ℕ, Bool, true, false, ◌&&◌, [], ◌∷◌, Bytes, leb, ltb, ◌==◌, if◌then◌else◌}

abbrev pub within : ℕ → ℕ → ℕ → Bool
within lo hi b = leb lo b && leb b hi

-- What the next bytes must be.
pub data Expect : Type 0 where
  start : Expect
  last : Expect
  two three : Expect
  after_e0 after_ed after_f0 after_f4 : Expect

-- The automaton on one byte; `false` rejects.
unfoldable pub utf8_step : Expect → ℕ → Bool × Expect
utf8_step start b =
    if ltb b 0x80
    then (true, start)
    else if within 0xc2 0xdf b
    then (true, last)
    else if b == 0xe0
    then (true, after_e0)
    else if b == 0xed
    then (true, after_ed)
    else if within 0xe1 0xef b
    then (true, two)
    else if b == 0xf0
    then (true, after_f0)
    else if b == 0xf4
    then (true, after_f4)
    else if within 0xf1 0xf3 b
    then (true, three)
    else (false, start)
utf8_step last b = (within 0x80 0xbf b, start)
utf8_step two b = (within 0x80 0xbf b, last)
utf8_step three b = (within 0x80 0xbf b, two)
utf8_step after_e0 b = (within 0xa0 0xbf b, last)
utf8_step after_ed b = (within 0x80 0x9f b, last)
utf8_step after_f0 b = (within 0x90 0xbf b, two)
utf8_step after_f4 b = (within 0x80 0x8f b, two)

abbrev at_start : Expect → Bool
at_start start = true
at_start _ = false

unfoldable pub utf8_from : Expect → Bytes → Bool
unfolding utf8_step
utf8_from e [] = at_start e
utf8_from e (b ∷ bs) = let (fine, e') = utf8_step e b in fine && utf8_from e' bs

unfoldable pub is_utf8 : Bytes → Bool
unfolding utf8_from
is_utf8 bs = utf8_from start bs
