-- ===== src/Base/Text.antt =====
-- The standard library's functions on texts that the source calls, for ASCII: a text is the list of its bytes, and
-- a byte is a character. Bytes above 127 are left alone by the case mappings and are no white space.
use Prim.Native.Nat.{ℕ, suc, ◌+◌, ◌-◌}
use Prim.Native.Char.{code}
use Prim.Native.String.{String}
use mathlib.Core.Bool.{Bool, true, false, not, ◌&&◌, ◌||◌}
use mathlib.Core.List.{List, [], ◌∷◌, map}
use mathlib.Core.Option.{Option, none, some}
use scry_proxy.Base.Tests.{leb, ◌==◌, if◌then◌else◌, is_some}
use scry_proxy.Base.Lists.{is_empty, keep_if}
use scry_proxy.Base.Keys.{Bytes, bytes_eq}

-- The bytes of an ASCII literal.
abbrev pub codes : String → Bytes
codes String.[] = []
codes (String.◌∷◌ c s) = code c ∷ codes s

abbrev pub is_space : ℕ → Bool
is_space c = (leb 9 c && leb c 13) || c == 32

unfoldable pub upper_byte : ℕ → ℕ
upper_byte c = if leb b'a' c && leb c b'z' then c - 32 else c

unfoldable pub lower_byte : ℕ → ℕ
lower_byte c = if leb b'A' c && leb c b'Z' then c + 32 else c

unfoldable pub to_uppercase : Bytes → Bytes
unfolding upper_byte
to_uppercase = map upper_byte

unfoldable pub to_lowercase : Bytes → Bytes
unfolding lower_byte
to_lowercase = map lower_byte

unfoldable pub trim_start_by : (ℕ → Bool) → Bytes → Bytes
trim_start_by p [] = []
trim_start_by p (c ∷ cs) = if p c then trim_start_by p cs else c ∷ cs

abbrev pub snoc_unless : (ℕ → Bool) → ℕ → Bytes → Bytes
snoc_unless p c [] = if p c then [] else c ∷ []
snoc_unless p c (d ∷ ds) = c ∷ d ∷ ds

unfoldable pub trim_end_by : (ℕ → Bool) → Bytes → Bytes
trim_end_by p [] = []
trim_end_by p (c ∷ cs) = snoc_unless p c (trim_end_by p cs)

unfoldable pub trim_start : Bytes → Bytes
unfolding trim_start_by
trim_start = trim_start_by is_space

unfoldable pub trim : Bytes → Bytes
unfolding trim_start_by trim_end_by
trim s = trim_end_by is_space (trim_start_by is_space s)

-- `trim_matches(c)`
unfoldable pub trim_matches : ℕ → Bytes → Bytes
unfolding trim_start_by trim_end_by
trim_matches c s = trim_end_by (λ b. b == c) (trim_start_by (λ b. b == c) s)

unfoldable pub starts_with : Bytes → Bytes → Bool
starts_with [] s = true
starts_with (p ∷ ps) [] = false
starts_with (p ∷ ps) (c ∷ cs) = (p == c) && starts_with ps cs

abbrev pub shift_found : Option ℕ → Option ℕ
shift_found none = none
shift_found (some i) = some (suc i)

-- `s.find(pattern)`
unfoldable pub find : Bytes → Bytes → Option ℕ
unfolding starts_with
find p [] = if is_empty p then some 0 else none
find p (c ∷ cs) = if starts_with p (c ∷ cs) then some 0 else shift_found (find p cs)

unfoldable pub contains : Bytes → Bytes → Bool
unfolding find
contains p s = is_some (find p s)

-- The bytes up to the first white space.
unfoldable pub word : Bytes → Bytes
word [] = []
word (c ∷ cs) = if is_space c then [] else c ∷ word cs

-- `s.split_whitespace().next()`
unfoldable pub first_word : Bytes → Option Bytes
unfolding word trim_start
first_word s = elim (trim_start s) [ [] ↦ none | c ∷ cs ↦ some (word (c ∷ cs)) ]

unfoldable pub eq_ignore_ascii_case : Bytes → Bytes → Bool
unfolding to_lowercase
eq_ignore_ascii_case s t = bytes_eq (to_lowercase s) (to_lowercase t)

abbrev pub cons_first : ℕ → List Bytes → List Bytes
cons_first c [] = (c ∷ []) ∷ []
cons_first c (s ∷ ss) = (c ∷ s) ∷ ss

-- `s.split(separator)`: one part more than there are separators.
unfoldable pub split : ℕ → Bytes → List Bytes
split sep [] = [] ∷ []
split sep (c ∷ cs) = if c == sep then [] ∷ split sep cs else cons_first c (split sep cs)

-- The parts between the bytes that pass the test.
unfoldable pub split_by : (ℕ → Bool) → Bytes → List Bytes
split_by p [] = [] ∷ []
split_by p (c ∷ cs) = if p c then [] ∷ split_by p cs else cons_first c (split_by p cs)

unfoldable pub split_whitespace : Bytes → List Bytes
unfolding split_by
split_whitespace s = keep_if (λ part. not (is_empty part)) (split_by is_space s)
