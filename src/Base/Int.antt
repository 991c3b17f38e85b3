-- ===== src/Base/Int.antt =====
-- Signed 64-bit integers: `negsuc n` is -(n + 1). `parse::<i64>()` of the standard library.
use Prim.Native.Nat.{ℕ, zero, suc, ◌+◌, ◌-◌, ◌*◌, ◌/◌, ◌%◌, ◌^◌}
use mathlib.Core.Path.{◌≡◌}
use mathlib.Core.Logic.{◌↔◌}
use mathlib.Core.Bool.{Bool, true, false, ◌&&◌}
use mathlib.Core.List.{[], ◌∷◌}
use mathlib.Core.Option.{Option, none, some}
use native.Mathlib.Omega.{arith}
use scry_proxy.Base.Tests.{leb, ltb, ◌==◌, if◌then◌else◌}
use scry_proxy.Base.Keys.{Bytes, Eq}

pub data ℤ : Type 0 where
  pos : ℕ → ℤ
  negsuc : ℕ → ℤ

abbrev pub int_eq : ℤ → ℤ → Bool
int_eq (pos a) (pos b) = a == b
int_eq (negsuc a) (negsuc b) = a == b
int_eq _ _ = false

pub int_eq_iff : (a b : ℤ) → (int_eq a b ≡ true) ↔ (a ≡ b)
int_eq_iff (pos a) (pos b) = ground arith
int_eq_iff (pos a) (negsuc b) = ground arith
int_eq_iff (negsuc a) (pos b) = ground arith
int_eq_iff (negsuc a) (negsuc b) = ground arith

instance abbrev pub int_key : Eq ℤ
int_key = record { beq = int_eq; beq_iff = int_eq_iff }

-- The value of a list of digits, read on from `acc`; `none` at any other byte.
unfoldable pub digits_from : ℕ → Bytes → Option ℕ
digits_from acc [] = some acc
digits_from acc (c ∷ cs) =
    let rest = digits_from (acc * 10 + (c - b'0')) cs in
    if leb b'0' c && leb c b'9' then rest else none

unfoldable pub digits : Bytes → Option ℕ
unfolding digits_from
digits [] = none
digits (c ∷ cs) = digits_from 0 (c ∷ cs)

abbrev pub in_i64 : Bool → Option ℕ → Option ℤ
in_i64 minus none = none
in_i64 true (some zero) = some (pos 0)
in_i64 true (some (suc n)) = if leb (suc n) (2 ^ 63) then some (negsuc n) else none
in_i64 false (some n) = if leb (suc n) (2 ^ 63) then some (pos n) else none

unfoldable pub parse_i64 : Bytes → Option ℤ
unfolding digits
parse_i64 [] = none
parse_i64 (c ∷ cs) =
    if c == b'-'
    then in_i64 true (digits cs)
    else if c == b'+'
    then in_i64 false (digits cs)
    else in_i64 false (digits (c ∷ cs))

-- The decimal digits of a number, at most `fuel` of them, before those of `acc`.
unfoldable pub decimal_from : ℕ → ℕ → Bytes → Bytes
decimal_from zero n acc = acc
decimal_from (suc fuel) n acc =
    let acc' = (b'0' + n % 10) ∷ acc in
    let more = decimal_from fuel (n / 10) acc' in if ltb n 10 then acc' else more

-- `format!("{}", n)` of a `u64`, which has twenty digits at most.
unfoldable pub decimal : ℕ → Bytes
unfolding decimal_from
decimal n = decimal_from 20 n []
