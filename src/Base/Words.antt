-- ===== src/Base/Words.antt =====
-- Machine integers are natural numbers; what wraps is written out.
use Prim.Native.Nat.{ℕ, ◌+◌, ◌-◌, ◌%◌, ◌^◌, ◌<◌, ◌≤◌}
use mathlib.Core.Path.{◌≡◌}
use native.Mathlib.Omega.{arith}

abbrev pub u32_mod : ℕ
u32_mod = 2 ^ 32

abbrev pub u64_mod : ℕ
u64_mod = 2 ^ 64

-- `fetch_add(1)` on an `AtomicU32`, and on an `AtomicU64` or an `AtomicUsize`.
abbrev pub inc32 : ℕ → ℕ
inc32 n = (n + 1) % u32_mod

abbrev pub inc64 : ℕ → ℕ
inc64 n = (n + 1) % u64_mod

-- `fetch_sub(1)` on an `AtomicUsize`.
abbrev pub dec64 : ℕ → ℕ
dec64 n = (n + u64_mod - 1) % u64_mod

-- `a - b` on `u64` in a release build, which wraps below zero.
abbrev pub sub64 : ℕ → ℕ → ℕ
sub64 a b = (a + u64_mod - b) % u64_mod

pub sub64-eq_sub : (a b : ℕ) → a < u64_mod → b ≤ a → sub64 a b ≡ a - b
sub64-eq_sub a b h l = omega arith
