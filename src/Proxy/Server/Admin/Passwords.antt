-- ===== src/Proxy/Server/Admin/Passwords.antt =====
-- The comparison of passwords is equality, and nobody gets in without the configured one.
use Prim.Native.Nat.{bit_or, bit_xor}
use scry_proxy.Base.{
  ℕ, zero, suc, ◌<◌, ◌≡◌, refl, ap, sym, ◌∙◌, Bool, true, false, not, ◌&&◌, Option, none, some, [],
  ◌∷◌, arith, Bytes, bytes_eq, bytes_eq_iff, length, All, ◌==◌, ==_iff, ltb, if◌then◌else◌,
  is_empty, Bool-cases, inl, inr,
}
use scry_proxy.Protocol.Messages.{Parsed, parsed, rejected, panicked}
use scry_proxy.Protocol.AuthMessages.{parse_password_message}
use scry_proxy.Proxy.Server.Admin.{
  difference, constant_time_eq, AdminConfig, expected_password, Login, refused_login, opens,
  panics_login, check_password, login_with, login,
}

-- A test of all pairs of numbers below two bounds, row by row.
on_row : (ℕ → Bool) → ℕ → Bool
on_row test zero = true
on_row test (suc width) = if test width then on_row test width else false

on_row-at : (test : ℕ → Bool) (width y : ℕ) → y < width → on_row test width ≡ true → test y ≡ true
unfolding on_row
on_row-at test zero y lt passed = absurd (omega arith)
on_row-at test (suc width) y lt passed = elim (Bool-cases (y == width)) [
  | inl last ↦ ground (arith, last)
  | inr earlier ↦ ground (arith, earlier, on_row-at test width y)
]

abbrev same : Bool → Bool → Bool
same true b = b
same false b = not b

-- One round of the loop on bytes: the difference stays a byte, and is zero exactly if it was and the bytes are equal.
abbrev xor_row : ℕ → ℕ → Bool
xor_row x y = ltb (bit_xor x y) 256 && same (bit_xor x y == 0) (x == y)

abbrev or_row : ℕ → ℕ → Bool
or_row x y = ltb (bit_or x y) 256 && same (bit_or x y == 0) ((x == 0) && (y == 0))

-- The test at every pair of bytes.
abbrev on_bytes : (ℕ → ℕ → Bool) → Bool
on_bytes test = on_row (λ x. on_row (test x) 256) 256

xor_holds : on_bytes xor_row ≡ true
unfolding on_row
xor_holds = refl

or_holds : on_bytes or_row ≡ true
unfolding on_row
or_holds = refl

on_bytes-at :
    (test : ℕ → ℕ → Bool) (x y : ℕ) → x < 256 → y < 256 → on_bytes test ≡ true → test x y ≡ true
on_bytes-at test x y hx hy passed =
    on_row-at (test x) 256 y hy (on_row-at (λ x. on_row (test x) 256) 256 x hx passed)

and_parts : (a b : Bool) → (a && b) ≡ true → (a ≡ true) × (b ≡ true)
and_parts true b h = (refl, h)
and_parts false b h = cc

same_eq : (a b : Bool) → same a b ≡ true → a ≡ b
same_eq true true h = refl
same_eq true false h = cc
same_eq false true h = cc
same_eq false false h = refl

ltb_lt : (a b : ℕ) → ltb a b ≡ true → a < b
ltb_lt a b h = ground arith

xor_step : (x y : ℕ) → x < 256 → y < 256 → (bit_xor x y < 256) × ((bit_xor x y == 0) ≡ (x == y))
xor_step x y hx hy =
    let (small, eq) =
      and_parts (ltb (bit_xor x y) 256) (same (bit_xor x y == 0) (x == y))
        (on_bytes-at xor_row x y hx hy xor_holds) in
    (ltb_lt (bit_xor x y) 256 small, same_eq (bit_xor x y == 0) (x == y) eq)

or_step :
    (x y : ℕ)
    → x < 256
    → y < 256
    → (bit_or x y < 256) × ((bit_or x y == 0) ≡ ((x == 0) && (y == 0)))
or_step x y hx hy =
    let (small, eq) =
      and_parts (ltb (bit_or x y) 256) (same (bit_or x y == 0) ((x == 0) && (y == 0)))
        (on_bytes-at or_row x y hx hy or_holds) in
    (ltb_lt (bit_or x y) 256 small, same_eq (bit_or x y == 0) ((x == 0) && (y == 0)) eq)

abbrev pub AreBytes : Bytes → Type 0
AreBytes = All (λ b. b < 256)

regroup : (a b c : Bool) → ((a && b) && c) ≡ (a && (b && c))
regroup true b c = refl
regroup false b c = refl

difference-eq :
    (diff : ℕ) (a b : Bytes)
    → diff < 256
    → AreBytes a
    → AreBytes b
    → length a ≡ length b
    → (difference diff a b == 0) ≡ ((diff == 0) && bytes_eq a b)
unfolding difference
difference-eq diff [] [] h ha hb l = ground arith
difference-eq diff [] (y ∷ b) h ha hb l = absurd (omega arith)
difference-eq diff (x ∷ a) [] h ha hb l = absurd (omega arith)
difference-eq diff (x ∷ a) (y ∷ b) h ha hb l =
    let (small, eq) = xor_step x y ha.0 hb.0 in
    let (small', eq') = or_step diff (bit_xor x y) h small in
    difference-eq (bit_or diff (bit_xor x y)) a b small' ha.1 hb.1 (omega arith)
    ∙ ap (λ c. c && bytes_eq a b) (eq' ∙ ap (λ c. (diff == 0) && c) eq)
    ∙ regroup (diff == 0) (x == y) (bytes_eq a b)

length-bytes_eq : (a b : Bytes) → bytes_eq a b ≡ true → length a ≡ length b
length-bytes_eq a b e = ap length ((bytes_eq_iff a b).0 e)

-- The comparison that touches every byte decides equality.
-- Condition: both texts consist of bytes.
pub constant_time_eq-eq_bytes_eq :
    (a b : Bytes) → AreBytes a → AreBytes b → constant_time_eq a b ≡ bytes_eq a b
unfolding constant_time_eq
constant_time_eq-eq_bytes_eq a b ha hb = elim (Bool-cases (length a == length b)) [
  | inl eq ↦ rw eq (difference-eq 0 a b (omega arith) ha hb ((==_iff (length a) (length b)).0 eq))
  | inr ne ↦ rw ne (sym (no_eq ne))
]
  where
    no_eq : (length a == length b) ≡ false → bytes_eq a b ≡ false
    no_eq ne = elim (Bool-cases (bytes_eq a b)) [
      | inl e ↦ absurd (ground (arith, length-bytes_eq a b e))
      | inr e ↦ e
    ]

abbrev pub opened : Login → Bool
opened (opens sent) = true
opened (refused_login sent) = false
opened panics_login = false

-- The texts that are compared consist of bytes.
abbrev pub OfBytes : Option Bytes → Type 0
OfBytes none = Unit
OfBytes (some s) = AreBytes s

abbrev pub provided : Parsed Bytes → Option Bytes
provided (parsed s) = some s
provided rejected = none
provided panicked = none

-- Whether a password opens a console with this credential.
abbrev pub may_open : Bool → Option Bytes → Option Bytes → Bool
may_open enabled (some pw) (some s) = (enabled && not (is_empty pw)) && bytes_eq s pw
may_open enabled (some pw) none = false
may_open enabled none s = false

abbrev equals : Bytes → Option Bytes → Bool
equals pw none = false
equals pw (some s) = bytes_eq s pw

opened-check_password :
    (pw : Bytes) (r : Parsed Bytes)
    → AreBytes pw
    → OfBytes (provided r)
    → opened (check_password pw r) ≡ equals pw (provided r)
opened-check_password pw (parsed s) hp hr =
    opened-if (constant_time_eq s pw) _ _ ∙ constant_time_eq-eq_bytes_eq s pw hr hp
  where
    opened-if : (b : Bool) (x y : Bytes) → opened (if b then opens x else refused_login y) ≡ b
    opened-if true x y = refl
    opened-if false x y = refl
opened-check_password pw rejected hp hr = refl
opened-check_password pw panicked hp hr = refl

opened-login_with :
    (enabled : Bool) (o : Option Bytes) (r : Parsed Bytes)
    → OfBytes o
    → OfBytes (provided r)
    → opened (login_with (expected_password enabled o) r) ≡ may_open enabled o (provided r)
opened-login_with enabled none r hp hr = refl
opened-login_with enabled (some pw) r hp hr = elim (Bool-cases (enabled && not (is_empty pw))) [
  | inl on ↦ rw on (opened-check_password pw r hp hr ∙ sym (open_if (provided r) on))
  | inr off ↦ rw off (sym (shut_if (provided r) off))
]
  where
    open_if :
        (s : Option Bytes)
        → (enabled && not (is_empty pw)) ≡ true
        → may_open enabled (some pw) s ≡ equals pw s
    open_if none on = refl
    open_if (some s) on = ap (λ b. b && bytes_eq s pw) on

    shut_if :
        (s : Option Bytes)
        → (enabled && not (is_empty pw)) ≡ false
        → may_open enabled (some pw) s ≡ false
    shut_if none off = refl
    shut_if (some s) off = ap (λ b. b && bytes_eq s pw) off

-- The admin console opens exactly if it is enabled, an `admin_password` that is not empty is configured, and the client's
-- message carries that password. `admin_users` plays no part in it, whatever it is.
-- Condition: the texts consist of bytes.
pub login-may_open :
    (admin : AdminConfig) (auth : Bytes)
    → OfBytes admin.admin_password
    → OfBytes (provided (parse_password_message auth))
    → opened (login admin auth)
      ≡ may_open admin.enabled admin.admin_password (provided (parse_password_message auth))
unfolding login
login-may_open admin auth hp hr =
    opened-login_with admin.enabled admin.admin_password (parse_password_message auth) hp hr
