-- ===== src/Protocol/Startup/Tests.antt =====
-- A stream that is the bytes still to come: runs, and an instance of the result.
use scry_proxy.Base.{
  ℕ, ◌≡◌, refl, true, Option, none, some, [], ◌∷◌, ◌≤◌, Bytes, length, take, drop, leb,
  if◌then◌else◌, Bool-cases, inl, inr, arith, ok, err,
}
use scry_proxy.Protocol.Startup.{read_startup_message, is_ssl_request, too_small, too_large}
use scry_proxy.Protocol.Startup.Framing.{Delivers, Holds, read_startup_message-Holds}

abbrev read_bytes : ℕ → Bytes → Bytes × Option Bytes
read_bytes n bytes =
    if leb n (length bytes) then (drop n bytes, some (take n bytes)) else ([], none)

abbrev left : Bytes → Bytes
left bytes = bytes

read_bytes_takes :
    (n : ℕ) (s bytes : Bytes)
    → (read_bytes n s).1 ≡ some bytes
    → (bytes ≡ take n s) × (n ≤ length s) × (left (read_bytes n s).0 ≡ drop n s)
read_bytes_takes n s bytes got = elim (Bool-cases (leb n (length s))) [
  | inl enough ↦ rw enough (ground (arith, enough, got), ground (arith, enough), refl)
  | inr short ↦ ground (arith, short, got)
]

read_bytes-Delivers : Delivers read_bytes left
read_bytes-Delivers = record { takes = read_bytes_takes }

abbrev ssl_request : Bytes
ssl_request = 0 ∷ 0 ∷ 0 ∷ 8 ∷ 0x04 ∷ 0xd2 ∷ 0x16 ∷ 0x2f ∷ []

read_startup_message-Holds_example :
    Holds ssl_request (read_startup_message read_bytes ssl_request).1
read_startup_message-Holds_example =
    read_startup_message-Holds read_bytes left ssl_request read_bytes-Delivers

read_run :
    ((read_startup_message read_bytes ssl_request).1 ≡ ok ssl_request)
    × (is_ssl_request ssl_request ≡ true)
    × ((read_startup_message read_bytes (0 ∷ 0 ∷ 0 ∷ 7 ∷ [])).1 ≡ err (too_small 7))
    × ((read_startup_message read_bytes (255 ∷ 255 ∷ 255 ∷ 255 ∷ [])).1
        ≡ err (too_large 18446744073709551615))
unfolding read_startup_message is_ssl_request
read_run = (refl, refl, refl, refl)
