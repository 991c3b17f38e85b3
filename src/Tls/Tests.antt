-- ===== src/Tls/Tests.antt =====
-- A stream of what is still to come and what has been written: runs, and an instance of each result.
use scry_proxy.Base.{
  ℕ, ◌≡◌, refl, true, false, Option, none, some, [], ◌∷◌, ◌++◌, Bytes, length, take, drop, leb,
  if◌then◌else◌, ok,
}
use scry_proxy.Protocol.Startup.{read_startup_message, is_ssl_request}
use scry_proxy.Tls.{
  disable, require, verify_full, Stream, handle_ssl_startup, no_ssl_request, upgraded, declined,
}
use scry_proxy.Tls.Downgrade.{IsProtected, handle_ssl_startup-IsProtected}

abbrev read_bytes : ℕ → Bytes × Bytes → (Bytes × Bytes) × Option Bytes
read_bytes n (bytes, written) =
    if leb n (length bytes)
    then ((drop n bytes, written), some (take n bytes))
    else (([], written), none)

abbrev wire : Stream (Bytes × Bytes) Bytes
wire = record {
  read_exact = read_bytes;
  write_all = λ (bytes : Bytes) (s : Bytes × Bytes). ((s.0, s.1 ++ bytes), true);
  shutdown = λ (s : Bytes × Bytes). (s, true);
  accept = λ (s : Bytes × Bytes). (s, some s.0);
}

abbrev ssl_request : Bytes
ssl_request = 0 ∷ 0 ∷ 0 ∷ 8 ∷ 0x04 ∷ 0xd2 ∷ 0x16 ∷ 0x2f ∷ []

abbrev plaintext : Bytes
plaintext = 0 ∷ 0 ∷ 0 ∷ 9 ∷ 0 ∷ 3 ∷ 0 ∷ 0 ∷ 0 ∷ []

handle_ssl_startup-IsProtected_example :
    IsProtected (handle_ssl_startup wire verify_full true (plaintext, []))
handle_ssl_startup-IsProtected_example =
    handle_ssl_startup-IsProtected wire verify_full true (plaintext, []) tt

startup_run :
    ((handle_ssl_startup wire disable false (plaintext, [])).1 ≡ ok (no_ssl_request plaintext))
    × (handle_ssl_startup wire require true (ssl_request, []) ≡ (([], b'S' ∷ []), ok (upgraded [])))
    × (handle_ssl_startup wire disable true (ssl_request ++ plaintext, [])
        ≡ (([], b'N' ∷ []), ok (declined plaintext)))
unfolding handle_ssl_startup read_startup_message is_ssl_request
startup_run = (refl, refl, refl)
