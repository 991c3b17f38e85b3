-- ===== src/Protocol/AuthMessages/Tests.antt =====
-- Messages written out: runs, and an instance of each result.
use scry_proxy.Base.{◌≡◌, ◌↔◌, refl, true, some, [], ◌∷◌, ◌<◌, Bytes, bytes_key, codes, arith}
use scry_proxy.Protocol.Utf8.{is_utf8}
use scry_proxy.Protocol.Messages.{parsed, panicked, split_nul}
use scry_proxy.Protocol.Messages.RoundTrip.{IsText}
use scry_proxy.Protocol.Startup.{be32_at}
use scry_proxy.Protocol.AuthMessages.{
  StartupMessage, user, database, read_mechanisms, until_nul, parse_startup, build_startup,
  parse_password_message, build_password_message, auth_ok, cleartext_password, md5_password, sasl,
  parse_auth_request, build_auth_ok, build_auth_cleartext_password, build_auth_md5_password,
  build_sasl_initial_response, build_sasl_response, build_error_response, verify_md5_response,
}
use scry_proxy.Protocol.AuthMessages.RoundTrip.{
  insert_all, parse_password_message-build_password_message, parse_startup-build_startup,
}
use scry_proxy.Protocol.AuthMessages.Panics.{parse_password_message_panics}

abbrev secret : Bytes
secret = codes "s3"

abbrev lossy : Bytes → Bytes
lossy s = s

ann-IsText : IsText (codes "ann")
unfolding is_utf8
ann-IsText = record { no_nul = (omega arith, (omega arith, (omega arith, tt))); utf8 = refl }

db-IsText : IsText (codes "db")
unfolding is_utf8
db-IsText = record { no_nul = (omega arith, (omega arith, tt)); utf8 = refl }

parse_startup-build_startup_example :
    let m : StartupMessage = record {
      protocol_version = 196608;
      parameters =
          insert_all
            ((codes "user", codes "ann")
              ∷ (codes "database", codes "db")
              ∷ (codes "ann", codes "db")
              ∷ [])
            [];
    } in
    (parse_startup lossy (build_startup (codes "ann") (codes "db") ((codes "ann", codes "db") ∷ []))
      ≡ some m)
    × (user m ≡ some (codes "ann"))
    × (database m ≡ some (codes "db"))
unfolding build_startup
parse_startup-build_startup_example =
    parse_startup-build_startup lossy (codes "ann") (codes "db") ((codes "ann", codes "db") ∷ [])
      (λ s e. refl) ann-IsText db-IsText ((ann-IsText, db-IsText, refl), tt) (omega arith) refl refl

-- A length field of 4: no room for the terminator.
abbrev short_password : Bytes
short_password = b'p' ∷ 0 ∷ 0 ∷ 0 ∷ 4 ∷ []

parse_password_message_panics_example :
    (parse_password_message short_password ≡ panicked) ↔ (be32_at short_password 1 < 5)
parse_password_message_panics_example =
    parse_password_message_panics short_password (omega arith) refl (omega arith)

abbrev short_challenge : Bytes
short_challenge = b'R' ∷ 0 ∷ 0 ∷ 0 ∷ 4 ∷ 0 ∷ 0 ∷ 0 ∷ 11 ∷ []

auth_request_run :
    (parse_auth_request build_auth_ok ≡ parsed auth_ok)
    × (parse_auth_request build_auth_cleartext_password ≡ parsed cleartext_password)
    × (parse_auth_request (build_auth_md5_password (1 ∷ 2 ∷ 3 ∷ 4 ∷ []))
        ≡ parsed (md5_password (1 ∷ 2 ∷ 3 ∷ 4 ∷ [])))
unfolding parse_auth_request build_auth_ok build_auth_cleartext_password build_auth_md5_password
auth_request_run = (refl, refl, refl)

-- Two mechanisms, and the double zero byte that ends them.
sasl_run :
    parse_auth_request (b'R' ∷ 0 ∷ 0 ∷ 0 ∷ 13 ∷ 0 ∷ 0 ∷ 0 ∷ 10 ∷ b'A' ∷ 0 ∷ b'B' ∷ 0 ∷ 0 ∷ [])
    ≡ parsed (sasl ((b'A' ∷ []) ∷ (b'B' ∷ []) ∷ []))
unfolding parse_auth_request read_mechanisms until_nul split_nul is_utf8
sasl_run = refl

builders_run :
    (build_sasl_response (7 ∷ []) ≡ b'p' ∷ 0 ∷ 0 ∷ 0 ∷ 5 ∷ 7 ∷ [])
    × (build_sasl_initial_response (codes "M") (7 ∷ [])
        ≡ b'p' ∷ 0 ∷ 0 ∷ 0 ∷ 11 ∷ b'M' ∷ 0 ∷ 0 ∷ 0 ∷ 0 ∷ 1 ∷ 7 ∷ [])
    × (build_error_response (codes "F") (codes "1") (codes "m")
        ≡ b'E' ∷ 0 ∷ 0 ∷ 0 ∷ 14 ∷ b'S' ∷ b'F' ∷ 0 ∷ b'C' ∷ b'1' ∷ 0 ∷ b'M' ∷ b'm' ∷ 0 ∷ 0 ∷ [])
    × (verify_md5_response lossy (codes "md5") [] [] [] ≡ true)
unfolding build_sasl_response build_sasl_initial_response build_error_response verify_md5_response
builders_run = (refl, refl, refl, refl)

-- A challenge whose length field is smaller than its header.
short_challenge_run : parse_auth_request short_challenge ≡ panicked
unfolding parse_auth_request
short_challenge_run = refl

password_run : parse_password_message (build_password_message secret) ≡ parsed secret
unfolding is_utf8
password_run = parse_password_message-build_password_message secret refl (omega arith)
