-- ===== src/Auth/Authenticator/Soundness.antt =====
-- Who gets through the handshake of scry-proxy/src/auth/authenticator.rs.
use scry_proxy.Base.{
  ◌≡◌, refl, ap, ◌∙◌, Bool, true, false, not, Option, none, some, Bytes, is_empty, if◌then◌else◌,
  if-cases, if-holds, keep_if, arith,
}
use scry_proxy.Protocol.Messages.{Parsed, parsed, rejected, panicked}
use scry_proxy.Protocol.AuthMessages.{
  StartupMessage, user, parse_startup, build_startup, parse_password_message, compute_md5_response,
  build_auth_md5_password, verify_md5_response,
}
use scry_proxy.Protocol.AuthMessages.RoundTrip.{verify_md5_response_sound}
use scry_proxy.Protocol.Startup.{read_startup_message}
use scry_proxy.Auth.FileAuth.{FileAuthenticator, has_user, get_password}
use scry_proxy.Auth.Authenticator.{
  AuthType, trust, md5, scram_sha_256, cert, AuthConfig, Refusal, Handshake, authenticated, refused,
  crashed, Client, Functions, is_extra, build_backend_startup, after_error, verify_password,
  parsed_startup, after_parse, after_read, after_request, authenticate_md5, by_type, with_user,
  with_startup, read_startup, authenticate,
}

module _ {S : Type 0} (f : Functions) (config : AuthConfig) (client : Client S) where
  -- In the exchange that starts in the state `s0`: the salt that is drawn there is sent, what is read next is a password
  -- message, and it carries the answer to that salt that only the password of the file gives. It ends in `s'`.
  abbrev pub GaveAnswer : Option FileAuthenticator → S → Bytes → S → Type 0
  GaveAnswer none s0 username s' = ⊥
  GaveAnswer (some file_auth) s0 username s' =
      let (drawn, salt) = client.fill_salt s0 in
      let (asked, is_sent) = client.write_all (build_auth_md5_password salt) drawn in
      (stored : Bytes) × (buf : Bytes) × (get_password username file_auth ≡ some stored)
      × (is_sent ≡ true)
      × (client.read asked ≡ (s', some buf))
      × (parse_password_message buf ≡ parsed (compute_md5_response f.md5_hex stored username salt))

  -- What each type asks of a client, between having its start-up message and authenticating it.
  abbrev pub Proved : AuthType → Option FileAuthenticator → S → Bytes → S → Type 0
  Proved trust file_auth s0 username s' = s' ≡ s0
  Proved md5 file_auth s0 username s' = GaveAnswer file_auth s0 username s'
  Proved scram_sha_256 file_auth s0 username s' = ⊥
  Proved cert file_auth s0 username s' = (client.has_verified_peer_cert s0 ≡ true) × (s' ≡ s0)

  -- The start-up message that the client sent, if it is one, and the state behind it.
  abbrev pub Had : Type 0
  Had = S × Option StartupMessage

  abbrev pub IsSound : AuthType → Option FileAuthenticator → Had → S × Handshake → Type 0
  IsSound t file_auth (s0, o) (s', authenticated r) =
      (o ≡ some r.startup)
      × Proved t file_auth s0 r.username s'
      × (user r.startup ≡ some r.username)
      × (r.startup_bytes
          ≡ build_startup config.backend_user config.backend_database
              (keep_if is_extra r.startup.parameters))
  IsSound t file_auth had (s', refused why) = Unit
  IsSound t file_auth had (s', crashed) = Unit

  after_error-IsSound :
      (t : AuthType) (file_auth : Option FileAuthenticator) (had : Had) (why : Refusal)
      (r : S × Bool)
      → IsSound t file_auth had (after_error f config client why r)
  after_error-IsSound t file_auth had why (s, true) = tt
  after_error-IsSound t file_auth had why (s, false) = tt

  module _ (file_auth : FileAuthenticator) (startup : StartupMessage) (username : Bytes) (s0 : S)
      (u : user startup ≡ some username) where
    abbrev salt_of : Bytes
    salt_of = (client.fill_salt s0).1

    -- The request with the salt.
    abbrev asked_of : S × Bool
    asked_of = client.write_all (build_auth_md5_password salt_of) (client.fill_salt s0).0

    abbrev EndsSound : S × Handshake → Type 0
    EndsSound = IsSound md5 (some file_auth) (s0, some startup)

    verify_password-IsSound :
        (s' : S) (buf client_password : Bytes) (o : Option Bytes)
        → asked_of.1 ≡ true
        → client.read asked_of.0 ≡ (s', some buf)
        → parse_password_message buf ≡ parsed client_password
        → get_password username file_auth ≡ o
        → EndsSound (verify_password f config client startup username salt_of client_password s' o)
    unfolding build_backend_startup
    verify_password-IsSound s' buf client_password none w r p g = tt
    verify_password-IsSound s' buf client_password (some stored) w r p g =
        if-cases EndsSound
          (not (verify_md5_response f.md5_hex client_password stored username salt_of))
          (λ wrong. after_error-IsSound md5 (some file_auth) (s0, some startup) _ _)
          (λ (right : not (verify_md5_response f.md5_hex client_password stored username salt_of)
              ≡ false).
            (
              refl,
              (
                stored,
                buf,
                g,
                w,
                r,
                p
                    ∙ ap (λ (x : Bytes). parsed x)
                        (verify_md5_response_sound f.md5_hex client_password stored username salt_of
                          (ground (arith, right))),
              ),
              u,
              refl,
            ))

    after_parse-IsSound :
        (s' : S) (buf : Bytes) (p : Parsed Bytes)
        → asked_of.1 ≡ true
        → client.read asked_of.0 ≡ (s', some buf)
        → parse_password_message buf ≡ p
        → EndsSound (after_parse f config client file_auth startup username salt_of s' p)
    after_parse-IsSound s' buf (parsed client_password) w r p =
        verify_password-IsSound s' buf client_password (get_password username file_auth) w r p refl
    after_parse-IsSound s' buf rejected w r p = tt
    after_parse-IsSound s' buf panicked w r p = tt

    after_read-IsSound :
        (answer : S × Option Bytes)
        → asked_of.1 ≡ true
        → client.read asked_of.0 ≡ answer
        → EndsSound (after_read f config client file_auth startup username salt_of answer)
    after_read-IsSound (s', none) w r = tt
    after_read-IsSound (s', some buf) w r =
        after_parse-IsSound s' buf (parse_password_message buf) w r refl

    after_request-IsSound :
        (is_sent : Bool)
        → asked_of.1 ≡ is_sent
        → EndsSound
            (after_request f config client file_auth startup username salt_of (asked_of.0, is_sent))
    after_request-IsSound true w = after_read-IsSound (client.read asked_of.0) w refl
    after_request-IsSound false w = tt

  authenticate_md5-IsSound :
      (file_auth : Option FileAuthenticator) (startup : StartupMessage) (username : Bytes) (s0 : S)
      → user startup ≡ some username
      → IsSound md5 file_auth
          (s0, some startup)
          (authenticate_md5 f config client file_auth startup username s0)
  unfolding authenticate_md5
  authenticate_md5-IsSound none startup username s0 u = tt
  authenticate_md5-IsSound (some file_auth) startup username s0 u =
      if-holds (IsSound md5 (some file_auth) (s0, some startup)) (not (has_user username file_auth))
        (after_error-IsSound md5 (some file_auth) (s0, some startup) _ _)
        (after_request-IsSound file_auth startup username s0 u
          (asked_of file_auth startup username s0 u).1 refl)

  by_type-IsSound :
      (t : AuthType) (file_auth : Option FileAuthenticator) (startup : StartupMessage)
      (username : Bytes) (s0 : S)
      → user startup ≡ some username
      → IsSound t file_auth
          (s0, some startup)
          (by_type f config client t file_auth startup username s0)
  unfolding build_backend_startup
  by_type-IsSound trust file_auth startup username s0 u = (refl, refl, u, refl)
  by_type-IsSound md5 file_auth startup username s0 u =
      authenticate_md5-IsSound file_auth startup username s0 u
  by_type-IsSound scram_sha_256 file_auth startup username s0 u = tt
  by_type-IsSound cert file_auth startup username s0 u =
      if-cases (IsSound cert file_auth (s0, some startup)) (not (client.has_verified_peer_cert s0))
        (λ missing. tt)
        (λ (there : not (client.has_verified_peer_cert s0) ≡ false).
          (refl, (ground (arith, there), refl), u, refl))

  with_user-IsSound :
      (file_auth : Option FileAuthenticator) (startup : StartupMessage) (s0 : S) (o : Option Bytes)
      → user startup ≡ o
      → IsSound config.auth_type file_auth
          (s0, some startup)
          (with_user f config client file_auth startup s0 o)
  with_user-IsSound file_auth startup s0 none u = tt
  with_user-IsSound file_auth startup s0 (some username) u =
      by_type-IsSound config.auth_type file_auth startup username s0 u

  with_startup-IsSound :
      (file_auth : Option FileAuthenticator) (had : Had)
      → IsSound config.auth_type file_auth had (with_startup f config client file_auth had)
  with_startup-IsSound file_auth (s0, none) = tt
  with_startup-IsSound file_auth (s0, some startup) =
      with_user-IsSound file_auth startup s0 (user startup) refl

  -- The start-up message is the one that was read before, or it is read now, and nothing else is.
  abbrev pub had_startup : Bytes → S → Had
  had_startup startup_data s =
      if is_empty startup_data
      then parsed_startup f config client (read_startup_message client.read_exact s)
      else (s, parse_startup f.from_utf8_lossy startup_data)

  -- Nobody gets through the handshake who should not, whatever the client sends and whichever reads and writes fail. The
  -- handshake follows the start-up message, from the state that this one leaves. With `md5`, a client is authenticated
  -- only if the salt drawn in that state was sent to it, and what was read next is a password message with the answer
  -- that the password of the file gives for the user it named and for that very salt; with `cert`, only if the
  -- stream has a verified certificate in that state; with `scram-sha-256` nobody is. In every type the name is that
  -- of the client's start-up message, and the start-up message for the backend has the backend's user and database, not
  -- the client's.
  pub authenticate-IsSound :
      (file_auth : Option FileAuthenticator) (startup_data : Bytes) (s : S)
      → IsSound config.auth_type file_auth
          (had_startup startup_data s)
          (authenticate f config client file_auth startup_data s)
  unfolding authenticate read_startup
  authenticate-IsSound file_auth startup_data s =
      with_startup-IsSound file_auth (had_startup startup_data s)
