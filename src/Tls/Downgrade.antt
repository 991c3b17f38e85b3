-- ===== src/Tls/Downgrade.antt =====
-- No client is served in plaintext where scry-proxy/src/tls/startup.rs requires encryption.
use scry_proxy.Base.{
  refl, ◌≡◌, ap, sym, subst, ◌∙◌, Bool, true, false, not, Option, none, some, Bytes, if◌then◌else◌,
  if-holds, Result, ok, err,
}
use scry_proxy.Protocol.Startup.{StartupError, read_startup_message, is_ssl_request}
use scry_proxy.Tls.{
  TlsSslMode, disable, allow, require, verify_ca, verify_full, requires_encryption, upgraded,
  declined, no_ssl_request, rejected_client, Stream, Outcome, refusal, after_first, after_accept,
  after_handshake, after_misconfigured, answer_ssl_request, reject_client, handle_ssl_startup,
}

-- The modes in which a client must use TLS, by the documentation of the settings.
abbrev pub MandatesTls : TlsSslMode → Type 0
MandatesTls disable = ⊥
MandatesTls allow = ⊥
MandatesTls require = Unit
MandatesTls verify_ca = Unit
MandatesTls verify_full = Unit

mandated_requires :
    (sslmode : TlsSslMode) → MandatesTls sslmode → requires_encryption sslmode ≡ true
mandated_requires disable h = absurd h
mandated_requires allow h = absurd h
mandated_requires require h = refl
mandated_requires verify_ca h = refl
mandated_requires verify_full h = refl

module _ {S T : Type 0} where
  -- The client is served over TLS or not at all.
  abbrev pub IsProtected : Outcome S T → Type 0
  IsProtected (s, ok (upgraded tls_stream)) = Unit
  IsProtected (s, ok (declined startup_buf)) = ⊥
  IsProtected (s, ok (no_ssl_request buf)) = ⊥
  IsProtected (s, ok rejected_client) = Unit
  IsProtected (s, err e) = Unit

  after_handshake-IsProtected : (r : S × Option T) → IsProtected (after_handshake r)
  after_handshake-IsProtected (s, some tls_stream) = tt
  after_handshake-IsProtected (s, none) = tt

  after_accept-IsProtected :
      (stream : Stream S T) (r : S × Bool) → IsProtected (after_accept stream r)
  after_accept-IsProtected stream (s, true) = after_handshake-IsProtected (stream.accept s)
  after_accept-IsProtected stream (s, false) = tt

  after_misconfigured-IsProtected :
      (stream : Stream S T) (r : S × Bool) → IsProtected (after_misconfigured r)
  after_misconfigured-IsProtected stream (s, true) = tt
  after_misconfigured-IsProtected stream (s, false) = tt

  answer_ssl_request-IsProtected :
      (stream : Stream S T) (sslmode : TlsSslMode) (has_tls_config : Bool) (s : S)
      → requires_encryption sslmode ≡ true
      → IsProtected (answer_ssl_request stream sslmode has_tls_config s)
  answer_ssl_request-IsProtected stream disable has_tls_config s e = cc
  answer_ssl_request-IsProtected stream allow has_tls_config s e = cc
  answer_ssl_request-IsProtected stream require true s e = after_accept-IsProtected stream _
  answer_ssl_request-IsProtected stream verify_ca true s e = after_accept-IsProtected stream _
  answer_ssl_request-IsProtected stream verify_full true s e = after_accept-IsProtected stream _
  answer_ssl_request-IsProtected stream require false s e = after_misconfigured-IsProtected stream _
  answer_ssl_request-IsProtected stream verify_ca false s e =
      after_misconfigured-IsProtected stream _
  answer_ssl_request-IsProtected stream verify_full false s e =
      after_misconfigured-IsProtected stream _

  after_first-IsProtected :
      (stream : Stream S T) (sslmode : TlsSslMode) (has_tls_config : Bool)
      (r : S × Result Bytes StartupError)
      → requires_encryption sslmode ≡ true
      → IsProtected (after_first stream sslmode has_tls_config r)
  after_first-IsProtected stream sslmode has_tls_config (s, err e) required = tt
  after_first-IsProtected stream sslmode has_tls_config (s, ok buf) required =
      if-holds IsProtected (not (is_ssl_request buf))
        (subst
          (λ b. IsProtected (if b then reject_client stream s else (s, ok (no_ssl_request buf))))
          (sym required) tt)
        (answer_ssl_request-IsProtected stream sslmode has_tls_config s required)

  -- Downgrade protection: in the modes `require`, `verify-ca` and `verify-full`, whatever the client sends, and whichever
  -- writes or handshakes fail, the connection comes to a TLS stream, to a rejected client or to an error, never to a
  -- plaintext stream that is served.
  pub handle_ssl_startup-IsProtected :
      (stream : Stream S T) (sslmode : TlsSslMode) (has_tls_config : Bool) (s : S)
      → MandatesTls sslmode
      → IsProtected (handle_ssl_startup stream sslmode has_tls_config s)
  unfolding handle_ssl_startup
  handle_ssl_startup-IsProtected stream sslmode has_tls_config s mandated =
      after_first-IsProtected stream sslmode has_tls_config
        (read_startup_message stream.read_exact s) (mandated_requires sslmode mandated)

  -- A plaintext start-up.
  pub handle_ssl_startup_plaintext :
      (stream : Stream S T) (sslmode : TlsSslMode) (has_tls_config : Bool) (s : S) (buf : Bytes)
      → (read_startup_message stream.read_exact s).1 ≡ ok buf
      → is_ssl_request buf ≡ false
      → let s' = (read_startup_message stream.read_exact s).0 in
        handle_ssl_startup stream sslmode has_tls_config s ≡ (
          if requires_encryption sslmode
          then ((stream.shutdown (stream.write_all refusal s').0).0, ok rejected_client)
          else (s', ok (no_ssl_request buf)))
  unfolding handle_ssl_startup
  handle_ssl_startup_plaintext stream sslmode has_tls_config s buf got plain =
      let s' = (read_startup_message stream.read_exact s).0 in
      ap (λ r. after_first stream sslmode has_tls_config (s', r)) got
      ∙ ap
          (λ b.
            if not b
            then (if requires_encryption sslmode
                then reject_client stream s'
                else (s', ok (no_ssl_request buf)))
            else answer_ssl_request stream sslmode has_tls_config s')
          plain
