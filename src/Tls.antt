-- ===== src/Tls.antt =====
-- scry-proxy/src/tls/startup.rs: the SSLRequest of a client, and the protection against a downgrade. The stream is a
-- parameter with its states `S`; so is the TLS handshake, which gives a stream of type `T`.
pub mod Downgrade
mod Tests
use scry_proxy.Base.{
  ℕ, Bool, true, false, not, Option, none, some, List, [], ◌∷◌, Bytes, codes, if◌then◌else◌, Result,
  ok, err,
}
use scry_proxy.Protocol.Startup.{StartupError, read_startup_message, is_ssl_request}
use scry_proxy.Protocol.AuthMessages.{build_error_response}

pub data TlsSslMode : Type 0 where
  disable allow require verify_ca verify_full : TlsSslMode

abbrev pub requires_encryption : TlsSslMode → Bool
requires_encryption disable = false
requires_encryption allow = false
requires_encryption require = true
requires_encryption verify_ca = true
requires_encryption verify_full = true

abbrev pub ssl_response_yes : ℕ
ssl_response_yes = b'S'

abbrev pub ssl_response_no : ℕ
ssl_response_no = b'N'

pub data SslStartupResult (T : Type 0) : Type 0 where
  upgraded : T → SslStartupResult T
  declined : Bytes → SslStartupResult T
  no_ssl_request : Bytes → SslStartupResult T
  rejected_client : SslStartupResult T

pub data StartupFailure : Type 0 where
  unreadable : StartupError → StartupFailure
  write_failed handshake_failed not_configured : StartupFailure

-- The calls on the stream; a write, or the handshake, may fail.
pub record Stream (S T : Type 0) : Type 0 where
  pub read_exact : ℕ → S → S × Option Bytes
  pub write_all : Bytes → S → S × Bool
  pub shutdown : S → S × Bool
  pub accept : S → S × Option T

-- The message that a client is refused with.
abbrev pub refusal : Bytes
refusal =
    build_error_response (codes "FATAL") (codes "28000")
      (codes "SSL connection is required by this server")

abbrev pub Outcome : Type 0 → Type 0 → Type 0
Outcome S T = S × Result (SslStartupResult T) StartupFailure

module _ {S T : Type 0} where
  abbrev pub reject_client : Stream S T → S → Outcome S T
  reject_client stream s = ((stream.shutdown (stream.write_all refusal s).0).0, ok rejected_client)

  abbrev pub as_declined : S × Result Bytes StartupError → Outcome S T
  as_declined (s, ok startup_buf) = (s, ok (declined startup_buf))
  as_declined (s, err e) = (s, err (unreadable e))

  abbrev pub after_decline : Stream S T → S × Bool → Outcome S T
  after_decline stream (s, false) = (s, err write_failed)
  after_decline stream (s, true) = as_declined (read_startup_message stream.read_exact s)

  abbrev pub decline : Stream S T → S → Outcome S T
  decline stream s = after_decline stream (stream.write_all (ssl_response_no ∷ []) s)

  abbrev pub after_handshake : S × Option T → Outcome S T
  after_handshake (s, some tls_stream) = (s, ok (upgraded tls_stream))
  after_handshake (s, none) = (s, err handshake_failed)

  abbrev pub after_accept : Stream S T → S × Bool → Outcome S T
  after_accept stream (s, false) = (s, err write_failed)
  after_accept stream (s, true) = after_handshake (stream.accept s)

  abbrev pub upgrade : Stream S T → S → Outcome S T
  upgrade stream s = after_accept stream (stream.write_all (ssl_response_yes ∷ []) s)

  abbrev pub after_misconfigured : S × Bool → Outcome S T
  after_misconfigured (s, false) = (s, err write_failed)
  after_misconfigured (s, true) = (s, err not_configured)

  -- The answer to an SSLRequest; `has_tls_config` is that there is a server configuration.
  abbrev pub answer_ssl_request :
      Stream S T → TlsSslMode → (has_tls_config : Bool) → S → Outcome S T
  answer_ssl_request stream disable has_tls_config s = decline stream s
  answer_ssl_request stream allow false s = decline stream s
  answer_ssl_request stream allow true s = upgrade stream s
  answer_ssl_request stream require true s = upgrade stream s
  answer_ssl_request stream verify_ca true s = upgrade stream s
  answer_ssl_request stream verify_full true s = upgrade stream s
  answer_ssl_request stream require false s =
      after_misconfigured (stream.write_all (ssl_response_no ∷ []) s)
  answer_ssl_request stream verify_ca false s =
      after_misconfigured (stream.write_all (ssl_response_no ∷ []) s)
  answer_ssl_request stream verify_full false s =
      after_misconfigured (stream.write_all (ssl_response_no ∷ []) s)

  abbrev pub after_first :
      Stream S T → TlsSslMode → Bool → S × Result Bytes StartupError → Outcome S T
  after_first stream sslmode has_tls_config (s, err e) = (s, err (unreadable e))
  after_first stream sslmode has_tls_config (s, ok buf) =
      if not (is_ssl_request buf)
      then (if requires_encryption sslmode
          then reject_client stream s
          else (s, ok (no_ssl_request buf)))
      else answer_ssl_request stream sslmode has_tls_config s

  pub handle_ssl_startup : Stream S T → TlsSslMode → Bool → S → Outcome S T
  handle_ssl_startup stream sslmode has_tls_config s =
      after_first stream sslmode has_tls_config (read_startup_message stream.read_exact s)
