-- ===== src/Auth/Authenticator.antt =====
-- scry-proxy/src/auth/authenticator.rs: the handshake with a client. The client's stream, the random salt and the
-- verified certificate are parameters, on a world `S`; so are the lossy decoding and MD5.
pub mod Soundness
mod Tests
use scry_proxy.Base.{
  ℕ, Bool, true, false, not, ◌&&◌, Option, none, some, List, [], ◌∷◌, ◌++◌, Bytes, bytes_eq,
  bytes_key, is_empty, if◌then◌else◌, keep_if, codes, Result, ok, err,
}
use scry_proxy.Protocol.Messages.{Parsed, parsed, rejected, panicked}
use scry_proxy.Protocol.Startup.{StartupError, read_startup_message}
use scry_proxy.Protocol.AuthMessages.{
  StartupMessage, parse_startup, user, database, build_startup, build_auth_md5_password,
  build_auth_ok, build_error_response, parse_password_message, verify_md5_response,
}
use scry_proxy.Auth.FileAuth.{FileAuthenticator, has_user, get_password}

pub data AuthType : Type 0 where
  trust md5 scram_sha_256 cert : AuthType

-- The settings that are read.
pub record AuthConfig : Type 0 where
  pub auth_type : AuthType
  pub backend_user : Bytes
  pub backend_database : Bytes

pub record AuthHandshakeResult : Type 0 where
  pub startup : StartupMessage
  pub username : Bytes
  pub database : Option Bytes
  pub startup_bytes : Bytes

-- Why a client is refused.
pub data Refusal : Type 0 where
  unreadable_startup missing_user unsupported no_certificate no_auth_file unknown_user : Refusal
  write_failed read_failed invalid_password_message no_plain_password wrong_password : Refusal

-- How a handshake ends; `crashed` is a panic.
pub data Handshake : Type 0 where
  authenticated : AuthHandshakeResult → Handshake
  refused : Refusal → Handshake
  crashed : Handshake

pub record Client (S : Type 0) : Type 0 where
  pub read_exact : ℕ → S → S × Option Bytes
  pub read : S → S × Option Bytes
  pub write_all : Bytes → S → S × Bool
  pub fill_salt : S → S × Bytes
  pub has_verified_peer_cert : S → Bool

-- The functions on texts that are given.
pub record Functions : Type 0 where
  pub from_utf8_lossy : Bytes → Bytes
  pub md5_hex : Bytes → Bytes

abbrev pub is_extra : Bytes × Bytes → Bool
is_extra (key, value) = not (bytes_eq key (codes "user")) && not (bytes_eq key (codes "database"))

pub build_backend_startup : AuthConfig → StartupMessage → Bytes
build_backend_startup config client_startup =
    build_startup config.backend_user config.backend_database
      (keep_if is_extra client_startup.parameters)

abbrev pub handshake_result : AuthConfig → StartupMessage → Bytes → AuthHandshakeResult
handshake_result config startup username = record {
  startup = startup;
  username = username;
  database = database startup;
  startup_bytes = build_backend_startup config startup;
}

module _ {S : Type 0} (f : Functions) (config : AuthConfig) (client : Client S) where
  -- `send_auth_error`, and then the refusal; a failed write takes its place.
  abbrev pub after_error : Refusal → S × Bool → S × Handshake
  after_error why (s, true) = (s, refused why)
  after_error why (s, false) = (s, refused write_failed)

  abbrev pub send_auth_error : Refusal → S → S × Handshake
  send_auth_error why s = after_error why (
      client.write_all
        (build_error_response (codes "FATAL") (codes "28P01")
          (codes "password authentication failed"))
        s)

  abbrev pub verify_password :
      StartupMessage → Bytes → Bytes → Bytes → S → Option Bytes → S × Handshake
  verify_password startup username salt client_password s none = (s, refused no_plain_password)
  verify_password startup username salt client_password s (some stored_password) =
      if not (verify_md5_response f.md5_hex client_password stored_password username salt)
      then send_auth_error wrong_password s
      else (s, authenticated (handshake_result config startup username))

  abbrev pub after_parse :
      FileAuthenticator → StartupMessage → Bytes → Bytes → S → Parsed Bytes → S × Handshake
  after_parse file_auth startup username salt s (parsed client_password) =
      verify_password startup username salt client_password s (get_password username file_auth)
  after_parse file_auth startup username salt s rejected = (s, refused invalid_password_message)
  after_parse file_auth startup username salt s panicked = (s, crashed)

  abbrev pub after_read :
      FileAuthenticator → StartupMessage → Bytes → Bytes → S × Option Bytes → S × Handshake
  after_read file_auth startup username salt (s, none) = (s, refused read_failed)
  after_read file_auth startup username salt (s, some buf) =
      after_parse file_auth startup username salt s (parse_password_message buf)

  abbrev pub after_request :
      FileAuthenticator → StartupMessage → Bytes → Bytes → S × Bool → S × Handshake
  after_request file_auth startup username salt (s, false) = (s, refused write_failed)
  after_request file_auth startup username salt (s, true) =
      after_read file_auth startup username salt (client.read s)

  abbrev pub challenge : FileAuthenticator → StartupMessage → Bytes → S × Bytes → S × Handshake
  challenge file_auth startup username (s, salt) =
      after_request file_auth startup username salt
        (client.write_all (build_auth_md5_password salt) s)

  pub authenticate_md5 : Option FileAuthenticator → StartupMessage → Bytes → S → S × Handshake
  authenticate_md5 none startup username s = (s, refused no_auth_file)
  authenticate_md5 (some file_auth) startup username s =
      if not (has_user username file_auth)
      then send_auth_error unknown_user s
      else challenge file_auth startup username (client.fill_salt s)

  -- The four types.
  abbrev pub by_type :
      AuthType → Option FileAuthenticator → StartupMessage → Bytes → S → S × Handshake
  by_type trust file_auth startup username s =
      (s, authenticated (handshake_result config startup username))
  by_type md5 file_auth startup username s = authenticate_md5 file_auth startup username s
  by_type scram_sha_256 file_auth startup username s = (s, refused unsupported)
  by_type cert file_auth startup username s =
      if not (client.has_verified_peer_cert s)
      then (s, refused no_certificate)
      else (s, authenticated (handshake_result config startup username))

  abbrev pub with_user :
      Option FileAuthenticator → StartupMessage → S → Option Bytes → S × Handshake
  with_user file_auth startup s none = (s, refused missing_user)
  with_user file_auth startup s (some username) =
      by_type config.auth_type file_auth startup username s

  abbrev pub with_startup : Option FileAuthenticator → S × Option StartupMessage → S × Handshake
  with_startup file_auth (s, none) = (s, refused unreadable_startup)
  with_startup file_auth (s, some startup) = with_user file_auth startup s (user startup)

  abbrev pub parsed_startup : S × Result Bytes StartupError → S × Option StartupMessage
  parsed_startup (s, ok buf) = (s, parse_startup f.from_utf8_lossy buf)
  parsed_startup (s, err e) = (s, none)

  pub read_startup : S → S × Option StartupMessage
  read_startup s = parsed_startup (read_startup_message client.read_exact s)

  pub authenticate : Option FileAuthenticator → Bytes → S → S × Handshake
  unfolding read_startup authenticate_md5
  authenticate file_auth startup_data s = with_startup file_auth (
      if is_empty startup_data
      then read_startup s
      else (s, parse_startup f.from_utf8_lossy startup_data))

  pub send_auth_ok : S → S × Bool
  send_auth_ok s = client.write_all build_auth_ok s
