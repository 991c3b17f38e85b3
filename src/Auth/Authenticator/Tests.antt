-- ===== src/Auth/Authenticator/Tests.antt =====
-- A client whose password answer is right, one whose answer is wrong: runs, and an instance of the result.
use scry_proxy.Base.{
  ℕ, ◌≡◌, refl, true, false, Option, none, some, [], ◌∷◌, ◌++◌, Bytes, codes, length, take, drop,
  leb, if◌then◌else◌,
}
use scry_proxy.Protocol.Messages.{split_nul}
use scry_proxy.Protocol.AuthMessages.{
  user, parse_startup, build_startup, build_password_message, build_auth_ok,
}
use scry_proxy.Auth.FileAuth.{FileAuthenticator, plain}
use scry_proxy.Auth.Authenticator.{
  AuthType, trust, md5, cert, AuthConfig, Client, Functions, refused, no_certificate, authenticate,
  send_auth_ok,
}
use scry_proxy.Auth.Authenticator.Soundness.{IsSound, had_startup, authenticate-IsSound}

-- What is still to be read, and what has been written.
abbrev World : Type 0
World = Bytes × Bytes

abbrev read_bytes : ℕ → World → World × Option Bytes
read_bytes n (bytes, written) =
    if leb n (length bytes)
    then ((drop n bytes, written), some (take n bytes))
    else (([], written), none)

abbrev wire : Client World
wire = record {
  read_exact = read_bytes;
  read = λ (s : World). (([], s.1), some s.0);
  write_all = λ (bytes : Bytes) (s : World). ((s.0, s.1 ++ bytes), true);
  fill_salt = λ (s : World). (s, 1 ∷ 2 ∷ 3 ∷ 4 ∷ []);
  has_verified_peer_cert = λ (s : World). false;
}

-- The digest is the text itself.
abbrev functions : Functions
functions = record { from_utf8_lossy = λ (s : Bytes). s; md5_hex = λ (s : Bytes). s }

abbrev config : AuthType → AuthConfig
config t = record { auth_type = t; backend_user = codes "bu"; backend_database = codes "bd" }

abbrev file : FileAuthenticator
file = record { users = (codes "ann", plain (codes "s3")) ∷ [] }

abbrev startup : Bytes
startup = build_startup (codes "ann") (codes "db") []

abbrev answer : Bytes
answer = build_password_message (codes "md5s3ann" ++ (1 ∷ 2 ∷ 3 ∷ 4 ∷ []))

authenticate-IsSound_example :
    IsSound functions
      (config md5)
      wire
      md5
      (some file)
      (had_startup functions (config md5) wire startup (answer, []))
      (authenticate functions (config md5) wire (some file) startup (answer, []))
authenticate-IsSound_example =
    authenticate-IsSound functions (config md5) wire (some file) startup (answer, [])

cert_run :
    (authenticate functions (config cert) wire none startup ([], [])).1 ≡ refused no_certificate
unfolding authenticate build_startup parse_startup split_nul user
cert_run = refl

ok_run : send_auth_ok functions (config trust) wire ([], []) ≡ (([], build_auth_ok), true)
unfolding send_auth_ok
ok_run = refl
