-- ===== src/Proxy/Server/Admin/Tests.antt =====
-- A login with the configured password.
use scry_proxy.Base.{◌≡◌, refl, sym, subst, true, some, Bytes, codes, arith}
use scry_proxy.Protocol.Utf8.{is_utf8}
use scry_proxy.Protocol.AuthMessages.{parse_password_message, build_password_message}
use scry_proxy.Protocol.AuthMessages.RoundTrip.{parse_password_message-build_password_message}
use scry_proxy.Proxy.Server.Admin.{AdminConfig, login}
use scry_proxy.Proxy.Server.Admin.Passwords.{opened, may_open, provided, OfBytes, login-may_open}

abbrev admin : AdminConfig
admin = record {
  enabled = true;
  admin_users = some (codes "root");
  admin_password = some (codes "pw");
}

abbrev auth : Bytes
auth = build_password_message (codes "pw")

auth_OfBytes : OfBytes (provided (parse_password_message auth))
unfolding is_utf8
auth_OfBytes =
    subst (λ p. OfBytes (provided p))
      (sym (parse_password_message-build_password_message (codes "pw") refl (omega arith)))
      (omega arith, (omega arith, tt))

login-may_open_example :
    opened (login admin auth)
    ≡ may_open admin.enabled admin.admin_password (provided (parse_password_message auth))
login-may_open_example = login-may_open admin auth (omega arith, (omega arith, tt)) auth_OfBytes
