-- ===== src/Config/Tests.antt =====
-- Settings that are accepted.
use scry_proxy.Base.{◌≡◌, refl, true, false, some, [], codes, ok, starts_with}
use scry_proxy.Tls.{require}
use scry_proxy.Auth.Authenticator.{md5}
use scry_proxy.Proxy.Connection.{transaction}
use scry_proxy.Config.{Settings, Libraries, validate, refusal, warnings}
use scry_proxy.Config.Security.{IsSafe, validate-IsSafe}

abbrev lib : Libraries
lib = record { is_loopback = λ address. some true; exceeds_ratio = λ a b c. false }

abbrev settings : Settings
settings = record {
  auth_type = md5;
  auth_file = some (codes "users.txt");
  allow_trust = false;
  client_tls_sslmode = require;
  backend_password = codes "secret";
  publisher_enabled = true;
  publisher_type = codes "http";
  anonymize = true;
  anonymize_salt = some (codes "salt");
  http_endpoint = some (codes "https://events");
  allow_insecure = false;
  max_connections = 100;
  connection_pooling = transaction;
  pool_size = 60;
  pool_queue_depth = 100;
  pool_ratio_warning_threshold = 10;
  enable_metrics_server = true;
  metrics_server_address = codes "127.0.0.1:9090";
  metrics_allow_non_loopback = false;
  enable_debug_endpoints = true;
}

settings_accepted : validate lib settings ≡ ok []
unfolding validate refusal warnings starts_with
settings_accepted = refl

validate-IsSafe_example : IsSafe lib settings
validate-IsSafe_example = validate-IsSafe lib settings [] settings_accepted
