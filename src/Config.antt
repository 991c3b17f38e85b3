-- ===== src/Config.antt =====
-- scry-proxy/src/config/mod.rs: `Config::validate`, by which the proxy refuses to start on settings that are not safe, and
-- what it warns about. The parser of socket addresses and the comparison of a quotient in floating point are
-- parameters. A refusal and a warning are named by what they are about.
pub mod Security
mod Tests
use scry_proxy.Base.{
  ℕ, ◌-◌, ◌/◌, Bool, true, false, not, ◌&&◌, ◌||◌, Option, none, some, List, [], ◌∷◌, ◌++◌, Bytes,
  bytes_eq, codes, is_empty, is_some, starts_with, ltb, ◌==◌, if◌then◌else◌, Result, ok, err,
}
use scry_proxy.Tls.{TlsSslMode, disable, allow, require, verify_ca, verify_full}
use scry_proxy.Auth.Authenticator.{AuthType, trust, md5, scram_sha_256, cert}
use scry_proxy.Proxy.Connection.{PoolingStrategy, disabled, session, transaction, hybrid}

-- The settings that `validate` reads.
pub record Settings : Type 0 where
  pub auth_type : AuthType
  pub auth_file : Option Bytes
  pub allow_trust : Bool
  pub client_tls_sslmode : TlsSslMode
  pub backend_password : Bytes
  pub publisher_enabled : Bool
  pub publisher_type : Bytes
  pub anonymize : Bool
  pub anonymize_salt : Option Bytes
  pub http_endpoint : Option Bytes
  pub allow_insecure : Bool
  pub max_connections : ℕ
  pub connection_pooling : PoolingStrategy
  pub pool_size : ℕ
  pub pool_queue_depth : ℕ
  pub pool_ratio_warning_threshold : ℕ
  pub enable_metrics_server : Bool
  pub metrics_server_address : Bytes
  pub metrics_allow_non_loopback : Bool
  pub enable_debug_endpoints : Bool

-- Whether an address is one, and then whether it is a loopback address; and whether the quotient of the first two numbers
-- exceeds the third.
pub record Libraries : Type 0 where
  pub is_loopback : Bytes → Option Bool
  pub exceeds_ratio : ℕ → ℕ → ℕ → Bool

pub data Refusal : Type 0 where
  scram_unsupported cert_unverified md5_without_file trust_not_acknowledged no_backend_password
        no_salt no_endpoint insecure_endpoint no_connections empty_pool bad_metrics_address
        exposed_metrics :
      Refusal

pub data Warning : Type 0 where
  debug_not_mounted high_ratio short_queue wasteful_pool : Warning

abbrev pub verifies : TlsSslMode → Bool
verifies verify_ca = true
verifies verify_full = true
verifies disable = false
verifies allow = false
verifies require = false

-- Checks 1 to 4.
abbrev pub check_auth : Settings → Option Refusal
check_auth c = elim c.auth_type [
  | scram_sha_256 ↦ some scram_unsupported
  | cert ↦ if verifies c.client_tls_sslmode then none else some cert_unverified
  | md5 ↦ if is_some c.auth_file then none else some md5_without_file
  | trust ↦ if c.allow_trust then none else some trust_not_acknowledged
]

-- Check 7.
abbrev pub check_endpoint : Bool → Option Bytes → Option Refusal
check_endpoint allow_insecure none = some no_endpoint
check_endpoint allow_insecure (some endpoint) =
    if not (starts_with (codes "https://") endpoint) && not allow_insecure
    then some insecure_endpoint
    else none

abbrev pub check_publisher : Settings → Option Refusal
check_publisher c =
    if c.publisher_enabled && bytes_eq c.publisher_type (codes "http")
    then check_endpoint c.allow_insecure c.http_endpoint
    else none

abbrev pub is_pooled : PoolingStrategy → Bool
is_pooled disabled = false
is_pooled session = true
is_pooled transaction = true
is_pooled hybrid = true

-- Check 10.
abbrev pub check_address : Bool → Option Bool → Option Refusal
check_address allow_non_loopback none = some bad_metrics_address
check_address allow_non_loopback (some true) = none
check_address allow_non_loopback (some false) =
    if allow_non_loopback then none else some exposed_metrics

abbrev pub check_metrics : Libraries → Settings → Option Refusal
check_metrics lib c =
    if c.enable_metrics_server
    then check_address c.metrics_allow_non_loopback (lib.is_loopback c.metrics_server_address)
    else none

abbrev pub if_check : Bool → Refusal → Option Refusal
if_check true r = some r
if_check false r = none

-- The first check that fails.
abbrev pub first : List (Option Refusal) → Option Refusal
first [] = none
first (some r ∷ rest) = some r
first (none ∷ rest) = first rest

unfoldable pub refusal : Libraries → Settings → Option Refusal
refusal lib c = first (
    check_auth c
    ∷ if_check (is_empty c.backend_password) no_backend_password
    ∷ if_check ((c.publisher_enabled && c.anonymize) && not (is_some c.anonymize_salt)) no_salt
    ∷ check_publisher c
    ∷ if_check (c.max_connections == 0) no_connections
    ∷ if_check (is_pooled c.connection_pooling && (c.pool_size == 0)) empty_pool
    ∷ check_metrics lib c
    ∷ [])

abbrev pub warn_if : Bool → Warning → List Warning
warn_if true w = w ∷ []
warn_if false w = []

abbrev pub is_exposed : Option Bool → Bool
is_exposed (some false) = true
is_exposed (some true) = false
is_exposed none = false

unfoldable pub warnings : Libraries → Settings → List Warning
warnings lib c =
    let expected_waiters = c.max_connections - c.pool_size in
    warn_if
      ((c.enable_metrics_server && is_exposed (lib.is_loopback c.metrics_server_address))
        && c.enable_debug_endpoints)
      debug_not_mounted
    ++ warn_if
        ((ltb 0 c.pool_ratio_warning_threshold && ltb 0 c.pool_size)
          && lib.exceeds_ratio c.max_connections c.pool_size c.pool_ratio_warning_threshold)
        high_ratio
    ++ warn_if (ltb 0 expected_waiters && ltb c.pool_queue_depth (expected_waiters / 2)) short_queue
    ++ warn_if (ltb c.max_connections c.pool_size) wasteful_pool

abbrev pub unless_refused : List Warning → Option Refusal → Result (List Warning) Refusal
unless_refused ws none = ok ws
unless_refused ws (some r) = err r

unfoldable pub validate : Libraries → Settings → Result (List Warning) Refusal
unfolding refusal warnings
validate lib c = unless_refused (warnings lib c) (refusal lib c)
