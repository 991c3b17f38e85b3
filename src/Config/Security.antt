-- ===== src/Config/Security.antt =====
-- What holds of the settings with which the proxy starts.
use scry_proxy.Base.{
  ◌<◌, ◌≡◌, ◌≢◌, refl, ap, sym, ◌∙◌, Bool, true, false, not, ◌&&◌, ◌||◌, Option, none, some, List,
  [], ◌∷◌, arith, Bytes, bytes_eq, codes, is_empty, is_some, starts_with, ◌==◌, if◌then◌else◌, ok,
}
use scry_proxy.Auth.Authenticator.{AuthType, trust, md5, scram_sha_256, cert}
use scry_proxy.Config.{
  Settings, Libraries, Refusal, no_backend_password, no_salt, no_connections, empty_pool, Warning,
  verifies, check_auth, check_endpoint, check_publisher, is_pooled, check_address, check_metrics,
  if_check, first, refusal, warnings, unless_refused, validate,
}

-- Each client is authenticated by what the settings name, or the operator has said that none is.
abbrev pub IsAuthSafe : Settings → AuthType → Type 0
IsAuthSafe c scram_sha_256 = ⊥
IsAuthSafe c cert = verifies c.client_tls_sslmode ≡ true
IsAuthSafe c md5 = is_some c.auth_file ≡ true
IsAuthSafe c trust = c.allow_trust ≡ true

-- Events leave over HTTPS, unless the operator has allowed another way.
abbrev pub IsEndpointSafe : Bool → Option Bytes → Type 0
IsEndpointSafe allow_insecure none = ⊥
IsEndpointSafe allow_insecure (some endpoint) =
    (starts_with (codes "https://") endpoint || allow_insecure) ≡ true

abbrev pub IsAddressSafe : Bool → Option Bool → Type 0
IsAddressSafe allow_non_loopback none = ⊥
IsAddressSafe allow_non_loopback (some loopback) = (loopback || allow_non_loopback) ≡ true

pub record IsSafe (lib : Libraries) (c : Settings) : Type 0 where
  pub auth : IsAuthSafe c c.auth_type
  pub backend : c.backend_password ≢ []
  pub salted : c.publisher_enabled ≡ true → c.anonymize ≡ true → is_some c.anonymize_salt ≡ true
  pub endpoint :
      c.publisher_enabled ≡ true
      → bytes_eq c.publisher_type (codes "http") ≡ true
      → IsEndpointSafe c.allow_insecure c.http_endpoint
  pub reachable : 0 < c.max_connections
  pub pooled : is_pooled c.connection_pooling ≡ true → 0 < c.pool_size
  pub metrics :
      c.enable_metrics_server ≡ true
      → IsAddressSafe c.metrics_allow_non_loopback (lib.is_loopback c.metrics_server_address)

first-none :
    (o : Option Refusal) (rest : List (Option Refusal))
    → first (o ∷ rest) ≡ none
    → (o ≡ none) × (first rest ≡ none)
first-none none rest h = (refl, h)
first-none (some r) rest h = absurd (cc)

if_check-none : (b : Bool) (r : Refusal) → if_check b r ≡ none → b ≡ false
if_check-none true r h = absurd (cc)
if_check-none false r h = refl

check_auth-none : (c : Settings) → check_auth c ≡ none → IsAuthSafe c c.auth_type
check_auth-none c h = ground arith

check_publisher-none :
    (c : Settings)
    → check_publisher c ≡ none
    → c.publisher_enabled ≡ true
    → bytes_eq c.publisher_type (codes "http") ≡ true
    → IsEndpointSafe c.allow_insecure c.http_endpoint
check_publisher-none c h on http = endpoint_safe c.allow_insecure c.http_endpoint (
    sym
      (ap (λ b. if b then check_endpoint c.allow_insecure c.http_endpoint else none) (both on http))
    ∙ h)
  where
    both : {a b : Bool} → a ≡ true → b ≡ true → (a && b) ≡ true
    both p q = ground (arith, p, q)

    endpoint_safe :
        (allowed : Bool) (o : Option Bytes)
        → check_endpoint allowed o ≡ none
        → IsEndpointSafe allowed o
    endpoint_safe allowed none h = absurd (cc)
    endpoint_safe allowed (some endpoint) h = ground (arith, h)

check_metrics-none :
    (lib : Libraries) (c : Settings)
    → check_metrics lib c ≡ none
    → c.enable_metrics_server ≡ true
    → IsAddressSafe c.metrics_allow_non_loopback (lib.is_loopback c.metrics_server_address)
check_metrics-none lib c h on =
    address_safe c.metrics_allow_non_loopback (lib.is_loopback c.metrics_server_address) (
      sym (
        ap
          (λ b.
            if b
            then check_address c.metrics_allow_non_loopback
                (lib.is_loopback c.metrics_server_address)
            else none)
          on)
      ∙ h)
  where
    address_safe :
        (allowed : Bool) (o : Option Bool)
        → check_address allowed o ≡ none
        → IsAddressSafe allowed o
    address_safe allowed none h = absurd (cc)
    address_safe allowed (some true) h = refl
    address_safe true (some false) h = refl
    address_safe false (some false) h = absurd (cc)

not_empty : (s : Bytes) → is_empty s ≡ false → s ≢ []
not_empty [] h e = cc
not_empty (x ∷ s) h e = cc

refusal-none : (lib : Libraries) (c : Settings) → refusal lib c ≡ none → IsSafe lib c
unfolding refusal
refusal-none lib c h =
    let (auth, h1) = first-none (check_auth c) _ h in
    let (backend, h2) =
      first-none (if_check (is_empty c.backend_password) no_backend_password) _ h1 in
    let (salted, h3) =
      first-none
        (if_check ((c.publisher_enabled && c.anonymize) && not (is_some c.anonymize_salt)) no_salt)
        _ h2 in
    let (endpoint, h4) = first-none (check_publisher c) _ h3 in
    let (reachable, h5) = first-none (if_check (c.max_connections == 0) no_connections) _ h4 in
    let (pooled, h6) =
      first-none (if_check (is_pooled c.connection_pooling && (c.pool_size == 0)) empty_pool) _
        h5 in
    let (metrics, h7) = first-none (check_metrics lib c) [] h6 in
    record {
      auth = check_auth-none c auth;
      backend =
          not_empty c.backend_password (if_check-none (is_empty c.backend_password) _ backend);
      salted = λ on anon. ground (
        arith,
        on,
        anon,
        if_check-none ((c.publisher_enabled && c.anonymize) && not (is_some c.anonymize_salt)) _
            salted,
      );
      endpoint = check_publisher-none c endpoint;
      reachable = ground (arith, if_check-none (c.max_connections == 0) _ reachable);
      pooled = λ on. ground (
        arith,
        on,
        if_check-none (is_pooled c.connection_pooling && (c.pool_size == 0)) _ pooled,
      );
      metrics = check_metrics-none lib c metrics;
    }

unless_refused-ok :
    (ws : List Warning) (o : Option Refusal) (out : List Warning)
    → unless_refused ws o ≡ ok out
    → o ≡ none
unless_refused-ok ws none out h = refl
unless_refused-ok ws (some r) out h = absurd (cc)

-- The proxy starts only on safe settings: clients are verified, or the operator has acknowledged that they are trusted;
-- SCRAM is refused, certificates need a TLS mode that verifies them, and MD5 needs its file; there is a backend
-- password, a salt where published events are anonymized, HTTPS or an acknowledgement for an HTTP publisher, and a
-- loopback address or an acknowledgement for the metrics; and it can serve somebody.
-- Condition: `validate` accepts the settings, with whatever warnings.
pub validate-IsSafe :
    (lib : Libraries) (c : Settings) (ws : List Warning) → validate lib c ≡ ok ws → IsSafe lib c
unfolding validate
validate-IsSafe lib c ws h =
    refusal-none lib c (unless_refused-ok (warnings lib c) (refusal lib c) ws h)
