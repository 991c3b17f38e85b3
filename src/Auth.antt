-- ===== src/Auth.antt =====
-- scry-proxy/src/auth: who a client is.
pub mod FileAuth
pub mod Authenticator
