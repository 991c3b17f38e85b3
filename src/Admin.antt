-- ===== src/Admin.antt =====
-- scry-proxy/src/admin: the console on the virtual `pgbouncer` database.
pub mod Response
pub mod Commands
