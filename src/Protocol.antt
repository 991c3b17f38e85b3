-- ===== src/Protocol.antt =====
-- scry-proxy/src/protocol: what the proxy reads of the Postgres wire protocol.
pub mod Anonymize
pub mod Postgres
pub mod Wire
pub mod Utf8
pub mod Scan
pub mod Messages
pub mod Reassembly
pub mod ErrorFields
pub mod CommandDetector
pub mod Startup
pub mod AuthMessages
pub mod Bind
