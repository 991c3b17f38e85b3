-- ===== src/Observability.antt =====
-- scry-proxy/src/observability: what the proxy counts.
pub mod Sketch
pub mod Timeline
