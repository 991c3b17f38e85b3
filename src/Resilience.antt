-- ===== src/Resilience.antt =====
-- scry-proxy/src/resilience: the circuit breaker and the retry strategy.
pub mod CircuitBreaker
pub mod Retry
