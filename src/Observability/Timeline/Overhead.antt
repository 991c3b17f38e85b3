-- ===== src/Observability/Timeline/Overhead.antt =====
-- The overhead of the proxy in scry-proxy/src/observability/timeline.rs.
use scry_proxy.Base.{ℕ, ◌+◌, ◌≡◌, max, arith}
use scry_proxy.Observability.Timeline.{
  QueryTimeline, value_or, proxy_overhead_micros, phase_durations_micros,
}

-- The phases and the overhead add up: to the total, or to the sum of the phases where that is more.
pub phases_add_up :
    (now : ℕ) (t : QueryTimeline)
    → let p = phase_durations_micros now t in
      let phases =
        value_or 0 p.backend_micros
        + value_or 0 p.pool_acquire_micros
        + value_or 0 p.queue_time_micros in
      p.overhead_micros + phases ≡ max p.total_micros phases
unfolding phase_durations_micros proxy_overhead_micros
phases_add_up now t = omega arith
