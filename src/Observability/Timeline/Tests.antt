-- ===== src/Observability/Timeline/Tests.antt =====
-- A query that waits 5 microseconds, gets its connection after 10 and its answer after 20, with 3 more between.
use scry_proxy.Base.{◌≡◌, refl, some}
use scry_proxy.Observability.Timeline.{
  QueryTimeline, new, for_completed, set_pool_acquire, mark_pool_acquire_start,
  mark_pool_acquire_end, mark_backend_start, mark_backend_end, phase_durations_micros,
}

abbrev measured : QueryTimeline
measured = record {
  received_at = 1000;
  pool_acquire_start = some 6000;
  pool_acquire_end = some 16000;
  backend_start = some 19000;
  backend_end = some 39000;
}

marks_run :
    (mark_backend_end 39000 (
        mark_backend_start 19000
          (mark_pool_acquire_end 16000 (mark_pool_acquire_start 6000 (new 1000))))
      ≡ measured)
    × (set_pool_acquire 6000 16000 (for_completed 39000 1000)
        ≡ record measured { backend_start = some 1000 })
unfolding new mark_pool_acquire_start mark_pool_acquire_end mark_backend_start mark_backend_end
    set_pool_acquire for_completed
marks_run = (refl, refl)

phases_run : phase_durations_micros 0 measured ≡ record {
  queue_time_micros = some 5;
  pool_acquire_micros = some 10;
  backend_micros = some 20;
  total_micros = 38;
  overhead_micros = 3;
}
unfolding phase_durations_micros
phases_run = refl
