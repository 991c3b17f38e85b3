-- ===== src/Observability/Timeline.antt =====
-- scry-proxy/src/observability/timeline.rs: the phases of a query. An instant is a number of nanoseconds, given by the
-- caller; a difference of instants is never negative.
pub mod Overhead
mod Tests
use scry_proxy.Base.{ℕ, ◌-◌, ◌/◌, ◌%◌, Option, none, some, u64_mod}

pub record QueryTimeline : Type 0 where
  pub received_at : ℕ
  pub pool_acquire_start : Option ℕ
  pub pool_acquire_end : Option ℕ
  pub backend_start : Option ℕ
  pub backend_end : Option ℕ

pub new : ℕ → QueryTimeline
new now = record {
  received_at = now;
  pool_acquire_start = none;
  pool_acquire_end = none;
  backend_start = none;
  backend_end = none;
}

pub for_completed : ℕ → ℕ → QueryTimeline
for_completed now received_at = record {
  received_at = received_at;
  pool_acquire_start = none;
  pool_acquire_end = none;
  backend_start = some received_at;
  backend_end = some now;
}

pub set_pool_acquire : ℕ → ℕ → QueryTimeline → QueryTimeline
set_pool_acquire start end t = record t {
  pool_acquire_start = some start;
  pool_acquire_end = some end;
}

pub mark_pool_acquire_start : ℕ → QueryTimeline → QueryTimeline
mark_pool_acquire_start now t = record t { pool_acquire_start = some now }

pub mark_pool_acquire_end : ℕ → QueryTimeline → QueryTimeline
mark_pool_acquire_end now t = record t { pool_acquire_end = some now }

pub mark_backend_start : ℕ → QueryTimeline → QueryTimeline
mark_backend_start now t = record t { backend_start = some now }

pub mark_backend_end : ℕ → QueryTimeline → QueryTimeline
mark_backend_end now t = record t { backend_end = some now }

-- `end.duration_since(start)` where both are there.
abbrev pub between : Option ℕ → Option ℕ → Option ℕ
between (some start) (some end) = some (end - start)
between _ _ = none

pub queue_time : QueryTimeline → Option ℕ
queue_time t = between (some t.received_at) t.pool_acquire_start

pub pool_acquire_time : QueryTimeline → Option ℕ
pool_acquire_time t = between t.pool_acquire_start t.pool_acquire_end

pub backend_time : QueryTimeline → Option ℕ
backend_time t = between t.backend_start t.backend_end

abbrev pub value_or : ℕ → Option ℕ → ℕ
value_or d none = d
value_or d (some n) = n

pub total_time : ℕ → QueryTimeline → ℕ
total_time now t = value_or now t.backend_end - t.received_at

-- `as_micros() as u64`
abbrev pub as_micros : ℕ → ℕ
as_micros ns = ns / 1000 % u64_mod

abbrev pub map_micros : Option ℕ → Option ℕ
map_micros none = none
map_micros (some ns) = some (as_micros ns)

pub record TimelinePhases : Type 0 where
  pub queue_time_micros : Option ℕ
  pub pool_acquire_micros : Option ℕ
  pub backend_micros : Option ℕ
  pub total_micros : ℕ
  pub overhead_micros : ℕ

pub proxy_overhead_micros : ℕ → Option ℕ → Option ℕ → Option ℕ → ℕ
proxy_overhead_micros total backend pool queue =
    total - value_or 0 backend - value_or 0 pool - value_or 0 queue

pub phase_durations_micros : ℕ → QueryTimeline → TimelinePhases
unfolding queue_time pool_acquire_time backend_time total_time proxy_overhead_micros
phase_durations_micros now t =
    let queue = map_micros (queue_time t) in
    let pool = map_micros (pool_acquire_time t) in
    let backend = map_micros (backend_time t) in
    let total = as_micros (total_time now t) in
    record {
      queue_time_micros = queue;
      pool_acquire_micros = pool;
      backend_micros = backend;
      total_micros = total;
      overhead_micros = proxy_overhead_micros total backend pool queue;
    }
