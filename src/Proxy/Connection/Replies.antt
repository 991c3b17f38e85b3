-- ===== src/Proxy/Connection/Replies.antt =====
-- scry-proxy/src/proxy/connection.rs: the ErrorResponses for a client that gets no backend, and which of them
-- `handle_acquire_error` sends, with the counters that it raises. What is logged is left out.
pub mod Reading
use scry_proxy.Base.{
  ℕ, ◌+◌, Bool, true, false, Option, none, some, List, [], ◌∷◌, ◌++◌, Bytes, codes, length, decimal,
  contains, if◌then◌else◌, inc64, Result, ok, err,
}
use scry_proxy.Protocol.Wire.{be32_bytes}

-- The fields of a reply that has a hint, each with its type byte and a zero byte behind it.
abbrev pub reply_fields : Bytes → Bytes → Bytes → Bytes
reply_fields code message hint =
    b'S'
    ∷ (codes "ERROR"
        ++ 0 ∷ b'C' ∷ (code ++ 0 ∷ b'M' ∷ (message ++ 0 ∷ b'H' ∷ (hint ++ 0 ∷ 0 ∷ []))))

abbrev pub error_reply : Bytes → Bytes
error_reply fields = b'E' ∷ (be32_bytes (length fields + 4) ++ fields)

abbrev pub hint_text : ℕ → Bytes
hint_text retry_hint_ms =
    codes "Server is under load. Please retry in " ++ (decimal retry_hint_ms ++ codes "ms.")

unfoldable pub build_queue_full_error : ℕ → Bytes
build_queue_full_error retry_hint_ms =
    error_reply (
      reply_fields (codes "53300") (codes "connection pool queue is full")
        (hint_text retry_hint_ms))

unfoldable pub build_wait_timeout_error : Bytes
build_wait_timeout_error = error_reply (
    reply_fields (codes "53300") (codes "timeout waiting for connection from pool")
      (codes "Server is under load. Please retry later."))

unfoldable pub build_pool_paused_error : Bytes
build_pool_paused_error = error_reply (
    reply_fields (codes "57P03") (codes "pool is paused")
      (codes "The proxy pool was paused by an administrator. Retry after RESUME."))

-- The counters that a refused client raises.
pub record Refusals : Type 0 where
  pub queue_rejected_total : ℕ
  pub connection_timeout_pool_wait_total : ℕ
  pub connection_timeout_backend_connect_total : ℕ
  pub requests_shed_total : ℕ

pub record_queue_rejected : Refusals → Refusals
record_queue_rejected m = record m { queue_rejected_total = inc64 m.queue_rejected_total }

pub record_pool_wait_timeout : Refusals → Refusals
record_pool_wait_timeout m = record m {
  connection_timeout_pool_wait_total = inc64 m.connection_timeout_pool_wait_total;
}

pub record_backend_connect_timeout : Refusals → Refusals
record_backend_connect_timeout m = record m {
  connection_timeout_backend_connect_total = inc64 m.connection_timeout_backend_connect_total;
}

pub record_request_shed : Refusals → Refusals
record_request_shed m = record m { requests_shed_total = inc64 m.requests_shed_total }

-- config/mod.rs
pub data BackpressureMode : Type 0 where
  reject_immediate retry_hint log_and_reject : BackpressureMode

-- `AcquireError`, with the text of a pool error.
pub data Refused : Type 0 where
  queue_full wait_timeout paused : Refused
  pool_error : (msg : Bytes) → Refused

unfoldable pub classify_pool_error_for_metrics : Bytes → Refusals → Refusals
unfolding record_request_shed record_backend_connect_timeout
classify_pool_error_for_metrics msg m =
    if contains (codes "Circuit breaker") msg
    then record_request_shed m
    else if contains (codes "Timed out after") msg
    then record_backend_connect_timeout m
    else m

-- What the client is sent, the counters, and what `handle` returns.
pub record Refusal : Type 0 where
  pub sent : Bytes
  pub counters : Refusals
  pub outcome : Result (Unit {0}) Bytes

abbrev pub reply_if_hint : BackpressureMode → Bytes → Bytes
reply_if_hint reject_immediate reply = []
reply_if_hint retry_hint reply = reply
reply_if_hint log_and_reject reply = []

abbrev pub refuse : BackpressureMode → ℕ → Refused → Refusals → Refusal
refuse mode retry_hint_ms queue_full m = record {
  sent = reply_if_hint mode (build_queue_full_error retry_hint_ms);
  counters = m;
  outcome = ok tt;
}
refuse mode retry_hint_ms wait_timeout m = record {
  sent = reply_if_hint mode build_wait_timeout_error;
  counters = record_pool_wait_timeout m;
  outcome = ok tt;
}
refuse mode retry_hint_ms paused m = record {
  sent = build_pool_paused_error;
  counters = m;
  outcome = ok tt;
}
refuse mode retry_hint_ms (pool_error msg) m = record {
  sent = [];
  counters = classify_pool_error_for_metrics msg m;
  outcome = err msg;
}

unfoldable pub handle_acquire_error : BackpressureMode → ℕ → Refused → Refusals → Refusal
unfolding record_queue_rejected record_pool_wait_timeout classify_pool_error_for_metrics
handle_acquire_error mode retry_hint_ms error m =
    refuse mode retry_hint_ms error (record_queue_rejected m)
