-- ===== src/Protocol/Postgres.antt =====
-- scry-proxy/src/protocol/postgres.rs: the health check and the reset of a backend connection, by which the pool
-- recycles it. A stream is the reads that it will give, in order, and what has been written to it; a time limit that
-- runs out is a read. `fuel` bounds the rounds of the scan of the buffer, and a scan that goes on for ever blocks the
-- call.
pub mod Responses
mod Tests
use scry_proxy.Base.{
  ℕ, ◌+◌, ◌*◌, Bool, true, false, Option, none, some, List, [], ◌∷◌, ◌++◌, Bytes, codes, length,
  ltb, ◌==◌, if◌then◌else◌, Result, ok, err,
}
use scry_proxy.Protocol.Wire.{be32_bytes}
use scry_proxy.Protocol.Scan.{Scan, found, stuck, extract_ready_for_query}

-- What a call of `read` comes to; a `chunk` has a byte at least.
pub data Read : Type 0 where
  chunk : Bytes → Read
  closed failed silence : Read

pub record Stream : Type 0 where
  pub unread : List Read
  pub written : List Bytes
  pub writable : Bool

-- `read_until_ready_for_query` within its time limit.
pub data Waited : Type 0 where
  answered : Bool → Waited
  read_failed timed_out blocked : Waited

abbrev pub max_response : ℕ
max_response = 64 * 1024

-- After a chunk, with what is left of the loop. The error that is looked for in the buffer is only logged.
abbrev pub after_status : ℕ → List Read → Waited × List Read → Scan (Option ℕ) → Waited × List Read
after_status size rest later stuck = (blocked, rest)
after_status size rest later (found (some status)) = (answered (status == b'I'), rest)
after_status size rest later (found none) =
    if ltb max_response size then (answered false, rest) else later

unfoldable pub read_until_ready_for_query : ℕ → Bytes → List Read → Waited × List Read
read_until_ready_for_query fuel buffer [] = (timed_out, [])
read_until_ready_for_query fuel buffer (closed ∷ rest) = (answered false, rest)
read_until_ready_for_query fuel buffer (failed ∷ rest) = (read_failed, rest)
read_until_ready_for_query fuel buffer (silence ∷ rest) = (timed_out, rest)
read_until_ready_for_query fuel buffer (chunk bytes ∷ rest) =
    let later = read_until_ready_for_query fuel (buffer ++ bytes) rest in
    after_status (length (buffer ++ bytes)) rest later
      (extract_ready_for_query fuel (buffer ++ bytes))

-- A Query message.
abbrev pub simple_query : Bytes → Bytes
simple_query query = b'Q' ∷ (be32_bytes (4 + length query) ++ query)

abbrev pub discard_all_query : Bytes
discard_all_query = simple_query (codes "DISCARD ALL" ++ 0 ∷ [])

abbrev pub empty_query : Bytes
empty_query = simple_query (codes ";" ++ 0 ∷ [])

pub data StreamError : Type 0 where
  write_failed never_returns : StreamError

-- All that fails before the answer is `Ok(false)`.
abbrev pub as_result : Waited → Result Bool StreamError
as_result (answered fine) = ok fine
as_result read_failed = ok false
as_result timed_out = ok false
as_result blocked = err never_returns

abbrev pub ask : ℕ → Bytes → Stream → Stream × Result Bool StreamError
ask fuel message s =
    let (waited, rest) = read_until_ready_for_query fuel [] s.unread in
    (record s { unread = rest; written = s.written ++ message ∷ [] }, as_result waited)

-- A write that fails is an error here, and `Ok(false)` in the health check.
unfoldable pub reset_connection : ℕ → Stream → Stream × Result Bool StreamError
unfolding read_until_ready_for_query
reset_connection fuel s = if s.writable then ask fuel discard_all_query s else (s, err write_failed)

unfoldable pub health_check : ℕ → Stream → Stream × Result Bool StreamError
unfolding read_until_ready_for_query
health_check fuel s = if s.writable then ask fuel empty_query s else (s, ok false)
