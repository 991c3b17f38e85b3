-- ===== src/Protocol/Postgres/Responses.antt =====
-- Which bytes of the backend a recycled connection has consumed.
use scry_proxy.Base.{
  ℕ, ◌≤◌, ◌≡◌, refl, ap, ◌∙◌, Bool, true, false, none, some, List, [], ◌∷◌, ◌++◌, map, arith, Bytes,
  length, ◌==◌, if◌then◌else◌, Result, ok, err,
}
use scry_proxy.Protocol.Scan.{found, extract_ready_for_query}
use scry_proxy.Protocol.Postgres.{
  Read, chunk, Stream, answered, after_status, max_response, read_until_ready_for_query,
  StreamError, reset_connection, health_check, discard_all_query, empty_query,
}
use scry_proxy.Proxy.TcpPool.{
  recycle, after_health_check, after_reset, failed_health_check, reset_not_supported, RecycleError,
}

-- These chunks, behind what the buffer holds, end with the first ReadyForQuery, which has this status.
abbrev pub IsResponse : ℕ → ℕ → Bytes → List Bytes → Type 0
IsResponse fuel status buffer [] = ⊥
IsResponse fuel status buffer (c ∷ []) =
    extract_ready_for_query fuel (buffer ++ c) ≡ found (some status)
IsResponse fuel status buffer (c ∷ d ∷ cs) =
    (extract_ready_for_query fuel (buffer ++ c) ≡ found none)
    × (length (buffer ++ c) ≤ max_response)
    × IsResponse fuel status (buffer ++ c) (d ∷ cs)

-- One response is read, and no more: the call answers whether the status is idle, and leaves what comes behind.
read_one_response :
    (fuel status : ℕ) (buffer : Bytes) (cs : List Bytes) (rest : List Read)
    → IsResponse fuel status buffer cs
    → read_until_ready_for_query fuel buffer (map chunk cs ++ rest)
      ≡ (answered (status == b'I'), rest)
unfolding read_until_ready_for_query
read_one_response fuel status buffer [] rest r = absurd r
read_one_response fuel status buffer (c ∷ []) rest r =
    ap
      (after_status (length (buffer ++ c)) rest
        (read_until_ready_for_query fuel (buffer ++ c) rest))
      r
read_one_response fuel status buffer (c ∷ d ∷ cs) rest (none_yet, small, r) =
    ap
      (after_status (length (buffer ++ c)) (map chunk (d ∷ cs) ++ rest)
        (read_until_ready_for_query fuel (buffer ++ c) (map chunk (d ∷ cs) ++ rest)))
      none_yet
    ∙ ground (arith, small, read_one_response fuel status (buffer ++ c) (d ∷ cs) rest r)

-- A stream that can be written to, with these reads to come.
abbrev pub with_reads : List Read → List Bytes → Stream
with_reads unread written = record { unread = unread; written = written; writable = true }

health_check-response :
    (fuel status : ℕ) (cs : List Bytes) (rest : List Read) (written : List Bytes)
    → IsResponse fuel status [] cs
    → health_check fuel (with_reads (map chunk cs ++ rest) written)
      ≡ (with_reads rest (written ++ empty_query ∷ []), ok (status == b'I'))
unfolding health_check
health_check-response fuel status cs rest written r =
    rw (read_one_response fuel status [] cs rest r) refl

reset_connection-response :
    (fuel status : ℕ) (cs : List Bytes) (rest : List Read) (written : List Bytes)
    → IsResponse fuel status [] cs
    → reset_connection fuel (with_reads (map chunk cs ++ rest) written)
      ≡ (with_reads rest (written ++ discard_all_query ∷ []), ok (status == b'I'))
unfolding reset_connection
reset_connection-response fuel status cs rest written r =
    rw (read_one_response fuel status [] cs rest r) refl

-- What recycling makes of the statuses of the first two responses.
abbrev pub verdict : ℕ → ℕ → Result (Unit {0}) (RecycleError StreamError)
verdict first second =
    if first == b'I'
    then if second == b'I' then ok tt else err reset_not_supported
    else err failed_health_check

after_health_check-ok :
    (reset : Stream → Stream × Result Bool StreamError) (first second : Bool) (s t : Stream)
    → reset s ≡ (t, ok second)
    → after_health_check reset (s, ok first) ≡ (
      if first then t else s,
      if first
          then (if second then ok tt else err reset_not_supported)
          else err failed_health_check,
    )
after_health_check-ok reset true true s t e = ap after_reset e
after_health_check-ok reset true false s t e = ap after_reset e
after_health_check-ok reset false second s t e = refl

-- Recycling takes the next response on the stream for the health check's, and the one behind it for the reset's: the
-- connection is kept exactly if both are idle, DISCARD ALL is sent only if the first is, and whatever is behind what was
-- taken stays unread. Nothing is said of what stays: whose responses the two are is not looked at.
-- Conditions: the stream can be written to, and each response comes within its time limit and 64 KB, in reads of its own.
pub recycle-verdict :
    (fuel first second : ℕ) (cs ds : List Bytes) (rest : List Read) (written : List Bytes)
    → IsResponse fuel first [] cs
    → IsResponse fuel second [] ds
    → recycle
        (health_check fuel)
        (reset_connection fuel)
        (with_reads (map chunk cs ++ (map chunk ds ++ rest)) written)
      ≡ (
        if first == b'I'
            then with_reads rest ((written ++ empty_query ∷ []) ++ discard_all_query ∷ [])
            else with_reads (map chunk ds ++ rest) (written ++ empty_query ∷ []),
        verdict first second,
      )
unfolding recycle
recycle-verdict fuel first second cs ds rest written r q =
    ap (after_health_check (reset_connection fuel))
      (health_check-response fuel first cs (map chunk ds ++ rest) written r)
    ∙ after_health_check-ok (reset_connection fuel) (first == b'I') (second == b'I') _ _
        (reset_connection-response fuel second ds rest (written ++ empty_query ∷ []) q)
