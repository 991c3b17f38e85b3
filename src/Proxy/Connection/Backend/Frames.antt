-- ===== src/Proxy/Connection/Backend/Frames.antt =====
-- A round for a chunk of whole frames: it comes to an end, and this is how.
use scry_proxy.Base.{
  ℕ, ◌<◌, u64_mod, ◌≡◌, inl, inr, refl, ap, ◌∙◌, Bool, false, ◌&&◌, Option, none, some, List, ◌++◌,
  Bytes, length, All, if◌then◌else◌, Option-cases,
}
use scry_proxy.Protocol.Wire.{Frame, stream_bytes}
use scry_proxy.Protocol.ErrorFields.{extract_error}
use scry_proxy.Protocol.Scan.{found, is_query_complete}
use scry_proxy.Protocol.Scan.Stream.{
  IsFrame, last_status, any_complete, extract_ready_for_query_last, is_query_complete_frames,
}
use scry_proxy.Protocol.Anonymize.{SqlParser}
use scry_proxy.Proxy.Transaction.{
  TransactionTracker, is_in_transaction, is_idle, update_from_ready_for_query,
}
use scry_proxy.Proxy.Connection.{PoolingStrategy, should_release_connection}
use scry_proxy.Proxy.Connection.Events.{AnonymizationSettings}
use scry_proxy.Proxy.Connection.Session.{done, Settings, Session, disarm_deadline}
use scry_proxy.Proxy.Connection.Backend.{
  Labels, Reports, no_reports, take_unnamed, report_failure, report_success, observe, track_status,
  BackendTurn, turn_of, on_backend_chunk,
}
use scry_proxy.Proxy.Connection.Backend.Release.{Same, observe-Same, disarm_deadline-Same}

abbrev pub tracked : Option ℕ → TransactionTracker → TransactionTracker
tracked none t = t
tracked (some status) t = update_from_ready_for_query status t

-- A transaction was under way, the status ends it, and the strategy gives such a connection back.
abbrev pub releases_on : PoolingStrategy → Option ℕ → Session → Bool
releases_on strategy none s = false
releases_on strategy (some status) s =
    (is_in_transaction s.txn_tracker && is_idle (update_from_ready_for_query status s.txn_tracker))
    && should_release_connection strategy s.conn_state

track_status-Same :
    (strategy : PoolingStrategy) (status : Option ℕ) (s s' : Session)
    → Same s s'
    → let (after, releases) = track_status strategy status s' in
      (after.txn_tracker ≡ tracked status s.txn_tracker)
      × (after.conn_state ≡ s.conn_state)
      × (releases ≡ releases_on strategy status s)
unfolding track_status
track_status-Same strategy none s s' (state, tracker) = (tracker, state, refl)
track_status-Same strategy (some status) s s' (state, tracker) =
    (ap (update_from_ready_for_query status) tracker, state, rw (state, tracker) refl)

module _ {S : Type 0} (sql : SqlParser S) (hash_hex : Bytes → Bytes) where
  observe_ends :
      (fuel : ℕ) (anon : AnonymizationSettings) (labels : Labels) (now : ℕ) (chunk : Bytes)
      (s : Session) (complete : Bool)
      → is_query_complete fuel chunk ≡ found complete
      → (out : Session × Reports) × (observe sql hash_hex fuel anon labels now chunk s ≡ done out)
  unfolding observe
  observe_ends fuel anon labels now chunk s complete e = elim (Option-cases (extract_error chunk)) [
    | inl no_error ↦ (
      if complete
          then ((take_unnamed s).0, report_success sql hash_hex anon labels now (take_unnamed s).1)
          else (s, no_reports),
      rw (no_error, e, observe) refl,
    )
    | inr (error_msg, is_error) ↦ (
      (
        (take_unnamed s).0,
        report_failure sql hash_hex anon labels now chunk error_msg (take_unnamed s).1,
      ),
      rw (is_error, observe) refl,
    )
  ]

  -- A chunk of whole frames, with at most four bytes of a next one, ends its round: the client gets the chunk as it is,
  -- the transaction state becomes that of the last ReadyForQuery among the frames, or stays if there is none, the record
  -- of what pins the connection stays, and the connection is given back exactly if a transaction was under way, that
  -- ReadyForQuery ends it, and the strategy lets go of a connection with that record.
  -- Conditions: each frame's length fits an `i32`, a ReadyForQuery has a status, the chunk is shorter than 2 ^ 64 bytes,
  -- and the scans may take a round for each frame and one more.
  pub on_backend_chunk-stream_bytes :
      (fuel : ℕ) (settings : Settings) (anon : AnonymizationSettings) (labels : Labels) (now : ℕ)
      (fs : List Frame) (tail : Bytes) (s : Session)
      → All IsFrame fs
      → length tail < 5
      → length (stream_bytes fs ++ tail) < u64_mod
      → length fs < fuel
      → (t : BackendTurn) × (on_backend_chunk sql hash_hex fuel settings anon labels now
            (stream_bytes fs ++ tail)
            s
          ≡ done t)
        × (t.to_client ≡ stream_bytes fs ++ tail)
        × (t.session.txn_tracker ≡ tracked (last_status none fs) s.txn_tracker)
        × (t.session.conn_state ≡ s.conn_state)
        × (t.releases ≡ releases_on settings.connection_pooling (last_status none fs) s)
  unfolding on_backend_chunk
  on_backend_chunk-stream_bytes fuel settings anon labels now fs tail s whole short small enough =
      let chunk = stream_bytes fs ++ tail in
      let (out, seen) =
        observe_ends fuel anon labels now chunk s (any_complete fs)
          (is_query_complete_frames fs tail fuel whole short small enough) in
      let kept = observe-Same sql hash_hex fuel anon labels now chunk s out seen in
      let kept' = disarm_deadline-Same settings out.0 in
      let (tracker, state, releases) =
        track_status-Same settings.connection_pooling (last_status none fs) s
          (disarm_deadline settings out.0) (kept'.0 ∙ kept.0, kept'.1 ∙ kept.1) in
      (
        turn_of chunk out.1 (
            track_status settings.connection_pooling (last_status none fs)
              (disarm_deadline settings out.0)),
        rw (seen, extract_ready_for_query_last fs tail fuel whole short small enough) refl,
        refl,
        tracker,
        state,
        releases,
      )
