-- ===== src/Proxy/Connection/Backend/Publishing.antt =====
-- What a round reports of the query that it ends.
use scry_proxy.Base.{
  All, is_some, ℕ, ◌≡◌, Bool, true, false, Option, none, some, List, [], ◌∷◌, arith, ◌≤◌, suc,
  Bytes, length, bytes_key, lookup,
}
use scry_proxy.Protocol.CommandDetector.{split_statements}
use scry_proxy.Protocol.ErrorFields.{extract_error}
use scry_proxy.Protocol.Scan.{Scan, found, is_query_complete}
use scry_proxy.Protocol.Anonymize.{SqlParser}
use scry_proxy.Proxy.StatementCache.{has_pending}
use scry_proxy.Proxy.Connection.Events.{AnonymizationSettings, QueryEvent, build_event}
use scry_proxy.Proxy.Connection.Session.{Execution, Session}
use scry_proxy.Proxy.Connection.Backend.{
  Labels, Reports, no_reports, outline_of, add_event, report_statements, report_success,
  take_unnamed,
}

events-add_event :
    (e : Option (QueryEvent × List Bytes)) (r : Reports)
    → length (add_event e r).events ≤ suc (length r.events)
events-add_event none r = omega arith
events-add_event (some e) r = omega arith

-- What the metrics are told of an execution that ended, and nothing without one.
abbrev pub flags : Bool → Option Execution → List Bool
flags success none = []
flags success (some pending) = success ∷ []

-- Every event says whether its query succeeded.
abbrev pub AllSay : Bool → Reports → Type 0
AllSay success r = All (λ (e : QueryEvent). e.outline.success ≡ success) r.events

-- The execution is off the books, and it is reported as a success or as a failure.
pub record Ended (success : Bool) (s : Session) (out : Session × Reports) : Type 0 where
  pub taken : has_pending [] out.0.stmt_cache ≡ false
  pub queries : out.1.queries ≡ flags success (lookup [] s.stmt_cache.pending)
  pub events : AllSay success out.1

-- The round leaves the query under way alone, or it ends it.
pub data Observed (fuel : ℕ) (chunk : Bytes) (s : Session) (out : Session × Reports) : Type 0 where
  goes_on :
      extract_error chunk ≡ none
      → is_query_complete fuel chunk ≡ found false
      → out ≡ (s, no_reports)
      → Observed fuel chunk s out
  succeeds :
      extract_error chunk ≡ none
      → is_query_complete fuel chunk ≡ found true
      → Ended true s out
      → Observed fuel chunk s out
  fails : is_some (extract_error chunk) ≡ true → Ended false s out → Observed fuel chunk s out

module _ {S : Type 0} (sql : SqlParser S) (hash_hex : Bytes → Bytes) where
  statements-events :
      (anon : AnonymizationSettings) (labels : Labels) (now : ℕ) (pending : Execution)
      (stmts : List Bytes)
      → length (report_statements sql hash_hex anon labels now pending stmts).events ≤ length stmts
  unfolding report_statements
  statements-events anon labels now pending [] = omega arith
  statements-events anon labels now pending (stmt ∷ rest) = omega (
    arith,
    events-add_event
        (build_event sql hash_hex anon stmt pending.params
          (outline_of labels now pending true none))
        (report_statements sql hash_hex anon labels now pending rest),
    statements-events anon labels now pending rest,
  )

  module _ (fuel : ℕ) (anon : AnonymizationSettings) (labels : Labels) (now : ℕ) (chunk : Bytes)
      (s : Session) where
    abbrev done_with : Session × Reports
    done_with = ((take_unnamed s).0, report_success sql hash_hex anon labels now (take_unnamed s).1)

  -- A completed query makes at most one event for each statement of its text.
  pub report_success_bounds :
      (anon : AnonymizationSettings) (labels : Labels) (now : ℕ) (pending : Execution)
      → length (report_success sql hash_hex anon labels now (some pending)).events
        ≤ length (split_statements pending.query)
  unfolding report_success
  report_success_bounds anon labels now pending =
      statements-events anon labels now pending (split_statements pending.query)
