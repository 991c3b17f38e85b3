-- ===== src/Proxy/Connection/Client/Pinning.antt =====
-- What a message that is accepted leaves on the connection's record, and what is left over when another message of its
-- chunk is refused.
use scry_proxy.Base.{ℕ, ◌≡◌, refl, ap, ◌∙◌, true, List, arith, Bytes}
use scry_proxy.Protocol.CommandDetector.{Outcome, gives, panics, outcome_map}
use scry_proxy.Protocol.Messages.{parse_msg}
use scry_proxy.Proxy.Transaction.{is_in_transaction}
use scry_proxy.Proxy.ModeEnforcer.{Verdict, allowed, refused, validate}
use scry_proxy.Proxy.ConnectionState.{
  ConnectionState, is_pinned, apply_query, add_prepared_statement,
}
use scry_proxy.Proxy.ConnectionState.Pins.{add_prepared_statement-is_pinned}
use scry_proxy.Proxy.Connection.{pooling_mode, apply_parse_state}
use scry_proxy.Proxy.Connection.Session.{Run, done, ◌>>=◌, run_outcome, Settings, Session}
use scry_proxy.Proxy.Connection.Client.{
  forwarded, Step, go_on, unless_refused, accept_parse, handle_message,
}

accept_pins :
    (o : Outcome ConnectionState) (name query : Bytes) (oids : List ℕ)
    (f : ConnectionState → Session) (step : Step)
    → ((c : ConnectionState) → (f c).conn_state ≡ c)
    → (run_outcome (outcome_map (add_prepared_statement name query oids) o) >>= λ c. go_on (f c))
      ≡ done step
    → is_pinned step.session.conn_state ≡ true
accept_pins (gives c) name query oids f step keep e =
    let state : step.session.conn_state ≡ add_prepared_statement name query oids c =
      ground (arith, keep (add_prepared_statement name query oids c)) in
    ap is_pinned state ∙ add_prepared_statement-is_pinned name query oids c
accept_pins panics name query oids f step keep e = absurd (cc)

accept_parse-is_pinned :
    (now : ℕ) (name query : Bytes) (oids : List ℕ) (s : Session) (step : Step)
    → accept_parse now name query oids s ≡ done step
    → is_pinned step.session.conn_state ≡ true
unfolding accept_parse apply_parse_state
accept_parse-is_pinned now name query oids s step e =
    accept_pins (apply_query query s.conn_state) name query oids _ step (λ c. refl) e

unless_refused-pins :
    (s : Session) (o : Outcome Verdict) (rest : Run Step) (step : Step)
    → (run_outcome o >>= unless_refused s rest) ≡ done step
    → step.fate ≡ forwarded
    → rest ≡ done step
unless_refused-pins s (gives allowed) rest step e f = e
unless_refused-pins s (gives (refused err_msg)) rest step e f = absurd (ground arith)
unless_refused-pins s panics rest step e f = absurd (cc)

pub handle_parse_pins :
    (settings : Settings) (now i : ℕ) (name query : Bytes) (oids : List ℕ) (s : Session)
    (step : Step)
    → handle_message settings now i (parse_msg name query oids) s ≡ done step
    → step.fate ≡ forwarded
    → is_pinned step.session.conn_state ≡ true
unfolding handle_message
handle_parse_pins settings now i name query oids s step e f =
    accept_parse-is_pinned now name query oids s step (
      unless_refused-pins s
        (validate (pooling_mode settings.connection_pooling) query
          (is_in_transaction s.txn_tracker))
        (accept_parse now name query oids s) step e f)
