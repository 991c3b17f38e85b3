-- ===== src/Proxy/Connection/Client/Forwarding.antt =====
-- Which chunks of a client reach the backend.
use scry_proxy.Base.{
  ℕ, zero, suc, ◌≡◌, ◌≢◌, ◌⊎◌, inl, inr, refl, ap, sym, subst, ◌∙◌, Bool, true, false, Option, none,
  some, List, [], ◌∷◌, arith, Bytes,
}
use scry_proxy.Protocol.CommandDetector.{Outcome, gives, panics}
use scry_proxy.Protocol.Messages.{
  Message, query_msg, parse_msg, bind_msg, execute_msg, close_msg, sync_msg, terminate_msg,
}
use scry_proxy.Protocol.Reassembly.{returned, extract_messages}
use scry_proxy.Proxy.Transaction.{TransactionTracker, is_in_transaction}
use scry_proxy.Proxy.ConnectionState.{apply_query}
use scry_proxy.Proxy.StatementCache.{get_statement}
use scry_proxy.Proxy.ModeEnforcer.{Verdict, allowed, refused, validate}
use scry_proxy.Proxy.Connection.{pooling_mode, apply_parse_state, should_intercept_terminate}
use scry_proxy.Proxy.Connection.Session.{
  Run, done, panicked_run, hangs, ◌>>=◌, run_outcome, >>=-eq_done, Settings, Session,
}
use scry_proxy.Proxy.Connection.Client.{
  Fate, forwarded, refused_with, terminated, Step, go_on, refusal, unless_refused, bound_query,
  accept_parse, accept_query, accept_bind, accept_close, handle_message, then_rest, handle_messages,
  Turn, conclude, handle_extracted, on_client_chunk,
}

-- The message is let through, in this transaction state and at this place of the chunk.
abbrev pub Passes : Settings → Bool → ℕ → Message → Type 0
Passes settings in_txn i (parse_msg name query oids) =
    validate (pooling_mode settings.connection_pooling) query in_txn ≡ gives allowed
Passes settings in_txn i (query_msg query) =
    validate (pooling_mode settings.connection_pooling) query in_txn ≡ gives allowed
Passes settings in_txn i (bind_msg portal statement codes params) = Unit
Passes settings in_txn i (execute_msg portal) = Unit
Passes settings in_txn i (close_msg kind name) = Unit
Passes settings in_txn i sync_msg = Unit
Passes settings in_txn i terminate_msg = i ≢ 0

-- The SQL text of the messages that carry one.
abbrev pub sql_of : Message → Option Bytes
sql_of (parse_msg name query oids) = some query
sql_of (query_msg query) = some query
sql_of (bind_msg portal statement codes params) = none
sql_of (execute_msg portal) = none
sql_of (close_msg kind name) = none
sql_of sync_msg = none
sql_of terminate_msg = none

-- What becomes of a chunk with these messages, the first of which is the i-th: all pass, or the first that does not is
-- refused by the mode enforcer, or it is a Terminate at the head.
pub data Decided (settings : Settings) (t : TransactionTracker)
    : ℕ → List Message → Fate → Type 0 where
  all_pass : (i : ℕ) → Decided settings t i [] forwarded
  one_passes :
      (i : ℕ) (m : Message) (rest : List Message) (fate : Fate)
      → Passes settings (is_in_transaction t) i m
      → Decided settings t (suc i) rest fate
      → Decided settings t i (m ∷ rest) fate
  one_refused :
      (i : ℕ) (m : Message) (rest : List Message) (query err_msg : Bytes)
      → sql_of m ≡ some query
      → validate (pooling_mode settings.connection_pooling) query (is_in_transaction t)
        ≡ gives (refused err_msg)
      → Decided settings t i (m ∷ rest) (refused_with (refusal err_msg t))
  leading_terminate :
      (i : ℕ) (rest : List Message) → i ≡ 0 → Decided settings t i (terminate_msg ∷ rest) terminated

-- The message was accepted, and the transaction state is as before.
abbrev Goes : Session → Step → Type 0
Goes s step = (step.fate ≡ forwarded) × (step.session.txn_tracker ≡ s.txn_tracker)

bind-Goes :
    {A : Type 0} (s : Session) (m : Run A) (f : A → Session) (step : Step)
    → ((a : A) → (f a).txn_tracker ≡ s.txn_tracker)
    → (m >>= λ a. go_on (f a)) ≡ done step
    → Goes s step
bind-Goes s (done a) f step keep e = ground (arith, keep a)
bind-Goes s panicked_run f step keep e = absurd (cc)
bind-Goes s hangs f step keep e = absurd (cc)

accept_parse-Goes :
    (now : ℕ) (name query : Bytes) (oids : List ℕ) (s : Session) (step : Step)
    → accept_parse now name query oids s ≡ done step
    → Goes s step
unfolding accept_parse
accept_parse-Goes now name query oids s step e =
    bind-Goes s (run_outcome (apply_parse_state name query oids s.conn_state)) _ step (λ a. refl) e

accept_query-Goes :
    (now : ℕ) (query : Bytes) (s : Session) (step : Step)
    → accept_query now query s ≡ done step
    → Goes s step
unfolding accept_query
accept_query-Goes now query s step e =
    bind-Goes s (run_outcome (apply_query query s.conn_state)) _ step (λ a. refl) e

accept_bind-Goes :
    (settings : Settings) (now : ℕ) (portal statement : Bytes) (codes : List ℕ)
    (params : List (Option Bytes)) (s : Session) (step : Step)
    → accept_bind settings now portal statement codes params s ≡ done step
    → Goes s step
unfolding accept_bind
accept_bind-Goes settings now portal statement codes params s step e =
    bind-Goes s
      (bound_query settings statement codes params (get_statement statement s.stmt_cache).1) _ step
      (λ a. refl) e

accept_close-Goes :
    (kind : ℕ) (name : Bytes) (s : Session) (step : Step)
    → accept_close kind name s ≡ done step
    → Goes s step
unfolding accept_close
accept_close-Goes kind name s step e = ground arith

-- What the `match` on one message came to.
data Handled (settings : Settings) (i : ℕ) (m : Message) (s : Session) (step : Step) : Type 0 where
  passed :
      Passes settings (is_in_transaction s.txn_tracker) i m
      → Goes s step
      → Handled settings i m s step
  was_refused :
      (query err_msg : Bytes)
      → sql_of m ≡ some query
      → validate (pooling_mode settings.connection_pooling) query (is_in_transaction s.txn_tracker)
        ≡ gives (refused err_msg)
      → step.fate ≡ refused_with (refusal err_msg s.txn_tracker)
      → Handled settings i m s step
  was_terminated : m ≡ terminate_msg → i ≡ 0 → step.fate ≡ terminated → Handled settings i m s step

validated :
    (s : Session) (o : Outcome Verdict) (rest : Run Step) (step : Step)
    → (run_outcome o >>= unless_refused s rest) ≡ done step
    → ((o ≡ gives allowed) × (rest ≡ done step))
      ⊎ ((err_msg : Bytes) × (o ≡ gives (refused err_msg))
          × (step.fate ≡ refused_with (refusal err_msg s.txn_tracker)))
validated s (gives allowed) rest step e = inl (refl, e)
validated s (gives (refused err_msg)) rest step e = inr (err_msg, refl, ground arith)
validated s panics rest step e = absurd (cc)

handle_message-Handled :
    (settings : Settings) (now i : ℕ) (m : Message) (s : Session) (step : Step)
    → handle_message settings now i m s ≡ done step
    → Handled settings i m s step
unfolding handle_message should_intercept_terminate
handle_message-Handled settings now i (parse_msg name query oids) s step e =
    elim (validated s _ (accept_parse now name query oids s) step e) [
      | inl (ok, e') ↦ passed ok (accept_parse-Goes now name query oids s step e')
      | inr (err_msg, bad, f) ↦ was_refused query err_msg refl bad f
    ]
handle_message-Handled settings now i (query_msg query) s step e =
    elim (validated s _ (accept_query now query s) step e) [
      | inl (ok, e') ↦ passed ok (accept_query-Goes now query s step e')
      | inr (err_msg, bad, f) ↦ was_refused query err_msg refl bad f
    ]
handle_message-Handled settings now i (bind_msg portal statement codes params) s step e =
    passed tt (accept_bind-Goes settings now portal statement codes params s step e)
handle_message-Handled settings now i (close_msg kind name) s step e =
    passed tt (accept_close-Goes kind name s step e)
handle_message-Handled settings now i (execute_msg portal) s step e = passed tt (ground arith)
handle_message-Handled settings now i sync_msg s step e = passed tt (ground arith)
handle_message-Handled settings now zero terminate_msg s step e =
    was_terminated refl refl (ground arith)
handle_message-Handled settings now (suc i) terminate_msg s step e =
    passed (λ z. omega arith) (ground arith)

-- Which branch `then_rest` took.
then_rest-forwarded :
    (rest : Session → Run Step) (step step' : Step)
    → step.fate ≡ forwarded
    → then_rest rest step ≡ done step'
    → rest step.session ≡ done step'
then_rest-forwarded rest step step' f e = ground arith

then_rest-stopped :
    (rest : Session → Run Step) (step step' : Step)
    → step.fate ≢ forwarded
    → then_rest rest step ≡ done step'
    → step.fate ≡ step'.fate
then_rest-stopped rest step step' f e = ground arith

handle_messages-Decided :
    (settings : Settings) (now i : ℕ) (msgs : List Message) (s : Session) (step : Step)
    → handle_messages settings now i msgs s ≡ done step
    → Decided settings s.txn_tracker i msgs step.fate
unfolding handle_messages
handle_messages-Decided settings now i [] s step e =
    let f : forwarded ≡ step.fate = ground arith in
    subst (Decided settings s.txn_tracker i []) f (all_pass i)
handle_messages-Decided settings now i (m ∷ rest) s step e =
    let (first, e1, e2) =
      >>=-eq_done (handle_message settings now i m s)
        (then_rest (handle_messages settings now (suc i) rest)) e in
    elim (handle_message-Handled settings now i m s first e1) [
      | passed p (f, same) ↦ one_passes i m rest step.fate p (
          subst (λ t. Decided settings t (suc i) rest step.fate) same
            (handle_messages-Decided settings now (suc i) rest first.session step
              (then_rest-forwarded (handle_messages settings now (suc i) rest) first step f e2)))
      | was_refused query err_msg q bad f ↦
          let same : refused_with (refusal err_msg s.txn_tracker) ≡ step.fate =
            sym f
            ∙ then_rest-stopped (handle_messages settings now (suc i) rest) first step (λ g. cc)
                e2 in
          subst (Decided settings s.txn_tracker i (m ∷ rest)) same
            (one_refused i m rest query err_msg q bad)
      | was_terminated is zero_i f ↦
          let same : terminated ≡ step.fate =
            sym f
            ∙ then_rest-stopped (handle_messages settings now (suc i) rest) first step (λ g. cc)
                e2 in
          subst (λ m. Decided settings s.txn_tracker i (m ∷ rest) step.fate) (sym is)
            (subst (Decided settings s.txn_tracker i (terminate_msg ∷ rest)) same
              (leading_terminate i rest zero_i))
    ]

-- What a fate means outside: the bytes for either side, and whether the session ends.
abbrev pub backend_part : Fate → Bytes → Bytes
backend_part forwarded chunk = chunk
backend_part (refused_with reply) chunk = []
backend_part terminated chunk = []

abbrev pub client_part : Fate → Bytes
client_part forwarded = []
client_part (refused_with reply) = reply
client_part terminated = []

abbrev pub ends_session : Fate → Bool
ends_session forwarded = false
ends_session (refused_with reply) = false
ends_session terminated = true

conclude-fate :
    (settings : Settings) (now : ℕ) (chunk : Bytes) (step : Step)
    → let t = conclude settings now chunk step in
      (t.to_backend ≡ backend_part step.fate chunk)
      × (t.to_client ≡ client_part step.fate)
      × (t.ends ≡ ends_session step.fate)
unfolding conclude
conclude-fate settings now chunk step = ground arith

-- A chunk of the client reaches the backend unchanged or not at all. It is forwarded, with no reply, exactly if every
-- message in it passes: the mode enforcer allows each Query and Parse, and no Terminate stands at its head. A refused
-- message is answered by the ErrorResponse with the enforcer's reason and a ReadyForQuery with the session's
-- transaction state; a Terminate at the head ends the session and sends nothing.
-- Condition: the round comes to an end, for these messages of the chunk.
pub on_client_chunk-Decided :
    (settings : Settings) (now : ℕ) (chunk buffer : Bytes) (msgs : List Message) (s : Session)
    (t : Turn)
    → extract_messages s.frontend_buffer chunk ≡ returned msgs buffer
    → on_client_chunk settings now chunk s ≡ done t
    → (fate : Fate) × Decided settings s.txn_tracker 0 msgs fate
      × (t.to_backend ≡ backend_part fate chunk)
      × (t.to_client ≡ client_part fate)
      × (t.ends ≡ ends_session fate)
unfolding on_client_chunk
on_client_chunk-Decided settings now chunk buffer msgs s t x e =
    let (step, e1, e2) =
      >>=-eq_done (handle_messages settings now 0 msgs (record s { frontend_buffer = buffer }))
        (λ step. done (conclude settings now chunk step))
        (sym (ap (handle_extracted settings now chunk s) x) ∙ e) in
    let same : conclude settings now chunk step ≡ t = ground arith in
    let (b, c, f) = conclude-fate settings now chunk step in
    (
      step.fate,
      handle_messages-Decided settings now 0 msgs (record s { frontend_buffer = buffer }) step e1,
      sym (ap (λ (t : Turn). t.to_backend) same) ∙ b,
      sym (ap (λ (t : Turn). t.to_client) same) ∙ c,
      sym (ap (λ (t : Turn). t.ends) same) ∙ f,
    )
