-- ===== src/Proxy/Transaction.antt =====
-- scry-proxy/src/proxy/transaction.rs: the transaction state, from the status of ReadyForQuery.
mod Tests
use scry_proxy.Base.{
  ℕ, ◌≡◌, refl, ap, ◌∙◌, Bool, true, false, Option, none, some, List, [], ◌∷◌, ◌==◌, ◌||◌,
  if◌then◌else◌, arith,
}

pub data TransactionState : Type 0 where
  idle in_transaction in_error : TransactionState

pub record TransactionTracker : Type 0 where
  pub state : TransactionState

unfoldable pub new : TransactionTracker
new = record { state = idle }

unfoldable pub update_from_ready_for_query : ℕ → TransactionTracker → TransactionTracker
update_from_ready_for_query status t =
    if status == b'I'
    then record { state = idle }
    else if status == b'T'
    then record { state = in_transaction }
    else if status == b'E'
    then record { state = in_error }
    else t

abbrev is_in_transaction_state : TransactionState → Bool
is_in_transaction_state idle = false
is_in_transaction_state _ = true

unfoldable pub is_in_transaction : TransactionTracker → Bool
is_in_transaction t = is_in_transaction_state t.state

abbrev is_idle_state : TransactionState → Bool
is_idle_state idle = true
is_idle_state _ = false

unfoldable pub is_idle : TransactionTracker → Bool
is_idle t = is_idle_state t.state

-- The tracker after the statuses of a session.
pub track : TransactionTracker → List ℕ → TransactionTracker
track t [] = t
track t (status ∷ rest) = track (update_from_ready_for_query status t) rest

-- The last of the statuses that the protocol knows.
abbrev pub last_known : Option TransactionState → List ℕ → Option TransactionState
last_known seen [] = seen
last_known seen (status ∷ rest) =
    last_known
      (if status == b'I'
        then some idle
        else if status == b'T'
        then some in_transaction
        else if status == b'E'
        then some in_error
        else seen)
      rest

known_step :
    (t : TransactionTracker) (status : ℕ)
    → some (update_from_ready_for_query status t).state ≡ (
        if status == b'I'
        then some idle
        else if status == b'T'
        then some in_transaction
        else if status == b'E'
        then some in_error
        else some t.state)
unfolding update_from_ready_for_query
known_step t status = ground arith

track_from :
    (t : TransactionTracker) (statuses : List ℕ)
    → some (track t statuses).state ≡ last_known (some t.state) statuses
unfolding track
track_from t [] = refl
track_from t (status ∷ rest) =
    track_from (update_from_ready_for_query status t) rest
    ∙ ap (λ seen. last_known seen rest) (known_step t status)

-- From a new tracker, whatever statuses come: the state is that of the last status the protocol knows, and
-- idle if there was none.
pub track-last_known :
    (statuses : List ℕ) → some (track new statuses).state ≡ last_known (some idle) statuses
unfolding new
track-last_known statuses = track_from (record { state = idle }) statuses
