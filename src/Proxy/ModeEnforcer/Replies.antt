-- ===== src/Proxy/ModeEnforcer/Replies.antt =====
-- What the mode enforcer refuses, and that its reply is read as the error it states.
use mathlib.Core.List.{append-nil}
use scry_proxy.Base.{
  length-append, ℕ, ◌<◌, ◌^◌, ◌≡◌, refl, ap, sym, ◌∙◌, Bool, true, false, some, List, [], ◌∷◌, ◌++◌,
  arith, Bytes, codes, length, All,
}
use scry_proxy.Protocol.Utf8.{is_utf8, utf8_from, utf8_step}
use scry_proxy.Protocol.Wire.{frame_bytes}
use scry_proxy.Protocol.Messages.RoundTrip.{IsText}
use scry_proxy.Protocol.CommandDetector.{
  DetectedCommand, set_var, declare_cursor, listen_on, gives, outcome_map, detect, stateful,
}
use scry_proxy.Protocol.ErrorFields.{
  extract_error, extract_error_scrubbed, no_fields, full_text, scrubbed_text,
}
use scry_proxy.Protocol.ErrorFields.Reading.{
  IsField, error_frame, set_fields, extract_error-set_fields,
}
use scry_proxy.Proxy.ConnectionState.Pins.{leaves_state}
use scry_proxy.Proxy.ModeEnforcer.{transaction, allowed, validate, verdict, build_error_response}

abbrev reply_fields : Bytes → List (ℕ × Bytes)
reply_fields message = (b'S', codes "ERROR") ∷ (b'C', codes "0A000") ∷ (b'M', message) ∷ []

reply_fields-IsField : (message : Bytes) → IsText message → All IsField (reply_fields message)
unfolding is_utf8 utf8_from utf8_step
reply_fields-IsField message w = (
  (omega arith, record { no_nul = ground arith; utf8 = refl }),
  ((omega arith, record { no_nul = ground arith; utf8 = refl }), ((omega arith, w), tt)),
)

set_fields-reply :
    (message : Bytes)
    → IsText message
    → set_fields (reply_fields message) no_fields ≡ record {
      severity = some (codes "ERROR");
      sqlstate = some (codes "0A000");
      message = some message;
    }
set_fields-reply message w =
    let fields = reply_fields-IsField message w in
    rw (fields.0.1.utf8, fields.1.0.1.utf8, w.utf8) refl

-- The reply to a refused statement is read, by the code that watches backends, as severity ERROR with this message;
-- its scrubbed form is the severity with SQLSTATE 0A000, whatever the message says.
-- Conditions: the message is UTF-8 without a zero byte and shorter than 2 ^ 30 bytes.
pub extract_error-build_error_response :
    (message : Bytes)
    → IsText message
    → length message < 2 ^ 30
    → (extract_error (build_error_response message) ≡ some (codes "ERROR: " ++ message))
      × (extract_error_scrubbed (build_error_response message) ≡ some (codes "ERROR: 0A000"))
unfolding build_error_response
extract_error-build_error_response message w small =
    let (full, scrubbed) =
      extract_error-set_fields [] (reply_fields message) [] tt (reply_fields-IsField message w)
        (omega (arith, length-append message (0 ∷ 0 ∷ []), small)) in
    let frame : frame_bytes (error_frame (reply_fields message)) ++ []
        ≡ build_error_response message =
      append-nil (frame_bytes (error_frame (reply_fields message))) in
    let read = set_fields-reply message w in
    (
      sym (ap extract_error frame) ∙ full ∙ ap (λ fs. full_text (some fs)) read,
      sym (ap extract_error_scrubbed frame) ∙ scrubbed ∙ ap (λ fs. scrubbed_text (some fs)) read,
    )

-- What may pass in transaction mode although it leaves state on the session: a cursor without hold, a LISTEN, and
-- inside a transaction a SET.
abbrev pub passes : Bool → DetectedCommand → Bool
passes in_transaction (set_var name value) = in_transaction
passes in_transaction (declare_cursor name with_hold) = true
passes in_transaction (listen_on channel) = true
passes in_transaction other = false

verdict-passes :
    (in_transaction : Bool) (c : DetectedCommand)
    → verdict in_transaction (some c) ≡ allowed
    → leaves_state (stateful c) ≡ true
    → passes in_transaction c ≡ true
verdict-passes in_transaction c ok leaves = ground arith

-- In transaction mode, a statement that is allowed and detected as a command that leaves state on a session is a
-- DECLARE, a LISTEN, or a SET inside a transaction.
pub validate-passes :
    (sql : Bytes) (in_transaction : Bool) (c : DetectedCommand)
    → detect sql ≡ gives (some c)
    → validate transaction sql in_transaction ≡ gives allowed
    → leaves_state (stateful c) ≡ true
    → passes in_transaction c ≡ true
unfolding validate
validate-passes sql in_transaction c e ok leaves =
    let same : gives (verdict in_transaction (some c)) ≡ gives allowed =
      sym (ap (outcome_map (verdict in_transaction)) e) ∙ ok in
    let ok' : verdict in_transaction (some c) ≡ allowed = cc in
    verdict-passes in_transaction c ok' leaves
