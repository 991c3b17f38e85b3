-- ===== src/Proxy/Connection/Replies/Reading.antt =====
-- The replies to a client that gets no backend are read, by the code that watches backends, as the errors they state.
use mathlib.Core.List.{append-nil}
use scry_proxy.Base.{
  ℕ, zero, suc, ◌+◌, ◌*◌, ◌/◌, ◌%◌, ◌≤◌, ◌<◌, ◌^◌, ◌≡◌, ◌≢◌, refl, ap, sym, ◌∙◌, true, some, List,
  [], ◌∷◌, ◌++◌, arith, Bytes, codes, length, length-append, All, ltb, digits_from, decimal_from,
  decimal, digits, inl, inr, Bool-cases,
}
use scry_proxy.Protocol.Utf8.{is_utf8, utf8_from, utf8_step, start}
use scry_proxy.Protocol.Wire.{frame_bytes}
use scry_proxy.Protocol.Messages.RoundTrip.{IsText}
use scry_proxy.Protocol.ErrorFields.{
  extract_error, extract_error_scrubbed, no_fields, full_text, scrubbed_text,
}
use scry_proxy.Protocol.ErrorFields.Reading.{error_frame, set_fields, extract_error-set_fields}
use scry_proxy.Proxy.Connection.Replies.{
  reply_fields, error_reply, hint_text, build_queue_full_error,
}

-- ASCII without the zero byte.
abbrev pub IsAscii : ℕ → Type 0
IsAscii b = (0 < b) × (b < 128)

utf8_from-ascii : (s : Bytes) → All IsAscii s → utf8_from start s ≡ true
unfolding utf8_from utf8_step
utf8_from-ascii [] h = refl
utf8_from-ascii (b ∷ s) h = ground (arith, utf8_from-ascii s h.1)

All-no_nul : (s : Bytes) → All IsAscii s → All (λ b. 0 < b) s
All-no_nul [] h = tt
All-no_nul (b ∷ s) h = (h.0.0, All-no_nul s h.1)

ascii-IsText : (s : Bytes) → All IsAscii s → IsText s
unfolding is_utf8
ascii-IsText s h = record { no_nul = All-no_nul s h; utf8 = utf8_from-ascii s h }

All-append : (s t : Bytes) → All IsAscii s → All IsAscii t → All IsAscii (s ++ t)
All-append [] t h k = k
All-append (b ∷ s) t h k = (h.0, All-append s t h.1 k)

decimal_from-IsAscii :
    (fuel n : ℕ) (acc : Bytes) → All IsAscii acc → All IsAscii (decimal_from fuel n acc)
unfolding decimal_from
decimal_from-IsAscii zero n acc h = h
decimal_from-IsAscii (suc fuel) n acc h =
    let h' : All IsAscii ((b'0' + n % 10) ∷ acc) = (omega arith, h) in
    elim (Bool-cases (ltb n 10)) [
      | inl e ↦ rw e h'
      | inr e ↦ rw e (decimal_from-IsAscii fuel (n / 10) _ h')
    ]

length-decimal_from :
    (fuel n : ℕ) (acc : Bytes) → length (decimal_from fuel n acc) ≤ length acc + fuel
unfolding decimal_from
length-decimal_from zero n acc = omega arith
length-decimal_from (suc fuel) n acc =
    ground (arith, length-decimal_from fuel (n / 10) ((b'0' + n % 10) ∷ acc))

-- 10 ^ fuel.
abbrev pub power_of_ten : ℕ → ℕ
power_of_ten zero = 1
power_of_ten (suc fuel) = 10 * power_of_ten fuel

digits_from-decimal_from :
    (fuel n : ℕ) (acc : Bytes)
    → n < power_of_ten (suc fuel)
    → digits_from 0 (decimal_from (suc fuel) n acc) ≡ digits_from n acc
unfolding decimal_from digits_from
digits_from-decimal_from zero n acc h = ground arith
digits_from-decimal_from (suc fuel) n acc h =
    ground (arith, digits_from-decimal_from fuel (n / 10) ((b'0' + n % 10) ∷ acc))

digits-digits_from : (s : Bytes) (n : ℕ) → digits_from 0 s ≡ some n → s ≢ [] → digits s ≡ some n
unfolding digits
digits-digits_from [] n h ne = absurd (ne refl)
digits-digits_from (c ∷ s) n h ne = h

decimal_from-ne-nil : (fuel n : ℕ) (acc : Bytes) → acc ≢ [] → decimal_from fuel n acc ≢ []
unfolding decimal_from
decimal_from-ne-nil zero n acc ne = ne
decimal_from-ne-nil (suc fuel) n acc ne =
    ground (arith, decimal_from-ne-nil fuel (n / 10) ((b'0' + n % 10) ∷ acc) (λ e. cc e))

decimal-ne-nil : (n : ℕ) → decimal n ≢ []
unfolding decimal decimal_from
decimal-ne-nil n =
    ground (arith, decimal_from-ne-nil 19 (n / 10) ((b'0' + n % 10) ∷ []) (λ e. cc e))

-- The digits of a `u64` are read back as the number.
pub digits-decimal : (n : ℕ) → n < 2 ^ 64 → digits (decimal n) ≡ some n
unfolding decimal digits_from
digits-decimal n h =
    digits-digits_from (decimal n) n (digits_from-decimal_from 19 n [] (omega arith))
      (decimal-ne-nil n)

abbrev hinted_fields : Bytes → Bytes → Bytes → List (ℕ × Bytes)
hinted_fields code message hint =
    (b'S', codes "ERROR") ∷ (b'C', code) ∷ (b'M', message) ∷ (b'H', hint) ∷ []

set_fields-hinted :
    (code message hint : Bytes)
    → IsText code
    → IsText message
    → IsText hint
    → set_fields (hinted_fields code message hint) no_fields
      ≡ record { severity = some (codes "ERROR"); sqlstate = some code; message = some message }
set_fields-hinted code message hint c m t = rw (utf8_from-error, c.utf8, m.utf8, t.utf8) refl
  where
    utf8_from-error : is_utf8 (codes "ERROR") ≡ true
    utf8_from-error = (ascii-IsText (codes "ERROR") (omega arith)).utf8

extract_error-error_reply :
    (code message hint : Bytes)
    → IsText code
    → IsText message
    → IsText hint
    → length code + length message + length hint < 2 ^ 30
    → let reply = error_reply (reply_fields code message hint) in
      (extract_error reply ≡ some (codes "ERROR: " ++ message))
      × (extract_error_scrubbed reply ≡ some (codes "ERROR: " ++ code))
extract_error-error_reply code message hint c m t small =
    let (full, scrubbed) =
      extract_error-set_fields [] (hinted_fields code message hint) [] tt
        (
          (omega arith, ascii-IsText (codes "ERROR") (omega arith)),
          ((omega arith, c), ((omega arith, m), ((omega arith, t), tt))),
        )
        (omega (
          arith,
          length-append code (0 ∷ b'M' ∷ (message ++ 0 ∷ b'H' ∷ (hint ++ 0 ∷ 0 ∷ []))),
          length-append message (0 ∷ b'H' ∷ (hint ++ 0 ∷ 0 ∷ [])),
          length-append hint (0 ∷ 0 ∷ []),
          small,
        )) in
    let frame : frame_bytes (error_frame (hinted_fields code message hint)) ++ []
        ≡ error_reply (reply_fields code message hint) =
      append-nil (frame_bytes (error_frame (hinted_fields code message hint))) in
    let read = set_fields-hinted code message hint c m t in
    (
      sym (ap extract_error frame) ∙ full ∙ ap (λ fs. full_text (some fs)) read,
      sym (ap extract_error_scrubbed frame) ∙ scrubbed ∙ ap (λ fs. scrubbed_text (some fs)) read,
    )

-- The reply to a client that the full queue refuses reads as severity ERROR with its message, whatever the retry
-- hint is, and scrubbed as the severity with SQLSTATE 53300.
-- Condition: the hint is a `u64`, which has twenty digits at most.
pub extract_error-build_queue_full_error :
    (retry_hint_ms : ℕ)
    → (extract_error (build_queue_full_error retry_hint_ms)
        ≡ some (codes "ERROR: connection pool queue is full"))
      × (extract_error_scrubbed (build_queue_full_error retry_hint_ms)
          ≡ some (codes "ERROR: 53300"))
unfolding build_queue_full_error decimal
extract_error-build_queue_full_error retry_hint_ms =
    extract_error-error_reply (codes "53300") (codes "connection pool queue is full")
      (hint_text retry_hint_ms) (ascii-IsText _ (omega arith)) (ascii-IsText _ (omega arith))
      (ascii-IsText (hint_text retry_hint_ms) hint-ascii) (omega (arith, hint-length))
  where
    hint-ascii : All IsAscii (hint_text retry_hint_ms)
    hint-ascii =
        All-append (codes "Server is under load. Please retry in ")
          (decimal retry_hint_ms ++ codes "ms.") (omega arith)
          (All-append (decimal retry_hint_ms) (codes "ms.")
            (decimal_from-IsAscii 20 retry_hint_ms [] tt) (omega arith))

    hint-length : length (hint_text retry_hint_ms) ≤ 100
    hint-length = omega (
      arith,
      length-append (decimal retry_hint_ms) (codes "ms."),
      length-decimal_from 20 retry_hint_ms [],
    )
