-- ===== src/Protocol/Reassembly/Chunks.antt =====
-- The messages do not depend on how the stream was cut into reads.
use mathlib.Core.List.{append_assoc, append-nil}
use scry_proxy.Base.{
  suc, ◌+◌, ◌≤◌, ◌≡◌, ◌≢◌, refl, ap, sym, ◌∙◌, List, [], ◌∷◌, ◌++◌, Bytes, length, length-append,
  arith,
}
use scry_proxy.Protocol.Wire.{Frame}
use scry_proxy.Protocol.Messages.{Message}
use scry_proxy.Protocol.Messages.RoundTrip.{IsMessage, tag_of, payload_of}
use scry_proxy.Protocol.Reassembly.{
  header, max_frontend_message_size, Drained, retained, framing_error, crashed, unfinished, prepend,
  drain, returned, no_end, settle, extract_messages, feed, and_then, after_messages,
}
use scry_proxy.Protocol.Reassembly.Drain.{
  drain-append, drain_fuel, read_on, drain_ends, length-retained-le,
}

-- The bytes of a sequence of reads.
abbrev pub joined : List Bytes → Bytes
joined [] = []
joined (c ∷ cs) = c ++ joined cs

-- The loop on a whole stream, with the bound that `extract_messages` gives it.
abbrev pub drain_all : Bytes → Drained
drain_all xs = drain (suc (length xs)) xs

drain_all-append :
    (xs ys : Bytes)
    → drain_all (xs ++ ys)
      ≡ read_on (drain_all xs) (λ rest. drain (suc (length (xs ++ ys))) (rest ++ ys))
drain_all-append xs ys =
    drain-append (suc (length (xs ++ ys))) (suc (length (xs ++ ys))) xs ys (omega arith)
      (omega arith)
    ∙ ap (λ d. read_on d (λ rest. drain (suc (length (xs ++ ys))) (rest ++ ys)))
        (drain_fuel (suc (length (xs ++ ys))) (suc (length xs)) xs
          (omega (arith, length-append xs ys)) (omega arith))

append_self : (ms ns : List Message) → ms ++ ns ≡ ms → ns ≡ []
append_self [] ns h = h
append_self (m ∷ ms) ns h = append_self ms ns (cc)

-- Nothing more can be read from what is retained.
retained_drained :
    (xs : Bytes) {ms : List Message} {r : Bytes}
    → drain_all xs ≡ retained ms r
    → drain_all r ≡ retained [] r
retained_drained xs {ms} {r} h =
    let le = length-retained-le (suc (length xs)) xs h in
    let again : retained ms r ≡ prepend ms (drain_all r) =
      sym h
      ∙ ap drain_all (sym (append-nil xs))
      ∙ drain_all-append xs []
      ∙ ap (λ d. read_on d (λ rest. drain (suc (length (xs ++ []))) (rest ++ []))) h
      ∙ ap (λ t. prepend ms (drain (suc (length (xs ++ []))) t)) (append-nil r)
      ∙ ap (prepend ms) (
          drain_fuel (suc (length (xs ++ []))) (suc (length r)) r
            (omega (arith, le, length-append xs [])) (omega arith)) in
    cancel (drain_all r) again
  where
    cancel : (d : Drained) → retained ms r ≡ prepend ms d → d ≡ retained [] r
    cancel (retained ns s) e =
        ap (λ l. retained l s) (append_self ms ns (ground arith)) ∙ (ground arith)
    cancel (framing_error ns) e = absurd (ground arith)
    cancel crashed e = absurd (ground arith)
    cancel unfinished e = absurd (ground arith)

-- The same for one read of several: the rest of the stream is read on from what is retained.
drain_all-retained :
    (xs ys : Bytes) {ms : List Message} {r : Bytes}
    → drain_all xs ≡ retained ms r
    → drain_all (xs ++ ys) ≡ prepend ms (drain_all (r ++ ys))
drain_all-retained xs ys {ms} {r} h =
    let le = length-retained-le (suc (length xs)) xs h in
    drain_all-append xs ys
    ∙ ap (λ d. read_on d (λ rest. drain (suc (length (xs ++ ys))) (rest ++ ys))) h
    ∙ ap (prepend ms) (
        drain_fuel (suc (length (xs ++ ys))) (suc (length (r ++ ys))) (r ++ ys)
          (omega (arith, le, length-append xs ys, length-append r ys)) (omega arith))

read_whole :
    (buffer chunk : Bytes) (chunks : List Bytes) {d : Drained}
    → drain_all (buffer ++ chunk) ≡ d
    → drain_all ((buffer ++ chunk) ++ joined chunks)
      ≡ read_on d (λ rest.
        drain (suc (length ((buffer ++ chunk) ++ joined chunks))) (rest ++ joined chunks))
read_whole buffer chunk chunks e =
    drain_all-append (buffer ++ chunk) (joined chunks)
    ∙ ap
        (λ d. read_on d (λ rest.
          drain (suc (length ((buffer ++ chunk) ++ joined chunks))) (rest ++ joined chunks)))
        e

-- One read, given what the later reads do.
feed_cons :
    (buffer chunk : Bytes) (chunks : List Bytes) (ms : List Message) (r : Bytes) (d : Drained)
    → ((b : Bytes) (ms' : List Message)
        → drain_all b ≡ retained [] b
        → drain_all (b ++ joined chunks) ≡ retained ms' r
        → feed b chunks ≡ returned ms' r)
    → drain_all (buffer ++ chunk) ≡ d
    → drain_all ((buffer ++ chunk) ++ joined chunks) ≡ retained ms r
    → and_then (settle d) (λ b. feed b chunks) ≡ returned ms r
feed_cons buffer chunk chunks ms r (retained ms1 r1) later e whole =
    split (drain_all (r1 ++ joined chunks)) refl
      (sym (drain_all-retained (buffer ++ chunk) (joined chunks) e) ∙ whole)
  where
    split :
        (d : Drained)
        → drain_all (r1 ++ joined chunks) ≡ d
        → prepend ms1 d ≡ retained ms r
        → and_then (returned ms1 r1) (λ b. feed b chunks) ≡ returned ms r
    split (retained ms2 r2) at_end h =
        let same : r2 ≡ r = ground arith in
        let rest =
          later r1 ms2 (retained_drained (buffer ++ chunk) e) (at_end ∙ ap (retained ms2) same) in
        ap (after_messages ms1) rest ∙ (ground (arith, h))
    split (framing_error ms2) at_end h = absurd (ground (arith, h))
    split crashed at_end h = absurd (ground (arith, h))
    split unfinished at_end h = absurd (ground (arith, h))
feed_cons buffer chunk chunks ms r (framing_error ms1) later e whole =
    absurd (impossible (sym (read_whole buffer chunk chunks e) ∙ whole))
  where
    impossible : framing_error ms1 ≡ retained ms r → ⊥
    impossible h = cc
feed_cons buffer chunk chunks ms r crashed later e whole =
    absurd (impossible (sym (read_whole buffer chunk chunks e) ∙ whole))
  where
    impossible : crashed ≡ retained ms r → ⊥
    impossible h = cc
feed_cons buffer chunk chunks ms r unfinished later e whole =
    absurd (drain_ends (suc (length (buffer ++ chunk))) (buffer ++ chunk) (omega arith) e)

feed_from :
    (buffer : Bytes) (chunks : List Bytes) (ms : List Message) (r : Bytes)
    → drain_all buffer ≡ retained [] buffer
    → drain_all (buffer ++ joined chunks) ≡ retained ms r
    → feed buffer chunks ≡ returned ms r
unfolding feed
feed_from buffer [] ms r drained whole =
    ap settle (sym drained ∙ ap drain_all (sym (append-nil buffer)) ∙ whole)
feed_from buffer (chunk ∷ chunks) ms r drained whole =
    feed_cons buffer chunk chunks ms r (drain_all (buffer ++ chunk))
      (λ b ms' p q. feed_from b chunks ms' r p q) refl
      (ap drain_all (append_assoc buffer chunk (joined chunks)) ∙ whole)

-- However a stream is cut into reads: if the loop on the whole stream gets the messages `ms` out of it and
-- retains `r`, with no framing error and no panic, then the calls for the reads, from an empty
-- buffer, return `ms` in order and leave `r` in the buffer.
pub feed_any_chunks :
    (chunks : List Bytes) (ms : List Message) (r : Bytes)
    → drain_all (joined chunks) ≡ retained ms r
    → feed [] chunks ≡ returned ms r
feed_any_chunks chunks ms r whole = feed_from [] chunks ms r empty_drained whole
  where
    empty_drained : drain_all [] ≡ retained [] []
    empty_drained = unfold drain header in refl

abbrev pub frame_of : Message → Frame
frame_of m = record { tag = tag_of m; payload = payload_of m }

-- A message that the parsers take, in a frame that the loop takes.
abbrev pub IsSendable : Message → Type 0
IsSendable m = IsMessage m × (length (payload_of m) + 4 ≤ max_frontend_message_size)

-- Whatever the bytes, a call comes to its end.
pub extract_messages_ends : (buffer chunk : Bytes) → extract_messages buffer chunk ≢ no_end
unfolding extract_messages
extract_messages_ends buffer chunk =
    settled (drain_all (buffer ++ chunk))
      (drain_ends (suc (length (buffer ++ chunk))) (buffer ++ chunk) (omega arith))
  where
    settled : (d : Drained) → d ≢ unfinished → settle d ≢ no_end
    settled (retained ms rest) h = λ e. cc
    settled (framing_error ms) h = λ e. cc
    settled crashed h = λ e. cc
    settled unfinished h = λ e. h refl
