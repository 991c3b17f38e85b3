-- ===== src/Proxy/EventBatcher/Refinement.antt =====
-- The batcher of scry-proxy/src/proxy/event_batcher.rs against its specification, a log of the accepted events.
use mathlib.Core.List.{append_assoc, append-nil}
use scry_proxy.Base.{
  ◌≡◌, refl, ap, sym, ◌∙◌, Bool, true, false, not, ◌||◌, none, some, List, [], ◌∷◌, ◌++◌, arith,
  length, leb, is_empty, Option-cases, Bool-cases, inl, inr, if◌then◌else◌, if-holds, Result, ok,
  err,
}
use scry_proxy.Proxy.EventBatcher.{
  TrySend, queued, full, closed_channel, Channel, EventPublisher, EventBatcher, SendError,
  after_send, send_event, flush_batch, on_event, on_closed, on_timer, on_recv, Occurrence, send,
  received, ticked, receive, tick, run_batcher,
}

module _ {Q W E : Type 0} (channel : Channel Q E) (publisher : EventPublisher W E)
    (contents : Q → List E) (handed : W → List E) where
  -- A queue: what is sent is at the end, and what is received was first.
  pub record IsFifo : Type 0 where
    pub queues :
        (e : E) (q : Q)
        → (channel.try_send e q).1 ≡ queued
        → contents (channel.try_send e q).0 ≡ contents q ++ (e ∷ [])
    pub refuses :
        (e : E) (q : Q)
        → ¬ ((channel.try_send e q).1 ≡ queued)
        → contents (channel.try_send e q).0 ≡ contents q
    pub gives :
        (e : E) (q : Q) → (channel.recv q).1 ≡ some e → contents q ≡ e ∷ contents (channel.recv q).0
    pub ends :
        (q : Q)
        → channel.ready q ≡ true
        → (channel.recv q).1 ≡ none
        → (contents q ≡ []) × (contents (channel.recv q).0 ≡ [])

  -- The events that the publisher has been handed, in order.
  pub record Records : Type 0 where
    pub by_publish :
        (es : List E) (w : W) → handed (publisher.publish_batch es w).0 ≡ handed w ++ es
    pub by_shutdown : (w : W) → handed (publisher.shutdown w).0 ≡ handed w

  -- The log that the batcher stands for.
  abbrev pub log : EventBatcher Q W E → List E
  log b = handed b.publisher ++ (b.batch ++ contents b.receiver)

  -- What a call or a round adds to the log: an event that `send_event` says was queued.
  abbrev pub if_accepted : E → Result Bool SendError → List E
  if_accepted event (ok true) = event ∷ []
  if_accepted event (ok false) = []
  if_accepted event (err e) = []

  unfoldable pub accepted : List (Occurrence E) → EventBatcher Q W E → List E
  accepted [] b = []
  accepted (send event ∷ rest) b =
      let (b', r) = send_event channel event b in if_accepted event r ++ accepted rest b'
  accepted (received ∷ rest) b = accepted rest (receive channel publisher b)
  accepted (ticked ∷ rest) b = accepted rest (tick publisher b)

  flush_batch-log : (b : EventBatcher Q W E) → Records → log (flush_batch publisher b) ≡ log b
  unfolding flush_batch
  flush_batch-log b p =
      if-holds (λ (b' : EventBatcher Q W E). log b' ≡ log b) (is_empty b.batch) refl
        (ap (λ h. h ++ contents b.receiver) (p.by_publish b.batch b.publisher)
          ∙ append_assoc (handed b.publisher) b.batch (contents b.receiver))

  on_event-log :
      (event : E) (b : EventBatcher Q W E)
      → Records
      → log (on_event publisher event b)
        ≡ handed b.publisher ++ (b.batch ++ (event ∷ contents b.receiver))
  unfolding on_event
  on_event-log event b p =
      let b' = record b { batch = b.batch ++ (event ∷ []) } in
      let same =
        ap (λ es. handed b.publisher ++ es)
          (append_assoc b.batch (event ∷ []) (contents b.receiver)) in
      if-holds
        (λ (b'' : EventBatcher Q W E).
          log b'' ≡ handed b.publisher ++ (b.batch ++ (event ∷ contents b.receiver)))
        (leb b'.batch_size (length b'.batch)) (flush_batch-log b' p ∙ same) same

  on_closed-log : (b : EventBatcher Q W E) → Records → log (on_closed publisher b) ≡ log b
  unfolding on_closed
  on_closed-log b p =
      let b' = flush_batch publisher b in
      ap (λ h. h ++ (b'.batch ++ contents b'.receiver)) (p.by_shutdown b'.publisher)
      ∙ flush_batch-log b p

  tick-log : (b : EventBatcher Q W E) → Records → log (tick publisher b) ≡ log b
  unfolding on_timer
  tick-log b p =
      let Same = λ (b' : EventBatcher Q W E). log b' ≡ log b in
      if-holds Same b.finished refl
        (if-holds Same (not (is_empty b.batch)) (flush_batch-log b p) refl)

  -- The channel's answer to a round that receives.
  on_recv-log :
      (b : EventBatcher Q W E)
      → IsFifo
      → Records
      → channel.ready b.receiver ≡ true
      → log (on_recv publisher b (channel.recv b.receiver)) ≡ log b
  on_recv-log b f p ready =
      let (q, o) = channel.recv b.receiver in
      elim (Option-cases o) [
        | inl over ↦
            let (empty, empty') = f.ends b.receiver ready over in
            ap (λ o. log (on_recv publisher b (q, o))) over
            ∙ on_closed-log (record b { receiver = q }) p
            ∙ ap (λ es. handed b.publisher ++ (b.batch ++ es)) (empty' ∙ sym empty)
        | inr (event, got) ↦
            ap (λ o. log (on_recv publisher b (q, o))) got
            ∙ on_event-log event (record b { receiver = q }) p
            ∙ ap (λ es. handed b.publisher ++ (b.batch ++ es)) (sym (f.gives event b.receiver got))
      ]

  receive-log :
      (b : EventBatcher Q W E) → IsFifo → Records → log (receive channel publisher b) ≡ log b
  receive-log b f p =
      let round = on_recv publisher b (channel.recv b.receiver) in
      elim (Bool-cases (channel.ready b.receiver)) [
        | inl ready ↦
            if-holds (λ (b' : EventBatcher Q W E). log b' ≡ log b)
              (b.finished || not (channel.ready b.receiver)) refl (on_recv-log b f p ready)
        | inr waits ↦
            let waiting : (b.finished || not (channel.ready b.receiver)) ≡ true =
              ground (arith, waits) in
            ap (λ c. log (if c then b else round)) waiting
      ]

  after_send-log :
      (event : E) (b : EventBatcher Q W E) (r : Q × TrySend)
      → (r.1 ≡ queued → contents r.0 ≡ contents b.receiver ++ (event ∷ []))
      → (¬ (r.1 ≡ queued) → contents r.0 ≡ contents b.receiver)
      → log (after_send b r).0 ≡ log b ++ if_accepted event (after_send b r).1
  after_send-log event b (q, queued) put left =
      ap (λ es. handed b.publisher ++ (b.batch ++ es)) (put refl)
      ∙ ap (λ es. handed b.publisher ++ es)
          (sym (append_assoc b.batch (contents b.receiver) (event ∷ [])))
      ∙ sym (append_assoc (handed b.publisher) (b.batch ++ contents b.receiver) (event ∷ []))
  after_send-log event b (q, full) put left =
      ap (λ es. handed b.publisher ++ (b.batch ++ es)) (left (λ e. cc)) ∙ sym (append-nil _)
  after_send-log event b (q, closed_channel) put left =
      ap (λ es. handed b.publisher ++ (b.batch ++ es)) (left (λ e. cc)) ∙ sym (append-nil _)

  send_event-log :
      (event : E) (b : EventBatcher Q W E)
      → IsFifo
      → log (send_event channel event b).0
        ≡ log b ++ if_accepted event (send_event channel event b).1
  unfolding send_event
  send_event-log event b f =
      after_send-log event b (channel.try_send event b.receiver) (f.queues event b.receiver)
        (f.refuses event b.receiver)

  -- The batcher refines a log: after any calls of `send_event` and rounds of the task, in any order, the events that the
  -- publisher has been handed, then those of the batch, then those of the queue are what they were at the start, followed
  -- by the events that `send_event` accepted since, in their order: none is lost, repeated or reordered. Conditions: the
  -- channel is a queue, and the publisher's record grows by what it is handed.
  pub run_batcher-log :
      (occurrences : List (Occurrence E)) (b : EventBatcher Q W E)
      → IsFifo
      → Records
      → log (run_batcher channel publisher occurrences b) ≡ log b ++ accepted occurrences b
  unfolding run_batcher accepted
  run_batcher-log [] b f p = sym (append-nil _)
  run_batcher-log (send event ∷ rest) b f p =
      let (b', r) = send_event channel event b in
      run_batcher-log rest b' f p
      ∙ ap (λ l. l ++ accepted rest b') (send_event-log event b f)
      ∙ append_assoc (log b) (if_accepted event r) (accepted rest b')
  run_batcher-log (received ∷ rest) b f p =
      let b' = receive channel publisher b in
      run_batcher-log rest b' f p ∙ ap (λ l. l ++ accepted rest b') (receive-log b f p)
  run_batcher-log (ticked ∷ rest) b f p =
      let b' = tick publisher b in
      run_batcher-log rest b' f p ∙ ap (λ l. l ++ accepted rest b') (tick-log b p)
