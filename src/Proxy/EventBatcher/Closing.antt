-- ===== src/Proxy/EventBatcher/Closing.antt =====
-- The bound of the batch of scry-proxy/src/proxy/event_batcher.rs, and how its task ends.
use mathlib.Core.List.{append-nil}
use scry_proxy.Base.{
  ℕ, suc, ◌<◌, max, ◌≡◌, ◌⊎◌, refl, ap, sym, subst, ◌∙◌, Bool, true, false, not, ◌||◌, Option, none,
  some, List, [], ◌∷◌, ◌++◌, arith, length, leb, is_empty, Option-cases, Bool-cases, inl, inr,
  if◌then◌else◌, if-holds, map,
}
use scry_proxy.Proxy.EventBatcher.{
  Channel, EventPublisher, EventBatcher, send_event, after_send, TrySend, queued, full,
  closed_channel, flush_batch, on_event, on_closed, on_timer, on_recv, Occurrence, send, received,
  ticked, receive, tick, run_batcher,
}
use scry_proxy.Proxy.EventBatcher.Refinement.{IsFifo, Records, run_batcher-log, accepted}

is_empty-nil : {E : Type 0} (es : List E) → is_empty es ≡ true → es ≡ []
is_empty-nil [] e = refl
is_empty-nil (x ∷ es) e = cc

module _ {Q W E : Type 0} (publisher : EventPublisher W E) where
  -- The batch is below its size.
  abbrev pub IsSmall : EventBatcher Q W E → Type 0
  IsSmall b = length b.batch < max 1 b.batch_size

  -- A flush takes the whole batch, and nothing else of the task.
  pub flush_batch-keeps :
      (b : EventBatcher Q W E)
      → let b' = flush_batch publisher b in
        (b'.batch ≡ []) × (b'.finished ≡ b.finished) × (b'.receiver ≡ b.receiver)
  unfolding flush_batch
  flush_batch-keeps b = elim (Bool-cases (is_empty b.batch)) [
    | inl empty ↦ rw (flush_batch, empty) (is_empty-nil b.batch empty, refl, refl)
    | inr some_event ↦ rw (flush_batch, some_event) (refl, refl, refl)
  ]

  flush_batch-IsSmall : (b : EventBatcher Q W E) → IsSmall (flush_batch publisher b)
  flush_batch-IsSmall b = omega (arith, ap (λ (es : List E). length es) (flush_batch-keeps b).0)

  on_event-IsSmall : (event : E) (b : EventBatcher Q W E) → IsSmall (on_event publisher event b)
  unfolding on_event
  on_event-IsSmall event b =
      let b' : EventBatcher Q W E = record b { batch = b.batch ++ (event ∷ []) } in
      let kept = flush_batch publisher b' in
      elim (Bool-cases (leb b'.batch_size (length b'.batch))) [
        | inl whole ↦
            subst IsSmall (sym (ap (λ c. if c then kept else b') whole)) (flush_batch-IsSmall b')
        | inr more ↦
            subst IsSmall (sym (ap (λ c. if c then kept else b') more)) (ground (arith, more))
      ]

  on_recv-IsSmall : (b : EventBatcher Q W E) (r : Q × Option E) → IsSmall (on_recv publisher b r)
  unfolding on_closed
  on_recv-IsSmall b (q, some event) = on_event-IsSmall event (record b { receiver = q })
  on_recv-IsSmall b (q, none) = flush_batch-IsSmall (record b { receiver = q })

  after_send-IsSmall :
      (b : EventBatcher Q W E) (r : Q × TrySend) → IsSmall b → IsSmall (after_send b r).0
  after_send-IsSmall b (q, queued) v = v
  after_send-IsSmall b (q, full) v = v
  after_send-IsSmall b (q, closed_channel) v = v

  -- The batch is bounded: after any calls of `send_event` and rounds of the task, in any order, it has fewer than
  -- `batch_size` events, or none where that is 0. Condition: it has at the start.
  pub run_batcher-IsSmall :
      (channel : Channel Q E) (occurrences : List (Occurrence E)) (b : EventBatcher Q W E)
      → IsSmall b
      → IsSmall (run_batcher channel publisher occurrences b)
  unfolding run_batcher send_event on_timer
  run_batcher-IsSmall channel [] b v = v
  run_batcher-IsSmall channel (send event ∷ rest) b v =
      run_batcher-IsSmall channel rest (send_event channel event b).0
        (after_send-IsSmall b (channel.try_send event b.receiver) v)
  run_batcher-IsSmall channel (received ∷ rest) b v =
      run_batcher-IsSmall channel rest (receive channel publisher b) (
        if-holds IsSmall (b.finished || not (channel.ready b.receiver)) v
          (on_recv-IsSmall b (channel.recv b.receiver)))
  run_batcher-IsSmall channel (ticked ∷ rest) b v =
      run_batcher-IsSmall channel rest (tick publisher b) (
        if-holds IsSmall b.finished v
          (if-holds IsSmall (not (is_empty b.batch)) (flush_batch-IsSmall b) v))

module _ {Q W E : Type 0} (channel : Channel Q E) (publisher : EventPublisher W E)
    (contents : Q → List E) (handed : W → List E) (gone : Q → Bool) where
  -- `gone` is that every sender has been dropped: then a call of `recv` never waits.
  pub record Drains : Type 0 where
    pub ready : (q : Q) → gone q ≡ true → channel.ready q ≡ true
    pub stays : (q : Q) → gone q ≡ true → gone (channel.recv q).0 ≡ true

  -- A round of the loop: `true` where the channel wins the `select!`, and `false` where the timer does.
  abbrev pub round : Bool → Occurrence E
  round true = received
  round false = ticked

  pub rounds : List Bool → EventBatcher Q W E → EventBatcher Q W E
  rounds picks b = run_batcher channel publisher (map round picks) b

  abbrev pub count_received : List Bool → ℕ
  count_received [] = 0
  count_received (true ∷ picks) = suc (count_received picks)
  count_received (false ∷ picks) = count_received picks

  finished_stays :
      (picks : List Bool) (b : EventBatcher Q W E) → b.finished ≡ true → rounds picks b ≡ b
  unfolding rounds run_batcher
  finished_stays [] b over = refl
  finished_stays (true ∷ picks) b over =
      let opened = on_recv publisher b (channel.recv b.receiver) in
      let idle : receive channel publisher b ≡ b =
        ap (λ (c : Bool). if c || not (channel.ready b.receiver) then b else opened) over in
      ap (rounds picks) idle ∙ finished_stays picks b over
  finished_stays (false ∷ picks) b over =
      let idle : tick publisher b ≡ b =
        ap (λ (c : Bool). if c then b else on_timer publisher b) over in
      ap (rounds picks) idle ∙ finished_stays picks b over

  -- The end: everything is handed over.
  abbrev pub IsOver : EventBatcher Q W E → Type 0
  IsOver b = (b.finished ≡ true) × (b.batch ≡ []) × (contents b.receiver ≡ [])

  on_event-keeps :
      (event : E) (b : EventBatcher Q W E)
      → let b' = on_event publisher event b in
        (b'.finished ≡ b.finished) × (b'.receiver ≡ b.receiver)
  unfolding on_event
  on_event-keeps event b =
      let b' : EventBatcher Q W E = record b { batch = b.batch ++ (event ∷ []) } in
      let (taken, running, queue) = flush_batch-keeps publisher b' in
      if-holds (λ (q : EventBatcher Q W E). (q.finished ≡ b.finished) × (q.receiver ≡ b.receiver))
        (leb b'.batch_size (length b'.batch)) (running, queue) (refl, refl)

  on_closed-IsOver :
      (b : EventBatcher Q W E) → contents b.receiver ≡ [] → IsOver (on_closed publisher b)
  unfolding on_closed
  on_closed-IsOver b empty =
      let (taken, running, queue) = flush_batch-keeps publisher b in
      (refl, taken, ap contents queue ∙ empty)

  abbrev Advances : EventBatcher Q W E → EventBatcher Q W E → Type 0
  Advances b b' =
      IsOver b'
      ⊎ ((b'.finished ≡ false)
          × (gone b'.receiver ≡ true)
          × (suc (length (contents b'.receiver)) ≡ length (contents b.receiver)))

  -- One round when nobody can send any more: the task ends, or has one event less to receive.
  round_closes :
      (b : EventBatcher Q W E)
      → IsFifo channel publisher contents handed
      → Drains
      → b.finished ≡ false
      → gone b.receiver ≡ true
      → Advances b (receive channel publisher b)
  round_closes b f d running left =
      let (q, o) = channel.recv b.receiver in
      let ready = d.ready b.receiver left in
      let runs : (b.finished || not (channel.ready b.receiver)) ≡ false =
        ground (arith, running, ready) in
      let opened : receive channel publisher b ≡ on_recv publisher b (q, o) =
        ap (λ c. if c then b else on_recv publisher b (q, o)) runs in
      let b'' : EventBatcher Q W E = record b { receiver = q } in
      elim (Option-cases o) [
        | inl over ↦
            subst (Advances b) (sym (opened ∙ ap (λ o. on_recv publisher b (q, o)) over))
              (inl (on_closed-IsOver b'' (f.ends b.receiver ready over).1))
        | inr (event, got) ↦
            let (kept, queue) = on_event-keeps event b'' in
            let first = f.gives event b.receiver got in
            subst (Advances b) (sym (opened ∙ ap (λ o. on_recv publisher b (q, o)) got)) (
              inr (
                kept ∙ running,
                ap gone queue ∙ d.stays b.receiver left,
                ap (λ q. suc (length (contents q))) queue
                    ∙ sym (ap (λ (es : List E). length es) first),
              ))
      ]

  -- A round of the timer takes nothing from the queue and does not end the task.
  tick_keeps :
      (b : EventBatcher Q W E)
      → let b' = tick publisher b in (b'.finished ≡ b.finished) × (b'.receiver ≡ b.receiver)
  unfolding on_timer
  tick_keeps b =
      let (taken, running, queue) = flush_batch-keeps publisher b in
      let Kept : EventBatcher Q W E → Type 0 =
        λ b'. (b'.finished ≡ b.finished) × (b'.receiver ≡ b.receiver) in
      if-holds Kept b.finished (refl, refl)
        (if-holds Kept (not (is_empty b.batch)) (running, queue) (refl, refl))

  -- Rounds send nothing.
  accepted-rounds :
      (picks : List Bool) (b : EventBatcher Q W E)
      → accepted channel publisher contents handed (map round picks) b ≡ []
  unfolding accepted
  accepted-rounds [] b = refl
  accepted-rounds (true ∷ picks) b = accepted-rounds picks (receive channel publisher b)
  accepted-rounds (false ∷ picks) b = accepted-rounds picks (tick publisher b)

  rounds_close :
      (picks : List Bool) (b : EventBatcher Q W E)
      → IsFifo channel publisher contents handed
      → Drains
      → b.finished ≡ false
      → gone b.receiver ≡ true
      → length (contents b.receiver) < count_received picks
      → IsOver (rounds picks b)
  unfolding rounds run_batcher
  rounds_close [] b f d running left enough = absurd (omega (arith, enough))
  rounds_close (true ∷ picks) b f d running left enough = elim (round_closes b f d running left) [
    | inl over ↦ subst IsOver (sym (finished_stays picks (receive channel publisher b) over.0)) over
    | inr (running', left', fewer) ↦
        rounds_close picks (receive channel publisher b) f d running' left'
          (omega (arith, fewer, enough))
  ]
  rounds_close (false ∷ picks) b f d running left enough =
      let (same, queue) = tick_keeps b in
      rounds_close picks (tick publisher b) f d (same ∙ running) (ap gone queue ∙ left)
        (subst (λ q. length (contents q) < count_received picks) (sym queue) enough)

  -- Once every sender has been dropped, the task ends when it has run often enough: if the channel wins more of its rounds
  -- than there are events in the queue, however many the timer wins in between, then the task is over and the publisher
  -- has been handed every event that was in the batch or in the queue, in order. (Whether the process lets the task run
  -- so long is not the task's.)
  -- Conditions: the task still runs, the channel is a queue whose `recv` does not wait once the senders are gone, and the
  -- publisher's record grows by what it is handed.
  pub shutdown_publishes :
      (picks : List Bool) (b : EventBatcher Q W E)
      → IsFifo channel publisher contents handed
      → Records channel publisher contents handed
      → Drains
      → b.finished ≡ false
      → gone b.receiver ≡ true
      → length (contents b.receiver) < count_received picks
      → let b' = rounds picks b in
        (b'.finished ≡ true)
        × (handed b'.publisher ≡ handed b.publisher ++ (b.batch ++ contents b.receiver))
  unfolding rounds
  shutdown_publishes picks b f p d running left enough =
      let b' = rounds picks b in
      let (over, no_batch, no_queue) = rounds_close picks b f d running left enough in
      let kept = run_batcher-log channel publisher contents handed (map round picks) b f p in
      (
        over,
        sym (append-nil (handed b'.publisher))
            ∙ sym (
                ap (λ es. handed b'.publisher ++ (es ++ contents b'.receiver)) no_batch
                ∙ ap (λ es. handed b'.publisher ++ es) no_queue)
            ∙ kept
            ∙ ap (λ es. handed b.publisher ++ (b.batch ++ contents b.receiver) ++ es)
                (accepted-rounds picks b)
            ∙ append-nil (handed b.publisher ++ (b.batch ++ contents b.receiver)),
      )
