-- ===== src/Proxy/EventBatcher.antt =====
-- scry-proxy/src/proxy/event_batcher.rs: the bounded queue of query events and the task that batches and publishes them.
-- tokio's channel and the publisher are parameters, with states `Q` and `W`; `select!` is the choice between the two
-- rounds of the loop.
pub mod Refinement
pub mod Closing
mod Tests
use scry_proxy.Base.{
  ℕ, suc, ◌+◌, Bool, true, false, not, Option, none, some, List, [], ◌∷◌, ◌++◌, length, leb,
  if◌then◌else◌, inc64, Result, ok, err, is_empty, ◌||◌,
}

-- The three answers of `try_send`.
pub data TrySend : Type 0 where
  queued full closed_channel : TrySend

-- The channel: `ready` is that a call of `recv` does not wait.
pub record Channel (Q E : Type 0) : Type 0 where
  pub try_send : E → Q → Q × TrySend
  pub ready : Q → Bool
  pub recv : Q → Q × Option E

-- The publisher's calls, and whether they succeed.
pub record EventPublisher (W E : Type 0) : Type 0 where
  pub publish_batch : List E → W → W × Bool
  pub shutdown : W → W × Bool

-- The handle with its metrics, and the task with the batch it collects.
pub record EventBatcher (Q W E : Type 0) : Type 0 where
  pub receiver : Q
  pub publisher : W
  pub batch : List E
  pub batch_size : ℕ
  pub events_sent : ℕ
  pub events_dropped : ℕ
  pub finished : Bool

pub data SendError : Type 0 where
  channel_closed : SendError

module _ {Q W E : Type 0} where
  abbrev pub after_send :
      EventBatcher Q W E → Q × TrySend → EventBatcher Q W E × Result Bool SendError
  after_send b (q, queued) = (record b { receiver = q; events_sent = inc64 b.events_sent }, ok true)
  after_send b (q, full) =
      (record b { receiver = q; events_dropped = inc64 b.events_dropped }, ok false)
  after_send b (q, closed_channel) = (record b { receiver = q }, err channel_closed)

  pub send_event : Channel Q E → E → EventBatcher Q W E → EventBatcher Q W E × Result Bool SendError
  send_event channel event b = after_send b (channel.try_send event b.receiver)

  pub get_metrics : EventBatcher Q W E → ℕ × ℕ
  get_metrics b = (b.events_sent, b.events_dropped)

  -- An error of the publisher is logged, and the events are gone.
  pub flush_batch : EventPublisher W E → EventBatcher Q W E → EventBatcher Q W E
  flush_batch publisher b =
      if is_empty b.batch
      then b
      else record b { batch = []; publisher = (publisher.publish_batch b.batch b.publisher).0 }

  -- The loop's rounds: an event, the end of the channel, the timer.
  pub on_event : EventPublisher W E → E → EventBatcher Q W E → EventBatcher Q W E
  unfolding flush_batch
  on_event publisher event b =
      let b' = record b { batch = b.batch ++ event ∷ [] } in
      if leb b'.batch_size (length b'.batch) then flush_batch publisher b' else b'

  pub on_closed : EventPublisher W E → EventBatcher Q W E → EventBatcher Q W E
  unfolding flush_batch
  on_closed publisher b =
      let b' = flush_batch publisher b in
      record b' { publisher = (publisher.shutdown b'.publisher).0; finished = true }

  pub on_timer : EventPublisher W E → EventBatcher Q W E → EventBatcher Q W E
  unfolding flush_batch
  on_timer publisher b = if not (is_empty b.batch) then flush_batch publisher b else b

  abbrev pub on_recv : EventPublisher W E → EventBatcher Q W E → Q × Option E → EventBatcher Q W E
  on_recv publisher b (q, some event) = on_event publisher event (record b { receiver = q })
  on_recv publisher b (q, none) = on_closed publisher (record b { receiver = q })

-- What happens to the batcher: a call of `send_event`, or a round of the task's loop.
pub data Occurrence (E : Type 0) : Type 0 where
  send : E → Occurrence E
  received : Occurrence E
  ticked : Occurrence E

module _ {Q W E : Type 0} where
  abbrev pub receive : Channel Q E → EventPublisher W E → EventBatcher Q W E → EventBatcher Q W E
  receive channel publisher b =
      if b.finished || not (channel.ready b.receiver)
      then b
      else on_recv publisher b (channel.recv b.receiver)

  abbrev pub tick : EventPublisher W E → EventBatcher Q W E → EventBatcher Q W E
  tick publisher b = if b.finished then b else on_timer publisher b

  pub run_batcher :
      Channel Q E
      → EventPublisher W E
      → List (Occurrence E)
      → EventBatcher Q W E
      → EventBatcher Q W E
  unfolding send_event on_event on_closed on_timer
  run_batcher channel publisher [] b = b
  run_batcher channel publisher (send event ∷ rest) b =
      run_batcher channel publisher rest (send_event channel event b).0
  run_batcher channel publisher (received ∷ rest) b =
      run_batcher channel publisher rest (receive channel publisher b)
  run_batcher channel publisher (ticked ∷ rest) b =
      run_batcher channel publisher rest (tick publisher b)
