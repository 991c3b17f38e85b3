-- ===== src/Proxy/WaitQueue.antt =====
-- scry-proxy/src/proxy/wait_queue.rs. A waiter's oneshot channel is a number; `waiters` are the senders in the
-- queue, `receivers` the channels whose `Waiter` has not been dropped, `notified` those that hold a
-- message. `enqueue` and `notify_one` run under the lock, so each is one step.
pub mod Invariant
mod Tests
use scry_proxy.Base.{
  ℕ, suc, ◌+◌, Bool, true, false, Option, none, some, List, [], ◌∷◌, ◌++◌, length, leb,
  if◌then◌else◌, inc64, dec64, has, without, nat_eq,
}

pub record WaitQueue : Type 0 where
  pub max_depth : ℕ
  pub depth : ℕ
  pub waiters : List ℕ
  pub receivers : List ℕ
  pub notified : List ℕ
  pub next_channel : ℕ

pub new : ℕ → WaitQueue
new max_depth = record {
  max_depth = max_depth;
  depth = 0;
  waiters = [];
  receivers = [];
  notified = [];
  next_channel = 0;
}

-- The new waiter's channel, or `none` for `QueueFullError`.
pub enqueue : WaitQueue → WaitQueue × Option ℕ
enqueue q = if leb q.max_depth (length q.waiters) then (q, none) else (
  record q {
    waiters = q.waiters ++ q.next_channel ∷ [];
    depth = inc64 q.depth;
    receivers = q.next_channel ∷ q.receivers;
    next_channel = suc q.next_channel;
  },
  some q.next_channel,
)

-- `tx.send(())`: the message is lost if the receiver is gone.
pub send : ℕ → WaitQueue → WaitQueue
send channel q = if has channel q.receivers then record q { notified = channel ∷ q.notified } else q

pub notify_one : WaitQueue → WaitQueue
unfolding send
notify_one q = elim q.waiters [
  | [] ↦ q
  | channel ∷ rest ↦ send channel (record q { waiters = rest })
]

-- `Drop for Waiter`: its receiver goes, and the sender in the queue stays.
pub drop_waiter : ℕ → WaitQueue → WaitQueue
drop_waiter channel q = record q { depth = dec64 q.depth; receivers = without channel q.receivers }

-- `wait` returns at once where this holds.
pub is_notified : ℕ → WaitQueue → Bool
is_notified channel q = has channel q.notified
