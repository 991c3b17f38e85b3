-- ===== src/Proxy/WaitQueue/Invariant.antt =====
-- The bounds of the queue, and who is woken.
use scry_proxy.Base.{
  ℕ, suc, ◌+◌, ◌≤◌, ◌<◌, ◌≡◌, refl, ap, leb, Bool-cases, inl, inr, sym, subst, true, false, none,
  List, [], ◌∷◌, length, length-append, arith, u64_mod, has, without, Distinct, length-without,
  without-Distinct, has-without, All, nat_eq, zero, take, drop, ◌||◌,
}
use scry_proxy.Proxy.WaitQueue.{WaitQueue, new, enqueue, notify_one, drop_waiter, is_notified}

-- One call; a waiter is dropped once, so `dropped` names a live one.
pub data Step : WaitQueue → WaitQueue → Type 0 where
  enqueued : (q : WaitQueue) → length q.receivers + 1 < u64_mod → Step q (enqueue q).0
  notified_one : (q : WaitQueue) → Step q (notify_one q)
  dropped :
      (q : WaitQueue) (channel : ℕ)
      → has channel q.receivers ≡ true
      → Step q (drop_waiter channel q)

pub record IsValid (q : WaitQueue) : Type 0 where
  pub bounded : length q.waiters ≤ q.max_depth
  pub counted : q.depth ≡ length q.receivers
  pub small : length q.receivers < u64_mod
  pub distinct : Distinct q.receivers
  pub fresh : All (λ c. c < q.next_channel) q.receivers

pub new-IsValid : (n : ℕ) → IsValid (new n)
unfolding new
new-IsValid n = ground arith

Below-mono : (n : ℕ) (cs : List ℕ) → All (λ c. c < n) cs → All (λ c. c < suc n) cs
Below-mono n [] h = tt
Below-mono n (c ∷ cs) h = (omega arith, Below-mono n cs h.1)

Below-without : (k n : ℕ) (cs : List ℕ) → All (λ c. c < n) cs → All (λ c. c < n) (without k cs)
Below-without k n [] h = tt
Below-without k n (c ∷ cs) h = ground (arith, Below-without k n cs h.1)

not_below : (n : ℕ) (cs : List ℕ) → All (λ c. c < n) cs → has n cs ≡ false
not_below n [] h = refl
not_below n (c ∷ cs) h = ground (arith, not_below n cs h.1)

enqueue-IsValid :
    (q : WaitQueue) → length q.receivers + 1 < u64_mod → IsValid q → IsValid (enqueue q).0
unfolding enqueue
enqueue-IsValid q room v = elim (Bool-cases (leb q.max_depth (length q.waiters))) [
  | inl full ↦ rw full v
  | inr free ↦ rw free (record {
    bounded = ground (arith, free, length-append q.waiters (q.next_channel ∷ []));
    counted = ground (arith, v.counted);
    small = omega arith;
    distinct = (not_below q.next_channel q.receivers v.fresh, v.distinct);
    fresh = (omega arith, Below-mono q.next_channel q.receivers v.fresh);
  })
]

notify_rest : (q : WaitQueue) (ws : List ℕ) → q.waiters ≡ ws → IsValid q → IsValid (notify_one q)
unfolding notify_one
notify_rest q [] e v = rw (e, notify_one) v
notify_rest q (c ∷ ws) e v = elim (Bool-cases (has c q.receivers)) [
  | inl live ↦ rw (e, notify_one, live) (shorter)
  | inr gone ↦ rw (e, notify_one, gone) (shorter)
]
  where
    fits : length ws ≤ q.max_depth
    fits = omega (arith, v.bounded, ap length e)

    shorter : {ns : List ℕ} → IsValid (record q { waiters = ws; notified = ns })
    shorter = record {
      bounded = fits;
      counted = v.counted;
      small = v.small;
      distinct = v.distinct;
      fresh = v.fresh;
    }

notify_one-IsValid : (q : WaitQueue) → IsValid q → IsValid (notify_one q)
notify_one-IsValid q v = notify_rest q q.waiters refl v

drop_waiter-IsValid :
    (q : WaitQueue) (channel : ℕ)
    → has channel q.receivers ≡ true
    → IsValid q
    → IsValid (drop_waiter channel q)
unfolding drop_waiter
drop_waiter-IsValid q channel live v = ground (
  arith,
  length-without channel q.receivers v.distinct live,
  without-Distinct channel q.receivers v.distinct,
  Below-without channel q.next_channel q.receivers v.fresh,
)

-- Every step keeps the queue within `max_depth`, and `depth` at the number of waiters that have not
-- been dropped.
pub Step-IsValid : {q r : WaitQueue} → Step q r → IsValid q → IsValid r
Step-IsValid (enqueued q room) v = enqueue-IsValid q room v
Step-IsValid (notified_one q) v = notify_one-IsValid q v
Step-IsValid (dropped q channel live) v = drop_waiter-IsValid q channel live v

pub data Reach (q : WaitQueue) : WaitQueue → Type 0 where
  here : Reach q q
  next : {r s : WaitQueue} → Reach q r → Step r s → Reach q s

Reach-IsValid : {q r : WaitQueue} → IsValid q → Reach q r → IsValid r
Reach-IsValid v here = v
Reach-IsValid v (next path step) = Step-IsValid step (Reach-IsValid v path)

-- In every queue that is reached from a new one, by enqueueing, notifying and dropping waiters in
-- any order, at most `max_depth` senders are queued and `depth` counts the waiters that have not
-- been dropped.
pub reachable-IsValid : (n : ℕ) {q : WaitQueue} → Reach (new n) q → IsValid q
reachable-IsValid n path = Reach-IsValid (new-IsValid n) path

-- `notify_one`, some number of times.
pub notify_times : ℕ → WaitQueue → WaitQueue
notify_times zero q = q
notify_times (suc n) q = notify_times n (notify_one q)

notify_one_first :
    (q : WaitQueue) (c : ℕ) (rest : List ℕ)
    → q.waiters ≡ c ∷ rest
    → has c q.receivers ≡ true
    → ((notify_one q).waiters ≡ rest)
      × ((notify_one q).notified ≡ c ∷ q.notified)
      × ((notify_one q).receivers ≡ q.receivers)
unfolding notify_one
notify_one_first q c rest e live = ground arith

abbrev pub AllLive : WaitQueue → List ℕ → Type 0
AllLive q cs = All (λ c. has c q.receivers ≡ true) cs

wake_order :
    (n : ℕ) (q : WaitQueue) (ws : List ℕ) (d : ℕ)
    → q.waiters ≡ ws
    → AllLive q ws
    → n ≤ length ws
    → ((notify_times n q).waiters ≡ drop n ws)
      × (is_notified d (notify_times n q) ≡ (has d (take n ws) || is_notified d q))
unfolding notify_times is_notified
wake_order zero q ws d e live h = (e, refl)
wake_order (suc n) q [] d e live h = elim h [ ]
wake_order (suc n) q (c ∷ ws) d e live h =
    let (left, woken, kept) = notify_one_first q c ws e live.0 in
    let (ih, ih') =
      wake_order n (notify_one q) ws d left
        (subst (λ rs. All (λ k. has k rs ≡ true) ws) (sym kept) live.1) (omega arith) in
    (ih, ground (arith, ih', woken))

-- First in, first out: if no queued waiter has been dropped, `n` notifications reach exactly the
-- first `n` of them, and leave the others in the queue in their order.
pub notify_times-first :
    (n : ℕ) (q : WaitQueue) (d : ℕ)
    → AllLive q q.waiters
    → n ≤ length q.waiters
    → ((notify_times n q).waiters ≡ drop n q.waiters)
      × (is_notified d (notify_times n q) ≡ (has d (take n q.waiters) || is_notified d q))
notify_times-first n q d live h = wake_order n q q.waiters d refl live h

-- The first waiter `c` gives up (its wait timed out) while another one `d` waits behind it: the next
-- notification is spent on `c`, nobody is woken, and `d` goes on waiting.
pub timeout_loses_notification :
    (q : WaitQueue) (c d : ℕ) (rest : List ℕ)
    → IsValid q
    → q.waiters ≡ c ∷ d ∷ rest
    → is_notified d q ≡ false
    → ((notify_one (drop_waiter c q)).notified ≡ q.notified)
      × ((notify_one (drop_waiter c q)).waiters ≡ d ∷ rest)
      × (is_notified d (notify_one (drop_waiter c q)) ≡ false)
unfolding notify_one drop_waiter is_notified
timeout_loses_notification q c d rest v e quiet = ground (arith, has-without c c q.receivers)

-- A queue whose places are all taken refuses a waiter also when one of the queued waiters has given up, though
-- `depth` is below `max_depth` then.
pub stale_waiter_blocks_enqueue :
    (q : WaitQueue) (c : ℕ)
    → IsValid q
    → length q.waiters ≡ q.max_depth
    → length q.receivers ≡ q.max_depth
    → has c q.receivers ≡ true
    → ((enqueue (drop_waiter c q)).1 ≡ none) × ((drop_waiter c q).depth < q.max_depth)
unfolding enqueue drop_waiter
stale_waiter_blocks_enqueue q c v full same live =
    ground (arith, length-without c q.receivers v.distinct live)
