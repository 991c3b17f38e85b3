-- ===== src/Proxy/WaitQueue/Tests.antt =====
-- A queue with two places: an instance of each result.
use scry_proxy.Base.{refl, [], ◌∷◌, arith, nat_eq}
use scry_proxy.Proxy.WaitQueue.{WaitQueue, new, enqueue, notify_one}
use scry_proxy.Proxy.WaitQueue.Invariant.{
  enqueued, notified_one, IsValid, here, next, reachable-IsValid,
}

-- Two waiters, none of them dropped.
abbrev two_waiters : WaitQueue
two_waiters = record {
  max_depth = 2;
  depth = 2;
  waiters = 0 ∷ 1 ∷ [];
  receivers = 1 ∷ 0 ∷ [];
  notified = [];
  next_channel = 2;
}

two_waiters-IsValid : IsValid two_waiters
two_waiters-IsValid = record {
  bounded = omega arith;
  counted = refl;
  small = omega arith;
  distinct = (refl, (refl, tt));
  fresh = (omega arith, (omega arith, tt));
}

reachable-IsValid_example : IsValid (notify_one (enqueue (enqueue (new 2)).0).0)
unfolding new enqueue notify_one
reachable-IsValid_example = reachable-IsValid 2 (
    next
      (next (next here (enqueued (new 2) (omega arith)))
        (enqueued (enqueue (new 2)).0 (omega arith)))
      (notified_one (enqueue (enqueue (new 2)).0).0))
