-- ===== src/Proxy/EventBatcher/Tests.antt =====
-- A channel of two places and a publisher that keeps what it gets: runs, and an instance of each result.
use scry_proxy.Base.{
  ℕ, ◌≡◌, refl, Bool, true, false, not, Option, none, some, List, [], ◌∷◌, ◌++◌, arith, length, leb,
  if◌then◌else◌, Bool-cases, inl, inr,
}
use scry_proxy.Proxy.EventBatcher.{
  TrySend, queued, full, Channel, EventPublisher, EventBatcher, get_metrics, Occurrence, send,
  received, run_batcher,
}
use scry_proxy.Proxy.EventBatcher.Refinement.{IsFifo, Records, log, accepted, run_batcher-log}
use scry_proxy.Proxy.EventBatcher.Closing.{Drains, rounds, shutdown_publishes}

-- The events in the channel, and whether there are senders.
abbrev State : Type 0
State = List ℕ × Bool

abbrev two_try_send : ℕ → State → State × TrySend
two_try_send e (es, alive) =
    if leb 2 (length es) then ((es, alive), full) else ((es ++ e ∷ [], alive), queued)

abbrev two_ready : State → Bool
two_ready ([], alive) = not alive
two_ready (e ∷ es, alive) = true

abbrev two_recv : State → State × Option ℕ
two_recv ([], alive) = (([], alive), none)
two_recv (e ∷ es, alive) = ((es, alive), some e)

abbrev two : Channel State ℕ
two = record { try_send = two_try_send; ready = two_ready; recv = two_recv }

abbrev kept : EventPublisher (List ℕ) ℕ
kept = record {
  publish_batch = λ (es : List ℕ) (w : List ℕ). (w ++ es, true);
  shutdown = λ (w : List ℕ). (w, true);
}

abbrev contents : State → List ℕ
contents s = s.0

abbrev handed : List ℕ → List ℕ
handed w = w

abbrev gone : State → Bool
gone s = not s.1

two_queues :
    (e : ℕ) (q : State)
    → (two_try_send e q).1 ≡ queued
    → contents (two_try_send e q).0 ≡ contents q ++ (e ∷ [])
two_queues e (es, alive) put = elim (Bool-cases (leb 2 (length es))) [
  | inl no_place ↦ ground (arith, no_place, put)
  | inr place ↦ rw place refl
]

two_refuses :
    (e : ℕ) (q : State)
    → ¬ ((two_try_send e q).1 ≡ queued)
    → contents (two_try_send e q).0 ≡ contents q
two_refuses e (es, alive) left = elim (Bool-cases (leb 2 (length es))) [
  | inl no_place ↦ rw no_place refl
  | inr place ↦ ground (arith, place, left)
]

two_gives : (e : ℕ) (q : State) → (two_recv q).1 ≡ some e → contents q ≡ e ∷ contents (two_recv q).0
two_gives e ([], alive) got = cc
two_gives e (x ∷ es, alive) got = cc

two_ends :
    (q : State)
    → two_ready q ≡ true
    → (two_recv q).1 ≡ none
    → (contents q ≡ []) × (contents (two_recv q).0 ≡ [])
two_ends ([], alive) ready over = (refl, refl)
two_ends (x ∷ es, alive) ready over = cc

two-IsFifo : IsFifo two kept contents handed
two-IsFifo = record {
  queues = two_queues;
  refuses = two_refuses;
  gives = two_gives;
  ends = two_ends;
}

kept-Records : Records two kept contents handed
kept-Records = record { by_publish = λ es w. refl; by_shutdown = λ w. refl }

two_drains : (q : State) → gone q ≡ true → two_ready q ≡ true
two_drains ([], alive) left = left
two_drains (x ∷ es, alive) left = refl

two_stays : (q : State) → gone q ≡ true → gone (two_recv q).0 ≡ true
two_stays ([], alive) left = left
two_stays (x ∷ es, alive) left = left

two-Drains : Drains two kept contents handed gone
two-Drains = record { ready = two_drains; stays = two_stays }

abbrev started : State → EventBatcher State (List ℕ) ℕ
started q = record {
  receiver = q;
  publisher = [];
  batch = [];
  batch_size = 2;
  events_sent = 0;
  events_dropped = 0;
  finished = false;
}

abbrev traffic : List (Occurrence ℕ)
traffic = send 1 ∷ send 2 ∷ send 3 ∷ received ∷ received ∷ send 4 ∷ received ∷ []

-- Event 3 meets a full queue and is dropped: the newest goes, and the oldest stays.
drop_run :
    let b = run_batcher two kept traffic (started ([], true)) in
    (b.publisher ≡ 1 ∷ 2 ∷ []) × (b.batch ≡ 4 ∷ []) × (get_metrics b ≡ (3, 1))
unfolding run_batcher get_metrics
drop_run = (refl, refl, refl)

run_batcher-log_example :
    log two kept contents handed (run_batcher two kept traffic (started ([], true)))
    ≡ [] ++ accepted two kept contents handed traffic (started ([], true))
run_batcher-log_example =
    run_batcher-log two kept contents handed traffic (started ([], true)) two-IsFifo kept-Records

shutdown_publishes_example :
    let b' =
      rounds two kept contents handed gone
        (true ∷ false ∷ true ∷ true ∷ [])
        (started (7 ∷ 8 ∷ [], false)) in
    (b'.finished ≡ true) × (handed b'.publisher ≡ 7 ∷ 8 ∷ [])
shutdown_publishes_example =
    shutdown_publishes two kept contents handed gone (true ∷ false ∷ true ∷ true ∷ [])
      (started (7 ∷ 8 ∷ [], false)) two-IsFifo kept-Records two-Drains refl refl (omega arith)
