-- ===== src/SizedQueue/Monitor/Safety.antt =====
-- What holds in every state that the two threads of a queue reach.
use zbroker.Base.{
  sym, append-nil, append_assoc, ℕ, ◌≤◌, ◌<◌, ◌≡◌, ◌≢◌, refl, false, List, [], ◌++◌, reverse,
  length, arith,
}
use zbroker.SizedQueue.Monitor.{initial, Producer, Consumer, State, Step, Reach}
use zbroker.SizedQueue.Monitor.Segments.{
  pop_end-Inv, pop_start-Inv, push_end-Inv, push_start-Inv, pending, Inv,
}

module _ {A : Type 0} {limit : ℕ} (positive : 0 < limit) where
  as_producer :
      {s : State A} {p : Producer A}
      → s.producer ≡ p
      → Inv limit s
      → Inv limit (record s { producer = p })
  as_producer e v = rw (← e) v

  as_consumer :
      {s : State A} {c : Consumer}
      → s.consumer ≡ c
      → Inv limit s
      → Inv limit (record s { consumer = c })
  as_consumer e v = rw (← e) v

  offer-Inv :
      (s : State A) (items : List A)
      → Inv limit (record s { producer = Producer.resting [] })
      → Inv limit
          (record s { offered = s.offered ++ reverse items; producer = Producer.resting items })
  offer-Inv s items v = record {
    limited = v.limited;
    bounded = v.bounded;
    in_order =
        rw (← v.in_order, append-nil s.queue.items)
          (sym (append_assoc s.popped s.queue.items (reverse items)));
    safe = v.safe;
    producer_fits = tt;
    consumer_fits = v.consumer_fits;
  }

  -- Every segment keeps the invariant, if no thread wakes by itself.
  Step-Inv : {s t : State A} → Inv limit s → Step false s t → Inv limit t
  Step-Inv {s} v (Step.push_new items e h) =
      push_start-Inv positive _ items (offer-Inv s items (as_producer e v)) h
  Step-Inv {s} v (Step.push_again items e h) = push_start-Inv positive s items (as_producer e v) h
  Step-Inv {s} v (Step.push_resumes items e) = push_end-Inv positive s items (as_producer e v)
  Step-Inv {s} v (Step.push_times_out items e) =
      let w = as_producer e v in
      record {
        limited = v.limited;
        bounded = v.bounded;
        in_order = w.in_order;
        safe = v.safe;
        producer_fits = tt;
        consumer_fits = v.consumer_fits;
      }
  Step-Inv {s} v (Step.pop_starts e) = pop_start-Inv positive s (as_consumer e v)
  Step-Inv {s} v (Step.pop_resumes e) = pop_end-Inv positive s s.queue.items refl (as_consumer e v)
  Step-Inv {s} v (Step.pop_times_out e) = record {
    limited = v.limited;
    bounded = v.bounded;
    in_order = v.in_order;
    safe = v.safe;
    producer_fits = v.producer_fits;
    consumer_fits = tt;
  }
  Step-Inv {s} v (Step.consumer_wakes a e) = cc
  Step-Inv {s} v (Step.producer_wakes items a e) = cc

  initial-Inv : Inv {A = A} limit (initial limit)
  initial-Inv = record {
    limited = refl;
    bounded = omega arith;
    in_order = refl;
    safe = refl;
    producer_fits = tt;
    consumer_fits = tt;
  }

  Reach-Inv : {s : State A} → Reach false limit s → Inv limit s
  Reach-Inv Reach.start = initial-Inv
  Reach-Inv (Reach.next r st) = Step-Inv (Reach-Inv r) st

-- With a positive limit and no thread that wakes by itself: `front` is never called on an empty
-- deque, the queue never holds more than its limit, and what `pop` has returned, followed by the
-- queue and by the rest of the batch backwards, spells the batches that were offered, each
-- backwards.
pub Reach-safe :
    {A : Type 0} (limit : ℕ) (s : State A)
    → 0 < limit
    → Reach false limit s
    → (s.failed ≡ false)
      × (length s.queue.items ≤ limit)
      × (s.popped ++ (s.queue.items ++ reverse (pending s.producer)) ≡ s.offered)
Reach-safe limit s positive r = let v = Reach-Inv positive r in (v.safe, v.bounded, v.in_order)

-- With a positive limit and no thread that wakes by itself, the two threads never wait at once.
pub Reach-no_deadlock :
    {A : Type 0} (limit : ℕ) (s : State A) (items : List A)
    → 0 < limit
    → Reach false limit s
    → s.producer ≡ Producer.waits items
    → s.consumer ≢ Consumer.waits
Reach-no_deadlock limit s items positive r e c =
    let v = as_consumer positive c (as_producer positive e (Reach-Inv positive r)) in
    absurd (omega (arith, v.producer_fits.0, v.consumer_fits))
