-- ===== src/SizedQueue/Monitor/Segments.antt =====
-- The invariant of the two threads of a queue, and the segments that keep it.
use zbroker.Base.{
  ◌==◌, length-append, length-reverse, inr, append_assoc, ne-nil_pos, leb, ◌∙◌, Bool-cases, ap, inl,
  ℕ, ◌≤◌, ◌<◌, ◌≡◌, ◌≢◌, refl, false, List, [], ◌∷◌, ◌++◌, reverse, length, arith,
}
use zbroker.SizedQueue.{Queue, fill_from, take_front, size}
use zbroker.SizedQueue.Push.{Pushed, fill_from-Pushed}
use zbroker.SizedQueue.Monitor.{
  wake_consumer, wake_producer, Producer, Consumer, State, push_end, push_start, pop_end, pop_start,
}

-- What is still to be pushed of the last batch.
abbrev pub pending : {A : Type 0} → Producer A → List A
pending (Producer.resting items) = items
pending (Producer.waits items) = items
pending (Producer.woken items) = items

-- A thread waits only while it could not go on, and is woken only when it can.
abbrev pub ProducerFits : {A : Type 0} → ℕ → ℕ → Producer A → Type 0
ProducerFits limit n (Producer.resting items) = Unit {0}
ProducerFits limit n (Producer.waits items) = (limit ≤ n) × (items ≢ [])
ProducerFits limit n (Producer.woken items) = (n < limit) × (items ≢ [])

abbrev pub ConsumerFits : ℕ → Consumer → Type 0
ConsumerFits n Consumer.resting = Unit {0}
ConsumerFits n Consumer.waits = n ≡ 0
ConsumerFits n Consumer.woken = 0 < n

pub record Inv {A : Type 0} (limit : ℕ) (s : State A) : Type 0 where
  pub limited : s.queue.limit_size ≡ limit
  pub bounded : length s.queue.items ≤ limit
  pub in_order : s.popped ++ (s.queue.items ++ reverse (pending s.producer)) ≡ s.offered
  pub safe : s.failed ≡ false
  pub producer_fits : ProducerFits limit (length s.queue.items) s.producer
  pub consumer_fits : ConsumerFits (length s.queue.items) s.consumer

ConsumerFits-wake_consumer : (n : ℕ) (c : Consumer) → 0 < n → ConsumerFits n (wake_consumer c)
ConsumerFits-wake_consumer n Consumer.waits h = h
ConsumerFits-wake_consumer n Consumer.resting h = tt
ConsumerFits-wake_consumer n Consumer.woken h = h

ProducerFits-wake_producer :
    {A : Type 0} (limit m n : ℕ) (p : Producer A)
    → m < limit
    → ProducerFits limit n p
    → ProducerFits limit m (wake_producer p)
ProducerFits-wake_producer limit m n (Producer.resting items) h f = tt
ProducerFits-wake_producer limit m n (Producer.waits items) h f = (h, f.1)
ProducerFits-wake_producer limit m n (Producer.woken items) h f = (h, f.1)

pending-wake_producer : {A : Type 0} (p : Producer A) → pending (wake_producer p) ≡ pending p
pending-wake_producer (Producer.resting items) = refl
pending-wake_producer (Producer.waits items) = refl
pending-wake_producer (Producer.woken items) = refl

-- A push into a queue with room leaves something in it.
Pushed_pos :
    {A : Type 0} (q : Queue A) (items : List A)
    → 0 < q.limit_size
    → items ≢ []
    → 0 < length (fill_from items q).0.items
Pushed_pos q items positive h = elim (p.filled) [
  | inl all ↦ omega (
    arith,
    ne-nil_pos items h,
    ap length p.conserved,
    ap length all,
    length-reverse (fill_from items q).1,
    length-reverse items,
    length-append (fill_from items q).0.items (reverse (fill_from items q).1),
    length-append q.items (reverse items),
  )
  | inr full ↦ omega arith
]
  where
    p : Pushed q items (fill_from items q)
    p = fill_from-Pushed items q

module _ {A : Type 0} {limit : ℕ} (positive : 0 < limit) where
  pub push_end-Inv :
      (s : State A) (items : List A)
      → Inv limit (record s { producer = Producer.woken items })
      → Inv limit (push_end items s)
  unfolding push_end
  push_end-Inv s items v = record {
    limited = p.same_limit ∙ v.limited;
    bounded = omega (arith, p.bounded, v.bounded, v.limited);
    in_order = ap (λ xs. s.popped ++ xs) p.conserved ∙ v.in_order;
    safe = v.safe;
    producer_fits = tt;
    consumer_fits =
        ConsumerFits-wake_consumer _ s.consumer
          (Pushed_pos s.queue items (rw v.limited positive) v.producer_fits.1);
  }
    where
      p : Pushed s.queue items (fill_from items s.queue)
      p = fill_from-Pushed items s.queue

  pub pop_end-Inv :
      (s : State A) (items : List A)
      → s.queue.items ≡ items
      → Inv limit (record s { consumer = Consumer.woken })
      → Inv limit (pop_end s)
  unfolding pop_end take_front
  pop_end-Inv s [] e v = absurd (omega (arith, ap length e, v.consumer_fits))
  pop_end-Inv s (x ∷ rest) e v = rw e (record {
    limited = v.limited;
    bounded = omega (arith, ap length e, v.bounded);
    in_order =
        rw (pending-wake_producer s.producer, append_assoc s.popped (x ∷ [])) (rw e at v.in_order);
    safe = v.safe;
    producer_fits =
        ProducerFits-wake_producer limit (length rest) (length s.queue.items) s.producer
          (omega (arith, ap length e, v.bounded)) v.producer_fits;
    consumer_fits = tt;
  })

  pub push_start-Inv :
      (s : State A) (items : List A)
      → Inv limit (record s { producer = Producer.resting items })
      → items ≢ []
      → Inv limit (push_start items s)
  unfolding push_start size
  push_start-Inv s items v h = elim (Bool-cases (leb s.queue.limit_size (length s.queue.items))) [
    | inl full ↦ rw full (record {
      limited = v.limited;
      bounded = v.bounded;
      in_order = v.in_order;
      safe = v.safe;
      producer_fits = (ground (arith, v.limited), h);
      consumer_fits = ConsumerFits-wake_consumer _ s.consumer (ground (arith, v.limited));
    })
    | inr room ↦ rw room (
        push_end-Inv s items (record {
          limited = v.limited;
          bounded = v.bounded;
          in_order = v.in_order;
          safe = v.safe;
          producer_fits = (ground (arith, v.limited), h);
          consumer_fits = v.consumer_fits;
        }))
  ]

  pub pop_start-Inv :
      (s : State A) → Inv limit (record s { consumer = Consumer.resting }) → Inv limit (pop_start s)
  unfolding pop_start size
  pop_start-Inv s v = elim (Bool-cases (length s.queue.items == 0)) [
    | inl empty ↦ rw empty (record {
      limited = v.limited;
      bounded = v.bounded;
      in_order = rw (pending-wake_producer s.producer) v.in_order;
      safe = v.safe;
      producer_fits =
          ProducerFits-wake_producer limit _ _ s.producer (ground arith) v.producer_fits;
      consumer_fits = ground arith;
    })
    | inr some_there ↦ rw some_there (
        pop_end-Inv s s.queue.items refl (record {
          limited = v.limited;
          bounded = v.bounded;
          in_order = v.in_order;
          safe = v.safe;
          producer_fits = v.producer_fits;
          consumer_fits = ground arith;
        }))
  ]
