-- ===== src/SizedQueue/Monitor.antt =====
-- The monitor of src/sized_queue.cc with its two threads, one that pushes vectors and one that
-- pops. Each call is cut where it waits: `start` runs from taking the lock to the wait or to the
-- return, `resume` from the end of the wait to the return. A thread that waits is woken by
-- `notify_one`; with `spurious` it may also wake by itself, as boost allows.
pub mod Segments
pub mod Safety
pub mod Faults
use zbroker.Base.{
  ℕ, ◌≡◌, ◌≢◌, Bool, true, false, List, [], ◌∷◌, ◌++◌, reverse, leb, ◌==◌, if◌then◌else◌, ok, err,
}
use zbroker.SizedQueue.{Queue, size, take_front, fill_from}

-- The pushing thread between calls, with what its last call left; in the wait; and woken.
pub data Producer (A : Type 0) : Type 0 where
  resting waits woken : List A → Producer A

pub data Consumer : Type 0 where
  resting waits woken : Consumer

-- `popped` has what the calls of `pop` returned, and `offered` each batch that was handed to
-- `push`, backwards; `failed` says that `front` was called on an empty deque.
pub record State (A : Type 0) : Type 0 where
  pub queue : Queue A
  pub producer : Producer A
  pub consumer : Consumer
  pub popped : List A
  pub offered : List A
  pub failed : Bool

abbrev pub wake_consumer : Consumer → Consumer
wake_consumer Consumer.waits = Consumer.woken
wake_consumer c = c

module _ {A : Type 0} where
  abbrev pub wake_producer : Producer A → Producer A
  wake_producer (Producer.waits items) = Producer.woken items
  wake_producer p = p

  -- `m_cond_can_pop.notify_one()` and `m_cond_can_push.notify_one()`
  abbrev pub notify_pop : State A → State A
  notify_pop s = record s { consumer = wake_consumer s.consumer }

  abbrev pub notify_push : State A → State A
  notify_push s = record s { producer = wake_producer s.producer }

  unfoldable pub push_end : List A → State A → State A
  push_end items s =
      let (queue, rest, _) = fill_from items s.queue in
      notify_pop (record s { queue = queue; producer = Producer.resting rest })

  unfoldable pub push_start : List A → State A → State A
  push_start items s =
      if leb s.queue.limit_size (size s.queue)
      then (let woken = notify_pop s in record woken { producer = Producer.waits items })
      else push_end items s

  unfoldable pub pop_end : State A → State A
  pop_end s =
      let (queue, item) = take_front s.queue in
      elim item [
        | ok x ↦
            notify_push
              (record s { queue = queue; consumer = Consumer.resting; popped = s.popped ++ x ∷ [] })
        | err e ↦ record s { queue = queue; consumer = Consumer.resting; failed = true }
      ]

  unfoldable pub pop_start : State A → State A
  pop_start s =
      if size s.queue == 0
      then (let woken = notify_push s in record woken { consumer = Consumer.waits })
      else pop_end s

-- One segment of either thread. The pushing thread hands over a batch with something in it, and
-- calls `push` again with what was left, as the loops of `broker::read` and of `do_write` do.
pub data Step {A : Type 0} (spurious : Bool) (s : State A) : State A → Type 0 where
  push_new :
      (items : List A)
      → s.producer ≡ Producer.resting []
      → items ≢ []
      → Step spurious s (push_start items (record s { offered = s.offered ++ reverse items }))
  push_again :
      (items : List A)
      → s.producer ≡ Producer.resting items
      → items ≢ []
      → Step spurious s (push_start items s)
  push_resumes :
      (items : List A) → s.producer ≡ Producer.woken items → Step spurious s (push_end items s)
  push_times_out :
      (items : List A)
      → s.producer ≡ Producer.waits items
      → Step spurious s (record s { producer = Producer.resting items })
  pop_starts : s.consumer ≡ Consumer.resting → Step spurious s (pop_start s)
  pop_resumes : s.consumer ≡ Consumer.woken → Step spurious s (pop_end s)
  pop_times_out :
      s.consumer ≡ Consumer.waits → Step spurious s (record s { consumer = Consumer.resting })
  consumer_wakes :
      spurious ≡ true
      → s.consumer ≡ Consumer.waits
      → Step spurious s (record s { consumer = Consumer.woken })
  producer_wakes :
      (items : List A)
      → spurious ≡ true
      → s.producer ≡ Producer.waits items
      → Step spurious s (record s { producer = Producer.woken items })

abbrev pub initial : {A : Type 0} → ℕ → State A
initial limit = record {
  queue = record { limit_size = limit; items = [] };
  producer = Producer.resting [];
  consumer = Consumer.resting;
  popped = [];
  offered = [];
  failed = false;
}

-- What the two threads can reach from a queue that is empty.
pub data Reach {A : Type 0} (spurious : Bool) (limit : ℕ) : State A → Type 0 where
  start : Reach spurious limit (initial limit)
  next : {s t : State A} → Reach spurious limit s → Step spurious s t → Reach spurious limit t
