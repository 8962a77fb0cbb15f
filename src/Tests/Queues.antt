-- ===== src/Tests/Queues.antt =====
-- The queue and its two threads, on small queues of numbers.
use zbroker.Base.{
  pos, ok, ℕ, ◌≡◌, ◌≢◌, ◌≤◌, refl, true, false, [], ◌∷◌, ◌++◌, reverse, length, arith,
}
use zbroker.SizedQueue.{Queue, PushTurn, push_all, size, fill_from, fill}
use zbroker.SizedQueue.Reference.{push_all-reference}
use zbroker.SizedQueue.Monitor.{
  State, Step, Reach, Producer, Consumer, push_start, push_end, initial,
}
use zbroker.SizedQueue.Monitor.Segments.{pending}
use zbroker.SizedQueue.Monitor.Safety.{Reach-safe, Reach-no_deadlock}
use zbroker.SizedQueue.Monitor.Faults.{empty_front_of_limit_zero, empty_front_of_spurious}

-- A queue of limit 2 with one item.
abbrev one_item : Queue ℕ
one_item = record { limit_size = 2; items = 7 ∷ [] }

abbrev one_taken : PushTurn
one_taken = record { taken = 0; during = 1; notified = true }

-- A batch of two for a queue of limit 1: the second item is still to be pushed, and the thread that
-- pushes waits.
abbrev offered_two : State ℕ
offered_two = push_start (1 ∷ 2 ∷ []) (record (initial 1) { offered = 2 ∷ 1 ∷ [] })

abbrev waiting : State ℕ
waiting = push_start (1 ∷ []) offered_two

waiting-Reach : Reach false 1 waiting
unfolding push_start push_end size fill_from fill
waiting-Reach =
    Reach.next (Reach.next Reach.start (Step.push_new (1 ∷ 2 ∷ []) refl (λ e. cc)))
      (Step.push_again (1 ∷ []) refl (λ e. cc))

waiting-producer : waiting.producer ≡ Producer.waits (1 ∷ [])
unfolding push_start push_end size fill_from fill
waiting-producer = refl

Reach-safe_example :
    (waiting.failed ≡ false)
    × (length waiting.queue.items ≤ 1)
    × (waiting.popped ++ (waiting.queue.items ++ reverse (pending waiting.producer))
        ≡ waiting.offered)
Reach-safe_example = Reach-safe 1 waiting (omega arith) waiting-Reach

Reach-no_deadlock_example : waiting.consumer ≢ Consumer.waits
Reach-no_deadlock_example =
    Reach-no_deadlock 1 waiting (1 ∷ []) (omega arith) waiting-Reach waiting-producer

empty_front_of_limit_zero_example : (s : State ℕ) × Reach false 0 s × (s.failed ≡ true)
empty_front_of_limit_zero_example = empty_front_of_limit_zero (4 ∷ []) (λ e. cc)

empty_front_of_spurious_example : (s : State ℕ) × Reach true 100 s × (s.failed ≡ true)
empty_front_of_spurious_example = empty_front_of_spurious 100

push_all-reference_example :
    push_all 0 one_taken (1 ∷ 2 ∷ 3 ∷ []) one_item
    ≡ (record one_item { items = 7 ∷ 3 ∷ [] }, 1 ∷ 2 ∷ [], ok (pos 2))
push_all-reference_example = push_all-reference 0 one_taken (1 ∷ 2 ∷ 3 ∷ []) one_item (omega arith)
