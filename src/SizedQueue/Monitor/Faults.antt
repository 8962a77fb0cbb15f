-- ===== src/SizedQueue/Monitor/Faults.antt =====
-- Where the `if` around the waits of src/sized_queue.cc is not enough: `pop` takes the front of an
-- empty deque.
use zbroker.Base.{ℕ, ◌≡◌, ◌≢◌, refl, true, false, List, []}
use zbroker.SizedQueue.{take_front, size}
use zbroker.SizedQueue.Monitor.{State, push_start, push_end, pop_end, pop_start, Step, Reach}

-- With a limit of 0, for every batch with something in it there is a run, with no thread that
-- wakes by itself, in which `pop` calls `front` on an empty deque.
pub empty_front_of_limit_zero :
    {A : Type 0} (items : List A) → items ≢ [] → (s : State A) × Reach false 0 s × (s.failed ≡ true)
unfolding push_start push_end pop_start pop_end take_front size
empty_front_of_limit_zero items h = (
  _,
  Reach.next
      (Reach.next (Reach.next Reach.start (Step.pop_starts refl)) (Step.push_new items refl h))
      (Step.pop_resumes refl),
  refl,
)

-- With threads that may wake by themselves, whatever the limit, there is a run in which `pop`
-- calls `front` on an empty deque.
pub empty_front_of_spurious :
    {A : Type 0} (limit : ℕ) → (s : State A) × Reach true limit s × (s.failed ≡ true)
unfolding pop_start pop_end take_front size
empty_front_of_spurious limit = (
  _,
  Reach.next
      (Reach.next (Reach.next Reach.start (Step.pop_starts refl)) (Step.consumer_wakes refl refl))
      (Step.pop_resumes refl),
  refl,
)
