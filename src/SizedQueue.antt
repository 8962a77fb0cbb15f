-- ===== src/SizedQueue.antt =====
-- src/sized_queue.hpp and src/sized_queue.cc: the bounded queue between a broker's two threads.
--
-- A call of `push` or `pop` is atomic but for its wait on a condition, where the lock is given up.
-- What the other side does before the call takes the lock, and during its wait, is an argument (a
-- turn). Each queue has one thread that pushes and one that pops: `broker::read` and the handler
-- of requests on the reading side, the handler and `broker::update` on the writing side.
-- SizedQueue/Monitor.antt has the two threads as a step relation.
pub mod Push
pub mod Reference
pub mod Pop
pub mod Monitor
use zbroker.Base.{
  ℤ, to_int, ℕ, ◌+◌, Bool, List, [], ◌∷◌, ◌++◌, reverse, length, drop, ltb, leb, ◌==◌,
  if◌then◌else◌, Text, codes, Result, ok, err, broker_exception, undefined_behaviour, guard,
}

-- `m_limit_size` and `m_queue`, its front first.
pub record Queue {ℓ} (A : Type ℓ) : Type ℓ where
  pub limit_size : ℕ
  pub items : List A

-- What the pushing thread adds before `pop` takes the lock and while `pop` waits, and whether the
-- wait ends by a notification or, if it is a timed one, by its timeout.
pub record PopTurn {ℓ} (A : Type ℓ) : Type ℓ where
  pub arrived : List A
  pub during : List A
  pub notified : Bool

-- How many items the popping thread takes before `push` takes the lock, and while `push` waits.
pub record PushTurn : Type 0 where
  pub taken : ℕ
  pub during : ℕ
  pub notified : Bool

-- `zbroker::wait`; 0 seconds stand for a wait with no limit.
unfoldable pub wait : ℕ → Bool → Text → Result (Unit {0})
wait seconds notified timeout_msg =
    if ltb 0 seconds then guard notified (broker_exception timeout_msg) else ok tt

module _ {ℓ} {A : Type ℓ} where
  unfoldable pub create : ℕ → Queue A
  create size = record { limit_size = size; items = [] }

  unfoldable pub create_default : Queue A
  create_default = record { limit_size = 100; items = [] }

  unfoldable pub set_size : ℕ → Queue A → Queue A
  set_size size q = record q { limit_size = size }

  unfoldable pub size : Queue A → ℕ
  size q = length q.items

  unfoldable pub get_limit_size : Queue A → ℕ
  get_limit_size q = q.limit_size

  unfoldable pub clear : Queue A → Queue A
  clear q = record q { items = [] }

  -- The pushing thread's additions, and the popping thread's removals.
  abbrev pub arrive : List A → Queue A → Queue A
  arrive xs q = record q { items = q.items ++ xs }

  abbrev pub leave : ℕ → Queue A → Queue A
  leave n q = record q { items = drop n q.items }

  -- `front` and `pop_front`, which are undefined on an empty deque.
  unfoldable pub take_front : Queue A → Queue A × Result A
  take_front q = elim q.items [
    | [] ↦ (q, err undefined_behaviour)
    | x ∷ rest ↦ (record q { items = rest }, ok x)
  ]

  -- `sized_queue<T>::pop`
  unfoldable pub pop : ℕ → PopTurn A → Queue A → Queue A × Result A
  unfolding size wait take_front
  pop seconds t q =
      let q₁ = arrive t.arrived q in
      let q₂ = arrive t.during q₁ in
      if size q₁ == 0
      then (elim (wait seconds t.notified (codes "no more items")) [
        | ok _ ↦ take_front q₂
        | err e ↦ (q₂, err e)
      ])
      else take_front q₁

  -- `push_back` and the size that `push` returns.
  unfoldable pub push_back : A → Queue A → Queue A × Result ℤ
  push_back item q = (record q { items = q.items ++ item ∷ [] }, ok (to_int (length q.items + 1)))

  -- `sized_queue<T>::push` of one item.
  unfoldable pub push : ℕ → PushTurn → A → Queue A → Queue A × Result ℤ
  unfolding size wait push_back
  push seconds t item q =
      let q₁ = leave t.taken q in
      let q₂ = leave t.during q₁ in
      if leb q₁.limit_size (size q₁)
      then (elim (wait seconds t.notified (codes "no consumer")) [
        | ok _ ↦ push_back item q₂
        | err e ↦ (q₂, err e)
      ])
      else push_back item q₁

  -- The loop of the vector's `push` over the vector read from its back: the new deque, and what is
  -- left of the vector.
  unfoldable pub fill : ℕ → List A → List A → List A × List A
  fill limit queue [] = (queue, [])
  fill limit queue (x ∷ back) =
      if ltb (length queue) limit then fill limit (queue ++ x ∷ []) back else (queue, x ∷ back)

  unfoldable pub fill_from : List A → Queue A → Queue A × List A × Result ℤ
  fill_from items q =
      let (queue, back) = fill q.limit_size q.items (reverse items) in
      (record q { items = queue }, reverse back, ok (to_int (length queue)))

  -- `sized_queue<T>::push` of a vector, which keeps what did not fit.
  unfoldable pub push_all : ℕ → PushTurn → List A → Queue A → Queue A × List A × Result ℤ
  unfolding size wait fill_from
  push_all seconds t items q =
      let q₁ = leave t.taken q in
      let q₂ = leave t.during q₁ in
      if leb q₁.limit_size (size q₁)
      then (elim (wait seconds t.notified (codes "no consumer")) [
        | ok _ ↦ fill_from items q₂
        | err e ↦ (q₂, items, err e)
      ])
      else fill_from items q₁
