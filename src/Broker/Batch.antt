-- ===== src/Broker/Batch.antt =====
-- `batch_pop` of src/broker.cc. `turns` has what the other thread does around each `pop`, by the
-- number of pops made before.
pub mod Taken
pub mod Rounds
pub mod Refused
pub mod Connection
use zbroker.Base.{
  ℕ, zero, suc, ◌+◌, ℤ, false, List, [], ◌∷◌, ◌++◌, Option, none, some, Text, length, ◌==◌,
  if◌then◌else◌, to_size_t, scale, fits_int, ulong_max, Result, ok, err, Error, broker_exception,
  assertion_failed, undefined_behaviour,
}
use zbroker.SizedQueue.{PopTurn}
use zbroker.Broker.{Broker, pop}

-- The broker, the caller's vector, and the number of pops made.
pub record Taking (Obj : Type 0) : Type 0 where
  pub broker : Broker Obj
  pub docs : List Text
  pub turn : ℕ

module _ {Obj : Type 0} (turns : ℕ → PopTurn Text) where
  -- `docs.push_back(pop(timeout))`, so many times, or up to an exception.
  unfoldable pub pop_times : ℕ → ℕ → Taking Obj → Taking Obj × Option Error
  pop_times seconds zero s = (s, none)
  pop_times seconds (suc n) s =
      let (b, r) = pop seconds (turns s.turn) s.broker in
      elim r [
        | ok doc ↦
            pop_times seconds n
              (record { broker = b; docs = s.docs ++ doc ∷ []; turn = suc s.turn })
        | err e ↦ (record { broker = b; docs = s.docs; turn = suc s.turn }, some e)
      ]

  -- The end of a round: its result, or the handler of `broker_timeout`, which computes the timeout
  -- of the next round and goes on with `again`. While a query runs, the handler waits with a mutex
  -- that this thread does not hold, which is undefined.
  unfoldable pub settle :
      (ℤ → Taking Obj → Taking Obj × Result ℕ)
      → ℕ
      → Taking Obj × Option Error
      → Taking Obj × Result ℕ
  settle again retry (s, none) = (s, ok (length s.docs))
  settle again retry (s, some (broker_exception msg)) =
      let timeout = scale (suc retry) s.broker.read_timeout in
      if s.broker.querying
      then (s, err undefined_behaviour)
      else if fits_int timeout
      then again timeout s
      else (s, err undefined_behaviour)
  settle again retry (s, some e) = (s, err e)

  -- The loop's test fails: the result is still what it was set to.
  unfoldable pub give_up : ℤ → Taking Obj → Taking Obj × Result ℕ
  give_up next s = (s, ok ulong_max)

  -- `left` is `m_read_retry - retry`: the rounds that the loop's test still allows.
  unfoldable pub rounds : ℕ → ℕ → ℤ → ℕ → Taking Obj → Taking Obj × Result ℕ
  rounds batch_size retry timeout zero s =
      settle give_up retry (pop_times (to_size_t timeout) batch_size s)
  rounds batch_size retry timeout (suc left) s =
      settle (λ next s'. rounds batch_size (suc retry) next left s') retry
        (pop_times (to_size_t timeout) batch_size s)

  -- `batch_pop`: the broker, the vector, and the result.
  unfoldable pub batch_pop : List Text → ℕ → Broker Obj → Taking Obj × Result ℕ
  batch_pop docs batch_size b =
      let s : Taking Obj = record { broker = b; docs = docs; turn = 0 } in
      if batch_size == 0
      then (s, err assertion_failed)
      else rounds batch_size 0 b.read_timeout b.read_retry s
