-- ===== src/Broker/Loops/Feed.antt =====
-- The thread of `read` of src/broker.cc and the clients that pop, in any order of their steps: a
-- query when the vector is empty, a `push` of the vector, and a `pop`, or a `batch_pop` during
-- which the thread pushes some of its vector. A `push` that waits while clients pop is one that
-- moves nothing, their pops, and one that goes on.
pub mod Moves
pub mod Feeding
pub mod InOrder
pub mod Drained
pub mod Rewinds
use zbroker.Base.{
  zero, suc, ℕ, ◌<◌, ◌≡◌, Bool, List, [], ◌∷◌, ◌++◌, reverse, Text, length, is_empty, Result, ok,
  err,
}
use zbroker.Bson.{Bson, Server, MongoSort}
use zbroker.SizedQueue
use zbroker.SizedQueue.{PopTurn}
use zbroker.Broker
use zbroker.Broker.{Broker, check_status}
use zbroker.Broker.Batch.{batch_pop}
use zbroker.Broker.Batch.Rounds.{batch_pop-conserves}
use zbroker.Broker.Query.{query}

-- The broker, the vector of the thread of `read`, and what clients have been given.
pub record Feed (Obj : Type 0) : Type 0 where
  pub broker : Broker Obj
  pub docs : List Text
  pub received : List Text

module _ {Obj : Type 0} where
  -- The thread begins, and nobody has been given anything.
  abbrev pub new_feed : Broker Obj → Feed Obj
  new_feed b = record { broker = b; docs = []; received = [] }

  -- A `push` of the vector while nobody pops.
  unfoldable pub push_step : ℕ → Bool → Feed Obj → Feed Obj
  push_step seconds notified s =
      let pushed =
        SizedQueue.push_all seconds (record { taken = 0; during = 0; notified = notified }) s.docs
          s.broker.queue in
      record s { broker = record s.broker { queue = pushed.0 }; docs = pushed.1 }

  -- A `pop` of a client while nobody pushes.
  unfoldable pub pop_step : ℕ → Bool → Feed Obj → Feed Obj
  pop_step seconds notified s =
      let (b, r) =
        Broker.pop seconds (record { arrived = []; during = []; notified = notified }) s.broker in
      elim r [
        | ok x ↦ record s { broker = b; received = s.received ++ x ∷ [] }
        | err e ↦ record s { broker = b }
      ]

  -- What comes to the queue during a batch of a client.
  abbrev pub came_in :
      (turns : ℕ → PopTurn Text) (size : ℕ) (b : Broker Obj) → check_status b ≡ ok tt → List Text
  came_in turns size b ready = (batch_pop-conserves turns [] size b ready).0

  -- `batch_pop` of a client, while the thread pushes what comes in these turns, and has `docs`
  -- left.
  unfoldable pub batch_step : (ℕ → PopTurn Text) → ℕ → List Text → Feed Obj → Feed Obj
  batch_step turns size docs s =
      let taken = (batch_pop turns [] size s.broker).0 in
      record { broker = taken.broker; docs = docs; received = s.received ++ taken.docs }

  -- What clients have been given, what stands in the queue, and the vector backwards.
  abbrev pub on_the_way : Feed Obj → List Text
  on_the_way s = s.received ++ (s.broker.queue.items ++ reverse s.docs)

module _ (bson : Bson) where
  open bson use {Obj, json_string}

  -- A query of the thread of `read`; an exception ends the thread.
  unfoldable pub query_step : Server Obj → Feed Obj → Feed Obj × Result (Unit {0})
  query_step server s =
      let (b, r) = query bson server MongoSort.asc s.broker in
      elim r [
        | err e ↦ (record s { broker = b }, err e)
        | ok docs ↦
            (record s { broker = record b { reach_end = is_empty docs }; docs = docs }, ok tt)
      ]

  -- The runs from a feed: the thread of `read` queries when its vector is empty and else pushes,
  -- and clients pop or take a batch at any time, during which the thread may push of its vector;
  -- nobody asks the thread to stop.
  pub data Reach (server : Server Obj) (first : Feed Obj) : Feed Obj → Type 0 where
    start : Reach server first first
    queries :
        {s s' : Feed Obj}
        → Reach server first s
        → s.docs ≡ []
        → query_step server s ≡ (s', ok tt)
        → Reach server first s'
    pushes :
        {s : Feed Obj} (seconds : ℕ) (notified : Bool)
        → Reach server first s
        → 0 < length s.docs
        → Reach server first (push_step seconds notified s)
    pops :
        {s : Feed Obj} (seconds : ℕ) (notified : Bool)
        → Reach server first s
        → Reach server first (pop_step seconds notified s)
    batches :
        {s : Feed Obj} (turns : ℕ → PopTurn Text) (size n : ℕ) (docs : List Text)
        → Reach server first s
        → (ready : check_status s.broker ≡ ok tt) → (batch_pop turns [] size s.broker).1 ≡ ok n
        → reverse s.docs ≡ came_in turns size s.broker ready ++ reverse docs
        → Reach server first (batch_step turns size docs s)

  -- The queries that were made along a run.
  abbrev pub queries_of : {server : Server Obj} {first s : Feed Obj} → Reach server first s → ℕ
  queries_of start = 0
  queries_of (queries r e h) = suc (queries_of r)
  queries_of (pushes seconds notified r h) = queries_of r
  queries_of (pops seconds notified r) = queries_of r
  queries_of (batches turns size n docs r ready done e) = queries_of r
