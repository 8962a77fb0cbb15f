-- ===== src/Session/Group.antt =====
-- The READs of a group of clients: each goes on where the others have left the collection.
use zbroker.Base.{◌≡◌, ◌++◌, ℕ, List, [], Option, some, Text, ok, err, Error, undefined_behaviour}
use zbroker.Bson.{Bson}
use zbroker.SizedQueue.{PopTurn}
use zbroker.Broker.{Broker}
use zbroker.Broker.Loops.Feed.{Feed, on_the_way}
use zbroker.Processor.{Processor}
use zbroker.Connection.{Processors, Connection, Handled}
use zbroker.Session.Read.{Answered, TooLong, answer_of, with_broker}

-- Nothing comes to the queue before a `pop`, or while it waits.
abbrev pub IsQuiet : (ℕ → PopTurn Text) → Type 0
IsQuiet turns = (k : ℕ) → ((turns k).arrived ≡ []) × ((turns k).during ≡ [])

module _ (bson : Bson) where
  open bson use {Obj, object_field}

  -- How a READ ends that comes when a feed stands so: its reply goes on with what is on its way; or
  -- the reply says that this part is too long, and it is lost; or it cannot be listed, and is lost;
  -- or the computation of a timeout is undefined.
  pub data GoesOn (id : Text) (s : Processor Obj) (t : Processors Obj) (feed : Feed Obj)
      (all : List Text) (o : Option (Handled Obj)) : Type 0 where
    answered :
        (docs : List Text) (b : Broker Obj) (c : Connection) (answer : Obj)
        → o ≡ some (with_broker bson id s b t, c, ok tt)
        → answer_of bson docs ≡ ok answer
        → Answered bson s.processor_id answer c.send_buffer
        → on_the_way (record feed { broker = b; received = feed.received ++ docs }) ≡ all
        → GoesOn id s t feed all o
    too_long :
        (docs : List Text) (b : Broker Obj) (c : Connection) (answer : Obj)
        → o ≡ some (with_broker bson id s b t, c, ok tt)
        → answer_of bson docs ≡ ok answer
        → TooLong bson s.processor_id answer c.send_buffer
        → on_the_way (record feed { broker = b; received = feed.received ++ docs }) ≡ all
        → GoesOn id s t feed all o
    unlisted :
        (docs : List Text) (b : Broker Obj) (c : Connection) (e : Error)
        → o ≡ some (with_broker bson id s b t, c, err e)
        → answer_of bson docs ≡ err e
        → on_the_way (record feed { broker = b; received = feed.received ++ docs }) ≡ all
        → GoesOn id s t feed all o
    undefined :
        (t' : Processors Obj) (c : Connection)
        → o ≡ some (t', c, err undefined_behaviour)
        → GoesOn id s t feed all o
