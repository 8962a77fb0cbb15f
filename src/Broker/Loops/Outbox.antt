-- ===== src/Broker/Loops/Outbox.antt =====
-- The thread of `update` of src/broker.cc and the clients that write, in any order of their steps:
-- a client begins `do_write` when the vector of the last is empty, its loop pushes, and the thread
-- takes a text and sends the update. A `push` that waits while the thread takes texts is one that
-- moves nothing, the thread's rounds, and one that goes on.
pub mod InOrder
use zbroker.Base.{◌+◌, ◌<◌, ◌≡◌, Bool, List, [], ◌++◌, reverse, Text, length, ok}
use zbroker.Bson.{Bson}
use zbroker.Broker
use zbroker.Broker.{Broker, check_status}
use zbroker.Broker.Loops.{UpdateLoop, Status, update_round}

module _ (bson : Bson) where
  open bson use {Obj}

  -- The loop of `update`, the vector of a client's `do_write`, and what clients have written, as
  -- the vectors go over: each backwards.
  pub record Outbox : Type 0 where
    pub loop : UpdateLoop bson
    pub docs : List Text
    pub written : List Text

  -- The thread begins.
  abbrev pub new_outbox : Broker Obj → Outbox
  new_outbox b = record {
    loop = record { broker = b; sent = []; status = Status.running };
    docs = [];
    written = [];
  }

  -- A client begins to write.
  unfoldable pub write_step : List Text → Outbox → Outbox
  write_step docs s = record s { docs = docs; written = s.written ++ reverse docs }

  -- A `push` of the vector while the thread takes nothing.
  unfoldable pub hand_step : Bool → Outbox → Outbox
  hand_step notified s =
      let pushed =
        Broker.push (record { taken = 0; during = 0; notified = notified }) s.docs s.loop.broker in
      record s { loop = record s.loop { broker = pushed.0 }; docs = pushed.1 }

  -- A round of `update` while nobody pushes.
  unfoldable pub send_step : Bool → Bool → Outbox → Outbox
  send_step notified exit s = record s {
    loop =
        update_round bson (record { arrived = []; during = []; notified = notified }) exit s.loop;
  }

  -- The runs from an outbox, while the broker is open.
  pub data Reach (first : Outbox) : Outbox → Type 0 where
    start : Reach first first
    writes :
        {s : Outbox} (docs : List Text)
        → Reach first s
        → s.docs ≡ []
        → Reach first (write_step docs s)
    hands :
        {s : Outbox} (notified : Bool)
        → Reach first s
        → check_status s.loop.broker ≡ ok tt
        → 0 < length s.docs
        → Reach first (hand_step notified s)
    sends :
        {s : Outbox} (notified exit : Bool)
        → Reach first s
        → s.loop.status ≡ Status.running
        → Reach first (send_step notified exit s)
