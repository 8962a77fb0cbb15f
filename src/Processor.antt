-- ===== src/Processor.antt =====
-- src/asio_processor.hpp and src/asio_processor.cc: a processor with its two brokers and its count
-- of clients. The packet helpers are in Reply.antt.
pub mod Serving
pub mod Clients
pub mod Opening
pub mod Threads
pub mod Ending
pub mod Reading
pub mod Writing
pub mod Requests
use zbroker.Base.{
  no_return, ℕ, ◌-◌, ℤ, Bool, true, false, ◌&&◌, ◌||◌, not, List, [], Text, codes, ltb, is_empty,
  eq_ℤ, if◌then◌else◌, Result, ok, err, pos,
}
use zbroker.Bson.{Server}
use zbroker.SizedQueue
use zbroker.SizedQueue.{PopTurn, PushTurn, arrive}
use zbroker.Broker
use zbroker.Broker.{Broker}
use zbroker.Broker.Init
use zbroker.Broker.Batch
use zbroker.Protocol.{
  Command, open_cmd, close_cmd, read_cmd, write_cmd, rewind_cmd, Purpose, read_purpose,
  write_purpose,
}
use zbroker.Reply

-- The members of `class asio_processor` that it uses; a thread is there or not.
pub record Processor (Obj : Type 0) : Type 0 where
  pub read_broker : Broker Obj
  pub write_broker : Broker Obj
  pub read_thread : Bool
  pub write_thread : Bool
  pub processor_id : Text
  pub refcount : ℕ
  pub purpose_name : Text

-- What a call meets from outside: the server, the other threads' turns at the queues, and what
-- they still do before they are joined: the texts that the reading thread adds, and how many the
-- writing thread takes; and whether each leaves its loop once it is told to. The fuel is for the
-- loop of `do_write`.
pub record Surroundings (Obj : Type 0) : Type 0 where
  pub server : Server Obj
  pub pops : ℕ → PopTurn Text
  pub pushes : ℕ → PushTurn
  pub read_ends : List Text
  pub write_ends : ℕ
  pub fuel : ℕ
  pub read_leaves : Bool
  pub write_leaves : Bool

-- `(Purpose)n`
unfoldable pub purpose_of : ℤ → Purpose
purpose_of n =
    if eq_ℤ n (pos 1)
    then read_purpose
    else if eq_ℤ n (pos 2)
    then write_purpose
    else Purpose.other n

unfoldable pub purpose_text : Purpose → Text
purpose_text read_purpose = codes "Read"
purpose_text write_purpose = codes "Write"
purpose_text (Purpose.other n) = codes "Unkown"

unfoldable pub get_command_name : Command → Text
get_command_name open_cmd = codes "Open"
get_command_name close_cmd = codes "Close"
get_command_name read_cmd = codes "Read"
get_command_name write_cmd = codes "Write"
get_command_name rewind_cmd = codes "Rewind"
get_command_name (Command.other n) = codes "Unkown"

module _ {Obj : Type 0} where
  -- The name is set once.
  unfoldable pub set_purpose_name : Purpose → Processor Obj → Processor Obj
  set_purpose_name p s =
      if is_empty s.purpose_name then record s { purpose_name = purpose_text p } else s

  -- One text is taken, so that a push that waits can go on; not where nothing can be waiting.
  unfoldable pub release_push : Surroundings Obj → Broker Obj → Broker Obj × Result (Unit {0})
  release_push env b = elim (Broker.size b) [
    | err e ↦ (b, err e)
    | ok n ↦
        if ltb 0 n || not b.reach_end
        then (let (taken, r) = Batch.batch_pop env.pops [] 1 b in
            (taken.broker, elim r [ err e ↦ err e | ok _ ↦ ok tt ]))
        else (b, ok tt)
  ]

  -- The reading thread is joined, which returns if it was told to leave its loop and does, and the
  -- broker is closed.
  unfoldable pub finish_read :
      Surroundings Obj → Broker Obj → Processor Obj → Processor Obj × Result (Unit {0})
  finish_read env b s =
      if b.do_exit && env.read_leaves
      then (
        record s {
          read_thread = false;
          read_broker = Broker.close (record b { queue = arrive env.read_ends b.queue });
        },
        ok tt,
      )
      else (record s { read_broker = b }, err no_return)

  -- The end of the reading thread, whose loop is told to stop.
  unfoldable pub term_read : Surroundings Obj → Processor Obj → Processor Obj × Result (Unit {0})
  term_read env s =
      let (b, r) = release_push env (Broker.set_exit s.read_broker) in
      elim r [ err e ↦ (record s { read_broker = b }, err e) | ok _ ↦ finish_read env b s ]

  -- The writing thread is waited for and joined, which returns if it was told to leave its loop and
  -- does, and the broker is closed.
  unfoldable pub finish_write :
      Surroundings Obj → Broker Obj → Processor Obj → Processor Obj × Result (Unit {0})
  finish_write env b s =
      if b.do_exit && env.write_leaves
      then (
        record s {
          write_thread = false;
          write_broker = Broker.close (Broker.wait_update_done env.write_ends b);
        },
        ok tt,
      )
      else (record s { write_broker = b }, err no_return)

  -- The end of the writing thread, which empties its queue before it leaves.
  unfoldable pub term_write : Surroundings Obj → Processor Obj → Processor Obj × Result (Unit {0})
  term_write env s = finish_write env (Broker.set_exit s.write_broker) s

  unfoldable pub term : Surroundings Obj → Processor Obj → Processor Obj × Result (Unit {0})
  term env s =
      let (s', r) =
        if s.read_thread && s.read_broker.connected then term_read env s else (s, ok tt) in
      elim r [
        | err e ↦ (s', err e)
        | ok _ ↦
            (if s'.write_thread && s'.write_broker.connected
              then term_write env s'
              else (s', ok tt))
      ]

  unfoldable pub close : Surroundings Obj → Processor Obj → Processor Obj × Result (Unit {0})
  close env s =
      if ltb 1 s.refcount
      then (record s { refcount = s.refcount - 1 }, ok tt)
      else term env (record s { refcount = 0 })

  unfoldable pub do_rewind : Processor Obj → Processor Obj × Bool
  do_rewind s =
      if s.read_broker.connected
      then (record s { read_broker = Broker.rewind s.read_broker }, true)
      else (s, false)
