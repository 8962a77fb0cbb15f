-- ===== src/Broker.antt =====
-- src/broker.hpp and src/broker.cc: the broker's state, its life cycle and its small operations.
-- Broker/Init.antt has `init` and `open`, Broker/Query.antt one query, Broker/Batch.antt
-- `batch_pop`, and Broker/Loops.antt the loops of the two threads.
--
-- A method returns the new state with its result, also where it throws. Mutexes and log lines are
-- left out: what another thread does to the queue meanwhile is in the turns of SizedQueue.antt.
pub mod Init
pub mod Query
pub mod Batch
pub mod Loops
pub mod Status
use zbroker.Base.{
  to_size_t, ℕ, ℤ, pos, Bool, true, false, not, List, [], Text, codes, Result, ok, err, guard,
  broker_exception,
}
use zbroker.Bson.{Bson}
use zbroker.SizedQueue
use zbroker.SizedQueue.{leave, Queue, PopTurn, PushTurn}

-- The members of `class broker`; `Obj` is the type of BSON objects.
pub record Broker (Obj : Type 0) : Type 0 where
  pub queue : Queue Text
  pub json_doc_cache : List Text
  pub connection_string : Text
  pub docset : Text
  pub last_doc_id : Text
  pub options : Obj
  pub host : Text
  pub port : ℤ
  pub database : Text
  pub collection : Text
  pub limit : ℤ
  pub skip : ℤ
  pub queue_size : ℤ
  pub read_timeout : ℤ
  pub read_retry : ℕ
  pub conditions : Obj
  pub fields : Obj
  pub do_exit : Bool
  pub inited : Bool
  pub connected : Bool
  pub reach_end : Bool
  pub has_fields : Bool
  pub querying : Bool
  pub query_doc_count : ℕ
  pub query_count : ℕ
  pub update_count : ℕ

-- The `int` that the queue returns, as a `size_t`.
abbrev pub as_size : Result ℤ → Result ℕ
as_size (ok n) = ok (to_size_t n)
as_size (err e) = err e

module _ {Obj : Type 0} where
  -- `reset`, which leaves the options, the queue and the cache as they are.
  unfoldable pub reset : Broker Obj → Broker Obj
  reset b = record b {
    do_exit = false;
    querying = false;
    inited = false;
    connected = false;
    reach_end = false;
    port = pos 0;
    limit = pos 0;
    skip = pos 0;
    queue_size = pos 0;
    read_timeout = pos 1;
    read_retry = 1;
    query_doc_count = 0;
    query_count = 0;
    update_count = 0;
    has_fields = false;
    last_doc_id = [];
  }

  unfoldable pub close : Broker Obj → Broker Obj
  unfolding reset
  close b = reset b

  unfoldable pub set_exit : Broker Obj → Broker Obj
  set_exit b = record b { do_exit = true }

  -- `wait_update_done`, which waits for the mutex that `update` holds until it leaves: the texts
  -- that its thread takes meanwhile are gone.
  unfoldable pub wait_update_done : ℕ → Broker Obj → Broker Obj
  wait_update_done taken b = record b { queue = leave taken b.queue }

  unfoldable pub check_status : Broker Obj → Result (Unit {0})
  check_status b = elim b.inited [
    | false ↦ err (broker_exception (codes "broker not inited"))
    | true ↦ guard b.connected (broker_exception (codes "broker not connected"))
  ]

  unfoldable pub push : PushTurn → List Text → Broker Obj → Broker Obj × List Text × Result ℕ
  unfolding check_status
  push t docs b = elim (check_status b) [
    | ok _ ↦
        let (queue, rest, r) = SizedQueue.push_all 0 t docs b.queue in
        (record b { queue = queue }, rest, as_size r)
    | err e ↦ (b, docs, err e)
  ]

  unfoldable pub pop : ℕ → PopTurn Text → Broker Obj → Broker Obj × Result Text
  unfolding check_status
  pop seconds t b = elim (check_status b) [
    | ok _ ↦ let (queue, r) = SizedQueue.pop seconds t b.queue in (record b { queue = queue }, r)
    | err e ↦ (b, err e)
  ]

  unfoldable pub size : Broker Obj → Result ℕ
  unfolding check_status
  size b = elim (check_status b) [ ok _ ↦ ok (SizedQueue.size b.queue) | err e ↦ err e ]

  unfoldable pub get_last_doc_id : Broker Obj → Text
  get_last_doc_id b = b.last_doc_id

  unfoldable pub rewind : Broker Obj → Broker Obj
  rewind b = record b { last_doc_id = []; reach_end = false }

module _ (bson : Bson) where
  open bson use {Obj, empty_object, md5}

  -- The members before the constructor's body runs; `reset` sets the numbers and the flags.
  unfoldable pub blank : Broker Obj
  blank = record {
    queue = SizedQueue.create_default;
    json_doc_cache = [];
    connection_string = [];
    docset = [];
    last_doc_id = [];
    options = empty_object;
    host = [];
    port = pos 0;
    database = [];
    collection = [];
    limit = pos 0;
    skip = pos 0;
    queue_size = pos 0;
    read_timeout = pos 0;
    read_retry = 0;
    conditions = empty_object;
    fields = empty_object;
    do_exit = false;
    inited = false;
    connected = false;
    reach_end = false;
    has_fields = false;
    querying = false;
    query_doc_count = 0;
    query_count = 0;
    update_count = 0;
  }

  unfoldable pub create : Broker Obj
  unfolding blank reset SizedQueue.create_default
  create = reset blank

  unfoldable pub create_with : Obj → Broker Obj
  unfolding blank reset SizedQueue.create_default
  create_with options = record (reset blank) { options = options }

  unfoldable pub hash : Obj → Text
  hash obj = md5 obj
