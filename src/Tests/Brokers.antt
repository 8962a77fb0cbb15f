-- ===== src/Tests/Brokers.antt =====
-- The brokers on the sample server.
use zbroker.Base.{
  ◌≤◌, Bool, take, inr, inl, ◌⊎◌, ℕ, ◌≡◌, refl, ap, sym, true, false, List, [], ◌∷◌, ◌++◌, length,
  drop, length-append, ◌⊎◌, inl, inr, arith, none, some, Text, codes, ok, err, broker_exception,
  ulong_max, pos,
}
use zbroker.Bson.{Server}
use zbroker.SizedQueue.{Queue, PopTurn, PushTurn}
use zbroker.Broker
use zbroker.Broker.{Broker, check_status}
use zbroker.Broker.Init
use zbroker.Broker.Init.{init, open_broker}
use zbroker.Broker.Init.Opened.{address}
use zbroker.Broker.Init.Again.{open_broker_again}
use zbroker.Bson.{MongoSort}
use zbroker.Broker.Query.{query}
use zbroker.Broker.Query.Paging.{Serves}
use zbroker.Broker.Query.Pages.{Reads, Ahead, Queried, query-Queried}
use zbroker.Broker.Batch.{batch_pop}
use zbroker.Broker.Batch.Taken.{Came}
use zbroker.Broker.Batch.Rounds.{Counted, batch_pop-conserves, batch_pop-Counted}
use zbroker.Broker.Batch.Refused.{batch_pop_refused}
use zbroker.Broker.Loops.{as_update, update_round, Round, push_docs, UpdateLoop, Status, update}
use zbroker.SizedQueue
use zbroker.Broker.Loops.Flushed.{update-flushes}
use zbroker.Broker.Loops.Sent.{Arrived, Sends, Means}
use zbroker.Broker.Loops.Pushing.{taken_by, push_docs-delivers}
use zbroker.Tests.{sample_bson, sample_server, sample_matching, sample_rows}

-- A broker as its constructor leaves it, and one that is open on the sample collection.
abbrev pub fresh : Broker (List ℕ)
fresh = record {
  queue = record { limit_size = 100; items = [] };
  json_doc_cache = [];
  connection_string = [];
  docset = [];
  last_doc_id = [];
  options = [];
  host = [];
  port = pos 0;
  database = [];
  collection = [];
  limit = pos 0;
  skip = pos 0;
  queue_size = pos 0;
  read_timeout = pos 1;
  read_retry = 1;
  conditions = [];
  fields = [];
  do_exit = false;
  inited = false;
  connected = false;
  reach_end = false;
  has_fields = false;
  querying = false;
  query_doc_count = 0;
  query_count = 0;
  update_count = 0;
}

fresh_is_create : fresh ≡ Broker.create sample_bson
unfolding Broker.create
fresh_is_create = refl

abbrev pub opened : Broker (List ℕ)
opened = record fresh {
  inited = true;
  connected = true;
  limit = pos 1;
  queue = record { limit_size = 2; items = codes "a" ∷ codes "b" ∷ [] };
}

pub opened-check_status : check_status opened ≡ ok tt
unfolding check_status
opened-check_status = refl

-- A turn in which one text comes, and one is taken.
abbrev pub one_text : ℕ → PopTurn Text
one_text k = record { arrived = codes "c" ∷ []; during = []; notified = true }

abbrev pub one_taken : PushTurn
one_taken = record { taken = 1; during = 0; notified = true }

batch_pop-conserves_example :
    (came : List Text) × Came one_text 0 (batch_pop one_text [] 2 opened).0.turn came
    × ((batch_pop one_text [] 2 opened).0.docs
          ++ (batch_pop one_text [] 2 opened).0.broker.queue.items
        ≡ (codes "a" ∷ codes "b" ∷ came))
batch_pop-conserves_example = batch_pop-conserves one_text [] 2 opened opened-check_status

batch_pop-Counted_example : Counted one_text 0 2 1 (batch_pop one_text [] 2 opened)
batch_pop-Counted_example = batch_pop-Counted one_text [] 2 opened (omega arith) opened-check_status

fresh-check_status : check_status fresh ≡ err (broker_exception (codes "broker not inited"))
unfolding check_status
fresh-check_status = refl

batch_pop_refused_example :
    ((batch_pop one_text [] 2 fresh).1 ≡ ok ulong_max)
    × ((batch_pop one_text [] 2 fresh).0.docs ≡ [])
    × ((batch_pop one_text [] 2 fresh).0.broker.queue ≡ fresh.queue)
batch_pop_refused_example =
    batch_pop_refused one_text [] 2 1 fresh (codes "broker not inited") (omega arith)
      fresh-check_status refl (omega arith)

-- A round of `read` in which the popping thread takes one item before each `push`.
abbrev pub flowing : Round (List ℕ)
flowing = record {
  exit = false;
  server = sample_server;
  exits = λ k. false;
  turns = λ k. one_taken;
}

push_docs-delivers_example :
    (q : Queue Text) × (push_docs 4 flowing 3 0 (codes "x" ∷ codes "y" ∷ codes "z" ∷ []) opened
      ≡ some (record opened { queue = q }, []))
    × (q.limit_size ≡ 2)
    × (length q.items ≤ q.limit_size)
    × (q.items
        ≡ drop
            (taken_by flowing.turns 2 4 0 2 3)
            (codes "a" ∷ codes "b" ∷ codes "z" ∷ codes "y" ∷ codes "x" ∷ []))
push_docs-delivers_example =
    push_docs-delivers flowing 3 (record { takes = λ k. omega arith; goes_on = λ k. refl }) 4 0
      (codes "x" ∷ codes "y" ∷ codes "z" ∷ []) opened (omega arith) (omega arith) (omega arith)

-- A broker whose options name port 5.
abbrev inited_one : Broker (List ℕ)
inited_one = (init sample_bson (some (5 ∷ [])) fresh).0

inited_one-init : init sample_bson (some (5 ∷ [])) fresh ≡ (inited_one, ok tt)
unfolding init Init.init_options Init.init_from Init.check_options Init.finish_init
    Init.default_queue_size
inited_one-init = refl

inited_one-port : inited_one.port ≡ pos 5
unfolding init Init.init_options Init.init_from Init.check_options Init.finish_init
    Init.default_queue_size
inited_one-port = refl

-- The sample server, while it refuses connections.
abbrev down : Server (List ℕ)
down = record sample_server { connect = λ to. some (codes "down") }

open_broker_again_example :
    ((open_broker sample_bson down (some (5 ∷ [])) fresh).1 ≡ err (broker_exception (codes "down")))
    × (open_broker sample_bson sample_server
          (some (7 ∷ []))
          (open_broker sample_bson down (some (5 ∷ [])) fresh).0
        ≡ (record inited_one { connection_string = address inited_one; connected = true }, ok tt))
open_broker_again_example =
    open_broker_again sample_bson down sample_server (5 ∷ []) (some (7 ∷ [])) fresh inited_one 5
      (codes "down") refl inited_one-init inited_one-port (omega arith) refl

-- The place of each document of the collection, and what follows it.
pub sample_place :
    (front rest : List (List ℕ)) (d : List ℕ)
    → sample_rows ≡ front ++ d ∷ rest
    → ((d ≡ 1 ∷ []) × (rest ≡ (2 ∷ []) ∷ [])) ⊎ ((d ≡ 2 ∷ []) × (rest ≡ []))
sample_place [] rest d e = inl (cc, cc)
sample_place (x ∷ []) rest d e = inr (cc, cc)
sample_place (x ∷ y ∷ front) rest d e =
    absurd (omega (arith, ap length e, length-append front (d ∷ rest)))

pub sample_Serves : Serves sample_bson sample_server [] [] none sample_rows
sample_Serves = record {
  matching = sample_matching;
  all_rows = refl;
  rows_above = λ front rest d id e o. elim (sample_place front rest d e) [
    | inl (f, g) ↦ let h : id ≡ 1 ∷ [] = cc in rw h (sym g)
    | inr (f, g) ↦ let h : id ≡ 2 ∷ [] = cc in rw h (sym g)
  ];
  has_id = λ front rest d e. elim (sample_place front rest d e) [
    | inl (f, g) ↦ (1, [], ap some f)
    | inr (f, g) ↦ (2, [], ap some f)
  ];
  paged = λ condition limit skip. refl;
}

pub sample_Reads : Reads sample_bson sample_Serves 0 0 opened
sample_Reads = record {
  docset_is = refl;
  conditions_are = refl;
  fields_are = refl;
  limit_is = refl;
  skip_is = refl;
}

query-Queried_example :
    Queried sample_bson sample_Serves 0 0 opened sample_rows
      (query sample_bson sample_server MongoSort.asc opened)
query-Queried_example =
    query-Queried sample_bson sample_Serves 0 0 opened sample_rows sample_Reads
      (Ahead.at_start refl refl)

-- The loop of `update` before its first round, on the open broker.
abbrev sending : UpdateLoop sample_bson
sending = record { broker = opened; sent = []; status = Status.running }

sending-Sends : Sends sample_bson (codes "a" ∷ codes "b" ∷ []) [] [] sending
sending-Sends = record {
  came = [];
  so_far = Arrived.nothing_yet;
  taken = [];
  lost = [];
  all_there = refl;
  sent_all = Means.nothing;
  counted = refl;
  same_docset = refl;
  loses = inl refl;
  ran_out = λ s. absurd (cc s);
}

-- A turn in which nothing comes, and the wait runs out.
abbrev quiet : PopTurn Text × Bool
quiet = (record { arrived = []; during = []; notified = false }, true)

abbrev three_quiet : List (PopTurn Text × Bool)
three_quiet = quiet ∷ quiet ∷ quiet ∷ []

three_quiet-left : (update sample_bson three_quiet sending).status ≡ Status.left
unfolding update update_round as_update SizedQueue.pop
three_quiet-left = refl

update-flushes_example :
    (k : ℕ) × (came : List Text) × Arrived sample_bson (take k three_quiet) came
    × Means sample_bson []
        (codes "a" ∷ codes "b" ∷ came)
        (update sample_bson three_quiet sending).sent
    × ((update sample_bson three_quiet sending).broker.queue.items ≡ [])
update-flushes_example =
    update-flushes sample_bson (codes "a" ∷ codes "b" ∷ []) [] three_quiet sending sending-Sends
      (refl, (refl, (refl, tt))) three_quiet-left
