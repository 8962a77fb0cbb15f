-- ===== src/Tests/Openings.antt =====
-- Processors that are opened for reading and for writing on the sample server.
use zbroker.Base.{
  decimal_int, ℕ, ◌≡◌, refl, sym, inl, inr, ap, true, false, [], ◌∷◌, List, some, text_eq, codes,
  ok, pos, if◌then◌else◌, arith,
}
use zbroker.Bson.{Bson}
use zbroker.Protocol.{read_purpose, write_purpose}
use zbroker.Broker
use zbroker.Broker.{Broker}
use zbroker.Broker.Init
use zbroker.Broker.Init.SetUp.{docset_of, fields_of}
use zbroker.Broker.Query.Paging.{Serves}
use zbroker.Broker.Query.{query, prepare_condition, iterate, finish_query}
use zbroker.Broker.Loops.Feed.{Feed, query_step, new_feed}
use zbroker.Broker.Loops.Outbox
use zbroker.Broker.Loops.Outbox.{Outbox, new_outbox, write_step, hand_step}
use zbroker.Broker.Loops.Outbox.InOrder.{Sending}
use zbroker.Processor.{Processor}
use zbroker.Processor.Serving
use zbroker.Processor.Opening.{open_processor-Sending}
use zbroker.Tests.{sample_bson, sample_server, sample_matching, sample_rows, sample_int}
use zbroker.Tests.Brokers.{fresh, sample_place}
use zbroker.Tests.Processors.{around}

-- Options for reading with a limit of one document, nothing skipped, no condition and no fields.
abbrev pub session_bson : Bson
session_bson = record sample_bson {
  int_field = λ o name.
      if text_eq name (codes "cmd")
      then sample_int o
      else if text_eq name (codes "skip")
      then pos 0
      else pos 1;
  object_field = λ o name.
      if text_eq name (codes "conditions")
      then []
      else if text_eq name (codes "fields")
      then []
      else o;
}

pub session_Serves :
    Serves session_bson sample_server
      (docset_of session_bson (100 ∷ []))
      []
      (fields_of session_bson (100 ∷ []))
      sample_rows
unfolding text_eq
session_Serves = record {
  matching = sample_matching;
  all_rows = refl;
  rows_above = λ front rest d id e o. elim (sample_place front rest d e) [
    | inl (f, g) ↦ let h : id ≡ 1 ∷ [] = cc in rw h (sym g)
    | inr (f, g) ↦ let h : id ≡ 2 ∷ [] = cc in rw h (sym g)
  ];
  has_id = λ front rest d e. elim (sample_place front rest d e) [
    | inl (f, g) ↦ (1, [], ap some f)
    | inr (f, g) ↦ (2, [], ap some f)
  ];
  paged = λ condition limit skip. refl;
}

-- The processor that a first OPEN makes, and what `open` leaves of it.
abbrev pub made : Processor (List ℕ)
made = record {
  read_broker = fresh;
  write_broker = fresh;
  read_thread = false;
  write_thread = false;
  processor_id = 100 ∷ [];
  refcount = 0;
  purpose_name = [];
}

abbrev pub joined : Processor (List ℕ)
joined = (Serving.open_processor session_bson around read_purpose (100 ∷ []) made).0

pub made-create : Serving.create session_bson (100 ∷ []) ≡ ok made
unfolding Serving.create Broker.create Broker.reset Broker.blank
made-create = refl

pub joined-open_processor :
    Serving.open_processor session_bson around read_purpose (100 ∷ []) made ≡ (joined, ok tt)
unfolding Serving.open_processor Init.open_broker Init.init Init.init_options Init.init_from
    Init.check_options Init.finish_init Init.default_queue_size Init.connect text_eq decimal_int
joined-open_processor = refl

-- The feed of its reading broker after the first query.
abbrev pub fetched : Feed (List ℕ)
fetched = (query_step session_bson sample_server (new_feed joined.read_broker)).0

pub fetched-query_step :
    query_step session_bson sample_server (new_feed joined.read_broker) ≡ (fetched, ok tt)
unfolding query_step query prepare_condition iterate finish_query Serving.open_processor
    Init.open_broker Init.init Init.init_options Init.init_from Init.check_options Init.finish_init
    Init.default_queue_size Init.connect text_eq decimal_int Serving.count_client
fetched-query_step = refl

-- What `open` for writing leaves of it, and a client that writes two documents.
abbrev pub joined_to_write : Processor (List ℕ)
joined_to_write = (Serving.open_processor session_bson around write_purpose (100 ∷ []) made).0

pub joined_to_write-open_processor :
    Serving.open_processor session_bson around write_purpose (100 ∷ []) made
    ≡ (joined_to_write, ok tt)
unfolding Serving.open_processor Init.open_broker Init.init Init.init_options Init.init_from
    Init.check_options Init.finish_init Init.default_queue_size Init.connect text_eq decimal_int
joined_to_write-open_processor = refl

abbrev two_written : Outbox session_bson
two_written =
    write_step session_bson (codes "x" ∷ codes "y" ∷ [])
      (new_outbox session_bson joined_to_write.write_broker)

open_processor-Sending_example :
    (joined_to_write.write_thread ≡ true)
    × (joined_to_write.refcount ≡ 1)
    × Sending session_bson []
        (docset_of session_bson (100 ∷ []))
        (hand_step session_bson true two_written)
unfolding text_eq Serving.open_processor Init.open_broker Init.init Init.init_options Init.init_from
    Init.check_options Init.finish_init Init.default_queue_size Init.connect decimal_int
    Serving.count_client write_step Broker.check_status
open_processor-Sending_example =
    open_processor-Sending session_bson around (100 ∷ []) (100 ∷ []) made joined_to_write
      made-create joined_to_write-open_processor
      (Outbox.Reach.hands true
        (Outbox.Reach.writes (codes "x" ∷ codes "y" ∷ []) Outbox.Reach.start refl) refl
        (omega arith))
