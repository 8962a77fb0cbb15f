-- ===== src/Tests/Threads.antt =====
-- The threads of a processor on the sample server.
use zbroker.Base.{
  ◌*◌, text_eq, decimal_int, ℕ, ◌≡◌, [], ◌∷◌, List, length, drop, some, ok, refl, arith,
}
use zbroker.Broker.{Broker}
use zbroker.Broker.Init
use zbroker.Broker.Loops.Reading.{pages, taken_in, IsRound}
use zbroker.Broker.Query.Pages.{Ahead}
use zbroker.Processor.Serving
use zbroker.Processor.Threads.{read_thread, read_thread-delivers}
use zbroker.Tests.{sample_rows}
use zbroker.Tests.Brokers.{flowing}
use zbroker.Tests.Processors.{around}
use zbroker.Tests.Openings.{
  session_bson, session_Serves, made, made-create, joined, joined-open_processor,
}

flowing-IsRound : IsRound session_bson session_Serves flowing
flowing-IsRound = record {
  same_server = refl;
  goes_on = refl;
  flows = record { takes = λ k. omega arith; goes_on = λ k. refl };
}

read_thread-delivers_example :
    (b : Broker (List ℕ)) × (read_thread session_bson 2 (flowing ∷ flowing ∷ []) joined.read_broker
      ≡ some (b, ok tt))
    × Ahead session_bson sample_rows b.last_doc_id
        (drop (length (flowing ∷ flowing ∷ []) * 1) sample_rows)
    × (b.queue.items
        ≡ drop
            (taken_in session_bson
              (flowing ∷ flowing ∷ [])
              joined.read_broker.queue.limit_size
              2
              1
              0
              (length sample_rows))
            (pages session_bson 0 (length (flowing ∷ flowing ∷ [])) sample_rows))
unfolding Serving.open_processor Init.open_broker Init.init Init.init_options Init.init_from
    Init.check_options Init.finish_init Init.default_queue_size Init.connect text_eq decimal_int
    Serving.count_client
read_thread-delivers_example =
    read_thread-delivers session_bson around (100 ∷ []) (100 ∷ []) made joined sample_rows 0 2
      (flowing ∷ flowing ∷ []) session_Serves made-create joined-open_processor refl refl
      (omega arith) (omega arith) (flowing-IsRound, (flowing-IsRound, tt))
