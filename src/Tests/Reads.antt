-- ===== src/Tests/Reads.antt =====
-- The loop of `read` on the sample server.
use zbroker.Base.{true, ℕ, ◌≡◌, refl, List, [], ◌∷◌, map, take, drop, ok, arith}
use zbroker.Broker
use zbroker.Broker.{Broker}
use zbroker.Broker.Query.{query, take_documents, prepare_condition, iterate, finish_query}
use zbroker.Broker.Loops.Feed.{Feed, new_feed, push_step, query_step, Reach}
use zbroker.Broker.Loops.Feed.Drained.{Drained, Reach-Drained}
use zbroker.Broker.Query.Pages.{Ahead}
use zbroker.Broker.Query.Paging.{found}
use zbroker.Broker.Query.Rewound.{query-rewound}
use zbroker.Broker.Loops.Feed.Rewinds.{rewind_step, Passes, Rewinding, Passes-Rewinding}
use zbroker.Bson.{MongoSort}
use zbroker.Tests.{sample_server, sample_bson, sample_rows}
use zbroker.Tests.Brokers.{opened-check_status, opened, sample_Serves, sample_Reads}

-- The feed of the open broker after its first query.
abbrev queried_once : Feed (List ℕ)
queried_once = record {
  broker = record opened { json_doc_cache = (1 ∷ []) ∷ []; last_doc_id = 1 ∷ []; query_count = 1 };
  docs = (1 ∷ []) ∷ [];
  received = [];
}

queried_once-query_step :
    query_step sample_bson sample_server (new_feed opened) ≡ (queried_once, ok tt)
unfolding query_step query prepare_condition iterate finish_query
queried_once-query_step = refl

abbrev queried_once-Reach : Reach sample_bson sample_server (new_feed opened) queried_once
queried_once-Reach = Reach.queries Reach.start refl queried_once-query_step

Reach-Drained_example : Drained sample_bson sample_server queried_once queried_once
unfolding Broker.check_status
Reach-Drained_example =
    Reach-Drained sample_bson sample_server 1 true queried_once (omega arith) opened-check_status

Passes-Rewinding_example :
    Rewinding sample_bson sample_Serves 0 1
      (0 ∷ [])
      opened.queue.items
      sample_rows
      1
      (push_step 1 true (rewind_step queried_once))
unfolding rewind_step
Passes-Rewinding_example =
    Passes-Rewinding sample_bson sample_Serves 0 sample_rows opened sample_Reads
      (Ahead.at_start refl refl)
      (Passes.rewound (Passes.first_pass queried_once-Reach)
        (Reach.pushes 1 true Reach.start (omega arith)))

query-rewound_example :
    (b b' : Broker (List ℕ)) × (query sample_bson sample_server MongoSort.asc opened
      ≡ take_documents sample_bson
          (found sample_bson sample_server opened)
          (record opened { querying = true }))
    × (take_documents sample_bson
          (found sample_bson sample_server opened)
          (Broker.rewind (record opened { querying = true }))
        ≡ (b, ok (map sample_bson.json_string (take 1 sample_rows))))
    × (query sample_bson sample_server MongoSort.asc b
        ≡ (b', ok (map sample_bson.json_string (take 1 (drop 1 sample_rows)))))
query-rewound_example =
    query-rewound sample_bson sample_Serves 0 opened sample_rows sample_Reads
      (Ahead.at_start refl refl) (omega arith)
