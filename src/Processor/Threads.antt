-- ===== src/Processor/Threads.antt =====
-- The threads of src/asio_processor.hpp that `open` starts, each on a broker of the processor.
use zbroker.Base.{
  ◌*◌, ◌≡◌, ◌<◌, ◌∙◌, ℕ, suc, pos, List, [], ◌++◌, Text, Bool, Option, some, length, drop, codes,
  Result, ok, All, ap, arith, refl, subst,
}
use zbroker.Bson.{Bson}
use zbroker.Protocol.{read_purpose}
use zbroker.SizedQueue.{PopTurn}
use zbroker.Broker.{Broker}
use zbroker.Broker.Init.SetUp.{docset_of, fields_of, limit_of, skip_of}
use zbroker.Broker.Query.Paging.{Serves}
use zbroker.Broker.Query.Pages.{Ahead}
use zbroker.Broker.Loops.{Round, UpdateLoop, Status, read, update}
use zbroker.Broker.Loops.Reading.{pages, taken_in, IsRound, read-delivers}
use zbroker.Processor.{Processor, Surroundings}
use zbroker.Processor.Serving.{create, open_processor}
use zbroker.Processor.Opening.{Made, create-Made, open_to_read}

module _ (bson : Bson) where
  open bson use {Obj, object_field}

  unfoldable pub read_thread :
      ℕ → List (Round Obj) → Broker Obj → Option (Broker Obj × Result (Unit {0}))
  read_thread fuel rounds b = read bson fuel rounds 0 b

  unfoldable pub write_thread : List (PopTurn Text × Bool) → Broker Obj → UpdateLoop bson
  write_thread turns b =
      update bson turns (record { broker = b; sent = []; status = Status.running })

  -- The thread of `read` of a processor that was made and opened for reading, by options with a
  -- positive limit and nothing skipped, on a server that pages the collection, with room in its
  -- queue, a popping thread that takes an item before each `push`, and nobody who asks to stop:
  -- fuel above the limit is enough. It ends without an exception, with its broker behind a page of
  -- the collection for each round, and the queue then holds these pages, in the order of the
  -- collection, but each backwards, without as many documents from the front as the popping thread
  -- has taken in its turns.
  pub read_thread-delivers :
      (env : Surroundings Obj) (name : Text) (o : Obj) (s s' : Processor Obj) (rows : List Obj)
      (limit fuel : ℕ) (rounds : List (Round Obj))
      (serves : Serves bson env.server
        (docset_of bson o)
        (object_field o (codes "conditions"))
        (fields_of bson o)
        rows)
      → create bson name ≡ ok s
      → open_processor bson env read_purpose o s ≡ (s', ok tt)
      → limit_of bson o ≡ pos (suc limit)
      → skip_of bson o ≡ pos 0
      → 0 < s'.read_broker.queue.limit_size
      → suc limit < fuel
      → All (IsRound bson serves) rounds
      → (b : Broker Obj) × (read_thread fuel rounds s'.read_broker ≡ some (b, ok tt))
        × Ahead bson rows b.last_doc_id (drop (length rounds * suc limit) rows)
        × (b.queue.items
            ≡ drop
                (taken_in bson rounds s'.read_broker.queue.limit_size fuel
                  (suc limit)
                  0
                  (length rows))
                (pages bson limit (length rounds) rows))
  unfolding read_thread
  read_thread-delivers env name o s s' rows limit fuel rounds serves made opened l k room enough h =
      let new = subst (Made bson) made (create-Made bson name) in
      let v = (open_to_read bson env o s s' new opened).0 in
      let (b, done, stands, content) =
        read-delivers bson serves limit fuel 0 rounds rows s'.read_broker enough h (record {
          set_up = record {
            docset_is = v.docset;
            conditions_are = v.conditions;
            fields_are = v.fields;
            limit_is = v.limit ∙ l;
            skip_is = v.skip ∙ k;
          };
          ahead = Ahead.at_start (v.place ∙ new.at_start) refl;
          has_room = room;
          within = omega (arith, ap length v.emptied);
        }) in
      (
        b,
        done,
        stands.ahead,
        content
            ∙ ap
                (λ xs.
                  drop
                    (taken_in bson rounds s'.read_broker.queue.limit_size fuel (suc limit)
                      (length xs) (length rows))
                    (xs ++ pages bson limit (length rounds) rows))
                v.emptied,
      )
