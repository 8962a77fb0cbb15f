-- ===== src/Broker/Loops/Feed/Rewinds.antt =====
-- `rewind` of src/broker.cc while the thread of `read` runs: it reads the collection again.
use zbroker.Base.{
  length-append, length, arith, suc, ◌∷◌, ℕ, ◌≡◌, refl, ap, sym, ◌∙◌, List, [], ◌++◌, append-nil,
  append_assoc, Option, Text,
}
use zbroker.Bson.{Bson, Server}
use zbroker.Broker.{Broker}
use zbroker.Broker.Query.Paging.{Serves}
use zbroker.Broker.Query.Pages.{Reads, Ahead}
use zbroker.Broker.Loops.Reading.{pages}
use zbroker.Broker.Loops.Feed.{queries_of, new_feed, Feed, Reach, on_the_way}
use zbroker.Broker
use zbroker.Broker.Loops.Feed.InOrder.{Reach-Feeding, Reach-Feeding_on}

-- A client rewinds the broker.
unfoldable pub rewind_step : {Obj : Type 0} → Feed Obj → Feed Obj
rewind_step s = record s { broker = Broker.rewind s.broker }

module _ (bson : Bson) where
  open bson use {Obj, json_string}

  -- The runs in which clients also rewind, a number of times, between queries.
  pub data Passes (server : Server Obj) (first : Feed Obj) : ℕ → Feed Obj → Type 0 where
    first_pass : {s : Feed Obj} → Reach bson server first s → Passes server first 0 s
    rewound :
        {rewinds : ℕ} {s s' : Feed Obj}
        → Passes server first rewinds s
        → Reach bson server (rewind_step s) s'
        → Passes server first (suc rewinds) s'

  -- The queries that were made before the first `rewind`, and after each.
  abbrev pub queries_before :
      {server : Server Obj} {first : Feed Obj} {rewinds : ℕ} {s : Feed Obj}
      → Passes server first rewinds s
      → ℕ
  queries_before (first_pass r) = queries_of bson r
  queries_before (rewound p r) = queries_before p

  abbrev pub queries_again :
      {server : Server Obj} {first : Feed Obj} {rewinds : ℕ} {s : Feed Obj}
      → Passes server first rewinds s
      → List ℕ
  queries_again (first_pass r) = []
  queries_again (rewound p r) = queries_again p ++ queries_of bson r ∷ []

  -- What passes bring that each begin at the first of the rows, by their numbers of queries.
  abbrev pub again : (limit : ℕ) (rows : List Obj) → List ℕ → List Text
  again limit rows [] = []
  again limit rows (n ∷ ns) = pages bson limit n rows ++ again limit rows ns

  again-last :
      (limit : ℕ) (rows : List Obj) (ns : List ℕ) (n : ℕ)
      → again limit rows (ns ++ n ∷ []) ≡ again limit rows ns ++ pages bson limit n rows
  again-last limit rows [] n = append-nil (pages bson limit n rows)
  again-last limit rows (m ∷ ns) n =
      ap (◌++◌ (pages bson limit m rows)) (again-last limit rows ns n)
      ∙ sym (append_assoc (pages bson limit m rows) (again limit rows ns) (pages bson limit n rows))

  module _ {server : Server Obj} {docset : Text} {conditions : Obj} {fields : Option Obj}
      {rows : List Obj} (serves : Serves bson server docset conditions fields rows) where
    -- Where a feed stands after such a run that began with `old` in the queue and `rest` ahead, by
    -- the queries that were made.
    pub record Rewinding (limit n : ℕ) (ns : List ℕ) (old : List Text) (rest : List Obj)
        (rewinds : ℕ) (s : Feed Obj) : Type 0 where
      pub one_for_each : length ns ≡ rewinds
      pub set_up : Reads bson serves limit 0 s.broker
      pub all_there : on_the_way s ≡ old ++ (pages bson limit n rest ++ again limit rows ns)

    rewind_Reads :
        (limit : ℕ) (b : Broker Obj)
        → Reads bson serves limit 0 b
        → Reads bson serves limit 0 (Broker.rewind b)
    unfolding Broker.rewind
    rewind_Reads limit b v = record {
      docset_is = v.docset_is;
      conditions_are = v.conditions_are;
      fields_are = v.fields_are;
      limit_is = v.limit_is;
      skip_is = v.skip_is;
    }

    -- Along every run of the thread of `read` and of clients that pop, take batches, and rewind the
    -- broker between queries, with a server that pages the collection, from a broker that is set up
    -- for it with a positive limit and nothing skipped: what the clients have been given, followed
    -- by the queue and the vector backwards, is the old content of the queue, then of what was
    -- ahead a page for each query that the run made before the first `rewind`, and for each
    -- `rewind` a page from the first of the collection on for each query that the run made up to
    -- the next. So after a `rewind` the queries begin at the first of the collection again, but
    -- what is on its way is not taken away, and comes before their pages; and while nobody rewinds,
    -- nothing is lost and nothing given twice.
    pub Passes-Rewinding :
        (limit : ℕ) (rest : List Obj) (b : Broker Obj) {rewinds : ℕ} {s : Feed Obj}
        → Reads bson serves limit 0 b
        → Ahead bson rows b.last_doc_id rest
        → (p : Passes server (new_feed b) rewinds s)
        → Rewinding limit (queries_before p) (queries_again p) b.queue.items rest rewinds s
    unfolding rewind_step Broker.rewind
    Passes-Rewinding limit rest b v a (first_pass r) =
        let f = Reach-Feeding bson serves limit rest b v a r in
        record {
          one_for_each = refl;
          set_up = f.set_up;
          all_there =
              f.all_there
              ∙ ap (◌++◌ b.queue.items)
                  (sym (append-nil (pages bson limit (queries_of bson r) rest)));
        }
    Passes-Rewinding limit rest b v a (rewound {s = s} p r) =
        let w = Passes-Rewinding limit rest b v a p in
        let f =
          Reach-Feeding_on bson serves limit rows (rewind_step s)
            (rewind_Reads limit s.broker w.set_up) (Ahead.at_start refl refl) r in
        let here = pages bson limit (queries_before p) rest in
        let then = pages bson limit (queries_of bson r) rows in
        record {
          one_for_each =
              omega
                (arith, length-append (queries_again p) (queries_of bson r ∷ []), w.one_for_each);
          set_up = f.set_up;
          all_there =
              f.all_there
              ∙ ap (λ xs. xs ++ then) w.all_there
              ∙ append_assoc b.queue.items _ then
              ∙ ap (◌++◌ b.queue.items) (
                  append_assoc here (again limit rows (queries_again p)) then
                  ∙ ap (◌++◌ here)
                      (sym (again-last limit rows (queries_again p) (queries_of bson r))));
        }
