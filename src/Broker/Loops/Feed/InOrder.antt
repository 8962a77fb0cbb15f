-- ===== src/Broker/Loops/Feed/InOrder.antt =====
-- What clients of the thread of `read` are given: the pages of the collection.
use zbroker.Base.{ℕ, suc, ◌*◌, ◌≡◌, sym, List, append-nil, Option, Text, drop, arith, subst}
use zbroker.Bson.{Bson, Server}
use zbroker.Broker.{Broker}
use zbroker.Broker.Query.Paging.{Serves}
use zbroker.Broker.Query.Pages.{Reads, Ahead}
use zbroker.Broker.Loops.Feed.{
  queries_of, batches, new_feed, Feed, Reach, start, queries, pushes, pops, on_the_way,
}
use zbroker.Broker.Loops.Feed.Feeding.{
  Feeding, query_step-Feeding, push_step-Feeding, pop_step-Feeding, batch_step-Feeding,
}

module _ (bson : Bson) where
  open bson use {Obj}

  module _ {server : Server Obj} {docset : Text} {conditions : Obj} {fields : Option Obj}
      {rows : List Obj} (serves : Serves bson server docset conditions fields rows) where
    -- A run that begins at any feed.
    pub Reach-Feeding_on :
        (limit : ℕ) (rest : List Obj) (first : Feed Obj) {s : Feed Obj}
        → Reads bson serves limit 0 first.broker
        → Ahead bson rows first.broker.last_doc_id rest
        → (r : Reach bson server first s)
        → Feeding bson serves limit (queries_of bson r) (on_the_way first) rest s
    Reach-Feeding_on limit rest first v a start = record {
      set_up = v;
      ahead =
          let e : 0 ≡ 0 * suc limit = omega arith in
          subst (λ k. Ahead bson rows first.broker.last_doc_id (drop k rest)) e a;
      all_there = sym (append-nil (on_the_way first));
    }
    Reach-Feeding_on limit rest first v a (queries {s = s} {s' = s'} r e h) =
        query_step-Feeding bson serves limit _ _ rest s s' (Reach-Feeding_on limit rest first v a r)
          e h
    Reach-Feeding_on limit rest first v a (pushes {s = s} seconds notified r h) =
        push_step-Feeding bson serves limit _ seconds notified _ rest s
          (Reach-Feeding_on limit rest first v a r)
    Reach-Feeding_on limit rest first v a (pops {s = s} seconds notified r) =
        pop_step-Feeding bson serves limit _ seconds notified _ rest s
          (Reach-Feeding_on limit rest first v a r)
    Reach-Feeding_on limit rest first v a (batches {s = s} turns size n docs r ready done e) =
        batch_step-Feeding bson serves limit _ turns size docs _ rest s ready
          (Reach-Feeding_on limit rest first v a r) e

    -- Along every run of the thread of `read` and of clients that pop or take batches, in any order
    -- of their steps, with a server that pages the collection, from a broker that is set up for it
    -- with a positive limit and nothing skipped: what the clients have been given, followed by the
    -- queue and the vector backwards, is the old content of the queue followed by as many pages as
    -- queries were made, in the order of the collection, but each backwards. So nothing is lost,
    -- nothing is given twice, and the broker stands behind these pages.
    pub Reach-Feeding :
        (limit : ℕ) (rest : List Obj) (b : Broker Obj) {s : Feed Obj}
        → Reads bson serves limit 0 b
        → Ahead bson rows b.last_doc_id rest
        → (r : Reach bson server (new_feed b) s)
        → Feeding bson serves limit (queries_of bson r) b.queue.items rest s
    Reach-Feeding limit rest b {s} v a r =
        subst (λ xs. Feeding bson serves limit (queries_of bson r) xs rest s)
          (append-nil b.queue.items) (Reach-Feeding_on limit rest (new_feed b) v a r)
