-- ===== src/Broker/Loops/Feed/Feeding.antt =====
-- What each step of the thread of `read` and of its clients does to what is on its way.
use zbroker.Base.{
  ℕ, zero, suc, ◌*◌, ◌≡◌, ap, sym, ◌∙◌, Bool, List, [], ◌++◌, append-nil, append_assoc, map,
  reverse, Option, Text, take, drop, drop-drop, is_empty, ok, arith, subst,
}
use zbroker.Bson.{Bson, Server, MongoSort}
use zbroker.SizedQueue.{Queue}
use zbroker.Broker.{Broker, check_status}
use zbroker.Broker.Batch.Connection.{batch_pop-Keeps}
use zbroker.SizedQueue.{PopTurn}
use zbroker.Broker.Query.{query}
use zbroker.Broker.Query.Paging.{Serves, queried}
use zbroker.Broker.Query.Pages.{query-page, Reads, Ahead}
use zbroker.Broker.Loops.Reading.{still_set_up, pages}
use zbroker.Broker.Loops.Feed.{
  came_in, batch_step, Feed, push_step, pop_step, query_step, on_the_way,
}
use zbroker.Broker.Loops.Feed.Moves.{batch_step-conserves, push_step-conserves, pop_step-Taken}

module _ (bson : Bson) where
  open bson use {Obj, json_string}

  pages-last :
      (limit n : ℕ) (rest : List Obj)
      → pages bson limit (suc n) rest
        ≡ pages bson limit n rest
          ++ reverse (map json_string (take (suc limit) (drop (n * suc limit) rest)))
  pages-last limit zero rest =
      append-nil (reverse (map json_string (take (suc limit) rest)))
      ∙ ap (λ k. reverse (map json_string (take (suc limit) (drop k rest))))
          (let e : 0 ≡ 0 * suc limit = omega arith in e)
  pages-last limit (suc n) rest =
      let page = reverse (map json_string (take (suc limit) rest)) in
      ap (◌++◌ page) (pages-last limit n (drop (suc limit) rest))
      ∙ sym (append_assoc page (pages bson limit n (drop (suc limit) rest)) _)
      ∙ ap
          (λ xs.
            (page ++ pages bson limit n (drop (suc limit) rest))
            ++ reverse (map json_string (take (suc limit) xs)))
          (drop-drop (n * suc limit) (suc limit) rest ∙ ap (λ k. drop k rest) (omega arith))

  module _ {server : Server Obj} {docset : Text} {conditions : Obj} {fields : Option Obj}
      {rows : List Obj} (serves : Serves bson server docset conditions fields rows) where
    -- Where a feed stands that began with `old` in the queue and `rest` ahead, after `n` queries.
    pub record Feeding (limit n : ℕ) (old : List Text) (rest : List Obj) (s : Feed Obj)
        : Type 0 where
      pub set_up : Reads bson serves limit 0 s.broker
      pub ahead : Ahead bson rows s.broker.last_doc_id (drop (n * suc limit) rest)
      pub all_there : on_the_way s ≡ old ++ pages bson limit n rest

    queue_Reads :
        (limit : ℕ) (b : Broker Obj) (q : Queue Text)
        → Reads bson serves limit 0 b
        → Reads bson serves limit 0 (record b { queue = q })
    queue_Reads limit b q v = record {
      docset_is = v.docset_is;
      conditions_are = v.conditions_are;
      fields_are = v.fields_are;
      limit_is = v.limit_is;
      skip_is = v.skip_is;
    }

    pub pop_step-Feeding :
        (limit n seconds : ℕ) (notified : Bool) (old : List Text) (rest : List Obj) (s : Feed Obj)
        → Feeding limit n old rest s
        → Feeding limit n old rest (pop_step seconds notified s)
    pop_step-Feeding limit n seconds notified old rest s v =
        let (q, given, e, f) = pop_step-Taken seconds notified s in
        rw e (record {
          set_up = queue_Reads limit s.broker q v.set_up;
          ahead = v.ahead;
          all_there =
              append_assoc s.received given (q.items ++ reverse s.docs)
              ∙ ap (◌++◌ s.received) (
                  sym (append_assoc given q.items (reverse s.docs))
                  ∙ ap (λ xs. xs ++ reverse s.docs) (sym f))
              ∙ v.all_there;
        })

    pub push_step-Feeding :
        (limit n seconds : ℕ) (notified : Bool) (old : List Text) (rest : List Obj) (s : Feed Obj)
        → Feeding limit n old rest s
        → Feeding limit n old rest (push_step seconds notified s)
    unfolding push_step
    push_step-Feeding limit n seconds notified old rest s v = record {
      set_up = queue_Reads limit s.broker _ v.set_up;
      ahead = v.ahead;
      all_there = push_step-conserves seconds notified s ∙ v.all_there;
    }

    query_step_lem :
        (s s' : Feed Obj) (docs : List Obj) (id : Text)
        → query bson server MongoSort.asc s.broker
          ≡ (queried bson s.broker docs id, ok (map json_string docs))
        → query_step bson server s ≡ (s', ok tt)
        → s' ≡ record s {
          broker = record (queried bson s.broker docs id) {
            reach_end = is_empty (map json_string docs);
          };
          docs = map json_string docs;
        }
    unfolding query_step
    query_step_lem s s' docs id e h = cc (simp (e, query_step) at h)

    pub query_step-Feeding :
        (limit n : ℕ) (old : List Text) (rest : List Obj) (s s' : Feed Obj)
        → Feeding limit n old rest s
        → s.docs ≡ []
        → query_step bson server s ≡ (s', ok tt)
        → Feeding limit (suc n) old rest s'
    query_step-Feeding limit n old rest s s' v e h =
        let (docs, id, q, d, a) =
          query-page bson serves limit s.broker (drop (n * suc limit) rest) v.set_up v.ahead in
        rw (query_step_lem s s' docs id q h) (record {
          set_up = still_set_up bson serves limit s.broker docs id s.broker.queue _ v.set_up;
          ahead =
              subst (Ahead bson rows id)
                (drop-drop (suc limit) (n * suc limit) rest ∙ ap (λ k. drop k rest) (omega arith))
                a;
          all_there =
              sym (append_assoc s.received s.broker.queue.items (reverse (map json_string docs)))
              ∙ ap (λ xs. xs ++ reverse (map json_string docs))
                  (sym (ap (◌++◌ s.received) (append-nil s.broker.queue.items))
                    ∙ ap (λ xs. s.received ++ (s.broker.queue.items ++ reverse xs)) (sym e)
                    ∙ v.all_there)
              ∙ append_assoc old (pages bson limit n rest) (reverse (map json_string docs))
              ∙ ap (λ xs. old ++ (pages bson limit n rest ++ reverse (map json_string xs))) d
              ∙ ap (◌++◌ old) (sym (pages-last limit n rest));
        })

    pub batch_step-Feeding :
        (limit n : ℕ) (turns : ℕ → PopTurn Text) (size : ℕ) (docs : List Text) (old : List Text)
        (rest : List Obj) (s : Feed Obj) (ready : check_status s.broker ≡ ok tt)
        → Feeding limit n old rest s
        → reverse s.docs ≡ came_in turns size s.broker ready ++ reverse docs
        → Feeding limit n old rest (batch_step turns size docs s)
    unfolding batch_step
    batch_step-Feeding limit n turns size docs old rest s ready v e =
        let (set_up, ahead) =
          batch_pop-Keeps
            (λ b.
              Reads bson serves limit 0 b
              × Ahead bson rows b.last_doc_id (drop (n * suc limit) rest))
            (record { any_queue = λ b q (r, a). (queue_Reads limit b q r, a) }) turns [] size
            s.broker (v.set_up, v.ahead) in
        record {
          set_up = set_up;
          ahead = ahead;
          all_there = batch_step-conserves turns size docs s ready e ∙ v.all_there;
        }
