-- ===== src/Broker/Loops/Feed/Drained.antt =====
-- The thread of `read` and its clients get everything over that was queried.
use zbroker.Base.{
  ℕ, zero, suc, ◌+◌, ◌*◌, ◌≤◌, ◌<◌, ◌≡◌, refl, ap, sym, ◌∙◌, Bool, List, [], ◌∷◌, ◌++◌, append-nil,
  append_assoc, reverse, Text, length, ok, arith, subst,
}
use zbroker.Bson.{Bson, Server}
use zbroker.SizedQueue.{Queue}
use zbroker.Broker.{Broker, check_status}
use zbroker.Broker.Loops.Feed.{Feed, Reach, start, pushes, pops, on_the_way}
use zbroker.Broker.Loops.Feed.Moves.{push_step-conserves, pop_step-first, push_step-shorter}

module _ (bson : Bson) where
  open bson use {Obj}

  check_status-queue :
      (b : Broker Obj) (q : Queue Text)
      → check_status b ≡ ok tt
      → check_status (record b { queue = q }) ≡ ok tt
  unfolding check_status
  check_status-queue b q h = h

  -- Where a feed comes to rest: the vector and the queue are empty, and clients have all that was
  -- on the way.
  pub record Drained (server : Server Obj) (first s : Feed Obj) : Type 0 where
    pub last : Feed Obj
    pub reached : Reach bson server first last
    pub nothing_left : last.docs ≡ []
    pub nothing_queued : last.broker.queue.items ≡ []
    pub all_given : last.received ≡ on_the_way s
    pub same_place : last.broker.last_doc_id ≡ s.broker.last_doc_id

  -- A step on the way.
  step-Drained :
      {server : Server Obj} {first : Feed Obj} (s s' : Feed Obj)
      → on_the_way s' ≡ on_the_way s
      → s'.broker.last_doc_id ≡ s.broker.last_doc_id
      → Drained server first s'
      → Drained server first s
  step-Drained s s' e f d = record {
    last = d.last;
    reached = d.reached;
    nothing_left = d.nothing_left;
    nothing_queued = d.nothing_queued;
    all_given = d.all_given ∙ e;
    same_place = d.same_place ∙ f;
  }

  drained :
      {server : Server Obj} {first : Feed Obj} (seconds : ℕ) (notified : Bool) (fuel : ℕ)
      (s : Feed Obj) (items docs : List Text)
      → s.broker.queue.items ≡ items
      → s.docs ≡ docs
      → 2 * length docs + length items ≤ fuel
      → 0 < s.broker.queue.limit_size
      → check_status s.broker ≡ ok tt
      → Reach bson server first s
      → Drained server first s
  drained seconds notified fuel s [] [] e f m h c r = record {
    last = s;
    reached = r;
    nothing_left = f;
    nothing_queued = e;
    all_given = sym (append-nil s.received) ∙ (λ i. s.received ++ (sym e i ++ reverse (sym f i)));
    same_place = refl;
  }
  drained seconds notified zero s (x ∷ items) docs e f m h c r = absurd (omega arith)
  drained seconds notified (suc fuel) s (x ∷ items) docs e f m h c r =
      let first_out = pop_step-first seconds notified s x items c e in
      step-Drained s _
        (append_assoc s.received (x ∷ []) (items ++ reverse s.docs)
          ∙ ap (λ xs. s.received ++ (xs ++ reverse s.docs)) (sym e))
        refl
        (drained seconds notified fuel _ items docs refl f (omega arith) h
          (check_status-queue s.broker _ c)
          (subst (Reach bson _ _) first_out (pops seconds notified r)))
  drained seconds notified zero s [] (d ∷ docs) e f m h c r = absurd (omega arith)
  drained seconds notified (suc fuel) s [] (d ∷ docs) e f m h c r =
      let long : 0 < length s.docs = omega (arith, ap length f) in
      let (q, rest, pushed, limit, sum, some_in) = push_step-shorter seconds notified s h e long in
      step-Drained s _ (ap on_the_way (sym pushed) ∙ push_step-conserves seconds notified s) refl (
        drained seconds notified fuel _ q.items rest refl refl
          (omega (arith, m, sum, some_in, ap length f)) (omega (arith, h, limit))
          (check_status-queue s.broker q c)
          (subst (Reach bson _ _) pushed (pushes seconds notified r long)))

  -- From any feed with an open broker and a queue limit that is not 0, the thread of `read` and a
  -- client get on: a run goes on from it, and stays at its place in the collection, to where the
  -- vector and the queue are empty and the clients have been given, in order, all that was on the
  -- way.
  pub Reach-Drained :
      (server : Server Obj) (seconds : ℕ) (notified : Bool) (s : Feed Obj)
      → 0 < s.broker.queue.limit_size
      → check_status s.broker ≡ ok tt
      → Drained server s s
  Reach-Drained server seconds notified s h c =
      drained seconds notified (2 * length s.docs + length s.broker.queue.items) s _ _ refl refl
        (omega arith) h c start
