-- ===== src/Broker/Loops/Feed/Moves.antt =====
-- The steps of the thread of `read` and of its clients lose nothing on the way.
use zbroker.Base.{
  append_assoc, length-reverse, length-append, undefined_behaviour, codes, broker_exception, Error,
  ℕ, ◌+◌, ◌<◌, ◌≡◌, refl, ap, sym, ◌∙◌, inl, inr, ◌⊎◌, Bool, List, [], ◌∷◌, ◌++◌, append-nil,
  reverse, Text, length, Result, ok, err, arith, Result-cases,
}
use zbroker.SizedQueue.{Queue, PopTurn, PushTurn}
use zbroker.SizedQueue.Push.{waited, had_room, PushEnds, push_all-PushEnds}
use zbroker.SizedQueue.Pop.{nothing_there, woken, at_once, Popped, pop-Popped}
use zbroker.Broker
use zbroker.Broker.{Broker, check_status}
use zbroker.Broker.Batch.{batch_pop}
use zbroker.Broker.Batch.Rounds.{batch_pop-conserves}
use zbroker.Broker.Loops.Feed.{came_in, batch_step, Feed, push_step, pop_step, on_the_way}

module _ {Obj : Type 0} where
  pub push_step-conserves :
      (seconds : ℕ) (notified : Bool) (s : Feed Obj)
      → on_the_way (push_step seconds notified s) ≡ on_the_way s
  unfolding push_step
  push_step-conserves seconds notified s =
      let t : PushTurn = record { taken = 0; during = 0; notified = notified } in
      elim (push_all-PushEnds seconds t s.docs s.broker.queue) [
        | had_room h p ↦ ap (◌++◌ s.received) p.conserved
        | waited h w p ↦ ap (◌++◌ s.received) p.conserved
        | PushEnds.timed_out h p n e ↦ ap (λ r. s.received ++ (r.0.items ++ reverse r.1)) e
      ]

  -- A `pop` with nobody else there leaves the broker but for its queue, and gives what it takes.
  pop-Taken :
      (seconds : ℕ) (notified : Bool) (b : Broker Obj)
      → (q : Queue Text) × (r : Result Text) × (Broker.pop seconds
            (record { arrived = []; during = []; notified = notified })
            b
          ≡ (record b { queue = q }, r))
        × (((x : Text) × (r ≡ ok x) × (b.queue.items ≡ x ∷ q.items))
            ⊎ ((e : Error) × (r ≡ err e) × (q.items ≡ b.queue.items)))
  unfolding Broker.pop
  pop-Taken seconds notified b =
      let t : PopTurn Text = record { arrived = []; during = []; notified = notified } in
      elim (Result-cases (check_status b)) [
        | inr (x, e) ↦ (b.queue, err x, simp (e, Broker.pop), inr (x, refl, refl))
        | inl (_, e) ↦ elim (pop-Popped seconds t b.queue) [
          | at_once x rest h p ↦ (
            record b.queue { items = rest },
            ok x,
            simp (e, p, Broker.pop),
            inl (x, refl, sym (append-nil b.queue.items) ∙ h),
          )
          | woken x rest h w d p ↦ absurd (cc d)
          | Popped.timed_out i h n p ↦ (
            record b.queue { items = [] },
            err (broker_exception (codes "no more items")),
            simp (e, p, Broker.pop),
            inr (_, refl, sym h ∙ append-nil b.queue.items),
          )
          | nothing_there h w d p ↦ (
            record b.queue { items = [] },
            err undefined_behaviour,
            simp (e, p, Broker.pop),
            inr (_, refl, sym h ∙ append-nil b.queue.items),
          )
        ]
      ]

  -- What a `pop` of a client leaves.
  pub pop_step-Taken :
      (seconds : ℕ) (notified : Bool) (s : Feed Obj)
      → (q : Queue Text) × (given : List Text) × (pop_step seconds notified s ≡ record {
        broker = record s.broker { queue = q };
        docs = s.docs;
        received = s.received ++ given;
      })
        × (s.broker.queue.items ≡ given ++ q.items)
  unfolding pop_step
  pop_step-Taken seconds notified s =
      let (q, r, popped, how) = pop-Taken seconds notified s.broker in
      elim how [
        | inl (x, e, f) ↦ (q, x ∷ [], simp (popped, e, pop_step), f)
        | inr (x, e, f) ↦ (q, [], simp (popped, e, append-nil s.received, pop_step), sym f)
      ]

  -- A `pop` of an open broker that has a text gives the first one.
  pub pop_step-first :
      (seconds : ℕ) (notified : Bool) (s : Feed Obj) (x : Text) (rest : List Text)
      → check_status s.broker ≡ ok tt
      → s.broker.queue.items ≡ x ∷ rest
      → pop_step seconds notified s ≡ record {
        broker = record s.broker { queue = record s.broker.queue { items = rest } };
        docs = s.docs;
        received = s.received ++ x ∷ [];
      }
  unfolding pop_step Broker.pop
  pop_step-first seconds notified s x rest c e =
      let t : PopTurn Text = record { arrived = []; during = []; notified = notified } in
      let there : s.broker.queue.items ++ [] ≡ x ∷ rest = append-nil s.broker.queue.items ∙ e in
      elim (pop-Popped seconds t s.broker.queue) [
        | at_once y ys h p ↦
            let f : x ≡ y = cc (sym there ∙ h) in
            let g : rest ≡ ys = cc (sym there ∙ h) in simp (c, p, f, g, pop_step, Broker.pop)
        | woken y ys h w d p ↦ absurd (cc d)
        | Popped.timed_out i h n p ↦ absurd (cc (sym there ∙ h))
        | nothing_there h w d p ↦ absurd (cc (sym there ∙ h))
      ]

  -- What a `push` into an empty queue leaves: the vector is shorter by what the queue has now.
  pub push_step-shorter :
      (seconds : ℕ) (notified : Bool) (s : Feed Obj)
      → 0 < s.broker.queue.limit_size
      → s.broker.queue.items ≡ []
      → 0 < length s.docs
      → (q : Queue Text) × (docs : List Text) × (push_step seconds notified s
          ≡ record { broker = record s.broker { queue = q }; docs = docs; received = s.received })
        × (q.limit_size ≡ s.broker.queue.limit_size)
        × (length q.items + length docs ≡ length s.docs)
        × (0 < length q.items)
  unfolding push_step
  push_step-shorter seconds notified s h e n =
      let t : PushTurn = record { taken = 0; during = 0; notified = notified } in
      elim (push_all-PushEnds seconds t s.docs s.broker.queue) [
        | had_room room p ↦
            let sum = lengths _ _ p.conserved in
            (
              _,
              _,
              refl,
              p.same_limit,
              sum,
              elim p.filled [
                | inl all ↦ omega (arith, sum, ap length all)
                | inr full ↦ omega (arith, full, h)
              ],
            )
        | waited full w p ↦ absurd (omega (arith, full, ap length e, h))
        | PushEnds.timed_out full p m r ↦ absurd (omega (arith, full, ap length e, h))
      ]
    where
      lengths :
          (items docs : List Text)
          → items ++ reverse docs ≡ s.broker.queue.items ++ reverse s.docs
          → length items + length docs ≡ length s.docs
      lengths items docs f = omega (
        arith,
        ap length f,
        ap length e,
        length-append items (reverse docs),
        length-append s.broker.queue.items (reverse s.docs),
        length-reverse docs,
        length-reverse s.docs,
      )

  -- A batch that takes what it gives from the queue, and what came from the vector.
  pub batch_step-conserves :
      (turns : ℕ → PopTurn Text) (size : ℕ) (docs : List Text) (s : Feed Obj)
      (ready : check_status s.broker ≡ ok tt)
      → reverse s.docs ≡ came_in turns size s.broker ready ++ reverse docs
      → on_the_way (batch_step turns size docs s) ≡ on_the_way s
  unfolding batch_step
  batch_step-conserves turns size docs s ready e =
      let taken = (batch_pop turns [] size s.broker).0 in
      let (came, so_far, same) = batch_pop-conserves turns [] size s.broker ready in
      append_assoc s.received taken.docs (taken.broker.queue.items ++ reverse docs)
      ∙ ap (◌++◌ s.received) (
          sym (append_assoc taken.docs taken.broker.queue.items (reverse docs))
          ∙ ap (λ xs. xs ++ reverse docs) same
          ∙ append_assoc s.broker.queue.items came (reverse docs)
          ∙ ap (◌++◌ s.broker.queue.items) (sym e))
