-- ===== src/Broker/Loops/Outbox/InOrder.antt =====
-- What the thread of `update` sends of what clients write.
use zbroker.Base.{
  none, ◌≡◌, refl, ap, sym, ◌∙◌, ◌⊎◌, inl, inr, Bool, List, [], ◌∷◌, ◌++◌, append-nil, append_assoc,
  reverse, Text, length, ok, json_error, All, All-last, arith,
}
use zbroker.Bson.{Bson}
use zbroker.SizedQueue.{Queue, PopTurn, PushTurn}
use zbroker.SizedQueue.Push.{timed_out, waited, had_room, push_all-PushEnds}
use zbroker.Broker
use zbroker.Broker.{Broker, check_status}
use zbroker.Broker.Loops.{as_update, Status, update_round}
use zbroker.Broker.Loops.Sent.{Means, Arrived, Sends}
use zbroker.Broker.Loops.Sending.{update_round-Sends}
use zbroker.Broker.Loops.Outbox.{
  Outbox, new_outbox, write_step, hand_step, send_step, Reach, start, writes, hands, sends,
}

-- A turn in which nothing comes.
abbrev IsQuiet : PopTurn Text × Bool → Type 0
IsQuiet t = (t.0.arrived ≡ []) × (t.0.during ≡ [])

All-front : {A : Type 0} (P : A → Type 0) (xs ys : List A) → All P (xs ++ ys) → All P xs
All-front P [] ys h = tt
All-front P (x ∷ xs) ys (h, k) = (h, All-front P xs ys k)

module _ (bson : Bson) where
  open bson use {Obj}

  Arrived-quiet :
      {seen : List (PopTurn Text × Bool)} {came : List Text}
      → Arrived bson seen came
      → All IsQuiet seen
      → came ≡ []
  Arrived-quiet Arrived.nothing_yet q = refl
  Arrived-quiet (Arrived.at_the_lock {seen} {came} t exit a) q =
      let (h, k) = All-last IsQuiet seen (t, exit) q in
      ap (λ xs. xs ++ t.arrived) (Arrived-quiet a (All-front IsQuiet seen _ q)) ∙ h
  Arrived-quiet (Arrived.and_waiting {seen} {came} t exit a) q =
      let (h, k) = All-last IsQuiet seen (t, exit) q in
      ap (λ xs. xs ++ (t.arrived ++ t.during)) (Arrived-quiet a (All-front IsQuiet seen _ q))
      ∙ ap (λ xs. xs ++ t.during) h
      ∙ k

  -- Where an outbox stands that began with `old` in the queue and nothing sent.
  pub record Sending (old : List Text) (docset : Text) (s : Outbox bson) : Type 0 where
    pub taken : List Text
    pub lost : List Text
    pub all_there :
        taken ++ (lost ++ (s.loop.broker.queue.items ++ reverse s.docs)) ≡ old ++ s.written
    pub sent_all : Means bson docset taken s.loop.sent
    pub counted : s.loop.broker.update_count ≡ length taken
    pub same_docset : s.loop.broker.docset ≡ docset
    pub loses :
        (lost ≡ [])
        ⊎ ((x : Text) × (lost ≡ x ∷ [])
            × (as_update bson docset x ≡ none)
            × (s.loop.status ≡ Status.threw json_error))

  write_step-Sending :
      (old : List Text) (docset : Text) (docs : List Text) (s : Outbox bson)
      → Sending old docset s
      → s.docs ≡ []
      → Sending old docset (write_step bson docs s)
  unfolding write_step
  write_step-Sending old docset docs s v e =
      let items = s.loop.broker.queue.items in
      record {
        taken = v.taken;
        lost = v.lost;
        all_there =
            ap (λ xs. v.taken ++ (v.lost ++ (xs ++ reverse docs)))
              (sym (append-nil items) ∙ ap (λ xs. items ++ reverse xs) (sym e))
            ∙ ap (◌++◌ v.taken) (sym (append_assoc v.lost (items ++ reverse s.docs) (reverse docs)))
            ∙ sym (append_assoc v.taken (v.lost ++ (items ++ reverse s.docs)) (reverse docs))
            ∙ ap (λ xs. xs ++ reverse docs) v.all_there
            ∙ append_assoc old s.written (reverse docs);
        sent_all = v.sent_all;
        counted = v.counted;
        same_docset = v.same_docset;
        loses = v.loses;
      }

  -- A `push` changes the broker's queue only, and loses nothing.
  push-conserves :
      (notified : Bool) (docs : List Text) (b : Broker Obj)
      → check_status b ≡ ok tt
      → (q : Queue Text) × (rest : List Text) × ((Broker.push
            (record { taken = 0; during = 0; notified = notified })
            docs
            b).0
          ≡ record b { queue = q })
        × ((Broker.push (record { taken = 0; during = 0; notified = notified }) docs b).1 ≡ rest)
        × (q.items ++ reverse rest ≡ b.queue.items ++ reverse docs)
  unfolding Broker.push
  push-conserves notified docs b c =
      let t : PushTurn = record { taken = 0; during = 0; notified = notified } in
      elim (push_all-PushEnds 0 t docs b.queue) [
        | had_room h p ↦ rw (c, Broker.push) (_, _, refl, refl, p.conserved)
        | waited h w p ↦ rw (c, Broker.push) (_, _, refl, refl, p.conserved)
        | timed_out h p n e ↦ absurd (omega arith)
      ]

  hand_step-Sending :
      (old : List Text) (docset : Text) (notified : Bool) (s : Outbox bson)
      → Sending old docset s
      → check_status s.loop.broker ≡ ok tt
      → Sending old docset (hand_step bson notified s)
  unfolding hand_step
  hand_step-Sending old docset notified s v c =
      let (q, rest, e, f, same) = push-conserves notified s.docs s.loop.broker c in
      rw (e, f)
        (record {
          taken = v.taken;
          lost = v.lost;
          all_there = ap (λ xs. v.taken ++ (v.lost ++ xs)) same ∙ v.all_there;
          sent_all = v.sent_all;
          counted = v.counted;
          same_docset = v.same_docset;
          loses = v.loses;
        })

  -- A loop that runs, seen from where it stands now.
  now_Sends :
      (old : List Text) (docset : Text) (s : Outbox bson) (v : Sending old docset s)
      → s.loop.status ≡ Status.running
      → Sends bson (v.taken ++ s.loop.broker.queue.items) docset [] s.loop
  now_Sends old docset s v r = record {
    came = [];
    so_far = Arrived.nothing_yet;
    taken = v.taken;
    lost = [];
    all_there = sym (append-nil (v.taken ++ s.loop.broker.queue.items));
    sent_all = v.sent_all;
    counted = v.counted;
    same_docset = v.same_docset;
    loses = inl refl;
    ran_out = λ l. absurd (cc (r, l));
  }

  running-none_lost :
      (old : List Text) (docset : Text) (s : Outbox bson) (v : Sending old docset s)
      → s.loop.status ≡ Status.running
      → v.taken ++ (s.loop.broker.queue.items ++ reverse s.docs) ≡ old ++ s.written
  running-none_lost old docset s v r = elim v.loses [
    | inl e ↦
        ap (λ l. v.taken ++ (l ++ (s.loop.broker.queue.items ++ reverse s.docs))) (sym e)
        ∙ v.all_there
    | inr (x, f, g, e) ↦ absurd (cc (r, e))
  ]

  send_step-Sending :
      (old : List Text) (docset : Text) (notified exit : Bool) (s : Outbox bson)
      → Sending old docset s
      → s.loop.status ≡ Status.running
      → Sending old docset (send_step bson notified exit s)
  unfolding send_step
  send_step-Sending old docset notified exit s v r =
      let t : PopTurn Text = record { arrived = []; during = []; notified = notified } in
      let items = s.loop.broker.queue.items in
      let w =
        update_round-Sends bson (v.taken ++ items) docset [] t exit s.loop r
          (now_Sends old docset s v r) in
      let u = update_round bson t exit s.loop in
      let none_came = Arrived-quiet w.so_far ((refl, refl), tt) in
      record {
        taken = w.taken;
        lost = w.lost;
        all_there =
            ap (◌++◌ w.taken) (sym (append_assoc w.lost u.broker.queue.items (reverse s.docs)))
            ∙ sym (append_assoc w.taken (w.lost ++ u.broker.queue.items) (reverse s.docs))
            ∙ ap (λ xs. xs ++ reverse s.docs)
                (w.all_there
                  ∙ ap (◌++◌ (v.taken ++ items)) none_came
                  ∙ append-nil (v.taken ++ items))
            ∙ append_assoc v.taken items (reverse s.docs)
            ∙ running-none_lost old docset s v r;
        sent_all = w.sent_all;
        counted = w.counted;
        same_docset = w.same_docset;
        loses = w.loses;
      }

  -- Along every run of clients that write to an open broker and of the thread of `update`, in any
  -- order of their steps, from nothing sent and counted: the updates that were sent are those that
  -- some texts stand for, in order, and as many are counted; these texts, one that was no JSON if
  -- the thread has thrown for it, the queue, and the vector backwards are the old content of the
  -- queue and all that was written, each client's vector backwards.
  pub Reach-Sending :
      (b : Broker Obj) {s : Outbox bson}
      → b.update_count ≡ 0
      → Reach bson (new_outbox bson b) s
      → Sending b.queue.items b.docset s
  Reach-Sending b c start = record {
    taken = [];
    lost = [];
    all_there = refl;
    sent_all = Means.nothing;
    counted = c;
    same_docset = refl;
    loses = inl refl;
  }
  Reach-Sending b c (writes {s = s} docs r e) =
      write_step-Sending b.queue.items b.docset docs s (Reach-Sending b c r) e
  Reach-Sending b c (hands {s = s} notified r o h) =
      hand_step-Sending b.queue.items b.docset notified s (Reach-Sending b c r) o
  Reach-Sending b c (sends {s = s} notified exit r h) =
      send_step-Sending b.queue.items b.docset notified exit s (Reach-Sending b c r) h
