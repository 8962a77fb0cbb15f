-- ===== src/Broker/Loops/Sending.antt =====
-- `update` of src/broker.cc: the texts of the queue become updates of the server, in order.
use zbroker.Base.{
  ℕ, subst, suc, take, append-nil, undefined_behaviour, Error, ◌≡◌, refl, ap, sym, ◌∙◌, ◌⊎◌, inl,
  inr, Bool, List, [], ◌∷◌, ◌++◌, append_assoc, Text, length-append, ok, err, arith, Option-cases,
}
use zbroker.Bson.{Bson}
use zbroker.SizedQueue
use zbroker.SizedQueue.{PopTurn}
use zbroker.SizedQueue.Pop.{nothing_there, timed_out, woken, at_once, pop-Popped}
use zbroker.Broker.Loops.{as_update, Status, UpdateLoop, update_round, update}
use zbroker.Broker.Loops.Sent.{Means, Sends, more_came, IsNew, IsNew-Arrived}

module _ (bson : Bson) where
  open bson use {Obj}

  -- A round whose `pop` returns a text.
  took :
      (start : List Text) (docset : Text) (seen : List (PopTurn Text × Bool)) (t : PopTurn Text)
      (exit : Bool) (u : UpdateLoop bson) (new : List Text) (x : Text) (rest : List Text)
      → u.status ≡ Status.running
      → Sends bson start docset seen u
      → IsNew bson t new
      → u.broker.queue.items ++ new ≡ x ∷ rest
      → SizedQueue.pop 3 t u.broker.queue ≡ (record u.broker.queue { items = rest }, ok x)
      → Sends bson start docset (seen ++ (t, exit) ∷ []) (update_round bson t exit u)
  unfolding update_round
  took start docset seen t exit u new x rest r v w e p =
      elim (Option-cases (as_update bson u.broker.docset x)) [
        | inl f ↦
            rw (ap (λ z. z.1) p, f, update_round)
              (rw (ap (λ z. z.0) p) (record {
                came = v.came ++ new;
                so_far = IsNew-Arrived bson t exit v.so_far w;
                taken = v.taken;
                lost = x ∷ [];
                all_there = more_came bson v new (x ∷ rest) r e;
                sent_all = v.sent_all;
                counted = v.counted;
                same_docset = v.same_docset;
                loses = inr (x, refl, ap (λ d. as_update bson d x) (sym v.same_docset) ∙ f, refl);
                ran_out = λ s. absurd (cc s);
              }))
        | inr (update', f) ↦
            rw (ap (λ z. z.1) p, f, update_round)
              (rw (ap (λ z. z.0) p) (record {
                came = v.came ++ new;
                so_far = IsNew-Arrived bson t exit v.so_far w;
                taken = v.taken ++ x ∷ [];
                lost = [];
                all_there =
                    append_assoc v.taken (x ∷ []) rest ∙ more_came bson v new (x ∷ rest) r e;
                sent_all =
                    Means.one_more x update' v.sent_all
                      (ap (λ d. as_update bson d x) (sym v.same_docset) ∙ f);
                counted = omega (arith, v.counted, length-append v.taken (x ∷ []));
                same_docset = v.same_docset;
                loses = inl refl;
                ran_out = λ s. absurd (cc s);
              }))
      ]

  -- A round that only moves the queue on.
  waited :
      (start : List Text) (docset : Text) (seen : List (PopTurn Text × Bool)) (t : PopTurn Text)
      (exit : Bool) (u w : UpdateLoop bson) (new rest : List Text)
      → u.status ≡ Status.running
      → Sends bson start docset seen u
      → u.broker.queue.items ++ new ≡ rest
      → w.broker.queue.items ≡ rest
      → w.sent ≡ u.sent
      → w.broker.update_count ≡ u.broker.update_count
      → w.broker.docset ≡ u.broker.docset
      → IsNew bson t new
      → (w.status ≡ Status.left → rest ≡ t.during)
      → Sends bson start docset (seen ++ (t, exit) ∷ []) w
  waited start docset seen t exit u w new rest r v e q s n d a l = record {
    came = v.came ++ new;
    so_far = IsNew-Arrived bson t exit v.so_far a;
    taken = v.taken;
    lost = [];
    all_there = ap (◌++◌ v.taken) q ∙ more_came bson v new rest r e;
    sent_all = rw s v.sent_all;
    counted = n ∙ v.counted;
    same_docset = d ∙ v.same_docset;
    loses = inl refl;
    ran_out = λ k. (seen, t, exit, refl, q ∙ l k);
  }

  Status-cases :
      (s : Status bson)
      → (s ≡ Status.running) ⊎ ((s ≡ Status.left) ⊎ ((x : Error) × (s ≡ Status.threw x)))
  Status-cases Status.running = inl refl
  Status-cases Status.left = inr (inl refl)
  Status-cases (Status.threw x) = inr (inr (x, refl))

  -- What a round whose `pop` throws leaves.
  round_err :
      (t : PopTurn Text) (exit : Bool) (u : UpdateLoop bson) (rest : List Text) (x : Error)
      → SizedQueue.pop 3 t u.broker.queue ≡ (record u.broker.queue { items = rest }, err x)
      → ((update_round bson t exit u).broker.queue.items ≡ rest)
        × ((update_round bson t exit u).sent ≡ u.sent)
        × ((update_round bson t exit u).broker.update_count ≡ u.broker.update_count)
        × ((update_round bson t exit u).broker.docset ≡ u.broker.docset)
  unfolding update_round
  round_err t exit u rest x p = rw (ap (λ z. z.1) p, update_round) (ground (arith, ap (λ z. z.0) p))

  round_undefined :
      (t : PopTurn Text) (exit : Bool) (u : UpdateLoop bson) (rest : List Text)
      → SizedQueue.pop 3 t u.broker.queue
        ≡ (record u.broker.queue { items = rest }, err undefined_behaviour)
      → (update_round bson t exit u).status ≡ Status.threw undefined_behaviour
  unfolding update_round
  round_undefined t exit u rest p = rw (ap (λ z. z.1) p, update_round) refl

  -- A round whose `pop` throws.
  took_none :
      (start : List Text) (docset : Text) (seen : List (PopTurn Text × Bool)) (t : PopTurn Text)
      (exit : Bool) (u : UpdateLoop bson) (new rest : List Text) (x : Error)
      → u.status ≡ Status.running
      → Sends bson start docset seen u
      → u.broker.queue.items ++ new ≡ rest
      → SizedQueue.pop 3 t u.broker.queue ≡ (record u.broker.queue { items = rest }, err x)
      → IsNew bson t new
      → ((update_round bson t exit u).status ≡ Status.left → rest ≡ t.during)
      → Sends bson start docset (seen ++ (t, exit) ∷ []) (update_round bson t exit u)
  took_none start docset seen t exit u new rest x r v e p a l =
      let (q, s, n, d) = round_err t exit u rest x p in
      waited start docset seen t exit u _ new rest r v e q s n d a l

  -- One round, by the way in which its `pop` ends.
  pub update_round-Sends :
      (start : List Text) (docset : Text) (seen : List (PopTurn Text × Bool)) (t : PopTurn Text)
      (exit : Bool) (u : UpdateLoop bson)
      → u.status ≡ Status.running
      → Sends bson start docset seen u
      → Sends bson start docset (seen ++ (t, exit) ∷ []) (update_round bson t exit u)
  update_round-Sends start docset seen t exit u r v = elim (pop-Popped 3 t u.broker.queue) [
    | at_once x rest e p ↦ took start docset seen t exit u t.arrived x rest r v (inl refl) e p
    | woken x rest e _ d p ↦
        took start docset seen t exit u (t.arrived ++ t.during) x rest r v (inr refl)
          (sym (append_assoc u.broker.queue.items t.arrived t.during)
            ∙ ap (λ xs. xs ++ t.during) e
            ∙ d)
          p
    | timed_out _ e _ p ↦
        took_none start docset seen t exit u (t.arrived ++ t.during) t.during _ r v
          (sym (append_assoc u.broker.queue.items t.arrived t.during) ∙ ap (λ xs. xs ++ t.during) e)
          p (inr refl) (λ s. refl)
    | nothing_there e _ _ p ↦
        took_none start docset seen t exit u t.arrived [] _ r v e p (inl refl)
          (λ s. absurd (cc (s, round_undefined t exit u [] p)))
  ]

  -- Along some rounds of `update`, from where `Sends` holds, it holds for the turns that the loop
  -- used: what is sent are the updates that the texts taken from the queue stand for, in order, and
  -- as many are counted; the texts taken followed by the queue are the content at the start and
  -- what came in these turns. Only one text may be taken and not sent, one that is no JSON, and
  -- then the loop has thrown; where it has left, its last wait ran out with only what came
  -- meanwhile in the queue.
  pub update-Sends :
      (start : List Text) (docset : Text) (seen turns : List (PopTurn Text × Bool))
      (u : UpdateLoop bson)
      → Sends bson start docset seen u
      → (k : ℕ) × Sends bson start docset (seen ++ take k turns) (update bson turns u)
  unfolding update
  update-Sends start docset seen [] u v =
      (0, subst (λ l. Sends bson start docset l u) (sym (append-nil seen)) v)
  update-Sends start docset seen ((t, exit) ∷ turns) u v = elim (Status-cases u.status) [
    | inl r ↦
        let (k, w) =
          update-Sends start docset (seen ++ (t, exit) ∷ []) turns (update_round bson t exit u)
            (update_round-Sends start docset seen t exit u r v) in
        simp (r, update)
          (
            suc k,
            subst (λ l. Sends bson start docset l (update bson turns (update_round bson t exit u)))
                (append_assoc seen ((t, exit) ∷ []) (take k turns)) w,
          )
    | inr (inl r) ↦
        simp (r, update) (0, subst (λ l. Sends bson start docset l u) (sym (append-nil seen)) v)
    | inr (inr (x, r)) ↦
        simp (r, update) (0, subst (λ l. Sends bson start docset l u) (sym (append-nil seen)) v)
  ]
