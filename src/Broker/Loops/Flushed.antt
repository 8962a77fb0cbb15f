-- ===== src/Broker/Loops/Flushed.antt =====
-- The end of `update` of src/broker.cc: everything was sent.
use zbroker.Base.{
  ℕ, ◌≡◌, ap, sym, ◌∙◌, inl, inr, Bool, List, [], ◌++◌, append-nil, Text, take, All, All-take,
  All-last, subst,
}
use zbroker.Bson.{Bson}
use zbroker.SizedQueue.{PopTurn}
use zbroker.Broker.Loops.{Status, UpdateLoop, update}
use zbroker.Broker.Loops.Sent.{Sends, Means, Arrived}
use zbroker.Broker.Loops.Sending.{update-Sends}

module _ (bson : Bson) where
  open bson use {Obj}

  -- A loop of `update` that leaves, where nothing is pushed while it waits: it has sent, in order,
  -- the updates that the whole content at the start stands for and then all that came, and the
  -- queue is empty.
  pub update-flushes :
      (start : List Text) (docset : Text) (turns : List (PopTurn Text × Bool)) (u : UpdateLoop bson)
      → Sends bson start docset [] u
      → All (λ (t, exit). t.during ≡ []) turns
      → (update bson turns u).status ≡ Status.left
      → (k : ℕ) × (came : List Text) × Arrived bson (take k turns) came
        × Means bson docset (start ++ came) (update bson turns u).sent
        × ((update bson turns u).broker.queue.items ≡ [])
  update-flushes start docset turns u v quiet l =
      let (k, w) = update-Sends bson start docset [] turns u v in
      let (front, t, exit, last, items) = w.ran_out l in
      let empty : t.during ≡ [] =
        All-last (λ (t, exit). t.during ≡ []) front (t, exit)
          (subst (All (λ (t, exit). t.during ≡ [])) last
            (All-take (λ (t, exit). t.during ≡ []) k turns quiet)) in
      let none_left = items ∙ empty in
      elim w.loses [
        | inr (x, f, g, e) ↦ absurd (cc (l, e))
        | inl e ↦
            let all : w.taken ≡ start ++ w.came =
              sym (append-nil w.taken)
              ∙ ap (◌++◌ w.taken) (
                  ap (◌++◌ []) (sym none_left)
                  ∙ ap (λ xs. xs ++ (update bson turns u).broker.queue.items) (sym e))
              ∙ w.all_there in
            (
              k,
              w.came,
              w.so_far,
              subst (λ xs. Means bson docset xs (update bson turns u).sent) all w.sent_all,
              none_left,
            )
      ]
