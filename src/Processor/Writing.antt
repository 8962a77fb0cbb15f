-- ===== src/Processor/Writing.antt =====
-- The loop of `do_write` in src/asio_processor.cc.
use zbroker.Base.{
  min, length-drop, ℤ, ℕ, zero, suc, ◌+◌, ◌≤◌, ◌<◌, ◌≡◌, refl, ap, sym, ◌∙◌, List, [], ◌∷◌, ◌++◌,
  append-nil, some, Text, reverse, length, drop, drop-drop, arith, ok,
}
use zbroker.SizedQueue.{PushTurn, leave, push_all}
use zbroker.Broker.{Broker, check_status}
use zbroker.Broker.Status.{push_ready}
use zbroker.Broker.Loops.Pushing.{
  push_all_progress, push_all_counts, taken_by, taken_by_none, taken_by_step,
}
use zbroker.Processor.Serving.{write_all}

-- One round of the loop on an open broker.
write_all_step :
    {Obj : Type 0} (fuel : ℕ) (turns : ℕ → PushTurn) (k : ℕ) (doc : Text) (docs : List Text)
    (b : Broker Obj) (n : ℤ)
    → check_status b ≡ ok tt
    → (push_all 0 (turns k) (doc ∷ docs) b.queue).2 ≡ ok n
    → write_all (suc fuel) turns k (doc ∷ docs) b
      ≡ write_all fuel turns
          (suc k)
          (push_all 0 (turns k) (doc ∷ docs) b.queue).1
          (record b { queue = (push_all 0 (turns k) (doc ∷ docs) b.queue).0 })
unfolding write_all
write_all_step fuel turns k doc docs b n h e =
    simp (push_ready b (turns k) (doc ∷ docs) h, e, write_all)

module _ {Obj : Type 0} (turns : ℕ → PushTurn) (takes : (k : ℕ) → 0 < (turns k).taken) where
  -- With an open broker whose limit is positive and whose queue is within it, and while the writing
  -- thread takes an item before each `push`: fuel above the number of texts is enough for the loop
  -- of `do_write`, which ends without an exception. What then stands in the queue is the old content
  -- followed by the texts backwards, without as many from the front as the writing thread has taken
  -- in its turns: all were handed over, in the reverse of their order.
  pub write_all-delivers :
      (fuel k : ℕ) (docs : List Text) (b : Broker Obj)
      → length docs < fuel
      → check_status b ≡ ok tt
      → 0 < b.queue.limit_size
      → length b.queue.items ≤ b.queue.limit_size
      → (b' : Broker Obj) × (write_all fuel turns k docs b ≡ some (b', ok tt))
        × (b'.queue.items
            ≡ drop
                (taken_by turns b.queue.limit_size fuel k (length b.queue.items) (length docs))
                (b.queue.items ++ reverse docs))
  unfolding write_all check_status
  write_all-delivers zero k docs b h c p q = absurd (omega arith)
  write_all-delivers (suc fuel) k [] b h c p q = (
    b,
    refl,
    rw (taken_by_none turns b.queue.limit_size (suc fuel) k (length b.queue.items))
        (sym (append-nil b.queue.items)),
  )
  write_all-delivers (suc fuel) k (doc ∷ docs) b h c p q =
      let t = turns k in
      let pushed = push_all 0 t (doc ∷ docs) b.queue in
      let has_room : length (leave t.taken b.queue).items < b.queue.limit_size =
        omega (arith, length-drop t.taken b.queue.items, takes k) in
      let (same, bounded, shorter, e) =
        push_all_progress 0 t (doc ∷ docs) b.queue (takes k) p q (λ e. cc) in
      let (_, _, first) = push_all_counts 0 t (doc ∷ docs) b.queue has_room in
      let (b', done, content) =
        write_all-delivers fuel (suc k) pushed.1 (record b { queue = pushed.0 }) (omega arith) c
          (omega arith) (omega arith) in
      let n =
        taken_by turns pushed.0.limit_size fuel (suc k) (length pushed.0.items) (length pushed.1) in
      let counted =
        ap
          (λ l.
            min t.taken (length b.queue.items)
            + taken_by turns l fuel (suc k) (length pushed.0.items) (length pushed.1))
          same
        ∙ taken_by_step turns 0 fuel k doc docs b.queue has_room in
      (
        b',
        write_all_step fuel turns k doc docs b _ c e ∙ done,
        content
            ∙ ap (drop n) first
            ∙ drop-drop n (min t.taken (length b.queue.items))
                (b.queue.items ++ reverse (doc ∷ docs))
            ∙ ap (λ m. drop m (b.queue.items ++ reverse (doc ∷ docs))) counted,
      )
