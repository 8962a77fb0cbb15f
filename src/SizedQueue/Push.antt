-- ===== src/SizedQueue/Push.antt =====
-- `push` of src/sized_queue.cc for a vector: nothing is lost, the order, the bound, and progress.
use mathlib.Core.List.{reverse-reverse}
use zbroker.Base.{
  ℤ, to_int, drop-drop, drop-append_min, ℕ, zero, suc, ◌+◌, ◌≤◌, ◌<◌, ◌≡◌, refl, ap, ◌∙◌, ◌⊎◌, inl,
  inr, true, false, List, [], ◌∷◌, ◌++◌, append_assoc, reverse, length, length-append, arith,
  Bool-cases, ltb, leb, lt→leb, le→leb, min, Text, drop, Result, Error, Bool, ok, err,
  broker_exception, codes,
}
use zbroker.SizedQueue.{Queue, PushTurn, leave, wait, fill, fill_from, push_all}

module _ {A : Type 0} where
  fill-conserves :
      (limit : ℕ) (queue back : List A)
      → (fill limit queue back).0 ++ (fill limit queue back).1 ≡ queue ++ back
  unfolding fill
  fill-conserves limit queue [] = refl
  fill-conserves limit queue (x ∷ back) = elim (Bool-cases (ltb (length queue) limit)) [
    | inl room ↦
        rw room (fill-conserves limit (queue ++ x ∷ []) back ∙ append_assoc queue (x ∷ []) back)
    | inr full ↦ rw full
  ]

  fill-bounded :
      (limit : ℕ) (queue back : List A)
      → length queue ≤ limit
      → length (fill limit queue back).0 ≤ limit
  unfolding fill
  fill-bounded limit queue [] h = h
  fill-bounded limit queue (x ∷ back) h =
      ground (arith, fill-bounded limit (queue ++ x ∷ []) back, length-append queue (x ∷ []))

  -- The loop stops early only at a full queue.
  fill_stops :
      (limit : ℕ) (queue back : List A)
      → ((fill limit queue back).1 ≡ []) ⊎ (limit ≤ length (fill limit queue back).0)
  unfolding fill
  fill_stops limit queue [] = inl refl
  fill_stops limit queue (x ∷ back) = ground (arith, fill_stops limit (queue ++ x ∷ []) back)

  length-fill :
      (limit : ℕ) (queue back : List A)
      → length (fill limit queue back).0 + length (fill limit queue back).1
        ≡ length queue + length back
  length-fill limit queue back = omega (
    arith,
    ap length (fill-conserves limit queue back),
    length-append (fill limit queue back).0 (fill limit queue back).1,
    length-append queue back,
  )

  -- What a call of the vector's `push` promises of the queue that it leaves, of the vector and of
  -- its result, from the queue that it worked on.
  pub record Pushed (seen : Queue A) (items : List A) (r : Queue A × List A × Result ℤ)
      : Type 0 where
    pub same_limit : r.0.limit_size ≡ seen.limit_size
    -- Nothing is lost or doubled: items go over from the back of the vector, one by one.
    pub conserved : r.0.items ++ reverse r.1 ≡ seen.items ++ reverse items
    pub bounded : length seen.items ≤ seen.limit_size → length r.0.items ≤ seen.limit_size
    -- An item stays behind only if the queue is full.
    pub filled : (r.1 ≡ []) ⊎ (seen.limit_size ≤ length r.0.items)
    pub counted : r.2 ≡ ok (to_int (length r.0.items))

  pub fill_from-Pushed : (items : List A) (q : Queue A) → Pushed q items (fill_from items q)
  unfolding fill_from
  fill_from-Pushed items q = record {
    same_limit = refl;
    conserved =
        rw (reverse-reverse (fill q.limit_size q.items (reverse items)).1)
          (fill-conserves q.limit_size q.items (reverse items));
    bounded = fill-bounded q.limit_size q.items (reverse items);
    filled = elim (fill_stops q.limit_size q.items (reverse items)) [
      | inl e ↦ inl (ap reverse e)
      | inr h ↦ inr h
    ];
    counted = refl;
  }

  -- The ways in which a call of the vector's `push` ends.
  pub data PushEnds (seconds : ℕ) (t : PushTurn) (items : List A) (q : Queue A)
      (r : Queue A × List A × Result ℤ) : Type 0 where
    had_room :
        length (leave t.taken q).items < q.limit_size
        → Pushed (leave t.taken q) items r
        → PushEnds seconds t items q r
    waited :
        q.limit_size ≤ length (leave t.taken q).items
        → (seconds ≡ 0) ⊎ (t.notified ≡ true)
        → Pushed (leave t.during (leave t.taken q)) items r
        → PushEnds seconds t items q r
    timed_out :
        q.limit_size ≤ length (leave t.taken q).items
        → 0 < seconds
        → t.notified ≡ false
        → r
          ≡ (leave t.during (leave t.taken q), items, err (broker_exception (codes "no consumer")))
        → PushEnds seconds t items q r

wait-cases :
    (seconds : ℕ) (notified : Bool) (msg : Text)
    → (((seconds ≡ 0) ⊎ (notified ≡ true)) × (wait seconds notified msg ≡ ok tt))
      ⊎ ((0 < seconds)
          × (notified ≡ false)
          × (wait seconds notified msg ≡ err (broker_exception msg)))
unfolding wait
wait-cases zero notified msg = inl (inl refl, ground arith)
wait-cases (suc n) true msg = inl (inr refl, ground arith)
wait-cases (suc n) false msg = inr (omega arith, refl, ground arith)

module _ {A : Type 0} (seconds : ℕ) (t : PushTurn) (items : List A) (q : Queue A) where
  pub push_all_room :
      length (leave t.taken q).items < q.limit_size
      → push_all seconds t items q ≡ fill_from items (leave t.taken q)
  unfolding push_all
  push_all_room h = rw (lt→leb q.limit_size (length (leave t.taken q).items) h)

  push_all_waits :
      q.limit_size ≤ length (leave t.taken q).items
      → wait seconds t.notified (codes "no consumer") ≡ ok tt
      → push_all seconds t items q ≡ fill_from items (leave t.during (leave t.taken q))
  unfolding push_all
  push_all_waits h w = rw (le→leb q.limit_size (length (leave t.taken q).items) h, w)

  push_all_times_out :
      {e : Error}
      → q.limit_size ≤ length (leave t.taken q).items
      → wait seconds t.notified (codes "no consumer") ≡ err e
      → push_all seconds t items q ≡ (leave t.during (leave t.taken q), items, err e)
  unfolding push_all
  push_all_times_out h w = rw (le→leb q.limit_size (length (leave t.taken q).items) h, w)

  -- A call of the vector's `push` works at once on a queue with room, or on what it finds after a
  -- wait, in both cases as `Pushed` says; or its timed wait runs out, and the vector is as it
  -- was.
  pub push_all-PushEnds : PushEnds seconds t items q (push_all seconds t items q)
  push_all-PushEnds = elim (Bool-cases (leb q.limit_size (length (leave t.taken q).items))) [
    | inr room ↦
        let h : length (leave t.taken q).items < q.limit_size = ground arith in
        had_room h (rw (push_all_room h) (fill_from-Pushed items (leave t.taken q)))
    | inl full ↦
        let h : q.limit_size ≤ length (leave t.taken q).items = ground arith in
        elim (wait-cases seconds t.notified (codes "no consumer")) [
          | inl (w, e) ↦
              waited h w (
                rw (push_all_waits h e) (fill_from-Pushed items (leave t.during (leave t.taken q))))
          | inr (p, n, e) ↦ timed_out h p n (push_all_times_out h e)
        ]
  ]

  -- What stands in the queue and in the vector is, in order, what is left of the old content
  -- followed by the vector backwards; only old items have been taken meanwhile.
  pub push_all-suffix :
      (n : ℕ) × (n ≤ length q.items)
      × ((push_all seconds t items q).0.items ++ reverse (push_all seconds t items q).1
          ≡ drop n (q.items ++ reverse items))
  push_all-suffix = elim push_all-PushEnds [
    | had_room h p ↦ (
      min t.taken (length q.items),
      omega arith,
      p.conserved ∙ drop-append_min t.taken q.items (reverse items),
    )
    | waited h w p ↦ (min (t.taken + t.during) (length q.items), omega arith, p.conserved ∙ both)
    | timed_out h p n e ↦ (min (t.taken + t.during) (length q.items), omega arith, rw e both)
  ]
    where
      both :
          drop t.during (drop t.taken q.items) ++ reverse items
          ≡ drop (min (t.taken + t.during) (length q.items)) (q.items ++ reverse items)
      both =
          ap (λ xs. xs ++ reverse items) (drop-drop t.during t.taken q.items)
          ∙ drop-append_min (t.taken + t.during) q.items (reverse items)
