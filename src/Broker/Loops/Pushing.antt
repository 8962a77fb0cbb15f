-- ===== src/Broker/Loops/Pushing.antt =====
-- The inner loop of `read`: a batch goes to the queue whole, in whatever portions fit.
use zbroker.Base.{
  ◌-◌, min, take, length-take, drop-append_min, to_int, ok, ℕ, zero, suc, ◌+◌, ◌≤◌, ◌<◌, ◌≡◌, ◌≢◌,
  refl, ap, sym, ◌∙◌, inl, inr, false, List, [], ◌∷◌, ◌++◌, append-nil, some, Text, reverse, length,
  length-append, length-reverse, length-drop, drop, drop-drop, arith, ne-nil_pos,
}
use zbroker.SizedQueue.{Queue, PushTurn, leave, push_all, fill_from}
use zbroker.SizedQueue.Reference.{room, push_all-reference}
use zbroker.SizedQueue.Push.{Pushed, fill_from-Pushed, push_all_room}
use zbroker.Broker.{Broker}
use zbroker.Broker.Loops.{Round, push_docs}

-- The popping thread takes at least one item before each `push`, and nobody asks to stop.
pub record Flows {Obj : Type 0} (r : Round Obj) : Type 0 where
  pub takes : (k : ℕ) → 0 < (r.turns k).taken
  pub goes_on : (k : ℕ) → r.exits k ≡ false

-- One call with room for an item: it returns the new size, the queue stays within its limit, and
-- the vector gets shorter.
pub push_all_progress :
    (seconds : ℕ) (t : PushTurn) (items : List Text) (q : Queue Text)
    → 0 < t.taken
    → 0 < q.limit_size
    → length q.items ≤ q.limit_size
    → items ≢ []
    → ((push_all seconds t items q).0.limit_size ≡ q.limit_size)
      × (length (push_all seconds t items q).0.items ≤ q.limit_size)
      × (length (push_all seconds t items q).1 < length items)
      × ((push_all seconds t items q).2 ≡ ok (to_int (length (push_all seconds t items q).0.items)))
push_all_progress seconds t items q taken positive bounded h =
    rw (push_all_room seconds t items q has_room) (
      p.same_limit,
      p.bounded (omega (arith, length-drop t.taken q.items)),
      elim p.filled [
        | inl all ↦ omega (arith, ap length all, ne-nil_pos items h)
        | inr full ↦ omega (
          arith,
          has_room,
          ap length p.conserved,
          length-append (fill_from items seen).0.items (reverse (fill_from items seen).1),
          length-append seen.items (reverse items),
          length-reverse (fill_from items seen).1,
          length-reverse items,
        )
      ],
      p.counted,
    )
  where
    seen : Queue Text
    seen = leave t.taken q

    has_room : length (drop t.taken q.items) < q.limit_size
    has_room = omega (arith, length-drop t.taken q.items)

    p : Pushed seen items (fill_from items seen)
    p = fill_from-Pushed items seen

-- How many items the popping thread takes while a vector of some length goes over to a queue of some
-- length, counted turn by turn: before each `push` what it wants of what is there, and then as many
-- items go over as there is room for.
pub taken_by : (turns : ℕ → PushTurn) (limit fuel k len left : ℕ) → ℕ
taken_by turns limit zero k len left = 0
taken_by turns limit (suc fuel) k len zero = 0
taken_by turns limit (suc fuel) k len (suc left) =
    let moved = min (limit - (len - (turns k).taken)) (suc left) in
    min (turns k).taken len
    + taken_by turns limit fuel (suc k) (len - (turns k).taken + moved) (suc left - moved)

pub taken_by_none :
    (turns : ℕ → PushTurn) (limit fuel k len : ℕ) → taken_by turns limit fuel k len 0 ≡ 0
unfolding taken_by
taken_by_none turns limit zero k len = refl
taken_by_none turns limit (suc fuel) k len = refl

-- One call with room for an item, in numbers, and what then stands in the queue and the vector.
pub push_all_counts :
    (seconds : ℕ) (t : PushTurn) (items : List Text) (q : Queue Text)
    → length (leave t.taken q).items < q.limit_size
    → (length (push_all seconds t items q).0.items
        ≡ length q.items - t.taken + min (q.limit_size - (length q.items - t.taken)) (length items))
      × (length (push_all seconds t items q).1
          ≡ length items - min (q.limit_size - (length q.items - t.taken)) (length items))
      × ((push_all seconds t items q).0.items ++ reverse (push_all seconds t items q).1
          ≡ drop (min t.taken (length q.items)) (q.items ++ reverse items))
push_all_counts seconds t items q h =
    let seen = leave t.taken q in
    let n = room seen in
    let p = fill_from-Pushed items seen in
    (
      ap (λ r. length r.0.items) (push_all-reference seconds t items q h)
          ∙ omega (
            arith,
            length-append seen.items (take n (reverse items)),
            length-take n (reverse items),
            length-reverse items,
            length-drop t.taken q.items,
          ),
      ap (λ r. length r.1) (push_all-reference seconds t items q h)
          ∙ omega (
            arith,
            length-reverse (drop n (reverse items)),
            length-drop n (reverse items),
            length-reverse items,
            length-drop t.taken q.items,
          ),
      ap (λ r. r.0.items ++ reverse r.1) (push_all_room seconds t items q h)
          ∙ p.conserved
          ∙ drop-append_min t.taken q.items (reverse items),
    )

-- The count of one turn and the rest.
pub taken_by_step :
    (turns : ℕ → PushTurn) (seconds fuel k : ℕ) (doc : Text) (docs : List Text) (q : Queue Text)
    → length (leave (turns k).taken q).items < q.limit_size
    → min (turns k).taken (length q.items)
        + taken_by turns q.limit_size fuel
            (suc k)
            (length (push_all seconds (turns k) (doc ∷ docs) q).0.items)
            (length (push_all seconds (turns k) (doc ∷ docs) q).1)
      ≡ taken_by turns q.limit_size (suc fuel) k (length q.items) (length (doc ∷ docs))
unfolding taken_by
taken_by_step turns seconds fuel k doc docs q h =
    let (len, left, _) = push_all_counts seconds (turns k) (doc ∷ docs) q h in
    ap (λ n. min (turns k).taken (length q.items) + n)
      (λ i. taken_by turns q.limit_size fuel (suc k) (len i) (left i))

module _ {Obj : Type 0} (r : Round Obj) (seconds : ℕ) (flows : Flows r) where
  -- With a positive limit and a queue within it, while the popping thread takes an item before each
  -- `push` and nobody asks to stop: fuel above the size of the batch is enough, and the loop ends
  -- with the whole batch handed over and only the queue changed, which keeps within its limit. What
  -- then stands in it is the old content followed by the batch backwards, without as many from the
  -- front as the popping thread has taken in its turns.
  pub push_docs-delivers :
      (fuel k : ℕ) (docs : List Text) (b : Broker Obj)
      → length docs < fuel
      → 0 < b.queue.limit_size
      → length b.queue.items ≤ b.queue.limit_size
      → (q : Queue Text) × (push_docs fuel r seconds k docs b ≡ some (record b { queue = q }, []))
        × (q.limit_size ≡ b.queue.limit_size)
        × (length q.items ≤ q.limit_size)
        × (q.items
            ≡ drop
                (taken_by r.turns b.queue.limit_size fuel k (length b.queue.items) (length docs))
                (b.queue.items ++ reverse docs))
  unfolding push_docs
  push_docs-delivers zero k docs b h p q = absurd (omega arith)
  push_docs-delivers (suc fuel) k [] b h p q = (
    b.queue,
    refl,
    refl,
    q,
    rw (taken_by_none r.turns b.queue.limit_size (suc fuel) k (length b.queue.items))
        (sym (append-nil b.queue.items)),
  )
  push_docs-delivers (suc fuel) k (doc ∷ docs) b h p q =
      let t = r.turns k in
      let pushed = push_all seconds t (doc ∷ docs) b.queue in
      let has_room : length (leave t.taken b.queue).items < b.queue.limit_size =
        omega (arith, length-drop t.taken b.queue.items, flows.takes k) in
      let (same, bounded, shorter, _) =
        push_all_progress seconds t (doc ∷ docs) b.queue (flows.takes k) p q (λ e. cc) in
      let (_, _, first) = push_all_counts seconds t (doc ∷ docs) b.queue has_room in
      let (q', done, same', within, content) =
        push_docs-delivers fuel (suc k) pushed.1 (record b { queue = pushed.0 }) (omega arith)
          (omega arith) (omega arith) in
      let n =
        taken_by r.turns pushed.0.limit_size fuel (suc k) (length pushed.0.items)
          (length pushed.1) in
      let counted =
        ap
          (λ l.
            min t.taken (length b.queue.items)
            + taken_by r.turns l fuel (suc k) (length pushed.0.items) (length pushed.1))
          same
        ∙ taken_by_step r.turns seconds fuel k doc docs b.queue has_room in
      (
        q',
        rw (flows.goes_on k) done,
        same' ∙ same,
        within,
        content
            ∙ ap (drop n) first
            ∙ drop-drop n (min t.taken (length b.queue.items))
                (b.queue.items ++ reverse (doc ∷ docs))
            ∙ ap (λ m. drop m (b.queue.items ++ reverse (doc ∷ docs))) counted,
      )
