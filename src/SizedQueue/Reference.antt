-- ===== src/SizedQueue/Reference.antt =====
-- The vector's `push` of src/sized_queue.cc in closed form.
use zbroker.Base.{
  to_int, ℕ, suc, ◌-◌, ◌≤◌, ◌<◌, ◌≡◌, ap, sym, ◌∙◌, inl, inr, List, [], ◌∷◌, ◌++◌, append-nil,
  append_assoc, reverse, length, length-append, take, drop, take-nil, drop-ge_length, ltb,
  Bool-cases, ok, arith,
}
use zbroker.SizedQueue.{Queue, PushTurn, fill, fill_from, push_all, leave}
use zbroker.SizedQueue.Push.{push_all_room}

-- The room of a queue.
abbrev pub room : {A : Type 0} → Queue A → ℕ
room q = q.limit_size - length q.items

module _ {A : Type 0} where
  fill_lem :
      (limit : ℕ) (queue back : List A)
      → fill limit queue back
        ≡ (queue ++ take (limit - length queue) back, drop (limit - length queue) back)
  unfolding fill
  fill_lem limit queue [] =
      let n = limit - length queue in
      ap (λ xs. (xs, [])) (sym (append-nil queue))
      ∙ (λ i. (queue ++ sym (take-nil n) i, sym (drop-ge_length n [] (omega arith)) i))
  fill_lem limit queue (x ∷ back) = elim (Bool-cases (ltb (length queue) limit)) [
    | inl e ↦
        let m = limit - length (queue ++ x ∷ []) in
        let lt : length queue < limit = ground arith in
        let k : limit - length queue ≡ suc m = omega (arith, length-append queue (x ∷ [])) in
        rw (e, k)
          (fill_lem limit (queue ++ x ∷ []) back
            ∙ ap (λ xs. (xs, drop m back)) (append_assoc queue (x ∷ []) (take m back)))
    | inr e ↦
        let ge : limit ≤ length queue = ground arith in
        let k : limit - length queue ≡ 0 = omega arith in
        rw (e, k) (ap (λ xs. (xs, x ∷ back)) (sym (append-nil queue)))
  ]

  -- The vector's `push` on a queue with room is this: as many items as there is room for go over
  -- from the back of the vector, the last one first, and the others stay; the new size is returned as
  -- an int.
  pub push_all-reference :
      (seconds : ℕ) (t : PushTurn) (items : List A) (q : Queue A)
      → length (leave t.taken q).items < q.limit_size
      → push_all seconds t items q ≡ (
        record q {
          items = (leave t.taken q).items ++ take (room (leave t.taken q)) (reverse items);
        },
        reverse (drop (room (leave t.taken q)) (reverse items)),
        ok (
            to_int
              (length ((leave t.taken q).items ++ take (room (leave t.taken q)) (reverse items)))),
      )
  unfolding fill_from
  push_all-reference seconds t items q h =
      push_all_room seconds t items q h
      ∙ ap (λ r. (record q { items = r.0 }, reverse r.1, ok (to_int (length r.0))))
          (fill_lem q.limit_size (leave t.taken q).items (reverse items))
