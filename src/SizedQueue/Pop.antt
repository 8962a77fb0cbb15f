-- ===== src/SizedQueue/Pop.antt =====
-- `pop` of src/sized_queue.cc: every way in which a call may end.
use zbroker.Base.{
  ℕ, zero, suc, ◌<◌, ◌≡◌, refl, ◌⊎◌, inl, inr, Bool, true, false, List, [], ◌∷◌, ◌++◌, arith, codes,
  Result, ok, err, broker_exception, undefined_behaviour,
}
use zbroker.SizedQueue.{Queue, PopTurn, pop}

-- The ways in which `pop` ends, each with what it leaves in the queue.
pub data Popped {A : Type 0} (seconds : ℕ) (t : PopTurn A) (q : Queue A) (r : Queue A × Result A)
    : Type 0 where
  -- An item is there, and the oldest is returned.
  at_once :
      (x : A) (rest : List A)
      → q.items ++ t.arrived ≡ x ∷ rest
      → r ≡ (record q { items = rest }, ok x)
      → Popped seconds t q r
  -- The queue was empty, and the first item that came during the wait is returned.
  woken :
      (x : A) (rest : List A)
      → q.items ++ t.arrived ≡ []
      → (seconds ≡ 0) ⊎ (t.notified ≡ true)
      → t.during ≡ x ∷ rest
      → r ≡ (record q { items = rest }, ok x)
      → Popped seconds t q r
  -- A timed wait ran out.
  timed_out :
      0 < seconds
      → q.items ++ t.arrived ≡ []
      → t.notified ≡ false
      → r ≡ (record q { items = t.during }, err (broker_exception (codes "no more items")))
      → Popped seconds t q r
  -- The wait ended with nothing in the queue.
  nothing_there :
      q.items ++ t.arrived ≡ []
      → (seconds ≡ 0) ⊎ (t.notified ≡ true)
      → t.during ≡ []
      → r ≡ (record q { items = [] }, err undefined_behaviour)
      → Popped seconds t q r

module _ {A : Type 0} (seconds : ℕ) (t : PopTurn A) (q : Queue A) where
  -- By the content at the lock, by the wait's end, and by what came during the wait.
  split_content :
      (content later : List A)
      → q.items ++ t.arrived ≡ content
      → t.during ≡ later
      → (notified : Bool) → t.notified ≡ notified
      → (limit : ℕ) → seconds ≡ limit
      → Popped seconds t q (pop seconds t q)
  unfolding pop
  split_content (x ∷ rest) later e d b w n s = at_once x rest e (ground arith)
  split_content [] [] e d b w zero s = nothing_there e (inl s) d (ground arith)
  split_content [] (y ∷ ys) e d b w zero s = woken y ys e (inl s) d (ground arith)
  split_content [] [] e d true w (suc n) s = nothing_there e (inr w) d (ground arith)
  split_content [] (y ∷ ys) e d true w (suc n) s = woken y ys e (inr w) d (ground arith)
  split_content [] later e d false w (suc n) s = timed_out (omega arith) e w (ground arith)

  -- A call of `pop` returns the oldest item at once, or the first item that came while it waited;
  -- or its timed wait runs out and it throws; or the wait ended with nothing in the queue, and
  -- `front` is undefined.
  pub pop-Popped : Popped seconds t q (pop seconds t q)
  pop-Popped = split_content (q.items ++ t.arrived) t.during refl refl t.notified refl seconds refl
