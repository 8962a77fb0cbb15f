-- ===== src/Broker/Batch/Taken.antt =====
-- What a run of pops takes: nothing is lost, in order, and how many.
use zbroker.Base.{
  codes, ap, broker_exception, undefined_behaviour, Text, Result-cases, ℕ, zero, suc, ◌+◌, ◌≤◌, ◌<◌,
  ◌≡◌, refl, sym, ◌⊎◌, inl, inr, List, [], ◌∷◌, ◌++◌, append-nil, append_assoc, none, some, length,
  length-append, arith, Result, ok, err, Error,
}
use zbroker.SizedQueue
use zbroker.SizedQueue.{Queue, PopTurn}
use zbroker.SizedQueue.Pop.{Popped, pop-Popped, at_once, woken, timed_out, nothing_there}
use zbroker.Broker.{check_status}
use zbroker.Broker.Status.{pop_ready}
use zbroker.Broker.Batch.{Taking, pop_times}

-- What came to the queue during the turns from `k` up to `m`: all that was added before each pop
-- took the lock, and what was added during those of the waits that were made.
pub data Came (turns : ℕ → PopTurn Text) (k : ℕ) : ℕ → List Text → Type 0 where
  none_yet : Came turns k k []
  before :
      {m : ℕ} {xs ys : List Text}
      → Came turns k m xs
      → ys ≡ xs ++ (turns m).arrived
      → Came turns k (suc m) ys
  waiting :
      {m : ℕ} {xs ys : List Text}
      → Came turns k m xs
      → ys ≡ xs ++ ((turns m).arrived ++ (turns m).during)
      → Came turns k (suc m) ys

-- The text that a pop hands over, if it does.
abbrev got : Result Text → List Text
got (ok x) = x ∷ []
got (err e) = []

pop-conserves :
    (seconds : ℕ) (t : PopTurn Text) (q : Queue Text) {r : Queue Text × Result Text}
    → Popped seconds t q r
    → (got r.1 ++ r.0.items ≡ q.items ++ t.arrived)
      ⊎ (got r.1 ++ r.0.items ≡ q.items ++ (t.arrived ++ t.during))
pop-conserves seconds t q (at_once x rest e d) = inl (rw d (sym e))
pop-conserves seconds t q (woken x rest e w d f) =
    inr (rw (f, ← append_assoc q.items t.arrived t.during, e, d))
pop-conserves seconds t q (timed_out p e w f) =
    inr (rw (f, ← append_assoc q.items t.arrived t.during, e))
pop-conserves seconds t q (nothing_there e w d f) = inl (rw (f, e))

regroup :
    (docs items base came more new items' : List Text)
    → docs ++ items ≡ base ++ came
    → new ++ items' ≡ items ++ more
    → (docs ++ new) ++ items' ≡ base ++ (came ++ more)
regroup docs items base came more new items' h k =
    cc (append_assoc docs new items', append_assoc docs items more, append_assoc base came more)

-- What `pop` of an open broker may throw: a timeout; and `front` may be undefined.
abbrev pub IsPopError : Error → Type 0
IsPopError e = ((msg : Text) × (e ≡ broker_exception msg)) ⊎ (e ≡ undefined_behaviour)

pop_error :
    (seconds : ℕ) (t : PopTurn Text) (q : Queue Text) {e : Error}
    → (SizedQueue.pop seconds t q).1 ≡ err e
    → IsPopError e
pop_error seconds t q h = elim (pop-Popped seconds t q) [
  | at_once x rest _ p ↦ absurd (cc (h, ap (λ r. r.1) p))
  | woken x rest _ _ _ p ↦ absurd (cc (h, ap (λ r. r.1) p))
  | timed_out _ _ _ p ↦ inl (codes "no more items", cc (h, ap (λ r. r.1) p))
  | nothing_there _ _ _ p ↦ inr (cc (h, ap (λ r. r.1) p))
]

module _ {Obj : Type 0} (turns : ℕ → PopTurn Text) where
  -- What holds between the pops of a batch: the caller's vector followed by the queue is `base`,
  -- what they were at the start, followed by what came since.
  pub record Kept (base : List Text) (k : ℕ) (s : Taking Obj) : Type 0 where
    pub came : List Text
    pub so_far : Came turns k s.turn came
    pub all_there : s.docs ++ s.broker.queue.items ≡ base ++ came
    pub ready : check_status s.broker ≡ ok tt

  -- The state after one pop.
  abbrev after_pop : ℕ → Taking Obj → Taking Obj
  after_pop seconds s =
      let (q, r) = SizedQueue.pop seconds (turns s.turn) s.broker.queue in
      record { broker = record s.broker { queue = q }; docs = s.docs ++ got r; turn = suc s.turn }

  after_pop-Kept :
      (base : List Text) (k seconds : ℕ) (s : Taking Obj)
      → Kept base k s
      → Kept base k (after_pop seconds s)
  unfolding check_status
  after_pop-Kept base k seconds s v =
      elim (pop-conserves seconds (turns s.turn) s.broker.queue
        (pop-Popped seconds (turns s.turn) s.broker.queue)) [
          | inl h ↦ record {
            came = v.came ++ (turns s.turn).arrived;
            so_far = before v.so_far refl;
            all_there = regroup s.docs _ base v.came _ _ _ v.all_there h;
            ready = v.ready;
          }
          | inr h ↦ record {
            came = v.came ++ ((turns s.turn).arrived ++ (turns s.turn).during);
            so_far = waiting v.so_far refl;
            all_there = regroup s.docs _ base v.came _ _ _ v.all_there h;
            ready = v.ready;
          }
        ]

  pop_times_ok :
      (seconds n : ℕ) (s : Taking Obj) {doc : Text}
      → check_status s.broker ≡ ok tt
      → (SizedQueue.pop seconds (turns s.turn) s.broker.queue).1 ≡ ok doc
      → pop_times turns seconds (suc n) s ≡ pop_times turns seconds n (after_pop seconds s)
  unfolding pop_times
  pop_times_ok seconds n s h e =
      rw (pop_ready s.broker seconds (turns s.turn) h, e, pop_times)
        (rw (pop_ready s.broker seconds (turns s.turn) h))

  pop_times_err :
      (seconds n : ℕ) (s : Taking Obj) {e : Error}
      → check_status s.broker ≡ ok tt
      → (SizedQueue.pop seconds (turns s.turn) s.broker.queue).1 ≡ err e
      → pop_times turns seconds (suc n) s ≡ (after_pop seconds s, some e)
  unfolding pop_times
  pop_times_err seconds n s h e =
      rw (pop_ready s.broker seconds (turns s.turn) h, e, append-nil s.docs, pop_times)
        (rw (pop_ready s.broker seconds (turns s.turn) h))

  pub pop_times-Kept :
      (base : List Text) (k seconds n : ℕ) (s : Taking Obj)
      → Kept base k s
      → Kept base k (pop_times turns seconds n s).0
  pop_times-Kept base k seconds zero s v = unfold pop_times in v
  pop_times-Kept base k seconds (suc n) s v =
      elim (Result-cases (SizedQueue.pop seconds (turns s.turn) s.broker.queue).1) [
        | inl (doc, e) ↦
            rw (pop_times_ok seconds n s v.ready e)
              (pop_times-Kept base k seconds n _ (after_pop-Kept base k seconds s v))
        | inr (e', e) ↦ rw (pop_times_err seconds n s v.ready e) (after_pop-Kept base k seconds s v)
      ]

  -- How much the vector has grown: by each pop if none failed, and by fewer otherwise.
  pub pop_times_count :
      (base : List Text) (k seconds n : ℕ) (s : Taking Obj)
      → Kept base k s
      → (((pop_times turns seconds n s).1 ≡ none)
          × (length (pop_times turns seconds n s).0.docs ≡ length s.docs + n))
        ⊎ ((e : Error) × ((pop_times turns seconds n s).1 ≡ some e)
            × (length s.docs ≤ length (pop_times turns seconds n s).0.docs)
            × (length (pop_times turns seconds n s).0.docs < length s.docs + n)
            × IsPopError e)
  pop_times_count base k seconds zero s v = unfold pop_times in inl (refl, omega arith)
  pop_times_count base k seconds (suc n) s v =
      elim (Result-cases (SizedQueue.pop seconds (turns s.turn) s.broker.queue).1) [
        | inl (doc, e) ↦
            let longer : length (after_pop seconds s).docs ≡ length s.docs + 1 =
              rw e (length-append s.docs (doc ∷ [])) in
            rw (pop_times_ok seconds n s v.ready e)
              (elim (pop_times_count base k seconds n _ (after_pop-Kept base k seconds s v)) [
                | inl (f, c) ↦ inl (f, omega arith)
                | inr (e', f, c, d, i) ↦ inr (e', f, omega arith, omega arith, i)
              ])
        | inr (e', e) ↦
            rw (pop_times_err seconds n s v.ready e, e, append-nil s.docs)
              (inr (
                e',
                refl,
                omega arith,
                omega arith,
                pop_error seconds (turns s.turn) s.broker.queue e,
              ))
      ]
