-- ===== src/Broker/Batch/Rounds.antt =====
-- The rounds of `batch_pop`: what it returns and takes, over both of its attempts.
use zbroker.Base.{
  assertion_failed, undefined_behaviour, scale, fits_int, Bool-cases, to_size_t, broker_exception,
  ℤ, ulong_max, ℕ, zero, suc, ◌+◌, ◌-◌, ◌*◌, ◌≤◌, ◌<◌, ◌≡◌, refl, ap, sym, ◌∙◌, ◌⊎◌, inl, inr, List,
  [], ◌++◌, append-nil, append_assoc, Option, none, some, Text, length, arith, Result, ok, err,
  Error,
}
use zbroker.SizedQueue.{PopTurn}
use zbroker.Broker.{Broker, check_status}
use zbroker.Broker.Batch.{give_up, Taking, pop_times, settle, rounds, batch_pop}
use zbroker.Broker.Batch.Taken.{IsPopError, Came, Kept, pop_times-Kept, pop_times_count}

module _ {Obj : Type 0} (turns : ℕ → PopTurn Text) where
  pub settle_keeps :
      (P : Taking Obj → Type 0) (again : ℤ → Taking Obj → Taking Obj × Result ℕ) (retry : ℕ)
      (r : Taking Obj × Option Error)
      → P r.0
      → ((t : ℤ) (s : Taking Obj) → P s → P (again t s).0)
      → P (settle turns again retry r).0
  unfolding settle
  settle_keeps P again retry (s, none) h k = h
  settle_keeps P again retry (s, some (broker_exception msg)) h k =
      elim (Bool-cases s.broker.querying) [
        | inl w ↦ simp (w) h
        | inr w ↦ elim (Bool-cases (fits_int (scale (suc retry) s.broker.read_timeout))) [
          | inl e ↦ simp (w, e) (k _ _ h)
          | inr e ↦ simp (w, e) h
        ]
      ]
  settle_keeps P again retry (s, some e) h k = h

  rounds-Kept :
      (base : List Text) (k batch_size retry : ℕ) (timeout : ℤ) (left : ℕ) (s : Taking Obj)
      → Kept turns base k s
      → Kept turns base k (rounds turns batch_size retry timeout left s).0
  unfolding rounds give_up
  rounds-Kept base k batch_size retry timeout zero s v =
      settle_keeps (Kept turns base k) (give_up turns) retry
        (pop_times turns (to_size_t timeout) batch_size s)
        (pop_times-Kept turns base k (to_size_t timeout) batch_size s v) (λ t s' w. w)
  rounds-Kept base k batch_size retry timeout (suc left) s v =
      settle_keeps (Kept turns base k) (λ next s'. rounds turns batch_size (suc retry) next left s')
        retry (pop_times turns (to_size_t timeout) batch_size s)
        (pop_times-Kept turns base k (to_size_t timeout) batch_size s v)
        (λ t s' w. rounds-Kept base k batch_size (suc retry) t left s' w)

  -- What a batch comes to, from a vector of `n` texts: all of it in some round, or nothing more
  -- after the last round, or a fault.
  abbrev pub Counted : ℕ → ℕ → ℕ → Taking Obj × Result ℕ → Type 0
  Counted n batch_size left r =
      ((r.1 ≡ ok (length r.0.docs))
        × (n + batch_size ≤ length r.0.docs)
        × (length r.0.docs ≤ n + suc left * (batch_size - 1) + 1))
      ⊎ ((r.1 ≡ ok ulong_max)
          × (n ≤ length r.0.docs)
          × (length r.0.docs ≤ n + suc left * (batch_size - 1)))
      ⊎ (r.1 ≡ err undefined_behaviour)

  -- How far one round of pops gets.
  abbrev Popping : ℕ → ℕ → Taking Obj × Option Error → Type 0
  Popping n batch_size r =
      ((r.1 ≡ none) × (length r.0.docs ≡ n + batch_size))
      ⊎ ((e : Error) × (r.1 ≡ some e)
          × (n ≤ length r.0.docs)
          × (length r.0.docs < n + batch_size)
          × IsPopError e)

  settle-Counted :
      (n p left retry : ℕ) (again : ℤ → Taking Obj → Taking Obj × Result ℕ)
      (r : Taking Obj × Option Error)
      → Popping n (suc p) r
      → ((t : ℤ) (s : Taking Obj)
          → n ≤ length s.docs
          → length s.docs < n + suc p
          → s ≡ r.0
          → Counted n (suc p) left (again t s))
      → Counted n (suc p) left (settle turns again retry r)
  unfolding settle
  settle-Counted n p left retry again (s, none) (inl (f, c)) k =
      inl (refl, omega arith, omega arith)
  settle-Counted n p left retry again (s, none) (inr (e, f, c, d, i)) k = cc
  settle-Counted n p left retry again (s, some e) (inl (f, c)) k = cc
  settle-Counted n p left retry again (s, some (broker_exception msg)) (inr (e, f, c, d, i)) k =
      elim (Bool-cases s.broker.querying) [
        | inl w ↦ simp (w) (inr (inr refl))
        | inr w ↦ elim (Bool-cases (fits_int (scale (suc retry) s.broker.read_timeout))) [
          | inl h ↦ simp (w, h) (k _ _ c d refl)
          | inr h ↦ simp (w, h) (inr (inr refl))
        ]
      ]
  settle-Counted n p left retry again (s, some e') (inr (e, f, c, d, i)) k = elim i [
    | inl (msg, g) ↦ absurd (cc (f, g))
    | inr g ↦ inr (inr (cc (f, g)))
  ]

  -- A batch from a longer vector with fewer rounds, seen from the vector before the round.
  Counted-weaken :
      (n m p left : ℕ) (r : Taking Obj × Result ℕ)
      → n ≤ m
      → m < n + suc p
      → Counted m (suc p) left r
      → Counted n (suc p) (suc left) r
  Counted-weaken n m p left r h k (inl (e, c, d)) = inl (e, omega arith, omega arith)
  Counted-weaken n m p left r h k (inr (inl (e, c, d))) = inr (inl (e, omega arith, omega arith))
  Counted-weaken n m p left r h k (inr (inr f)) = inr (inr f)

  rounds-Counted :
      (base : List Text) (k p retry : ℕ) (timeout : ℤ) (left : ℕ) (s : Taking Obj)
      → Kept turns base k s
      → Counted (length s.docs) (suc p) left (rounds turns (suc p) retry timeout left s)
  unfolding rounds
  rounds-Counted base k p retry timeout zero s v =
      settle-Counted (length s.docs) p zero retry (give_up turns)
        (pop_times turns (to_size_t timeout) (suc p) s)
        (pop_times_count turns base k (to_size_t timeout) (suc p) s v)
        (λ t s' c d e. unfold give_up in inr (inl (refl, c, omega arith)))
  rounds-Counted base k p retry timeout (suc left) s v =
      settle-Counted (length s.docs) p (suc left) retry
        (λ next s'. rounds turns (suc p) (suc retry) next left s')
        (pop_times turns (to_size_t timeout) (suc p) s)
        (pop_times_count turns base k (to_size_t timeout) (suc p) s v)
        (λ t s' c d e.
          Counted-weaken (length s.docs) (length s'.docs) p left
            (rounds turns (suc p) (suc retry) t left s') c d
            (rounds-Counted base k p (suc retry) t left s'
              (rw e (pop_times-Kept turns base k (to_size_t timeout) (suc p) s v))))

-- The vector and the broker at the start of a batch.
abbrev pub before_batch : {Obj : Type 0} → List Text → Broker Obj → Taking Obj
before_batch docs b = record { broker = b; docs = docs; turn = 0 }

pub batch_pop-rounds :
    {Obj : Type 0} (turns : ℕ → PopTurn Text) (docs : List Text) (p : ℕ) (b : Broker Obj)
    → batch_pop turns docs (suc p) b
      ≡ rounds turns (suc p) 0 b.read_timeout b.read_retry (before_batch docs b)
unfolding batch_pop
batch_pop-rounds turns docs p b = ground arith

pub batch_pop_zero :
    {Obj : Type 0} (turns : ℕ → PopTurn Text) (docs : List Text) (b : Broker Obj)
    → batch_pop turns docs 0 b ≡ (before_batch docs b, err assertion_failed)
unfolding batch_pop
batch_pop_zero turns docs b = refl

before_batch-Kept :
    {Obj : Type 0} (turns : ℕ → PopTurn Text) (docs : List Text) (b : Broker Obj)
    → check_status b ≡ ok tt
    → Kept turns (docs ++ b.queue.items) 0 (before_batch docs b)
before_batch-Kept turns docs b h = record {
  came = [];
  so_far = Came.none_yet;
  all_there = sym (append-nil (docs ++ b.queue.items));
  ready = h;
}

-- A batch from an open broker loses nothing and keeps the order: the caller's vector followed by
-- the queue is what they were before, followed by what came to the queue during the pops made.
pub batch_pop-conserves :
    {Obj : Type 0} (turns : ℕ → PopTurn Text) (docs : List Text) (batch_size : ℕ) (b : Broker Obj)
    → check_status b ≡ ok tt
    → (came : List Text) × Came turns 0 (batch_pop turns docs batch_size b).0.turn came
      × ((batch_pop turns docs batch_size b).0.docs
            ++ (batch_pop turns docs batch_size b).0.broker.queue.items
          ≡ docs ++ (b.queue.items ++ came))
batch_pop-conserves turns docs zero b h =
    rw (batch_pop_zero turns docs b)
      ([], Came.none_yet, ap (◌++◌ docs) (sym (append-nil b.queue.items)))
batch_pop-conserves turns docs (suc p) b h =
    rw (batch_pop-rounds turns docs p b)
      (w.came, w.so_far, w.all_there ∙ append_assoc docs b.queue.items w.came)
  where
    w :
        Kept turns
          (docs ++ b.queue.items)
          0
          (rounds turns (suc p) 0 b.read_timeout b.read_retry (before_batch docs b)).0
    w =
        rounds-Kept turns (docs ++ b.queue.items) 0 (suc p) 0 b.read_timeout b.read_retry
          (before_batch docs b) (before_batch-Kept turns docs b h)

-- What a batch from an open broker comes to, for a positive size: it returns the length of the
-- vector, which has grown by at least the size and by at most one more than (retries + 1) times
-- (size - 1); or it returns ULONG_MAX, and the vector has grown by at most (retries + 1) times
-- (size - 1); or its behaviour is undefined. No exception leaves it.
pub batch_pop-Counted :
    {Obj : Type 0} (turns : ℕ → PopTurn Text) (docs : List Text) (batch_size : ℕ) (b : Broker Obj)
    → 0 < batch_size
    → check_status b ≡ ok tt
    → Counted turns (length docs) batch_size b.read_retry (batch_pop turns docs batch_size b)
batch_pop-Counted turns docs zero b p h = absurd (omega arith)
batch_pop-Counted turns docs (suc p) b q h = rw (batch_pop-rounds turns docs p b) (
    rounds-Counted turns (docs ++ b.queue.items) 0 p 0 b.read_timeout b.read_retry
      (before_batch docs b) (before_batch-Kept turns docs b h))
