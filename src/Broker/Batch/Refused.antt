-- ===== src/Broker/Batch/Refused.antt =====
-- `batch_pop` of a broker that is not open. sized_queue.hpp gives all its exceptions one type, so
-- the handler for a timeout catches the refusal too.
use zbroker.Base.{
  Bool, true, false, undefined_behaviour, lt→ltb, Result, to_size_t, ℕ, zero, suc, ◌+◌, ◌*◌, ◌^◌,
  ◌<◌, ◌≡◌, refl, ok, err, Text, List, arith, pos, ℤ, broker_exception, ulong_max, some,
}
use zbroker.SizedQueue.{PopTurn}
use zbroker.Broker.{Broker, check_status}
use zbroker.Broker.Status.{pop_refused}
use zbroker.Broker.Batch.{Taking, pop_times, settle, rounds, give_up, batch_pop}
use zbroker.Broker.Batch.Rounds.{before_batch, batch_pop-rounds}

module _ {Obj : Type 0} (turns : ℕ → PopTurn Text) where
  pop_times_refused :
      (seconds p : ℕ) (s : Taking Obj) {msg : Text}
      → check_status s.broker ≡ err (broker_exception msg)
      → pop_times turns seconds (suc p) s
        ≡ (record s { turn = suc s.turn }, some (broker_exception msg))
  unfolding pop_times
  pop_times_refused seconds p s h =
      rw (pop_refused s.broker seconds (turns s.turn) h, pop_times)
        (rw (pop_refused s.broker seconds (turns s.turn) h))

  settle_retry :
      (again : ℤ → Taking Obj → Taking Obj × Result ℕ) (retry n : ℕ) (s : Taking Obj) (msg : Text)
      → s.broker.read_timeout ≡ pos n
      → n * suc retry < 2 ^ 31
      → s.broker.querying ≡ false
      → settle turns again retry (s, some (broker_exception msg)) ≡ again (pos (n * suc retry)) s
  unfolding settle
  settle_retry again retry n s msg e h w = simp (w, e, lt→ltb (n * suc retry) (2 ^ 31) h)

  rounds_refused :
      (p retry : ℕ) (timeout : ℤ) (left : ℕ) (n : ℕ) (s : Taking Obj) (msg : Text)
      → check_status s.broker ≡ err (broker_exception msg)
      → s.broker.read_timeout ≡ pos n
      → n * (suc retry + left) < 2 ^ 31
      → s.broker.querying ≡ false
      → ((rounds turns (suc p) retry timeout left s).1 ≡ ok ulong_max)
        × ((rounds turns (suc p) retry timeout left s).0.docs ≡ s.docs)
        × ((rounds turns (suc p) retry timeout left s).0.broker.queue ≡ s.broker.queue)
  unfolding rounds give_up check_status
  rounds_refused p retry timeout zero n s msg h e k w =
      rw
        (
          pop_times_refused (to_size_t timeout) p s h,
          settle_retry (give_up turns) retry n (record s { turn = suc s.turn }) msg e (grind arith)
              w,
        )
        (refl, refl, refl)
  rounds_refused p retry timeout (suc left) n s msg h e k w =
      rw
        (
          pop_times_refused (to_size_t timeout) p s h,
          settle_retry (λ next s'. rounds turns (suc p) (suc retry) next left s') retry n
              (record s { turn = suc s.turn }) msg e (grind arith) w,
        )
        (rounds_refused p (suc retry) (pos (n * suc retry)) left n _ msg h e (grind arith) w)

  rounds_refused_waiting :
      (p retry : ℕ) (timeout : ℤ) (left : ℕ) (s : Taking Obj) (msg : Text)
      → check_status s.broker ≡ err (broker_exception msg)
      → s.broker.querying ≡ true
      → (rounds turns (suc p) retry timeout left s).1 ≡ err undefined_behaviour
  unfolding rounds settle
  rounds_refused_waiting p retry timeout zero s msg h w =
      rw (pop_times_refused (to_size_t timeout) p s h) (simp (w))
  rounds_refused_waiting p retry timeout (suc left) s msg h w =
      rw (pop_times_refused (to_size_t timeout) p s h) (simp (w))

-- What a batch from a broker that is not open comes to.
abbrev pub IsDenied :
    {Obj : Type 0} → Bool → List Text → Broker Obj → Taking Obj × Result ℕ → Type 0
IsDenied true docs b r = r.1 ≡ err undefined_behaviour
IsDenied false docs b r = (r.1 ≡ ok ulong_max) × (r.0.docs ≡ docs) × (r.0.broker.queue ≡ b.queue)

refused_by_flag :
    {Obj : Type 0} (turns : ℕ → PopTurn Text) (docs : List Text) (p n : ℕ) (b : Broker Obj)
    (msg : Text) (querying : Bool)
    → b.querying ≡ querying
    → check_status b ≡ err (broker_exception msg)
    → b.read_timeout ≡ pos n
    → n * suc b.read_retry < 2 ^ 31
    → IsDenied querying docs b (batch_pop turns docs (suc p) b)
refused_by_flag turns docs p n b msg true w h e k =
    rw (batch_pop-rounds turns docs p b)
      (rounds_refused_waiting turns p 0 b.read_timeout b.read_retry (before_batch docs b) msg h w)
refused_by_flag turns docs p n b msg false w h e k = rw (batch_pop-rounds turns docs p b) (
    rounds_refused turns p 0 b.read_timeout b.read_retry n (before_batch docs b) msg h e
      (grind arith) w)

-- A batch of positive size from a broker that is not open, with a read timeout whose multiples
-- are ints, does not throw: it returns ULONG_MAX, and neither the vector nor the queue has
-- changed; but while the flag of a running query is set, its behaviour is undefined.
pub batch_pop_refused :
    {Obj : Type 0} (turns : ℕ → PopTurn Text) (docs : List Text) (batch_size n : ℕ) (b : Broker Obj)
    (msg : Text)
    → 0 < batch_size
    → check_status b ≡ err (broker_exception msg)
    → b.read_timeout ≡ pos n
    → n * suc b.read_retry < 2 ^ 31
    → IsDenied b.querying docs b (batch_pop turns docs batch_size b)
batch_pop_refused turns docs zero n b msg p h e k = absurd (omega arith)
batch_pop_refused turns docs (suc q) n b msg p h e k =
    refused_by_flag turns docs q n b msg b.querying refl h e k
