-- ===== src/Broker/Batch/Connection.antt =====
-- A batch changes nothing of a broker but its queue.
use zbroker.Base.{inr, inl, Result-cases, to_size_t, ℕ, zero, suc, ℤ, ◌≡◌, refl, List, Text}
use zbroker.SizedQueue.{Queue, PopTurn}
use zbroker.Broker.{Broker, pop, check_status}
use zbroker.Broker.Batch.{Taking, pop_times, rounds, give_up, batch_pop}
use zbroker.Broker.Batch.Rounds.{settle_keeps, before_batch, batch_pop-rounds, batch_pop_zero}

module _ {Obj : Type 0} (P : Broker Obj → Type 0) where
  -- What the queue does not change.
  pub record Closed : Type 0 where
    pub any_queue : (b : Broker Obj) (q : Queue Text) → P b → P (record b { queue = q })

  module _ (closed : Closed) where
    pop_keeps : (seconds : ℕ) (t : PopTurn Text) (b : Broker Obj) → P b → P (pop seconds t b).0
    unfolding pop
    pop_keeps seconds t b h = elim (Result-cases (check_status b)) [
      | inl (_, e) ↦ rw (e, pop) (closed.any_queue b _ h)
      | inr (x, e) ↦ rw (e, pop) h
    ]

    module _ (turns : ℕ → PopTurn Text) where
      abbrev Keeps : Taking Obj → Type 0
      Keeps s = P s.broker

      pop_times-Keeps :
          (seconds n : ℕ) (s : Taking Obj) → Keeps s → Keeps (pop_times turns seconds n s).0
      unfolding pop_times
      pop_times-Keeps seconds zero s h = h
      pop_times-Keeps seconds (suc n) s h =
          let kept = pop_keeps seconds (turns s.turn) s.broker h in
          elim (Result-cases (pop seconds (turns s.turn) s.broker).1) [
            | inl (doc, e) ↦ rw (e, pop_times) (pop_times-Keeps seconds n _ kept)
            | inr (x, e) ↦ rw (e, pop_times) kept
          ]

      rounds-Keeps :
          (batch_size retry : ℕ) (timeout : ℤ) (left : ℕ) (s : Taking Obj)
          → Keeps s
          → Keeps (rounds turns batch_size retry timeout left s).0
      unfolding rounds give_up
      rounds-Keeps batch_size retry timeout zero s h =
          settle_keeps turns Keeps (give_up turns) retry _
            (pop_times-Keeps (to_size_t timeout) batch_size s h) (λ t s' w. w)
      rounds-Keeps batch_size retry timeout (suc left) s h =
          settle_keeps turns Keeps (λ next s'. rounds turns batch_size (suc retry) next left s')
            retry _ (pop_times-Keeps (to_size_t timeout) batch_size s h)
            (λ t s' w. rounds-Keeps batch_size (suc retry) t left s' w)

      pub batch_pop-Keeps :
          (docs : List Text) (batch_size : ℕ) (b : Broker Obj)
          → P b
          → P (batch_pop turns docs batch_size b).0.broker
      batch_pop-Keeps docs zero b h = rw (batch_pop_zero turns docs b) h
      batch_pop-Keeps docs (suc p) b h =
          rw (batch_pop-rounds turns docs p b)
            (rounds-Keeps (suc p) 0 b.read_timeout b.read_retry (before_batch docs b) h)

pub batch_pop-connected :
    {Obj : Type 0} (turns : ℕ → PopTurn Text) (docs : List Text) (batch_size : ℕ) (b : Broker Obj)
    → (batch_pop turns docs batch_size b).0.broker.connected ≡ b.connected
batch_pop-connected turns docs batch_size b =
    batch_pop-Keeps (λ b'. b'.connected ≡ b.connected) (record { any_queue = λ b' q h. h }) turns
      docs batch_size b refl

pub batch_pop-do_exit :
    {Obj : Type 0} (turns : ℕ → PopTurn Text) (docs : List Text) (batch_size : ℕ) (b : Broker Obj)
    → (batch_pop turns docs batch_size b).0.broker.do_exit ≡ b.do_exit
batch_pop-do_exit turns docs batch_size b =
    batch_pop-Keeps (λ b'. b'.do_exit ≡ b.do_exit) (record { any_queue = λ b' q h. h }) turns docs
      batch_size b refl
