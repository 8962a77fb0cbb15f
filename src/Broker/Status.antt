-- ===== src/Broker/Status.antt =====
-- `push` and `pop` of a broker that is open, and of one that is not.
use zbroker.Base.{true, ℕ, ◌≡◌, arith, ok, err, Error, List, Text}
use zbroker.SizedQueue
use zbroker.SizedQueue.{PopTurn, PushTurn}
use zbroker.Broker.{as_size, Broker, check_status, push, pop}

module _ {Obj : Type 0} (b : Broker Obj) where
  pub pop_ready :
      (seconds : ℕ) (t : PopTurn Text)
      → check_status b ≡ ok tt
      → pop seconds t b ≡ (
        record b { queue = (SizedQueue.pop seconds t b.queue).0 },
        (SizedQueue.pop seconds t b.queue).1,
      )
  unfolding pop
  pop_ready seconds t h = ground arith

  pub pop_refused :
      (seconds : ℕ) (t : PopTurn Text) {e : Error}
      → check_status b ≡ err e
      → pop seconds t b ≡ (b, err e)
  unfolding pop
  pop_refused seconds t h = ground arith

  pub push_ready :
      (t : PushTurn) (docs : List Text)
      → check_status b ≡ ok tt
      → push t docs b ≡ (
        record b { queue = (SizedQueue.push_all 0 t docs b.queue).0 },
        (SizedQueue.push_all 0 t docs b.queue).1,
        as_size (SizedQueue.push_all 0 t docs b.queue).2,
      )
  unfolding push
  push_ready t docs h = ground arith

  pub check_status-connected : check_status b ≡ ok tt → b.connected ≡ true
  unfolding check_status
  check_status-connected h = ground arith
