-- ===== src/Processor/Reading.antt =====
-- `do_read` of src/asio_processor.cc: what leaves the queue of the reading broker is what the reply
-- has.
use zbroker.Base.{
  ℕ, suc, ◌+◌, ◌-◌, ◌*◌, ◌≤◌, ◌<◌, ◌≡◌, refl, ◌⊎◌, inl, inr, List, [], ◌∷◌, ◌++◌, Text, codes,
  length, to_size_t, ulong_max, Result, ok, err, undefined_behaviour, arith,
}
use zbroker.Bson.{Bson}
use zbroker.Protocol.{success, no_more_item}
use zbroker.Packet.{OutPacket}
use zbroker.Reply
use zbroker.Broker.{check_status}
use zbroker.Broker.Batch.{Taking, batch_pop}
use zbroker.Broker.Batch.Taken.{Came}
use zbroker.Broker.Batch.Rounds.{batch_pop-conserves, batch_pop-Counted}
use zbroker.Processor.{Processor, Surroundings}
use zbroker.Processor.Serving.{packed, read_reply, do_read}

module _ (bson : Bson) where
  open bson use {Obj}

  -- The reply with some documents: they are listed, or there are none.
  abbrev pub reply_with : OutPacket → List Text → Result Text
  reply_with packet [] =
      packed bson (Reply.pack_documents bson packet no_more_item [] (codes "do_read no more items"))
  reply_with packet (doc ∷ docs) =
      packed bson (Reply.pack_documents bson packet success (doc ∷ docs) (codes "do_read"))

  read_reply_some :
      (packet : OutPacket) (ret : ℕ) (docs : List Text)
      → 0 < length docs
      → read_reply bson packet ret docs ≡ reply_with packet docs
  unfolding read_reply
  read_reply_some packet ret [] h = absurd (omega arith)
  read_reply_some packet ret (doc ∷ docs) h = ground arith

  read_reply_max :
      (packet : OutPacket) (docs : List Text)
      → read_reply bson packet ulong_max docs ≡ reply_with packet docs
  unfolding read_reply
  read_reply_max packet [] = refl
  read_reply_max packet (doc ∷ docs) = refl

  -- The batch that `do_read` takes.
  abbrev batch : Surroundings Obj → Processor Obj → Taking Obj × Result ℕ
  batch env s = batch_pop env.pops [] (to_size_t s.read_broker.limit) s.read_broker

  -- What `do_read` answers.
  pub record Answers (env : Surroundings Obj) (packet : OutPacket) (s : Processor Obj)
      (o : Processor Obj × Result Text) : Type 0 where
    pub docs : List Text
    pub came : List Text
    pub turn : ℕ
    pub so_far : Came env.pops 0 turn came
    pub in_order : docs ++ o.0.read_broker.queue.items ≡ s.read_broker.queue.items ++ came
    pub no_more :
        length docs ≤ suc s.read_broker.read_retry * (to_size_t s.read_broker.limit - 1) + 1
    pub answer : o.1 ≡ reply_with packet docs
    pub only_broker : o.0 ≡ record s { read_broker = o.0.read_broker }

  do_read_ok :
      (env : Surroundings Obj) (packet : OutPacket) (s : Processor Obj) (n : ℕ)
      → (batch env s).1 ≡ ok n
      → do_read bson env packet s ≡ (
        record s { read_broker = (batch env s).0.broker },
        read_reply bson packet n (batch env s).0.docs,
      )
  unfolding do_read
  do_read_ok env packet s n e = rw (e, do_read) refl

  do_read_undefined :
      (env : Surroundings Obj) (packet : OutPacket) (s : Processor Obj)
      → (batch env s).1 ≡ err undefined_behaviour
      → (do_read bson env packet s).1 ≡ err undefined_behaviour
  unfolding do_read
  do_read_undefined env packet s e = rw (e, do_read) refl

  answers :
      (env : Surroundings Obj) (packet : OutPacket) (s : Processor Obj) (n : ℕ)
      → check_status s.read_broker ≡ ok tt
      → (batch env s).1 ≡ ok n
      → length (batch env s).0.docs
        ≤ suc s.read_broker.read_retry * (to_size_t s.read_broker.limit - 1) + 1
      → read_reply bson packet n (batch env s).0.docs ≡ reply_with packet (batch env s).0.docs
      → Answers env packet s (do_read bson env packet s)
  answers env packet s n c e l r =
      let (came, so_far, same) =
        batch_pop-conserves env.pops [] (to_size_t s.read_broker.limit) s.read_broker c in
      rw (do_read_ok env packet s n e) (record {
        docs = (batch env s).0.docs;
        came = came;
        turn = (batch env s).0.turn;
        so_far = so_far;
        in_order = same;
        no_more = l;
        answer = r;
        only_broker = refl;
      })

  -- A READ on a processor whose reading broker is open with a limit that is not 0, unless the
  -- computation of a timeout is undefined: the texts that its reply lists are what left the front
  -- of the queue, in their order, and where none did it says that there are no more. What came to
  -- the queue meanwhile stood behind, nothing else of the processor changes, and there are at most
  -- one more texts than (retries + 1) times (limit - 1).
  pub do_read-Answers :
      (env : Surroundings Obj) (packet : OutPacket) (s : Processor Obj)
      → 0 < to_size_t s.read_broker.limit
      → check_status s.read_broker ≡ ok tt
      → Answers env packet s (do_read bson env packet s)
        ⊎ ((do_read bson env packet s).1 ≡ err undefined_behaviour)
  do_read-Answers env packet s p c =
      elim (batch_pop-Counted env.pops [] (to_size_t s.read_broker.limit) s.read_broker p c) [
        | inl (e, low, high) ↦
            inl
              (answers env packet s _ c e (omega arith) (read_reply_some packet _ _ (omega arith)))
        | inr (inl (e, low, high)) ↦
            inl (answers env packet s _ c e (omega arith) (read_reply_max packet _))
        | inr (inr e) ↦ inr (do_read_undefined env packet s e)
      ]
