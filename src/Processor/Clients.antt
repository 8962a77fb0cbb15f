-- ===== src/Processor/Clients.antt =====
-- The count of clients in `open` of src/asio_processor.cc.
use zbroker.Base.{◌+◌, ◌≡◌, arith}
use zbroker.Bson.{Bson}
use zbroker.Protocol.{Purpose}
use zbroker.Processor.{Processor}
use zbroker.Processor.Serving.{count_client}

module _ (bson : Bson) where
  open bson use {Obj}

  -- What clients that come and go leave alone.
  pub record Untouched (s t : Processor Obj) : Type 0 where
    pub read_broker : t.read_broker ≡ s.read_broker
    pub write_broker : t.write_broker ≡ s.write_broker
    pub read_thread : t.read_thread ≡ s.read_thread
    pub write_thread : t.write_thread ≡ s.write_thread

  pub count_client-Untouched :
      (p : Purpose) (s : Processor Obj) → Untouched s (count_client bson p s)
  unfolding count_client
  count_client-Untouched p s = ground arith

  pub refcount-count_client :
      (p : Purpose) (s : Processor Obj) → (count_client bson p s).refcount ≡ s.refcount + 1
  unfolding count_client
  refcount-count_client p s = ground arith
