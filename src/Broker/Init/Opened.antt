-- ===== src/Broker/Init/Opened.antt =====
-- `open` of src/broker.cc.
use zbroker.Base.{
  length-decimal-le, length-append, le→ltb, ◌≤◌, broker_exception, ℕ, pos, ◌+◌, ◌<◌, ◌≡◌, refl,
  true, ◌∷◌, ◌++◌, Option, none, some, Text, arith, Result, ok, err, length, pow_ten, decimal,
  decimal_int,
}
use zbroker.Bson.{Bson, Server}
use zbroker.Broker.{Broker, check_status}
use zbroker.Broker.Init.{init, connect, open_broker}

-- The address that `open` connects to.
abbrev pub address : {Obj : Type 0} → Broker Obj → Text
address b = b.host ++ b':' ∷ decimal_int b.port

-- The address of a port of at most eight digits fits the buffer.
length-address_small :
    {Obj : Type 0} (b : Broker Obj) (n : ℕ)
    → b.port ≡ pos n
    → n < pow_ten 8
    → length (address b) + 1 ≤ length b.host + 10
unfolding decimal_int
length-address_small b n e h =
    rw e (omega (arith, length-append b.host (b':' ∷ decimal n), length-decimal-le n 7 h))

module _ (bson : Bson) where
  open bson use {Obj}

  -- What `connect` leaves of a broker, by the server's answer.
  abbrev pub answered : Broker Obj → Option Text → Broker Obj × Result (Unit {0})
  answered b none = (record b { connection_string = address b; connected = true }, ok tt)
  answered b (some errmsg) =
      (record b { connection_string = address b }, err (broker_exception errmsg))

  connect_small :
      (server : Server Obj) (b : Broker Obj) (n : ℕ) (answer : Option Text)
      → b.port ≡ pos n
      → n < pow_ten 8
      → server.connect (address b) ≡ answer
      → connect bson server b ≡ answered b answer
  unfolding connect
  connect_small server b n none p h e =
      simp (le→ltb (length b.host + 10) (length (address b) + 1) (length-address_small b n p h), e)
  connect_small server b n (some errmsg) p h e =
      simp (le→ltb (length b.host + 10) (length (address b) + 1) (length-address_small b n p h), e)

  -- With a port of at most eight digits `open`, once the broker is inited, does not overrun its
  -- buffer: it connects to "host:port", and is connected or throws the server's message.
  pub open_broker-answered :
      (server : Server Obj) (options : Option Obj) (b b' : Broker Obj) (n : ℕ)
      → init bson options b ≡ (b', ok tt)
      → b'.port ≡ pos n
      → n < pow_ten 8
      → open_broker bson server options b ≡ answered b' (server.connect (address b'))
  unfolding open_broker
  open_broker-answered server options b b' n e p h =
      simp (e, open_broker) (connect_small server b' n (server.connect (address b')) p h refl)

  connect-check_status :
      (server : Server Obj) (b : Broker Obj)
      → b.inited ≡ true
      → (connect bson server b).1 ≡ ok tt
      → check_status (connect bson server b).0 ≡ ok tt
  unfolding connect check_status
  connect-check_status server b i h = ground arith
