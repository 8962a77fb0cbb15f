-- ===== src/Broker/Init/Again.antt =====
-- A second `open` of a broker of src/broker.cc whose connection failed.
use zbroker.Base.{
  sym, ◌≡◌, refl, ap, ◌∙◌, true, false, pos, ℕ, ◌<◌, none, some, Text, pow_ten, Option, ok, err,
  broker_exception,
}
use zbroker.Bson.{Bson, Server}
use zbroker.Broker.{Broker}
use zbroker.Broker.Init.{init, open_broker}
use zbroker.Broker.Init.Ready.{InitEnds, init-InitEnds}
use zbroker.Broker.Init.Opened.{address, answered, open_broker-answered}

module _ (bson : Bson) where
  open bson use {Obj}

  -- A broker that was inited takes no options.
  init_again :
      (options : Option Obj) (b : Broker Obj) → b.inited ≡ true → init bson options b ≡ (b, ok tt)
  unfolding init
  init_again options b h = simp (h, init)

  inited_after :
      (o : Obj) (b b' : Broker Obj)
      → b.inited ≡ false
      → init bson (some o) b ≡ (b', ok tt)
      → b'.inited ≡ true
  inited_after o b b' h e = elim (init-InitEnds bson (some o) b h) [
    | InitEnds.ready f v ↦ ap (λ r. r.0.inited) (sym e) ∙ v.inited
    | InitEnds.failed x f i c q ↦ absurd (cc (e, f))
  ]

  answered_again :
      (b : Broker Obj) (answer : Option Text)
      → answered bson (record b { connection_string = address b }) answer ≡ answered bson b answer
  answered_again b none = refl
  answered_again b (some errmsg) = refl

  -- A broker that was never inited, an `open` whose options `init` takes, with a port of at most
  -- eight digits, and a server that refuses the connection: `open` throws the server's message. A
  -- second `open` reads no options, whatever is given: it connects to the address of the first
  -- again, and the broker is then connected, or throws once more.
  pub open_broker_again :
      (server server' : Server Obj) (o : Obj) (options : Option Obj) (b b' : Broker Obj) (n : ℕ)
      (errmsg : Text)
      → b.inited ≡ false
      → init bson (some o) b ≡ (b', ok tt)
      → b'.port ≡ pos n
      → n < pow_ten 8
      → server.connect (address b') ≡ some errmsg
      → ((open_broker bson server (some o) b).1 ≡ err (broker_exception errmsg))
        × (open_broker bson server' options (open_broker bson server (some o) b).0
            ≡ answered bson b' (server'.connect (address b')))
  open_broker_again server server' o options b b' n errmsg i e p h refused =
      let first =
        open_broker-answered bson server (some o) b b' n e p h ∙ ap (answered bson b') refused in
      let kept : Broker Obj = record b' { connection_string = address b' } in
      (
        ap (λ r. r.1) first,
        ap (λ r. open_broker bson server' options r.0) first
            ∙ open_broker-answered bson server' options kept kept n
                (init_again options kept (inited_after o b b' i e)) p h
            ∙ answered_again b' (server'.connect (address b')),
      )
