-- ===== src/Processor/Ending.antt =====
-- `term` of src/asio_processor.cc: what is left of the threads and of the connections.
use zbroker.Base.{◌≡◌, ◌⊎◌, false, ◌&&◌, Result, ok, err, Error, if◌then◌else◌}
use zbroker.Broker
use zbroker.Broker.{Broker}
use zbroker.Processor.{release_push, Processor, Surroundings, term_write}

module _ {Obj : Type 0} where
  -- The thread of a purpose runs exactly if its broker is connected.
  pub record IsSound (s : Processor Obj) : Type 0 where
    pub reads : s.read_thread ≡ s.read_broker.connected
    pub writes : s.write_thread ≡ s.write_broker.connected

  -- What the pop throws that lets a push of the reading thread go on.
  abbrev pub Released : Surroundings Obj → Processor Obj → Error → Type 0
  Released env s e = (release_push env (Broker.set_exit s.read_broker)).1 ≡ err e

  -- What a step of `term` does to the reading side: it ends the thread and the connection, or it
  -- throws what the pop throws, and leaves both.
  abbrev ReadEnds : Surroundings Obj → Processor Obj → Processor Obj × Result (Unit {0}) → Type 0
  ReadEnds env s r =
      ((r.1 ≡ ok tt)
        × (r.0.read_thread ≡ false)
        × (r.0.read_broker.connected ≡ false)
        × (r.0.write_thread ≡ s.write_thread)
        × (r.0.write_broker ≡ s.write_broker))
      ⊎ ((e : Error) × (r.1 ≡ err e)
          × Released env s e
          × (r.0.read_thread ≡ s.read_thread)
          × (r.0.read_broker.connected ≡ s.read_broker.connected)
          × (r.0.write_thread ≡ s.write_thread)
          × (r.0.write_broker ≡ s.write_broker))

  -- How `term` ends: with all stopped, or, where the pop throws that lets a push go on, with the
  -- threads still going with the connections.
  abbrev pub TermEnds :
      Surroundings Obj → Processor Obj → Processor Obj × Result (Unit {0}) → Type 0
  TermEnds env s r =
      ((r.1 ≡ ok tt)
        × (r.0.read_thread ≡ false)
        × (r.0.write_thread ≡ false)
        × (r.0.read_broker.connected ≡ false)
        × (r.0.write_broker.connected ≡ false))
      ⊎ ((e : Error) × (r.1 ≡ err e) × Released env s e × IsSound r.0)

  -- The second half of `term`.
  end_write : Surroundings Obj → Processor Obj → Processor Obj × Result (Unit {0})
  end_write env s =
      if s.write_thread && s.write_broker.connected then term_write env s else (s, ok tt)
