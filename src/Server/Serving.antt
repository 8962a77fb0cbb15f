-- ===== src/Server/Serving.antt =====
-- A port that serves: its connections have processors of its table. Accepting and the steps of one
-- connection keep it so.
use zbroker.Base.{
  ◌+◌, ◌%◌, size_mod, ℕ, ◌≡◌, refl, ◌⊎◌, inl, inr, Bool, true, false, [], some, Result, All,
  All-map, All-append, All-set, Option-cases,
}
use zbroker.Connection.{Processors, Connection, new_connection, handle_write}
use zbroker.Connection.Table.{IsTable}
use zbroker.Connection.Attached.{Attached, Grows, Grows-Attached}
use zbroker.Server.{Reading, AsioHandler, make_connection, handle_accept, store}

pub Reading-cases :
    (r : Reading) → (r ≡ Reading.header) ⊎ ((r ≡ Reading.body) ⊎ (r ≡ Reading.nothing))
Reading-cases Reading.header = inl refl
Reading-cases Reading.body = inr (inl refl)
Reading-cases Reading.nothing = inr (inr refl)

module _ {Obj : Type 0} where
  -- A connection whose processor, if it has one, is in the table, and which has read no packet id.
  abbrev pub IsLink : Processors Obj → Connection → Type 0
  IsLink t c = (c.in_packet.packet_id ≡ []) × Attached t c

  -- A handler whose processors are a table, and whose connections are links to it.
  pub record IsServing (h : AsioHandler Obj) : Type 0 where
    pub table : IsTable h.processors
    pub linked : All (λ l. IsLink h.processors l.connection) h.links
    pub waiting : (c : Connection) → h.accepting ≡ some c → IsLink h.processors c

  -- A step of the connection at a place, which may let the table grow.
  pub store-IsServing :
      (h : AsioHandler Obj) (i : ℕ) (reading : Reading) (t : Processors Obj) (c : Connection)
      (r : Result (Unit {0}))
      → IsServing h
      → IsTable t
      → Grows h.processors t
      → IsLink t c
      → IsServing (store i reading (t, c, r) h).0
  unfolding store
  store-IsServing h i reading t c r v w g l = record {
    table = w;
    linked =
        All-set (λ l. IsLink t l.connection) h.links i _
          (All-map (λ l (e, a). (e, Grows-Attached h.processors t l.connection g a)) h.links
            v.linked)
          l;
    waiting = λ c' e. let (f, a) = v.waiting c' e in (f, Grows-Attached h.processors t c' g a);
  }

  pub new_connection-IsLink : (n : ℕ) (t : Processors Obj) → IsLink t (new_connection n)
  unfolding new_connection
  new_connection-IsLink n t = (refl, inl refl)

  pub written-IsLink :
      (error : Bool) (t : Processors Obj) (c : Connection)
      → c.in_packet.packet_id ≡ []
      → Attached t c
      → IsLink t (handle_write error c)
  unfolding handle_write
  written-IsLink true t c e a = (e, a)
  written-IsLink false t c e a = (e, a)

  pub handle_accept-IsServing :
      (error : Bool) (h : AsioHandler Obj) → IsServing h → IsServing (handle_accept error h)
  unfolding handle_accept make_connection
  handle_accept-IsServing error h v = elim (Option-cases h.accepting) [
    | inl e ↦ simp (e, handle_accept) v
    | inr (pro, e) ↦ accept error pro e
  ]
    where
      accept :
          (b : Bool) (pro : Connection) → h.accepting ≡ some pro → IsServing (handle_accept b h)
      accept true pro e =
          simp (e, handle_accept)
            (record { table = v.table; linked = v.linked; waiting = λ c f. absurd (cc f) })
      accept false pro e =
          simp (e, handle_accept)
            (record {
              table = v.table;
              linked =
                  All-append (λ l. IsLink h.processors l.connection) h.links _ v.linked
                    (v.waiting pro e, tt);
              waiting = λ c f.
                  let g : new_connection ((h.connection_count + 1) % size_mod) ≡ c = cc f in
                  rw (← g) (new_connection-IsLink _ h.processors);
            })
