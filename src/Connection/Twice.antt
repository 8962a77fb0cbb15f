-- ===== src/Connection/Twice.antt =====
-- A connection whose client says CLOSE and then goes: its processor counts it out twice.
use zbroker.Base.{
  ◌-◌, ◌≡◌, refl, ◌∙◌, ℕ, suc, inl, inr, List, [], ◌∷◌, none, some, Text, text_eq, codes, Result,
  ok, err, Result-cases, Bool-cases, arith, lt→ltb,
}
use zbroker.Bson.{Bson}
use zbroker.Protocol.{close_cmd, success}
use zbroker.Packet.{body, new_out_packet, set_packet_id}
use zbroker.Reply
use zbroker.Processor
use zbroker.Processor.{Processor, Surroundings}
use zbroker.Processor.Serving
use zbroker.Connection.{
  Processors, Connection, lookup, put, serve, process_with, process_parsed, process,
  close_processor, handle_read_body, handle_read_header,
}
use zbroker.Packet.{c_string}

module _ {Obj : Type 0} where
  pub lookup-put :
      (id : Text) (p p' : Processor Obj) (items : List (Text × Processor Obj))
      → lookup id items ≡ some p
      → lookup id (put id p' items) ≡ some p'
  unfolding lookup put
  lookup-put id p p' [] h = cc
  lookup-put id p p' ((key, q) ∷ items) h = elim (Bool-cases (text_eq id key)) [
    | inl e ↦ rw (e, lookup, e) refl
    | inr e ↦ rw (e, lookup, e) (lookup-put id p p' items (rw e at h))
  ]

  -- The processor with one client less.
  abbrev pub one_less : Processor Obj → Processor Obj
  one_less p = record p { refcount = p.refcount - 1 }

  close_shared :
      (env : Surroundings Obj) (p : Processor Obj) (n : ℕ)
      → p.refcount ≡ suc (suc n)
      → Processor.close env p ≡ (one_less p, ok tt)
  unfolding Processor.close
  close_shared env p n e = rw (lt→ltb 1 p.refcount (omega arith), Processor.close) refl

  term-refcount :
      (env : Surroundings Obj) (p : Processor Obj) → (Processor.term env p).0.refcount ≡ p.refcount
  unfolding Processor.term Processor.term_read Processor.term_write Processor.finish_read
      Processor.finish_write
  term-refcount env p = ground arith

  refcount-close :
      (env : Surroundings Obj) (p : Processor Obj)
      → (Processor.close env p).0.refcount ≡ p.refcount - 1
  unfolding Processor.close
  refcount-close env p = ground (arith, term-refcount env (record p { refcount = 0 }))

module _ (bson : Bson) where
  open bson use {Obj}

  -- The reply to a request to close.
  abbrev closed_reply : Processor Obj → Result Text
  closed_reply p = Serving.packed bson (
      Reply.pack_response bson (set_packet_id p.processor_id new_out_packet) success
        (codes "Close Action") none)

  process_close :
      (env : Surroundings Obj) (obj : Obj) (p : Processor Obj) (n : ℕ)
      → p.refcount ≡ suc (suc n)
      → Serving.process bson env success close_cmd obj p ≡ some (one_less p, closed_reply p)
  unfolding Serving.process Serving.dispatch
  process_close env obj p n e = simp (close_shared env p n e, Serving.process, Serving.dispatch)

  -- What a connection leaves that serves a request to close.
  serve_close :
      (env : Surroundings Obj) (obj : Obj) (id : Text) (p : Processor Obj) (n : ℕ)
      (t : Processors Obj) (c : Connection)
      → p.refcount ≡ suc (suc n)
      → (c' : Connection) × (r : Result (Unit {0})) × (serve bson env success close_cmd obj id p t c
          ≡ some (record t { items = put id (one_less p) t.items }, c', r))
        × (c'.processor ≡ c.processor)
  unfolding serve
  serve_close env obj id p n t c e = elim (Result-cases (closed_reply p)) [
    | inl (reply, f) ↦ (
      record c { send_buffer = reply; processor_opened = c.processor_opened },
      ok tt,
      simp (process_close env obj p n e, f, serve),
      refl,
    )
    | inr (x, f) ↦ (c, err x, simp (process_close env obj p n e, f, serve), refl)
  ]

  gone :
      (env : Surroundings Obj) (id : Text) (p : Processor Obj) (t : Processors Obj) (c : Connection)
      → c.processor ≡ some id
      → lookup id t.items ≡ some p
      → lookup id (handle_read_header bson env none t c).0.items ≡ some (Processor.close env p).0
  unfolding handle_read_header close_processor
  gone env id p t c e l = elim (Result-cases (Processor.close env p).1) [
    | inl (x, f) ↦ simp (e, l, f, handle_read_header, close_processor) (lookup-put id p _ t.items l)
    | inr (x, f) ↦ simp (e, l, f, handle_read_header, close_processor) (lookup-put id p _ t.items l)
  ]

  asked_to_close :
      (env : Surroundings Obj) (bytes text : Text) (obj : Obj) (t : Processors Obj) (c : Connection)
      (id : Text) (p : Processor Obj)
      → c.processor ≡ some id
      → lookup id t.items ≡ some p
      → body (record c.in_packet { raw = some bytes }) ≡ ok text
      → Reply.parse_request bson (c_string text) ≡ ok (success, close_cmd, obj)
      → handle_read_body bson env (some bytes) t c
        ≡ serve bson env success close_cmd obj id p t
            (record c { in_packet = record c.in_packet { raw = some bytes } })
  unfolding handle_read_body process process_parsed process_with body
  asked_to_close env bytes text obj t c id p e l f g =
      simp (f, g, e, l, handle_read_body, process, process_parsed, process_with)

  -- A connection that sends CLOSE, where its processor has at least two clients, and then ends:
  -- whatever comes of the reply, the request counts a client out and leaves the connection its
  -- processor, and the end of the connection closes that processor again, so that one client takes
  -- two off the count.
  pub handle_read_body-twice :
      (env later : Surroundings Obj) (bytes text : Text) (obj : Obj) (t : Processors Obj)
      (c : Connection) (id : Text) (p : Processor Obj) (n : ℕ)
      → c.processor ≡ some id
      → lookup id t.items ≡ some p
      → body (record c.in_packet { raw = some bytes }) ≡ ok text
      → Reply.parse_request bson (c_string text) ≡ ok (success, close_cmd, obj)
      → p.refcount ≡ suc (suc n)
      → (t' : Processors Obj) × (c' : Connection) × (r : Result (Unit {0})) × (handle_read_body bson
            env
            (some bytes)
            t
            c
          ≡ some (t', c', r))
        × (lookup id t'.items ≡ some (one_less p))
        × (lookup id (handle_read_header bson later none t' c').0.items
            ≡ some (Processor.close later (one_less p)).0)
        × ((Processor.close later (one_less p)).0.refcount ≡ n)
  handle_read_body-twice env later bytes text obj t c id p n e l f g k =
      let at_body = record c { in_packet = record c.in_packet { raw = some bytes } } in
      let (c', r, served, keeps) = serve_close env obj id p n t at_body k in
      let t' = record t { items = put id (one_less p) t.items } in
      let found : lookup id t'.items ≡ some (one_less p) = lookup-put id p (one_less p) t.items l in
      (
        t',
        c',
        r,
        asked_to_close env bytes text obj t c id p e l f g ∙ served,
        found,
        gone later id (one_less p) t' c' (keeps ∙ e) found,
        refcount-close later (one_less p) ∙ omega arith,
      )
