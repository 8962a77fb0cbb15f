-- ===== src/Connection/Keeps.antt =====
-- The rule for what the handlers of a connection keep: a predicate that each of their steps keeps,
-- on the table of processors and the connection, holds after every handler.
use zbroker.Base.{
  ulong_max, ◌==◌, ◌-◌, ◌^◌, ltb, ℕ, ◌≡◌, inl, inr, Bool, true, false, Option, none, some, Text, ok,
  Option-cases, Result-cases, Bool-cases, codes,
}
use zbroker.Bson.{Bson}
use zbroker.Protocol.{Command, Response, already_open}
use zbroker.Packet.{PacketHeader, body, decode, reserve, new_out_packet}
use zbroker.Reply
use zbroker.Processor
use zbroker.Processor.{Processor, Surroundings}
use zbroker.Processor.Serving
use zbroker.Connection.{
  reserved, Processors, Connection, Handled, handle_write, is_open_cmd, lookup, put, find,
  processor_hash, serve, refuse_open, process_with, process_parsed, process, close_processor,
  handle_read_header, handle_read_body,
}
use zbroker.Packet.{c_string}

module _ (bson : Bson) where
  open bson use {Obj}

  -- The steps that the handlers are made of.
  pub record Closed (P : Processors Obj → Connection → Type 0) : Type 0 where
    pub puts :
        (t : Processors Obj) (c : Connection) (id : Text) (p : Processor Obj)
        → P t c
        → P (record t { items = put id p t.items }) c
    pub finds : (t : Processors Obj) (c : Connection) (id : Text) → P t c → P (find bson id t).0 c
    pub attaches :
        (t : Processors Obj) (c : Connection) (id : Text) (p : Processor Obj)
        → (find bson id t).1 ≡ ok p
        → P (find bson id t).0 c
        → P (find bson id t).0 (record c { processor = some id })
    pub detaches :
        (t : Processors Obj) (c : Connection) → P t c → P t (record c { processor = none })
    pub replies :
        (t : Processors Obj) (c : Connection) (reply : Text) (opened : Bool)
        → P t c
        → P t (record c { send_buffer = reply; processor_opened = opened })
    pub reads :
        (t : Processors Obj) (c : Connection) (header : PacketHeader) (raw : Option Text)
        → P t c
        → P t (record c { in_packet = record c.in_packet { header = header; raw = raw } })
    pub shuts :
        (t : Processors Obj) (c : Connection) → P t c → P t (record c { socket_open = false })

  module _ (P : Processors Obj → Connection → Type 0) (closed : Closed P) where
    -- The predicate on what a handler leaves.
    abbrev pub After : Handled Obj → Type 0
    After (t, c, r) = P t c

    abbrev pub Afters : Option (Handled Obj) → Type 0
    Afters none = Unit {0}
    Afters (some h) = After h

    serve_keeps :
        (env : Surroundings Obj) (res : Response) (cmd : Command) (obj : Obj) (id : Text)
        (p : Processor Obj) (t : Processors Obj) (c : Connection)
        → P t c
        → Afters (serve bson env res cmd obj id p t c)
    unfolding serve
    serve_keeps env res cmd obj id p t c v =
        elim (Option-cases (Serving.process bson env res cmd obj p)) [
          | inl f ↦ rw (f, serve) tt
          | inr ((p', r), f) ↦ elim (Result-cases r) [
            | inl (reply, g) ↦
                rw (f, g, serve) (closed.replies _ c reply _ (closed.puts t c id p' v))
            | inr (x, g) ↦ rw (f, g, serve) (closed.puts t c id p' v)
          ]
        ]

    refuse_open_keeps :
        (t : Processors Obj) (c : Connection) → P t c → Afters (refuse_open bson t c)
    unfolding refuse_open
    refuse_open_keeps t c v =
        elim (Result-cases (
          Reply.pack_response bson new_out_packet already_open (codes "connection::process")
            none)) [
              | inl ((packet, reply), e) ↦
                  rw (e, refuse_open) (closed.replies t c reply c.processor_opened v)
              | inr (x, e) ↦ rw (e, refuse_open) v
            ]

    process_with_keeps :
        (env : Surroundings Obj) (res : Response) (cmd : Command) (obj : Obj) (id : Text)
        (p : Processor Obj) (t : Processors Obj) (c : Connection)
        → P t c
        → Afters (process_with bson env res cmd obj id p t c)
    unfolding process_with
    process_with_keeps env res cmd obj id p t c v = elim (Bool-cases (is_open_cmd cmd)) [
      | inr f ↦ rw (f, process_with) (serve_keeps env res cmd obj id p t c v)
      | inl f ↦ elim (Bool-cases c.processor_opened) [
        | inl g ↦ simp (f, g, process_with) (refuse_open_keeps t c v)
        | inr g ↦ simp (f, g, process_with) (serve_keeps env res cmd obj id p t c v)
      ]
    ]

    process_parsed_keeps :
        (env : Surroundings Obj) (res : Response) (cmd : Command) (obj : Obj) (t : Processors Obj)
        (c : Connection)
        → P t c
        → Afters (process_parsed bson env res cmd obj t c)
    unfolding process_parsed
    process_parsed_keeps env res cmd obj t c v = elim (Option-cases c.processor) [
      | inr (id, f) ↦ elim (Option-cases (lookup id t.items)) [
        | inr (p, g) ↦ simp (f, g, process_parsed) (process_with_keeps env res cmd obj id p t c v)
        | inl g ↦ simp (f, g, process_parsed) v
      ]
      | inl f ↦
          let id = processor_hash bson cmd obj c.in_packet in
          elim (Result-cases (find bson id t).1) [
            | inl (p, g) ↦
                simp (f, g, process_parsed)
                  (process_with_keeps env res cmd obj id p (find bson id t).0
                    (record c { processor = some id })
                    (closed.attaches t c id p g (closed.finds t c id v)))
            | inr (x, g) ↦ simp (f, g, process_parsed) (closed.finds t c id v)
          ]
    ]

    process_keeps :
        (env : Surroundings Obj) (t : Processors Obj) (c : Connection)
        → P t c
        → Afters (process bson env t c)
    unfolding process
    process_keeps env t c v = elim (Result-cases (body c.in_packet)) [
      | inr (x, f) ↦ rw (f, process) v
      | inl (text, f) ↦ elim (Result-cases (Reply.parse_request bson (c_string text))) [
        | inr (x, g) ↦ rw (f, g, process) v
        | inl ((res, cmd, obj), g) ↦ rw (f, g, process) (process_parsed_keeps env res cmd obj t c v)
      ]
    ]

    close_processor_keeps :
        (env : Surroundings Obj) (t : Processors Obj) (c : Connection)
        → P t c
        → After (close_processor bson env t c)
    unfolding close_processor
    close_processor_keeps env t c v = elim (Option-cases c.processor) [
      | inl f ↦ simp (f, close_processor) v
      | inr (id, f) ↦ elim (Option-cases (lookup id t.items)) [
        | inl g ↦ simp (f, g, close_processor) v
        | inr (p, g) ↦
            let v' = closed.puts t c id (Processor.close env p).0 v in
            elim (Result-cases (Processor.close env p).1) [
              | inl (_, h) ↦ simp (f, g, h, close_processor) (closed.detaches _ c v')
              | inr (x, h) ↦ simp (f, g, h, close_processor) v'
            ]
      ]
    ]

    reserved_keeps :
        (n : ℕ) (h : PacketHeader) (t : Processors Obj) (c : Connection)
        → P t c
        → After (reserved bson n (record c.in_packet { header = h }) t c)
    unfolding reserved reserve
    reserved_keeps n h t c v = elim (Bool-cases (ltb n (2 ^ 63 - 1))) [
      | inl e ↦ simp (e, reserved, reserve) (closed.reads t c h _ v)
      | inr e ↦ elim (Bool-cases (n == ulong_max)) [
        | inl f ↦ simp (e, f, reserved, reserve) (closed.reads t c h none v)
        | inr f ↦ simp (e, f, reserved, reserve) (closed.reads t c h none v)
      ]
    ]

    pub handle_read_header_keeps :
        (env : Surroundings Obj) (bytes : Option Text) (t : Processors Obj) (c : Connection)
        → P t c
        → After (handle_read_header bson env bytes t c)
    unfolding handle_read_header
    handle_read_header_keeps env none t c v = close_processor_keeps env t c v
    handle_read_header_keeps env (some bytes) t c v =
        elim (Result-cases (decode (record c.in_packet.header { buffer = bytes }))) [
          | inl ((header, n), f) ↦ rw (f, handle_read_header) (reserved_keeps n header t c v)
          | inr (x, f) ↦ rw (f, handle_read_header) v
        ]

    pub handle_read_body_keeps :
        (env : Surroundings Obj) (bytes : Option Text) (t : Processors Obj) (c : Connection)
        → P t c
        → Afters (handle_read_body bson env bytes t c)
    unfolding handle_read_body
    handle_read_body_keeps env none t c v = v
    handle_read_body_keeps env (some bytes) t c v =
        process_keeps env t _ (closed.reads t c c.in_packet.header (some bytes) v)

    pub handle_write_keeps :
        (error : Bool) (t : Processors Obj) (c : Connection) → P t c → P t (handle_write error c)
    unfolding handle_write
    handle_write_keeps true t c v = closed.shuts t c v
    handle_write_keeps false t c v = v
