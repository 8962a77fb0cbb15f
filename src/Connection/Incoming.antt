-- ===== src/Connection/Incoming.antt =====
-- A packet that a client packs, as a connection reads it: the header, and then as many bytes as it
-- says.
use zbroker.Base.{
  ◌-◌, ◌^◌, lt→ltb, subst, ◌≡◌, ◌≢◌, refl, ap, sym, ◌∙◌, [], ◌∷◌, ◌++◌, some, Text, length, take,
  drop, take-append, drop-append, All, ok, arith, replicate, le→leb,
}
use zbroker.Bson.{Bson}
use zbroker.Protocol.{Command, Response}
use zbroker.Packet.{OutPacket, InPacket, body, reserve, pack, header_length, packet_id_length}
use zbroker.Packet.Wire.{
  Fits, total_size, header_text, payload, pack_lem, decode_header, length-header_text,
  length-payload, length-id,
}
use zbroker.Reply
use zbroker.Processor.{Surroundings}
use zbroker.Connection.{
  reserved, Processors, Connection, process, process_parsed, handle_read_header, handle_read_body,
}
use zbroker.Packet.{c_string}

-- A text that a C string can hold.
abbrev pub HasNoNul : Text → Type 0
HasNoNul text = All (λ c. c ≢ 0) text

c_string_lem : (text : Text) → HasNoNul text → c_string text ≡ text
unfolding c_string
c_string_lem [] h = refl
c_string_lem (c ∷ text) (p, h) = ground (arith, c_string_lem text h)

-- The packet of a connection with the bytes of a packet in it.
abbrev pub holding : OutPacket → Text → InPacket → InPacket
holding p raw q = record {
  header = record { buffer = header_text p; body_length = total_size p };
  packet_id = q.packet_id;
  raw = some raw;
}

body-holding : (p : OutPacket) (q : InPacket) → Fits p → body (holding p (payload p) q) ≡ ok p.body
unfolding body
body-holding p q fits =
    rw (le→leb packet_id_length (length (payload p)) (omega (arith, length-payload p fits)))
      (ap ok (drop-append 32 _ p.body (length-id p fits)))

module _ (bson : Bson) where
  open bson use {Obj}

  header-holding :
      (env : Surroundings Obj) (p : OutPacket) (t : Processors Obj) (c : Connection)
      → Fits p
      → handle_read_header bson env (some (header_text p)) t c
        ≡ (t, record c { in_packet = holding p (replicate (total_size p) 0) c.in_packet }, ok tt)
  unfolding handle_read_header reserved reserve
  header-holding env p t c fits = simp (
    decode_header p fits c.in_packet.header.body_length,
    lt→ltb (total_size p) (2 ^ 63 - 1) (omega (arith, fits.size_fits)),
    handle_read_header,
    reserved,
    reserve,
  )

  body-incoming :
      (env : Surroundings Obj) (p : OutPacket) (old : Text) (t : Processors Obj) (c : Connection)
      (res : Response) (cmd : Command) (obj : Obj)
      → Fits p
      → HasNoNul p.body
      → Reply.parse_request bson p.body ≡ ok (res, cmd, obj)
      → handle_read_body bson env
          (some (payload p))
          t
          (record c { in_packet = holding p old c.in_packet })
        ≡ process_parsed bson env res cmd obj t
            (record c { in_packet = holding p (payload p) c.in_packet })
  unfolding handle_read_body process
  body-incoming env p old t c res cmd obj fits nul e =
      simp (body-holding p c.in_packet fits, c_string_lem p.body nul, e, handle_read_body, process)

  -- A packet that fits, with a body that is a C string and parses, and as `pack` writes it: the
  -- connection takes its first 16 bytes without an exception, asks for exactly as many as follow,
  -- and with these handles the request that the body stands for.
  pub handle_read_body-pack :
      (env : Surroundings Obj) (p : OutPacket) (t : Processors Obj) (c : Connection)
      (res : Response) (cmd : Command) (obj : Obj)
      → Fits p
      → HasNoNul p.body
      → Reply.parse_request bson p.body ≡ ok (res, cmd, obj)
      → (q : OutPacket) × (wire : Text) × (c' : Connection) × (pack p ≡ ok (q, wire))
        × (handle_read_header bson env (some (take header_length wire)) t c ≡ (t, c', ok tt))
        × (length (drop header_length wire) ≡ c'.in_packet.header.body_length)
        × (handle_read_body bson env (some (drop header_length wire)) t c'
            ≡ process_parsed bson env res cmd obj t
                (record c { in_packet = holding p (drop header_length wire) c.in_packet }))
  handle_read_body-pack env p t c res cmd obj fits nul e =
      let f = take-append 16 (header_text p) (payload p) (length-header_text p fits) in
      let g = drop-append 16 (header_text p) (payload p) (length-header_text p fits) in
      (
        _,
        header_text p ++ payload p,
        record c { in_packet = holding p (replicate (total_size p) 0) c.in_packet },
        pack_lem p fits,
        ap (λ x. handle_read_header bson env (some x) t c) f ∙ header-holding env p t c fits,
        ap length g ∙ length-payload p fits,
        subst
            (λ x.
              handle_read_body bson env (some x) t
                (record c { in_packet = holding p (replicate (total_size p) 0) c.in_packet })
              ≡ process_parsed bson env res cmd obj t
                  (record c { in_packet = holding p x c.in_packet }))
            (sym g) (body-incoming env p _ t c res cmd obj fits nul e),
      )
