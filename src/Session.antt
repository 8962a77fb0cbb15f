-- ===== src/Session.antt =====
-- A whole request: how a connection takes a packet that a client has packed, hands it to its
-- processor, and what the client reads of the reply. The parts are connection::handle_read_header,
-- connection::handle_read_body and connection::process of src/asio_handler.cc, with the packets and
-- the replies on both sides.
pub mod Read
pub mod Write
pub mod Open
pub mod Again
pub mod Group
use zbroker.Base.{◌≡◌, ◌∙◌, false, Option, some, Text, take, drop, pad_left, ok, err}
use zbroker.Bson.{Bson}
use zbroker.Protocol.{Command, success}
use zbroker.Packet.{c_string, OutPacket, InPacket, header_length, pack, in_packet_from, body}
use zbroker.Packet.Wire.{Fits}
use zbroker.Reply.{parse_request, response_json}
use zbroker.Processor.{Processor, Surroundings}
use zbroker.Processor.Serving
use zbroker.Connection.{
  Processors, Connection, Handled, is_open_cmd, lookup, serve, process_with, process_parsed,
  handle_read_header, handle_read_body,
}
use zbroker.Connection.Incoming.{HasNoNul, holding, handle_read_body-pack}

module _ (bson : Bson) where
  open bson use {Obj}

  -- The bytes of a packet at a connection that waits for one: the header, and if it is taken the
  -- rest.
  abbrev pub receive : Surroundings Obj → Text → Processors Obj → Connection → Option (Handled Obj)
  receive env wire t c =
      let (t', c', r) = handle_read_header bson env (some (take header_length wire)) t c in
      elim r [
        | err e ↦ some (t', c', err e)
        | ok _ ↦ handle_read_body bson env (some (drop header_length wire)) t' c'
      ]

  -- A packet that can be sent, whose body is JSON with a command and an object.
  pub record IsRequest (p : OutPacket) (cmd : Command) (obj : Obj) : Type 0 where
    pub fits : Fits p
    pub no_nul : HasNoNul p.body
    pub parses : parse_request bson p.body ≡ ok (success, cmd, obj)

  -- A connection whose processor is this one of the table.
  pub record IsServed (id : Text) (s : Processor Obj) (t : Processors Obj) (c : Connection)
      : Type 0 where
    pub attached : c.processor ≡ some id
    pub found : lookup id t.items ≡ some s

  -- What a client reads of the bytes that a connection sends: the reply that was built, under the
  -- id of the processor.
  abbrev pub Replies : Text → Obj → Text → Type 0
  Replies id builder wire =
      (r : InPacket) × (in_packet_from wire ≡ ok r)
      × (body r ≡ ok (response_json bson builder))
      × (r.packet_id ≡ pad_left 32 (c_string id))

  receive_both :
      (env : Surroundings Obj) (wire : Text) (t t' : Processors Obj) (c c' : Connection)
      → handle_read_header bson env (some (take header_length wire)) t c ≡ (t', c', ok tt)
      → receive env wire t c ≡ handle_read_body bson env (some (drop header_length wire)) t' c'
  receive_both env wire t t' c c' e = simp (receive, e)

  pub receive-pack :
      (env : Surroundings Obj) (p : OutPacket) (t : Processors Obj) (c : Connection) (cmd : Command)
      (obj : Obj)
      → IsRequest p cmd obj
      → (q : OutPacket) × (wire : Text) × (pack p ≡ ok (q, wire))
        × (receive env wire t c
            ≡ process_parsed bson env success cmd obj t
                (record c { in_packet = holding p (drop header_length wire) c.in_packet }))
  receive-pack env p t c cmd obj v =
      let (q, wire, c', packed, taken, long, handled) =
        handle_read_body-pack bson env p t c success cmd obj v.fits v.no_nul v.parses in
      (q, wire, packed, receive_both env wire t t c c' taken ∙ handled)

  pub process_parsed-serve :
      (env : Surroundings Obj) (cmd : Command) (obj : Obj) (id : Text) (s : Processor Obj)
      (t : Processors Obj) (c : Connection)
      → IsServed id s t c
      → is_open_cmd cmd ≡ false
      → process_parsed bson env success cmd obj t c ≡ serve bson env success cmd obj id s t c
  unfolding process_parsed process_with
  process_parsed-serve env cmd obj id s t c v e =
      simp (v.attached, v.found, e, process_parsed, process_with)
