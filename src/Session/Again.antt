-- ===== src/Session/Again.antt =====
-- An OPEN request on a connection that has opened, from the client's packet to the client's reply.
use zbroker.Base.{◌<◌, ◌≡◌, ◌∙◌, true, some, none, Text, [], length, codes, ok, drop, arith}
use zbroker.Bson.{Bson}
use zbroker.Protocol.{open_cmd, success, already_open}
use zbroker.Packet.{OutPacket, header_length, pack, max_body_length, new_out_packet}
use zbroker.Reply.{init_response_builder, get_response_string, pack_response}
use zbroker.Reply.Sent.{short_reply, get_response_string-read}
use zbroker.Processor.{Processor, Surroundings}
use zbroker.Connection.{Processors, Connection, refuse_open, process_with, process_parsed}
use zbroker.Connection.Incoming.{holding}
use zbroker.Session.{receive, IsRequest, IsServed, Replies, receive-pack}

module _ (bson : Bson) where
  open bson use {Obj, empty_object}

  -- The object of the reply.
  abbrev pub refused : Obj
  refused = init_response_builder bson empty_object already_open none (codes "connection::process")

  process_parsed-refused :
      (env : Surroundings Obj) (obj : Obj) (id : Text) (s : Processor Obj) (t : Processors Obj)
      (c : Connection) (q : OutPacket) (reply : Text)
      → IsServed bson id s t c
      → c.processor_opened ≡ true
      → get_response_string bson new_out_packet refused ≡ ok (q, reply)
      → process_parsed bson env success open_cmd obj t c
        ≡ some (t, record c { send_buffer = reply }, ok tt)
  unfolding process_parsed process_with refuse_open pack_response
  process_parsed-refused env obj id s t c q reply w o e =
      simp (w.attached, w.found, o, e, process_parsed, process_with, refuse_open, pack_response)

  -- A packet with an OPEN, on a connection that has opened its processor, where the reply for what
  -- is too long is itself below 10 MB: the bytes that `pack` writes are taken, and the request does
  -- not throw. The table stays as it was, so no processor is opened, added or counted, the
  -- connection keeps its own, and the client reads the reply `already_open`, which has no id.
  pub receive-refused :
      (env : Surroundings Obj) (p : OutPacket) (obj : Obj) (id : Text) (s : Processor Obj)
      (t : Processors Obj) (c : Connection)
      → IsRequest bson p open_cmd obj
      → IsServed bson id s t c
      → c.processor_opened ≡ true
      → length (short_reply bson) < max_body_length
      → (q : OutPacket) × (wire : Text) × (c' : Connection) × (pack p ≡ ok (q, wire))
        × (receive bson env wire t c ≡ some (t, c', ok tt))
        × IsServed bson id s t c'
        × (c'.processor_opened ≡ true)
        × Replies bson [] refused c'.send_buffer
  unfolding new_out_packet
  receive-refused env p obj id s t c v w o short =
      let (q, wire, packed, received) = receive-pack bson env p t c open_cmd obj v in
      let c' = record c { in_packet = holding p (drop header_length wire) c.in_packet } in
      let (q', reply, r, sent, long, read, same, named) =
        get_response_string-read bson new_out_packet refused short (omega arith) in
      (
        q,
        wire,
        record c' { send_buffer = reply },
        packed,
        received
            ∙ process_parsed-refused env obj id s t c' q' reply
                (record { attached = w.attached; found = w.found }) o sent,
        record { attached = w.attached; found = w.found },
        o,
        (r, read, same, named),
      )
