-- ===== src/Session/Write.antt =====
-- A WRITE request from the client's packet to the queue of updates and the client's reply.
use zbroker.Base.{
  true, ◌≤◌, ◌<◌, ◌≡◌, refl, ◌∙◌, ◌++◌, ℕ, List, some, none, Text, length, map, reverse, drop,
  codes, ok,
}
use zbroker.Bson.{Bson}
use zbroker.Protocol.{write_cmd, success}
use zbroker.Packet.{
  OutPacket, header_length, pack, packet_id_length, max_body_length, new_out_packet, set_packet_id,
}
use zbroker.Reply.{init_response_builder, get_response_string, pack_response}
use zbroker.Reply.Sent.{short_reply, get_response_string-read}
use zbroker.Broker.{Broker, check_status}
use zbroker.Broker.Status.{check_status-connected}
use zbroker.Broker.Loops.Pushing.{taken_by}
use zbroker.Processor.{Processor, Surroundings}
use zbroker.Processor.Serving
use zbroker.Processor.Serving.{write_all, do_write}
use zbroker.Processor.Writing.{write_all-delivers}
use zbroker.Connection.{Processors, Connection, put, serve}
use zbroker.Connection.Incoming.{holding}
use zbroker.Session.{receive, IsRequest, IsServed, Replies, receive-pack, process_parsed-serve}

module _ (bson : Bson) where
  open bson use {Obj, empty_object, object_field, values, json_string}

  -- The documents of a request, printed.
  abbrev pub texts_of : Obj → List Text
  texts_of obj = map json_string (values (object_field obj (codes "docs")))

  -- The object of the reply.
  abbrev pub written : Obj
  written = init_response_builder bson empty_object success none (codes "do_write")

  serve_write :
      (env : Surroundings Obj) (obj : Obj) (id : Text) (s : Processor Obj) (b : Broker Obj)
      (t : Processors Obj) (c : Connection) (q : OutPacket) (reply : Text)
      → s.write_broker.connected ≡ true
      → write_all env.fuel env.pushes 0 (texts_of obj) s.write_broker ≡ some (b, ok tt)
      → get_response_string bson (set_packet_id s.processor_id new_out_packet) written
        ≡ ok (q, reply)
      → serve bson env success write_cmd obj id s t c
        ≡ some (
          record t { items = put id (record s { write_broker = b }) t.items },
          record c { send_buffer = reply; processor_opened = c.processor_opened },
          ok tt,
        )
  unfolding serve Serving.process Serving.dispatch do_write pack_response
  serve_write env obj id s b t c q reply h e f =
      simp (h, e, f, serve, Serving.process, Serving.dispatch, do_write, pack_response)

  -- A packet with a WRITE, on a connection whose processor has a writing broker that is open, with
  -- a positive limit and its queue within it, while the writing thread takes an item before each
  -- `push`, with fuel above the number of documents, where the reply for what is too long is itself
  -- below 10 MB and the id of the processor fits its field: the bytes that `pack` writes are taken,
  -- and the request does not throw. Nothing of the table but the writing broker of this processor
  -- changes, whose queue is the old content followed by the documents backwards, without as many from
  -- the front as the writing thread has taken in its turns, and the client reads the reply that
  -- they are written.
  pub receive-written :
      (env : Surroundings Obj) (p : OutPacket) (obj : Obj) (id : Text) (s : Processor Obj)
      (t : Processors Obj) (c : Connection)
      → IsRequest bson p write_cmd obj
      → IsServed bson id s t c
      → check_status s.write_broker ≡ ok tt
      → 0 < s.write_broker.queue.limit_size
      → length s.write_broker.queue.items ≤ s.write_broker.queue.limit_size
      → ((k : ℕ) → 0 < (env.pushes k).taken)
      → length (texts_of obj) < env.fuel
      → length (short_reply bson) < max_body_length
      → length s.processor_id ≤ packet_id_length
      → (q : OutPacket) × (wire : Text) × (b : Broker Obj) × (c' : Connection) × (pack p
          ≡ ok (q, wire))
        × (receive bson env wire t c
            ≡ some (record t { items = put id (record s { write_broker = b }) t.items }, c', ok tt))
        × (b.queue.items
            ≡ drop
                (taken_by env.pushes s.write_broker.queue.limit_size env.fuel 0
                  (length s.write_broker.queue.items)
                  (length (texts_of obj)))
                (s.write_broker.queue.items ++ reverse (texts_of obj)))
        × Replies bson s.processor_id written c'.send_buffer
  unfolding set_packet_id
  receive-written env p obj id s t c v w ready positive within takes fuel short fits =
      let (q, wire, packed, received) = receive-pack bson env p t c write_cmd obj v in
      let c' = record c { in_packet = holding p (drop header_length wire) c.in_packet } in
      let (b, done, content) =
        write_all-delivers env.pushes takes env.fuel 0 (texts_of obj) s.write_broker fuel ready
          positive within in
      let (q', reply, r, sent, long, read, same, named) =
        get_response_string-read bson (set_packet_id s.processor_id new_out_packet) written short
          fits in
      (
        q,
        wire,
        b,
        record c' { send_buffer = reply; processor_opened = c.processor_opened },
        packed,
        received
            ∙ process_parsed-serve bson env write_cmd obj id s t c'
                (record { attached = w.attached; found = w.found }) refl
            ∙ serve_write env obj id s b t c' q' reply (check_status-connected s.write_broker ready)
                done sent,
        content,
        (r, read, same, named),
      )
