-- ===== src/Session/Read.antt =====
-- A READ request from the client's packet to the client's reply.
use zbroker.Base.{
  pad_left, ◌≤◌, ◌<◌, ◌≡◌, ◌++◌, ℕ, List, [], ◌∷◌, Option, none, some, Text, length, codes, Result,
  ok, err, Error, undefined_behaviour,
}
use zbroker.Bson.{Bson}
use zbroker.Protocol.{success, no_more_item}
use zbroker.Packet.{
  c_string, body, in_packet_from, InPacket, OutPacket, max_body_length, new_out_packet,
  set_packet_id,
}
use zbroker.Reply.{to_bson, init_response_builder}
use zbroker.Reply.Sent.{short_reply}
use zbroker.Broker.{Broker}
use zbroker.Broker.Batch.Taken.{Came}
use zbroker.Processor.{Processor, Surroundings}
use zbroker.Processor.Serving
use zbroker.Connection.{Processors, Connection, Handled, put}

module _ (bson : Bson) where
  open bson use {Obj, empty_object, append_object, json_string}

  -- The object of a reply to READ: the documents in a list, or that there are none.
  abbrev pub answer_of : List Text → Result Obj
  answer_of [] =
      ok (init_response_builder bson empty_object no_more_item none (codes "do_read no more items"))
  answer_of (doc ∷ docs) = elim (to_bson bson (doc ∷ docs)) [
    | err e ↦ err e
    | ok listed ↦ ok (
        append_object (init_response_builder bson empty_object success none (codes "do_read"))
          (codes "docs") listed)
  ]

  -- The table once the reading broker of a processor has changed.
  abbrev pub with_broker : Text → Processor Obj → Broker Obj → Processors Obj → Processors Obj
  with_broker id s b t = record t { items = put id (record s { read_broker = b }) t.items }

  -- What the client reads of an answer whose JSON is below 10 MB: that JSON.
  abbrev pub Answered : Text → Obj → Text → Type 0
  Answered id answer wire =
      (length (json_string answer) < max_body_length)
      × ((r : InPacket) × (in_packet_from wire ≡ ok r)
          × (body r ≡ ok (json_string answer))
          × (r.packet_id ≡ pad_left 32 (c_string id)))

  -- And of one that is not: that it is too long.
  abbrev pub TooLong : Text → Obj → Text → Type 0
  TooLong id answer wire =
      (max_body_length ≤ length (json_string answer))
      × ((r : InPacket) × (in_packet_from wire ≡ ok r)
          × (body r ≡ ok (short_reply bson))
          × (r.packet_id ≡ pad_left 32 (c_string id)))

  -- How a READ ends: the reply lists what left the front of the queue; or its JSON is not below
  -- 10 MB, and the reply says so while these texts are lost; or they cannot be listed, and are
  -- lost; or the computation of a timeout is undefined.
  pub data ReadEnds (env : Surroundings Obj) (id : Text) (s : Processor Obj) (t : Processors Obj)
      (o : Option (Handled Obj)) : Type 0 where
    answered :
        (docs came : List Text) (turn : ℕ) (b : Broker Obj) (c : Connection) (answer : Obj)
        → o ≡ some (with_broker id s b t, c, ok tt)
        → answer_of docs ≡ ok answer
        → Answered s.processor_id answer c.send_buffer
        → Came env.pops 0 turn came
        → docs ++ b.queue.items ≡ s.read_broker.queue.items ++ came
        → ReadEnds env id s t o
    too_long :
        (docs came : List Text) (turn : ℕ) (b : Broker Obj) (c : Connection) (answer : Obj)
        → o ≡ some (with_broker id s b t, c, ok tt)
        → answer_of docs ≡ ok answer
        → TooLong s.processor_id answer c.send_buffer
        → Came env.pops 0 turn came
        → docs ++ b.queue.items ≡ s.read_broker.queue.items ++ came
        → ReadEnds env id s t o
    unlisted :
        (docs came : List Text) (turn : ℕ) (b : Broker Obj) (c : Connection) (e : Error)
        → o ≡ some (with_broker id s b t, c, err e)
        → answer_of docs ≡ err e
        → Came env.pops 0 turn came
        → docs ++ b.queue.items ≡ s.read_broker.queue.items ++ came
        → ReadEnds env id s t o
    undefined :
        (t' : Processors Obj) (c : Connection)
        → o ≡ some (t', c, err undefined_behaviour)
        → ReadEnds env id s t o

  -- The packet of a reply of this processor.
  abbrev reply_packet : Processor Obj → OutPacket
  reply_packet s = set_packet_id s.processor_id new_out_packet
