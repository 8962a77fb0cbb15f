-- ===== src/Processor/Serving.antt =====
-- `open`, `do_read`, `do_write` and `process` of src/asio_processor.cc.
use zbroker.Base.{
  ℕ, zero, suc, ◌+◌, true, false, ◌||◌, not, List, [], ◌∷◌, map, Option, none, some, Text, codes,
  is_empty, ◌==◌, if◌then◌else◌, to_size_t, ulong_max, Result, ok, err, thrown_text,
  assertion_failed,
}
use zbroker.Bson.{Bson}
use zbroker.SizedQueue.{PushTurn}
use zbroker.Broker
use zbroker.Broker.{Broker}
use zbroker.Broker.Init
use zbroker.Broker.Batch
use zbroker.Protocol.{
  Command, open_cmd, close_cmd, read_cmd, write_cmd, rewind_cmd, Purpose, read_purpose,
  write_purpose, Response, success, no_more_item,
}
use zbroker.Packet.{OutPacket, new_out_packet, set_packet_id}
use zbroker.Reply
use zbroker.Processor.{Processor, Surroundings, purpose_of, set_purpose_name, close, do_rewind}

-- The loop of `do_write`: `push` until nothing is left. `none` means that the fuel ran out.
unfoldable pub write_all :
    {Obj : Type 0}
    → ℕ
    → (ℕ → PushTurn)
    → ℕ
    → List Text
    → Broker Obj
    → Option (Broker Obj × Result (Unit {0}))
write_all zero turns k docs b = none
write_all (suc fuel) turns k [] b = some (b, ok tt)
write_all (suc fuel) turns k (doc ∷ docs) b =
    let pushed = Broker.push (turns k) (doc ∷ docs) b in
    elim pushed.2 [
      | err e ↦ some (pushed.0, err e)
      | ok n ↦ write_all fuel turns (suc k) pushed.1 pushed.0
    ]

module _ (bson : Bson) where
  open bson use {Obj, int_field, object_field, values, json_string}

  -- The constructor; an empty id fails an assertion.
  unfoldable pub create : Text → Result (Processor Obj)
  create processor_id =
      if is_empty processor_id
      then err assertion_failed
      else ok (record {
        read_broker = Broker.create bson;
        write_broker = Broker.create bson;
        read_thread = false;
        write_thread = false;
        processor_id = processor_id;
        refcount = 0;
        purpose_name = [];
      })

  -- One more client, and the purpose's name.
  unfoldable pub count_client : Purpose → Processor Obj → Processor Obj
  unfolding set_purpose_name
  count_client p s = set_purpose_name p (record s { refcount = s.refcount + 1 })

  unfoldable pub open_processor :
      Surroundings Obj → Purpose → Obj → Processor Obj → Processor Obj × Result (Unit {0})
  open_processor env read_purpose obj s =
      if s.read_broker.connected
      then (count_client read_purpose s, ok tt)
      else (let (b, r) = Init.open_broker bson env.server (some obj) s.read_broker in
          elim r [
            | err e ↦ (record s { read_broker = b }, err e)
            | ok _ ↦ (
              count_client read_purpose (record s { read_broker = b; read_thread = true }),
              ok tt,
            )
          ])
  open_processor env write_purpose obj s =
      if s.write_broker.connected
      then (count_client write_purpose s, ok tt)
      else (let (b, r) = Init.open_broker bson env.server (some obj) s.write_broker in
          elim r [
            | err e ↦ (record s { write_broker = b }, err e)
            | ok _ ↦ (
              count_client write_purpose (record s { write_broker = b; write_thread = true }),
              ok tt,
            )
          ])
  open_processor env (Purpose.other n) obj s = (s, err (thrown_text (codes "invalid Purpose")))

  -- The text of a packed reply.
  abbrev pub packed : Result (OutPacket × Text) → Result Text
  packed (ok (packet, text)) = ok text
  packed (err e) = err e

  -- The reply of `do_read` to what `batch_pop` returned and took.
  unfoldable pub read_reply : OutPacket → ℕ → List Text → Result Text
  read_reply packet ret docs =
      if not (ret == ulong_max) || not (is_empty docs)
      then packed (Reply.pack_documents bson packet success docs (codes "do_read"))
      else packed
          (Reply.pack_documents bson packet no_more_item docs (codes "do_read no more items"))

  unfoldable pub do_read :
      Surroundings Obj → OutPacket → Processor Obj → Processor Obj × Result Text
  do_read env packet s =
      let (taken, r) = Batch.batch_pop env.pops [] (to_size_t s.read_broker.limit) s.read_broker in
      let s' = record s { read_broker = taken.broker } in
      elim r [ err e ↦ (s', err e) | ok ret ↦ (s', read_reply packet ret taken.docs) ]

  unfoldable pub do_write :
      Surroundings Obj → OutPacket → Obj → Processor Obj → Option (Processor Obj × Result Text)
  do_write env packet update s =
      let texts = map json_string (values (object_field update (codes "docs"))) in
      elim (write_all env.fuel env.pushes 0 texts s.write_broker) [
        | none ↦ none
        | some (b, err e) ↦ some (record s { write_broker = b }, err e)
        | some (b, ok _) ↦ some (
          record s { write_broker = b },
          packed (Reply.pack_response bson packet success (codes "do_write") none),
        )
      ]

  -- The reply after a step that may throw.
  abbrev pub reply_after :
      OutPacket → Text → Processor Obj × Result (Unit {0}) → Option (Processor Obj × Result Text)
  reply_after packet extra (s, ok _) =
      some (s, packed (Reply.pack_response bson packet success extra none))
  reply_after packet extra (s, err e) = some (s, err e)

  -- `process` of a command, behind its test of the response.
  unfoldable pub dispatch :
      Surroundings Obj
      → OutPacket
      → Command
      → Obj
      → Processor Obj
      → Option (Processor Obj × Result Text)
  dispatch env packet open_cmd obj s =
      reply_after packet (codes "Open Action")
        (open_processor env (purpose_of (int_field obj (codes "purpose"))) obj s)
  dispatch env packet close_cmd obj s = reply_after packet (codes "Close Action") (close env s)
  dispatch env packet read_cmd obj s =
      if s.read_broker.connected
      then some (do_read env packet s)
      else some (s, err assertion_failed)
  dispatch env packet write_cmd obj s =
      if s.write_broker.connected then do_write env packet obj s else some (s, err assertion_failed)
  dispatch env packet rewind_cmd obj s =
      reply_after packet (codes "Rewind Action") ((do_rewind s).0, ok tt)
  dispatch env packet (Command.other n) obj s = some (s, err (thrown_text (codes "UnknownCommand")))

  unfoldable pub process :
      Surroundings Obj
      → Response
      → Command
      → Obj
      → Processor Obj
      → Option (Processor Obj × Result Text)
  process env success cmd obj s =
      dispatch env (set_packet_id s.processor_id new_out_packet) cmd obj s
  process env res cmd obj s = some (s, err (thrown_text (codes "process error")))

  -- `process` of a request's text.
  unfoldable pub process_json :
      Surroundings Obj → Text → Processor Obj → Option (Processor Obj × Result Text)
  process_json env json s = elim (Reply.parse_request bson json) [
    | err e ↦ some (s, err e)
    | ok (res, cmd, obj) ↦ process env res cmd obj s
  ]
