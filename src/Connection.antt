-- ===== src/Connection.antt =====
-- src/asio_handler.hpp and src/asio_handler.cc: the connections and the processors that they share.
-- A pointer to a processor is its id in the table; a read that has ended comes with its bytes.
pub mod Table
pub mod Keeps
pub mod Attached
pub mod Incoming
pub mod First
pub mod Twice
use zbroker.Base.{
  ℕ, ◌+◌, Bool, true, false, List, [], ◌∷◌, Option, none, some, Text, codes, text_eq, ◌==◌,
  if◌then◌else◌, Result, ok, err, system_error, undefined_behaviour,
}
use zbroker.Bson.{Bson}
use zbroker.Broker
use zbroker.Protocol.{Command, open_cmd, Response, already_open}
use zbroker.Packet.{c_string, InPacket, new_in_packet, new_out_packet, decode, reserve, body}
use zbroker.Reply
use zbroker.Processor
use zbroker.Processor.{Processor, Surroundings}
use zbroker.Processor.Serving

-- `processors`: the processors by id, and their number.
pub record Processors (Obj : Type 0) : Type 0 where
  pub items : List (Text × Processor Obj)
  pub processor_count : ℕ

-- The constructor of `processors`.
abbrev pub new_processors : {Obj : Type 0} → Processors Obj
new_processors = record { items = []; processor_count = 0 }

-- The members of `class connection`; `m_out` is never used.
pub record Connection : Type 0 where
  pub socket_open : Bool
  pub in_packet : InPacket
  pub processor : Option Text
  pub processor_opened : Bool
  pub send_buffer : Text
  pub connection_id : ℕ

-- The members that the constructor leaves.
unfoldable pub new_connection : ℕ → Connection
unfolding new_in_packet
new_connection connection_id = record {
  socket_open = true;
  in_packet = new_in_packet;
  processor = none;
  processor_opened = false;
  send_buffer = [];
  connection_id = connection_id;
}

-- `handle_write`: an error shuts the socket.
unfoldable pub handle_write : Bool → Connection → Connection
handle_write true c = record c { socket_open = false }
handle_write false c = c

abbrev pub is_open_cmd : Command → Bool
is_open_cmd open_cmd = true
is_open_cmd cmd = false

module _ {Obj : Type 0} where
  unfoldable pub lookup : Text → List (Text × Processor Obj) → Option (Processor Obj)
  lookup id [] = none
  lookup id ((key, p) ∷ items) =
      let rest = lookup id items in if text_eq id key then some p else rest

  -- A processor of the table changes.
  unfoldable pub put :
      Text → Processor Obj → List (Text × Processor Obj) → List (Text × Processor Obj)
  put id p [] = []
  put id p ((key, old) ∷ items) =
      let rest = put id p items in if text_eq id key then (key, p) ∷ items else (key, old) ∷ rest

-- The table, the connection, and what was thrown if something was.
abbrev pub Handled : Type 0 → Type 0
Handled Obj = Processors Obj × Connection × Result (Unit {0})

module _ (bson : Bson) where
  open bson use {Obj, empty_object}

  -- `processors::find`, which makes a processor for an id that is new.
  unfoldable pub find : Text → Processors Obj → Processors Obj × Result (Processor Obj)
  find id t = elim (lookup id t.items) [
    | some p ↦ (t, ok p)
    | none ↦
        let counted = record t { processor_count = t.processor_count + 1 } in
        elim (Serving.create bson id) [
          | err e ↦ (counted, err e)
          | ok p ↦ (record counted { items = (id, p) ∷ t.items }, ok p)
        ]
  ]

  -- The id of the processor of a connection that has none yet.
  unfoldable pub processor_hash : Command → Obj → InPacket → Text
  processor_hash cmd obj packet = if is_open_cmd cmd then Broker.hash bson obj else packet.packet_id

  -- The end of `process`, on a processor of the table: the request is served, and the reply is
  -- sent.
  unfoldable pub serve :
      Surroundings Obj
      → Response
      → Command
      → Obj
      → Text
      → Processor Obj
      → Processors Obj
      → Connection
      → Option (Handled Obj)
  serve env res cmd obj id p t c = elim (Serving.process bson env res cmd obj p) [
    | none ↦ none
    | some (p', err e) ↦ some (record t { items = put id p' t.items }, c, err e)
    | some (p', ok reply) ↦ some (
      record t { items = put id p' t.items },
      record c {
        send_buffer = reply;
        processor_opened = if is_open_cmd cmd then true else c.processor_opened;
      },
      ok tt,
    )
  ]

  -- The reply to a second OPEN of a connection.
  unfoldable pub refuse_open : Processors Obj → Connection → Option (Handled Obj)
  refuse_open t c =
      elim (Reply.pack_response bson new_out_packet already_open (codes "connection::process")
        none) [
          | err e ↦ some (t, c, err e)
          | ok (packet, reply) ↦ some (t, record c { send_buffer = reply }, ok tt)
        ]

  -- `process` once the connection has its processor.
  unfoldable pub process_with :
      Surroundings Obj
      → Response
      → Command
      → Obj
      → Text
      → Processor Obj
      → Processors Obj
      → Connection
      → Option (Handled Obj)
  process_with env res cmd obj id p t c =
      if is_open_cmd cmd
      then if c.processor_opened then refuse_open t c else serve env res cmd obj id p t c
      else serve env res cmd obj id p t c

  -- `process` of a request that was parsed.
  unfoldable pub process_parsed :
      Surroundings Obj
      → Response
      → Command
      → Obj
      → Processors Obj
      → Connection
      → Option (Handled Obj)
  process_parsed env res cmd obj t c = elim c.processor [
    | some id ↦ elim (lookup id t.items) [
      | some p ↦ process_with env res cmd obj id p t c
      | none ↦ some (t, c, err undefined_behaviour)
    ]
    | none ↦
        let id = processor_hash cmd obj c.in_packet in
        let (t', r) = find id t in
        elim r [
          | err e ↦ some (t', c, err e)
          | ok p ↦ process_with env res cmd obj id p t' (record c { processor = some id })
        ]
  ]

  -- `connection::process`
  unfoldable pub process : Surroundings Obj → Processors Obj → Connection → Option (Handled Obj)
  process env t c = elim (body c.in_packet) [
    | err e ↦ some (t, c, err e)
    | ok text ↦ elim (Reply.parse_request bson (c_string text)) [
      | err e ↦ some (t, c, err e)
      | ok (res, cmd, obj) ↦ process_parsed env res cmd obj t c
    ]
  ]

  -- The processor is closed, and the connection has none any more.
  unfoldable pub close_processor : Surroundings Obj → Processors Obj → Connection → Handled Obj
  close_processor env t c = elim c.processor [
    | none ↦ (t, c, ok tt)
    | some id ↦ elim (lookup id t.items) [
      | none ↦ (t, c, err undefined_behaviour)
      | some p ↦
          let (p', r) = Processor.close env p in
          let t' = record t { items = put id p' t.items } in
          elim r [ err e ↦ (t', c, err e) | ok _ ↦ (t', record c { processor = none }, ok tt) ]
    ]
  ]

  -- The buffer for the body, which takes the place of the old one.
  unfoldable pub reserved : ℕ → InPacket → Processors Obj → Connection → Handled Obj
  reserved body_len p t c = elim (reserve body_len p) [
    | err e ↦ (t, record c { in_packet = record p { raw = none } }, err e)
    | ok p' ↦ (t, record c { in_packet = p' }, ok tt)
  ]

  -- `handle_read_header`, with the bytes of the header, or with none after an error.
  unfoldable pub handle_read_header :
      Surroundings Obj → Option Text → Processors Obj → Connection → Handled Obj
  handle_read_header env none t c = close_processor env t c
  handle_read_header env (some bytes) t c =
      elim (decode (record c.in_packet.header { buffer = bytes })) [
        | err e ↦ (t, c, err e)
        | ok (header, body_len) ↦ reserved body_len (record c.in_packet { header = header }) t c
      ]

  -- `handle_read_body`, with the bytes of the body, or with none after an error.
  unfoldable pub handle_read_body :
      Surroundings Obj → Option Text → Processors Obj → Connection → Option (Handled Obj)
  handle_read_body env none t c = some (t, c, err system_error)
  handle_read_body env (some bytes) t c =
      process env t (record c { in_packet = record c.in_packet { raw = some bytes } })
