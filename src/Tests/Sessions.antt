-- ===== src/Tests/Sessions.antt =====
-- Whole requests on the sample server: a client opens, reads and writes.
use zbroker.Base.{ℕ, ◌≡◌, refl, true, [], ◌∷◌, List, some, Text, text_eq, codes, ok, drop, arith}
use zbroker.Protocol.{open_cmd, write_cmd}
use zbroker.Packet.{c_string, OutPacket, pack}
use zbroker.Reply.{parse_request, in_command_range, command_of}
use zbroker.Broker
use zbroker.Broker.{Broker}
use zbroker.Processor
use zbroker.Broker.Loops.Pushing.{taken_by}
use zbroker.Processor.{Processor}
use zbroker.Processor.Serving
use zbroker.Connection.{lookup, Processors, Connection, find, put}
use zbroker.Session.{receive, IsRequest, IsServed, Replies}
use zbroker.Session.Write.{written, receive-written}
use zbroker.Session.Open.{opened, receive-IsServed}
use zbroker.Session.Again.{refused, receive-refused}
use zbroker.Tests.{sample_bson}
use zbroker.Tests.Brokers.{opened-check_status}
use zbroker.Tests.Processors.{busy, around}
use zbroker.Tests.Connections.{
  connected, nobody, open_connection, one_processor, one_processor-lookup,
}
use zbroker.Tests.Openings.{session_bson, made, joined, joined-open_processor}

-- A packet with one number for its body.
abbrev asking : ℕ → OutPacket
asking n = record { packet_id = codes "ab"; body = n ∷ []; contents = [] }

asks_to_write : IsRequest sample_bson (asking 103) write_cmd (103 ∷ [])
unfolding parse_request in_command_range command_of c_string
asks_to_write = record {
  fits = record { id_fits = omega arith; size_fits = omega arith };
  no_nul = (omega arith, tt);
  parses = refl;
}

served : IsServed sample_bson (codes "p") busy one_processor open_connection
served = record { attached = refl; found = one_processor-lookup }

receive-written_example :
    (q : OutPacket) × (wire : Text) × (b : Broker (List ℕ)) × (c' : Connection) × (pack (asking 103)
      ≡ ok (q, wire))
    × (receive sample_bson around wire one_processor open_connection
        ≡ some (
          record one_processor {
            items = put (codes "p") (record busy { write_broker = b }) one_processor.items;
          },
          c',
          ok tt,
        ))
    × (b.queue.items
        ≡ drop
            (taken_by around.pushes busy.write_broker.queue.limit_size around.fuel 0 2 1)
            (codes "a" ∷ codes "b" ∷ (103 ∷ []) ∷ []))
    × Replies sample_bson (codes "p") (written sample_bson) c'.send_buffer
receive-written_example =
    receive-written sample_bson around (asking 103) (103 ∷ []) (codes "p") busy one_processor
      open_connection asks_to_write served opened-check_status (omega arith) (omega arith)
      (λ k. omega arith) (omega arith) (omega arith) (omega arith)

asks_to_open : IsRequest session_bson (asking 100) open_cmd (100 ∷ [])
unfolding parse_request in_command_range command_of text_eq c_string
asks_to_open = record {
  fits = record { id_fits = omega arith; size_fits = omega arith };
  no_nul = (omega arith, tt);
  parses = refl;
}

abbrev one_made : Processors (List ℕ)
one_made = record { items = (100 ∷ [], made) ∷ []; processor_count = 1 }

one_made-find : find session_bson (100 ∷ []) nobody ≡ (one_made, ok made)
unfolding find Serving.create Broker.create Broker.reset Broker.blank lookup
one_made-find = refl

receive-IsServed_example :
    (q : OutPacket) × (wire : Text) × (c' : Connection) × (pack (asking 100) ≡ ok (q, wire))
    × (receive session_bson around wire nobody connected
        ≡ some (record one_made { items = put (100 ∷ []) joined one_made.items }, c', ok tt))
    × IsServed session_bson
        (100 ∷ [])
        joined
        (record one_made { items = put (100 ∷ []) joined one_made.items })
        c'
    × (c'.processor_opened ≡ true)
    × Replies session_bson (100 ∷ []) (opened session_bson) c'.send_buffer
unfolding Processor.purpose_of text_eq
receive-IsServed_example =
    receive-IsServed session_bson around (asking 100) (100 ∷ []) made joined nobody one_made
      connected asks_to_open refl refl one_made-find joined-open_processor (omega arith)
      (omega arith)

receive-refused_example :
    (q : OutPacket) × (wire : Text) × (c' : Connection) × (pack (asking 100) ≡ ok (q, wire))
    × (receive session_bson around wire one_processor open_connection
        ≡ some (one_processor, c', ok tt))
    × IsServed session_bson (codes "p") busy one_processor c'
    × (c'.processor_opened ≡ true)
    × Replies session_bson [] (refused session_bson) c'.send_buffer
receive-refused_example =
    receive-refused session_bson around (asking 100) (100 ∷ []) (codes "p") busy one_processor
      open_connection asks_to_open (record { attached = refl; found = one_processor-lookup }) refl
      (omega arith)
