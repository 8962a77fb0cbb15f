-- ===== src/Tests/Connections.antt =====
-- The connections on the sample objects.
use zbroker.Base.{
  codes, ℕ, ◌≡◌, refl, false, true, List, [], ◌∷◌, ◌++◌, none, some, Text, replicate, ok, err,
  assertion_failed, arith,
}
use zbroker.Protocol.{read_cmd, success}
use zbroker.Packet.{body}
use zbroker.Reply.{parse_request, in_command_range, command_of}
use zbroker.Processor
use zbroker.Processor.{Processor, Surroundings}
use zbroker.Connection.{Processors, Connection, new_connection, handle_read_body}
use zbroker.Packet.{c_string}
use zbroker.Connection.Table.{IsTable}
use zbroker.Tests.Processors.{busy}
use zbroker.Connection.Twice.{one_less, handle_read_body-twice}
use zbroker.Connection.{handle_read_header, lookup}
use zbroker.Base.{text_eq, Result}
use zbroker.Protocol.{close_cmd}
use zbroker.Connection.First.{Reach, handle_read_body-first}
use zbroker.Tests.{sample_bson, sample_server}

abbrev pub nobody : Processors (List ℕ)
nobody = record { items = []; processor_count = 0 }

nobody-IsTable : IsTable nobody
nobody-IsTable = record { are_keys = tt; counted = omega arith }

-- The members that a new connection has.
abbrev pub connected : Connection
connected = record {
  socket_open = true;
  in_packet = record {
    header = record { buffer = []; body_length = 0 };
    packet_id = [];
    raw = none;
  };
  processor = none;
  processor_opened = false;
  send_buffer = [];
  connection_id = 1;
}

connected-Reach : Reach sample_bson nobody connected
unfolding new_connection
connected-Reach = Reach.start 1 nobody nobody-IsTable

abbrev pub around : Surroundings (List ℕ)
around = record {
  server = sample_server;
  pops = λ k. record { arrived = []; during = []; notified = true };
  pushes = λ k. record { taken = 0; during = 0; notified = true };
  read_ends = [];
  write_ends = 0;
  fuel = 1;
  read_leaves = true;
  write_leaves = true;
}

-- A packet with the command to read.
abbrev pub read_packet : Text
read_packet = replicate 32 b' ' ++ 102 ∷ []

pub read_packet-body : body (record connected.in_packet { raw = some read_packet }) ≡ ok (102 ∷ [])
unfolding body
read_packet-body = refl

pub read_packet-parse_request :
    parse_request sample_bson (c_string (102 ∷ [])) ≡ ok (success, read_cmd, 102 ∷ [])
unfolding parse_request c_string in_command_range command_of
read_packet-parse_request = refl

handle_read_body-first_example :
    handle_read_body sample_bson around (some read_packet) nobody connected
    ≡ some (
      record nobody { processor_count = 1 },
      record connected { in_packet = record connected.in_packet { raw = some read_packet } },
      err assertion_failed,
    )
handle_read_body-first_example =
    handle_read_body-first sample_bson around read_packet (102 ∷ []) success read_cmd (102 ∷ [])
      nobody connected connected-Reach refl read_packet-body read_packet-parse_request refl

-- A connection that has opened the processor of the table.
abbrev pub one_processor : Processors (List ℕ)
one_processor = record { items = (codes "p", busy) ∷ []; processor_count = 1 }

abbrev pub open_connection : Connection
open_connection = record connected { processor = some (codes "p"); processor_opened = true }

pub one_processor-lookup : lookup (codes "p") one_processor.items ≡ some busy
unfolding lookup text_eq
one_processor-lookup = refl

-- A connection of two clients' processor, and its request to close.
abbrev shared : Processor (List ℕ)
shared = record busy { refcount = 2 }

abbrev two_clients : Processors (List ℕ)
two_clients = record { items = (codes "p", shared) ∷ []; processor_count = 1 }

abbrev close_packet : Text
close_packet = replicate 32 b' ' ++ 101 ∷ []

two_clients-lookup : lookup (codes "p") two_clients.items ≡ some shared
unfolding lookup text_eq
two_clients-lookup = refl

close_packet-body :
    body (record open_connection.in_packet { raw = some close_packet }) ≡ ok (101 ∷ [])
unfolding body
close_packet-body = refl

close_packet-parse_request :
    parse_request sample_bson (c_string (101 ∷ [])) ≡ ok (success, close_cmd, 101 ∷ [])
unfolding parse_request c_string in_command_range command_of
close_packet-parse_request = refl

handle_read_body-twice_example :
    (t' : Processors (List ℕ)) × (c' : Connection) × (r : Result (Unit {0})) × (handle_read_body
        sample_bson around
        (some close_packet)
        two_clients
        open_connection
      ≡ some (t', c', r))
    × (lookup (codes "p") t'.items ≡ some (one_less shared))
    × (lookup (codes "p") (handle_read_header sample_bson around none t' c').0.items
        ≡ some (Processor.close around (one_less shared)).0)
    × ((Processor.close around (one_less shared)).0.refcount ≡ 0)
handle_read_body-twice_example =
    handle_read_body-twice sample_bson around around close_packet (101 ∷ []) (101 ∷ []) two_clients
      open_connection (codes "p") shared 0 refl two_clients-lookup close_packet-body
      close_packet-parse_request refl
