-- ===== src/Tests/Packets.antt =====
-- Packets, listings and requests, on small texts.
use zbroker.Base.{◌+◌, ◌≡◌, Text, codes, [], ◌++◌, length, pad_left, ok, arith}
use zbroker.Packet.{c_string, OutPacket, InPacket, header_length, pack, in_packet_from, body}
use zbroker.Packet.Wire.{total_size, in_packet_from-pack}

abbrev small_packet : OutPacket
small_packet = record { packet_id = codes "ab"; body = codes "{}"; contents = [] }

in_packet_from-pack_example :
    (q : OutPacket) × (wire : Text) × (r : InPacket) × (pack small_packet ≡ ok (q, wire))
    × (length wire ≡ header_length + total_size small_packet)
    × (in_packet_from (wire ++ codes "more") ≡ ok r)
    × (r.header.body_length ≡ total_size small_packet)
    × (r.packet_id ≡ pad_left 32 (codes "ab"))
    × (body r ≡ ok (codes "{}"))
unfolding c_string
in_packet_from-pack_example =
    in_packet_from-pack small_packet (codes "more")
      (record { id_fits = omega arith; size_fits = omega arith })
