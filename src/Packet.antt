-- ===== src/Packet.antt =====
-- src/request_packet.hpp and src/request_packet.cc: the packets that go over a connection, 16 bytes
-- of header with the length of what follows, 32 bytes of packet id, and the body.
pub mod Wire
use zbroker.Base.{
  ℕ, ◌+◌, ◌≤◌, ◌∷◌, ◌==◌, arith, Bool, false, [], ◌++◌, Option, none, some, Text, length, take,
  drop, ltb, leb, if◌then◌else◌, replicate, to_size_t, atoi, decimal, pad_left, Result, ok, err,
  undefined_behaviour, bad_alloc, ulong_max, ◌-◌, ◌^◌,
}

abbrev pub packet_id_length : ℕ
packet_id_length = 32

abbrev pub header_length : ℕ
header_length = 16

abbrev pub max_body_length : ℕ
max_body_length = 10485760

-- `packet_header`: the bytes of `m_header` before its closing 0, and `m_body_length`.
pub record PacketHeader : Type 0 where
  pub buffer : Text
  pub body_length : ℕ

unfoldable pub new_header : PacketHeader
new_header = record { buffer = []; body_length = 0 }

-- `decode`: the number in the header, converted to `size_t`.
unfoldable pub decode : PacketHeader → Result (PacketHeader × ℕ)
decode h = elim (atoi h.buffer) [
  | err e ↦ err e
  | ok n ↦ ok (record h { body_length = to_size_t n }, to_size_t n)
]

-- `in_packet`: the header, the packet id, and the bytes of `m_raw` with no 0 behind them.
pub record InPacket : Type 0 where
  pub header : PacketHeader
  pub packet_id : Text
  pub raw : Option Text

unfoldable pub new_in_packet : InPacket
unfolding new_header
new_in_packet = record { header = new_header; packet_id = []; raw = none }

-- `in_packet::length`
unfoldable pub in_length : InPacket → ℕ
in_length p = p.header.body_length + header_length

-- `reserve`: a new buffer of so many bytes. They are not initialised; the caller writes all of
-- them, and 0 stands for them until then. No array has 2 ^ 63 bytes or more; `size + 1` is 0 for
-- the largest `size`, and the closing 0 then goes before the array.
unfoldable pub reserve : ℕ → InPacket → Result InPacket
reserve size p =
    if ltb size (2 ^ 63 - 1)
    then ok (record p { raw = some (replicate size 0) })
    else if size == ulong_max
    then err undefined_behaviour
    else err bad_alloc

-- `body`: what follows the packet id; without a buffer that holds an id there is nothing to read.
unfoldable pub body : InPacket → Result Text
body p = elim p.raw [
  | none ↦ err undefined_behaviour
  | some raw ↦
      if leb packet_id_length (length raw)
      then ok (drop packet_id_length raw)
      else err undefined_behaviour
]

-- `unpack()`: the packet id is the front of the buffer.
unfoldable pub unpack : InPacket → Result InPacket
unpack p = elim p.raw [
  | none ↦ err undefined_behaviour
  | some raw ↦
      if leb packet_id_length (length raw)
      then ok (record p { packet_id = take packet_id_length raw })
      else err undefined_behaviour
]

-- The end of `unpack(raw, unpack_only)`, on the bytes behind the header and the decoded length: the
-- packet id and, unless only that is wanted, so many bytes, which must be there.
unfoldable pub unpack_rest : Text → Bool → InPacket → PacketHeader → ℕ → Result InPacket
unpack_rest after unpack_only p header body_len =
    if ltb (length after) packet_id_length
    then err undefined_behaviour
    else if unpack_only
    then ok (record p { header = header; packet_id = take packet_id_length after })
    else if ltb (length after) body_len
    then err undefined_behaviour
    else ok (record {
      header = header;
      packet_id = take packet_id_length after;
      raw = some (take body_len after);
    })

-- `unpack(raw, unpack_only)`
unfoldable pub unpack_from : Text → Bool → InPacket → Result InPacket
unpack_from raw unpack_only p =
    elim (decode (record p.header { buffer = take header_length raw })) [
      | err e ↦ err e
      | ok (header, body_len) ↦ unpack_rest (drop header_length raw) unpack_only p header body_len
    ]

-- `in_packet(raw, size)`
unfoldable pub in_packet_from : Text → Result InPacket
unfolding new_in_packet
in_packet_from raw = unpack_from raw false new_in_packet

-- `out_packet`; its flag `m_packed` is never read.
pub record OutPacket : Type 0 where
  pub packet_id : Text
  pub body : Text
  pub contents : Text

unfoldable pub new_out_packet : OutPacket
new_out_packet = record { packet_id = []; body = []; contents = [] }

unfoldable pub set_packet_id : Text → OutPacket → OutPacket
set_packet_id id p = record p { packet_id = id }

unfoldable pub set_body : Text → OutPacket → OutPacket
set_body body p = record p { body = body }

-- `out_packet::length`
unfoldable pub out_length : OutPacket → ℕ
out_length p = length p.contents

-- A text as a C string: it ends before the first 0.
unfoldable pub c_string : Text → Text
c_string [] = []
c_string (x ∷ text) = if x == 0 then [] else x ∷ c_string text

pub length-c_string-le : (s : Text) → length (c_string s) ≤ length s
unfolding c_string
length-c_string-le [] = omega arith
length-c_string-le (x ∷ s) = ground (arith, length-c_string-le s)

-- `pack`: each number and text goes through a buffer of 256 bytes.
unfoldable pub pack : OutPacket → Result (OutPacket × Text)
pack p =
    let total_size = length p.body + packet_id_length in
    let size_text = pad_left 16 (decimal total_size) in
    let packet_id = pad_left 32 (c_string p.packet_id) in
    let contents = size_text ++ (packet_id ++ p.body) in
    if ltb (length size_text) 256
    then (if ltb (length packet_id) 256
        then ok (record { packet_id = packet_id; body = p.body; contents = contents }, contents)
        else err undefined_behaviour)
    else err undefined_behaviour
