-- ===== src/Reply/Sent.antt =====
-- A reply as `get_response_string` of src/asio_processor.cc packs it, and as a client reads it.
use zbroker.Base.{
  pad_left, ◌+◌, ◌≤◌, ◌<◌, ◌≡◌, inl, inr, [], append-nil, Text, length, codes, ltb, ok, arith, pos,
  Bool-cases, subst,
}
use zbroker.Bson.{Bson}
use zbroker.Protocol.{response_too_long, response_code}
use zbroker.Packet.{
  c_string, length-c_string-le, OutPacket, InPacket, set_body, in_packet_from, body,
  max_body_length, packet_id_length,
}
use zbroker.Packet.Wire.{in_packet_from-pack}
use zbroker.Reply.{response_json, get_response_string}

module _ (bson : Bson) where
  open bson use {Obj, empty_object, append_int, json_string}

  -- The reply that gives way for a longer one, with only its code.
  abbrev pub short_reply : Text
  short_reply =
      json_string
        (append_int empty_object (codes "response") (pos (response_code response_too_long)))

  response_json_short :
      (builder : Obj)
      → length short_reply < max_body_length
      → length (response_json bson builder) < max_body_length
  unfolding response_json
  response_json_short builder h =
      elim (Bool-cases (ltb (length (json_string builder)) max_body_length)) [
        | inl e ↦ rw (e, response_json) (ground arith)
        | inr e ↦ rw (e, response_json) h
      ]

  -- Where the printed reply for what is too long is itself below 10 MB, and the packet id fits its
  -- field: every reply is packed, in at most 48 bytes more than 10 MB, and a client reads its JSON
  -- back, either the reply's own or the one for what is too long, under the packet id.
  pub get_response_string-read :
      (packet : OutPacket) (builder : Obj)
      → length short_reply < max_body_length
      → length packet.packet_id ≤ packet_id_length
      → (q : OutPacket) × (wire : Text) × (r : InPacket) × (get_response_string bson packet builder
          ≡ ok (q, wire))
        × (length wire ≤ max_body_length + 48)
        × (in_packet_from wire ≡ ok r)
        × (body r ≡ ok (response_json bson builder))
        × (r.packet_id ≡ pad_left 32 (c_string packet.packet_id))
  unfolding get_response_string set_body
  get_response_string-read packet builder h i =
      let s = response_json_short builder h in
      let (q, wire, r, packed, long, read, _, named, same) =
        in_packet_from-pack (set_body (response_json bson builder) packet) [] (record {
          id_fits = omega (arith, length-c_string-le packet.packet_id);
          size_fits = omega arith;
        }) in
      (
        q,
        wire,
        r,
        packed,
        omega arith,
        subst (λ x. in_packet_from x ≡ ok r) (append-nil wire) read,
        same,
        named,
      )
