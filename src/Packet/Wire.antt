-- ===== src/Packet/Wire.antt =====
-- A packet that `out_packet::pack` writes is read back by `in_packet`.
use zbroker.Base.{
  ℕ, ◌+◌, ◌≤◌, ◌<◌, ◌^◌, ◌≡◌, refl, ap, ◌∙◌, false, ◌++◌, append_assoc, some, Text, length,
  length-append, take, take-append, drop-append, decimal, pad_left, length-pad_left,
  length-decimal-le, atoi-pad_left-decimal, ok, arith, lt→ltb, le→ltb, le→leb,
}
use zbroker.Packet.{
  c_string, unpack_rest, OutPacket, InPacket, PacketHeader, packet_id_length, header_length, pack,
  decode, new_in_packet, unpack_from, in_packet_from, body,
}

-- The bytes after the header, and the number in the header.
abbrev pub payload : OutPacket → Text
payload p = pad_left 32 (c_string p.packet_id) ++ p.body

abbrev pub total_size : OutPacket → ℕ
total_size p = length p.body + packet_id_length

abbrev pub header_text : OutPacket → Text
header_text p = pad_left 16 (decimal (total_size p))

-- A packet whose length fits an `int` and whose id, which is written as a C string, fits its field.
pub record Fits (p : OutPacket) : Type 0 where
  pub id_fits : length (c_string p.packet_id) ≤ packet_id_length
  pub size_fits : total_size p < 2 ^ 31

module _ (p : OutPacket) (fits : Fits p) where
  pub length-header_text : length (header_text p) ≡ 16
  length-header_text =
      length-pad_left 16 (decimal (total_size p))
        (length-decimal-le (total_size p) 15 (omega (arith, fits.size_fits)))

  pub length-id : length (pad_left 32 (c_string p.packet_id)) ≡ 32
  length-id = length-pad_left 32 (c_string p.packet_id) fits.id_fits

  pub length-payload : length (payload p) ≡ total_size p
  length-payload =
      omega (arith, length-append (pad_left 32 (c_string p.packet_id)) p.body, length-id)

  -- `pack` writes header, id and body, and no buffer overruns.
  pub pack_lem :
      pack p
      ≡ ok (
        record {
          packet_id = pad_left 32 (c_string p.packet_id);
          body = p.body;
          contents = header_text p ++ payload p;
        },
        header_text p ++ payload p,
      )
  unfolding pack
  pack_lem = rw (
    lt→ltb (length (header_text p)) 256 (omega (arith, length-header_text)),
    lt→ltb (length (pad_left 32 (c_string p.packet_id))) 256 (omega (arith, length-id)),
  )

  abbrev header_of : PacketHeader
  header_of = record { buffer = header_text p; body_length = total_size p }

  -- The packet that a reader gets.
  abbrev pub received : InPacket
  received = record {
    header = record { buffer = header_text p; body_length = total_size p };
    packet_id = pad_left 32 (c_string p.packet_id);
    raw = some (payload p);
  }

  pub decode_header :
      (n : ℕ)
      → decode (record { buffer = header_text p; body_length = n })
        ≡ ok (record { buffer = header_text p; body_length = total_size p }, total_size p)
  unfolding decode
  decode_header n = rw (
    atoi-pad_left-decimal 16 (total_size p) (lt→ltb (total_size p) (2 ^ 31) fits.size_fits),
    decode,
  )

  unpack_rest_lem :
      (after : Text) (h : PacketHeader) (n : ℕ)
      → packet_id_length ≤ length after
      → n ≤ length after
      → unpack_rest after false new_in_packet h n
        ≡ ok (record {
          header = h;
          packet_id = take packet_id_length after;
          raw = some (take n after);
        })
  unfolding unpack_rest
  unpack_rest_lem after h n e f =
      rw (le→ltb (length after) packet_id_length e, le→ltb (length after) n f)

  take_id : (rest : Text) → take 32 (payload p ++ rest) ≡ pad_left 32 (c_string p.packet_id)
  take_id rest =
      ap (take 32) (append_assoc (pad_left 32 (c_string p.packet_id)) p.body rest)
      ∙ take-append 32 (pad_left 32 (c_string p.packet_id)) (p.body ++ rest) length-id

  unpack_payload :
      (rest : Text) → in_packet_from (header_text p ++ (payload p ++ rest)) ≡ ok received
  unfolding in_packet_from unpack_from new_in_packet
  unpack_payload rest =
      rw
        (
          take-append 16 (header_text p) (payload p ++ rest) length-header_text,
          decode_header 0,
          unpack_from,
        )
        (ap (λ after. unpack_rest after false new_in_packet header_of (total_size p))
            (drop-append 16 (header_text p) (payload p ++ rest) length-header_text)
          ∙ unpack_rest_lem (payload p ++ rest) _ (total_size p)
              (omega (arith, length-append (payload p) rest, length-payload))
              (omega (arith, length-append (payload p) rest, length-payload))
          ∙ ap
              (λ id. ok (record {
                header = record { buffer = header_text p; body_length = total_size p };
                packet_id = id;
                raw = some (take (total_size p) (payload p ++ rest));
              }))
              (take_id rest)
          ∙ ap
              (λ xs. ok (record {
                header = record { buffer = header_text p; body_length = total_size p };
                packet_id = pad_left 32 (c_string p.packet_id);
                raw = some xs;
              }))
              (take-append (total_size p) (payload p) rest length-payload))

  body_received : body received ≡ ok p.body
  unfolding body
  body_received =
      rw (le→leb packet_id_length (length (payload p)) (omega (arith, length-payload)))
        (ap ok (drop-append 32 (pad_left 32 (c_string p.packet_id)) p.body length-id))

-- What `pack` writes of a packet whose id and length fit is read back, whatever bytes follow it:
-- the length in the header, the id up to its first 0 in its field of 32 bytes, and the body.
pub in_packet_from-pack :
    (p : OutPacket) (rest : Text)
    → Fits p
    → (q : OutPacket) × (wire : Text) × (r : InPacket) × (pack p ≡ ok (q, wire))
      × (length wire ≡ header_length + total_size p)
      × (in_packet_from (wire ++ rest) ≡ ok r)
      × (r.header.body_length ≡ total_size p)
      × (r.packet_id ≡ pad_left 32 (c_string p.packet_id))
      × (body r ≡ ok p.body)
in_packet_from-pack p rest fits = (
  _,
  header_text p ++ payload p,
  received p fits,
  pack_lem p fits,
  omega (
    arith,
    length-append (header_text p) (payload p),
    length-header_text p fits,
    length-payload p fits,
  ),
  ap in_packet_from (append_assoc (header_text p) (payload p) rest) ∙ unpack_payload p fits rest,
  refl,
  refl,
  body_received p fits,
)
