-- ===== src/Session/Open.antt =====
-- An OPEN request from the client's packet to the processor of its group and the client's reply.
use zbroker.Base.{
  ◌≤◌, ◌<◌, ◌≡◌, refl, ap, sym, ◌∙◌, ◌∷◌, true, false, some, none, Option-cases, Result-cases, Text,
  text_eq_iff, length, codes, ok, inl, inr, drop,
}
use zbroker.Bson.{Bson}
use zbroker.Protocol.{open_cmd, success}
use zbroker.Packet.{
  OutPacket, header_length, pack, packet_id_length, max_body_length, new_out_packet, set_packet_id,
}
use zbroker.Reply.{init_response_builder, get_response_string, pack_response}
use zbroker.Reply.Sent.{short_reply, get_response_string-read}
use zbroker.Broker
use zbroker.Processor.{Processor, Surroundings, purpose_of}
use zbroker.Processor.Serving
use zbroker.Processor.Serving.{open_processor}
use zbroker.Connection.{
  Processors, Connection, lookup, put, find, serve, processor_hash, process_with, process_parsed,
}
use zbroker.Connection.Incoming.{holding}
use zbroker.Connection.Twice.{lookup-put}
use zbroker.Session.{receive, IsRequest, IsServed, Replies, receive-pack}

module _ (bson : Bson) where
  open bson use {Obj, empty_object, int_field, md5}

  -- The object of the reply.
  abbrev pub opened : Obj
  opened = init_response_builder bson empty_object success none (codes "Open Action")

  find-lookup :
      (id : Text) (t t' : Processors Obj) (s : Processor Obj)
      → find bson id t ≡ (t', ok s)
      → lookup id t'.items ≡ some s
  unfolding find lookup
  find-lookup id t t' s e = elim (Option-cases (lookup id t.items)) [
    | inr (p, f) ↦ cc (f, simp (f, find) at e)
    | inl f ↦ elim (Result-cases (Serving.create bson id)) [
      | inr (x, g) ↦ absurd (cc (simp (f, g, find) at e))
      | inl (p, g) ↦
          let h = simp (f, g, find) at e in
          let there : lookup id ((id, p) ∷ t.items) ≡ some p =
            rw ((text_eq_iff id id).1 refl) refl in
          ap (λ r. lookup id r.0.items) (sym h) ∙ there ∙ cc (ap (λ r. r.1) h)
    ]
  ]

  serve_open :
      (env : Surroundings Obj) (obj : Obj) (id : Text) (s s' : Processor Obj) (t : Processors Obj)
      (c : Connection) (q : OutPacket) (reply : Text)
      → open_processor bson env (purpose_of (int_field obj (codes "purpose"))) obj s ≡ (s', ok tt)
      → get_response_string bson (set_packet_id s.processor_id new_out_packet) opened
        ≡ ok (q, reply)
      → serve bson env success open_cmd obj id s t c
        ≡ some (
          record t { items = put id s' t.items },
          record c { send_buffer = reply; processor_opened = true },
          ok tt,
        )
  unfolding serve Serving.process Serving.dispatch pack_response
  serve_open env obj id s s' t c q reply e f =
      simp (e, f, serve, Serving.process, Serving.dispatch, pack_response)

  -- An OPEN on a connection that has no processor goes to the one that `find` gives.
  process_parsed-open :
      (env : Surroundings Obj) (obj : Obj) (s : Processor Obj) (t t' : Processors Obj)
      (c : Connection)
      → c.processor ≡ none
      → c.processor_opened ≡ false
      → find bson (md5 obj) t ≡ (t', ok s)
      → process_parsed bson env success open_cmd obj t c
        ≡ serve bson env success open_cmd obj
            (md5 obj)
            s
            t'
            (record c { processor = some (md5 obj) })
  unfolding process_parsed process_with processor_hash Broker.hash
  process_parsed-open env obj s t t' c n o e =
      simp (n, o, e, process_parsed, process_with, processor_hash, Broker.hash)

  -- A packet with an OPEN, on a connection that has no processor, where `find` gives the processor
  -- of the options' hash, new or of the table, and its `open` succeeds, with the reply for what is
  -- too long below 10 MB and an id that fits its field: the bytes that `pack` writes are taken, and
  -- the request does not throw. The connection is then served by that processor as `open` leaves it
  -- and counts as opened, no other processor has changed, and the client reads the reply under the
  -- processor's id.
  pub receive-IsServed :
      (env : Surroundings Obj) (p : OutPacket) (obj : Obj) (s s' : Processor Obj)
      (t t' : Processors Obj) (c : Connection)
      → IsRequest bson p open_cmd obj
      → c.processor ≡ none
      → c.processor_opened ≡ false
      → find bson (md5 obj) t ≡ (t', ok s)
      → open_processor bson env (purpose_of (int_field obj (codes "purpose"))) obj s ≡ (s', ok tt)
      → length (short_reply bson) < max_body_length
      → length s.processor_id ≤ packet_id_length
      → (q : OutPacket) × (wire : Text) × (c' : Connection) × (pack p ≡ ok (q, wire))
        × (receive bson env wire t c
            ≡ some (record t' { items = put (md5 obj) s' t'.items }, c', ok tt))
        × IsServed bson (md5 obj) s' (record t' { items = put (md5 obj) s' t'.items }) c'
        × (c'.processor_opened ≡ true)
        × Replies bson s.processor_id opened c'.send_buffer
  unfolding set_packet_id
  receive-IsServed env p obj s s' t t' c v n o found ran short fits =
      let (q, wire, packed, received) = receive-pack bson env p t c open_cmd obj v in
      let c' = record c { in_packet = holding p (drop header_length wire) c.in_packet } in
      let (q', reply, r, sent, long, read, same, named) =
        get_response_string-read bson (set_packet_id s.processor_id new_out_packet) opened short
          fits in
      (
        q,
        wire,
        record c' { processor = some (md5 obj); send_buffer = reply; processor_opened = true },
        packed,
        received
            ∙ process_parsed-open env obj s t t' c' n o found
            ∙ serve_open env obj (md5 obj) s s' t' _ q' reply ran sent,
        record {
          attached = refl;
          found = lookup-put (md5 obj) s s' t'.items (find-lookup (md5 obj) t t' s found);
        },
        refl,
        (r, read, same, named),
      )
