-- ===== src/Connection/First.antt =====
-- What the handlers of a connection keep, and what becomes of its first request.
use zbroker.Base.{
  ℕ, ◌+◌, ◌≡◌, refl, Bool, false, [], Option, none, some, Text, Result, ok, err, assertion_failed,
  subst,
}
use zbroker.Bson.{Bson}
use zbroker.Protocol.{Command, Response}
use zbroker.Packet.{body}
use zbroker.Reply
use zbroker.Processor.{Surroundings}
use zbroker.Processor.Serving
use zbroker.Connection.{
  Processors, Connection, new_connection, handle_write, is_open_cmd, find, processor_hash,
  process_parsed, process, handle_read_header, handle_read_body,
}
use zbroker.Packet.{c_string}
use zbroker.Connection.Keeps.{
  Closed, Afters, handle_read_header_keeps, handle_read_body_keeps, handle_write_keeps,
}
use zbroker.Connection.Table.{IsTable, put-IsTable, find-IsTable, lookup-nil}

module _ (bson : Bson) where
  open bson use {Obj}

  -- The table is one, and no packet id was ever read.
  abbrev pub Unread : Processors Obj → Connection → Type 0
  Unread t c = IsTable t × (c.in_packet.packet_id ≡ [])

  pub Unread-Closed : Closed bson Unread
  Unread-Closed = record {
    puts = λ t c id p (v, e). (put-IsTable t id p v, e);
    finds = λ t c id (v, e). (find-IsTable bson id t v, e);
    attaches = λ t c id p h v. v;
    detaches = λ t c v. v;
    replies = λ t c reply opened v. v;
    reads = λ t c header raw v. v;
    shuts = λ t c v. v;
  }

  -- What a connection and the table can come to, from a new connection: the ends of its own reads
  -- and writes, and whatever other connections make of the table.
  pub data Reach : Processors Obj → Connection → Type 0 where
    start : (n : ℕ) (t : Processors Obj) → IsTable t → Reach t (new_connection n)
    others :
        {t : Processors Obj} {c : Connection} (t' : Processors Obj)
        → IsTable t'
        → Reach t c
        → Reach t' c
    reads_header :
        {t : Processors Obj} {c : Connection} (env : Surroundings Obj) (bytes : Option Text)
        → Reach t c
        → Reach (handle_read_header bson env bytes t c).0 (handle_read_header bson env bytes t c).1
    reads_body :
        {t t' : Processors Obj} {c c' : Connection} {r : Result (Unit {0})} (env : Surroundings Obj)
        (bytes : Option Text)
        → handle_read_body bson env bytes t c ≡ some (t', c', r)
        → Reach t c
        → Reach t' c'
    writes :
        {t : Processors Obj} {c : Connection} (error : Bool)
        → Reach t c
        → Reach t (handle_write error c)

  -- Whatever a connection and the table of processors can come to by the connection's own
  -- handlers, while other connections keep the table one: the ids of the table are different and
  -- not empty, it has counted all of them, and the connection has no packet id.
  Reach-IsTable :
      {t : Processors Obj} {c : Connection} → Reach t c → IsTable t × (c.in_packet.packet_id ≡ [])
  unfolding new_connection handle_write
  Reach-IsTable (start n t v) = (v, refl)
  Reach-IsTable (others t' v r) = (v, (Reach-IsTable r).1)
  Reach-IsTable (reads_header {t} {c} env bytes r) =
      handle_read_header_keeps bson Unread Unread-Closed env bytes t c (Reach-IsTable r)
  Reach-IsTable (reads_body {t} {c = c} env bytes h r) =
      subst (Afters bson Unread Unread-Closed) h
        (handle_read_body_keeps bson Unread Unread-Closed env bytes t c (Reach-IsTable r))
  Reach-IsTable (writes {t} {c} error r) =
      handle_write_keeps bson Unread Unread-Closed error t c (Reach-IsTable r)

  find-nil :
      (t : Processors Obj)
      → IsTable t
      → find bson [] t
        ≡ (record t { processor_count = t.processor_count + 1 }, err assertion_failed)
  unfolding find Serving.create
  find-nil t v = simp (lookup-nil t.items v.are_keys, find)

  -- On a connection that has no processor yet: a request in a packet that is complete and parses,
  -- with a command other than to open, fails an assertion. The table only counts one processor
  -- more.
  pub handle_read_body-first :
      (env : Surroundings Obj) (bytes text : Text) (res : Response) (cmd : Command) (obj : Obj)
      (t : Processors Obj) (c : Connection)
      → Reach t c
      → c.processor ≡ none
      → body (record c.in_packet { raw = some bytes }) ≡ ok text
      → Reply.parse_request bson (c_string text) ≡ ok (res, cmd, obj)
      → is_open_cmd cmd ≡ false
      → handle_read_body bson env (some bytes) t c
        ≡ some (
          record t { processor_count = t.processor_count + 1 },
          record c { in_packet = record c.in_packet { raw = some bytes } },
          err assertion_failed,
        )
  unfolding handle_read_body process process_parsed processor_hash body
  handle_read_body-first env bytes text res cmd obj t c r n f g h =
      let (v, e) = Reach-IsTable r in
      simp (f, g, n, h, e, find-nil t v, handle_read_body, process, process_parsed, processor_hash)
