-- ===== src/Server.antt =====
-- `asio_handler` of src/asio_handler.hpp and src/asio_handler.cc, and `main` of
-- src/zbroker_asio.cc: the connections of a port, the ends of reads, writes and accepts in the
-- order in which they come, and the end of the process.
pub mod Serving
pub mod Links
pub mod Faults
pub mod Ports
use zbroker.Base.{
  ◌==◌, not, ◌&&◌, if◌then◌else◌, get_elem?, set, system_error, ◌^◌, ℕ, ◌+◌, ◌%◌, Bool, true, false,
  List, [], ◌∷◌, ◌++◌, Option, none, some, Text, atoi, size_mod, to_size_t, Result, ok, err,
}
use zbroker.Bson.{Bson}
use zbroker.Processor.{Surroundings}
use zbroker.Connection.{
  new_processors, Processors, Connection, Handled, new_connection, handle_write, handle_read_header,
  handle_read_body,
}

-- What a connection reads next; after an error at a header it reads no more.
pub data Reading : Type 0 where
  header body nothing : Reading

-- A connection that was accepted, with the read that it has begun.
pub record Link : Type 0 where
  pub connection : Connection
  pub reading : Reading

-- `connection::start`, which begins to read a header.
abbrev pub start : Connection → Link
start connection = record { connection = connection; reading = header }

-- The members of `asio_handler`, with the connections that were accepted and the one that waits to
-- be.
pub record AsioHandler (Obj : Type 0) : Type 0 where
  pub processors : Processors Obj
  pub links : List Link
  pub accepting : Option Connection
  pub connection_count : ℕ

-- The end of an asynchronous operation: whether it is an error, and the bytes of a read that is
-- none. A connection is named by its place.
pub data Event : Type 0 where
  accepted : Bool → Event
  header_read body_read : ℕ → Option Text → Event
  written : ℕ → Bool → Event

-- What is read after a header.
abbrev pub after_header : Option Text → Reading
after_header none = nothing
after_header (some bytes) = body

module _ {Obj : Type 0} where
  unfoldable pub make_connection : AsioHandler Obj → AsioHandler Obj × Connection
  make_connection h =
      let n = (h.connection_count + 1) % size_mod in
      (record h { connection_count = n }, new_connection n)

  -- The constructor. `m_connection_count` is not initialised: `garbage` is what it holds.
  unfoldable pub create : ℕ → AsioHandler Obj
  unfolding make_connection
  create garbage =
      let h : AsioHandler Obj = record {
        processors = new_processors;
        links = [];
        accepting = none;
        connection_count = garbage;
      } in
      let (h', connection) = make_connection h in record h' { accepting = some connection }

  -- `handle_accept` of the connection that waited. It begins to read, and a new one waits; an error
  -- ends the accepting.
  unfoldable pub handle_accept : Bool → AsioHandler Obj → AsioHandler Obj
  unfolding make_connection
  handle_accept error h = elim h.accepting [
    | none ↦ h
    | some pro ↦ elim error [
      | true ↦ record h { accepting = none }
      | false ↦
          let started = record h { links = h.links ++ start pro ∷ [] } in
          let (h', connection) = make_connection started in
          record h' { accepting = some connection }
    ]
  ]

  -- The handler and a link after a step of the connection.
  unfoldable pub store :
      ℕ → Reading → Handled Obj → AsioHandler Obj → AsioHandler Obj × Result (Unit {0})
  store i reading (t, c, r) h = (
    record h {
      processors = t;
      links = set h.links i (record { connection = c; reading = reading });
    },
    r,
  )

module _ (bson : Bson) where
  open bson use {Obj}

  -- The handler of an event; one that cannot come, of a connection that is not there or does not
  -- wait for it, leaves all as it is. `none` is for fuel that runs out below.
  unfoldable pub handle :
      Surroundings Obj → Event → AsioHandler Obj → Option (AsioHandler Obj × Result (Unit {0}))
  handle env (accepted error) h = some (handle_accept error h, ok tt)
  handle env (header_read i bytes) h = elim (get_elem? h.links i) [
    | none ↦ some (h, ok tt)
    | some link ↦ elim link.reading [
      | header ↦ some (
          store i (after_header bytes)
            (handle_read_header bson env bytes h.processors link.connection) h)
      | _ ↦ some (h, ok tt)
    ]
  ]
  handle env (body_read i bytes) h = elim (get_elem? h.links i) [
    | none ↦ some (h, ok tt)
    | some link ↦ elim link.reading [
      | body ↦ elim (handle_read_body bson env bytes h.processors link.connection) [
        | none ↦ none
        | some handled ↦ some (store i header handled h)
      ]
      | _ ↦ some (h, ok tt)
    ]
  ]
  handle env (written i error) h = elim (get_elem? h.links i) [
    | none ↦ some (h, ok tt)
    | some link ↦ some (
      record h {
        links = set h.links i (record link { connection = handle_write error link.connection });
      },
      ok tt,
    )
  ]

  -- `io_service::run` of a handler, over what its environment brings: what a handler throws leaves
  -- it, and `main` ends the process.
  unfoldable pub run :
      List (Surroundings Obj × Event)
      → AsioHandler Obj
      → Option (AsioHandler Obj × Result (Unit {0}))
  run [] h = some (h, ok tt)
  run ((env, event) ∷ events) h = elim (handle env event h) [
    | none ↦ none
    | some (h', err e) ↦ some (h', err e)
    | some (h', ok _) ↦ run events h'
  ]

-- `atoi` of an argument, converted to the `unsigned short` of a port.
unfoldable pub port_of : Text → Result ℕ
port_of arg = elim (atoi arg) [ err e ↦ err e | ok n ↦ ok (to_size_t n % 2 ^ 16) ]

-- Whether a port is in use by one of these acceptors; for 0 the system picks one that is free.
unfoldable pub in_use : ℕ → List ℕ → Bool
in_use port [] = false
in_use port (p ∷ ports) =
    let rest = in_use port ports in if port == 0 then false else if port == p then true else rest

-- The loop of `main` over its arguments: the ports that are served so far, and more. A port that
-- cannot be bound, or that one of these acceptors has, throws.
unfoldable pub serve_ports : (ℕ → Bool) → List Text → List ℕ → Result (List ℕ)
serve_ports bind [] ports = ok ports
serve_ports bind (arg ∷ args) ports = elim (port_of arg) [
  | err e ↦ err e
  | ok port ↦ elim (bind port && not (in_use port ports)) [
    | true ↦ serve_ports bind args (ports ++ port ∷ [])
    | false ↦ err system_error
  ]
]

-- How `main` goes on: it serves its ports, or returns a status.
pub data Started : Type 0 where
  serving : List ℕ → Started
  exits : ℕ → Started

-- `main`, on its arguments without the program's name, up to `io_service::run`. What is thrown is
-- printed, and the status is 0 all the same.
unfoldable pub main : (ℕ → Bool) → List Text → Result Started
main bind [] = ok (exits 1)
main bind (arg ∷ args) = elim (serve_ports bind (arg ∷ args) []) [
  | ok ports ↦ ok (serving ports)
  | err system_error ↦ ok (exits 0)
  | err e ↦ err e
]
