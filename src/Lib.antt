-- ===== src/Lib.antt =====
-- zbroker: a server between clients and the collections of a mongo database. A client opens a
-- broker on a collection, and reads documents from it or writes updates to it, in batches.
--
-- How the parts go together: `main` (src/zbroker_asio.cc) makes an `asio_handler` for each port
-- (src/asio_handler.cc), which accepts connections; a connection reads packets
-- (src/request_packet.hpp) and hands each request to the processor of its client group
-- (src/asio_processor.cc). A processor has a broker for reading and one for writing
-- (src/broker.cc), each with a thread: the reading one queries the database page by page and
-- fills the broker's bounded queue (src/sized_queue.cc), which requests empty by `batch_pop`; the
-- writing one empties its queue and sends updates, and requests fill it.
--
--   * SizedQueue.antt: `sized_queue` with its operations; Pop.antt and Push.antt say how each
--     call ends; Monitor.antt has the two threads with their condition variables as a step
--     relation, Monitor/Segments.antt and Monitor/Safety.antt its invariant, and
--     Monitor/Faults.antt the runs that break it. Reference.antt has the closed form of the
--     vector's `push`.
--   * Broker.antt: the members of `broker` and the small methods; Broker/Init.antt `init` and
--     `open`, with what they leave in Broker/Init/SetUp.antt and a second `open` in
--     Broker/Init/Again.antt; Broker/Query.antt `query`, with the pages that queries bring in
--     Broker/Query/Pages.antt and Broker/Query/Several.antt, and what a `rewind` meanwhile does
--     in Broker/Query/Rewound.antt; Broker/Batch.antt `batch_pop`; Broker/Loops.antt `read` and
--     `update`, with what they hand on in Broker/Loops/Pushing.antt, Broker/Loops/Sent.antt and
--     Broker/Loops/Sending.antt; Broker/Loops/Reading.antt is about all the rounds of `read`, and
--     Broker/Loops/Flushed.antt about the end of `update`. Broker/Loops/Feed.antt has the thread
--     of `read` and its clients as steps that come in any order, with what the clients are given
--     in Feed/InOrder.antt, Feed/Rewinds.antt and Feed/Drained.antt, and Broker/Loops/Outbox.antt
--     the thread of `update` and its clients, with what is sent in Outbox/InOrder.antt.
--   * Packet.antt: `packet_header`, `in_packet` and `out_packet`.
--   * Reply.antt: the static functions of `asio_processor`: requests are parsed, replies are
--     packed; Reply/Sent.antt is about a reply from its JSON to the client.
--   * Processor.antt, Processor/Serving.antt: `asio_processor` itself: `open`, `close`, `term`,
--     `do_read`, `do_write`, `do_rewind`, `process`; Processor/Clients.antt is about the count of
--     clients, Processor/Requests.antt about the numbers of the commands, Processor/Ending.antt
--     about `term`, Processor/Reading.antt about `do_read`, Processor/Writing.antt about
--     `do_write`, and Processor/Threads.antt has the two threads.
--   * Connection.antt: `connection` and `processors` of src/asio_handler.hpp; a pointer to a
--     processor is its id in the table, and a read that has ended comes with its bytes.
--     Connection/Keeps.antt has the rule by which an invariant goes through the handlers, with
--     First.antt and Attached.antt as its uses; Incoming.antt is about a whole packet, and
--     Twice.antt about a CLOSE and the end of its connection.
--   * Server.antt: `asio_handler` of src/asio_handler.hpp, with the ends of asynchronous
--     operations as events, `io_service::run` over a list of them, and `main` of
--     src/zbroker_asio.cc. Server/Serving.antt and Server/Links.antt are about the connections
--     and the table, Server/Faults.antt about what ends the accepting,
--     Server/Ports.antt about the arguments.
--   * Session.antt: a whole request, from the packet that a client packs to the reply that it
--     reads: Session/Open.antt, Session/Again.antt for a second OPEN, Session/Read.antt and
--     Session/Write.antt, over the connection, its processor and its broker. Processor/Opening.antt
--     goes on from an OPEN to what the thread of `read` hands out, and what that of `update` sends;
--     Session/Group.antt has the READs of the clients that share a processor.
--   * FirstServer.antt: the processor of src/zbroker.cc, over messages of zmq;
--     FirstServer/Replies.antt is about its replies. RequestHandler.antt: the constructor and
--     `init` of src/request_handler.cc; RequestHandler/Config.antt has `set_config` and `inspect`
--     of src/broker_config.hpp.
--   * Color.antt: src/color.cc; Color/Strip.antt says what a terminal shows of its texts.
--   * Protocol.antt: the numbers of src/protocol.h. Bson.antt: the database driver, a parameter.
--   * Base.antt: numbers, bytes, lists, decimal texts and results. Tests.antt: small inputs.
--
-- A method takes a state and returns the new state with its result, also where it throws. What
-- another thread does to a queue before a call takes the lock and while it waits is an argument
-- of the call (a turn), and so are the exit flags that a loop reads. Texts are lists of bytes,
-- numbers are the native naturals; `int` and `size_t` are converted where the code converts them,
-- and a product that is no `int` is undefined behaviour, a result of its own
-- (`undefined_behaviour`), as are overruns of a buffer and `front` of an empty deque. So is
-- the wait of `batch_pop` on a mutex that its thread does not hold, and a buffer of -1 bytes that
-- `reserve` closes with a 0; for other negative lengths `reserve` throws (`bad_alloc`), and for the
-- rest there is memory. A join returns if the thread was told to leave its loop and does, which is
-- an argument (`read_leaves`, `write_leaves`), and else not (`no_return`).
--
-- Fuel: `push_docs` and `write_all` loop until a vector is empty; fuel above the length of the
-- vector is enough for both while the other thread takes items, and so is, for `read`, fuel above
-- the limit of a page. The rounds of `read` and of `update` are as many as their environment
-- gives. `batch_pop` needs no fuel: its rounds are bounded by `m_read_retry`.
--
-- Not modelled: sockets, the log, clocks and memory that is freed. The demonstration program at
-- the end of src/sized_queue.cc is left out. The rest of
-- src/request_handler.cc uses names that are nowhere declared and calls of zmq; `send_error`
-- of src/asio_processor.cc computes a pointer and drops it. The mongo driver (client/dbclient.h),
-- zmq and the YAML library are not part of the repository.
pub mod Base
pub mod SizedQueue
pub mod Bson
pub mod Broker
pub mod Protocol
pub mod Packet
pub mod Reply
pub mod Processor
pub mod Connection
pub mod Color
pub mod Server
pub mod FirstServer
pub mod RequestHandler
pub mod Session
pub mod Tests
