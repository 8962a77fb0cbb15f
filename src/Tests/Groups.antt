-- ===== src/Tests/Groups.antt =====
-- A READ of a group on the sample server, after its thread has fetched and pushed a page.
use zbroker.Base.{
  ◌<◌, text_eq, decimal_int, ℕ, refl, true, false, [], ◌∷◌, List, length, codes, arith,
}
use zbroker.Packet.{OutPacket}
use zbroker.Broker
use zbroker.Broker.Init
use zbroker.Broker.Query.{query, prepare_condition, iterate, finish_query}
use zbroker.Broker.Loops.Feed.{Feed, Reach, push_step, new_feed, query_step}
use zbroker.Broker.Loops.Feed.Rewinds.{Passes}
use zbroker.Processor.{Processor, Surroundings}
use zbroker.Processor.Serving
use zbroker.Connection.{Processors}
use zbroker.Tests.{sample_server}
use zbroker.Tests.Processors.{around}
use zbroker.Tests.Openings.{session_bson, joined, fetched, fetched-query_step}

-- Nothing comes to the queue while clients pop.
abbrev quiet_around : Surroundings (List ℕ)
quiet_around = record around { pops = λ k. record { arrived = []; during = []; notified = false } }

-- The feed once the page is in the queue.
abbrev pushed_one : Feed (List ℕ)
pushed_one = push_step 1 true fetched

fetched_some : 0 < length fetched.docs
unfolding query_step query prepare_condition iterate finish_query Serving.open_processor
    Init.open_broker Init.init Init.init_options Init.init_from Init.check_options Init.finish_init
    Init.default_queue_size Init.connect Serving.count_client text_eq decimal_int
fetched_some = omega arith

abbrev pushed_one-Passes :
    Passes session_bson sample_server (new_feed joined.read_broker) 0 pushed_one
pushed_one-Passes =
    Passes.first_pass
      (Reach.pushes 1 true (Reach.queries Reach.start refl fetched-query_step) fetched_some)

-- The processor at that time, and the table.
abbrev reading : Processor (List ℕ)
reading = record joined { read_broker = pushed_one.broker }

abbrev one_group : Processors (List ℕ)
one_group = record { items = (codes "p", reading) ∷ []; processor_count = 1 }

-- The packet with a READ.
abbrev asking_next : OutPacket
asking_next = record { packet_id = codes "ab"; body = 102 ∷ []; contents = [] }
