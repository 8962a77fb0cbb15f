-- ===== src/Tests/Writes.antt =====
-- The thread of `update` and its clients on the sample server.
use zbroker.Base.{true, false, refl, [], ◌∷◌, codes, arith}
use zbroker.SizedQueue
use zbroker.Broker
use zbroker.Broker.Loops
use zbroker.Broker.Loops.Outbox.{Outbox, new_outbox, write_step, hand_step, send_step, Reach}
use zbroker.Broker.Loops.Outbox.InOrder.{Sending, Reach-Sending}
use zbroker.Tests.{sample_bson}
use zbroker.Tests.Brokers.{opened}

-- A text is sent, a client writes two, and the queue takes one of them.
abbrev sent_one : Outbox sample_bson
sent_one = send_step sample_bson true false (new_outbox sample_bson opened)

abbrev written_two : Outbox sample_bson
written_two = write_step sample_bson (codes "x" ∷ codes "y" ∷ []) sent_one

Reach-Sending_example :
    Sending sample_bson opened.queue.items opened.docset (hand_step sample_bson true written_two)
unfolding send_step write_step hand_step Loops.update_round Loops.as_update SizedQueue.pop
    Broker.check_status
Reach-Sending_example = Reach-Sending sample_bson opened refl (
    Reach.hands true
      (Reach.writes (codes "x" ∷ codes "y" ∷ []) (Reach.sends true false Reach.start refl) refl)
      refl (omega arith))
