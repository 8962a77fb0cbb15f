-- ===== src/Tests/Servers.antt =====
-- The handlers of a port, and `main`, on the sample connections.
use zbroker.Base.{
  ◌%◌, ◌^◌, if◌then◌else◌, ℕ, ◌≡◌, refl, true, false, Bool, List, [], ◌∷◌, map, none, some, ok,
  decimal, arith,
}
use zbroker.Processor.{Surroundings}
use zbroker.Connection
use zbroker.Connection.{Connection, handle_read_header}
use zbroker.Server
use zbroker.Server.{
  Reading, AsioHandler, Event, accepted, header_read, body_read, create, run, Started, main,
}
use zbroker.Server.Serving.{IsServing}
use zbroker.Server.Links.{run-create-IsServing}
use zbroker.Server.Faults.{Closing, run-Closing}
use zbroker.Server.Ports.{clash, main-decimal}
use zbroker.Tests.{sample_bson}
use zbroker.Tests.Connections.{nobody, connected, around, read_packet}

-- A client connects and goes away, and then a request comes for a connection that is not there.
abbrev three_events : List (Surroundings (List ℕ) × Event)
three_events =
    (around, accepted false)
    ∷ (around, header_read 0 none)
    ∷ (around, body_read 3 (some read_packet))
    ∷ []

abbrev after_three : AsioHandler (List ℕ)
after_three = record {
  processors = nobody;
  links =
      record { connection = record connected { connection_id = 8 }; reading = Reading.nothing }
      ∷ [];
  accepting = some (record connected { connection_id = 9 });
  connection_count = 9;
}

after_three-run : run sample_bson three_events (create 7) ≡ some (after_three, ok tt)
unfolding run Server.handle Server.handle_accept Server.make_connection Server.store create
    handle_read_header Connection.close_processor Connection.new_connection
after_three-run = refl

run-create-IsServing_example : IsServing after_three
run-create-IsServing_example =
    run-create-IsServing sample_bson 7 three_events after_three (ok tt) after_three-run

-- A port whose first accept is an error, and then one that would be none.
abbrev two_accepts : List (Surroundings (List ℕ) × Event)
two_accepts = (around, accepted true) ∷ (around, accepted false) ∷ []

abbrev closed_port : AsioHandler (List ℕ)
closed_port = record { processors = nobody; links = []; accepting = none; connection_count = 8 }

closed_port-run : run sample_bson two_accepts (create 7) ≡ some (closed_port, ok tt)
unfolding run Server.handle Server.handle_accept Server.make_connection create
closed_port-run = refl

run-Closing_example : Closing sample_bson 0 8 closed_port
unfolding create Server.make_connection
run-Closing_example =
    run-Closing sample_bson around ((around, accepted false) ∷ []) (create 7) closed_port (ok tt)
      closed_port-run

-- Every port is free.
abbrev all_free : ℕ → Bool
all_free port = true

main-decimal_example :
    main all_free (map decimal (80 ∷ 5123 ∷ 65616 ∷ []))
    ≡ ok (
        if clash [] (80 ∷ 5123 ∷ 65616 ∷ [])
        then Started.exits 0
        else Started.serving (map (λ n. n % 2 ^ 16) (80 ∷ 5123 ∷ 65616 ∷ [])))
main-decimal_example =
    main-decimal all_free 80 (5123 ∷ 65616 ∷ []) (λ port. refl)
      (omega arith, (omega arith, (omega arith, tt)))
