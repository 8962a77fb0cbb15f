-- ===== src/Tests/Processors.antt =====
-- The processor on the sample server.
use zbroker.Base.{pos, ◌⊎◌, Text, ℕ, ◌≡◌, refl, true, List, [], ◌∷◌, some, codes, err, thrown_text}
use zbroker.Protocol.{Command, success}
use zbroker.Processor.{Processor, Surroundings}
use zbroker.Processor.Requests.{Served, Unserved, process_json-Served}
use zbroker.Processor.Serving
use zbroker.Processor.Serving.{process_json}
use zbroker.Tests.{sample_bson, sample_server}
use zbroker.Tests.Brokers.{opened, one_text, one_taken}

abbrev pub busy : Processor (List ℕ)
busy = record {
  read_broker = opened;
  write_broker = opened;
  read_thread = true;
  write_thread = true;
  processor_id = codes "p";
  refcount = 1;
  purpose_name = codes "Read";
}

abbrev pub around : Surroundings (List ℕ)
around = record {
  server = sample_server;
  pops = one_text;
  pushes = λ k. one_taken;
  read_ends = [];
  write_ends = 0;
  fuel = 10;
  read_leaves = true;
  write_leaves = true;
}

process_json-Served_example :
    ((cmd : Command) × Served (pos 104) cmd
      × (process_json sample_bson around (104 ∷ []) busy
          ≡ Serving.process sample_bson around success cmd (104 ∷ []) busy))
    ⊎ ((what : Text) × Unserved (pos 104) what
        × (process_json sample_bson around (104 ∷ []) busy ≡ some (busy, err (thrown_text what))))
process_json-Served_example = process_json-Served sample_bson around (104 ∷ []) (104 ∷ []) busy refl
