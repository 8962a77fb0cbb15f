-- ===== src/Tests.antt =====
-- The theorems at concrete inputs, and the small objects and the server that they are tried on: an
-- object is a list of numbers, which is also its text.
pub mod Queues
pub mod Brokers
pub mod Processors
pub mod Packets
pub mod Connections
pub mod Reads
pub mod Writes
pub mod Openings
pub mod Sessions
pub mod Groups
pub mod Threads
pub mod Servers
pub mod Texts
use zbroker.Base.{
  ℕ, ◌+◌, ℤ, pos, false, List, [], ◌∷◌, ◌++◌, map, Option, none, some, Text, ltb, is_empty,
  if◌then◌else◌, int_min,
}
use zbroker.Bson.{Bson, Server, MongoSort}
use zbroker.Broker.Query.Paging.{page}

-- A number field is the first number, and an object field is the object itself.
abbrev pub sample_int : List ℕ → ℤ
sample_int [] = int_min
sample_int (n ∷ o) = pos n

abbrev pub sample_bson : Bson
sample_bson = record {
  Obj = List ℕ;
  empty_object = [];
  is_empty_object = is_empty;
  string_field = λ o name. o;
  int_field = λ o name. sample_int o;
  bool_field = λ o name. false;
  object_field = λ o name. o;
  values = λ o. map (λ n. n ∷ []) o;
  object_id = λ o. some o;
  json_string = λ o. o;
  from_json = λ text. some text;
  md5 = λ o. o;
  append_int = λ o name n. o;
  append_text = λ o name text. o;
  append_object = λ o name inner. o ++ inner;
  append_id = λ o name id. o ++ id;
  append_elements = λ o other. o ++ other;
}

-- The collection of two documents, 1 and 2, and those of it that match a condition: all of them, or
-- those above an id.
abbrev pub sample_rows : List (List ℕ)
sample_rows = (1 ∷ []) ∷ (2 ∷ []) ∷ []

abbrev pub sample_matching : List ℕ → List (List ℕ)
sample_matching [] = sample_rows
sample_matching (k ∷ rest) = if ltb k 1 then sample_rows else if ltb k 2 then (2 ∷ []) ∷ [] else []

abbrev pub sample_find : Text → List ℕ → MongoSort → ℤ → ℤ → Option (List ℕ) → List (List ℕ)
sample_find docset condition sort (pos limit) (pos skip) fields =
    page skip limit (sample_matching condition)
sample_find docset condition sort limit skip fields = []

abbrev pub sample_server : Server (List ℕ)
sample_server = record { connect = λ address. none; find = sample_find }
