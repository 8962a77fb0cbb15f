-- ===== src/Broker/Loops.antt =====
-- `read` and `update` of src/broker.cc: the loops of the two threads of a broker. What they meet
-- from outside is an argument: the server at each query, the other thread's turns at the queue, and
-- the values of `m_do_exit` that they read.
pub mod Pushing
pub mod Sent
pub mod Sending
pub mod Flushed
pub mod Reading
pub mod Feed
pub mod Outbox
use zbroker.Base.{
  ℕ, zero, suc, ◌+◌, Bool, true, false, List, [], ◌∷◌, ◌++◌, Option, none, some, Text, codes,
  is_empty, if◌then◌else◌, Result, ok, err, Error, broker_exception, json_error,
}
use zbroker.Bson.{Bson, Server, Update, MongoSort}
use zbroker.SizedQueue
use zbroker.SizedQueue.{PopTurn, PushTurn}
use zbroker.Broker.{Broker}
use zbroker.Broker.Query.{query}

-- One round of `read`: the exit flag at its start, the server, and for each call of `push` the
-- flag before it and the popping thread's turn. The flag stays set once it is.
pub record Round (Obj : Type 0) : Type 0 where
  pub exit : Bool
  pub server : Server Obj
  pub exits : ℕ → Bool
  pub turns : ℕ → PushTurn

module _ {Obj : Type 0} where
  -- `while( docs.size() > 0 && !m_do_exit )` around the vector's `push`; a timeout leaves the loop
  -- only by the flag, which the test reads. `none` means that the fuel ran out.
  unfoldable pub push_docs :
      ℕ → Round Obj → ℕ → ℕ → List Text → Broker Obj → Option (Broker Obj × List Text)
  push_docs zero r seconds k docs b = none
  push_docs (suc fuel) r seconds k [] b = some (b, [])
  push_docs (suc fuel) r seconds k (doc ∷ docs) b =
      let pushed = SizedQueue.push_all seconds (r.turns k) (doc ∷ docs) b.queue in
      let more = push_docs fuel r seconds (suc k) pushed.1 (record b { queue = pushed.0 }) in
      if r.exits k then some (record b { do_exit = true }, doc ∷ docs) else more

module _ (bson : Bson) where
  open bson use {Obj, object_field, bool_field, from_json}

  -- The body of the loop of `read` behind its test.
  unfoldable pub read_round :
      ℕ → Round Obj → ℕ → Broker Obj → Option (Broker Obj × Result (Unit {0}))
  read_round fuel r seconds b =
      let (b', answer) = query bson r.server MongoSort.asc b in
      elim answer [
        | err e ↦ some (b', err e)
        | ok docs ↦
            if is_empty docs
            then some (record b' { reach_end = true }, ok tt)
            else (elim (push_docs fuel r seconds 0 docs (record b' { reach_end = false })) [
              | none ↦ none
              | some (b'', rest) ↦ some (b'', ok tt)
            ])
      ]

  -- `read` over the rounds that its environment gives it.
  unfoldable pub read :
      ℕ → List (Round Obj) → ℕ → Broker Obj → Option (Broker Obj × Result (Unit {0}))
  read fuel [] seconds b = some (b, ok tt)
  read fuel (r ∷ rounds) seconds b =
      if r.exit
      then some (record b { do_exit = true }, ok tt)
      else (elim (read_round fuel r seconds b) [
        | none ↦ none
        | some (b', err e) ↦ some (b', err e)
        | some (b', ok _) ↦ read fuel rounds seconds b'
      ])

  -- The update that a text of the queue stands for.
  unfoldable pub as_update : Text → Text → Option (Update Obj)
  as_update docset json = elim (from_json json) [
    | none ↦ none
    | some obj ↦ some (record {
      collection = docset;
      query = object_field obj (codes "query");
      document = object_field obj (codes "doc");
      upsert = bool_field obj (codes "upsert");
      multi = bool_field obj (codes "multi");
    })
  ]

  -- Where `update` stands: it goes on, it has left its loop, or it has thrown.
  pub data Status : Type 0 where
    running left : Status
    threw : Error → Status

  -- The broker, the updates sent to the server, and the loop's status.
  pub record UpdateLoop : Type 0 where
    pub broker : Broker Obj
    pub sent : List (Update Obj)
    pub status : Status

  -- One round of `update`, with the turn of its `pop` and the exit flag that its handler reads.
  unfoldable pub update_round : PopTurn Text → Bool → UpdateLoop → UpdateLoop
  update_round t exit u =
      let (queue, r) = SizedQueue.pop 3 t u.broker.queue in
      let b = record u.broker { queue = queue } in
      elim r [
        | ok json ↦ elim (as_update b.docset json) [
          | none ↦ record u { broker = b; status = threw json_error }
          | some update ↦ record {
            broker = record b { update_count = b.update_count + 1 };
            sent = u.sent ++ update ∷ [];
            status = running;
          }
        ]
        | err (broker_exception msg) ↦
            if exit
            then record { broker = record b { do_exit = true }; sent = u.sent; status = left }
            else record u { broker = b }
        | err e ↦ record u { broker = b; status = threw e }
      ]

  unfoldable pub update : List (PopTurn Text × Bool) → UpdateLoop → UpdateLoop
  update [] u = u
  update ((t, exit) ∷ turns) u = elim u.status [
    | running ↦ update turns (update_round t exit u)
    | _ ↦ u
  ]
