-- ===== src/Broker/Query.antt =====
-- `prepare_condition` and `query` of src/broker.cc.
pub mod Paging
pub mod Pages
pub mod Several
pub mod Rewound
use zbroker.Base.{
  ◌+◌, true, false, List, [], ◌∷◌, ◌++◌, none, some, Text, codes, is_empty, if◌then◌else◌, Result,
  ok, err, assertion_failed,
}
use zbroker.Bson.{Bson, Server, MongoSort}
use zbroker.Broker.{Broker}

module _ (bson : Bson) where
  open bson use {
    Obj, empty_object, json_string, object_id, append_elements, append_id, append_object,
  }

  -- The conditions, and behind the last document seen also an `_id` above its own.
  unfoldable pub prepare_condition : Broker Obj → Obj
  prepare_condition b =
      if is_empty b.last_doc_id
      then b.conditions
      else append_object (append_elements empty_object b.conditions) (codes "_id")
          (append_id empty_object (codes "$gt") b.last_doc_id)

  -- The loop over the cursor: the last document taken from it, and the texts so far.
  unfoldable pub iterate : List Obj → Obj → List Text → Obj × List Text
  iterate [] doc cache = (doc, cache)
  iterate (next ∷ cursor) doc cache = iterate cursor next (cache ++ json_string next ∷ [])

  -- The end of `query`, after the id of the last document is set.
  unfoldable pub finish_query : Broker Obj → Broker Obj × Result (List Text)
  finish_query b =
      let done = record b { query_count = b.query_count + 1; querying = false } in
      (done, ok done.json_doc_cache)

  -- `query` once it has its cursor: it takes the documents, and remembers the id of the last.
  unfoldable pub take_documents : List Obj → Broker Obj → Broker Obj × Result (List Text)
  unfolding finish_query
  take_documents cursor b =
      let (doc, cache) = iterate cursor empty_object [] in
      let iterated = record b { json_doc_cache = cache } in
      if is_empty cursor then finish_query iterated else (elim (object_id doc) [
        | none ↦ (iterated, err assertion_failed)
        | some id ↦ finish_query (record iterated { last_doc_id = id })
      ])

  unfoldable pub query : Server Obj → MongoSort → Broker Obj → Broker Obj × Result (List Text)
  unfolding take_documents
  query server sort b =
      let asking = record b { querying = true } in
      let fields = if b.has_fields then some b.fields else none in
      take_documents (server.find b.docset (prepare_condition b) sort b.limit b.skip fields) asking
