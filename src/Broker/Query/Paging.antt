-- ===== src/Broker/Query/Paging.antt =====
-- What a sequence of queries brings to the queue: the pages of the collection, one after another.
use zbroker.Base.{
  true, if◌then◌else◌, codes, ℕ, zero, suc, ◌+◌, pos, ◌≡◌, ap, sym, ◌∙◌, false, List, [], ◌∷◌, ◌++◌,
  map, append-nil, append_assoc, Option, none, some, Text, ok, take, drop,
}
use zbroker.Bson.{Bson, Server, MongoSort}
use zbroker.Broker.{Broker}
use zbroker.Broker.Query.{prepare_condition, iterate, take_documents, query}

-- A page as the server cuts it: `skip` documents passed over, and at most `limit` returned, with 0
-- for no limit.
abbrev pub page : {A : Type 0} → ℕ → ℕ → List A → List A
page skip zero docs = drop skip docs
page skip (suc limit) docs = take (suc limit) (drop skip docs)

-- The last document of a list, or the one given.
abbrev pub last_of : {A : Type 0} → A → List A → A
last_of d [] = d
last_of d (x ∷ xs) = last_of x xs

module _ (bson : Bson) where
  open bson use {
    Obj, empty_object, json_string, object_id, append_elements, append_id, append_object,
  }

  -- The condition for what follows the document with a given id.
  abbrev pub above : Obj → Text → Obj
  above conditions id =
      append_object (append_elements empty_object conditions) (codes "_id")
        (append_id empty_object (codes "$gt") id)

  -- What the brokers rely on of the server, for one collection and condition, sorted by `_id`:
  -- `rows` are the documents that match; each has an id, which is not empty; those with an `_id`
  -- above that of a row are the rows that follow it; and a query returns a page of what matches.
  pub record Serves (server : Server Obj) (docset : Text) (conditions : Obj) (fields : Option Obj)
      (rows : List Obj) : Type 0 where
    pub matching : Obj → List Obj
    pub all_rows : matching conditions ≡ rows
    pub rows_above :
        (front rest : List Obj) (d : Obj) (id : Text)
        → rows ≡ front ++ d ∷ rest
        → object_id d ≡ some id
        → matching (above conditions id) ≡ rest
    pub has_id :
        (front rest : List Obj) (d : Obj)
        → rows ≡ front ++ d ∷ rest
        → (c : ℕ) × (id : Text) × (object_id d ≡ some (c ∷ id))
    pub paged :
        (condition : Obj) (limit skip : ℕ)
        → server.find docset condition MongoSort.asc (pos limit) (pos skip) fields
          ≡ page skip limit (matching condition)

  iterate_lem :
      (cursor : List Obj) (doc : Obj) (cache : List Text)
      → iterate bson cursor doc cache ≡ (last_of doc cursor, cache ++ map json_string cursor)
  unfolding iterate
  iterate_lem [] doc cache = ap (λ xs. (doc, xs)) (sym (append-nil cache))
  iterate_lem (next ∷ cursor) doc cache =
      iterate_lem cursor next (cache ++ json_string next ∷ [])
      ∙ ap (λ xs. (last_of next cursor, xs)) (append_assoc cache (json_string next ∷ []) _)

  -- The documents that a query of this broker brings.
  abbrev pub found : Server Obj → Broker Obj → List Obj
  found server b =
      server.find b.docset (prepare_condition bson b) MongoSort.asc b.limit b.skip
        (if b.has_fields then some b.fields else none)

  -- A broker while it asks the server.
  abbrev pub asking : Broker Obj → Broker Obj
  asking b = record b { querying = true }

  -- A broker after a query that brought `docs`, with the id that it then remembers.
  abbrev pub queried : Broker Obj → List Obj → Text → Broker Obj
  queried b docs id = record b {
    json_doc_cache = map json_string docs;
    last_doc_id = id;
    querying = false;
    query_count = b.query_count + 1;
  }

  pub query_none :
      (server : Server Obj) (b : Broker Obj)
      → found server b ≡ []
      → query bson server MongoSort.asc b ≡ (queried b [] b.last_doc_id, ok [])
  unfolding query iterate
  query_none server b e = simp (e, query)

  pub take_documents-cons :
      (b : Broker Obj) (x : Obj) (xs : List Obj) (id : Text)
      → object_id (last_of x xs) ≡ some id
      → take_documents bson (x ∷ xs) b ≡ (queried b (x ∷ xs) id, ok (map json_string (x ∷ xs)))
  unfolding take_documents
  take_documents-cons b x xs id f = simp (take_documents, iterate_lem, f)

  pub query_some :
      (server : Server Obj) (b : Broker Obj) (x : Obj) (xs : List Obj) (id : Text)
      → found server b ≡ x ∷ xs
      → object_id (last_of x xs) ≡ some id
      → query bson server MongoSort.asc b ≡ (queried b (x ∷ xs) id, ok (map json_string (x ∷ xs)))
  unfolding query
  query_some server b x xs id e f =
      ap (λ cursor. take_documents bson cursor (asking b)) e
      ∙ take_documents-cons (asking b) x xs id f
