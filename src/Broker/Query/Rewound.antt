-- ===== src/Broker/Query/Rewound.antt =====
-- `rewind` of src/broker.cc while a `query` runs, which has no common lock with it but for the
-- moment in which the id of the last document is set.
use zbroker.Base.{
  suc, length, take, drop, [], List, map, ℕ, ◌<◌, ◌∙◌, ◌∷◌, ◌≡◌, refl, sym, ap, ok, arith, Text,
  take-append-drop, Option,
}
use zbroker.Bson.{Bson, Server, MongoSort}
use zbroker.Broker
use zbroker.Broker.{Broker}
use zbroker.Broker.Query.{query, take_documents}
use zbroker.Broker.Query.Paging.{asking, queried, found, Serves, take_documents-cons}
use zbroker.Broker.Query.Pages.{Reads, Ahead, Ahead-page, found-page, query-page}

module _ (bson : Bson) {server : Server bson.Obj} {docset : Text} {conditions : bson.Obj}
    {fields : Option bson.Obj} {rows : List bson.Obj}
    (serves : Serves bson server docset conditions fields rows) where
  open bson use {Obj, json_string}

  -- What a broker takes of the cursor that it got in another state.
  taken :
      (limit : ℕ) (b b' : Broker Obj) (x : Obj) (xs : List Obj)
      → Reads bson serves limit 0 b
      → Ahead bson rows b.last_doc_id (x ∷ xs)
      → (id : Text) × (take_documents bson (found bson server b) b'
          ≡ (queried bson b' (x ∷ take limit xs) id, ok (map json_string (x ∷ take limit xs))))
        × Ahead bson rows id (drop limit xs)
  taken limit b b' x xs v a =
      let (c, next, o, a') =
        Ahead-page bson serves (x ∷ xs) [] x (take limit xs) (drop limit xs) a
          (ap (◌∷◌ x) (sym (take-append-drop limit xs))) in
      (
        c ∷ next,
        ap (λ cursor. take_documents bson cursor b') (found-page bson serves limit 0 b (x ∷ xs) v a)
            ∙ take_documents-cons bson b' x (take limit xs) (c ∷ next) o,
        a',
      )

  after :
      (limit : ℕ) (b : Broker Obj) (docs : List Obj) (id : Text)
      → Reads bson serves limit 0 b
      → Reads bson serves limit 0 (queried bson (Broker.rewind b) docs id)
  unfolding Broker.rewind
  after limit b docs id v = record {
    docset_is = v.docset_is;
    conditions_are = v.conditions_are;
    fields_are = v.fields_are;
    limit_is = v.limit_is;
    skip_is = v.skip_is;
  }

  -- A query gets its cursor and then takes the documents. When `rewind` comes between the two, with
  -- a server that pages the collection, a broker that is set up for it with a positive limit and
  -- nothing skipped, and something still ahead: the query returns its page, and the next query
  -- brings the page behind that one, as if nobody had rewound.
  pub query-rewound :
      (limit : ℕ) (b : Broker Obj) (rest : List Obj)
      → Reads bson serves limit 0 b
      → Ahead bson rows b.last_doc_id rest
      → 0 < length rest
      → (b' b'' : Broker Obj) × (query bson server MongoSort.asc b
          ≡ take_documents bson (found bson server b) (asking bson b))
        × (take_documents bson (found bson server b) (Broker.rewind (asking bson b))
            ≡ (b', ok (map json_string (take (suc limit) rest))))
        × (query bson server MongoSort.asc b'
            ≡ (b'', ok (map json_string (take (suc limit) (drop (suc limit) rest)))))
  unfolding query Broker.rewind
  query-rewound limit b [] v a h = absurd (omega (arith, h))
  query-rewound limit b (x ∷ xs) v a h =
      let (id, e, a') = taken limit b (Broker.rewind (asking bson b)) x xs v a in
      let b' = queried bson (Broker.rewind b) (x ∷ take limit xs) id in
      let (docs, id', f, d, a'') =
        query-page bson serves limit b' (drop limit xs) (after limit b (x ∷ take limit xs) id v)
          a' in
      (
        b',
        queried bson b' docs id',
        refl,
        e,
        f ∙ ap (λ page. (queried bson b' docs id', ok (map json_string page))) d,
      )
