-- ===== src/Broker/Query/Pages.antt =====
-- Where a broker stands in its collection, and what its queries bring from there.
use zbroker.Base.{
  subst, length-le_zero, suc, length, take, drop, take-append-drop, length-drop, [], List, map,
  append_assoc, ℕ, ◌++◌, ◌<◌, ◌≤◌, ◌∙◌, ◌∷◌, ◌≡◌, refl, sym, ap, ok, pos, arith, none, some, Result,
  Option, Text, if◌then◌else◌,
}
use zbroker.Bson.{Bson}
use zbroker.Broker.{Broker}
use zbroker.Broker.Query.{MongoSort, prepare_condition, Server, query}
use zbroker.Broker.Query.Paging.{query_some, last_of, query_none, queried, found, Serves}

-- A list with something in it ends in its last element.
before_last : {A : Type 0} → A → List A → List A
before_last x [] = []
before_last x (y ∷ ys) = x ∷ before_last y ys

before_last-append :
    {A : Type 0} (x : A) (xs : List A) → before_last x xs ++ last_of x xs ∷ [] ≡ x ∷ xs
unfolding before_last
before_last-append x [] = refl
before_last-append x (y ∷ ys) = ap (◌∷◌ x) (before_last-append y ys)

module _ (bson : Bson) where
  open bson use {Obj, json_string, object_id}

  -- Where a broker stands in the rows of its collection: what is still ahead of it.
  pub data Ahead (rows : List Obj) (last_doc_id : Text) (rest : List Obj) : Type 0 where
    at_start : last_doc_id ≡ [] → rows ≡ rest → Ahead rows last_doc_id rest
    behind :
        (front : List Obj) (d : Obj) (c : ℕ) (id : Text)
        → rows ≡ front ++ d ∷ rest
        → object_id d ≡ some (c ∷ id)
        → last_doc_id ≡ c ∷ id
        → Ahead rows last_doc_id rest

  -- The rows split where a broker stands.
  Ahead-split :
      {rows rest : List Obj} {id : Text}
      → Ahead rows id rest
      → (done : List Obj) × (rows ≡ done ++ rest)
  Ahead-split (at_start e r) = ([], r)
  Ahead-split {rest = rest} (behind front d c id r o e) =
      (front ++ d ∷ [], r ∙ sym (append_assoc front (d ∷ []) rest))

  module _ {server : Server Obj} {docset : Text} {conditions : Obj} {fields : Option Obj}
      {rows : List Obj} (serves : Serves bson server docset conditions fields rows) where
    selected :
        (b : Broker Obj) (rest : List Obj)
        → b.conditions ≡ conditions
        → Ahead rows b.last_doc_id rest
        → serves.matching (prepare_condition bson b) ≡ rest
    unfolding prepare_condition
    selected b rest e (at_start h r) = rw (h, prepare_condition) (rw e (serves.all_rows ∙ r))
    selected b rest e (behind front d c id r o h) =
        rw (h, prepare_condition) (rw e (serves.rows_above front rest d (c ∷ id) r o))

    -- The place behind a page.
    pub Ahead-page :
        {id : Text} (rest passed : List Obj) (x : Obj) (xs rest' : List Obj)
        → Ahead rows id rest
        → rest ≡ passed ++ (x ∷ xs ++ rest')
        → (c : ℕ) × (next : Text) × (object_id (last_of x xs) ≡ some (c ∷ next))
          × Ahead rows (c ∷ next) rest'
    Ahead-page rest passed x xs rest' a e =
        let (done, r) = Ahead-split a in
        let front = done ++ (passed ++ before_last x xs) in
        let whole : rows ≡ front ++ last_of x xs ∷ rest' =
          r
          ∙ ap (◌++◌ done) e
          ∙ cc (
            before_last-append x xs,
            append_assoc done passed (x ∷ xs ++ rest'),
            append_assoc (done ++ passed) (x ∷ xs) rest',
            append_assoc done passed (before_last x xs),
            append_assoc (done ++ passed) (before_last x xs) (last_of x xs ∷ []),
            append_assoc (done ++ (passed ++ before_last x xs)) (last_of x xs ∷ []) rest',
          ) in
        let (c, next, o) = serves.has_id front rest' (last_of x xs) whole in
        (c, next, o, behind front (last_of x xs) c next whole o refl)

    -- What a broker has been configured with: the collection, the condition, the fields, a positive
    -- limit and a skip.
    pub record Reads (limit skip : ℕ) (b : Broker Obj) : Type 0 where
      pub docset_is : b.docset ≡ docset
      pub conditions_are : b.conditions ≡ conditions
      pub fields_are : (if b.has_fields then some b.fields else none) ≡ fields
      pub limit_is : b.limit ≡ pos (suc limit)
      pub skip_is : b.skip ≡ pos skip

    pub found-page :
        (limit skip : ℕ) (b : Broker Obj) (rest : List Obj)
        → Reads limit skip b
        → Ahead rows b.last_doc_id rest
        → found bson server b ≡ take (suc limit) (drop skip rest)
    found-page limit skip b rest v a =
        (λ i.
          server.find (v.docset_is i) (prepare_condition bson b) MongoSort.asc (v.limit_is i)
            (v.skip_is i) (v.fields_are i))
        ∙ serves.paged (prepare_condition bson b) (suc limit) skip
        ∙ ap (λ xs. take (suc limit) (drop skip xs)) (selected b rest v.conditions_are a)

    -- What one query does from a place with `rest` ahead.
    pub data Queried (limit skip : ℕ) (b : Broker Obj) (rest : List Obj)
        (r : Broker Obj × Result (List Text)) : Type 0 where
      used_up :
          length rest ≤ skip
          → r ≡ (queried bson b [] b.last_doc_id, ok [])
          → Queried limit skip b rest r
      brought :
          (docs : List Obj) (id : Text)
          → skip < length rest
          → docs ≡ take (suc limit) (drop skip rest)
          → r ≡ (queried bson b docs id, ok (map json_string docs))
          → Ahead rows id (drop (suc limit) (drop skip rest))
          → Queried limit skip b rest r

    split_rest :
        (limit skip : ℕ) (b : Broker Obj) (rest ahead : List Obj)
        → drop skip rest ≡ ahead
        → Reads limit skip b
        → Ahead rows b.last_doc_id rest
        → Queried limit skip b rest (query bson server MongoSort.asc b)
    split_rest limit skip b rest [] e v a =
        used_up (omega (arith, ap length e, length-drop skip rest))
          (query_none bson server b (found-page limit skip b rest v a ∙ ap (take (suc limit)) e))
    split_rest limit skip b rest (x ∷ xs) e v a =
        let whole : rest ≡ take skip rest ++ (x ∷ take limit xs ++ drop limit xs) =
          cc (take-append-drop skip rest, take-append-drop limit xs) in
        let (c, next, o, a') =
          Ahead-page rest (take skip rest) x (take limit xs) (drop limit xs) a whole in
        brought (x ∷ take limit xs) (c ∷ next) (omega (arith, ap length e, length-drop skip rest))
          (ap (take (suc limit)) (sym e))
          (query_some bson server b x (take limit xs) (c ∷ next)
            (found-page limit skip b rest v a ∙ ap (take (suc limit)) e) o)
          (rw e a')

    -- For a server that pages a collection as `Serves` says, and a broker that is set up for it
    -- as `Reads` says, with a positive limit and any skip: a query brings the first `limit`
    -- documents behind those that it skips of what is ahead of the broker, which then stands
    -- behind them, so what a query skips is not ahead any more. If no more is ahead than is
    -- skipped, it brings nothing and the broker stays.
    pub query-Queried :
        (limit skip : ℕ) (b : Broker Obj) (rest : List Obj)
        → Reads limit skip b
        → Ahead rows b.last_doc_id rest
        → Queried limit skip b rest (query bson server MongoSort.asc b)
    query-Queried limit skip b rest v a = split_rest limit skip b rest (drop skip rest) refl v a

    -- One query, whether it brings documents or not.
    pub query-page :
        (limit : ℕ) (b : Broker Obj) (rest : List Obj)
        → Reads limit 0 b
        → Ahead rows b.last_doc_id rest
        → (docs : List Obj) × (id : Text) × (query bson server MongoSort.asc b
            ≡ (queried bson b docs id, ok (map json_string docs)))
          × (docs ≡ take (suc limit) rest)
          × Ahead rows id (drop (suc limit) rest)
    query-page limit b rest v a = elim (query-Queried limit 0 b rest v a) [
      | used_up h q ↦
          let z = length-le_zero rest h in
          (
            [],
            b.last_doc_id,
            q,
            sym (ap (take (suc limit)) z),
            subst (Ahead rows b.last_doc_id) (z ∙ ap (drop (suc limit)) (sym z)) a,
          )
      | brought docs id h d q a' ↦ (docs, id, q, d, a')
    ]

    pub queried-Reads :
        (limit skip : ℕ) (b : Broker Obj) (docs : List Obj) (id : Text)
        → Reads limit skip b
        → Reads limit skip (queried bson b docs id)
    queried-Reads limit skip b docs id v = record {
      docset_is = v.docset_is;
      conditions_are = v.conditions_are;
      fields_are = v.fields_are;
      limit_is = v.limit_is;
      skip_is = v.skip_is;
    }
