-- ===== src/Broker/Query/Several.antt =====
-- What queries in turn bring, as the rounds of `broker::read` make them.
use mathlib.Core.List.{map-append}
use zbroker.Base.{
  subst, drop-ge_length, take-nil, length-le_zero, drop-drop, take-add, err, suc, take, drop, [],
  List, map, ℕ, ◌++◌, ◌∙◌, ◌≡◌, refl, sym, ap, ◌+◌, ◌*◌, zero, ok, arith, Result, Option, Text,
}
use zbroker.Bson.{Bson}
use zbroker.Broker.{Broker}
use zbroker.Broker.Query.{MongoSort, Server, query}
use zbroker.Broker.Query.Paging.{queried, Serves}
use zbroker.Broker.Query.Pages.{Reads, Ahead, brought, used_up, query-Queried, queried-Reads}

-- The texts of a query that did not throw.
abbrev texts : Result (List Text) → List Text
texts (ok docs) = docs
texts (err e) = []

-- So many queries in turn, as the rounds of `broker::read` make them: the texts that they bring.
unfoldable queries :
    (bson : Bson) → Server bson.Obj → ℕ → Broker bson.Obj → Broker bson.Obj × List Text
queries bson server zero b = (b, [])
queries bson server (suc n) b =
    let (b', r) = query bson server MongoSort.asc b in
    let (b'', more) = queries bson server n b' in (b'', texts r ++ more)

queries_step :
    (bson : Bson) (server : Server bson.Obj) (n : ℕ) (b b' : Broker bson.Obj)
    (r : Result (List Text))
    → query bson server MongoSort.asc b ≡ (b', r)
    → queries bson server (suc n) b
      ≡ ((queries bson server n b').0, texts r ++ (queries bson server n b').1)
unfolding queries
queries_step bson server n b b' r e = simp (e, queries)

module _ (bson : Bson) where
  open bson use {Obj, json_string}

  module _ {server : Server Obj} {docset : Text} {conditions : Obj} {fields : Option Obj}
      {rows : List Obj} (serves : Serves bson server docset conditions fields rows) where
    none_left : {rest : List Obj} → rest ≡ [] → (k m : ℕ) → take k rest ≡ take m rest
    none_left z k m = rw z (take-nil k ∙ sym (take-nil m))

    gone : {rest : List Obj} → rest ≡ [] → (k m : ℕ) → drop k rest ≡ drop m rest
    gone z k m = rw z (drop-ge_length k [] (omega arith) ∙ sym (drop-ge_length m [] (omega arith)))

    -- For a server that pages a collection as `Serves` says, and a broker that is set up for it
    -- as `Reads` says, with a positive limit and nothing skipped: `n` queries in turn bring the
    -- first `n` times the limit documents of what is ahead of it, in order, and the broker then
    -- stands behind them.
    queries-brought :
        (limit n : ℕ) (b : Broker Obj) (rest : List Obj)
        → Reads bson serves limit 0 b
        → Ahead bson rows b.last_doc_id rest
        → ((queries bson server n b).1 ≡ map json_string (take (n * suc limit) rest))
          × Ahead bson rows (queries bson server n b).0.last_doc_id (drop (n * suc limit) rest)
    queries-brought limit zero b rest v a =
        let e : 0 * suc limit ≡ 0 = omega arith in rw e (unfold queries in (refl, a))
    queries-brought limit (suc n) b rest v a =
        let e : suc n * suc limit ≡ suc limit + n * suc limit = omega arith in
        elim (query-Queried bson serves limit 0 b rest v a) [
          | used_up h q ↦
              let z : rest ≡ [] = length-le_zero rest h in
              let (t, w) =
                queries-brought limit n (queried bson b [] b.last_doc_id) rest
                  (queried-Reads bson serves limit 0 b [] b.last_doc_id v) a in
              rw (queries_step bson server n b _ _ q, t)
                (
                  ap (map json_string) (none_left z (n * suc limit) (suc n * suc limit)),
                  subst (Ahead bson rows _) (gone z (n * suc limit) (suc n * suc limit)) w,
                )
          | brought docs id h d q a' ↦
              let (t, w) =
                queries-brought limit n (queried bson b docs id) (drop (suc limit) rest)
                  (queried-Reads bson serves limit 0 b docs id v) a' in
              rw
                (
                  e,
                  queries_step bson server n b _ _ q,
                  take-add (suc limit) (n * suc limit) rest,
                  t,
                  ← drop-drop (n * suc limit) (suc limit) rest,
                )
                (
                  ap
                        (λ xs.
                          map json_string xs
                          ++ map json_string (take (n * suc limit) (drop (suc limit) rest)))
                        d
                      ∙ sym (
                          map-append json_string (take (suc limit) rest)
                            (take (n * suc limit) (drop (suc limit) rest))),
                  w,
                )
        ]
