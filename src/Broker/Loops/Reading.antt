-- ===== src/Broker/Loops/Reading.antt =====
-- `read` of src/broker.cc over its rounds: the pages of the collection go through the queue.
use zbroker.Base.{
  length-drop, length-reverse, length-append, ◌-◌, ℕ, zero, suc, ◌+◌, ◌*◌, ◌≤◌, ◌<◌, ◌≡◌, refl, ap,
  sym, ◌∙◌, Bool, true, false, List, [], ◌∷◌, ◌++◌, append-nil, append_assoc, map, reverse, Option,
  some, Text, length, take, drop, drop-drop, drop-append_min, min, arith, Result, ok, All, subst,
  length-map, length-take, length-le_zero,
}
use zbroker.Bson.{Bson, Server}
use zbroker.SizedQueue.{Queue}
use zbroker.Broker.{Broker}
use zbroker.Broker.Query.{query}
use zbroker.Broker.Query.Paging.{Serves, queried}
use zbroker.Broker.Query.Pages.{brought, used_up, Reads, Ahead, query-Queried}
use zbroker.Broker.Loops.{MongoSort, Round, push_docs, read_round, read}
use zbroker.Broker.Loops.Pushing.{Flows, taken_by, taken_by_none, push_docs-delivers}

module _ (bson : Bson) where
  open bson use {Obj, json_string}

  -- What so many rounds put into the queue, of a limit of one more than `limit`: the pages of what
  -- is ahead, each backwards.
  abbrev pub pages : ℕ → ℕ → List Obj → List Text
  pages limit zero rest = []
  pages limit (suc n) rest =
      reverse (map json_string (take (suc limit) rest)) ++ pages limit n (drop (suc limit) rest)

  -- How many items the popping thread takes during some rounds, of what is in the queue and of pages
  -- of so many documents, counted round by round.
  pub taken_in : (rounds : List (Round Obj)) (size fuel page len left : ℕ) → ℕ
  taken_in [] size fuel page len left = 0
  taken_in (r ∷ rounds) size fuel page len left =
      let came = min page left in
      let taken = min (taken_by r.turns size fuel 0 len came) (len + came) in
      taken + taken_in rounds size fuel page (len + came - taken) (left - page)

  module _ {server : Server Obj} {docset : Text} {conditions : Obj} {fields : Option Obj}
      {rows : List Obj} (serves : Serves bson server docset conditions fields rows) where
    -- A round with this server, in which nobody asks to stop and the popping thread takes an item
    -- before each `push`.
    pub record IsRound (r : Round Obj) : Type 0 where
      pub same_server : r.server ≡ server
      pub goes_on : r.exit ≡ false
      pub flows : Flows r

    -- Where the reading thread stands between its rounds.
    pub record Stands (limit : ℕ) (rest : List Obj) (b : Broker Obj) : Type 0 where
      pub set_up : Reads bson serves limit 0 b
      pub ahead : Ahead bson rows b.last_doc_id rest
      pub has_room : 0 < b.queue.limit_size
      pub within : length b.queue.items ≤ b.queue.limit_size

    -- What a round leaves.
    Rounded :
        ℕ → ℕ → Round Obj → List Obj → Broker Obj → Option (Broker Obj × Result (Unit {0})) → Type 0
    Rounded limit fuel r rest b o =
        (b' : Broker Obj) × (o ≡ some (b', ok tt))
        × Stands limit (drop (suc limit) rest) b'
        × (b'.queue.limit_size ≡ b.queue.limit_size)
        × (b'.queue.items
            ≡ drop
                (taken_by r.turns b.queue.limit_size fuel 0 (length b.queue.items)
                  (length (take (suc limit) rest)))
                (b.queue.items ++ reverse (map json_string (take (suc limit) rest))))

    read_round-none :
        (fuel seconds : ℕ) (r : Round Obj) (b b' : Broker Obj)
        → query bson r.server MongoSort.asc b ≡ (b', ok [])
        → read_round bson fuel r seconds b ≡ some (record b' { reach_end = true }, ok tt)
    unfolding read_round
    read_round-none fuel seconds r b b' e = simp (e, read_round)

    read_round-some :
        (fuel seconds : ℕ) (r : Round Obj) (b b' b'' : Broker Obj) (x : Text)
        (texts rest : List Text)
        → query bson r.server MongoSort.asc b ≡ (b', ok (x ∷ texts))
        → push_docs fuel r seconds 0 (x ∷ texts) (record b' { reach_end = false })
          ≡ some (b'', rest)
        → read_round bson fuel r seconds b ≡ some (b'', ok tt)
    unfolding read_round
    read_round-some fuel seconds r b b' b'' x texts rest e p = simp (e, p, read_round)

    -- The set-up of a broker that a round leaves.
    pub still_set_up :
        (limit : ℕ) (b : Broker Obj) (docs : List Obj) (id : Text) (q : Queue Text)
        (reach_end : Bool)
        → Reads bson serves limit 0 b
        → Reads bson serves limit 0
            (record (queried bson b docs id) { queue = q; reach_end = reach_end })
    still_set_up limit b docs id q reach_end v = record {
      docset_is = v.docset_is;
      conditions_are = v.conditions_are;
      fields_are = v.fields_are;
      limit_is = v.limit_is;
      skip_is = v.skip_is;
    }

    brought-Rounded :
        (limit fuel seconds : ℕ) (r : Round Obj) (rest docs : List Obj) (id : Text) (b : Broker Obj)
        → suc limit < fuel
        → IsRound r
        → Stands limit rest b
        → docs ≡ take (suc limit) rest
        → 0 < length rest
        → query bson r.server MongoSort.asc b ≡ (queried bson b docs id, ok (map json_string docs))
        → Ahead bson rows id (drop (suc limit) rest)
        → Rounded limit fuel r rest b (read_round bson fuel r seconds b)
    unfolding Rounded
    brought-Rounded limit fuel seconds r rest [] id b f i s d h q a =
        absurd (omega (arith, ap length d, length-take (suc limit) rest))
    brought-Rounded limit fuel seconds r rest (x ∷ docs) id b f i s d h q a =
        let (queue, pushed, same, within, content) =
          push_docs-delivers r seconds i.flows fuel 0 (map json_string (x ∷ docs))
            (record (queried bson b (x ∷ docs) id) { reach_end = false })
            (omega (arith, length-map json_string docs, ap length d, length-take (suc limit) rest))
            s.has_room s.within in
        (
          record (queried bson b (x ∷ docs) id) { queue = queue; reach_end = false },
          read_round-some fuel seconds r b _ _ (json_string x) (map json_string docs) [] q pushed,
          record {
            set_up = still_set_up limit b (x ∷ docs) id queue false s.set_up;
            ahead = a;
            has_room = omega (arith, s.has_room, same);
            within = within;
          },
          same,
          content
              ∙ ap
                  (λ n.
                    drop (taken_by r.turns b.queue.limit_size fuel 0 (length b.queue.items) n)
                      (b.queue.items ++ reverse (map json_string (x ∷ docs))))
                  (length-map json_string (x ∷ docs))
              ∙ ap
                  (λ xs.
                    drop
                      (taken_by r.turns b.queue.limit_size fuel 0 (length b.queue.items)
                        (length xs))
                      (b.queue.items ++ reverse (map json_string xs)))
                  d,
        )

    round-Rounded :
        (limit fuel seconds : ℕ) (r : Round Obj) (rest : List Obj) (b : Broker Obj)
        → suc limit < fuel
        → IsRound r
        → Stands limit rest b
        → Rounded limit fuel r rest b (read_round bson fuel r seconds b)
    unfolding Rounded
    round-Rounded limit fuel seconds r rest b f i s =
        elim (query-Queried bson serves limit 0 b rest s.set_up s.ahead) [
          | used_up h q ↦
              let z = length-le_zero rest h in
              (
                record (queried bson b [] b.last_doc_id) { reach_end = true },
                read_round-none fuel seconds r b _
                    (ap (λ x. query bson x MongoSort.asc b) i.same_server ∙ q),
                record {
                  set_up = still_set_up limit b [] b.last_doc_id b.queue true s.set_up;
                  ahead =
                      subst (Ahead bson rows b.last_doc_id) (z ∙ ap (drop (suc limit)) (sym z))
                        s.ahead;
                  has_room = s.has_room;
                  within = s.within;
                },
                refl,
                sym (append-nil b.queue.items)
                    ∙ ap (λ n. drop n (b.queue.items ++ []))
                        (sym
                          (taken_by_none r.turns b.queue.limit_size fuel 0 (length b.queue.items)))
                    ∙ ap
                        (λ xs.
                          drop
                            (taken_by r.turns b.queue.limit_size fuel 0 (length b.queue.items)
                              (length (take (suc limit) xs)))
                            (b.queue.items ++ reverse (map json_string (take (suc limit) xs))))
                        (sym z),
              )
          | brought docs id h d q a ↦
              brought-Rounded limit fuel seconds r rest docs id b f i s d h
                (ap (λ x. query bson x MongoSort.asc b) i.same_server ∙ q) a
        ]

    read_step :
        (fuel seconds : ℕ) (r : Round Obj) (rounds : List (Round Obj)) (b b' : Broker Obj)
        → r.exit ≡ false
        → read_round bson fuel r seconds b ≡ some (b', ok tt)
        → read bson fuel (r ∷ rounds) seconds b ≡ read bson fuel rounds seconds b'
    unfolding read
    read_step fuel seconds r rounds b b' e f = simp (e, f, read)

    -- The loop of `read` over so many rounds, each with a server that pages the collection, a
    -- popping thread that takes an item before each `push`, and nobody who asks to stop, on a
    -- broker that is set up for the collection with a positive limit and nothing skipped, and whose
    -- queue has room: fuel above the limit is enough. It ends without an exception behind as many
    -- pages, and what then stands in the queue is the old content followed by these pages, in the
    -- order of the collection, but each backwards, without as many from the front as the popping
    -- thread has taken in its turns.
    pub read-delivers :
        (limit fuel seconds : ℕ) (rounds : List (Round Obj)) (rest : List Obj) (b : Broker Obj)
        → suc limit < fuel
        → All IsRound rounds
        → Stands limit rest b
        → (b' : Broker Obj) × (read bson fuel rounds seconds b ≡ some (b', ok tt))
          × Stands limit (drop (length rounds * suc limit) rest) b'
          × (b'.queue.items
              ≡ drop
                  (taken_in rounds b.queue.limit_size fuel
                    (suc limit)
                    (length b.queue.items)
                    (length rest))
                  (b.queue.items ++ pages limit (length rounds) rest))
    unfolding read Rounded taken_in
    read-delivers limit fuel seconds [] rest b f h s =
        let e : 0 * suc limit ≡ 0 = omega arith in
        (
          b,
          refl,
          subst (λ xs. Stands limit xs b) (sym (ap (λ k. drop k rest) e)) s,
          sym (append-nil b.queue.items),
        )
    read-delivers limit fuel seconds (r ∷ rounds) rest b f (i, h) s =
        let (b₁, one, s₁, same, c₁) = round-Rounded limit fuel seconds r rest b f i s in
        let (b₂, more, s₂, c₂) =
          read-delivers limit fuel seconds rounds (drop (suc limit) rest) b₁ f h s₁ in
        let size = b.queue.limit_size in
        let len = length b.queue.items in
        let page = reverse (map json_string (take (suc limit) rest)) in
        let content = b.queue.items ++ page in
        let later = pages limit (length rounds) (drop (suc limit) rest) in
        let came = min (suc limit) (length rest) in
        let taken = min (taken_by r.turns size fuel 0 len came) (len + came) in
        let paged = length-take (suc limit) rest in
        let long : length content ≡ len + came =
          length-append b.queue.items page
          ∙ ap (λ k. len + k)
              (length-reverse (map json_string (take (suc limit) rest))
                ∙ length-map json_string (take (suc limit) rest)
                ∙ paged) in
        let n =
          taken_in rounds b₁.queue.limit_size fuel (suc limit) (length b₁.queue.items)
            (length (drop (suc limit) rest)) in
        let first : b₁.queue.items ≡ drop (taken_by r.turns size fuel 0 len came) content =
          c₁ ∙ ap (λ k. drop (taken_by r.turns size fuel 0 len k) content) paged in
        let shorter : length b₁.queue.items ≡ len + came - taken =
          ap length first
          ∙ omega (arith, length-drop (taken_by r.turns size fuel 0 len came) content, long) in
        let counted : n
            ≡ taken_in rounds size fuel (suc limit) (len + came - taken) (length rest - suc limit) =
          λ j.
            taken_in rounds (same j) fuel (suc limit) (shorter j)
              (length-drop (suc limit) rest j) in
        (
          b₂,
          read_step fuel seconds r rounds b b₁ i.goes_on one ∙ more,
          subst (λ xs. Stands limit xs b₂)
              (drop-drop (length rounds * suc limit) (suc limit) rest
                ∙ ap (λ k. drop k rest) (omega arith))
              s₂,
          c₂
              ∙ ap (λ xs. drop n (xs ++ later)) first
              ∙ ap (drop n) (
                  drop-append_min (taken_by r.turns size fuel 0 len came) content later
                  ∙ ap
                      (λ k. drop (min (taken_by r.turns size fuel 0 len came) k) (content ++ later))
                      long)
              ∙ drop-drop n taken (content ++ later)
              ∙ (λ j. drop (taken + counted j) (append_assoc b.queue.items page later j)),
        )
