-- ===== src/Processor/Opening.antt =====
-- `open` of src/asio_processor.cc: a processor that a client opens for reading serves the
-- collection that the client names, and one that a client opens for writing updates it.
use zbroker.Base.{
  ◌≡◌, refl, ap, ◌∙◌, ◌+◌, inl, inr, Result-cases, some, Text, [], pos, suc, ℕ, List, Result, ok,
  err, false, true, subst, codes, is_empty, Bool-cases,
}
use zbroker.Bson.{Bson}
use zbroker.Protocol.{read_purpose, write_purpose}
use zbroker.Broker
use zbroker.Broker.{Broker}
use zbroker.Broker.Init.{open_broker}
use zbroker.Broker.Init.SetUp.{
  docset_of, fields_of, limit_of, skip_of, IsSetUp, open_broker-IsSetUp,
}
use zbroker.Broker.Query.Paging.{Serves}
use zbroker.Broker.Query.Pages.{Ahead}
use zbroker.Broker.Loops.Feed.{Feed, new_feed}
use zbroker.Broker.Loops.Feed.Rewinds.{
  queries_before, queries_again, Passes, Rewinding, Passes-Rewinding,
}
use zbroker.Broker.Loops.Outbox.{Outbox, new_outbox, Reach}
use zbroker.Broker.Loops.Outbox.InOrder.{Sending, Reach-Sending}
use zbroker.Processor.{Processor, Surroundings}
use zbroker.Processor.Serving.{create, open_processor}
use zbroker.Processor.Clients.{count_client-Untouched, refcount-count_client}

module _ (bson : Bson) where
  open bson use {Obj, object_field}

  -- A processor that its constructor has made.
  pub record IsNew (s : Processor Obj) : Type 0 where
    pub not_inited : s.read_broker.inited ≡ false
    pub not_connected : s.read_broker.connected ≡ false
    pub at_start : s.read_broker.last_doc_id ≡ []
    pub same_broker : s.write_broker ≡ s.read_broker
    pub none_counted : s.write_broker.update_count ≡ 0
    pub no_clients : s.refcount ≡ 0

  abbrev pub Made : Result (Processor Obj) → Type 0
  Made (ok s) = IsNew s
  Made (err e) = Unit {0}

  pub create-Made : (id : Text) → Made (create bson id)
  unfolding create Broker.create Broker.reset Broker.blank
  create-Made id = elim (Bool-cases (is_empty id)) [
    | inl f ↦ simp (f, create) tt
    | inr f ↦
        simp (f, create)
          (record {
            not_inited = refl;
            not_connected = refl;
            at_start = refl;
            same_broker = refl;
            none_counted = refl;
            no_clients = refl;
          })
  ]

  -- What `open` for reading leaves of a new processor.
  pub open_to_read :
      (env : Surroundings Obj) (o : Obj) (s s' : Processor Obj)
      → IsNew s
      → open_processor bson env read_purpose o s ≡ (s', ok tt)
      → IsSetUp bson o s.read_broker s'.read_broker × (s'.read_thread ≡ true) × (s'.refcount ≡ 1)
  unfolding open_processor
  open_to_read env o s s' v e =
      let (b, r) = open_broker bson env.server (some o) s.read_broker in
      let c = v.not_connected in
      elim (Result-cases r) [
        | inr (x, f) ↦ absurd (cc (simp (c, f, open_processor) at e))
        | inl (_, f) ↦
            let t : Processor Obj = record s { read_broker = b; read_thread = true } in
            let u = count_client-Untouched bson read_purpose t in
            subst
              (λ z.
                IsSetUp bson o s.read_broker z.read_broker
                × (z.read_thread ≡ true)
                × (z.refcount ≡ 1))
              (ap (λ z. z.0) (simp (c, f, open_processor) at e))
              (
                rw (u.read_broker) (
                    open_broker-IsSetUp bson env.server o s.read_broker b v.not_inited
                      (ap (λ q. (b, q)) f)),
                u.read_thread,
                refcount-count_client bson read_purpose t ∙ ap (λ n. n + 1) v.no_clients,
              )
      ]

  -- What `open` for writing leaves of one.
  pub open_to_write :
      (env : Surroundings Obj) (o : Obj) (s s' : Processor Obj)
      → IsNew s
      → open_processor bson env write_purpose o s ≡ (s', ok tt)
      → IsSetUp bson o s.write_broker s'.write_broker × (s'.write_thread ≡ true) × (s'.refcount ≡ 1)
  unfolding open_processor
  open_to_write env o s s' v e =
      let (b, r) = open_broker bson env.server (some o) s.write_broker in
      let c = ap (λ b'. b'.connected) v.same_broker ∙ v.not_connected in
      let i = ap (λ b'. b'.inited) v.same_broker ∙ v.not_inited in
      elim (Result-cases r) [
        | inr (x, f) ↦ absurd (cc (simp (c, f, open_processor) at e))
        | inl (_, f) ↦
            let t : Processor Obj = record s { write_broker = b; write_thread = true } in
            let u = count_client-Untouched bson write_purpose t in
            subst
              (λ z.
                IsSetUp bson o s.write_broker z.write_broker
                × (z.write_thread ≡ true)
                × (z.refcount ≡ 1))
              (ap (λ z. z.0) (simp (c, f, open_processor) at e))
              (
                rw (u.write_broker)
                    (open_broker-IsSetUp bson env.server o s.write_broker b i (ap (λ q. (b, q)) f)),
                u.write_thread,
                refcount-count_client bson write_purpose t ∙ ap (λ n. n + 1) v.no_clients,
              )
      ]

  -- A processor that its constructor made, and that a client then opens for reading without an
  -- exception, by options with a positive limit and nothing skipped, on a server that pages the
  -- collection by the condition and the fields of the options: it has its thread of `read` and one
  -- client. Along every run of this thread and of clients that pop, take batches and rewind, what
  -- clients have been given, followed by the queue and the vector backwards, is pages from the
  -- start of the collection, each backwards and one for each query, and again from its start for
  -- each `rewind`.
  pub open_processor-Rewinding :
      (env : Surroundings Obj) (id : Text) (o : Obj) (s s' : Processor Obj) (rows : List Obj)
      (limit : ℕ)
      (serves : Serves bson env.server
        (docset_of bson o)
        (object_field o (codes "conditions"))
        (fields_of bson o)
        rows)
      {rewinds : ℕ} {feed : Feed Obj}
      → create bson id ≡ ok s
      → open_processor bson env read_purpose o s ≡ (s', ok tt)
      → limit_of bson o ≡ pos (suc limit)
      → skip_of bson o ≡ pos 0
      → (r : Passes bson env.server (new_feed s'.read_broker) rewinds feed)
      → (s'.read_thread ≡ true)
        × (s'.refcount ≡ 1)
        × Rewinding bson serves limit
            (queries_before bson r)
            (queries_again bson r)
            []
            rows
            rewinds
            feed
  open_processor-Rewinding env id o s s' rows limit serves {rewinds} {feed} made opened l k r =
      let new = subst Made made (create-Made id) in
      let (v, thread, one) = open_to_read env o s s' new opened in
      (
        thread,
        one,
        subst
            (λ xs.
              Rewinding bson serves limit (queries_before bson r) (queries_again bson r) xs rows
                rewinds feed)
            v.emptied
            (Passes-Rewinding bson serves limit rows s'.read_broker
              (record {
                docset_is = v.docset;
                conditions_are = v.conditions;
                fields_are = v.fields;
                limit_is = v.limit ∙ l;
                skip_is = v.skip ∙ k;
              })
              (Ahead.at_start (v.place ∙ new.at_start) refl) r),
      )

  -- A processor that its constructor made, and that a client then opens for writing without an
  -- exception: it has its thread of `update` and one client. Along every run of this thread and of
  -- clients that write, the updates that were sent go to the collection that the options name, and
  -- are those that some texts stand for, in order, as many as are counted; these texts, one that
  -- was no JSON if the thread has thrown for it, the queue, and the vector backwards are all that
  -- was written, each client's vector backwards.
  pub open_processor-Sending :
      (env : Surroundings Obj) (id : Text) (o : Obj) (s s' : Processor Obj) {outbox : Outbox bson}
      → create bson id ≡ ok s
      → open_processor bson env write_purpose o s ≡ (s', ok tt)
      → Reach bson (new_outbox bson s'.write_broker) outbox
      → (s'.write_thread ≡ true) × (s'.refcount ≡ 1) × Sending bson [] (docset_of bson o) outbox
  open_processor-Sending env id o s s' {outbox} made opened r =
      let new = subst Made made (create-Made id) in
      let (v, thread, one) = open_to_write env o s s' new opened in
      (
        thread,
        one,
        subst (λ d. Sending bson [] d outbox) v.docset
            (subst (λ xs. Sending bson xs s'.write_broker.docset outbox) v.emptied
              (Reach-Sending bson s'.write_broker (v.counted ∙ new.none_counted) r)),
      )
