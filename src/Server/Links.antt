-- ===== src/Server/Links.antt =====
-- What the handlers of a port keep of its connections and of their processors.
use zbroker.Base.{
  ◌+◌, ◌%◌, size_mod, ℕ, ◌≡◌, inl, inr, List, [], ◌∷◌, Option, none, some, Result, arith, All-get,
  All-set, get_elem?, Option-cases, Result-cases, subst,
}
use zbroker.Bson.{Bson}
use zbroker.Processor.{Surroundings}
use zbroker.Connection.{Handled, new_connection, handle_read_body}
use zbroker.Connection.Keeps.{After, Afters, handle_read_header_keeps, handle_read_body_keeps}
use zbroker.Connection.Attached.{Grows-refl, Holds, Holds-Closed}
use zbroker.Connection.First.{Unread, Unread-Closed}
use zbroker.Server.{
  Reading, Link, AsioHandler, Event, accepted, header_read, body_read, written, make_connection,
  create, after_header, store, handle, run,
}
use zbroker.Server.Serving.{
  Reading-cases, IsLink, IsServing, store-IsServing, new_connection-IsLink, written-IsLink,
  handle_accept-IsServing,
}

module _ (bson : Bson) where
  open bson use {Obj}

  abbrev Outcome : Option (AsioHandler Obj × Result (Unit {0})) → Type 0
  Outcome none = Unit {0}
  Outcome (some (h, r)) = IsServing h

  handled-IsServing :
      (h : AsioHandler Obj) (i : ℕ) (reading : Reading) (handled : Handled Obj)
      → IsServing h
      → After bson (Unread bson) (Unread-Closed bson) handled
      → After bson (Holds bson h.processors) (Holds-Closed bson h.processors) handled
      → IsServing (store i reading handled h).0
  handled-IsServing h i reading (t, c, r) v (w, e) (g, a) =
      store-IsServing h i reading t c r v w g (e, a)

  -- What a handler of a read leaves, by its two invariants.
  body-IsServing :
      (h : AsioHandler Obj) (i : ℕ) (o : Option (Handled Obj))
      → IsServing h
      → Afters bson (Unread bson) (Unread-Closed bson) o
      → Afters bson (Holds bson h.processors) (Holds-Closed bson h.processors) o
      → (handled : Handled Obj) → o ≡ some handled
      → IsServing (store i Reading.header handled h).0
  body-IsServing h i none v u a handled e = cc
  body-IsServing h i (some x) v u a handled e =
      let f : x ≡ handled = cc e in rw (← f) (handled-IsServing h i Reading.header x v u a)

  link-IsServing :
      (h : AsioHandler Obj) (i : ℕ) (link : Link)
      → IsServing h
      → get_elem? h.links i ≡ some link
      → IsLink h.processors link.connection
  link-IsServing h i link v e =
      All-get (λ l. IsLink h.processors l.connection) h.links i link v.linked e

  handle-IsServing :
      (env : Surroundings Obj) (event : Event) (h : AsioHandler Obj)
      → IsServing h
      → Outcome (handle bson env event h)
  unfolding handle
  handle-IsServing env (accepted error) h v = handle_accept-IsServing error h v
  handle-IsServing env (header_read i bytes) h v = elim (Option-cases (get_elem? h.links i)) [
    | inl e ↦ simp (e, handle) v
    | inr (link, e) ↦ elim (Reading-cases link.reading) [
      | inl f ↦
          let (u, a) = link-IsServing h i link v e in
          simp (e, f, handle)
            (handled-IsServing h i (after_header bytes) _ v
              (handle_read_header_keeps bson (Unread bson) (Unread-Closed bson) env bytes
                h.processors link.connection (v.table, u))
              (handle_read_header_keeps bson (Holds bson h.processors)
                (Holds-Closed bson h.processors) env bytes h.processors link.connection
                (Grows-refl h.processors, a)))
      | inr (inl f) ↦ simp (e, f, handle) v
      | inr (inr f) ↦ simp (e, f, handle) v
    ]
  ]
  handle-IsServing env (body_read i bytes) h v = elim (Option-cases (get_elem? h.links i)) [
    | inl e ↦ simp (e, handle) v
    | inr (link, e) ↦ elim (Reading-cases link.reading) [
      | inl f ↦ simp (e, f, handle) v
      | inr (inr f) ↦ simp (e, f, handle) v
      | inr (inl f) ↦
          let (u, a) = link-IsServing h i link v e in
          let o = handle_read_body bson env bytes h.processors link.connection in
          elim (Option-cases o) [
            | inl g ↦ simp (e, f, g, handle) tt
            | inr (handled, g) ↦
                simp (e, f, g, handle)
                  (body-IsServing h i o v
                    (handle_read_body_keeps bson (Unread bson) (Unread-Closed bson) env bytes
                      h.processors link.connection (v.table, u))
                    (handle_read_body_keeps bson (Holds bson h.processors)
                      (Holds-Closed bson h.processors) env bytes h.processors link.connection
                      (Grows-refl h.processors, a))
                    handled g)
          ]
    ]
  ]
  handle-IsServing env (written i error) h v = elim (Option-cases (get_elem? h.links i)) [
    | inl e ↦ simp (e, handle) v
    | inr (link, e) ↦
        let (u, a) = link-IsServing h i link v e in
        simp (e, handle)
          (record {
            table = v.table;
            linked =
                All-set (λ l. IsLink h.processors l.connection) h.links i _ v.linked
                  (written-IsLink error h.processors link.connection u a);
            waiting = v.waiting;
          })
  ]

  create-IsServing : (garbage : ℕ) → IsServing (create {Obj = Obj} garbage)
  unfolding create make_connection
  create-IsServing garbage = record {
    table = record { are_keys = tt; counted = omega arith };
    linked = tt;
    waiting = λ c f.
        let g : new_connection ((garbage + 1) % size_mod) ≡ c = cc f in
        rw (← g) (
          new_connection-IsLink {Obj = Obj} ((garbage + 1) % size_mod)
            (record { items = []; processor_count = 0 }));
  }

  run-IsServing :
      (events : List (Surroundings Obj × Event)) (h h' : AsioHandler Obj) (r : Result (Unit {0}))
      → IsServing h
      → run bson events h ≡ some (h', r)
      → IsServing h'
  unfolding run
  run-IsServing [] h h' r v e = let f : h ≡ h' = cc e in rw (← f) v
  run-IsServing ((env, event) ∷ events) h h' r v e = elim (Option-cases (handle bson env event h)) [
    | inl f ↦ absurd (cc (simp (f, run) at e))
    | inr ((h₁, q), f) ↦
        let w = subst Outcome f (handle-IsServing env event h v) in
        elim (Result-cases q) [
          | inl (_, g) ↦ run-IsServing events h₁ h' r w (simp (f, g, run) at e)
          | inr (x, g) ↦ let k : h₁ ≡ h' = cc (simp (f, g, run) at e) in rw (← k) w
        ]
  ]

  -- Along every run of the handlers of a port from its constructor, whatever the number of
  -- connections held before it: the ids of the processors are different and not empty and all are
  -- counted, and every connection has read no packet id and has no processor, or one of the table,
  -- so that none of their pointers dangles.
  pub run-create-IsServing :
      (garbage : ℕ) (events : List (Surroundings Obj × Event)) (h : AsioHandler Obj)
      (r : Result (Unit {0}))
      → run bson events (create garbage) ≡ some (h, r)
      → IsServing h
  run-create-IsServing garbage events h r e =
      run-IsServing events (create garbage) h r (create-IsServing garbage) e
