-- ===== src/Server/Faults.antt =====
-- What ends the accepting of a port, and what ends the process.
use zbroker.Base.{
  true, subst, ℕ, ◌≡◌, refl, ◌∙◌, ◌⊎◌, inl, inr, Bool, List, [], ◌∷◌, Option, none, some, Result,
  length, length-set, get_elem?, set, Option-cases, Result-cases,
}
use zbroker.Bson.{Bson}
use zbroker.Processor.{Surroundings}
use zbroker.Connection.{Processors, handle_read_body}
use zbroker.Server.{
  Link, AsioHandler, Event, accepted, header_read, body_read, written, handle_accept, store, handle,
  run,
}
use zbroker.Server.Serving.{Reading-cases}

module _ (bson : Bson) where
  open bson use {Obj, from_json}

  -- What an event changes: nothing, the processors and one link, or what accepting changes.
  Changes : AsioHandler Obj → AsioHandler Obj → Type 0
  Changes h h' =
      (h' ≡ h)
      ⊎ ((t : Processors Obj) × (i : ℕ) × (l : Link) × (h'
            ≡ record h { processors = t; links = set h.links i l }))
      ⊎ ((error : Bool) × (h' ≡ handle_accept error h))

  abbrev Changed : AsioHandler Obj → Option (AsioHandler Obj × Result (Unit {0})) → Type 0
  Changed h none = Unit {0}
  Changed h (some (h', r)) = Changes h h'

  handle-Changed :
      (env : Surroundings Obj) (event : Event) (h : AsioHandler Obj)
      → Changed h (handle bson env event h)
  unfolding handle store Changes
  handle-Changed env (accepted error) h = inr (inr (error, refl))
  handle-Changed env (header_read i bytes) h = elim (Option-cases (get_elem? h.links i)) [
    | inl e ↦ simp (e, handle) (inl refl)
    | inr (link, e) ↦ elim (Reading-cases link.reading) [
      | inl f ↦ simp (e, f, handle) (inr (inl (_, i, _, refl)))
      | inr (inl f) ↦ simp (e, f, handle) (inl refl)
      | inr (inr f) ↦ simp (e, f, handle) (inl refl)
    ]
  ]
  handle-Changed env (body_read i bytes) h = elim (Option-cases (get_elem? h.links i)) [
    | inl e ↦ simp (e, handle) (inl refl)
    | inr (link, e) ↦ elim (Reading-cases link.reading) [
      | inl f ↦ simp (e, f, handle) (inl refl)
      | inr (inr f) ↦ simp (e, f, handle) (inl refl)
      | inr (inl f) ↦
          elim (Option-cases (handle_read_body bson env bytes h.processors link.connection)) [
            | inl g ↦ simp (e, f, g, handle) tt
            | inr (handled, g) ↦ simp (e, f, g, handle) (inr (inl (_, i, _, refl)))
          ]
    ]
  ]
  handle-Changed env (written i error) h = elim (Option-cases (get_elem? h.links i)) [
    | inl e ↦ simp (e, handle) (inl refl)
    | inr (link, e) ↦ simp (e, handle) (inr (inl (h.processors, i, _, refl)))
  ]

  -- No connection waits to be accepted, and there are so many.
  pub record Closing (links count : ℕ) (h : AsioHandler Obj) : Type 0 where
    pub none_waits : h.accepting ≡ none
    pub as_many : length h.links ≡ links
    pub as_counted : h.connection_count ≡ count

  Changes-Closing :
      (links count : ℕ) (h h' : AsioHandler Obj)
      → Changes h h'
      → Closing links count h
      → Closing links count h'
  unfolding Changes handle_accept
  Changes-Closing links count h h' (inl e) v = rw e v
  Changes-Closing links count h h' (inr (inl (t, i, l, e))) v = rw e (record {
    none_waits = v.none_waits;
    as_many = length-set h.links i l ∙ v.as_many;
    as_counted = v.as_counted;
  })
  Changes-Closing links count h h' (inr (inr (error, e))) v =
      let n = v.none_waits in rw e (simp (n, handle_accept) v)

  refused-Closing :
      (h : AsioHandler Obj) → Closing (length h.links) h.connection_count (handle_accept true h)
  unfolding handle_accept
  refused-Closing h = elim (Option-cases h.accepting) [
    | inl e ↦ simp (e, handle_accept) (record { none_waits = e; as_many = refl; as_counted = refl })
    | inr (pro, e) ↦
        simp (e, handle_accept) (record { none_waits = refl; as_many = refl; as_counted = refl })
  ]

  -- A port that accepts no more goes on so.
  Closing-run :
      (events : List (Surroundings Obj × Event)) (links count : ℕ) (h h' : AsioHandler Obj)
      (r : Result (Unit {0}))
      → Closing links count h
      → run bson events h ≡ some (h', r)
      → Closing links count h'
  unfolding run
  Closing-run [] links count h h' r v e = let f : h ≡ h' = cc e in rw (← f) v
  Closing-run ((env, event) ∷ events) links count h h' r v e =
      elim (Option-cases (handle bson env event h)) [
        | inl f ↦ absurd (cc (simp (f, run) at e))
        | inr ((h₁, q), f) ↦
            let w =
              Changes-Closing links count h h₁ (subst (Changed h) f (handle-Changed env event h))
                v in
            elim (Result-cases q) [
              | inl (_, g) ↦ Closing-run events links count h₁ h' r w (simp (f, g, run) at e)
              | inr (x, g) ↦ let k : h₁ ≡ h' = cc (simp (f, g, run) at e) in rw (← k) w
            ]
      ]

  -- After an error of an accept, nothing makes the port accept again: along every run from there no
  -- connection is added or counted, and none waits to be accepted.
  pub run-Closing :
      (env : Surroundings Obj) (events : List (Surroundings Obj × Event)) (h h' : AsioHandler Obj)
      (r : Result (Unit {0}))
      → run bson ((env, accepted true) ∷ events) h ≡ some (h', r)
      → Closing (length h.links) h.connection_count h'
  unfolding run handle
  run-Closing env events h h' r e =
      Closing-run events (length h.links) h.connection_count (handle_accept true h) h' r
        (refused-Closing h) e
