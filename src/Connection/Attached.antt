-- ===== src/Connection/Attached.antt =====
-- The processor of a connection stays in the table: no handler takes one out.
use zbroker.Base.{
  ◌≡◌, refl, ap, sym, ◌∙◌, ◌⊎◌, inl, inr, true, List, [], ◌∷◌, ◌++◌, append_assoc, none, some, Text,
  text_eq, text_eq_iff, ok, Option-cases, Result-cases, Bool-cases,
}
use zbroker.Bson.{Bson}
use zbroker.Processor.{Processor}
use zbroker.Processor.Serving
use zbroker.Connection.{Processors, Connection, lookup, put, find}
use zbroker.Connection.Table.{keys, keys-put}
use zbroker.Connection.Keeps.{Closed}

-- A key among others.
abbrev pub Has : Text → List Text → Type 0
Has id [] = ⊥
Has id (key ∷ rest) = (text_eq id key ≡ true) ⊎ Has id rest

Has-append : (id : Text) (new old : List Text) → Has id old → Has id (new ++ old)
Has-append id [] old h = h
Has-append id (key ∷ new) old h = inr (Has-append id new old h)

text_eq_refl : (s : Text) → text_eq s s ≡ true
text_eq_refl s = (text_eq_iff s s).1 refl

module _ {Obj : Type 0} where
  lookup-some-Has :
      (id : Text) (items : List (Text × Processor Obj)) {p : Processor Obj}
      → lookup id items ≡ some p
      → Has id (keys items)
  unfolding lookup
  lookup-some-Has id [] h = cc
  lookup-some-Has id ((key, p) ∷ items) h = elim (Bool-cases (text_eq id key)) [
    | inl e ↦ inl e
    | inr e ↦ inr (lookup-some-Has id items (rw e at h))
  ]

  Has-lookup :
      (id : Text) (items : List (Text × Processor Obj))
      → Has id (keys items)
      → (p : Processor Obj) × (lookup id items ≡ some p)
  unfolding lookup
  Has-lookup id [] h = absurd h
  Has-lookup id ((key, p) ∷ items) (inl e) = (p, rw e refl)
  Has-lookup id ((key, p) ∷ items) (inr h) = elim (Bool-cases (text_eq id key)) [
    | inl e ↦ (p, rw e refl)
    | inr e ↦ let (q, f) = Has-lookup id items h in (q, rw e f)
  ]

  -- A table has grown: the ids that it had are behind those that are new.
  abbrev pub Grows : Processors Obj → Processors Obj → Type 0
  Grows old t = (new : List Text) × (keys t.items ≡ new ++ keys old.items)

  -- A connection without a processor, or with one of the table.
  abbrev pub Attached : Processors Obj → Connection → Type 0
  Attached t c =
      (c.processor ≡ none) ⊎ ((id : Text) × (c.processor ≡ some id) × Has id (keys t.items))

  pub Grows-refl : (t : Processors Obj) → Grows t t
  Grows-refl t = ([], refl)

  pub Grows-Attached :
      (old t : Processors Obj) (c : Connection) → Grows old t → Attached old c → Attached t c
  Grows-Attached old t c g (inl e) = inl e
  Grows-Attached old t c (new, g) (inr (id, e, h)) = inr (id, e, rw g (Has-append id new _ h))

module _ (bson : Bson) where
  open bson use {Obj}

  find-Grows : (id : Text) (t : Processors Obj) → Grows t (find bson id t).0
  unfolding find
  find-Grows id t = elim (Option-cases (lookup id t.items)) [
    | inr (p, e) ↦ rw (e, find) ([], refl)
    | inl e ↦ elim (Result-cases (Serving.create bson id)) [
      | inr (x, f) ↦ rw (e, f, find) ([], refl)
      | inl (p, f) ↦ rw (e, f, find) (id ∷ [], refl)
    ]
  ]

  find-Has :
      (id : Text) (t : Processors Obj) (p : Processor Obj)
      → (find bson id t).1 ≡ ok p
      → Has id (keys (find bson id t).0.items)
  unfolding find
  find-Has id t p h = elim (Option-cases (lookup id t.items)) [
    | inr (q, e) ↦ rw (e, find) (lookup-some-Has id t.items e)
    | inl e ↦ elim (Result-cases (Serving.create bson id)) [
      | inl (q, f) ↦ rw (e, f, find) (inl (text_eq_refl id))
      | inr (x, f) ↦ absurd (cc (rw (e, f, find) at h))
    ]
  ]

  -- From the table that a handler begins with: it has only grown, and the connection is attached.
  abbrev pub Holds : Processors Obj → Processors Obj → Connection → Type 0
  Holds old t c = Grows old t × Attached t c

  pub Holds-Closed : (old : Processors Obj) → Closed bson (Holds old)
  Holds-Closed old = record {
    puts = λ t c id p (g, a). (
      (g.0, keys-put id p t.items ∙ g.1),
      Grows-Attached t (record t { items = put id p t.items }) c ([], keys-put id p t.items) a,
    );
    finds = λ t c id (g, a).
        let f = find-Grows id t in
        (
          (f.0 ++ g.0, f.1 ∙ ap (◌++◌ f.0) g.1 ∙ sym (append_assoc f.0 g.0 (keys old.items))),
          Grows-Attached t (find bson id t).0 c f a,
        );
    attaches = λ t c id p h (g, a). (g, inr (id, refl, find-Has id t p h));
    detaches = λ t c (g, a). (g, inl refl);
    replies = λ t c reply opened v. v;
    reads = λ t c header raw v. v;
    shuts = λ t c v. v;
  }
