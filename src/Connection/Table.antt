-- ===== src/Connection/Table.antt =====
-- The table of processors: what `find` and a change of a processor keep of it.
use zbroker.Base.{
  ◌≤◌, ◌≡◌, refl, ap, inl, inr, false, List, [], ◌∷◌, none, Text, length, text_eq, is_empty, ok,
  arith, Option-cases, Result-cases, Bool-cases,
}
use zbroker.Bson.{Bson}
use zbroker.Processor.{Processor}
use zbroker.Processor.Serving
use zbroker.Connection.{Processors, lookup, put, find}

-- A key that is none of those.
abbrev pub Fresh : Text → List Text → Type 0
Fresh id [] = Unit {0}
Fresh id (key ∷ keys) = (text_eq id key ≡ false) × Fresh id keys

-- Keys that are not empty and all different.
abbrev pub AreKeys : List Text → Type 0
AreKeys [] = Unit {0}
AreKeys (key ∷ keys) = (is_empty key ≡ false) × Fresh key keys × AreKeys keys

module _ {Obj : Type 0} where
  abbrev pub keys : List (Text × Processor Obj) → List Text
  keys [] = []
  keys ((key, p) ∷ items) = key ∷ keys items

  -- A table of processors: its ids are not empty and all different, and it has counted them all.
  pub record IsTable (t : Processors Obj) : Type 0 where
    pub are_keys : AreKeys (keys t.items)
    pub counted : length (keys t.items) ≤ t.processor_count

  pub keys-put :
      (id : Text) (p : Processor Obj) (items : List (Text × Processor Obj))
      → keys (put id p items) ≡ keys items
  unfolding put
  keys-put id p [] = refl
  keys-put id p ((key, old) ∷ items) = elim (Bool-cases (text_eq id key)) [
    | inl e ↦ rw e refl
    | inr e ↦ rw e (ap (◌∷◌ key) (keys-put id p items))
  ]

  -- A processor of the table may change.
  pub put-IsTable :
      (t : Processors Obj) (id : Text) (p : Processor Obj)
      → IsTable t
      → IsTable (record t { items = put id p t.items })
  put-IsTable t id p v = record {
    are_keys = rw (keys-put id p t.items) v.are_keys;
    counted = rw (keys-put id p t.items) v.counted;
  }

  lookup-none-Fresh :
      (id : Text) (items : List (Text × Processor Obj))
      → lookup id items ≡ none
      → Fresh id (keys items)
  unfolding lookup
  lookup-none-Fresh id [] h = tt
  lookup-none-Fresh id ((key, p) ∷ items) h = ground (arith, lookup-none-Fresh id items)

  -- The empty id is never in a table.
  pub lookup-nil :
      (items : List (Text × Processor Obj)) → AreKeys (keys items) → lookup [] items ≡ none
  unfolding lookup text_eq
  lookup-nil [] h = refl
  lookup-nil (([], p) ∷ items) (e, _, _) = cc e
  lookup-nil ((c ∷ key, p) ∷ items) (_, _, h) = lookup-nil items h

module _ (bson : Bson) where
  open bson use {Obj}

  create_ok : (id : Text) (p : Processor Obj) → Serving.create bson id ≡ ok p → is_empty id ≡ false
  unfolding Serving.create
  create_ok id p h = ground arith

  -- `find` keeps a table.
  pub find-IsTable : (id : Text) (t : Processors Obj) → IsTable t → IsTable (find bson id t).0
  unfolding find
  find-IsTable id t v = elim (Option-cases (lookup id t.items)) [
    | inr (p, e) ↦ rw (e, find) v
    | inl e ↦ elim (Result-cases (Serving.create bson id)) [
      | inr (x, f) ↦
          rw (e, f, find) (record { are_keys = v.are_keys; counted = omega (arith, v.counted) })
      | inl (p, f) ↦
          rw (e, f, find)
            (record {
              are_keys = (create_ok id p f, lookup-none-Fresh id t.items e, v.are_keys);
              counted = omega (arith, v.counted);
            })
    ]
  ]
