-- ===== src/Broker/Init/SetUp.antt =====
-- What `init` and `open` of src/broker.cc make of the options for the queries that follow.
use zbroker.Base.{
  ◌+◌, ◌≡◌, refl, ap, inl, inr, ℤ, pos, Bool-cases, Option-cases, Result-cases, Option, none, some,
  Text, [], ◌∷◌, ◌++◌, codes, not, ok, if◌then◌else◌, ltb, length, decimal_int, true, false, subst,
}
use zbroker.Bson.{Bson, Server}
use zbroker.Broker.{Broker, check_status}
use zbroker.Broker.Init.{
  default_int, default_queue_size, check_options, finish_init, load_options, init_from,
  init_options, init, connect, open_broker,
}

module _ (bson : Bson) where
  open bson use {Obj, is_empty_object, string_field, int_field, object_field}

  -- The name of the collection that the options give, and the fields.
  abbrev pub docset_of : Obj → Text
  docset_of o = string_field o (codes "database") ++ b'.' ∷ string_field o (codes "collection")

  abbrev pub fields_of : Obj → Option Obj
  fields_of o =
      let fields = object_field o (codes "fields") in
      if not (is_empty_object fields) then some fields else none

  abbrev pub limit_of : Obj → ℤ
  limit_of o =
      default_int (pos 1000) (int_field (object_field o (codes "parameters")) (codes "limit"))

  abbrev pub skip_of : Obj → ℤ
  skip_of o = default_int (pos 0) (int_field (object_field o (codes "parameters")) (codes "skip"))

  -- A broker that was opened by these options, and what it keeps of the broker before.
  pub record IsSetUp (o : Obj) (before b : Broker Obj) : Type 0 where
    pub is_open : check_status b ≡ ok tt
    pub docset : b.docset ≡ docset_of o
    pub conditions : b.conditions ≡ object_field o (codes "conditions")
    pub fields : (if b.has_fields then some b.fields else none) ≡ fields_of o
    pub limit : b.limit ≡ limit_of o
    pub skip : b.skip ≡ skip_of o
    pub emptied : b.queue.items ≡ []
    pub place : b.last_doc_id ≡ before.last_doc_id
    pub counted : b.update_count ≡ before.update_count

  -- A broker that was inited by these options.
  record IsLoaded (o : Obj) (before b : Broker Obj) : Type 0 where
    pub inited : b.inited ≡ true
    pub docset : b.docset ≡ docset_of o
    pub conditions : b.conditions ≡ object_field o (codes "conditions")
    pub fields : (if b.has_fields then some b.fields else none) ≡ fields_of o
    pub limit : b.limit ≡ limit_of o
    pub skip : b.skip ≡ skip_of o
    pub emptied : b.queue.items ≡ []
    pub place : b.last_doc_id ≡ before.last_doc_id
    pub counted : b.update_count ≡ before.update_count

  init_from-IsLoaded :
      (o : Obj) (b : Broker Obj)
      → (init_from bson o b).1 ≡ ok tt
      → IsLoaded o b (init_from bson o b).0
  unfolding init_from finish_init load_options
  init_from-IsLoaded o b e =
      let loaded = load_options bson o b in
      elim (Result-cases (check_options loaded)) [
        | inr (x, f) ↦ absurd (cc (simp (f, init_from) at e))
        | inl (_, f) ↦ elim (Result-cases (default_queue_size (limit_of o) loaded.queue_size)) [
          | inr (x, g) ↦ absurd (cc (simp (f, g, init_from, finish_init) at e))
          | inl (n, g) ↦
              simp (f, g, init_from, finish_init)
                (record {
                  inited = refl;
                  docset = refl;
                  conditions = refl;
                  fields = refl;
                  limit = refl;
                  skip = refl;
                  emptied = refl;
                  place = refl;
                  counted = refl;
                })
        ]
      ]

  connect-IsSetUp :
      (server : Server Obj) (o : Obj) (before b : Broker Obj)
      → IsLoaded o before b
      → (connect bson server b).1 ≡ ok tt
      → IsSetUp o before (connect bson server b).0
  unfolding connect check_status
  connect-IsSetUp server o before b v e =
      let address = b.host ++ b':' ∷ decimal_int b.port in
      elim (Bool-cases (ltb (length b.host + 10) (length address + 1))) [
        | inl f ↦ absurd (cc (simp (f, connect) at e))
        | inr f ↦ elim (Option-cases (server.connect address)) [
          | inr (x, g) ↦ absurd (cc (simp (f, g, connect) at e))
          | inl g ↦
              simp (f, g, connect)
                (record {
                  is_open = simp (v.inited);
                  docset = v.docset;
                  conditions = v.conditions;
                  fields = v.fields;
                  limit = v.limit;
                  skip = v.skip;
                  emptied = v.emptied;
                  place = v.place;
                  counted = v.counted;
                })
        ]
      ]

  -- `open` of a broker that was not inited, with options, and without an exception.
  pub open_broker-IsSetUp :
      (server : Server Obj) (o : Obj) (b b' : Broker Obj)
      → b.inited ≡ false
      → open_broker bson server (some o) b ≡ (b', ok tt)
      → IsSetUp o b b'
  unfolding open_broker init init_options
  open_broker-IsSetUp server o b b' i e = elim (Result-cases (init_from bson o b).1) [
    | inr (x, f) ↦ absurd (cc (simp (i, f, open_broker, init, init_options) at e))
    | inl (_, f) ↦
        let opened = simp (i, f, open_broker, init, init_options) at e in
        subst (IsSetUp o b) (ap (λ r. r.0) opened)
          (connect-IsSetUp server o b _ (init_from-IsLoaded o b f) (ap (λ r. r.1) opened))
  ]
