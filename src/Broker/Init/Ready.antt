-- ===== src/Broker/Init/Ready.antt =====
-- What `init` and `open` of src/broker.cc leave behind, in success and in failure.
use zbroker.Base.{
  assertion_failed, Bool-cases, ◌∙◌, Result-cases, ℤ, pos, ◌≡◌, ◌≢◌, refl, ◌⊎◌, inl, inr, true,
  false, List, [], ◌∷◌, ◌++◌, Option, none, some, arith, Result, ok, err, Error, int_min,
  is_negative, to_size_t, is_empty, eq_ℤ,
}
use zbroker.Bson.{Bson}
use zbroker.Broker.{Broker}
use zbroker.Broker.Init.{
  default_int, default_timeout, check_options, finish_init, load_options, init_from, init_options,
  init, default_queue_size,
}

-- A broker whose options were read and are complete.
pub record IsReady {Obj : Type 0} (b : Broker Obj) : Type 0 where
  pub inited : b.inited ≡ true
  pub host : b.host ≢ []
  pub port : b.port ≢ int_min
  pub database : b.database ≢ []
  pub collection : b.collection ≢ []
  pub docset : b.docset ≡ b.database ++ b'.' ∷ b.collection
  pub read_timeout : is_negative b.read_timeout ≡ false
  pub emptied : b.queue.items ≡ []
  pub limited : b.queue.limit_size ≡ to_size_t b.queue_size

not-empty_ne-nil {ℓ} : {A : Type ℓ} (xs : List A) → is_empty xs ≡ false → xs ≢ []
not-empty_ne-nil [] h = cc
not-empty_ne-nil (x ∷ xs) h = λ e. cc

eq_ℤ-refl : (n : ℤ) → eq_ℤ n n ≡ true
eq_ℤ-refl (ℤ.pos n) = ground arith
eq_ℤ-refl (ℤ.negsuc n) = ground arith

ne_of_eq_ℤ : (m n : ℤ) → eq_ℤ m n ≡ false → m ≢ n
ne_of_eq_ℤ m n h e = cc (h, eq_ℤ-refl n)

default_timeout_nonneg : (n : ℤ) → is_negative (default_timeout n) ≡ false
unfolding default_timeout
default_timeout_nonneg (ℤ.pos n) = ground arith
default_timeout_nonneg (ℤ.negsuc n) = ground arith

module _ {Obj : Type 0} where
  -- What the tests let through.
  pub record Complete (b : Broker Obj) : Type 0 where
    pub host : is_empty b.host ≡ false
    pub port : eq_ℤ b.port int_min ≡ false
    pub database : is_empty b.database ≡ false
    pub collection : is_empty b.collection ≡ false

  check_options-Complete : (b : Broker Obj) → check_options b ≡ ok tt → Complete b
  unfolding check_options
  check_options-Complete b h = ground arith

  finish_init-IsReady :
      (b : Broker Obj)
      → Complete b
      → ((finish_init b).1 ≡ ok tt) × IsReady (finish_init b).0
        ⊎ ((e : Error) × ((finish_init b).1 ≡ err e)
            × ((finish_init b).0.inited ≡ b.inited)
            × ((finish_init b).0.connected ≡ b.connected)
            × ((finish_init b).0.queue ≡ b.queue))
  unfolding finish_init
  finish_init-IsReady b c =
      elim (Result-cases (default_queue_size (default_int (pos 1000) b.limit) b.queue_size)) [
        | inl (q, e) ↦
            rw (e, finish_init)
              (inl (
                refl,
                record {
                  inited = refl;
                  host = not-empty_ne-nil b.host c.host;
                  port = ne_of_eq_ℤ b.port int_min c.port;
                  database = not-empty_ne-nil b.database c.database;
                  collection = not-empty_ne-nil b.collection c.collection;
                  docset = refl;
                  read_timeout = default_timeout_nonneg b.read_timeout;
                  emptied = refl;
                  limited = refl;
                },
              ))
        | inr (e', e) ↦ rw (e, finish_init) (inr (e', refl, refl, refl, refl))
      ]

  -- How a call of `init` on a broker that was not inited ends.
  pub data InitEnds (b : Broker Obj) (r : Broker Obj × Result (Unit {0})) : Type 0 where
    ready : r.1 ≡ ok tt → IsReady r.0 → InitEnds b r
    failed :
        (e : Error)
        → r.1 ≡ err e
        → r.0.inited ≡ false
        → r.0.connected ≡ b.connected
        → r.0.queue ≡ b.queue
        → InitEnds b r

module _ (bson : Bson) where
  open bson use {Obj, is_empty_object}

  init_from-InitEnds :
      (o : Obj) (b : Broker Obj) → b.inited ≡ false → InitEnds b (init_from bson o b)
  unfolding init_from
  init_from-InitEnds o b h = elim (Result-cases (check_options (load_options bson o b))) [
    | inl (_, e) ↦
        rw (e, init_from)
          (elim (finish_init-IsReady (load_options bson o b) (check_options-Complete _ e)) [
            | inl (r, v) ↦ ready r v
            | inr (e', r, i, c, q) ↦ failed e' r (i ∙ h) c q
          ])
    | inr (e', e) ↦ rw (e, init_from) (failed e' refl h refl refl)
  ]

  init_fresh :
      (options : Option Obj) (b : Broker Obj)
      → b.inited ≡ false
      → init bson options b ≡ init_options bson options b
  unfolding init
  init_fresh options b h = simp (h, init)

  init_options-InitEnds :
      (options : Option Obj) (b : Broker Obj)
      → b.inited ≡ false
      → InitEnds b (init_options bson options b)
  unfolding init_options
  init_options-InitEnds (some o) b h = init_from-InitEnds o b h
  init_options-InitEnds none b h = elim (Bool-cases (is_empty_object b.options)) [
    | inl e ↦ rw (e, init_options) (failed assertion_failed refl h refl refl)
    | inr e ↦ rw (e, init_options) (init_from-InitEnds b.options b h)
  ]

  -- `init` of a broker that was not inited: either it succeeds, and the broker then has a host, a
  -- port, a database and a collection, is named after the last two, has a read timeout that is not
  -- negative, and an empty queue with the limit of its queue size; or it throws, and the broker is
  -- still not inited, with its queue and its connection as they were.
  pub init-InitEnds :
      (options : Option Obj) (b : Broker Obj) → b.inited ≡ false → InitEnds b (init bson options b)
  init-InitEnds options b h = rw (init_fresh options b h) (init_options-InitEnds options b h)
