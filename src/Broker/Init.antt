-- ===== src/Broker/Init.antt =====
-- `init` and `open` of src/broker.cc.
pub mod Ready
pub mod Opened
pub mod SetUp
pub mod Again
use zbroker.Base.{
  ◌+◌, ℤ, pos, true, false, not, ◌∷◌, ◌++◌, Option, none, some, codes, is_empty, length, ltb, eq_ℤ,
  is_negative, int_min, to_size_t, scale, fits_int, decimal_int, if◌then◌else◌, Result, ok, err,
  broker_exception, assertion_failed, undefined_behaviour,
}
use zbroker.Bson.{Bson, Server}
use zbroker.SizedQueue
use zbroker.Broker.{Broker}

abbrev pub default_int : ℤ → ℤ → ℤ
default_int d n = if eq_ℤ n int_min then d else n

-- `m_limit * 5` is undefined where it is no `int`.
unfoldable pub default_queue_size : ℤ → ℤ → Result ℤ
default_queue_size limit queue_size =
    if eq_ℤ queue_size int_min
    then if fits_int (scale 5 limit) then ok (scale 5 limit) else err undefined_behaviour
    else ok queue_size

-- A missing or negative read timeout becomes a second.
unfoldable pub default_timeout : ℤ → ℤ
default_timeout n = if eq_ℤ n int_min then pos 1 else if is_negative n then pos 1 else n

module _ {Obj : Type 0} where
  -- The tests of `init` on what it read.
  unfoldable pub check_options : Broker Obj → Result (Unit {0})
  check_options b =
      if is_empty b.host
      then err (broker_exception (codes "host must not be empty"))
      else if eq_ℤ b.port int_min
      then err (broker_exception (codes "port must be set"))
      else if is_empty b.database
      then err (broker_exception (codes "database must not be empty"))
      else if is_empty b.collection
      then err (broker_exception (codes "collection must not be empty"))
      else ok tt

  -- The rest of `init`: defaults, the name of the collection, the queue.
  unfoldable pub finish_init : Broker Obj → Broker Obj × Result (Unit {0})
  unfolding SizedQueue.clear SizedQueue.set_size
  finish_init b =
      let limit = default_int (pos 1000) b.limit in
      let skip = default_int (pos 0) b.skip in
      elim (default_queue_size limit b.queue_size) [
        | err e ↦ (record b { limit = limit; skip = skip }, err e)
        | ok queue_size ↦ (
          record b {
            limit = limit;
            skip = skip;
            queue_size = queue_size;
            read_timeout = default_timeout b.read_timeout;
            docset = b.database ++ b'.' ∷ b.collection;
            queue = SizedQueue.set_size (to_size_t queue_size) (SizedQueue.clear b.queue);
            inited = true;
          },
          ok tt,
        )
      ]

module _ (bson : Bson) where
  open bson use {Obj, is_empty_object, string_field, int_field, object_field}

  -- What `init` reads from the options before it tests anything.
  unfoldable pub load_options : Obj → Broker Obj → Broker Obj
  load_options o b =
      let parameters = object_field o (codes "parameters") in
      let fields = object_field o (codes "fields") in
      record b {
        options = o;
        host = string_field o (codes "host");
        port = int_field o (codes "port");
        database = string_field o (codes "database");
        collection = string_field o (codes "collection");
        limit = int_field parameters (codes "limit");
        skip = int_field parameters (codes "skip");
        queue_size = int_field parameters (codes "queue_size");
        read_timeout = int_field parameters (codes "read_timeout");
        conditions = object_field o (codes "conditions");
        fields = fields;
        has_fields = not (is_empty_object fields);
      }

  unfoldable pub init_from : Obj → Broker Obj → Broker Obj × Result (Unit {0})
  unfolding load_options
  init_from o b =
      let loaded = load_options o b in
      elim (check_options loaded) [ err e ↦ (loaded, err e) | ok _ ↦ finish_init loaded ]

  -- The options given, or those of the constructor; having neither fails an assertion.
  unfoldable pub init_options : Option Obj → Broker Obj → Broker Obj × Result (Unit {0})
  init_options (some o) b = init_from o b
  init_options none b =
      if is_empty_object b.options then (b, err assertion_failed) else init_from b.options b

  unfoldable pub init : Option Obj → Broker Obj → Broker Obj × Result (Unit {0})
  init options b = elim b.inited [ true ↦ (b, ok tt) | false ↦ init_options options b ]

  -- `open` after `init`: the address goes to a buffer of ten bytes more than the host.
  unfoldable pub connect : Server Obj → Broker Obj → Broker Obj × Result (Unit {0})
  connect server b =
      let address = b.host ++ b':' ∷ decimal_int b.port in
      let named = record b { connection_string = address } in
      if ltb (length b.host + 10) (length address + 1)
      then (b, err undefined_behaviour)
      else (elim (server.connect address) [
        | some errmsg ↦ (named, err (broker_exception errmsg))
        | none ↦ (record named { connected = true }, ok tt)
      ])

  unfoldable pub open_broker : Server Obj → Option Obj → Broker Obj → Broker Obj × Result (Unit {0})
  open_broker server options b =
      let (b', r) = init options b in elim r [ err e ↦ (b', err e) | ok _ ↦ connect server b' ]
