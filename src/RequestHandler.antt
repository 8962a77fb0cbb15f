-- ===== src/RequestHandler.antt =====
-- src/request_handler.hpp and src/request_handler.cc: the constructor and `init`. The rest of the
-- file uses names that are nowhere declared.
pub mod Config
use zbroker.Base.{
  ℤ, ◌+◌, ◌≤◌, ◌≡◌, true, [], ◌∷◌, ◌++◌, Option, none, some, Text, codes, length, length-append,
  ltb, le→ltb, if◌then◌else◌, decimal_int, fits_int, length-decimal_int-le, Result, ok, err,
  undefined_behaviour, arith,
}
use zbroker.Packet.{length-c_string-le, c_string}

-- `broker_config` of src/broker_config.hpp
pub record BrokerConfig : Type 0 where
  pub mongo_host : Text
  pub mongo_port : ℤ
  pub broker_listen_ip : Text
  pub broker_listen_port : ℤ

-- The members of `request_handler`, but for the zmq context and socket.
pub record RequestHandler : Type 0 where
  pub config : Option BrokerConfig
  pub config_file : Text
  pub endpoint : Text

unfoldable pub create : Text → RequestHandler
create config_file = record { config = none; config_file = config_file; endpoint = [] }

-- `init`: `load_yaml` reads the configuration of a file, or throws. The endpoint goes through a
-- buffer of 64 bytes more than the address.
unfoldable pub init :
    (Text → Result BrokerConfig) → RequestHandler → RequestHandler × Result (Unit {0})
init load_yaml h = elim (load_yaml h.config_file) [
  | err e ↦ (h, err e)
  | ok config ↦
      let tmp =
        codes "tcp://"
        ++ (c_string config.broker_listen_ip ++ b':' ∷ decimal_int config.broker_listen_port) in
      let read = record h { config = some config } in
      if ltb (length config.broker_listen_ip + 64) (length tmp + 1)
      then (read, err undefined_behaviour)
      else (record read { endpoint = tmp }, ok tt)
]

-- With a configuration that is read and a port that is an int, `init` does not overrun its buffer,
-- whatever the address: the endpoint is "tcp://address:port".
init-endpoint :
    (load_yaml : Text → Result BrokerConfig) (h : RequestHandler) (config : BrokerConfig)
    → load_yaml h.config_file ≡ ok config
    → fits_int config.broker_listen_port ≡ true
    → init load_yaml h ≡ (
      record h {
        config = some config;
        endpoint =
            codes "tcp://"
            ++ (c_string config.broker_listen_ip ++ b':' ∷ decimal_int config.broker_listen_port);
      },
      ok tt,
    )
unfolding init
init-endpoint load_yaml h config e f = simp (
  e,
  init,
  le→ltb (length config.broker_listen_ip + 64)
      (length (
          codes "tcp://"
          ++ (c_string config.broker_listen_ip ++ b':' ∷ decimal_int config.broker_listen_port))
        + 1)
      (omega (
        arith,
        length-c_string-le config.broker_listen_ip,
        length-decimal_int-le config.broker_listen_port f,
        length-append (c_string config.broker_listen_ip)
            (b':' ∷ decimal_int config.broker_listen_port),
      )),
)
