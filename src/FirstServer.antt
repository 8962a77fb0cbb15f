-- ===== src/FirstServer.antt =====
-- src/zbroker.cc, the first server, whose requests and replies are messages of zmq: its
-- `processor`. Its commands and responses have other numbers than those of src/protocol.h; its
-- table of messages is the same. `m_socket` is in no method set; where it is, it has what it was
-- sent.
pub mod Replies
use zbroker.Base.{
  ℕ, ◌+◌, ◌-◌, ◌/◌, ◌%◌, ◌^◌, ◌&&◌, List, [], ◌∷◌, ◌++◌, Option, none, some, Text, codes, length,
  ltb, eq_ℤ, pos, if◌then◌else◌, get_elem?, Result, ok, err, json_error, undefined_behaviour,
}
use zbroker.Bson.{Bson}
use zbroker.Packet.{c_string}
use zbroker.Protocol.{error_messages, max_request_message_size}

-- The members that are used; the brokers are not.
pub record RequestProcessor : Type 0 where
  pub socket : Option (List Text)
  pub request_buf : Option Text
  pub request_buf_size : ℕ

-- `ErrorMax` of this file
abbrev pub error_end : ℕ
error_end = 504

-- `get_request_data`: the message, copied and closed with a 0.
unfoldable get_request_data : Text → RequestProcessor → RequestProcessor × Text
get_request_data request s =
    (record s { request_buf = some request; request_buf_size = length request }, c_string request)

-- The constructor.
unfoldable new_processor : Text → RequestProcessor
unfolding get_request_data
new_processor request =
    (get_request_data request
      (record { socket = none; request_buf = none; request_buf_size = 0 })).0

-- The four bytes of an `unsigned int`, the lowest first.
unfoldable pub int_bytes : ℕ → Text
int_bytes n = n % 256 ∷ n / 2 ^ 8 % 256 ∷ n / 2 ^ 16 % 256 ∷ n / 2 ^ 24 % 256 ∷ []

-- `pack_reply`: the document, and behind it the number of the response.
unfoldable pub pack_reply : Text → ℕ → Text
unfolding int_bytes
pack_reply doc rep = doc ++ int_bytes rep

-- `m_socket->send`
unfoldable send : Text → RequestProcessor → RequestProcessor × Result (Unit {0})
send reply s = elim s.socket [
  | none ↦ (s, err undefined_behaviour)
  | some sent ↦ (record s { socket = some (sent ++ reply ∷ []) }, ok tt)
]

-- `send_error`: the message of an error above the smallest one.
unfoldable pub send_error : ℕ → RequestProcessor → RequestProcessor × Result (Unit {0})
unfolding send
send_error error s =
    if ltb error error_end && ltb 500 error
    then (elim (get_elem? error_messages (error - 500)) [
      | none ↦ (s, err undefined_behaviour)
      | some msg ↦ send msg s
    ])
    else (s, ok tt)

module _ (bson : Bson) where
  open bson use {Obj, int_field, from_json}

  -- `process`: READ is 101 and WRITE is 102.
  unfoldable pub process : Text → RequestProcessor → RequestProcessor × Result (Unit {0})
  unfolding get_request_data
  process request s =
      if ltb max_request_message_size (length request)
      then send_error 502 s
      else (let (s', text) = get_request_data request s in
          elim (from_json text) [
            | none ↦ (s', err json_error)
            | some obj ↦
                let cmd = int_field obj (codes "cmd") in
                if eq_ℤ cmd (pos 101)
                then (s', ok tt)
                else if eq_ℤ cmd (pos 102)
                then send_error 501 s'
                else send_error 500 s'
          ])
