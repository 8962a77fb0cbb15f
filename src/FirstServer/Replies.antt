-- ===== src/FirstServer/Replies.antt =====
-- The replies of the first server: how they are read, and which requests get one.
use zbroker.Base.{
  ℕ, ◌+◌, ◌-◌, ◌*◌, ◌^◌, ◌<◌, ◌≤◌, ◌≡◌, ap, ◌∙◌, inl, inr, false, ◌∷◌, ◌++◌, some, Text, codes,
  length, length-append, take, drop, take-append, drop-append, eq_ℤ, pos, ok, arith, Bool-cases,
  le→ltb,
}
use zbroker.Bson.{Bson}
use zbroker.Packet.{c_string}
use zbroker.Protocol.{max_request_message_size}
use zbroker.FirstServer.{RequestProcessor, int_bytes, pack_reply, send_error, process}

-- How a client reads a reply (test/zbroker_client.rb): the number in its last four bytes, the
-- lowest first, and what stands before them.
abbrev pub number_of : Text → ℕ
number_of (a ∷ b ∷ c ∷ d ∷ rest) = a + b * 2 ^ 8 + c * 2 ^ 16 + d * 2 ^ 24
number_of _ = 0

abbrev pub reply_code : Text → ℕ
reply_code reply = number_of (drop (length reply - 4) reply)

abbrev pub reply_doc : Text → Text
reply_doc reply = take (length reply - 4) reply

-- A reply that the first server packs is read back: the document, whatever it is, and the number,
-- if it is one of 32 bits.
pub pack_reply-read :
    (doc : Text) (rep : ℕ)
    → rep < 2 ^ 32
    → (reply_doc (pack_reply doc rep) ≡ doc) × (reply_code (pack_reply doc rep) ≡ rep)
unfolding pack_reply
pack_reply-read doc rep h =
    let n : length doc ≡ length (doc ++ int_bytes rep) - 4 =
      omega (arith, length-append doc (int_bytes rep)) in
    (
      take-append (length (doc ++ int_bytes rep) - 4) doc (int_bytes rep) n,
      ap number_of (drop-append (length (doc ++ int_bytes rep) - 4) doc (int_bytes rep) n)
          ∙ omega arith,
    )

module _ (bson : Bson) where
  open bson use {Obj, int_field, from_json}

  -- A request of at most 1 MB whose command is not WRITE gets no reply at all, be it READ or a
  -- command that does not exist: the socket has been sent what it had been.
  process_unanswered :
      (request : Text) (obj : Obj) (s : RequestProcessor)
      → length request ≤ max_request_message_size
      → from_json (c_string request) ≡ some obj
      → eq_ℤ (int_field obj (codes "cmd")) (pos 102) ≡ false
      → process bson request s
        ≡ (record s { request_buf = some request; request_buf_size = length request }, ok tt)
  unfolding process send_error
  process_unanswered request obj s l e n =
      elim (Bool-cases (eq_ℤ (int_field obj (codes "cmd")) (pos 101))) [
        | inl f ↦ simp (le→ltb max_request_message_size (length request) l, e, f, process)
        | inr f ↦ simp (le→ltb max_request_message_size (length request) l, e, f, n, process)
      ]
