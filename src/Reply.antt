-- ===== src/Reply.antt =====
-- The packet helpers of src/asio_processor.cc: requests are parsed, and replies are built and
-- packed.
pub mod Listing
pub mod Sent
use zbroker.Base.{
  ℕ, suc, ◌+◌, ℤ, pos, Bool, false, ◌&&◌, List, [], ◌∷◌, ◌++◌, Option, none, some, Text, codes,
  length, ltb, is_empty, eq_ℤ, if◌then◌else◌, decimal, Result, ok, err, json_error,
  undefined_behaviour, leb,
}
use zbroker.Bson.{Bson}
use zbroker.Protocol.{
  Command, open_cmd, close_cmd, read_cmd, write_cmd, rewind_cmd, Response, unknown_command,
  response_too_long, success, response_code,
}
use zbroker.Packet.{OutPacket, set_body, pack, max_body_length}

-- `(Command)n`
unfoldable pub command_of : ℤ → Command
command_of n =
    if eq_ℤ n (pos 100)
    then open_cmd
    else if eq_ℤ n (pos 101)
    then close_cmd
    else if eq_ℤ n (pos 102)
    then read_cmd
    else if eq_ℤ n (pos 103)
    then write_cmd
    else if eq_ℤ n (pos 106)
    then rewind_cmd
    else Command.other n

-- `cmd <= MaxCmd && cmd >= MinCmd`
unfoldable pub in_command_range : ℤ → Bool
in_command_range (ℤ.pos n) = leb n 106 && leb 100 n
in_command_range (ℤ.negsuc n) = false

-- One entry of the text that `toBSONObj` builds, with what closes it.
unfoldable pub entry : ℕ → Text → Text → Text
entry i doc closing = b'"' ∷ decimal i ++ (codes "\" : " ++ (doc ++ closing))

-- The buffer as its check leaves it: `pad` is 36.
abbrev pub grown : ℕ → Text → ℕ
grown buffer_len doc = if ltb buffer_len (length doc + 36) then length doc + 36 else buffer_len

-- `sprintf` into a buffer of so many bytes, its closing 0 included.
unfoldable pub print_into : ℕ → Text → Text → Result Text
print_into buffer_len tmp text =
    if ltb buffer_len (length text + 1) then err undefined_behaviour else ok (tmp ++ text)

-- The loop of `toBSONObj` and the entry after it: the index, the length of the buffer, the document
-- at the index, those after it, and the text so far. The last document is printed unchecked.
unfoldable pub entries : ℕ → ℕ → Text → List Text → Text → Result Text
entries i buffer_len doc [] tmp = print_into buffer_len tmp (entry i doc (codes " }"))
entries i buffer_len doc (next ∷ rest) tmp =
    elim (print_into (grown buffer_len doc) tmp (entry i doc (codes ","))) [
      | err e ↦ err e
      | ok tmp' ↦ entries (suc i) (grown buffer_len doc) next rest tmp'
    ]

-- The text of `toBSONObj`; with no document it reads one that is not there.
unfoldable pub listing_text : List Text → Result Text
listing_text [] = err undefined_behaviour
listing_text (doc ∷ rest) = entries 0 2048 doc rest (codes "{ ")

module _ (bson : Bson) where
  open bson use {
    Obj, empty_object, is_empty_object, int_field, object_field, json_string, from_json, append_int,
    append_text, append_object, append_elements,
  }

  -- `parse_request`: the response, the command, and the body if there is one. It throws on what is
  -- no JSON.
  unfoldable pub parse_request : Text → Result (Response × Command × Obj)
  parse_request json = elim (from_json json) [
    | none ↦ err json_error
    | some request ↦
        let code = int_field request (codes "cmd") in
        if in_command_range code
        then ok (success, command_of code, object_field request (codes "body"))
        else ok (unknown_command, command_of code, empty_object)
  ]

  unfoldable pub to_bson : List Text → Result Obj
  to_bson docs = elim (listing_text docs) [
    | err e ↦ err e
    | ok text ↦ elim (from_json text) [ none ↦ err json_error | some obj ↦ ok obj ]
  ]

  -- `init_response_builder`, from what the builder holds.
  unfoldable pub init_response_builder : Obj → Response → Option Obj → Text → Obj
  init_response_builder builder res returned extra =
      let coded = append_int builder (codes "response") (pos (response_code res)) in
      let noted = if is_empty extra then coded else append_text coded (codes "extra") extra in
      elim returned [
        | none ↦ noted
        | some obj ↦ if is_empty_object obj then noted else append_elements noted obj
      ]

  -- The body of a reply: what is too long gives way to its response code.
  unfoldable pub response_json : Obj → Text
  response_json builder =
      let json = json_string builder in
      if ltb (length json) max_body_length
      then json
      else json_string
          (append_int empty_object (codes "response") (pos (response_code response_too_long)))

  unfoldable pub get_response_string : OutPacket → Obj → Result (OutPacket × Text)
  get_response_string packet builder = pack (set_body (response_json builder) packet)

  -- `pack_response` with an optional object.
  unfoldable pub pack_response :
      OutPacket → Response → Text → Option Obj → Result (OutPacket × Text)
  pack_response packet res extra returned =
      get_response_string packet (init_response_builder empty_object res returned extra)

  -- `pack_response` with documents, which it adds to a success only.
  unfoldable pub pack_documents :
      OutPacket → Response → List Text → Text → Result (OutPacket × Text)
  pack_documents packet success (doc ∷ docs) extra = elim (to_bson (doc ∷ docs)) [
    | err e ↦ err e
    | ok listed ↦ get_response_string packet (
        append_object (init_response_builder empty_object success none extra) (codes "docs") listed)
  ]
  pack_documents packet res docs extra =
      get_response_string packet (init_response_builder empty_object res none extra)
