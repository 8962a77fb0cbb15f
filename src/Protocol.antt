-- ===== src/Protocol.antt =====
-- src/protocol.h: the commands, the purposes, the responses and the table of error messages.
use zbroker.Base.{ℕ, ℤ, pos, negsuc, List, [], ◌∷◌, Text, codes}

-- `(Command)n` keeps any number; these are the named ones.
abbrev pub error_cmd : ℤ
error_cmd = negsuc 0

abbrev pub min_cmd : ℤ
min_cmd = pos 100

abbrev pub max_cmd : ℤ
max_cmd = pos 106

pub data Command : Type 0 where
  open_cmd close_cmd read_cmd write_cmd rewind_cmd : Command
  other : ℤ → Command

pub data Purpose : Type 0 where
  read_purpose write_purpose : Purpose
  other : ℤ → Purpose

pub data Response : Type 0 where
  unknown_command unimplemented request_too_long no_more_item response_too_long already_open
        success :
      Response

abbrev pub min_error : ℕ
min_error = 500

abbrev pub error_max : ℕ
error_max = 506

-- `(int)response`
unfoldable pub response_code : Response → ℕ
response_code unknown_command = 500
response_code unimplemented = 501
response_code request_too_long = 502
response_code no_more_item = 503
response_code response_too_long = 504
response_code already_open = 505
response_code success = 200

abbrev pub max_request_message_size : ℕ
max_request_message_size = 1048576

-- `error_messages`
abbrev pub error_messages : List Text
error_messages =
    codes "Command not found"
    ∷ codes "Command unimplemented yet!"
    ∷ codes "Request body exceed limit(1MB)!"
    ∷ codes "No more items!"
    ∷ codes "Internal Error(invalid error code)"
    ∷ []
