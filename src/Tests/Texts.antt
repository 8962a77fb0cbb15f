-- ===== src/Tests/Texts.antt =====
-- Replies of both servers, on small texts.
use zbroker.Base.{◌≡◌, codes, arith}
use zbroker.FirstServer.{pack_reply}
use zbroker.FirstServer.Replies.{reply_doc, reply_code, pack_reply-read}

pack_reply-read_example :
    (reply_doc (pack_reply (codes "{}") 503) ≡ codes "{}")
    × (reply_code (pack_reply (codes "{}") 503) ≡ 503)
pack_reply-read_example = pack_reply-read (codes "{}") 503 (omega arith)
