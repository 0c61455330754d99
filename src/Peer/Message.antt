-- ===== src/Peer/Message.antt =====
-- peer/message.go: the framing of messages and the payloads of requests, pieces and haves. A reader
-- is the list of the bytes that are still to come, and writing appends to such a list.
pub mod Framing
use stor.Prelude.{
  ℕ, zero, suc, ◌+◌, ◌-◌, ◌*◌, ◌%◌, ◌^◌, ◌≤◌, ◌<◌, Bool, true, false, if◌then◌else◌, ◌==◌, ltb, leb,
  [], ◌∷◌, ◌++◌, List, length, take, drop,
}
use stor.Prelude.Words.{Bytes, put_uint32, uint32_at}
use stor.Peer.MsgId

pub record Message : Type 0 where
  pub id : ℕ
  pub payload : Bytes

-- `io.EOF` and `io.ErrUnexpectedEOF` come from io.ReadFull; `too_short` is a payload that a parser
-- refuses.
pub data Error : Type 0 where
  eof unexpected_eof too_large too_short : Error

-- What one call of ReadMessage gives, with the bytes that are left.
pub data Read : Type 0 where
  message : Message → Bytes → Read
  keep_alive : Bytes → Read
  failed : Error → Read

-- `io.ReadFull`: `short` is the error when fewer bytes are left than wanted.
abbrev short : Bytes → Error
short [] = eof
short (b ∷ r) = unexpected_eof

-- The body of a message of that length, which is not 0.
unfoldable pub read_body : ℕ → Bytes → Read
read_body len [] = failed eof
read_body len (b ∷ r) =
    if ltb (length (b ∷ r)) len
    then failed unexpected_eof
    else message (record { id = b; payload = take (len - 1) r }) (drop (len - 1) r)

abbrev pub max_message : ℕ
max_message = 4 * 1024 * 1024

unfoldable pub read_message : Bytes → Read
read_message r =
    if ltb (length r) 4
    then failed (short r)
    else let len = uint32_at r 0 in
      if len == 0
      then keep_alive (drop 4 r)
      else if ltb max_message len
      then failed too_large
      else read_body len (drop 4 r)

-- `(m *Message) Write`: the length is converted to uint32.
unfoldable pub write : Message → Bytes
write m = put_uint32 ((1 + length m.payload) % 2 ^ 32) ++ (m.id ∷ m.payload)

unfoldable pub write_keep_alive : Bytes
write_keep_alive = 0 ∷ 0 ∷ 0 ∷ 0 ∷ []

-- The twelve bytes of a request, a cancel and a reject.
abbrev block_payload : ℕ → ℕ → ℕ → Bytes
block_payload index begin len = put_uint32 index ++ (put_uint32 begin ++ put_uint32 len)

unfoldable pub new_request_message : ℕ → ℕ → ℕ → Message
new_request_message index begin len = record {
  id = MsgId.request;
  payload = block_payload index begin len;
}

unfoldable pub new_cancel_message : ℕ → ℕ → ℕ → Message
new_cancel_message index begin len = record {
  id = MsgId.cancel;
  payload = block_payload index begin len;
}

unfoldable pub new_reject_message : ℕ → ℕ → ℕ → Message
new_reject_message index begin len = record {
  id = MsgId.reject;
  payload = block_payload index begin len;
}

unfoldable pub new_have_message : ℕ → Message
new_have_message index = record { id = MsgId.have; payload = put_uint32 index }

unfoldable pub new_allowed_fast_message : ℕ → Message
new_allowed_fast_message index = record { id = MsgId.allowed_fast; payload = put_uint32 index }

unfoldable pub new_piece_message : ℕ → ℕ → Bytes → Message
new_piece_message index begin block = record {
  id = MsgId.piece;
  payload = put_uint32 index ++ (put_uint32 begin ++ block);
}

pub data Parsed {ℓ} (A : Type ℓ) : Type ℓ where
  ok : A → Parsed A
  err : Error → Parsed A

unfoldable pub parse_request : Bytes → Parsed (ℕ × ℕ × ℕ)
parse_request p =
    if ltb (length p) 12 then err too_short else ok (uint32_at p 0, uint32_at p 4, uint32_at p 8)

unfoldable pub parse_piece : Bytes → Parsed (ℕ × ℕ × Bytes)
parse_piece p =
    if ltb (length p) 8 then err too_short else ok (uint32_at p 0, uint32_at p 4, drop 8 p)

unfoldable pub parse_have : Bytes → Parsed ℕ
parse_have p = if length p == 4 then ok (uint32_at p 0) else err too_short

unfoldable pub parse_reject : Bytes → Parsed (ℕ × ℕ × ℕ)
parse_reject p = parse_request p

unfoldable pub parse_allowed_fast : Bytes → Parsed ℕ
parse_allowed_fast p = parse_have p
