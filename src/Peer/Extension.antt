-- ===== src/Peer/Extension.antt =====
-- peer/extension.go: extended messages; peer/extconn.go: ReadExtMessage, which waits for the next
-- message of one extension.
pub mod Exchange
use stor.Prelude.{
  ℕ, zero, suc, ◌+◌, Bool, true, false, not, if◌then◌else◌, ◌==◌, ◌&&◌, [], ◌∷◌, length,
}
use stor.Prelude.Words.{Bytes}
use stor.Peer.MsgId
use stor.Peer.Message.{
  Message, Error, too_short, Parsed, ok, err, Read, message, keep_alive, failed, read_message,
  write,
}

unfoldable pub new_extended_message : ℕ → Bytes → Message
new_extended_message ext_id p = record { id = MsgId.extended; payload = ext_id ∷ p }

unfoldable pub parse_extended : Bytes → Parsed (ℕ × Bytes)
parse_extended [] = err too_short
parse_extended (b ∷ p) = ok (b, p)

-- The fields of ExtConn beside its stream.
pub record ExtConn : Type 0 where
  pub local_ext_id : ℕ
  pub remote_ext_id : ℕ

-- What SendExtMessage writes to the stream.
unfoldable pub send_ext_message : ExtConn → Bytes → Bytes
send_ext_message c payload = write (new_extended_message c.remote_ext_id payload)

-- The result of ReadExtMessage, with the bytes that are left. `out_of_fuel` has no counterpart.
pub data Received : Type 0 where
  received : Bytes → Bytes → Received
  broken : Error → Received
  out_of_fuel : Received

-- What a round of the loop does with a message: an answer, or `none` for `continue`.
unfoldable pub accept : ExtConn → Message → Parsed (ℕ × Bytes) → Bytes → Received → Received
accept c m (err e) rest again = if not (m.id == MsgId.extended) then again else broken e
accept c m (ok (ext_id, p)) rest again =
    if not (m.id == MsgId.extended)
    then again
    else if not (ext_id == c.local_ext_id)
    then again
    else received p rest

unfoldable pub read_ext_loop : ExtConn → ℕ → Bytes → Received
unfolding accept
read_ext_loop c zero r = out_of_fuel
read_ext_loop c (suc f) r = elim (read_message r) [
  | failed e ↦ broken e
  | keep_alive rest ↦ read_ext_loop c f rest
  | message m rest ↦
      let again = read_ext_loop c f rest in accept c m (parse_extended m.payload) rest again
]

-- Every round consumes a byte at least, so the number of bytes is fuel enough.
unfoldable pub read_ext_message : ExtConn → Bytes → Received
read_ext_message c r = read_ext_loop c (suc (length r)) r
