-- ===== src/Peer/Negotiate.antt =====
-- peer/extconn.go: NegotiateExtension, the exchange of extension handshakes on a connection.
use stor.Prelude.{ℕ, zero, suc, Bool, not, if◌then◌else◌, ◌==◌, [], ◌∷◌, List, none, some, length}
use stor.Prelude.Int.{ℤ, pos, eq_ℤ, to_uint8}
use stor.Prelude.Words.{Bytes}
use stor.Bencode.Value.{str_eq}
use stor.Peer.MsgId
use stor.Peer.Message.{Message, message, keep_alive, failed, read_message, write, ok, err}
use stor.Peer.Extension.{ExtConn, new_extended_message, parse_extended}
use stor.Peer.ExtHandshake.{ExtHandshake, encode_ext_handshake, decode_ext_handshake}

-- `M[name]`, which is 0 where the key is missing.
unfoldable pub lookup : Bytes → List (Bytes × ℤ) → ℤ
lookup k [] = pos 0
lookup k ((j, n) ∷ m) = if str_eq j k then n else lookup k m

-- The connection and the peer's handshake with the bytes that are left, or an error. `out_of_fuel` has
-- no counterpart.
pub data Negotiated : Type 0 where
  connected : ExtConn → ExtHandshake → Bytes → Negotiated
  refused : Negotiated
  out_of_fuel : Negotiated

-- What a round of the loop does with a message.
unfoldable pub accept_handshake : Bytes → ℕ → Message → Bytes → Negotiated → Negotiated
unfolding lookup
accept_handshake name our_id m rest again =
    let answer : Negotiated = elim (parse_extended m.payload) [
      | err e ↦ refused
      | ok (ext_id, body) ↦ elim (decode_ext_handshake body) [
        | none ↦ if ext_id == 0 then refused else again
        | some hs ↦
            let remote = lookup name hs.m in
            if not (ext_id == 0)
            then again
            else if eq_ℤ remote (pos 0)
            then refused
            else connected (record { local_ext_id = our_id; remote_ext_id = to_uint8 remote }) hs
                rest
      ]
    ] in
    if m.id == MsgId.extended then answer else again

unfoldable pub negotiate_loop : Bytes → ℕ → ℕ → Bytes → Negotiated
unfolding accept_handshake
negotiate_loop name our_id zero r = out_of_fuel
negotiate_loop name our_id (suc f) r = elim (read_message r) [
  | failed e ↦ refused
  | keep_alive rest ↦ negotiate_loop name our_id f rest
  | message m rest ↦
      let again = negotiate_loop name our_id f rest in accept_handshake name our_id m rest again
]

-- The bytes that are written, and the outcome; `takes` is whether the connection takes them.
unfoldable pub negotiate_extension :
    (Bytes → Bool) → Bytes → ℕ → ExtHandshake → Bytes → Bytes × Negotiated
unfolding negotiate_loop encode_ext_handshake
negotiate_extension takes name our_id ours r = elim (encode_ext_handshake ours) [
  | none ↦ ([], refused)
  | some payload ↦
      let out = write (new_extended_message 0 payload) in
      let outcome = negotiate_loop name our_id (suc (length r)) r in
      (out, if takes out then outcome else refused)
]
