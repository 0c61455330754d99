-- ===== src/Peer/Tests.antt =====
-- Runs of package peer, and its theorems at concrete inputs.
use stor.Prelude.{true, false, ◌&&◌, [], ◌∷◌, ◌++◌, ◌≡◌, refl, arith, replicate, inl, inr}
use stor.Prelude.Int.{pos, negsuc}
use stor.Prelude.Words.{Bytes}
use stor.Peer.Bitfield.{has_piece, set_piece, or_bit, test_bit}
use stor.Peer.Message.Framing.{read_message-write}
use stor.Peer.Message.{Message, message, read_message, write}
use stor.Peer.Extension.Exchange.{
  ping, frame, write_frames, read_ext_message-send, read_ext_message-ne-out_of_fuel,
}
use stor.Peer.Extension.{ExtConn, received, out_of_fuel, read_ext_message, send_ext_message}
use stor.Peer.Handshake.{
  Handshake, IsHandshake, read_handshake, write_handshake, read_handshake-write_handshake,
}
use stor.Peer.Handshake

abbrev bits : Bytes
bits = 0x80 ∷ 0 ∷ []

set_piece-runs : set_piece bits (pos 9) ≡ (0x80 ∷ 0x40 ∷ [], true)
unfolding set_piece or_bit
set_piece-runs = refl

has_piece-runs : has_piece bits (pos 0) && has_piece bits (negsuc 0) ≡ false
unfolding has_piece test_bit
has_piece-runs = refl

abbrev have_7 : Message
have_7 = record { id = 4; payload = 0 ∷ 0 ∷ 0 ∷ 7 ∷ [] }

write-runs : write have_7 ≡ 0 ∷ 0 ∷ 0 ∷ 5 ∷ 4 ∷ 0 ∷ 0 ∷ 0 ∷ 7 ∷ []
unfolding write
write-runs = refl

read_message-write_example : read_message (write have_7 ++ (1 ∷ [])) ≡ message have_7 (1 ∷ [])
read_message-write_example = read_message-write have_7 (1 ∷ []) (omega arith)

abbrev conn : ExtConn
conn = record { local_ext_id = 3; remote_ext_id = 1 }

abbrev noise : Message
noise = record { id = 20; payload = 1 ∷ 5 ∷ [] }

read_ext_message-send_example :
    read_ext_message conn (
      write_frames (ping ∷ frame have_7 ∷ frame noise ∷ [])
      ++ (send_ext_message (record { local_ext_id = 0; remote_ext_id = 3 }) (8 ∷ []) ++ (6 ∷ [])))
    ≡ received (8 ∷ []) (6 ∷ [])
read_ext_message-send_example =
    read_ext_message-send conn (ping ∷ frame have_7 ∷ frame noise ∷ []) (8 ∷ []) (6 ∷ [])
      (
        tt,
        ((omega arith, inl (omega arith)), ((omega arith, inr (1, 5 ∷ [], refl, omega arith)), tt)),
      )
      (omega arith)

read_ext_message-ne-out_of_fuel_example :
    ¬ (read_ext_message conn (0 ∷ 0 ∷ 0 ∷ 0 ∷ 0 ∷ []) ≡ out_of_fuel)
read_ext_message-ne-out_of_fuel_example =
    read_ext_message-ne-out_of_fuel conn (0 ∷ 0 ∷ 0 ∷ 0 ∷ 0 ∷ [])

abbrev hello : Handshake
hello = record {
  info_hash = replicate 20 7;
  peer_id = replicate 20 9;
  extensions = true;
  fast_extension = false;
}

read_handshake-write_handshake_example :
    read_handshake (write_handshake hello ++ (1 ∷ [])) ≡ Handshake.ok hello (1 ∷ [])
read_handshake-write_handshake_example =
    read_handshake-write_handshake hello (1 ∷ [])
      (record { info_hash_length = refl; peer_id_length = refl })
