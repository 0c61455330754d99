-- ===== src/Utp/Tests.antt =====
-- Runs of package utp, and its theorems at concrete inputs.
use stor.Prelude.{ℕ, ◌+◌, ◌≤◌, true, [], ◌∷◌, ◌≡◌, refl, arith, some}
use stor.Prelude.Words.{Bytes}
use stor.Utp.Seq.{wrapping_gt}
use stor.Utp.Packet.{Packet, parse_packet, marshal, is_utp, parse_packet-marshal}
use stor.Utp.Receive.Flush.{stream}
use stor.Utp.Receive.InOrder.{
  IsAt, Delivers, deliver_in_order-Delivers, receive_all, receive_all-stream,
}
use stor.Utp.Receive.{Receiver, deliver_in_order, deliver_inited, flush, lookup_seq, insert_seq}

abbrev packet : Packet
packet = record {
  header = record {
    type = 4;
    version = 1;
    extension = 0;
    conn_id = 0xabcd;
    timestamp = 0x12345678;
    ts_diff = 5;
    wnd_size = 358400;
    seq_nr = 65535;
    ack_nr = 1;
  };
  payload = 1 ∷ 2 ∷ [];
}

parse_packet-marshal_example :
    (parse_packet (marshal packet) ≡ some packet) × (is_utp (marshal packet) ≡ true)
parse_packet-marshal_example = parse_packet-marshal packet (omega arith)

-- The payload of packet k is the one byte k.
abbrev payload : ℕ → Bytes
payload k = k ∷ []

-- The first packet has number 65534, so the numbers wrap after two packets.
abbrev fresh : Receiver
fresh = record { next_expected = 65534; recv_inited = true; ack_nr = 65533; reorder_buf = [] }

fresh-IsAt : IsAt 65534 payload 0 32768 fresh
fresh-IsAt = record { inited = refl; next_is = refl; held = tt; bounded = omega arith }

receive_all-runs : receive_all 65534 payload fresh (2 ∷ 0 ∷ 2 ∷ 3 ∷ 1 ∷ []) ≡ (
  record { next_expected = 2; recv_inited = true; ack_nr = 1; reorder_buf = [] },
  (0 ∷ []) ∷ (1 ∷ []) ∷ (2 ∷ []) ∷ (3 ∷ []) ∷ [],
)
unfolding receive_all deliver_in_order deliver_inited wrapping_gt flush lookup_seq insert_seq
receive_all-runs = refl

-- Packets 1 and 3 came early.
abbrev holding : Receiver
holding = record {
  next_expected = 65534;
  recv_inited = true;
  ack_nr = 65533;
  reorder_buf = (65535, 1 ∷ []) ∷ (1, 3 ∷ []) ∷ [];
}

holding-IsAt : IsAt 65534 payload 0 32768 holding
holding-IsAt = record {
  inited = refl;
  next_is = refl;
  held = (
    record { index = 1; from = omega arith; upto = omega arith; seq_is = refl; payload_is = refl },
    (
      record {
        index = 3;
        from = omega arith;
        upto = omega arith;
        seq_is = refl;
        payload_is = refl;
      },
      tt,
    ),
  );
  bounded = omega arith;
}

deliver_in_order-Delivers_example :
    Delivers 65534 payload 0 32768 0 holding (deliver_in_order holding 65534 (0 ∷ []))
deliver_in_order-Delivers_example =
    deliver_in_order-Delivers 65534 payload 0 32768 0 holding (omega arith) (omega arith)
      (omega arith) (omega arith) holding-IsAt

receive_all-stream_example :
    (count : ℕ) × (0 + count ≤ 32768)
    × IsAt 65534 payload (0 + count) 32768 (receive_all 65534 payload fresh (2 ∷ 0 ∷ 2 ∷ [])).0
    × ((receive_all 65534 payload fresh (2 ∷ 0 ∷ 2 ∷ [])).1 ≡ stream payload 0 count)
receive_all-stream_example =
    receive_all-stream 65534 payload 0 32768 0 fresh (2 ∷ 0 ∷ 2 ∷ []) (omega arith) (omega arith)
      (omega arith) (omega arith) fresh-IsAt
