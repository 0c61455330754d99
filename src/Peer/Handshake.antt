-- ===== src/Peer/Handshake.antt =====
-- peer/handshake.go: the 68 bytes of the handshake.
use Prim.Native.Nat.{bit_and, bit_or}
use stor.Prelude.{
  ◌≤◌, Bool, true, false, not, if◌then◌else◌, ◌==◌, ltb, [], ◌∷◌, ◌++◌, ◌≡◌, arith, length, get_or,
  take, drop, take-append_eq, drop-append_eq, take-length, length-append, append_assoc,
}
use stor.Prelude.Words.{Bytes}
use stor.Bencode.Value.{str_eq}

pub record Handshake : Type 0 where
  pub info_hash : Bytes
  pub peer_id : Bytes
  pub extensions : Bool
  pub fast_extension : Bool

-- The two `[20]byte` arrays.
pub record IsHandshake (h : Handshake) : Type 0 where
  pub info_hash_length : length h.info_hash ≡ 20
  pub peer_id_length : length h.peer_id ≡ 20

-- "BitTorrent protocol".
abbrev pub protocol_id : Bytes
protocol_id =
    b'B' ∷ b'i' ∷ b't' ∷ b'T' ∷ b'o' ∷ b'r' ∷ b'r' ∷ b'e' ∷ b'n' ∷ b't' ∷ b' ' ∷ b'p' ∷ b'r' ∷ b'o'
    ∷ b't' ∷ b'o' ∷ b'c' ∷ b'o' ∷ b'l' ∷ []

-- The eight reserved bytes, with the flags of BEP 10 and of BEP 6.
abbrev reserved : Handshake → Bytes
reserved h =
    0
    ∷ 0
    ∷ 0
    ∷ 0
    ∷ 0
    ∷ (if h.extensions then bit_or 0 0x10 else 0)
    ∷ 0
    ∷ (if h.fast_extension then bit_or 0 0x04 else 0)
    ∷ []

unfoldable pub write_handshake : Handshake → Bytes
write_handshake h = 19 ∷ (protocol_id ++ (reserved h ++ (h.info_hash ++ h.peer_id)))

pub data Error : Type 0 where
  short_read bad_pstrlen bad_protocol : Error

pub data Result : Type 0 where
  ok : Handshake → Bytes → Result
  err : Error → Result

-- The checks on the 68 bytes that io.ReadFull has read.
unfoldable pub parse_handshake : Bytes → Bytes → Result
parse_handshake buf rest =
    if not (get_or buf 0 0 == 19)
    then err bad_pstrlen
    else if not (str_eq (take 19 (drop 1 buf)) protocol_id)
    then err bad_protocol
    else ok
        (record {
          info_hash = take 20 (drop 28 buf);
          peer_id = take 20 (drop 48 buf);
          extensions = not (bit_and (get_or buf 25 0) 0x10 == 0);
          fast_extension = not (bit_and (get_or buf 27 0) 0x04 == 0);
        })
        rest

unfoldable pub read_handshake : Bytes → Result
unfolding parse_handshake
read_handshake r =
    if ltb (length r) 68 then err short_read else parse_handshake (take 68 r) (drop 68 r)

-- The arrays come back out of the buffer.
split_twice :
    (a b r : Bytes)
    → length a ≡ 20
    → length b ≡ 20
    → (take 20 (take 40 (a ++ (b ++ r))) ≡ a)
      × (take 20 (drop 20 (take 40 (a ++ (b ++ r)))) ≡ b)
      × (drop 40 (a ++ (b ++ r)) ≡ r)
split_twice a b r ha hb =
    let sizes = length-append a b in
    let both : take 40 (a ++ (b ++ r)) ≡ a ++ b =
      rw (← append_assoc a b r) (take-append_eq 40 (a ++ b) r (omega arith)) in
    (
      rw both (take-append_eq 20 a b ha),
      rw (both, drop-append_eq 20 a b ha) (rw hb at (take-length b)),
      rw (← append_assoc a b r) (drop-append_eq 40 (a ++ b) r (omega arith)),
    )

-- The arrays and the two flags, read from the buffer.
flags_read :
    (h : Handshake) (rest r : Bytes)
    → 40 ≤ length r
    → take 20 (take 40 r) ≡ h.info_hash
    → take 20 (drop 20 (take 40 r)) ≡ h.peer_id
    → drop 40 r ≡ rest
    → (ext fast : Bool)
    → read_handshake (
        19
        ∷ (protocol_id ++ (reserved (record h { extensions = ext; fast_extension = fast }) ++ r)))
      ≡ ok (record h { extensions = ext; fast_extension = fast }) rest
unfolding read_handshake
flags_read h rest r n a b c true true = rw (a, b, c) (ground arith)
flags_read h rest r n a b c true false = rw (a, b, c) (ground arith)
flags_read h rest r n a b c false true = rw (a, b, c) (ground arith)
flags_read h rest r n a b c false false = rw (a, b, c) (ground arith)

-- A handshake that was written is read back with its two flags, whatever follows it.
pub read_handshake-write_handshake :
    (h : Handshake) (rest : Bytes)
    → IsHandshake h
    → read_handshake (write_handshake h ++ rest) ≡ ok h rest
unfolding read_handshake write_handshake
read_handshake-write_handshake h rest v =
    let (a, b, c) = split_twice h.info_hash h.peer_id rest v.info_hash_length v.peer_id_length in
    let sizes : 40 ≤ length (h.info_hash ++ (h.peer_id ++ rest)) = omega (
      arith,
      length-append h.info_hash (h.peer_id ++ rest),
      length-append h.peer_id rest,
      v.info_hash_length,
      v.peer_id_length,
    ) in
    rw (append_assoc h.info_hash h.peer_id rest) (
      flags_read h rest (h.info_hash ++ (h.peer_id ++ rest)) sizes a b c h.extensions
        h.fast_extension)
