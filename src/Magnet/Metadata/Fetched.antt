-- ===== src/Magnet/Metadata/Fetched.antt =====
-- magnet/metadata.go: what FetchMetadata returns, and that a peer which answers is enough.
use mathlib.Core.Option.{some-injective}
use stor.Prelude.{
  ℕ, zero, suc, ◌+◌, ◌-◌, ◌*◌, ◌/◌, ◌≤◌, ◌<◌, ◌^◌, Bool, true, false, ◌==◌, ◌||◌, ltb, ◌++◌, List,
  some, ◌≡◌, refl, ap, ◌∙◌, arith, length, take, drop, get_or, min, All, Bool-cases, inl, inr,
  length-take, length-drop, drop-append, append_assoc, replicate, length-replicate,
}
use stor.Prelude.Words.{Bytes}
use stor.Bencode.Value.{Value, Fields, dict, end, str_eq, put, items, depth}
use stor.Bencode.Order.{str_eq_iff, str_lt}
use stor.Prelude.Int.{pos}
use stor.Prelude.Text.{codes}
use stor.Bencode.Decimal.{format_int}
use stor.Bencode.Encode.{encode, encode_value, encode_int, encode_string, join_fields, sort_keys}
use stor.Bencode.Canonical.{Canonical}
use stor.Bencode.Access.{get}
use stor.Bencode.Decode.{decode_bytes, ok}
use stor.Bencode.Decode.Sound.{WithinLimits}
use stor.Bencode.RoundTrip.Values.{decode_bytes-encode}
use stor.Storage.Disk.{overwrite}
use stor.Storage.MultiFile.Stream.{
  length-overwrite, get_or-overwrite, get_or-take, get_or-drop, list_ext,
}
use stor.Peer.Message.{max_message}
use stor.Peer.Extension.{ExtConn, send_ext_message}
use stor.Peer.Extension.Exchange.{Frame, Skipped, write_frames, read_ext_message-send}
use stor.Magnet.Metadata.{
  max_metadata_size, metadata_block_size, metadata_data, short_dict, data_dict,
  encode_metadata_request, encode_metadata_data, MetadataMessage, metadata_from_dict,
  decode_metadata_message, Result, fetched, failed, go_on, take_message, check_hash, fetch_loop,
  fetch_metadata,
}

-- A number that a dictionary of the protocol carries.
short-WithinLimits :
    (msg_type piece : ℕ) → msg_type < 3 → piece < 2 ^ 63 → WithinLimits (short_dict msg_type piece)
unfolding put Canonical str_lt items depth
short-WithinLimits msg_type piece t p = (ground arith, omega arith, omega arith)

data-WithinLimits :
    (piece size : ℕ) → piece < 2 ^ 63 → size < 2 ^ 63 → WithinLimits (data_dict piece size)
unfolding put Canonical str_lt items depth
data-WithinLimits piece size p s = (ground arith, omega arith, omega arith)

abbrev fields_of : Value → Fields
fields_of (dict d) = d
fields_of _ = end

from_data_dict :
    (piece size : ℕ) (block : Bytes)
    → (let msg = metadata_from_dict (fields_of (data_dict piece size)) block in
        (msg.msg_type ≡ metadata_data) × (msg.block ≡ block))
unfolding metadata_from_dict get put
from_data_dict piece size block = (refl, refl)

data_text :
    (piece size : ℕ) (block payload : Bytes)
    → piece < 2 ^ 63
    → size < 2 ^ 63
    → encode_metadata_data piece size block ≡ some payload
    → (ts : Bytes) × (ts ++ block ≡ payload)
      × (decode_bytes (ts ++ block) ≡ ok (data_dict piece size, length ts))
unfolding encode_metadata_data
data_text piece size block payload p s h =
    let (ts, written, reads) =
      decode_bytes-encode (data_dict piece size) block (data-WithinLimits piece size p s) in
    (ts, some-injective _ payload (rw (encode_metadata_data, written) at h), reads)

-- A data message is decoded to its block.
decode-encode_metadata_data :
    (piece size : ℕ) (block payload : Bytes)
    → piece < 2 ^ 63
    → size < 2 ^ 63
    → encode_metadata_data piece size block ≡ some payload
    → decode_metadata_message payload
      ≡ some (metadata_from_dict (fields_of (data_dict piece size)) block)
unfolding decode_metadata_message
decode-encode_metadata_data piece size block payload p s h =
    let (ts, same, reads) = data_text piece size block payload p s h in
    let tail : drop (length ts) payload ≡ block = rw (← same) (drop-append ts block) in
    let read_payload : decode_bytes payload ≡ ok (data_dict piece size, length ts) =
      rw (← same) reads in
    rw (decode_metadata_message, read_payload)
      (ap (λ b. some (metadata_from_dict (fields_of (data_dict piece size)) b)) tail)

length-block :
    (content : Bytes) (off n : ℕ)
    → length (take n (drop off content)) ≡ min n (length content - off)
length-block content off n =
    omega (arith, length-take n (drop off content), length-drop off content)

-- A byte after a block of the content has been copied to its place.
copied_block :
    (metadata content : Bytes) (off n x : ℕ)
    → length metadata ≡ length content
    → off < length content
    → x < length content
    → (x < off → get_or metadata x 0 ≡ get_or content x 0)
    → x < off + n
    → get_or (overwrite metadata off (take n (drop off content))) x 0 ≡ get_or content x 0
copied_block metadata content off n x same lt l before h =
    let new = take n (drop off content) in
    let size = length-block content off n in
    let over = get_or-overwrite metadata off new x (omega arith) in
    elim (Bool-cases (ltb x off)) [
      | inl e ↦ ground (arith, over, e, before)
      | inr e ↦
          let t = get_or-take n (drop off content) (x - off) (ground (arith, e)) in
          let d = get_or-drop off content (x - off) in
          let at : off + (x - off) ≡ x = ground (arith, e) in
          ground (arith, over, size, e, t, rw at at d)
    ]

fits_inside : (off n k size : ℕ) → n ≡ min k (size - off) → off < size → ltb size (off + n) ≡ false
fits_inside off n k size e lt = ground arith

take_data :
    (size i : ℕ) (msg : MetadataMessage) (metadata : Bytes)
    → msg.msg_type ≡ metadata_data
    → ltb size (i * metadata_block_size + length msg.block) ≡ false
    → take_message size i (some msg) metadata
      ≡ go_on (overwrite metadata (i * metadata_block_size) msg.block)
unfolding take_message
take_data size i msg metadata is_data inside = rw (is_data, inside) refl

abbrev pub block_at : Bytes → ℕ → Bytes
block_at content i = take metadata_block_size (drop (i * metadata_block_size) content)

-- The message that asks for a piece.
abbrev pub request_for : ExtConn → ℕ → Bytes
request_for c i =
    send_ext_message c (codes "d8:msg_typei0e5:piecei" ++ (format_int (pos i) ++ codes "ee"))

-- What has been written after the requests for the first pieces, in order.
abbrev pub asked : ExtConn → Bytes → ℕ → Bytes
asked c out zero = out
asked c out (suc i) = asked c out i ++ request_for c i

encode_metadata_request-text :
    (i : ℕ)
    → encode_metadata_request i
      ≡ some (codes "d8:msg_typei0e5:piecei" ++ (format_int (pos i) ++ codes "ee"))
unfolding encode_metadata_request encode encode_value encode_int encode_string join_fields sort_keys
    put str_lt format_int
encode_metadata_request-text i =
    ap (λ t. some (codes "d8:msg_typei0e5:piecei" ++ t))
      (append_assoc (format_int (pos i)) (codes "e") (codes "e"))

-- The answers to the requests from `i` on, each behind other frames.
abbrev pub answers : ExtConn → (ℕ → List Frame) → (ℕ → Bytes) → ℕ → ℕ → Bytes → Bytes
answers c noise payload zero i rest = rest
answers c noise payload (suc n) i rest =
    write_frames (noise i)
    ++ (send_ext_message (record { local_ext_id = 0; remote_ext_id = c.local_ext_id }) (payload i)
        ++ answers c noise payload n (i + 1) rest)

module _ (sha1 : Bytes → Bytes) (takes : Bytes → Bool) (c : ExtConn) (size : ℕ)
    (info_hash : Bytes) where
  -- The metadata, and no failure.
  abbrev pub Fetches : Bytes → Result → Type 0
  Fetches content (fetched b) = b ≡ content
  Fetches content (failed e) = false ≡ true

  -- The blocks before the piece are those of the content.
  record Has (content : Bytes) (i : ℕ) (metadata : Bytes) : Type 0 where
    full : length metadata ≡ size
    known :
        (x : ℕ) → x < size → x < i * metadata_block_size → get_or metadata x 0 ≡ get_or content x 0

  module _ (content out : Bytes) (noise : ℕ → List Frame) (payload : ℕ → Bytes)
      (takes_requests : (i : ℕ)
        → i * metadata_block_size < size
        → takes (asked c out (i + 1)) ≡ true)
      (size_content : length content ≡ size) (small : size ≤ max_metadata_size)
      (hash : sha1 content ≡ info_hash) (skipped : (i : ℕ) → All (Skipped c) (noise i))
      (encoded : (i : ℕ)
        → i * metadata_block_size < size
        → (encode_metadata_data i size (block_at content i) ≡ some (payload i))
          × (2 + length (payload i) ≤ max_message)) where
    go_on_block :
        (i : ℕ) (metadata : Bytes)
        → i * metadata_block_size < size
        → Has content i metadata
        → (m : Bytes) × (take_message size i (decode_metadata_message (payload i)) metadata
            ≡ go_on m)
          × Has content (i + 1) m
    go_on_block i metadata lt h =
        let new = block_at content i in
        let off = i * metadata_block_size in
        let (enc, fits) = encoded i lt in
        let decoded =
          decode-encode_metadata_data i size new (payload i) (omega arith) (omega arith) enc in
        let msg = metadata_from_dict (fields_of (data_dict i size)) new in
        let (is_data, is_block) = from_data_dict i size new in
        let len_new : length new ≡ min metadata_block_size (size - off) =
          omega (arith, length-block content off metadata_block_size) in
        let inside : ltb size (off + length new) ≡ false =
          fits_inside off (length new) metadata_block_size size len_new lt in
        (
          overwrite metadata off new,
          rw decoded (
              take_data size i msg metadata is_data (rw is_block inside)
              ∙ ap (λ b. go_on (overwrite metadata off b)) is_block),
          record {
            full = length-overwrite metadata off new (omega (arith, len_new, h.full)) ∙ h.full;
            known = λ x l past.
                copied_block metadata content off metadata_block_size x (omega (arith, h.full))
                  (omega arith) (omega arith) (h.known x l) (omega arith);
          },
        )

    fetch_loop-Fetches :
        (n i : ℕ) (metadata rest : Bytes)
        → Has content i metadata
        → size ≤ (i + n) * metadata_block_size
        → (i + n) * metadata_block_size < size + metadata_block_size
        → Fetches content (
            fetch_loop sha1 takes c size info_hash n i metadata
              (asked c out i)
              (answers c noise payload n i rest))
    unfolding fetch_loop check_hash
    fetch_loop-Fetches zero i metadata rest h enough few =
        let eq : metadata ≡ content =
          list_ext metadata content (omega (arith, h.full))
            (λ x l. h.known x (omega (arith, h.full)) (omega (arith, h.full))) in
        let good : str_eq (sha1 metadata) info_hash ≡ true =
          (str_eq_iff _ _).1 (ap sha1 eq ∙ hash) in
        rw good eq
    fetch_loop-Fetches (suc n) i metadata rest h enough few =
        let (m, taken, next) = go_on_block i metadata (omega arith) h in
        let written = encode_metadata_request-text i in
        let (enc, fits) = encoded i (omega arith) in
        let answer =
          read_ext_message-send c (noise i) (payload i) (answers c noise payload n (i + 1) rest)
            (skipped i) fits in
        let step : i + 1 ≡ suc i = omega arith in
        let sent : takes (asked c out i ++ request_for c i) ≡ true =
          rw step at (takes_requests i (omega arith)) in
        let later = fetch_loop-Fetches n (i + 1) m rest next (omega arith) (omega arith) in
        let more : asked c out (i + 1) ≡ asked c out i ++ request_for c i = rw step refl in
        rw (fetch_loop, written, sent, answer, taken) (rw more at later)

    -- Over a connection that takes the requests for the pieces 0, 1, … in this order, and of which
    -- nothing is known when anything else is written, from a peer whose frames are, for each of these
    -- pieces in turn, some that are not for the extension and then the data message with the block of
    -- the content, FetchMetadata returns the content. The content has 1 to 32 MiB bytes and the
    -- expected hash, and each data message fits into a frame.
    pub fetch_metadata-Fetches :
        (rest : Bytes)
        → 0 < size
        → Fetches content (
            fetch_metadata sha1 takes c size info_hash out (
              answers c noise payload
                ((size + metadata_block_size - 1) / metadata_block_size)
                0
                rest))
    unfolding fetch_metadata
    fetch_metadata-Fetches rest some_bytes =
        let n = (size + metadata_block_size - 1) / metadata_block_size in
        let valid : (size == 0 || ltb max_metadata_size size) ≡ false =
          ground (arith, some_bytes, small) in
        rw valid (
          fetch_loop-Fetches n 0 (replicate size 0) rest
            (record { full = length-replicate size 0; known = λ x l past. absurd (omega arith) })
            (omega arith) (omega arith))
