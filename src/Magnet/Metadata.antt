-- ===== src/Magnet/Metadata.antt =====
-- magnet/metadata.go: the ut_metadata messages and FetchMetadata, over the bytes that the peer sends.
-- The hash function is a parameter, and so is `takes`: whether the connection takes the bytes written
-- so far. Pieces and sizes are not negative, but for what a peer claims.
pub mod Fetched
pub mod Checked
use stor.Prelude.{
  ℕ, zero, suc, ◌+◌, ◌-◌, ◌*◌, ◌/◌, ◌%◌, Bool, true, false, not, if◌then◌else◌, ◌==◌, ◌&&◌, ◌||◌,
  ltb, [], ◌∷◌, ◌++◌, List, Option, none, some, length, drop, replicate,
}
use stor.Prelude.Int.{ℤ, pos, negsuc, to_uint8}
use stor.Prelude.Words.{Bytes}
use stor.Prelude.Text.{codes}
use stor.Bencode.Value.{Value, Fields, int64, dict, end, field, put, str_eq}
use stor.Bencode.Access.{get}
use stor.Bencode.Encode.{encode}
use stor.Bencode.Decode.{decode_bytes, ok}
use stor.Storage.Disk.{overwrite}
use stor.Peer.Extension.{
  ExtConn, send_ext_message, Received, received, broken, out_of_fuel, read_ext_message,
}

abbrev pub metadata_block_size : ℕ
metadata_block_size = 16384

abbrev pub metadata_request : ℕ
metadata_request = 0

abbrev pub metadata_data : ℕ
metadata_data = 1

abbrev pub metadata_reject : ℕ
metadata_reject = 2

abbrev pub max_metadata_size : ℕ
max_metadata_size = 32 * 1024 * 1024

-- The dictionary of a request and of a reject.
abbrev pub short_dict : ℕ → ℕ → Value
short_dict msg_type piece =
    dict
      (put (codes "piece") (int64 (pos piece)) (put (codes "msg_type") (int64 (pos msg_type)) end))

abbrev pub data_dict : ℕ → ℕ → Value
data_dict piece total_size = dict (
    put (codes "total_size") (int64 (pos total_size)) (
      put (codes "piece") (int64 (pos piece))
        (put (codes "msg_type") (int64 (pos metadata_data)) end)))

unfoldable pub encode_metadata_request : ℕ → Option Bytes
encode_metadata_request piece = encode (short_dict metadata_request piece)

unfoldable pub encode_metadata_reject : ℕ → Option Bytes
encode_metadata_reject piece = encode (short_dict metadata_reject piece)

unfoldable pub encode_metadata_data : ℕ → ℕ → Bytes → Option Bytes
encode_metadata_data piece total_size block = elim (encode (data_dict piece total_size)) [
  | none ↦ none
  | some encoded ↦ some (encoded ++ block)
]

pub record MetadataMessage : Type 0 where
  pub msg_type : ℕ
  pub piece : ℤ
  pub total_size : ℤ
  pub block : Bytes

abbrev int_or_zero : Option Value → ℤ
int_or_zero (some (int64 n)) = n
int_or_zero _ = pos 0

unfoldable pub metadata_from_dict : Fields → Bytes → MetadataMessage
metadata_from_dict d rest =
    let msg_type = to_uint8 (int_or_zero (get (codes "msg_type") d)) in
    record {
      msg_type = msg_type;
      piece = int_or_zero (get (codes "piece") d);
      total_size = int_or_zero (get (codes "total_size") d);
      block = if msg_type == metadata_data then rest else [];
    }

unfoldable pub decode_metadata_message : Bytes → Option MetadataMessage
unfolding metadata_from_dict
decode_metadata_message payload = elim (decode_bytes payload) [
  | ok (dict d, consumed) ↦ some (metadata_from_dict d (drop consumed payload))
  | _ ↦ none
]

-- `no_answer` is a failed read; `ran_out` has no counterpart.
pub data Failure : Type 0 where
  invalid_size encode_failed send_failed no_answer bad_message rejected unexpected_type overflows
        hash_mismatch ran_out :
      Failure

pub data Result : Type 0 where
  fetched : Bytes → Result
  failed : Failure → Result

-- What the loop does with one message: the metadata to go on with, or a failure.
pub data Step : Type 0 where
  go_on : Bytes → Step
  stop : Failure → Step

unfoldable pub take_message : ℕ → ℕ → Option MetadataMessage → Bytes → Step
take_message size i none metadata = stop bad_message
take_message size i (some msg) metadata =
    let offset = i * metadata_block_size in
    if msg.msg_type == metadata_reject
    then stop rejected
    else if not (msg.msg_type == metadata_data)
    then stop unexpected_type
    else if ltb size (offset + length msg.block)
    then stop overflows
    else go_on (overwrite metadata offset msg.block)

module _ (sha1 : Bytes → Bytes) (takes : Bytes → Bool) (c : ExtConn) (size : ℕ)
    (info_hash : Bytes) where
  unfoldable pub check_hash : Bytes → Result
  check_hash metadata =
      if str_eq (sha1 metadata) info_hash then fetched metadata else failed hash_mismatch

  -- The pieces from `i` on, of which `n` are left; `out` is what has been written.
  unfoldable pub fetch_loop : ℕ → ℕ → Bytes → Bytes → Bytes → Result
  unfolding check_hash take_message
  fetch_loop zero i metadata out r = check_hash metadata
  fetch_loop (suc n) i metadata out r = elim (encode_metadata_request i) [
    | none ↦ failed encode_failed
    | some request ↦
        let out' = out ++ send_ext_message c request in
        let answer : Result = elim (read_ext_message c r) [
          | broken e ↦ failed no_answer
          | out_of_fuel ↦ failed ran_out
          | received payload rest ↦
              elim (take_message size i (decode_metadata_message payload) metadata) [
                | stop e ↦ failed e
                | go_on metadata' ↦ fetch_loop n (i + 1) metadata' out' rest
              ]
        ] in
        if takes out' then answer else failed send_failed
  ]

  unfoldable pub fetch_metadata : Bytes → Bytes → Result
  unfolding fetch_loop
  fetch_metadata out r =
      let pieces = (size + metadata_block_size - 1) / metadata_block_size in
      let rest = fetch_loop pieces 0 (replicate size 0) out r in
      if size == 0 || ltb max_metadata_size size then failed invalid_size else rest
