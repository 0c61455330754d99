-- ===== src/Magnet/Tests.antt =====
-- The theorems of Magnet at metadata of five bytes.
use stor.Prelude.{
  ℕ, ◌+◌, ◌*◌, ◌<◌, ◌≤◌, zero, suc, Bool, true, [], ◌∷◌, List, some, ◌≡◌, refl, arith, length, ap,
}
use stor.Prelude.Words.{Bytes}
use stor.Prelude.Text.{codes}
use stor.Bencode.Value.{put, str_eq}
use stor.Bencode.Order.{str_lt}
use stor.Bencode.Decimal.{format_int}
use stor.Bencode.Encode.{encode, encode_value, encode_int, encode_string, join_fields, sort_keys}
use stor.Peer.Message.{max_message, write}
use stor.Peer.Extension.{ExtConn, send_ext_message, new_extended_message}
use stor.Peer.Extension.Exchange.{Frame, ping}
use stor.Magnet.Metadata.{
  metadata_block_size, encode_metadata_data, fetch_metadata, Result, fetched, failed,
}
use stor.Magnet.Metadata.Checked.{Checked, fetch_metadata-Checked}
use stor.Magnet.Metadata.Fetched.{
  Fetches, answers, asked, request_for, block_at, fetch_metadata-Fetches,
}

abbrev info : Bytes
info = codes "d1:ae"

abbrev itself : Bytes → Bytes
itself b = b

abbrev conn : ExtConn
conn = record { local_ext_id = 3; remote_ext_id = 1 }

abbrev quiet : ℕ → List Frame
quiet i = ping ∷ []

abbrev only_payload : ℕ → Bytes
only_payload i = codes "d8:msg_typei1e5:piecei0e10:total_sizei5eed1:ae"

only_encoded :
    (i : ℕ)
    → i * metadata_block_size < 5
    → (encode_metadata_data i 5 (block_at info i) ≡ some (only_payload i))
      × (2 + length (only_payload i) ≤ max_message)
unfolding encode_metadata_data put encode encode_value encode_int encode_string join_fields
    sort_keys format_int str_lt
only_encoded zero lt = (refl, omega arith)
only_encoded (suc i) lt = absurd (omega arith)

-- A connection that takes the one request and nothing else.
abbrev takes_one : Bytes → Bool
takes_one b = str_eq b (request_for conn 0)

takes-request : (i : ℕ) → i * metadata_block_size < 5 → takes_one (asked conn [] (i + 1)) ≡ true
unfolding format_int send_ext_message write new_extended_message
takes-request zero lt = refl
takes-request (suc i) lt = absurd (omega arith)

abbrev answered : Result
answered = fetch_metadata itself takes_one conn 5 info [] (answers conn quiet only_payload 1 0 [])

fetch_metadata-Fetches_example : Fetches itself takes_one conn 5 info info answered
fetch_metadata-Fetches_example =
    fetch_metadata-Fetches itself takes_one conn 5 info info [] quiet only_payload takes-request
      refl (omega arith) refl (λ i. (tt, tt)) only_encoded [] (omega arith)

Fetches-fetched : (r : Result) → Fetches itself takes_one conn 5 info info r → r ≡ fetched info
Fetches-fetched (fetched b) h = ap fetched h
Fetches-fetched (failed e) h = absurd (ground arith)

-- So the next theorem is about metadata that is returned.
answered-fetched : answered ≡ fetched info
answered-fetched = Fetches-fetched answered (
    fetch_metadata-Fetches itself takes_one conn 5 info info [] quiet only_payload takes-request
      refl (omega arith) refl (λ i. (tt, tt)) only_encoded [] (omega arith))

fetch_metadata-Checked_example : Checked itself takes_one conn 5 info answered
fetch_metadata-Checked_example =
    fetch_metadata-Checked itself takes_one conn 5 info [] (answers conn quiet only_payload 1 0 [])
