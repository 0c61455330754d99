-- ===== src/Bencode/Tests.antt =====
-- Runs of the bencode decoder and encoder, and the theorems at concrete inputs.
use stor.Prelude.{◌≡◌, ◌≤◌, refl, some, length, arith}
use stor.Prelude.Int.{pos, negsuc}
use stor.Prelude.Words.{Bytes}
use stor.Prelude.Text.{codes}
use stor.Bencode.Value.{Value, int64, list, dict, nil, cons, end, field, str, put}
use stor.Bencode.Decimal.{parse_int, format_int}
use stor.Bencode.Order.{str_lt}
use stor.Bencode.Canonical.{Canonical}
use stor.Bencode.Decode.{
  decode, decode_bytes, decode_value, decode_string, decode_int, ok, err, invalid_format,
  unexpected_end, out_of_fuel,
}
use stor.Bencode.Decode.Sound.{
  WithinLimits, decode-ne-out_of_fuel, decode-WithinLimits, decode_bytes_bounds,
}
use stor.Bencode.Encode.{encode, encode_value, sort_keys, encode_int, join_fields, encode_string}
use stor.Bencode.RoundTrip.Rearranged.{Same, same_dict, swap, decode-encode-decode-Same}
use stor.Bencode.RoundTrip.Plus.{decode_plus_zero}

abbrev sample : Value
sample = dict (
    field (codes "cow") (str (codes "moo"))
      (field (codes "spam") (list (cons (int64 (pos 42)) (cons (int64 (negsuc 6)) nil))) end))

abbrev sample_text : Bytes
sample_text = codes "d3:cow3:moo4:spamli42ei-7eee"

decode-sample_text : decode sample_text ≡ ok sample
unfolding decode decode_value decode_string decode_int parse_int str_lt put
decode-sample_text = refl

decode_bytes-trailing : decode_bytes (codes "i7erest") ≡ ok (int64 (pos 7), 3)
unfolding decode_bytes decode_value decode_int parse_int
decode_bytes-trailing = refl

-- The same map, ranged over the other way round.
abbrev turned : Value
turned = dict (
    field (codes "spam") (list (cons (int64 (pos 42)) (cons (int64 (negsuc 6)) nil)))
      (field (codes "cow") (str (codes "moo")) end))

turned-Same : Same turned sample
turned-Same = same_dict (swap refl)

encode-unsorted : encode turned ≡ some sample_text
unfolding encode encode_value encode_int encode_string format_int join_fields sort_keys str_lt
encode-unsorted = refl

decode-errors :
    (decode (codes "i03e") ≡ err invalid_format)
    × (decode (codes "i-0e") ≡ err invalid_format)
    × (decode (codes "d1:b0:1:a0:e") ≡ err invalid_format)
    × (decode (codes "5:abc") ≡ err unexpected_end)
    × (decode (codes "li1e") ≡ err unexpected_end)
unfolding decode decode_value decode_string decode_int parse_int str_lt put
decode-errors = (refl, refl, refl, refl, refl)

decode-ne-out_of_fuel_example : ¬ (decode (codes "lllle") ≡ out_of_fuel)
decode-ne-out_of_fuel_example = decode-ne-out_of_fuel (codes "lllle")

decode-WithinLimits_example : WithinLimits sample
decode-WithinLimits_example = decode-WithinLimits sample_text sample decode-sample_text

decode_bytes_bounds_example :
    WithinLimits (int64 (pos 7)) × (1 ≤ 3) × (3 ≤ length (codes "i7erest"))
decode_bytes_bounds_example =
    decode_bytes_bounds (codes "i7erest") (int64 (pos 7)) 3 decode_bytes-trailing

decode-encode-decode-Same_example :
    (us : Bytes) × (encode turned ≡ some us) × (decode us ≡ ok sample)
decode-encode-decode-Same_example =
    decode-encode-decode-Same sample_text turned sample decode-sample_text turned-Same

decode_plus_zero_example : decode (codes "i+042e") ≡ ok (int64 (pos 42))
unfolding format_int
decode_plus_zero_example = decode_plus_zero 42 (omega arith)
