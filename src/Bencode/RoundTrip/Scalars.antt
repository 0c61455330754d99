-- ===== src/Bencode/RoundTrip/Scalars.antt =====
-- Strings and integers: what Encode writes for them, Decode reads back.
use stor.Prelude.{
  suc, ◌≤◌, [], ◌∷◌, ◌++◌, ◌≡◌, ◌≢◌, refl, ◌∙◌, ap, arith, length, length-append, append_assoc,
  take-append, drop-append, some, All,
}
use stor.Prelude.Int.{ℤ, pos, negsuc}
use stor.Prelude.Words.{Bytes}
use stor.Bencode.Value.{max_string_length}
use stor.Bencode.Decimal.{
  InInt64, IsDigits, parse_int-format_int, format_int, format_nat, format_nat-IsDigits,
  format_nat_head, format_int-pos, format_int-negsuc,
}
use stor.Bencode.Decode.{ok, split_colon, take_string, decode_string, split_e, read_int, decode_int}
use stor.Bencode.Encode.{encode_string}

split_colon-append :
    (ds rest : Bytes) → IsDigits ds → split_colon (ds ++ (b':' ∷ rest)) ≡ ok (ds, rest)
unfolding split_colon
split_colon-append [] rest d = refl
split_colon-append (b ∷ ds) rest d = ground (arith, split_colon-append ds rest d.1)

take_string-append :
    (s rest : Bytes)
    → length s ≤ max_string_length
    → take_string (some (pos (length s))) (s ++ rest) ≡ ok (s, rest)
unfolding take_string
take_string-append s rest h =
    ground (arith, take-append s rest, drop-append s rest, length-append s rest)

-- A length prefix and its string come off the front of any input.
pub decode_string-encode_string :
    (s rest : Bytes)
    → length s ≤ max_string_length
    → decode_string (encode_string s ++ rest) ≡ ok (s, rest)
unfolding decode_string encode_string
decode_string-encode_string s rest h =
    rw
      (
        append_assoc (format_int (pos (length s))) (b':' ∷ s) rest,
        format_int-pos (length s),
        split_colon-append (format_nat (length s)) (s ++ rest) (format_nat-IsDigits (length s)),
        ← format_int-pos (length s),
        parse_int-format_int (pos (length s)) (omega arith),
      )
      (take_string-append s rest h)

pub split_e-append :
    (num rest : Bytes) → All (λ b. b ≢ b'e') num → split_e (num ++ (b'e' ∷ rest)) ≡ ok (num, rest)
unfolding split_e
split_e-append [] rest d = refl
split_e-append (b ∷ num) rest d = ground (arith, split_e-append num rest d.1)

IsDigits-no_e : (ds : Bytes) → IsDigits ds → All (λ b. b ≢ b'e') ds
IsDigits-no_e [] d = tt
IsDigits-no_e (b ∷ ds) d = (ground arith, IsDigits-no_e ds d.1)

pub format_int-no_e : (z : ℤ) → All (λ b. b ≢ b'e') (format_int z)
unfolding format_int
format_int-no_e (pos n) = IsDigits-no_e _ (format_nat-IsDigits n)
format_int-no_e (negsuc n) = (omega arith, IsDigits-no_e _ (format_nat-IsDigits (suc n)))

-- The checks for leading zeros accept the text of every integer.
read_int-format_int : (z : ℤ) → InInt64 z → read_int (format_int z) ≡ ok z
unfolding read_int
read_int-format_int (pos n) h =
    let (b, s, e, lo, hi, z) = format_nat_head n in
    let e' = format_int-pos n ∙ e in
    rw e' (ground (arith, (rw e' at (parse_int-format_int (pos n) h))))
read_int-format_int (negsuc n) h =
    let (b, s, e, lo, hi, z) = format_nat_head (suc n) in
    let e' = format_int-negsuc n ∙ ap (◌∷◌ b'-') e in
    rw e' (ground (arith, (rw e' at (parse_int-format_int (negsuc n) h))))

-- An integer comes off the front of any input; the `i` in front of it is read by the caller.
pub decode_int-encode_int :
    (z : ℤ) (rest : Bytes) → InInt64 z → decode_int (format_int z ++ (b'e' ∷ rest)) ≡ ok (z, rest)
unfolding decode_int
decode_int-encode_int z rest h =
    rw (split_e-append (format_int z) rest (format_int-no_e z), read_int-format_int z h)
