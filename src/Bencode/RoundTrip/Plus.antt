-- ===== src/Bencode/RoundTrip/Plus.antt =====
-- Integers with a plus sign, which the checks of decodeInt let through.
use stor.Prelude.{suc, ◌*◌, ◌+◌, length, ℕ, ◌≤◌, [], ◌∷◌, ◌++◌, ◌≡◌, arith, some, All, ◌≢◌}
use stor.Prelude.Int.{pos}
use stor.Bencode.Value.{int64}
use stor.Bencode.Decimal.{
  max_int64, parse_int, parse_nat, format_int, format_nat, parse_nat-format_nat, format_nat_head,
  format_int-pos,
}
use stor.Bencode.Decode.{ok, read_int, decode_int, decode_value, decode}
use stor.Bencode.RoundTrip.Scalars.{split_e-append, format_int-no_e}

parse_nat_zero : (n : ℕ) → parse_nat (b'0' ∷ format_nat n) ≡ some n
unfolding parse_nat
parse_nat_zero n =
    let (b, s, e, lo, hi, z) = format_nat_head n in rw e (rw e at (parse_nat-format_nat n))

read_int_plus : (n : ℕ) → n ≤ max_int64 → read_int (b'+' ∷ b'0' ∷ format_int (pos n)) ≡ ok (pos n)
unfolding read_int parse_int
read_int_plus n h = rw (format_int-pos n, parse_nat_zero n) (ground arith)

-- Decode accepts `i+0…e` for every number up to the largest int64: a plus sign hides leading zeros
-- from the checks of decodeInt.
pub decode_plus_zero :
    (n : ℕ)
    → n ≤ max_int64
    → decode (b'i' ∷ b'+' ∷ b'0' ∷ (format_int (pos n) ++ (b'e' ∷ []))) ≡ ok (int64 (pos n))
unfolding decode decode_value decode_int
decode_plus_zero n h =
    let num = b'+' ∷ b'0' ∷ format_int (pos n) in
    let no_e : All (λ b. b ≢ b'e') num = (omega arith, (omega arith, format_int-no_e (pos n))) in
    let ts = b'i' ∷ (num ++ (b'e' ∷ [])) in
    let e : 2 * length ts + 1 ≡ suc (2 * length ts) = omega arith in
    rw (e, split_e-append num [] no_e, read_int_plus n h)
