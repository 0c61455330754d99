-- ===== src/Bencode/Decode.antt =====
-- bencode/decode.go: Decode and DecodeBytes. A slice is a list of bytes; `totalItems`, which the
-- source passes by pointer, is passed in and handed back. Go's recursion has no bound but the depth
-- limit, so the functions take fuel: `out_of_fuel` has no counterpart in the source.
pub mod Rules
pub mod Sound
use stor.Prelude.{
  ℕ, zero, suc, ◌+◌, ◌-◌, ◌*◌, Bool, true, false, if◌then◌else◌, ◌==◌, ◌&&◌, ◌||◌, ltb, leb, [],
  ◌∷◌, not, Option, none, some, length, take, drop, get_or,
}
use stor.Prelude.Int.{ℤ, pos, negsuc}
use stor.Prelude.Words.{Bytes}
use stor.Bencode.Decimal.{is_digit, parse_int}
use stor.Bencode.Order.{str_lt}
use stor.Bencode.Value.{
  Value, Items, Fields, str, int64, list, dict, nil, cons, end, max_string_length,
  max_collection_size, max_decode_depth, max_total_items, str_eq, put, len_items, len_fields,
}

pub data Error : Type 0 where
  unexpected_end invalid_format : Error

pub data Result {ℓ} (A : Type ℓ) : Type ℓ where
  ok : A → Result A
  err : Error → Result A
  out_of_fuel : Result A

infixl 5 ◌>>=◌
abbrev pub ◌>>=◌ {ℓ κ} : {A : Type ℓ} {B : Type κ} → Result A → (A → Result B) → Result B
ok a >>= f = f a
err e >>= f = err e
out_of_fuel >>= f = out_of_fuel

abbrev pub guard : Bool → Error → Result (Unit {0})
guard true e = ok tt
guard false e = err e

infixl 5 ◌>>◌
abbrev pub ◌>>◌ {ℓ} : {B : Type ℓ} → Result (Unit {0}) → Result B → Result B
m >> k = m >>= λ _. k

-- The loop for the colon: the bytes in front of it, which are all digits, and those behind it.
unfoldable pub split_colon : Bytes → Result (Bytes × Bytes)
split_colon [] = err invalid_format
split_colon (b ∷ s) =
    if b == b':'
    then ok ([], s)
    else if not (is_digit b)
    then err invalid_format
    else do (ds, rest) ← split_colon s; ok (b ∷ ds, rest)

-- `data[start:end]` and `data[end:]`, behind the checks of the length.
unfoldable pub take_string : Option ℤ → Bytes → Result (Bytes × Bytes)
take_string none s = err invalid_format
take_string (some (negsuc n)) s = err invalid_format
take_string (some (pos n)) s = do
  guard (leb n max_string_length) invalid_format
  guard (leb n (length s)) unexpected_end
  ok (take n s, drop n s)

unfoldable pub decode_string : Bytes → Result (Bytes × Bytes)
unfolding split_colon take_string
decode_string ts = do (ds, s) ← split_colon ts; take_string (parse_int ds) s

-- The loop for the `e` that ends an integer.
unfoldable pub split_e : Bytes → Result (Bytes × Bytes)
split_e [] = err unexpected_end
split_e (b ∷ s) = if b == b'e' then ok ([], s) else do (num, rest) ← split_e s; ok (b ∷ num, rest)

unfoldable pub or_invalid {ℓ} : {A : Type ℓ} → Option A → Result A
or_invalid none = err invalid_format
or_invalid (some a) = ok a

-- The text between `i` and `e`: the checks in the order of the source, and then ParseInt.
unfoldable pub read_int : Bytes → Result ℤ
unfolding or_invalid
read_int num = do
  guard (not (str_eq num [])) invalid_format
  guard (not (ltb 1 (length num) && get_or num 0 0 == b'0')) invalid_format
  guard (not (str_eq num (b'-' ∷ b'0' ∷ []))) invalid_format
  guard (not (ltb 2 (length num) && (get_or num 0 0 == b'-' && get_or num 1 0 == b'0')))
      invalid_format
  or_invalid (parse_int num)

-- `data[0]` is `i`, and the argument is what follows it.
unfoldable pub decode_int : Bytes → Result (ℤ × Bytes)
unfolding split_e read_int
decode_int s = do (num, rest) ← split_e s; n ← read_int num; ok (n, rest)

unfoldable mutual
  pub decode_value : ℕ → ℕ → ℕ → Bytes → Result (Value × Bytes × ℕ)
  decode_value zero deep total ts = out_of_fuel
  decode_value (suc f) deep total [] = err unexpected_end
  decode_value (suc f) deep total (b ∷ s) =
      let as_list = do (xs, rest, total') ← decode_list f deep total 0 s; ok (list xs, rest, total')
      in let as_dict = do
        (fs, rest, total') ← decode_dict f deep total end [] s
        ok (dict fs, rest, total')
        in do
          guard (leb deep max_decode_depth) invalid_format
          if b == b'i'
              then (decode_int s >>= λ (n, rest). ok (int64 n, rest, total))
              else if b == b'l'
              then as_list
              else if b == b'd'
              then as_dict
              else if is_digit b
              then (decode_string (b ∷ s) >>= λ (t, rest). ok (str t, rest, total))
              else err invalid_format

  -- One round of the loop; `n` is `len(list)`.
  pub decode_list : ℕ → ℕ → ℕ → ℕ → Bytes → Result (Items × Bytes × ℕ)
  decode_list zero deep total n ts = out_of_fuel
  decode_list (suc f) deep total n [] = err unexpected_end
  decode_list (suc f) deep total n (b ∷ s) =
      let round = do
        guard (ltb n max_collection_size) invalid_format
        guard (leb (total + 1) max_total_items) invalid_format
        (v, rest, total₁) ← decode_value f (deep + 1) (total + 1) (b ∷ s)
        (xs, rest', total₂) ← decode_list f deep total₁ (n + 1) rest
        ok (cons v xs, rest', total₂)
      in if b == b'e' then ok (nil, s, total) else round

  -- One round of the loop, on the dictionary so far and `prevKey`.
  pub decode_dict : ℕ → ℕ → ℕ → Fields → Bytes → Bytes → Result (Fields × Bytes × ℕ)
  decode_dict zero deep total fs prev ts = out_of_fuel
  decode_dict (suc f) deep total fs prev [] = err unexpected_end
  decode_dict (suc f) deep total fs prev (b ∷ s) =
      let round = do
        guard (ltb (len_fields fs) max_collection_size) invalid_format
        guard (leb (total + 1) max_total_items) invalid_format
        guard (is_digit b) invalid_format
        (key, rest) ← decode_string (b ∷ s)
        guard (not (ltb 0 (len_fields fs) && str_lt key prev)) invalid_format
        guard (ltb 0 (length rest)) unexpected_end
        (v, rest', total') ← decode_value f (deep + 1) (total + 1) rest
        decode_dict f deep total' (put key v fs) key rest'
      in if b == b'e' then ok (fs, s, total) else round

-- Two units of fuel for each byte suffice.
unfoldable pub decode_bytes : Bytes → Result (Value × ℕ)
decode_bytes ts = do
  (v, rest, total) ← decode_value (2 * length ts + 1) 0 0 ts
  ok (v, length ts - length rest)

unfoldable pub decode : Bytes → Result Value
decode ts = do (v, rest, total) ← decode_value (2 * length ts + 1) 0 0 ts; ok v
