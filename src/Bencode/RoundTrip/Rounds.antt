-- ===== src/Bencode/RoundTrip/Rounds.antt =====
-- One call of decodeValue on each kind of text, and one round of each loop of the decoder.
use stor.Prelude.{
  ℕ, suc, ◌+◌, ◌≤◌, ◌<◌, true, false, not, ◌==◌, ◌&&◌, ltb, [], ◌∷◌, ◌++◌, ◌≡◌, refl, arith, length,
  append_assoc, lt→ltb, le→leb,
}
use stor.Prelude.Int.{ℤ}
use stor.Prelude.Words.{Bytes}
use stor.Bencode.Value.{
  Value, Items, Fields, str, int64, list, dict, nil, cons, end, put, len_fields, max_string_length,
  max_collection_size, max_decode_depth, max_total_items,
}
use stor.Bencode.Order.{str_lt}
use stor.Bencode.Decimal.{InInt64, format_int, is_digit}
use stor.Bencode.Decode.{ok, decode_string, decode_value, decode_list, decode_dict}
use stor.Bencode.Encode.{encode_string, encode_int}
use stor.Bencode.RoundTrip.Scalars.{decode_string-encode_string, decode_int-encode_int}
use stor.Bencode.RoundTrip.Text.{encode_string_head}

module _ (f deep total : ℕ) (rest : Bytes) (shallow : deep ≤ max_decode_depth) where
  decode_value-digit :
      (b : ℕ) (t s : Bytes)
      → b'0' ≤ b
      → b ≤ b'9'
      → decode_string (b ∷ t) ≡ ok (s, rest)
      → decode_value (suc f) deep total (b ∷ t) ≡ ok (str s, rest, total)
  unfolding decode_value
  decode_value-digit b t s lo hi h = ground arith

  pub decode_value-encode_string :
      (s : Bytes)
      → length s ≤ max_string_length
      → decode_value (suc f) deep total (encode_string s ++ rest) ≡ ok (str s, rest, total)
  decode_value-encode_string s h =
      let (b, t, e, lo, hi) = encode_string_head s in
      rw e
        (decode_value-digit b (t ++ rest) s lo hi (rw e at (decode_string-encode_string s rest h)))

  pub decode_value-encode_int :
      (n : ℤ)
      → InInt64 n
      → decode_value (suc f) deep total (encode_int n ++ rest) ≡ ok (int64 n, rest, total)
  unfolding decode_value encode_int
  decode_value-encode_int n h = rw (
    le→leb _ _ shallow,
    append_assoc (format_int n) (b'e' ∷ []) rest,
    decode_int-encode_int n rest h,
  )

  pub decode_value-list :
      (s : Bytes) (xs : Items) (total' : ℕ)
      → decode_list f deep total 0 s ≡ ok (xs, rest, total')
      → decode_value (suc f) deep total (b'l' ∷ s) ≡ ok (list xs, rest, total')
  unfolding decode_value
  decode_value-list s xs total' h = rw (le→leb _ _ shallow, h)

  pub decode_value-dict :
      (s : Bytes) (fs : Fields) (total' : ℕ)
      → decode_dict f deep total end [] s ≡ ok (fs, rest, total')
      → decode_value (suc f) deep total (b'd' ∷ s) ≡ ok (dict fs, rest, total')
  unfolding decode_value
  decode_value-dict s fs total' h = rw (le→leb _ _ shallow, h)

-- A round of the loop over a list, when the element is read.
pub decode_list_round :
    (f deep total n b : ℕ) (s rest rest' : Bytes) (v : Value) (xs : Items) (total₁ total₂ : ℕ)
    → (b == b'e') ≡ false
    → n < max_collection_size
    → total < max_total_items
    → decode_value f (deep + 1) (total + 1) (b ∷ s) ≡ ok (v, rest, total₁)
    → decode_list f deep total₁ (n + 1) rest ≡ ok (xs, rest', total₂)
    → decode_list (suc f) deep total n (b ∷ s) ≡ ok (cons v xs, rest', total₂)
unfolding decode_value
decode_list_round f deep total n b s rest rest' v xs total₁ total₂ ne room more h k =
    rw (ne, lt→ltb _ _ room, le→leb (total + 1) max_total_items (omega arith), h, k)

dict_round :
    (f deep total b : ℕ) (gs : Fields) (prev s key r r' : Bytes) (v : Value) (total' : ℕ)
    → b'0' ≤ b
    → b ≤ b'9'
    → len_fields gs < max_collection_size
    → total < max_total_items
    → decode_string (b ∷ s) ≡ ok (key, r)
    → not (ltb 0 (len_fields gs) && str_lt key prev) ≡ true
    → ltb 0 (length r) ≡ true
    → decode_value f (deep + 1) (total + 1) r ≡ ok (v, r', total')
    → decode_dict (suc f) deep total gs prev (b ∷ s)
      ≡ decode_dict f deep total' (put key v gs) key r'
unfolding decode_value
dict_round f deep total b gs prev s key r r' v total' lo hi room more k ordered full h =
    let not_end : (b == b'e') ≡ false = ground arith in
    let digit : is_digit b ≡ true = ground arith in
    rw (
      not_end,
      lt→ltb _ _ room,
      le→leb (total + 1) max_total_items (omega arith),
      digit,
      k,
      ordered,
      full,
      h,
    )

-- A round of the loop over a dictionary, when the key is in order and the value is read.
pub decode_dict_round :
    (f deep total : ℕ) (gs : Fields) (prev key r r' : Bytes) (v : Value) (total' : ℕ)
    → length key ≤ max_string_length
    → len_fields gs < max_collection_size
    → total < max_total_items
    → not (ltb 0 (len_fields gs) && str_lt key prev) ≡ true
    → 0 < length r
    → decode_value f (deep + 1) (total + 1) r ≡ ok (v, r', total')
    → decode_dict (suc f) deep total gs prev (encode_string key ++ r)
      ≡ decode_dict f deep total' (put key v gs) key r'
decode_dict_round f deep total gs prev key r r' v total' small room more ordered full h =
    let (b, t, e, lo, hi) = encode_string_head key in
    rw e (
      dict_round f deep total b gs prev (t ++ r) key r r' v total' lo hi room more
        (rw e at (decode_string-encode_string key r small)) ordered (lt→ltb _ _ full) h)

-- The `e` that ends a collection.
pub decode_list_end :
    (f deep total n : ℕ) (rest : Bytes)
    → decode_list (suc f) deep total n (b'e' ∷ rest) ≡ ok (nil, rest, total)
unfolding decode_value
decode_list_end f deep total n rest = refl

pub decode_dict_end :
    (f deep total : ℕ) (gs : Fields) (prev rest : Bytes)
    → decode_dict (suc f) deep total gs prev (b'e' ∷ rest) ≡ ok (gs, rest, total)
unfolding decode_value
decode_dict_end f deep total gs prev rest = refl
