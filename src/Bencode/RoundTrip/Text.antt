-- ===== src/Bencode/RoundTrip/Text.antt =====
-- The text of a canonical value as one recursion, with no sorting and no error: Encode writes it.
use stor.Prelude.{
  true, false, [], ◌∷◌, ◌++◌, ◌≡◌, refl, arith, List, some, Bool-cases, inl, inr, ◌≤◌, ◌==◌, ℕ,
  length,
}
use stor.Prelude.Words.{Bytes}
use stor.Bencode.Value.{
  Value, Items, Fields, str, bytes, int64, int, list, dict, other, nil, cons, end, field,
}
use stor.Bencode.Order.{str_lt, str_lt_trans, str_lt_irrefl}
use stor.Bencode.Decimal.{format_int, format_nat_head, format_int-pos}
use stor.Bencode.Canonical.{Canonical, CanonicalItems, CanonicalFields, Ascending, Follows}
use stor.Bencode.Encode.{
  encode_string, encode_int, encode_value, encode_list, encode_fields, encode, sort_keys,
  insert_key, join_fields,
}

unfoldable mutual
  pub text : Value → Bytes
  text (str s) = encode_string s
  text (bytes s) = encode_string s
  text (int64 n) = encode_int n
  text (int n) = encode_int n
  text (list xs) = b'l' ∷ text_items xs
  text (dict fs) = b'd' ∷ text_fields fs
  text other = []

  pub text_items : Items → Bytes
  text_items nil = b'e' ∷ []
  text_items (cons v xs) = text v ++ text_items xs

  pub text_fields : Fields → Bytes
  text_fields end = b'e' ∷ []
  text_fields (field k v fs) = encode_string k ++ (text v ++ text_fields fs)

pairs : Fields → List (Bytes × Bytes)
pairs end = []
pairs (field k v fs) = (k, text v) ∷ pairs fs

pub str_lt_asymm : (s t : Bytes) → str_lt s t ≡ true → str_lt t s ≡ false
str_lt_asymm s t h = elim (Bool-cases (str_lt t s)) [
  | inr apart ↦ apart
  | inl back ↦ ground (arith, str_lt_trans s t s h back, str_lt_irrefl s)
]

insert_key-pairs :
    (k v : Bytes) (fs : Fields) → Follows k fs → insert_key k v (pairs fs) ≡ (k, v) ∷ pairs fs
unfolding insert_key pairs
insert_key-pairs k v end h = refl
insert_key-pairs k v (field j w fs) h = rw (str_lt_asymm k j h)

-- Ascending keys are sorted already.
sort_keys-pairs : (fs : Fields) → Ascending fs → sort_keys (pairs fs) ≡ pairs fs
unfolding sort_keys pairs
sort_keys-pairs end a = refl
sort_keys-pairs (field k v fs) a = rw (sort_keys-pairs fs a.1) (insert_key-pairs k (text v) fs a.0)

join_fields-pairs : (fs : Fields) → join_fields (pairs fs) ≡ text_fields fs
unfolding join_fields pairs text
join_fields-pairs end = refl
join_fields-pairs (field k v fs) = rw (join_fields-pairs fs)

mutual
  unfolding encode_value text Canonical pairs

  encode_value-text_lem : (v : Value) → Canonical v → encode_value v ≡ some (text v)
  encode_value-text_lem (str s) c = refl
  encode_value-text_lem (int64 n) c = refl
  encode_value-text_lem (list xs) c = rw (encode_list-text xs c.1)
  encode_value-text_lem (dict fs) c =
      rw (encode_fields-pairs fs c.2, sort_keys-pairs fs c.1, join_fields-pairs fs)
  encode_value-text_lem (bytes s) c = absurd c
  encode_value-text_lem (int n) c = absurd c
  encode_value-text_lem other c = absurd c

  encode_list-text : (xs : Items) → CanonicalItems xs → encode_list xs ≡ some (text_items xs)
  encode_list-text nil c = refl
  encode_list-text (cons v xs) c = rw (encode_value-text_lem v c.0, encode_list-text xs c.1)

  encode_fields-pairs : (fs : Fields) → CanonicalFields fs → encode_fields fs ≡ some (pairs fs)
  encode_fields-pairs end c = refl
  encode_fields-pairs (field k v fs) c =
      rw (encode_value-text_lem v c.1, encode_fields-pairs fs c.2)

-- Encode fails on no canonical value, and writes its text.
pub encode-text : (v : Value) → Canonical v → encode v ≡ some (text v)
unfolding encode
encode-text = encode_value-text_lem

-- The text of a string begins with a digit.
pub encode_string_head :
    (s : Bytes) → (b : ℕ) × (t : Bytes) × (encode_string s ≡ b ∷ t) × (b'0' ≤ b) × (b ≤ b'9')
unfolding encode_string
encode_string_head s =
    let (b, t, e, lo, hi, z) = format_nat_head (length s) in
    (b, t ++ (b':' ∷ s), rw (format_int-pos (length s), e), lo, hi)

-- The text of a value is not empty, and does not begin like the end of a collection.
pub text_head :
    (v : Value) → Canonical v → (b : ℕ) × (t : Bytes) × (text v ≡ b ∷ t) × ((b == b'e') ≡ false)
unfolding text Canonical encode_int
text_head (str s) c = let (b, t, e, lo, hi) = encode_string_head s in (b, t, e, ground arith)
text_head (int64 n) c = (b'i', format_int n ++ (b'e' ∷ []), refl, refl)
text_head (list xs) c = (b'l', text_items xs, refl, refl)
text_head (dict fs) c = (b'd', text_fields fs, refl, refl)
text_head (bytes s) c = absurd c
text_head (int n) c = absurd c
text_head other c = absurd c
