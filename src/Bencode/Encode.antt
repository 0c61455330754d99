-- ===== src/Bencode/Encode.antt =====
-- bencode/encode.go: Encode. The source threads a buffer and appends to it; here each function
-- returns what it appends, and `none` is the error for an unsupported type.
use stor.Prelude.{if◌then◌else◌, [], ◌∷◌, ◌++◌, List, Option, none, some, length}
use stor.Prelude.Int.{ℤ, pos}
use stor.Prelude.Words.{Bytes}
use stor.Bencode.Decimal.{format_int}
use stor.Bencode.Order.{str_lt}
use stor.Bencode.Value.{
  Value, Items, Fields, str, bytes, int64, int, list, dict, other, nil, cons, end, field,
}

infixl 5 ◌>>=◌
abbrev pub ◌>>=◌ {ℓ κ} : {A : Type ℓ} {B : Type κ} → Option A → (A → Option B) → Option B
none >>= f = none
some a >>= f = f a

-- `encodeString` and `encodeBytes`.
unfoldable pub encode_string : Bytes → Bytes
encode_string s = format_int (pos (length s)) ++ (b':' ∷ s)

unfoldable pub encode_int : ℤ → Bytes
encode_int n = b'i' ∷ (format_int n ++ (b'e' ∷ []))

-- `sort.Strings(keys)`, on keys that still carry their encoded values.
unfoldable pub insert_key : Bytes → Bytes → List (Bytes × Bytes) → List (Bytes × Bytes)
insert_key k v [] = (k, v) ∷ []
insert_key k v ((j, w) ∷ ps) =
    if str_lt j k then (j, w) ∷ insert_key k v ps else (k, v) ∷ (j, w) ∷ ps

unfoldable pub sort_keys : List (Bytes × Bytes) → List (Bytes × Bytes)
unfolding insert_key
sort_keys [] = []
sort_keys ((k, v) ∷ ps) = insert_key k v (sort_keys ps)

unfoldable pub join_fields : List (Bytes × Bytes) → Bytes
join_fields [] = b'e' ∷ []
join_fields ((k, v) ∷ ps) = encode_string k ++ (v ++ join_fields ps)

unfoldable mutual
  pub encode_value : Value → Option Bytes
  encode_value (str s) = some (encode_string s)
  encode_value (bytes s) = some (encode_string s)
  encode_value (int64 n) = some (encode_int n)
  encode_value (int n) = some (encode_int n)
  encode_value (list xs) = do body ← encode_list xs; some (b'l' ∷ body)
  encode_value (dict fs) = do ps ← encode_fields fs; some (b'd' ∷ join_fields (sort_keys ps))
  encode_value other = none

  -- The elements and the closing `e`.
  pub encode_list : Items → Option Bytes
  encode_list nil = some (b'e' ∷ [])
  encode_list (cons v xs) = do here ← encode_value v; rest ← encode_list xs; some (here ++ rest)

  pub encode_fields : Fields → Option (List (Bytes × Bytes))
  encode_fields end = some []
  encode_fields (field k v fs) = do
    here ← encode_value v
    rest ← encode_fields fs
    some ((k, here) ∷ rest)

unfoldable pub encode : Value → Option Bytes
encode v = encode_value v
