-- ===== src/Bencode/RoundTrip/Rearranged.antt =====
-- Encode does not see the order in which Go ranges over a map: the fields of a dictionary may stand in
-- any order, at every level, and Decode reads them back in ascending order.
use stor.Prelude.{
  true, false, [], ◌∷◌, List, Option, none, some, ◌≡◌, refl, ◌∙◌, ap, arith, Bool-cases, inl, inr,
}
use stor.Prelude.Words.{Bytes}
use stor.Bencode.Value.{Value, Items, Fields, list, dict, nil, cons, end, field, str_eq}
use stor.Bencode.Order.{str_lt, str_lt_cases, str_lt_trans, str_eq_iff}
use stor.Bencode.Encode.{
  ◌>>=◌, insert_key, sort_keys, join_fields, encode_value, encode_list, encode_fields, encode,
}
use stor.Bencode.Decode.{decode, ok}
use stor.Bencode.RoundTrip.Text.{str_lt_asymm}
use stor.Bencode.RoundTrip.Values.{decode-encode-decode}

-- The same value, but for the order of the fields of its dictionaries.
mutual
  pub data Same : Value → Value → Type 0 where
    same : {v : Value} → Same v v
    same_list : {xs ys : Items} → SameItems xs ys → Same (list xs) (list ys)
    same_dict : {fs gs : Fields} → SameFields fs gs → Same (dict fs) (dict gs)

  pub data SameItems : Items → Items → Type 0 where
    no_items : SameItems nil nil
    both :
        {v w : Value} {xs ys : Items}
        → Same v w
        → SameItems xs ys
        → SameItems (cons v xs) (cons w ys)

  pub data SameFields : Fields → Fields → Type 0 where
    no_fields : SameFields end end
    keep :
        {k : Bytes} {v w : Value} {fs gs : Fields}
        → Same v w
        → SameFields fs gs
        → SameFields (field k v fs) (field k w gs)
    swap :
        {j k : Bytes} {v w : Value} {fs : Fields}
        → str_eq j k ≡ false
        → SameFields (field j v (field k w fs)) (field k w (field j v fs))
    chain : {fs gs hs : Fields} → SameFields fs gs → SameFields gs hs → SameFields fs hs

-- What encode_fields and sort_keys give together.
abbrev sorted_fields : Fields → Option (List (Bytes × Bytes))
sorted_fields fs = encode_fields fs >>= λ ps. some (sort_keys ps)

abbrev combine :
    Bytes → Option Bytes → Option (List (Bytes × Bytes)) → Option (List (Bytes × Bytes))
combine k none ps = none
combine k (some h) none = none
combine k (some h) (some ps) = some (insert_key k h ps)

sorted_fields-field :
    (k : Bytes) (v : Value) (fs : Fields)
    → sorted_fields (field k v fs) ≡ combine k (encode_value v) (sorted_fields fs)
unfolding encode_value sort_keys
sorted_fields-field k v fs = split_on (encode_value v) (encode_fields fs)
  where
    split_on :
        (h : Option Bytes) (ps : Option (List (Bytes × Bytes)))
        → ((do here ← h; rest ← ps; some ((k, here) ∷ rest)) >>= λ qs. some (sort_keys qs))
          ≡ combine k h (ps >>= λ qs. some (sort_keys qs))
    split_on none ps = refl
    split_on (some h) none = refl
    split_on (some h) (some ps) = refl

lt_of_ne : (j k : Bytes) → str_eq j k ≡ false → str_lt j k ≡ false → str_lt k j ≡ true
lt_of_ne j k ne h = elim (str_lt_cases j k h) [
  | inl e ↦ ground (arith, ne, (str_eq_iff j k).1 e)
  | inr lt ↦ lt
]

-- Two insertions of different keys commute.
insert_key-insert_key :
    (j k : Bytes) (x y : Bytes) (ps : List (Bytes × Bytes))
    → str_eq j k ≡ false
    → insert_key j x (insert_key k y ps) ≡ insert_key k y (insert_key j x ps)
unfolding insert_key
insert_key-insert_key j k x y [] ne = elim (Bool-cases (str_lt j k)) [
  | inl l ↦ let m : str_lt k j ≡ false = str_lt_asymm j k l in rw (l, m) refl
  | inr l ↦ let m : str_lt k j ≡ true = lt_of_ne j k ne l in rw (l, m) refl
]
insert_key-insert_key j k x y ((i, z) ∷ ps) ne = ground (
  arith,
  insert_key-insert_key j k x y ps ne,
  str_lt_asymm j k,
  lt_of_ne j k ne,
  str_lt_trans i j k,
  str_lt_trans i k j,
  lt_first j k i,
  lt_first k j i,
)
  where
    lt_first : (a b c : Bytes) → str_lt a b ≡ true → str_lt c b ≡ false → str_lt c a ≡ false
    lt_first a b c l m = elim (Bool-cases (str_lt c a)) [
      | inl n ↦ ground (arith, str_lt_trans c a b n l, m)
      | inr n ↦ n
    ]

combine-combine :
    (j k : Bytes) (x y : Option Bytes) (ps : Option (List (Bytes × Bytes)))
    → str_eq j k ≡ false
    → combine j x (combine k y ps) ≡ combine k y (combine j x ps)
combine-combine j k none none ps ne = refl
combine-combine j k none (some y) ps ne = refl
combine-combine j k (some x) none none ne = refl
combine-combine j k (some x) none (some ps) ne = refl
combine-combine j k (some x) (some y) none ne = refl
combine-combine j k (some x) (some y) (some ps) ne = ap some (insert_key-insert_key j k x y ps ne)

encode_dict :
    (fs : Fields)
    → encode_value (dict fs) ≡ (sorted_fields fs >>= λ ps. some (b'd' ∷ join_fields ps))
unfolding encode_value
encode_dict fs = split_on (encode_fields fs)
  where
    split_on :
        (ps : Option (List (Bytes × Bytes)))
        → (do qs ← ps; some (b'd' ∷ join_fields (sort_keys qs)))
          ≡ ((ps >>= λ qs. some (sort_keys qs)) >>= λ qs. some (b'd' ∷ join_fields qs))
    split_on none = refl
    split_on (some ps) = refl

mutual
  unfolding encode_value

  encode_value-Same : {v w : Value} → Same v w → encode_value v ≡ encode_value w
  encode_value-Same same = refl
  encode_value-Same (same_list s) = rw (encode_list-Same s) refl
  encode_value-Same (same_dict {fs} {gs} s) =
      rw (encode_dict fs, encode_dict gs, sorted_fields-Same s) refl

  encode_list-Same : {xs ys : Items} → SameItems xs ys → encode_list xs ≡ encode_list ys
  encode_list-Same no_items = refl
  encode_list-Same (both s t) = rw (encode_value-Same s, encode_list-Same t) refl

  sorted_fields-Same : {fs gs : Fields} → SameFields fs gs → sorted_fields fs ≡ sorted_fields gs
  sorted_fields-Same no_fields = refl
  sorted_fields-Same (keep {k} {v} {w} {fs} {gs} s t) =
      sorted_fields-field k v fs
      ∙ rw (sorted_fields-field k w gs, encode_value-Same s, sorted_fields-Same t) refl
  sorted_fields-Same (swap {j} {k} {v} {w} {fs} ne) =
      rw
        (
          sorted_fields-field j v (field k w fs),
          sorted_fields-field k w fs,
          sorted_fields-field k w (field j v fs),
          sorted_fields-field j v fs,
        )
        (combine-combine j k (encode_value v) (encode_value w) (sorted_fields fs) ne)
  sorted_fields-Same (chain s t) = sorted_fields-Same s ∙ sorted_fields-Same t

-- What Decode accepts is written by Encode whatever the order of the fields, and Decode reads the
-- same value from that text.
pub decode-encode-decode-Same :
    (ts : Bytes) (u v : Value)
    → decode ts ≡ ok v
    → Same u v
    → (us : Bytes) × (encode u ≡ some us) × (decode us ≡ ok v)
unfolding encode
decode-encode-decode-Same ts u v h s =
    let (us, written, reads) = decode-encode-decode ts v h in
    (us, encode_value-Same s ∙ written, reads)
