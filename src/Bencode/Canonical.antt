-- ===== src/Bencode/Canonical.antt =====
-- The values that Decode can return: within the limits of bencode/decode.go, with the keys of each
-- dictionary in strictly ascending order.
use stor.Prelude.{ℕ, suc, ◌+◌, ◌≤◌, true, false, ◌≡◌, arith, length, inl, inr, Bool-cases}
use stor.Bencode.Order.{str_lt, str_eq_iff, str_lt_trans, str_lt_cases, str_lt_irrefl}
use stor.Bencode.Value.{
  Value, Items, Fields, str, int64, list, dict, nil, cons, end, field, str_eq, max_string_length,
  max_collection_size, put, len_items, len_fields, items, items_fields, depth, depth_fields,
}
use stor.Bencode.Decimal.{InInt64}
use stor.Prelude.Words.{Bytes}

-- Each key is below the next one.
abbrev pub Follows : Bytes → Fields → Type 0
Follows k end = Unit
Follows k (field j v fs) = str_lt k j ≡ true

abbrev pub Ascending : Fields → Type 0
Ascending end = Unit
Ascending (field k v fs) = Follows k fs × Ascending fs

unfoldable mutual
  pub Canonical : Value → Type 0
  Canonical (str s) = length s ≤ max_string_length
  Canonical (int64 n) = InInt64 n
  Canonical (list xs) = (len_items xs ≤ max_collection_size) × CanonicalItems xs
  Canonical (dict fs) = (len_fields fs ≤ max_collection_size) × Ascending fs × CanonicalFields fs
  Canonical _ = ⊥

  pub CanonicalItems : Items → Type 0
  CanonicalItems nil = Unit
  CanonicalItems (cons v xs) = Canonical v × CanonicalItems xs

  pub CanonicalFields : Fields → Type 0
  CanonicalFields end = Unit
  CanonicalFields (field k v fs) = (length k ≤ max_string_length) × Canonical v × CanonicalFields fs

-- No key of the dictionary is above `k`.
abbrev pub UpTo : Bytes → Fields → Type 0
UpTo k end = Unit
UpTo k (field j v fs) = (str_lt k j ≡ false) × UpTo k fs

str_le_trans : (a b c : Bytes) → str_lt b a ≡ false → str_lt c b ≡ false → str_lt c a ≡ false
str_le_trans a b c p q = elim (Bool-cases (str_lt c a)) [
  | inr h ↦ h
  | inl h ↦ elim (str_lt_cases c b q) [
    | inl e ↦ ground (arith, p, e, h)
    | inr lt ↦ ground (arith, str_lt_trans b c a lt h)
  ]
]

pub UpTo-mono : (j k : Bytes) (fs : Fields) → str_lt k j ≡ false → UpTo j fs → UpTo k fs
UpTo-mono j k end h u = tt
UpTo-mono j k (field i v fs) h u = (str_le_trans i j k u.0 h, UpTo-mono j k fs h u.1)

pub put-UpTo : (k : Bytes) (v : Value) (fs : Fields) → UpTo k fs → UpTo k (put k v fs)
unfolding put
put-UpTo k v end u = (str_lt_irrefl k, tt)
put-UpTo k v (field j w fs) u = ground (arith, put-UpTo k v fs)

put-Follows :
    (i k : Bytes) (v : Value) (fs : Fields)
    → str_lt i k ≡ true
    → Follows i fs
    → Follows i (put k v fs)
unfolding put
put-Follows i k v end h f = h
put-Follows i k v (field j w fs) h f = ground arith

-- Writing a key that no key is above keeps the order.
pub put-Ascending :
    (k : Bytes) (v : Value) (fs : Fields) → UpTo k fs → Ascending fs → Ascending (put k v fs)
unfolding put
put-Ascending k v end u a = (tt, tt)
put-Ascending k v (field j w fs) u a = elim (Bool-cases (str_eq j k)) [
  | inl same ↦ rw same a
  | inr new ↦ elim (str_lt_cases k j u.0) [
    | inl e ↦ ground (arith, str_eq_iff j k)
    | inr lt ↦ rw new (put-Follows j k v fs lt a.0, put-Ascending k v fs u.1 a.1)
  ]
]

pub len_fields-put-le :
    (k : Bytes) (v : Value) (fs : Fields) → len_fields (put k v fs) ≤ len_fields fs + 1
unfolding put
len_fields-put-le k v end = omega arith
len_fields-put-le k v (field j w fs) = ground (arith, len_fields-put-le k v fs)

pub items_fields-put-le :
    (k : Bytes) (v : Value) (fs : Fields)
    → items_fields (put k v fs) ≤ items_fields fs + suc (items v)
unfolding put items
items_fields-put-le k v end = omega arith
items_fields-put-le k v (field j w fs) = ground (arith, items_fields-put-le k v fs)

pub depth_fields-put :
    (n : ℕ) (k : Bytes) (v : Value) (fs : Fields)
    → suc (depth v) ≤ n
    → depth_fields fs ≤ n
    → depth_fields (put k v fs) ≤ n
unfolding put depth
depth_fields-put n k v end h g = omega arith
depth_fields-put n k v (field j w fs) h g = elim (Bool-cases (str_eq j k)) [
  | inl same ↦ rw same (omega arith)
  | inr new ↦ rw new (omega (arith, depth_fields-put n k v fs h (omega arith)))
]

pub put-CanonicalFields :
    (k : Bytes) (v : Value) (fs : Fields)
    → length k ≤ max_string_length
    → Canonical v
    → CanonicalFields fs
    → CanonicalFields (put k v fs)
unfolding put Canonical
put-CanonicalFields k v end h c g = (h, c, tt)
put-CanonicalFields k v (field j w fs) h c g = elim (Bool-cases (str_eq j k)) [
  | inl same ↦ rw same (g.0, c, g.2)
  | inr new ↦ rw new (g.0, g.1, put-CanonicalFields k v fs h c g.2)
]
