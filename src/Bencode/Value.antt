-- ===== src/Bencode/Value.antt =====
-- The Go values that bencode/decode.go returns and bencode/encode.go accepts.
use stor.Prelude.{ℕ, suc, ◌+◌, ◌*◌, max, Bool, true, false, if◌then◌else◌, ◌==◌, ◌&&◌, [], ◌∷◌}
use stor.Prelude.Int.{ℤ}
use stor.Prelude.Words.{Bytes}

-- Decoding limits.
abbrev pub max_string_length : ℕ
max_string_length = 64 * 1024 * 1024

abbrev pub max_collection_size : ℕ
max_collection_size = 1_000_000

abbrev pub max_decode_depth : ℕ
max_decode_depth = 100

abbrev pub max_total_items : ℕ
max_total_items = 2_000_000

-- `other` stands for a value of any type that Encode does not support. A map[string]any is an
-- association list in the order in which its keys were first inserted.
mutual
  pub data Value : Type 0 where
    str : Bytes → Value
    bytes : Bytes → Value
    int64 : ℤ → Value
    int : ℤ → Value
    list : Items → Value
    dict : Fields → Value
    other : Value

  pub data Items : Type 0 where
    nil : Items
    cons : Value → Items → Items

  pub data Fields : Type 0 where
    end : Fields
    field : Bytes → Value → Fields → Fields

-- Equality of Go strings.
abbrev pub str_eq : Bytes → Bytes → Bool
str_eq [] [] = true
str_eq [] (b ∷ t) = false
str_eq (a ∷ s) [] = false
str_eq (a ∷ s) (b ∷ t) = a == b && str_eq s t

-- `dict[key] = val`.
unfoldable pub put : Bytes → Value → Fields → Fields
put k v end = field k v end
put k v (field j w fs) = if str_eq j k then field j v fs else field j w (put k v fs)

-- `len` of a slice and of a map.
abbrev pub len_items : Items → ℕ
len_items nil = 0
len_items (cons v xs) = suc (len_items xs)

abbrev pub len_fields : Fields → ℕ
len_fields end = 0
len_fields (field k v fs) = suc (len_fields fs)

-- How deep collections nest, and how many elements all the collections have together.
unfoldable mutual
  pub depth : Value → ℕ
  depth (list xs) = depth_items xs
  depth (dict fs) = depth_fields fs
  depth _ = 0

  pub depth_items : Items → ℕ
  depth_items nil = 0
  depth_items (cons v xs) = max (suc (depth v)) (depth_items xs)

  pub depth_fields : Fields → ℕ
  depth_fields end = 0
  depth_fields (field k v fs) = max (suc (depth v)) (depth_fields fs)

unfoldable mutual
  pub items : Value → ℕ
  items (list xs) = items_items xs
  items (dict fs) = items_fields fs
  items _ = 0

  pub items_items : Items → ℕ
  items_items nil = 0
  items_items (cons v xs) = suc (items v + items_items xs)

  pub items_fields : Fields → ℕ
  items_fields end = 0
  items_fields (field k v fs) = suc (items v + items_fields fs)
