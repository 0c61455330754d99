-- ===== src/Peer/ExtHandshake.antt =====
-- peer/extension.go: the bencoded handshake of the extension protocol. A map[string]int64 is an association list.
use stor.Prelude.{if◌then◌else◌, ◌==◌, [], ◌∷◌, List, Option, none, some, length}
use stor.Prelude.Int.{ℤ, pos, leb_ℤ}
use stor.Prelude.Words.{Bytes}
use stor.Prelude.Text.{codes}
use stor.Bencode.Value.{Value, Fields, str, int64, dict, end, field, put}
use stor.Bencode.Access.{get, as_int64}
use stor.Bencode.Encode.{encode}
use stor.Bencode.Decode.{decode, ok}

pub record ExtHandshake : Type 0 where
  pub m : List (Bytes × ℤ)
  pub metadata_size : ℤ
  pub v : Bytes

unfoldable pub ids_dict : List (Bytes × ℤ) → Fields
ids_dict [] = end
ids_dict ((k, n) ∷ m) = put k (int64 n) (ids_dict m)

-- What EncodeExtHandshake passes to Encode.
unfoldable pub ext_dict : ExtHandshake → Fields
unfolding ids_dict
ext_dict h =
    let with_m = if length h.m == 0 then end else put (codes "m") (dict (ids_dict h.m)) end in
    let with_size =
      if leb_ℤ h.metadata_size (pos 0)
      then with_m
      else put (codes "metadata_size") (int64 h.metadata_size) with_m in
    if length h.v == 0 then with_size else put (codes "v") (str h.v) with_size

unfoldable pub encode_ext_handshake : ExtHandshake → Option Bytes
unfolding ext_dict
encode_ext_handshake h = encode (dict (ext_dict h))

abbrev add_id : Bytes → Option ℤ → List (Bytes × ℤ) → List (Bytes × ℤ)
add_id k none m = m
add_id k (some n) m = (k, n) ∷ m

-- Values that are no numbers are passed over.
unfoldable pub ids : Fields → List (Bytes × ℤ)
ids end = []
ids (field k v fs) = add_id k (as_int64 v) (ids fs)

abbrev int_or_zero : Option Value → ℤ
int_or_zero (some (int64 n)) = n
int_or_zero _ = pos 0

abbrev str_or_empty : Option Value → Bytes
str_or_empty (some (str s)) = s
str_or_empty _ = []

abbrev ids_of : Option Value → Option (List (Bytes × ℤ))
ids_of none = some []
ids_of (some (dict fs)) = some (ids fs)
ids_of _ = none

unfoldable pub from_dict : Fields → Option ExtHandshake
unfolding ids
from_dict d = elim (ids_of (get (codes "m") d)) [
  | none ↦ none
  | some m ↦ some (record {
    m = m;
    metadata_size = int_or_zero (get (codes "metadata_size") d);
    v = str_or_empty (get (codes "v") d);
  })
]

unfoldable pub decode_ext_handshake : Bytes → Option ExtHandshake
unfolding from_dict
decode_ext_handshake b = elim (decode b) [ ok (dict d) ↦ from_dict d | _ ↦ none ]
