-- ===== src/Bencode/Access.antt =====
-- What the callers of bencode/decode.go do with a decoded value: `d[key]`, and the type assertions.
use stor.Prelude.{if◌then◌else◌, Option, none, some}
use stor.Prelude.Int.{ℤ}
use stor.Prelude.Words.{Bytes}
use stor.Bencode.Value.{Value, Items, Fields, str, int64, list, dict, end, field, str_eq}

unfoldable pub get : Bytes → Fields → Option Value
get k end = none
get k (field j v fs) = if str_eq j k then some v else get k fs

abbrev pub as_string : Value → Option Bytes
as_string (str s) = some s
as_string _ = none

abbrev pub as_int64 : Value → Option ℤ
as_int64 (int64 n) = some n
as_int64 _ = none

abbrev pub as_list : Value → Option Items
as_list (list xs) = some xs
as_list _ = none

abbrev pub as_dict : Value → Option Fields
as_dict (dict fs) = some fs
as_dict _ = none
