-- ===== src/Dht/Krpc.antt =====
-- dht/krpc.go: messages, their codec, and the queries. Transaction ids are random: an argument. A nil
-- map is an empty one.
use stor.Prelude.{Bool, if◌then◌else◌, [], Option, none, some}
use stor.Prelude.Int.{ℤ, pos}
use stor.Prelude.Words.{Bytes}
use stor.Prelude.Text.{codes}
use stor.Bencode.Value.{
  Value, Items, Fields, str, int64, list, dict, nil, cons, end, field, put, str_eq,
}
use stor.Bencode.Access.{get}
use stor.Bencode.Encode.{encode}
use stor.Bencode.Decode.{decode, ok}

abbrev pub msg_query : Bytes
msg_query = codes "q"

abbrev pub msg_response : Bytes
msg_response = codes "r"

abbrev pub msg_error : Bytes
msg_error = codes "e"

pub record KrpcMessage : Type 0 where
  pub t : Bytes
  pub y : Bytes
  pub q : Bytes
  pub a : Fields
  pub r : Fields
  pub e : Items

-- What EncodeKRPC passes to Encode.
unfoldable pub krpc_dict : KrpcMessage → Fields
krpc_dict msg =
    let d = put (codes "y") (str msg.y) (put (codes "t") (str msg.t) end) in
    if str_eq msg.y msg_query
    then put (codes "a") (dict msg.a) (put (codes "q") (str msg.q) d)
    else if str_eq msg.y msg_response
    then put (codes "r") (dict msg.r) d
    else if str_eq msg.y msg_error
    then put (codes "e") (list msg.e) d
    else d

unfoldable pub encode_krpc : KrpcMessage → Option Bytes
unfolding krpc_dict
encode_krpc msg = encode (dict (krpc_dict msg))

-- The assertions that give a zero value where they fail.
abbrev pub string_or_empty : Option Value → Bytes
string_or_empty (some (str s)) = s
string_or_empty _ = []

abbrev pub dict_or_empty : Option Value → Fields
dict_or_empty (some (dict d)) = d
dict_or_empty _ = end

abbrev pub list_or_empty : Option Value → Items
list_or_empty (some (list xs)) = xs
list_or_empty _ = nil

unfoldable pub krpc_from_dict : Fields → KrpcMessage
krpc_from_dict d = record {
  t = string_or_empty (get (codes "t") d);
  y = string_or_empty (get (codes "y") d);
  q = string_or_empty (get (codes "q") d);
  a = dict_or_empty (get (codes "a") d);
  r = dict_or_empty (get (codes "r") d);
  e = list_or_empty (get (codes "e") d);
}

unfoldable pub decode_krpc : Bytes → Option KrpcMessage
unfolding krpc_from_dict
decode_krpc b = elim (decode b) [ ok (dict d) ↦ some (krpc_from_dict d) | _ ↦ none ]

abbrev query : Bytes → Bytes → Fields → KrpcMessage
query txn q a = record { t = txn; y = msg_query; q = q; a = a; r = end; e = nil }

unfoldable pub new_ping_query : Bytes → Bytes → KrpcMessage
new_ping_query txn id = query txn (codes "ping") (field (codes "id") (str id) end)

abbrev pub bep32_want : Value
bep32_want = list (cons (str (codes "n4")) (cons (str (codes "n6")) nil))

unfoldable pub new_find_node_query : Bytes → Bytes → Bytes → KrpcMessage
new_find_node_query txn id target = query txn (codes "find_node") (
    field (codes "id") (str id)
      (field (codes "target") (str target) (field (codes "want") bep32_want end)))

unfoldable pub new_get_peers_query : Bytes → Bytes → Bytes → KrpcMessage
new_get_peers_query txn id info_hash = query txn (codes "get_peers") (
    field (codes "id") (str id)
      (field (codes "info_hash") (str info_hash) (field (codes "want") bep32_want end)))

unfoldable pub new_announce_peer_query : Bytes → Bytes → Bytes → ℤ → Bytes → Bool → KrpcMessage
new_announce_peer_query txn id info_hash port token implied_port =
    query txn (codes "announce_peer") (
      field (codes "id") (str id) (
        field (codes "info_hash") (str info_hash) (
          field (codes "port") (int64 port) (
            field (codes "token") (str token)
              (field (codes "implied_port") (int64 (pos (if implied_port then 1 else 0))) end)))))

unfoldable pub new_response : Bytes → Fields → KrpcMessage
new_response txn values = record { t = txn; y = msg_response; q = []; a = end; r = values; e = nil }
