-- ===== src/Dht/Node.antt =====
-- dht/node.go: the node's answers to packets, its transactions and its tokens. A handler returns the
-- node and the packet that it sends, if any; sha1, the clock and random secrets are arguments. The
-- address of a table's node is the IP followed by the two bytes of the port.

pub mod Tokens
use stor.Prelude.{
  ℕ, ◌+◌, ◌-◌, Bool, true, false, not, if◌then◌else◌, ◌==◌, ◌&&◌, ◌||◌, ltb, [], ◌∷◌, ◌++◌, List,
  map, Option, none, some, length, take, drop,
}
use stor.Prelude.Words.{Bytes, put_uint16, uint16_at}
use stor.Prelude.Text.{codes}
use stor.Bencode.Value.{Value, Items, Fields, str, list, nil, cons, end, field, put, str_eq}
use stor.Bencode.Access.{get}
use stor.Dht.Table.{Node, RoutingTable, k_bucket, update, closest, len}
use stor.Dht.Compact.{
  CompactNodeInfo, to4, to16, marshal_compact_node_info, marshal_compact_node_info6,
}
use stor.Dht.Krpc.{
  KrpcMessage, msg_query, msg_response, msg_error, encode_krpc, decode_krpc, string_or_empty,
  new_response,
}

pub record Address : Type 0 where
  pub ip : Bytes
  pub port : ℕ

-- Pending transactions are a list of their ids, with the times of their creation.
pub record Dht : Type 0 where
  pub id : Bytes
  pub table : RoutingTable
  pub table_v6 : RoutingTable
  pub pending : List (Bytes × ℕ)
  pub token_secret : Bytes
  pub token_secret_old : Bytes

abbrev pub addr_bytes : Address → Bytes
addr_bytes a = a.ip ++ put_uint16 a.port

abbrev ip_of : Bytes → Bytes
ip_of b = take (length b - 2) b

abbrev port_of : Bytes → ℕ
port_of b = uint16_at (drop (length b - 2) b) 0

unfoldable pub table_size : Dht → ℕ
table_size d = len d.table + len d.table_v6

unfoldable pub update_node : ℕ → Node → Dht → Dht
update_node now n d = elim (to4 (ip_of n.addr)) [
  | some v4 ↦ record d { table = update now n d.table }
  | none ↦ elim (to16 (ip_of n.addr)) [
    | some v6 ↦ record d { table_v6 = update now n d.table_v6 }
    | none ↦ d
  ]
]

unfoldable pub has_id : Bytes → List (Bytes × ℕ) → Bool
has_id t [] = false
has_id t ((s, created) ∷ ps) = str_eq s t || has_id t ps

unfoldable pub delete_pending : Bytes → List (Bytes × ℕ) → List (Bytes × ℕ)
delete_pending t [] = []
delete_pending t ((s, created) ∷ ps) =
    let rest = delete_pending t ps in if str_eq s t then rest else (s, created) ∷ rest

-- The message goes to the waiting query, if there is one.
unfoldable pub handle_response : KrpcMessage → Dht → Dht × Option KrpcMessage
unfolding has_id delete_pending
handle_response msg d =
    if has_id msg.t d.pending
    then (record d { pending = delete_pending msg.t d.pending }, some msg)
    else (d, none)

-- sendQuery: a packet that cannot be encoded is not sent.
unfoldable pub send_query : ℕ → KrpcMessage → Dht → Dht × Option Bytes
unfolding delete_pending
send_query now msg d =
    let others = delete_pending msg.t d.pending in
    elim (encode_krpc msg) [
      | none ↦ (record d { pending = others }, none)
      | some b ↦ (record d { pending = (msg.t, now) ∷ others }, some b)
    ]

-- cleanStalePending with its cutoff.
unfoldable pub clean_stale_pending : ℕ → List (Bytes × ℕ) → List (Bytes × ℕ)
clean_stale_pending cutoff [] = []
clean_stale_pending cutoff ((t, created) ∷ ps) =
    let rest = clean_stale_pending cutoff ps in
    if ltb created cutoff then rest else (t, created) ∷ rest

unfoldable pub rotate_token : Bytes → Dht → Dht
rotate_token secret d = record d { token_secret = secret; token_secret_old = d.token_secret }

unfoldable pub wants : Bytes → Items → Bool
wants s nil = false
wants s (cons (str t) xs) = str_eq t s || wants s xs
wants s (cons _ xs) = wants s xs

unfoldable pub parse_want : Option Value → Bool × Bool
unfolding wants
parse_want (some (list xs)) =
    let v4 = wants (codes "n4") xs in
    let v6 = wants (codes "n6") xs in if not v4 && not v6 then (true, false) else (v4, v6)
parse_want _ = (true, false)

unfoldable pub closest_as_compact : RoutingTable → Bytes → List CompactNodeInfo
closest_as_compact rt target =
    map (λ n. record { id = n.id; ip = ip_of n.addr; port = port_of n.addr })
      (closest target k_bucket rt)

-- The nodes of the families that are wanted.
unfoldable pub put_nodes : Dht → Bytes → Bool × Bool → Fields → Fields
unfolding closest_as_compact
put_nodes d target (v4, v6) r =
    let with_v4 =
      if v4
      then put (codes "nodes") (str (marshal_compact_node_info (closest_as_compact d.table target)))
          r
      else r in
    if v6
    then put (codes "nodes6")
        (str (marshal_compact_node_info6 (closest_as_compact d.table_v6 target))) with_v4
    else with_v4

module _ (sha1 : Bytes → Bytes) where
  abbrev pub token_of : Bytes → Bytes → Bytes
  token_of secret ip = take 8 (sha1 (ip ++ secret))

  unfoldable pub make_token : Dht → Address → Bytes
  make_token d addr = token_of d.token_secret addr.ip

  unfoldable pub validate_token : Dht → Address → Bytes → Bool
  validate_token d addr token =
      str_eq (token_of d.token_secret addr.ip) token
      || str_eq (token_of d.token_secret_old addr.ip) token

  unfoldable pub respond_ping : KrpcMessage → Dht → Option KrpcMessage
  respond_ping msg d = some (new_response msg.t (field (codes "id") (str d.id) end))

  unfoldable pub respond_find_node : KrpcMessage → Dht → Option KrpcMessage
  unfolding parse_want put_nodes
  respond_find_node msg d =
      let target = string_or_empty (get (codes "target") msg.a) in
      if not (length target == 20)
      then none
      else some (
          new_response msg.t (
            put_nodes d target (parse_want (get (codes "want") msg.a))
              (field (codes "id") (str d.id) end)))

  unfoldable pub respond_get_peers : KrpcMessage → Address → Dht → Option KrpcMessage
  unfolding parse_want put_nodes make_token
  respond_get_peers msg addr d =
      let target = string_or_empty (get (codes "info_hash") msg.a) in
      if not (length target == 20)
      then none
      else some (
          new_response msg.t (
            put_nodes d target (parse_want (get (codes "want") msg.a)) (
              field (codes "id") (str d.id) (field (codes "token") (str (make_token d addr)) end))))

  unfoldable pub respond_announce_peer : KrpcMessage → Address → Dht → Option KrpcMessage
  unfolding validate_token
  respond_announce_peer msg addr d =
      if validate_token d addr (string_or_empty (get (codes "token") msg.a))
      then some (new_response msg.t (field (codes "id") (str d.id) end))
      else none

  -- The node that asks is put into a table where it gives an id of 20 bytes.
  unfoldable pub learn : ℕ → KrpcMessage → Address → Dht → Dht
  unfolding update_node
  learn now msg addr d =
      let id = string_or_empty (get (codes "id") msg.a) in
      if length id == 20
      then update_node now (record { id = id; addr = addr_bytes addr; last_seen = 0 }) d
      else d

  unfoldable pub handle_query : ℕ → KrpcMessage → Address → Dht → Dht × Option KrpcMessage
  unfolding learn respond_ping respond_find_node respond_get_peers respond_announce_peer
  handle_query now msg addr d =
      let d' = learn now msg addr d in
      if str_eq msg.q (codes "ping")
      then (d', respond_ping msg d')
      else if str_eq msg.q (codes "find_node")
      then (d', respond_find_node msg d')
      else if str_eq msg.q (codes "get_peers")
      then (d', respond_get_peers msg addr d')
      else if str_eq msg.q (codes "announce_peer")
      then (d', respond_announce_peer msg addr d')
      else (d', none)

  -- One packet of readLoop: the node, the answer, and what a waiting query is given.
  unfoldable pub handle_packet :
      ℕ → Bytes → Address → Dht → Dht × Option KrpcMessage × Option KrpcMessage
  unfolding handle_query handle_response
  handle_packet now b addr d = elim (decode_krpc b) [
    | none ↦ (d, none, none)
    | some msg ↦
        let (asked, answer) = handle_query now msg addr d in
        let (told, given) = handle_response msg d in
        if str_eq msg.y msg_query
        then (asked, answer, none)
        else if str_eq msg.y msg_response || str_eq msg.y msg_error
        then (told, none, given)
        else (d, none, none)
  ]
