-- ===== src/Dht/Tests.antt =====
-- The theorems on the routing table at concrete tables.
use mathlib.Core.List.{Permᴰ}
use stor.Prelude.{refl, [], ◌∷◌, ◌++◌, List, ◌≡◌, length, min, replicate, some, true, arith}
use stor.Prelude.Words.{Bytes}
use stor.Dht.Compact.{
  CompactNodeInfo, marshal_compact_node_info, unmarshal_compact_node_info,
  marshal_compact_node_info6, unmarshal_compact_node_info-marshal,
}
use stor.Prelude.Int.{pos}
use stor.Prelude.Text.{codes}
use stor.Bencode.Value.{str, field, end, put}
use stor.Bencode.Access.{get}
use stor.Dht.Krpc.{KrpcMessage, new_response, new_get_peers_query, new_announce_peer_query}
use stor.Dht.Node.{
  Address, Dht, respond_get_peers, respond_announce_peer, make_token, put_nodes, closest_as_compact,
  parse_want, wants,
}
use stor.Dht.Node.Tokens.{packet, rotates, run, rotations, respond_announce_peer-respond_get_peers}
use stor.Dht.Table.{
  Node, RoutingTable, new_routing_table, update, closest, all_nodes, concat, sort_by_distance,
  sort_loop,
}
use stor.Dht.Valid.{Valid}
use stor.Dht.Updates.{Updates}
use stor.Dht.Closest.{NearestFirst, closest_lem}

abbrev own_id : Bytes
own_id = replicate 20 0

abbrev near_node : Node
near_node = record { id = 1 ∷ replicate 19 0; addr = 10 ∷ 0 ∷ 0 ∷ 1 ∷ []; last_seen = 0 }

abbrev far_node : Node
far_node = record { id = 200 ∷ replicate 19 0; addr = 10 ∷ 0 ∷ 0 ∷ 2 ∷ []; last_seen = 0 }

abbrev table : RoutingTable
table = update 2 near_node (update 1 far_node (new_routing_table own_id))

closest_example :
    (others : List Node) × Permᴰ (closest own_id 1 table ++ others) (all_nodes table)
    × NearestFirst own_id (closest own_id 1 table ++ others)
    × (length (closest own_id 1 table) ≡ min 1 (length (all_nodes table)))
closest_example = closest_lem own_id 1 table

abbrev compact_nodes : List CompactNodeInfo
compact_nodes =
    record { id = 1 ∷ replicate 19 0; ip = 10 ∷ 0 ∷ 0 ∷ 1 ∷ []; port = 6881 }
    ∷ record { id = replicate 20 9; ip = 192 ∷ 168 ∷ 1 ∷ 7 ∷ []; port = 65535 }
    ∷ []

unmarshal_compact_node_info-marshal_example :
    unmarshal_compact_node_info (marshal_compact_node_info compact_nodes) ≡ some compact_nodes
unmarshal_compact_node_info-marshal_example =
    unmarshal_compact_node_info-marshal compact_nodes
      ((refl, refl, omega arith), ((refl, refl, omega arith), tt))

-- A node that knows nobody, and two packets' messages.
abbrev lonely : Dht
lonely = record {
  id = replicate 20 1;
  table = new_routing_table (replicate 20 1);
  table_v6 = new_routing_table (replicate 20 1);
  pending = [];
  token_secret = 7 ∷ [];
  token_secret_old = 8 ∷ [];
}

abbrev asker : Address
asker = record { ip = 10 ∷ 0 ∷ 0 ∷ 1 ∷ []; port = 6881 }

abbrev sum : Bytes → Bytes
sum b = b

abbrev asked : KrpcMessage
asked = new_get_peers_query (codes "aa") (replicate 20 2) (replicate 20 3)

abbrev answer : KrpcMessage
answer = new_response (codes "aa") (
    field (codes "id") (str (replicate 20 1)) (
      field (codes "token") (str (10 ∷ 0 ∷ 0 ∷ 1 ∷ 7 ∷ []))
        (field (codes "nodes") (str []) (field (codes "nodes6") (str []) end))))

answered : respond_get_peers sum asked asker lonely ≡ some answer
unfolding respond_get_peers make_token new_get_peers_query new_response get put put_nodes
    closest_as_compact parse_want wants closest new_routing_table all_nodes concat
    marshal_compact_node_info marshal_compact_node_info6 sort_by_distance sort_loop
answered = refl

respond_announce_peer-respond_get_peers_example :
    respond_announce_peer sum
      (new_announce_peer_query
        (codes "bb")
        (replicate 20 2)
        (replicate 20 3)
        (pos 6881)
        (10 ∷ 0 ∷ 0 ∷ 1 ∷ 7 ∷ [])
        true)
      asker
      (run sum (packet 5 (codes "x") asker ∷ rotates (9 ∷ []) ∷ []) lonely)
    ≡ some (new_response (codes "bb") (field (codes "id") (str (replicate 20 1)) end))
unfolding new_announce_peer_query new_response get rotations
respond_announce_peer-respond_get_peers_example =
    respond_announce_peer-respond_get_peers sum asked
      (new_announce_peer_query (codes "bb") (replicate 20 2) (replicate 20 3) (pos 6881)
        (10 ∷ 0 ∷ 0 ∷ 1 ∷ 7 ∷ []) true)
      asker asker lonely answer (packet 5 (codes "x") asker ∷ rotates (9 ∷ []) ∷ []) answered refl
      refl (omega arith)
