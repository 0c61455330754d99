-- ===== src/Dht/Table.antt =====
-- dht/table.go: the routing table. Each method holds the lock of one bucket at a time; a node's
-- record is a value, as the table only replaces it.
use mathlib.Core.List.{reverse_aux}
use stor.Prelude.{
  ℕ, ◌+◌, ◌-◌, if◌then◌else◌, ltb, leb, [], ◌∷◌, ◌++◌, List, Option, none, some, replicate, length,
  get_or, set, take,
}
use stor.Prelude.Words.{Bytes}
use stor.Dht.Id.{distance, less, zero_prefix_len, equal}

pub record Node : Type 0 where
  pub id : Bytes
  pub addr : Bytes
  pub last_seen : ℕ

pub record RoutingTable : Type 0 where
  pub self : Bytes
  pub buckets : List (List Node)

abbrev pub k_bucket : ℕ
k_bucket = 8

abbrev pub num_buckets : ℕ
num_buckets = 160

unfoldable pub new_routing_table : Bytes → RoutingTable
new_routing_table self = record { self = self; buckets = replicate num_buckets [] }

unfoldable pub bucket_index : Bytes → Bytes → ℕ
bucket_index self id =
    let idx = zero_prefix_len (distance self id) in
    if leb num_buckets idx then num_buckets - 1 else idx

-- The loop that looks for the ID.
unfoldable pub find_id : Bytes → List Node → Option Node
find_id i [] = none
find_id i (n ∷ ns) = if equal n.id i then some n else find_id i ns

unfoldable pub delete_id : Bytes → List Node → List Node
delete_id i [] = []
delete_id i (n ∷ ns) = if equal n.id i then ns else n ∷ delete_id i ns

unfoldable pub update_bucket : ℕ → Node → List Node → List Node
update_bucket now n ns = elim (find_id n.id ns) [
  | some existing ↦ delete_id n.id ns ++ record existing { addr = n.addr; last_seen = now } ∷ []
  | none ↦ if ltb (length ns) k_bucket then ns ++ record n { last_seen = now } ∷ [] else ns
]

unfoldable pub update : ℕ → Node → RoutingTable → RoutingTable
update now n rt =
    let idx = bucket_index rt.self n.id in
    if equal n.id rt.self
    then rt
    else record rt { buckets = set rt.buckets idx (update_bucket now n (get_or rt.buckets idx [])) }

unfoldable pub concat : List (List Node) → List Node
concat [] = []
concat (b ∷ bs) = b ++ concat bs

unfoldable pub all_nodes : RoutingTable → List Node
all_nodes rt = concat rt.buckets

unfoldable pub total : List (List Node) → ℕ
total [] = 0
total (b ∷ bs) = length b + total bs

unfoldable pub len : RoutingTable → ℕ
len rt = total rt.buckets

-- The inner loop: the sorted part of the slice from its end on, and the key that moves down it.
unfoldable pub shift_down : Bytes → Node → List Node → List Node
shift_down target key [] = key ∷ []
shift_down target key (n ∷ ns) =
    if less (distance key.id target) (distance n.id target)
    then n ∷ shift_down target key ns
    else key ∷ n ∷ ns

unfoldable pub sort_loop : Bytes → List Node → List Node → List Node
sort_loop target done [] = done
sort_loop target done (key ∷ ns) = sort_loop target (shift_down target key done) ns

unfoldable pub sort_by_distance : List Node → Bytes → List Node
sort_by_distance nodes target = reverse_aux (sort_loop target [] nodes) []

unfoldable pub closest : Bytes → ℕ → RoutingTable → List Node
closest target k rt =
    let all = sort_by_distance (all_nodes rt) target in
    if ltb k (length all) then take k all else all
