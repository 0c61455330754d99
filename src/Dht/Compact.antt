-- ===== src/Dht/Compact.antt =====
-- dht/id.go: the compact form of nodes, 26 bytes with an IPv4 address and 38 with an IPv6 one. A
-- net.IP is its 4 or 16 bytes.
use stor.Prelude.{
  ℕ, zero, suc, ◌+◌, ◌*◌, ◌/◌, ◌%◌, ◌<◌, true, if◌then◌else◌, ◌==◌, ◌&&◌, [], ◌∷◌, ◌++◌, List,
  Option, none, some, ◌≡◌, refl, ap, ◌∙◌, arith, length, take, drop, replicate, length-append,
  take-append_eq, drop-append_eq, append_assoc, All,
}
use stor.Prelude.Words.{Bytes, put_uint16, uint16_at, uint16-put_uint16}
use stor.Bencode.Value.{str_eq}

pub record CompactNodeInfo : Type 0 where
  pub id : Bytes
  pub ip : Bytes
  pub port : ℕ

-- What stands in front of an IPv4 address among the IPv6 ones.
abbrev v4_prefix : Bytes
v4_prefix = 0 ∷ 0 ∷ 0 ∷ 0 ∷ 0 ∷ 0 ∷ 0 ∷ 0 ∷ 0 ∷ 0 ∷ 255 ∷ 255 ∷ []

-- `net.IP.To4` and `To16`.
unfoldable pub to4 : Bytes → Option Bytes
to4 ip =
    if length ip == 4
    then some ip
    else if length ip == 16 && str_eq (take 12 ip) v4_prefix
    then some (drop 12 ip)
    else none

unfoldable pub to16 : Bytes → Option Bytes
to16 ip =
    if length ip == 4 then some (v4_prefix ++ ip) else if length ip == 16 then some ip else none

abbrev address4 : Option Bytes → ℕ → Bytes
address4 none port = replicate 6 0
address4 (some ip) port = ip ++ put_uint16 port

unfoldable pub marshal_node : CompactNodeInfo → Bytes
marshal_node n = n.id ++ address4 (to4 n.ip) n.port

unfoldable pub marshal_compact_node_info : List CompactNodeInfo → Bytes
marshal_compact_node_info [] = []
marshal_compact_node_info (n ∷ ns) = marshal_node n ++ marshal_compact_node_info ns

abbrev address6 : Option Bytes → Option Bytes → Bytes
address6 (some ip) none = ip
address6 _ _ = replicate 16 0

unfoldable pub marshal_node6 : CompactNodeInfo → Bytes
marshal_node6 n = n.id ++ (address6 (to16 n.ip) (to4 n.ip) ++ put_uint16 n.port)

unfoldable pub marshal_compact_node_info6 : List CompactNodeInfo → Bytes
marshal_compact_node_info6 [] = []
marshal_compact_node_info6 (n ∷ ns) = marshal_node6 n ++ marshal_compact_node_info6 ns

-- The loops that cut the bytes, with the length of an address.
unfoldable pub cut_nodes : ℕ → ℕ → Bytes → List CompactNodeInfo
cut_nodes k zero b = []
cut_nodes k (suc n) b =
    record { id = take 20 b; ip = take k (drop 20 b); port = uint16_at (drop k (drop 20 b)) 0 }
    ∷ cut_nodes k n (drop 2 (drop k (drop 20 b)))

unfoldable pub unmarshal_compact_node_info : Bytes → Option (List CompactNodeInfo)
unfolding cut_nodes
unmarshal_compact_node_info b =
    if length b % 26 == 0 then some (cut_nodes 4 (length b / 26) b) else none

unfoldable pub unmarshal_compact_node_info6 : Bytes → Option (List CompactNodeInfo)
unfolding cut_nodes
unmarshal_compact_node_info6 b =
    if length b % 38 == 0 then some (cut_nodes 16 (length b / 38) b) else none

-- A node with an IPv4 address, and one with a proper IPv6 address.
abbrev pub IsNode4 : CompactNodeInfo → Type 0
IsNode4 n = (length n.id ≡ 20) × (length n.ip ≡ 4) × (n.port < 65536)

abbrev pub IsNode6 : CompactNodeInfo → Type 0
IsNode6 n = (length n.id ≡ 20) × (length n.ip ≡ 16) × (to4 n.ip ≡ none) × (n.port < 65536)

-- One round of the loop takes off what one node wrote.
cut_nodes-append :
    (k m : ℕ) (n : CompactNodeInfo) (rest : Bytes)
    → length n.id ≡ 20
    → length n.ip ≡ k
    → n.port < 65536
    → cut_nodes k (suc m) ((n.id ++ (n.ip ++ put_uint16 n.port)) ++ rest) ≡ n ∷ cut_nodes k m rest
unfolding cut_nodes
cut_nodes-append k m n rest i a p = rw (
  append_assoc n.id (n.ip ++ put_uint16 n.port) rest,
  append_assoc n.ip (put_uint16 n.port) rest,
  take-append_eq 20 n.id (n.ip ++ (put_uint16 n.port ++ rest)) i,
  drop-append_eq 20 n.id (n.ip ++ (put_uint16 n.port ++ rest)) i,
  take-append_eq k n.ip (put_uint16 n.port ++ rest) a,
  drop-append_eq k n.ip (put_uint16 n.port ++ rest) a,
  uint16-put_uint16 n.port p,
)

to4_of_4 : (ip : Bytes) → length ip ≡ 4 → to4 ip ≡ some ip
unfolding to4
to4_of_4 ip h = rw h refl

to16_of_16 : (ip : Bytes) → length ip ≡ 16 → to16 ip ≡ some ip
unfolding to16
to16_of_16 ip h = rw h refl

marshal_node4 :
    (n : CompactNodeInfo) → IsNode4 n → marshal_node n ≡ n.id ++ (n.ip ++ put_uint16 n.port)
unfolding marshal_node
marshal_node4 n (i, a, p) = rw (to4_of_4 n.ip a) refl

marshal_node_16 :
    (n : CompactNodeInfo) → IsNode6 n → marshal_node6 n ≡ n.id ++ (n.ip ++ put_uint16 n.port)
unfolding marshal_node6
marshal_node_16 n (i, a, v, p) = rw (to16_of_16 n.ip a, v) refl

module _ (k : ℕ) (form : CompactNodeInfo → Bytes) (Fits : CompactNodeInfo → Type 0)
    (form_is : (n : CompactNodeInfo) → Fits n → form n ≡ n.id ++ (n.ip ++ put_uint16 n.port))
    (sizes : (n : CompactNodeInfo)
      → Fits n
      → (length n.id ≡ 20) × (length n.ip ≡ k) × (n.port < 65536)) where
  -- What the nodes write, one after the other.
  join : List CompactNodeInfo → Bytes
  join [] = []
  join (n ∷ ns) = form n ++ join ns

  cut_nodes-join :
      (ns : List CompactNodeInfo) → All Fits ns → cut_nodes k (length ns) (join ns) ≡ ns
  unfolding join cut_nodes
  cut_nodes-join [] h = refl
  cut_nodes-join (n ∷ ns) h =
      let (i, a, p) = sizes n h.0 in
      rw (form_is n h.0) (cut_nodes-append k (length ns) n (join ns) i a p)
      ∙ ap (◌∷◌ n) (cut_nodes-join ns h.1)

  length-join : (ns : List CompactNodeInfo) → All Fits ns → length (join ns) ≡ length ns * (22 + k)
  unfolding join
  length-join [] h = omega arith
  length-join (n ∷ ns) h =
      let (i, a, p) = sizes n h.0 in
      omega (
        arith,
        length-append (form n) (join ns),
        ap length (form_is n h.0),
        length-append n.id (n.ip ++ put_uint16 n.port),
        length-append n.ip (put_uint16 n.port),
        length-join ns h.1,
      )

join4 :
    (ns : List CompactNodeInfo)
    → marshal_compact_node_info ns ≡ join 4 marshal_node IsNode4 marshal_node4 (λ n h. h) ns
unfolding marshal_compact_node_info join
join4 [] = refl
join4 (n ∷ ns) = ap (λ t. marshal_node n ++ t) (join4 ns)

-- Nodes with IPv4 addresses are read back from their compact form.
pub unmarshal_compact_node_info-marshal :
    (ns : List CompactNodeInfo)
    → All IsNode4 ns
    → unmarshal_compact_node_info (marshal_compact_node_info ns) ≡ some ns
unfolding unmarshal_compact_node_info
unmarshal_compact_node_info-marshal ns h =
    let b = join 4 marshal_node IsNode4 marshal_node4 (λ n h. h) ns in
    let len : length b ≡ length ns * 26 =
      length-join 4 marshal_node IsNode4 marshal_node4 (λ n h. h) ns h in
    let whole : (length b % 26 == 0) ≡ true = ground (arith, len) in
    let count : length b / 26 ≡ length ns = omega (arith, len) in
    rw (join4 ns, whole, count)
      (ap some (cut_nodes-join 4 marshal_node IsNode4 marshal_node4 (λ n h. h) ns h))

sizes6 :
    (n : CompactNodeInfo) → IsNode6 n → (length n.id ≡ 20) × (length n.ip ≡ 16) × (n.port < 65536)
sizes6 n (i, a, v, p) = (i, a, p)

join6 :
    (ns : List CompactNodeInfo)
    → marshal_compact_node_info6 ns ≡ join 16 marshal_node6 IsNode6 marshal_node_16 sizes6 ns
unfolding marshal_compact_node_info6 join
join6 [] = refl
join6 (n ∷ ns) = ap (λ t. marshal_node6 n ++ t) (join6 ns)

-- Nodes with IPv6 addresses that stand for no IPv4 address are read back from their compact form.
pub unmarshal_compact_node_info6-marshal :
    (ns : List CompactNodeInfo)
    → All IsNode6 ns
    → unmarshal_compact_node_info6 (marshal_compact_node_info6 ns) ≡ some ns
unfolding unmarshal_compact_node_info6
unmarshal_compact_node_info6-marshal ns h =
    let b = join 16 marshal_node6 IsNode6 marshal_node_16 sizes6 ns in
    let len : length b ≡ length ns * 38 =
      length-join 16 marshal_node6 IsNode6 marshal_node_16 sizes6 ns h in
    let whole : (length b % 38 == 0) ≡ true = ground (arith, len) in
    let count : length b / 38 ≡ length ns = omega (arith, len) in
    rw (join6 ns, whole, count)
      (ap some (cut_nodes-join 16 marshal_node6 IsNode6 marshal_node_16 sizes6 ns h))
