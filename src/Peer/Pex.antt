-- ===== src/Peer/Pex.antt =====
-- peer/pex.go: EncodePEX and DecodePEX. A net.IP is its 4 or 16 bytes.
use stor.Prelude.{
  ℕ, zero, suc, ◌+◌, ◌/◌, ◌%◌, Bool, true, false, not, if◌then◌else◌, ◌==◌, ltb, [], ◌∷◌, ◌++◌,
  List, Option, none, some, length, take, drop, get_or,
}
use stor.Prelude.Words.{Bytes, put_uint16, uint16_at}
use stor.Prelude.Text.{codes}
use stor.Bencode.Value.{Value, Fields, str, dict, end, put}
use stor.Bencode.Access.{get}
use stor.Bencode.Encode.{encode}
use stor.Bencode.Decode.{decode, ok}
use stor.Dht.Compact.{to4, to16}

abbrev pub max_pex_peers : ℕ
max_pex_peers = 10000

pub record PexPeer : Type 0 where
  pub ip : Bytes
  pub port : ℕ
  pub seed : Bool

pub record PexMessage : Type 0 where
  pub added : List PexPeer
  pub dropped : List PexPeer

abbrev flag : Bool → ℕ
flag s = if s then 2 else 0

-- The address that a loop of EncodePEX writes for a peer, if it writes one.
abbrev pub address : Bool → Bytes → Option Bytes
address true ip = to4 ip
address false ip = elim (to4 ip) [ some v4 ↦ none | none ↦ to16 ip ]

-- encodeAddedV4 and encodeAddedV6, by whether the addresses are IPv4 ones: the peers and the flags.
unfoldable pub encode_added : Bool → List PexPeer → Bytes × Bytes
encode_added v4 [] = ([], [])
encode_added v4 (p ∷ ps) =
    let (compact, flags) = encode_added v4 ps in
    elim (address v4 p.ip) [
      | none ↦ (compact, flags)
      | some a ↦ ((a ++ put_uint16 p.port) ++ compact, flag p.seed ∷ flags)
    ]

-- encodeDroppedV4 and encodeDroppedV6.
unfoldable pub encode_dropped : Bool → List PexPeer → Bytes
encode_dropped v4 [] = []
encode_dropped v4 (p ∷ ps) =
    let compact = encode_dropped v4 ps in
    elim (address v4 p.ip) [ none ↦ compact | some a ↦ (a ++ put_uint16 p.port) ++ compact ]

abbrev put_some : Bytes → Bytes → Fields → Fields
put_some k s d = if length s == 0 then d else put k (str s) d

abbrev put_added : Bytes → Bytes → Bytes × Bytes → Fields → Fields
put_added k kf (compact, flags) d =
    if length compact == 0 then d else put kf (str flags) (put k (str compact) d)

-- What EncodePEX passes to Encode.
unfoldable pub pex_dict : PexMessage → Fields
unfolding encode_added encode_dropped
pex_dict msg = put_some (codes "dropped6") (encode_dropped false msg.dropped) (
    put_some (codes "dropped") (encode_dropped true msg.dropped) (
      put_added (codes "added6") (codes "added6.f") (encode_added false msg.added)
        (put_added (codes "added") (codes "added.f") (encode_added true msg.added) end)))

unfoldable pub encode_pex : PexMessage → Option Bytes
unfolding pex_dict
encode_pex msg = encode (dict (pex_dict msg))

-- The loops of DecodePEX, with the length of an address.
unfoldable pub cut_peers : ℕ → ℕ → Bytes → Bytes → List PexPeer
cut_peers k zero b flags = []
cut_peers k (suc n) b flags =
    record { ip = take k b; port = uint16_at (drop k b) 0; seed = get_or flags 0 0 / 2 % 2 == 1 }
    ∷ cut_peers k n (drop 2 (drop k b)) (drop 1 flags)

abbrev string_or_empty : Option Value → Bytes
string_or_empty (some (str s)) = s
string_or_empty _ = []

-- One of the four fields: one that is missing, no string or of a wrong length is passed over. `none`
-- is the error of too many peers.
unfoldable pub decode_peers : ℕ → Option Value → Bytes → Option (List PexPeer)
unfolding cut_peers
decode_peers k (some (str b)) flags =
    let n = length b / (k + 2) in
    if not (length b % (k + 2) == 0)
    then some []
    else if ltb max_pex_peers n
    then none
    else some (cut_peers k n b flags)
decode_peers k _ flags = some []

abbrev both : Option (List PexPeer) → Option (List PexPeer) → Option (List PexPeer)
both none b = none
both (some a) none = none
both (some a) (some b) = some (a ++ b)

unfoldable pub pex_from_dict : Fields → Option PexMessage
unfolding decode_peers
pex_from_dict d =
    let added =
      both (decode_peers 4 (get (codes "added") d) (string_or_empty (get (codes "added.f") d)))
        (decode_peers 16 (get (codes "added6") d) (string_or_empty (get (codes "added6.f") d))) in
    let dropped =
      both (decode_peers 4 (get (codes "dropped") d) [])
        (decode_peers 16 (get (codes "dropped6") d) []) in
    elim added [
      | none ↦ none
      | some a ↦ elim dropped [ none ↦ none | some r ↦ some (record { added = a; dropped = r }) ]
    ]

-- `none` is an error and `some none` the nil message of a value that is no dictionary.
unfoldable pub decode_pex : Bytes → Option (Option PexMessage)
unfolding pex_from_dict
decode_pex b = elim (decode b) [
  | ok (dict d) ↦ elim (pex_from_dict d) [ none ↦ none | some msg ↦ some (some msg) ]
  | ok _ ↦ some none
  | _ ↦ none
]
