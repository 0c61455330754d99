-- ===== src/Dht/Node/Tokens.antt =====
-- dht/node.go: how long a token of get_peers is good for announce_peer.
use mathlib.Core.Option.{some-injective}
use stor.Prelude.{
  ℕ, suc, ◌≤◌, Bool, true, false, ◌==◌, ◌||◌, [], ◌∷◌, List, Option, none, some, ◌≡◌, refl, ◌∙◌,
  arith, length, Bool-cases, inl, inr, ◌⊎◌,
}
use stor.Prelude.Words.{Bytes}
use stor.Prelude.Text.{codes}
use stor.Bencode.Value.{Value, Fields, str, end, field, put, str_eq}
use stor.Bencode.Order.{str_eq_iff}
use stor.Bencode.Access.{get}
use stor.Dht.Table.{Node}
use stor.Dht.Krpc.{
  KrpcMessage, msg_query, msg_response, msg_error, decode_krpc, string_or_empty, new_response,
}
use stor.Dht.Node.{
  Address, Dht, addr_bytes, token_of, parse_want, update_node, handle_response, send_query,
  clean_stale_pending, rotate_token, put_nodes, make_token, validate_token, respond_get_peers,
  respond_announce_peer, learn, handle_query, handle_packet,
}

-- What happens to a node: a packet comes, a query is sent, the secret is rotated, or stale
-- transactions are removed.
pub data Event : Type 0 where
  packet : ℕ → Bytes → Address → Event
  asks : ℕ → KrpcMessage → Event
  rotates : Bytes → Event
  cleans : ℕ → Event

unfoldable pub step : (Bytes → Bytes) → Event → Dht → Dht
step sha1 (packet now b addr) d = (handle_packet sha1 now b addr d).0
step sha1 (asks now msg) d = (send_query now msg d).0
step sha1 (rotates secret) d = rotate_token secret d
step sha1 (cleans cutoff) d = record d { pending = clean_stale_pending cutoff d.pending }

unfoldable pub run : (Bytes → Bytes) → List Event → Dht → Dht
run sha1 [] d = d
run sha1 (e ∷ es) d = run sha1 es (step sha1 e d)

unfoldable pub rotations : List Event → ℕ
rotations [] = 0
rotations (rotates secret ∷ es) = suc (rotations es)
rotations (_ ∷ es) = rotations es

record Same (d d' : Dht) : Type 0 where
  id : d'.id ≡ d.id
  secret : d'.token_secret ≡ d.token_secret
  old : d'.token_secret_old ≡ d.token_secret_old

Same-refl : (d : Dht) → Same d d
Same-refl d = record { id = refl; secret = refl; old = refl }

update_node-Same : (now : ℕ) (n : Node) (d : Dht) → Same d (update_node now n d)
unfolding update_node
update_node-Same now n d = record { id = ground arith; secret = ground arith; old = ground arith }

handle_response-Same : (msg : KrpcMessage) (d : Dht) → Same d (handle_response msg d).0
unfolding handle_response
handle_response-Same msg d = record { id = ground arith; secret = ground arith; old = ground arith }

send_query-Same : (now : ℕ) (msg : KrpcMessage) (d : Dht) → Same d (send_query now msg d).0
unfolding send_query
send_query-Same now msg d = record { id = ground arith; secret = ground arith; old = ground arith }

learn-Same :
    (sha1 : Bytes → Bytes) (now : ℕ) (msg : KrpcMessage) (addr : Address) (d : Dht)
    → Same d (learn sha1 now msg addr d)
unfolding learn
learn-Same sha1 now msg addr d =
    elim (Bool-cases (length (string_or_empty (get (codes "id") msg.a)) == 20)) [
      | inl e ↦ rw e (
          update_node-Same now
            (record {
              id = string_or_empty (get (codes "id") msg.a);
              addr = addr_bytes addr;
              last_seen = 0;
            })
            d)
      | inr e ↦ rw e (Same-refl d)
    ]

handle_query-learn :
    (sha1 : Bytes → Bytes) (now : ℕ) (msg : KrpcMessage) (addr : Address) (d : Dht)
    → (handle_query sha1 now msg addr d).0 ≡ learn sha1 now msg addr d
unfolding handle_query
handle_query-learn sha1 now msg addr d = ground arith

decoded-Same :
    (sha1 : Bytes → Bytes) (now : ℕ) (addr : Address) (d : Dht) (b : Bytes) (o : Option KrpcMessage)
    → decode_krpc b ≡ o
    → Same d (handle_packet sha1 now b addr d).0
unfolding handle_packet
decoded-Same sha1 now addr d b none e = rw (handle_packet, e) (Same-refl d)
decoded-Same sha1 now addr d b (some msg) e = elim (Bool-cases (str_eq msg.y msg_query)) [
  | inl q ↦
      rw (handle_packet, e, q, handle_query-learn sha1 now msg addr d)
        (learn-Same sha1 now msg addr d)
  | inr q ↦ elim (Bool-cases (str_eq msg.y msg_response || str_eq msg.y msg_error)) [
    | inl r ↦ rw (handle_packet, e, q, r) (handle_response-Same msg d)
    | inr r ↦ rw (handle_packet, e, q, r) (Same-refl d)
  ]
]

kept :
    (d d' : Dht) (es : List Event) (secret : Bytes)
    → Same d d'
    → ((d.token_secret ≡ secret) × (rotations es ≤ 1))
      ⊎ ((d.token_secret_old ≡ secret) × (rotations es ≡ 0))
    → ((d'.token_secret ≡ secret) × (rotations es ≤ 1))
      ⊎ ((d'.token_secret_old ≡ secret) × (rotations es ≡ 0))
kept d d' es secret s (inl (now, few)) = inl (s.secret ∙ now, few)
kept d d' es secret s (inr (old, none_left)) = inr (s.old ∙ old, none_left)

-- The secret that was current is still good: it is current, or the old one after one rotation.
run_good :
    (sha1 : Bytes → Bytes) (es : List Event) (d : Dht) (secret : Bytes)
    → ((d.token_secret ≡ secret) × (rotations es ≤ 1))
      ⊎ ((d.token_secret_old ≡ secret) × (rotations es ≡ 0))
    → ((run sha1 es d).id ≡ d.id)
      × (((run sha1 es d).token_secret ≡ secret) ⊎ ((run sha1 es d).token_secret_old ≡ secret))
unfolding run step rotations rotate_token
run_good sha1 [] d secret (inl (now, few)) = (refl, inl now)
run_good sha1 [] d secret (inr (old, none_left)) = (refl, inr old)
run_good sha1 (packet now b addr ∷ es) d secret h =
    let d' = (handle_packet sha1 now b addr d).0 in
    let s = decoded-Same sha1 now addr d b (decode_krpc b) refl in
    let (id, good) = run_good sha1 es d' secret (kept d d' es secret s h) in (id ∙ s.id, good)
run_good sha1 (asks now msg ∷ es) d secret h =
    let s = send_query-Same now msg d in
    let (id, good) = run_good sha1 es (send_query now msg d).0 secret (kept d _ es secret s h) in
    (id ∙ s.id, good)
run_good sha1 (rotates fresh ∷ es) d secret (inl (now, few)) =
    run_good sha1 es (rotate_token fresh d) secret (inr (now, omega arith))
run_good sha1 (rotates fresh ∷ es) d secret (inr (old, none_left)) = absurd (omega arith)
run_good sha1 (cleans cutoff ∷ es) d secret h =
    run_good sha1 es (record d { pending = clean_stale_pending cutoff d.pending }) secret h

get-put_same : (k : Bytes) (v : Value) (fs : Fields) → get k (put k v fs) ≡ some v
unfolding get put
get-put_same k v end = let e : str_eq k k ≡ true = (str_eq_iff k k).1 refl in rw e refl
get-put_same k v (field j w fs) = elim (Bool-cases (str_eq j k)) [
  | inl e ↦ rw (e, e) refl
  | inr e ↦ rw (e, e) (get-put_same k v fs)
]

get-put_ne :
    (j k : Bytes) (v : Value) (fs : Fields) → str_eq j k ≡ false → get k (put j v fs) ≡ get k fs
unfolding get put
get-put_ne j k v end ne = rw ne refl
get-put_ne j k v (field i w fs) ne = elim (Bool-cases (str_eq i j)) [
  | inl e ↦
      let same : i ≡ j = (str_eq_iff i j).0 e in
      let ne' : str_eq i k ≡ false = rw same ne in rw (e, ne') refl
  | inr e ↦ rw e (ground (arith, get-put_ne j k v fs ne))
]

get-put_nodes :
    (k : Bytes) (d : Dht) (target : Bytes) (want : Bool × Bool) (r : Fields)
    → str_eq (codes "nodes") k ≡ false
    → str_eq (codes "nodes6") k ≡ false
    → get k (put_nodes d target want r) ≡ get k r
unfolding put_nodes
get-put_nodes k d target (false, false) r ne ne6 = refl
get-put_nodes k d target (true, false) r ne ne6 = get-put_ne (codes "nodes") k _ r ne
get-put_nodes k d target (false, true) r ne ne6 = get-put_ne (codes "nodes6") k _ r ne6
get-put_nodes k d target (true, true) r ne ne6 =
    get-put_ne (codes "nodes6") k _ _ ne6 ∙ get-put_ne (codes "nodes") k _ r ne

validate_good :
    (sha1 : Bytes → Bytes) (d : Dht) (addr : Address) (secret : Bytes)
    → ((d.token_secret ≡ secret) ⊎ (d.token_secret_old ≡ secret))
    → validate_token sha1 d addr (token_of sha1 secret addr.ip) ≡ true
unfolding validate_token
validate_good sha1 d addr secret h =
    let token = token_of sha1 secret addr.ip in
    let same : str_eq token token ≡ true = (str_eq_iff token token).1 refl in
    elim h [ inl now ↦ rw (now, same) refl | inr old ↦ rw (old, same) (ground arith) ]

-- The token in an answer to get_peers.
token-respond_get_peers :
    (sha1 : Bytes → Bytes) (asked : KrpcMessage) (addr : Address) (d : Dht) (answer : KrpcMessage)
    → respond_get_peers sha1 asked addr d ≡ some answer
    → get (codes "token") answer.r ≡ some (str (token_of sha1 d.token_secret addr.ip))
unfolding respond_get_peers make_token new_response get
token-respond_get_peers sha1 asked addr d answer h =
    let target = string_or_empty (get (codes "info_hash") asked.a) in
    let r =
      field (codes "id") (str d.id)
        (field (codes "token") (str (token_of sha1 d.token_secret addr.ip)) end) in
    elim (Bool-cases (length target == 20)) [
      | inr e ↦ ground (arith, rw e at h)
      | inl e ↦
          let same = some-injective _ answer (rw e at h) in
          rw (← same) (
            get-put_nodes (codes "token") d target (parse_want (get (codes "want") asked.a)) r refl
              refl
            ∙ refl)
    ]

-- The token that get_peers gives to an address is good for announce_peer from the same IP, whatever
-- packets come and queries are sent in between, until the secret has been rotated twice.
pub respond_announce_peer-respond_get_peers :
    (sha1 : Bytes → Bytes) (asked announce : KrpcMessage) (addr addr' : Address) (d : Dht)
    (answer : KrpcMessage) (es : List Event)
    → respond_get_peers sha1 asked addr d ≡ some answer
    → get (codes "token") announce.a ≡ get (codes "token") answer.r
    → addr'.ip ≡ addr.ip
    → rotations es ≤ 1
    → respond_announce_peer sha1 announce addr' (run sha1 es d)
      ≡ some (new_response announce.t (field (codes "id") (str d.id) end))
unfolding respond_announce_peer
respond_announce_peer-respond_get_peers sha1 asked announce addr addr' d answer es given carried
      same_ip few =
    let (id, good) = run_good sha1 es d d.token_secret (inl (refl, few)) in
    let token : get (codes "token") announce.a
        ≡ some (str (token_of sha1 d.token_secret addr'.ip)) =
      rw same_ip (carried ∙ token-respond_get_peers sha1 asked addr d answer given) in
    let valid = validate_good sha1 (run sha1 es d) addr' d.token_secret good in
    rw (token, valid, id) refl
