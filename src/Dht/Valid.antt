-- ===== src/Dht/Valid.antt =====
-- dht/table.go: the invariant of the routing table, which Update keeps.
use stor.Prelude.{
  ℕ, zero, suc, ◌≤◌, ◌<◌, Bool, true, false, ltb, ◌||◌, [], ◌∷◌, ◌++◌, List, none, some, ◌≡◌, refl,
  subst, arith, length, get_or, replicate, length-replicate, length-append, All, All-append,
  Bool-cases, Option-cases, inl, inr,
}
use stor.Prelude.Words.{Bytes}
use stor.Dht.Id.{equal, equal-sym, equal_trans}
use stor.Dht.Table.{
  Node, RoutingTable, k_bucket, num_buckets, new_routing_table, bucket_index, find_id, delete_id,
  update_bucket,
}

-- Whether a node of this ID is in the bucket.
unfoldable pub has_id : Bytes → List Node → Bool
has_id i [] = false
has_id i (n ∷ ns) = equal n.id i || has_id i ns

unfoldable pub Distinct : List Node → Type 0
Distinct [] = Unit
Distinct (n ∷ ns) = (has_id n.id ns ≡ false) × Distinct ns

-- At most K nodes, of distinct IDs, that belong in bucket `idx` and are not the table's own.
pub record ValidBucket (self : Bytes) (idx : ℕ) (ns : List Node) : Type 0 where
  pub small : length ns ≤ k_bucket
  pub belong : All (λ n. (bucket_index self n.id ≡ idx) × (equal n.id self ≡ false)) ns
  pub distinct : Distinct ns

pub record Valid (rt : RoutingTable) : Type 0 where
  pub count : length rt.buckets ≡ num_buckets
  pub all_valid : (idx : ℕ) → ValidBucket rt.self idx (get_or rt.buckets idx [])

empty-ValidBucket : (self : Bytes) (idx : ℕ) → ValidBucket self idx []
unfolding Distinct
empty-ValidBucket self idx = record { small = omega arith; belong = tt; distinct = tt }

-- Lookups in a bucket.
pub has_id-find_id : (i : Bytes) (ns : List Node) → find_id i ns ≡ none → has_id i ns ≡ false
unfolding find_id has_id
has_id-find_id i [] h = refl
has_id-find_id i (n ∷ ns) h = ground (arith, has_id-find_id i ns, h)

has_id-delete_id :
    (i j : Bytes) (ns : List Node) → has_id j ns ≡ false → has_id j (delete_id i ns) ≡ false
unfolding delete_id has_id
has_id-delete_id i j [] h = refl
has_id-delete_id i j (n ∷ ns) h = ground (arith, has_id-delete_id i j ns)

pub has_id-append :
    (i : Bytes) (ns : List Node) (n : Node)
    → has_id i (ns ++ n ∷ []) ≡ (has_id i ns || equal n.id i)
unfolding has_id
has_id-append i [] n = ground arith
has_id-append i (m ∷ ns) n = ground (arith, has_id-append i ns n)

has_id-equal : (i j : Bytes) (ns : List Node) → equal i j ≡ true → has_id i ns ≡ has_id j ns
unfolding has_id
has_id-equal i j [] h = refl
has_id-equal i j (n ∷ ns) h =
    ground
      (arith, has_id-equal i j ns h, equal-sym n.id i, equal-sym n.id j, equal_trans i j n.id h)

Distinct-delete_id : (i : Bytes) (ns : List Node) → Distinct ns → Distinct (delete_id i ns)
unfolding delete_id Distinct
Distinct-delete_id i [] h = tt
Distinct-delete_id i (n ∷ ns) h = elim (Bool-cases (equal n.id i)) [
  | inl e ↦ rw (e, delete_id) h.1
  | inr e ↦ rw (e, delete_id) (has_id-delete_id i n.id ns h.0, Distinct-delete_id i ns h.1)
]

Distinct-append :
    (ns : List Node) (n : Node) → Distinct ns → has_id n.id ns ≡ false → Distinct (ns ++ n ∷ [])
unfolding Distinct has_id
Distinct-append [] n d h = (refl, tt)
Distinct-append (m ∷ ns) n d h = (
  ground (arith, has_id-append m.id ns n, equal-sym n.id m.id, d.0),
  Distinct-append ns n d.1 (ground arith),
)

All-delete_id : (P : Node → Type 0) (i : Bytes) (ns : List Node) → All P ns → All P (delete_id i ns)
unfolding delete_id
All-delete_id P i [] h = tt
All-delete_id P i (n ∷ ns) h = elim (Bool-cases (equal n.id i)) [
  | inl e ↦ rw (e, delete_id) h.1
  | inr e ↦ rw (e, delete_id) (h.0, All-delete_id P i ns h.1)
]

-- What a successful search says of the node and of the rest of the bucket.
record Found (P : Node → Type 0) (i : Bytes) (ns : List Node) (e : Node) : Type 0 where
  is_id : equal e.id i ≡ true
  holds : P e
  alone : has_id e.id (delete_id i ns) ≡ false
  shorter : suc (length (delete_id i ns)) ≡ length ns

find_id-Found :
    (P : Node → Type 0) (i : Bytes) (ns : List Node) (e : Node)
    → find_id i ns ≡ some e
    → All P ns
    → Distinct ns
    → Found P i ns e
unfolding find_id delete_id Distinct has_id
find_id-Found P i [] e f h d = ground (arith, f)
find_id-Found P i (n ∷ ns) e f h d = elim (Bool-cases (equal n.id i)) [
  | inl t ↦
      let same : n ≡ e = ground (arith, f, t) in
      subst (Found P i (n ∷ ns)) same (record {
        is_id = t;
        holds = h.0;
        alone = rw (t, delete_id) d.0;
        shorter = rw (t, delete_id) refl;
      })
  | inr t ↦
      let r = find_id-Found P i ns e (rw (t, find_id) at f) h.1 d.1 in
      record {
        is_id = r.is_id;
        holds = r.holds;
        alone =
            rw (t, delete_id)
              (ground (
                arith,
                r.alone,
                r.is_id,
                t,
                equal_trans e.id i n.id r.is_id,
                equal-sym n.id i,
                equal-sym n.id e.id,
              ));
        shorter = rw (t, delete_id) (omega (arith, r.shorter));
      }
]

append-ValidBucket :
    (self : Bytes) (idx : ℕ) (ns : List Node) (n : Node)
    → length ns < k_bucket
    → All (λ n. (bucket_index self n.id ≡ idx) × (equal n.id self ≡ false)) ns
    → Distinct ns
    → bucket_index self n.id ≡ idx
    → equal n.id self ≡ false
    → has_id n.id ns ≡ false
    → ValidBucket self idx (ns ++ n ∷ [])
append-ValidBucket self idx ns n room b d at ne new = record {
  small = omega (arith, length-append ns (n ∷ []));
  belong = All-append _ ns (n ∷ []) b ((at, ne), tt);
  distinct = Distinct-append ns n d new;
}

pub update_bucket-ValidBucket :
    (now : ℕ) (n : Node) (self : Bytes) (idx : ℕ) (ns : List Node)
    → bucket_index self n.id ≡ idx
    → equal n.id self ≡ false
    → ValidBucket self idx ns
    → ValidBucket self idx (update_bucket now n ns)
unfolding update_bucket
update_bucket-ValidBucket now n self idx ns at ne v =
    let P : Node → Type 0 = λ n. (bucket_index self n.id ≡ idx) × (equal n.id self ≡ false) in
    elim (Option-cases (find_id n.id ns)) [
      | inl e ↦
          rw (e, update_bucket)
            (elim (Bool-cases (ltb (length ns) k_bucket)) [
              | inl room ↦ rw room (
                  append-ValidBucket self idx ns (record n { last_seen = now })
                    (ground (arith, room)) v.belong v.distinct at ne (has_id-find_id n.id ns e))
              | inr full ↦ rw full v
            ])
      | inr (old, e) ↦
          let f = find_id-Found P n.id ns old e v.belong v.distinct in
          rw (e, update_bucket)
            (append-ValidBucket self idx (delete_id n.id ns)
              (record old { addr = n.addr; last_seen = now }) (omega (arith, f.shorter, v.small))
              (All-delete_id P n.id ns v.belong) (Distinct-delete_id n.id ns v.distinct) f.holds.0
              f.holds.1 f.alone)
    ]

pub bucket_index_bound : (self id : Bytes) → bucket_index self id < num_buckets
unfolding bucket_index
bucket_index_bound self id = ground arith

get_or-replicate : (n i : ℕ) → get_or {A = List Node} (replicate n []) i [] ≡ []
get_or-replicate zero i = refl
get_or-replicate (suc n) zero = refl
get_or-replicate (suc n) (suc i) = get_or-replicate n i

pub new_routing_table-Valid : (self : Bytes) → Valid (new_routing_table self)
unfolding new_routing_table
new_routing_table-Valid self = record {
  count = length-replicate {A = List Node} num_buckets [];
  all_valid = λ i. rw (get_or-replicate num_buckets i) (empty-ValidBucket self i);
}
