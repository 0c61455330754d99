-- ===== src/Dht/Updates.antt =====
-- dht/table.go: what Update does to a table.
use stor.Prelude.{ℕ, ◌<◌, true, false, [], List, ◌≡◌, length, get_or, set, ◌⊎◌, ◌≢◌}
use stor.Prelude.Words.{Bytes}
use stor.Dht.Id.{equal}
use stor.Dht.Valid.{has_id, Valid}
use stor.Dht.Table.{Node, RoutingTable, k_bucket, bucket_index, update_bucket}

-- The bucket in which a node of this ID stands, if it stands in the table.
abbrev pub bucket_at : RoutingTable → ℕ → List Node
bucket_at rt idx = get_or rt.buckets idx []

-- What Update does to a table that stays valid: no node is lost, the new one is in its bucket when
-- that had room or knew it, and no other bucket changes.
pub record Updates (n : Node) (rt rt' : RoutingTable) : Type 0 where
  pub valid : Valid rt'
  pub same_self : rt'.self ≡ rt.self
  pub keeps :
      (idx : ℕ) (i : Bytes)
      → has_id i (bucket_at rt idx) ≡ true
      → has_id i (bucket_at rt' idx) ≡ true
  pub adds :
      equal n.id rt.self ≡ false
      → (length (bucket_at rt (bucket_index rt.self n.id)) < k_bucket)
        ⊎ (has_id n.id (bucket_at rt (bucket_index rt.self n.id)) ≡ true)
      → has_id n.id (bucket_at rt' (bucket_index rt.self n.id)) ≡ true
  pub others : (idx : ℕ) → bucket_index rt.self n.id ≢ idx → bucket_at rt' idx ≡ bucket_at rt idx

module _ (now : ℕ) (n : Node) (rt : RoutingTable) (v : Valid rt) where
  changed_table : RoutingTable
  changed_table =
      let idx = bucket_index rt.self n.id in
      record rt { buckets = set rt.buckets idx (update_bucket now n (bucket_at rt idx)) }
