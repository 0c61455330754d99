-- ===== src/Torrent/Trackers.antt =====
-- torrent/torrent.go: TrackerURLs gives each URL of the file once.
use stor.Prelude.{
  Bool, true, false, ◌==◌, ◌||◌, ◌&&◌, not, [], ◌∷◌, ◌++◌, List, ◌≡◌, refl, arith, length,
  Bool-cases, inl, inr,
}
use stor.Prelude.Words.{Bytes}
use stor.Bencode.Value.{str_eq}
use stor.Bencode.Order.{str_eq_iff, str_eq-sym}
use stor.Torrent.File.{TorrentFile, seen, add_url, add_tier, add_tiers, tracker_urls}

-- No URL twice.
unfoldable pub NoDup : List Bytes → Type 0
NoDup [] = Unit
NoDup (u ∷ us) = (seen u us ≡ false) × NoDup us

-- Some tier names the URL.
unfoldable pub named : Bytes → List (List Bytes) → Bool
named u [] = false
named u (t ∷ ts) = seen u t || named u ts

seen-append : (u v : Bytes) (us : List Bytes) → seen u (us ++ v ∷ []) ≡ (seen u us || str_eq v u)
unfolding seen
seen-append u v [] = ground arith
seen-append u v (w ∷ us) = ground (arith, seen-append u v us)

seen-add_url : (u v : Bytes) (us : List Bytes) → seen u (add_url us v) ≡ (seen u us || str_eq v u)
unfolding add_url
seen-add_url u v us = elim (Bool-cases (seen v us)) [
  | inl s ↦ rw s (elim (Bool-cases (str_eq v u)) [
    | inl e ↦
        let same : v ≡ u = (str_eq_iff v u).0 e in
        let su : seen u us ≡ true = rw same at s in ground (arith, e, su)
    | inr e ↦ ground (arith, e)
  ])
  | inr s ↦ rw s (seen-append u v us)
]

seen-add_tier :
    (u : Bytes) (us vs : List Bytes) → seen u (add_tier us vs) ≡ (seen u us || seen u vs)
unfolding add_tier seen
seen-add_tier u us [] = ground arith
seen-add_tier u us (v ∷ vs) = ground (arith, seen-add_tier u (add_url us v) vs, seen-add_url u v us)

seen-add_tiers :
    (u : Bytes) (us : List Bytes) (ts : List (List Bytes))
    → seen u (add_tiers us ts) ≡ (seen u us || named u ts)
unfolding add_tiers named
seen-add_tiers u us [] = ground arith
seen-add_tiers u us (t ∷ ts) =
    ground (arith, seen-add_tiers u (add_tier us t) ts, seen-add_tier u us t)

NoDup-append : (us : List Bytes) (v : Bytes) → NoDup us → seen v us ≡ false → NoDup (us ++ v ∷ [])
unfolding NoDup seen
NoDup-append [] v n s = (refl, tt)
NoDup-append (u ∷ us) v n s = (
  ground (arith, seen-append u v us, n.0, str_eq-sym u v),
  NoDup-append us v n.1 (ground (arith, s)),
)

add_url-NoDup : (us : List Bytes) (v : Bytes) → NoDup us → NoDup (add_url us v)
unfolding add_url
add_url-NoDup us v n = elim (Bool-cases (seen v us)) [
  | inl s ↦ rw s n
  | inr s ↦ rw s (NoDup-append us v n s)
]

add_tier-NoDup : (us vs : List Bytes) → NoDup us → NoDup (add_tier us vs)
unfolding add_tier
add_tier-NoDup us [] n = n
add_tier-NoDup us (v ∷ vs) n = add_tier-NoDup (add_url us v) vs (add_url-NoDup us v n)

add_tiers-NoDup : (us : List Bytes) (ts : List (List Bytes)) → NoDup us → NoDup (add_tiers us ts)
unfolding add_tiers
add_tiers-NoDup us [] n = n
add_tiers-NoDup us (t ∷ ts) n = add_tiers-NoDup (add_tier us t) ts (add_tier-NoDup us t n)

-- TrackerURLs has no URL twice, and has just the announce URL, if there is one, and the URLs of the
-- tiers.
pub tracker_urls_lem :
    (tf : TorrentFile)
    → NoDup (tracker_urls tf)
      × ((u : Bytes)
          → seen u (tracker_urls tf)
            ≡ ((not (length tf.announce == 0) && str_eq tf.announce u) || named u tf.announce_list))
unfolding tracker_urls NoDup seen
tracker_urls_lem tf = elim (Bool-cases (length tf.announce == 0)) [
  | inl e ↦ rw e (add_tiers-NoDup [] tf.announce_list tt, λ u. seen-add_tiers u [] tf.announce_list)
  | inr e ↦ rw e (
    add_tiers-NoDup (tf.announce ∷ []) tf.announce_list (refl, tt),
    λ u. ground (arith, seen-add_tiers u (tf.announce ∷ []) tf.announce_list),
  )
]
