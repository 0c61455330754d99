-- ===== src/Torrent/File.antt =====
-- torrent/torrent.go: the types, TrackerURLs and IsMultiFile.
use stor.Prelude.{
  ℕ, Bool, false, if◌then◌else◌, ◌==◌, ◌||◌, ltb, [], ◌∷◌, ◌++◌, List, Option, length,
}
use stor.Prelude.Int.{ℤ}
use stor.Prelude.Words.{Bytes}
use stor.Bencode.Value.{Fields, str_eq}

pub record File : Type 0 where
  pub len : ℤ
  pub path : List Bytes

pub record Info : Type 0 where
  pub name : Bytes
  pub piece_length : ℤ
  pub piece_hashes : List Bytes
  pub len : ℤ
  pub files : List File
  pub is_private : Bool
  pub file_tree : Option Fields

pub record TorrentFile : Type 0 where
  pub announce : Bytes
  pub announce_list : List (List Bytes)
  pub info : Info
  pub info_hash : Bytes
  pub info_hash_v2 : Bytes
  pub meta_version : ℕ
  pub web_seed_urls : List Bytes

-- The map `seen` holds what has been appended.
unfoldable pub seen : Bytes → List Bytes → Bool
seen u [] = false
seen u (v ∷ vs) = str_eq v u || seen u vs

unfoldable pub add_url : List Bytes → Bytes → List Bytes
unfolding seen
add_url urls u = if seen u urls then urls else urls ++ u ∷ []

unfoldable pub add_tier : List Bytes → List Bytes → List Bytes
add_tier urls [] = urls
add_tier urls (u ∷ us) = add_tier (add_url urls u) us

unfoldable pub add_tiers : List Bytes → List (List Bytes) → List Bytes
add_tiers urls [] = urls
add_tiers urls (t ∷ ts) = add_tiers (add_tier urls t) ts

unfoldable pub tracker_urls : TorrentFile → List Bytes
tracker_urls tf =
    add_tiers (if length tf.announce == 0 then [] else tf.announce ∷ []) tf.announce_list

unfoldable pub is_multi_file : TorrentFile → Bool
is_multi_file tf = ltb 0 (length tf.info.files)
