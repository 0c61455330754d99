-- ===== src/Torrent/Parse.antt =====
-- torrent/torrent.go: Parse and its helpers. `none` is an error, whose text is left out. The hash
-- functions of crypto/sha1 and crypto/sha256 are parameters.
use stor.Prelude.{
  ℕ, zero, suc, ◌/◌, ◌%◌, Bool, true, false, not, if◌then◌else◌, ◌==◌, [], ◌∷◌, List, Option, none,
  some, length, take, drop, replicate,
}
use stor.Prelude.Int.{ℤ, pos, leb_ℤ, eq_ℤ}
use stor.Prelude.Words.{Bytes}
use stor.Prelude.Text.{codes}
use stor.Bencode.Value.{Value, Items, Fields, str, list, dict, nil, cons}
use stor.Bencode.Encode.{◌>>=◌, encode}
use stor.Bencode.Decode.{Result, decode, ok}
use stor.Bencode.Access.{get, as_string, as_int64, as_list, as_dict}
use stor.Torrent.File.{File, Info, TorrentFile}

abbrev pub require : Bool → Option (Unit {0})
require true = some tt
require false = none

unfoldable pub strings : Items → Option (List Bytes)
strings nil = some []
strings (cons v xs) = do s ← as_string v; ss ← strings xs; some (s ∷ ss)

unfoldable pub parse_file : Value → Option File
unfolding get strings
parse_file v = do
  d ← as_dict v
  n ← get (codes "length") d >>= as_int64
  _ ← require (leb_ℤ (pos 0) n)
  names ← get (codes "path") d >>= as_list
  path ← strings names
  some (record { len = n; path = path })

unfoldable pub parse_file_items : Items → Option (List File)
parse_file_items nil = some []
parse_file_items (cons v xs) = do f ← parse_file v; fs ← parse_file_items xs; some (f ∷ fs)

unfoldable pub parse_files : Value → Option (List File)
parse_files v = as_list v >>= parse_file_items

unfoldable pub parse_tiers : Items → Option (List (List Bytes))
unfolding strings
parse_tiers nil = some []
parse_tiers (cons v xs) = do
  tier ← as_list v
  urls ← strings tier
  rest ← parse_tiers xs
  some (urls ∷ rest)

unfoldable pub parse_announce_list : Value → Option (List (List Bytes))
parse_announce_list v = as_list v >>= parse_tiers

-- Webseeds: what is no string, or empty, is passed over.
abbrev add_seed : Value → List Bytes → List Bytes
add_seed (str (b ∷ s)) urls = (b ∷ s) ∷ urls
add_seed _ urls = urls

unfoldable pub parse_url_items : Items → List Bytes
parse_url_items nil = []
parse_url_items (cons v xs) = add_seed v (parse_url_items xs)

unfoldable pub parse_url_list : Value → List Bytes
parse_url_list (list xs) = parse_url_items xs
parse_url_list v = add_seed v []

-- The loop that cuts the hashes.
unfoldable pub cut_hashes : ℕ → Bytes → List Bytes
cut_hashes zero b = []
cut_hashes (suc n) b = take 20 b ∷ cut_hashes n (drop 20 b)

-- A single file has its length, several have theirs.
abbrev pub several : Option Value → Option (ℤ × List File)
several none = some (pos 0, [])
several (some v) = parse_files v >>= (λ fs. some (pos 0, fs))

abbrev pub single : Option ℤ → Option Value → Option (ℤ × List File)
single (some n) v = require (leb_ℤ (pos 0) n) >>= (λ _. some (n, []))
single none v = several v

abbrev pub is_one : ℤ → Option ℤ → Bool
is_one k none = false
is_one k (some n) = eq_ℤ n k

unfoldable pub parse_info : Fields → Option Info
unfolding get cut_hashes
parse_info d = do
  name ← get (codes "name") d >>= as_string
  piece_length ← get (codes "piece length") d >>= as_int64
  _ ← require (not (leb_ℤ piece_length (pos 0)))
  pieces ← get (codes "pieces") d >>= as_string
  _ ← require (length pieces % 20 == 0)
  sizes ← single (get (codes "length") d >>= as_int64) (get (codes "files") d)
  some (record {
    name = name;
    piece_length = piece_length;
    piece_hashes = cut_hashes (length pieces / 20) pieces;
    len = sizes.0;
    files = sizes.1;
    is_private = is_one (pos 1) (get (codes "private") d >>= as_int64);
    file_tree = get (codes "file tree") d >>= as_dict;
  })

abbrev pub or_empty : Option Bytes → Bytes
or_empty none = []
or_empty (some s) = s

abbrev pub tiers_or_none : Option Value → Option (List (List Bytes))
tiers_or_none none = some []
tiers_or_none (some v) = parse_announce_list v

abbrev pub seeds_or_none : Option Value → List Bytes
seeds_or_none none = []
seeds_or_none (some v) = parse_url_list v

abbrev pub decoded : Result Value → Option Value
decoded (ok v) = some v
decoded _ = none

unfoldable pub parse : (Bytes → Bytes) → (Bytes → Bytes) → Bytes → Option TorrentFile
unfolding get parse_info
parse sha1 sha256 contents = do
  v ← decoded (decode contents)
  root ← as_dict v
  tiers ← tiers_or_none (get (codes "announce-list") root)
  d ← get (codes "info") root >>= as_dict
  text ← encode (dict d)
  info ← parse_info d
  let v2 = is_one (pos 2) (get (codes "meta version") d >>= as_int64)
  some (record {
    announce = or_empty (get (codes "announce") root >>= as_string);
    announce_list = tiers;
    info = info;
    info_hash = sha1 text;
    info_hash_v2 = if v2 then sha256 text else replicate 32 0;
    meta_version = if v2 then 2 else 0;
    web_seed_urls = seeds_or_none (get (codes "url-list") root);
  })
