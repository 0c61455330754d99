-- ===== src/Torrent/Parsed.antt =====
-- torrent/torrent.go: what holds of every file that Parse accepts.
use stor.Prelude.{
  ℕ, zero, suc, ◌*◌, ◌/◌, ◌%◌, ◌≤◌, Bool, true, false, not, ◌==◌, [], ◌∷◌, ◌++◌, List, Option, none,
  some, ◌≡◌, ◌∙◌, refl, ap, subst, arith, length, drop, length-take, length-drop, take-append-drop,
  All,
}
use stor.Prelude.Int.{ℤ, pos, leb_ℤ, leb_ℤ_refl}
use stor.Prelude.Words.{Bytes}
use stor.Prelude.Text.{codes}
use stor.Bencode.Value.{Value, Items, Fields, dict, list, nil, cons, str, bytes, int64, int, other}
use stor.Bencode.Encode.{◌>>=◌, encode}
use stor.Bencode.Decode.{Result, decode, ok, err, out_of_fuel}
use stor.Torrent.File.{File, Info, TorrentFile}
use stor.Bencode.Access.{get, as_string, as_int64, as_list, as_dict}
use stor.Torrent.Parse.{
  require, strings, parse_file, parse_file_items, parse_files, cut_hashes, several, single,
  parse_info, parse, decoded, tiers_or_none,
}

bind_some {ℓ κ} :
    {A : Type ℓ} {B : Type κ} (o : Option A) (f : A → Option B) (b : B)
    → (o >>= f) ≡ some b
    → (a : A) × (o ≡ some a) × (f a ≡ some b)
bind_some none f b e = ground (arith, e)
bind_some (some a) f b e = (a, refl, e)

some_inj {ℓ} : {A : Type ℓ} (a b : A) → some a ≡ some b → a ≡ b
some_inj a b e = ground (arith, e)

required : (b : Bool) (u : Unit {0}) → require b ≡ some u → b ≡ true
required true u e = refl
required false u e = ground (arith, e)

abbrev NotNegative : ℤ → Type 0
NotNegative n = leb_ℤ (pos 0) n ≡ true

abbrev pub SizedFile : File → Type 0
SizedFile f = leb_ℤ (pos 0) f.len ≡ true

parse_file-Sized : (v : Value) (f : File) → parse_file v ≡ some f → SizedFile f
unfolding parse_file
parse_file-Sized v f e =
    let (d, _, e1) = bind_some (as_dict v) _ f e in
    let (n, _, e2) = bind_some (get (codes "length") d >>= as_int64) _ f e1 in
    let (u, r, e3) = bind_some (require (leb_ℤ (pos 0) n)) _ f e2 in
    let (names, _, e4) = bind_some (get (codes "path") d >>= as_list) _ f e3 in
    let (path, _, e5) = bind_some (strings names) _ f e4 in
    subst SizedFile (some_inj _ f e5) (required _ u r)

parse_file_items-Sized :
    (xs : Items) (fs : List File) → parse_file_items xs ≡ some fs → All SizedFile fs
unfolding parse_file_items
parse_file_items-Sized nil fs e = subst (All SizedFile) (some_inj [] fs e) tt
parse_file_items-Sized (cons v xs) fs e =
    let (f, p, e1) = bind_some (parse_file v) _ fs e in
    let (gs, q, e2) = bind_some (parse_file_items xs) _ fs e1 in
    subst (All SizedFile) (some_inj (f ∷ gs) fs e2)
      (parse_file-Sized v f p, parse_file_items-Sized xs gs q)

-- The length and the files of an info dictionary.
abbrev Sized : ℤ × List File → Type 0
Sized s = NotNegative s.0 × All SizedFile s.1

several-Sized : (v : Option Value) (s : ℤ × List File) → several v ≡ some s → Sized s
unfolding parse_files
several-Sized none s e = subst Sized (some_inj _ s e) (leb_ℤ_refl (pos 0), tt)
several-Sized (some v) s e =
    let (fs, p, e1) = bind_some (parse_files v) _ s e in
    let (xs, _, q) = bind_some (as_list v) parse_file_items fs p in
    subst Sized (some_inj _ s e1) (leb_ℤ_refl (pos 0), parse_file_items-Sized xs fs q)

single-Sized : (n : Option ℤ) (v : Option Value) (s : ℤ × List File) → single n v ≡ some s → Sized s
single-Sized none v s e = several-Sized v s e
single-Sized (some n) v s e =
    let (u, r, e1) = bind_some (require (leb_ℤ (pos 0) n)) _ s e in
    subst Sized (some_inj _ s e1) (required _ u r, tt)

cut_hashes-lengths :
    (n : ℕ) (b : Bytes) → n * 20 ≤ length b → All (λ h. length h ≡ 20) (cut_hashes n b)
unfolding cut_hashes
cut_hashes-lengths zero b h = tt
cut_hashes-lengths (suc n) b h = (
  omega (arith, length-take 20 b),
  cut_hashes-lengths n (drop 20 b) (omega (arith, length-drop 20 b)),
)

unfoldable pub joined : List Bytes → Bytes
joined [] = []
joined (h ∷ hs) = h ++ joined hs

joined-cut_hashes : (n : ℕ) (b : Bytes) → length b ≡ n * 20 → joined (cut_hashes n b) ≡ b
unfolding joined cut_hashes
joined-cut_hashes zero [] h = refl
joined-cut_hashes zero (x ∷ b) h = absurd (omega arith)
joined-cut_hashes (suc n) b h =
    rw (joined-cut_hashes n (drop 20 b) (omega (arith, length-drop 20 b))) (take-append-drop 20 b)

-- A usable info dictionary: pieces of a positive length, hashes of 20 bytes that are, one behind the
-- other, the text of "pieces", and no negative size.
pub record ValidInfo (d : Fields) (info : Info) : Type 0 where
  pub positive : leb_ℤ info.piece_length (pos 0) ≡ false
  pub hashes : All (λ h. length h ≡ 20) info.piece_hashes
  pub sized : leb_ℤ (pos 0) info.len ≡ true
  pub files_sized : All SizedFile info.files
  pub text : Bytes
  pub text_is : (get (codes "pieces") d >>= as_string) ≡ some text
  pub joined_is : joined info.piece_hashes ≡ text

parse_info-ValidInfo : (d : Fields) (info : Info) → parse_info d ≡ some info → ValidInfo d info
unfolding parse_info
parse_info-ValidInfo d info e =
    let (name, _, e1) = bind_some (get (codes "name") d >>= as_string) _ info e in
    let (pl, _, e2) = bind_some (get (codes "piece length") d >>= as_int64) _ info e1 in
    let (u, r, e3) = bind_some (require (not (leb_ℤ pl (pos 0)))) _ info e2 in
    let (pieces, p, e4) = bind_some (get (codes "pieces") d >>= as_string) _ info e3 in
    let (u', r', e5) = bind_some (require (length pieces % 20 == 0)) _ info e4 in
    let (s, z, e6) =
      bind_some (single (get (codes "length") d >>= as_int64) (get (codes "files") d)) _ info e5 in
    let sizes = single-Sized _ _ s z in
    let whole : length pieces % 20 ≡ 0 = ground (arith, required _ u' r') in
    subst (ValidInfo d) (some_inj _ info e6) (record {
      positive = ground (arith, required _ u r);
      hashes = cut_hashes-lengths (length pieces / 20) pieces (omega arith);
      sized = sizes.0;
      files_sized = sizes.1;
      text = pieces;
      text_is = p;
      joined_is = joined-cut_hashes (length pieces / 20) pieces (omega (arith, whole));
    })

decoded-ok : (r : Result Value) (v : Value) → decoded r ≡ some v → r ≡ ok v
decoded-ok (ok w) v e = ap ok (some_inj w v e)
decoded-ok (err x) v e = ground (arith, e)
decoded-ok out_of_fuel v e = ground (arith, e)

as_dict-some : (v : Value) (d : Fields) → as_dict v ≡ some d → v ≡ dict d
as_dict-some (str s) d e = ground (arith, e)
as_dict-some (bytes s) d e = ground (arith, e)
as_dict-some (int64 n) d e = ground (arith, e)
as_dict-some (int n) d e = ground (arith, e)
as_dict-some (list xs) d e = ground (arith, e)
as_dict-some (dict fs) d e = ap dict (some_inj fs d e)
as_dict-some other d e = ground (arith, e)

-- An accepted file has a valid info dictionary, and its hash is that of the dictionary's encoding.
pub record ValidFile (sha1 : Bytes → Bytes) (contents : Bytes) (tf : TorrentFile) : Type 0 where
  pub root : Fields
  pub root_is : decode contents ≡ ok (dict root)
  pub d : Fields
  pub d_is : (get (codes "info") root) ≡ some (dict d)
  pub info_valid : ValidInfo d tf.info
  pub text : Bytes
  pub encoded : encode (dict d) ≡ some text
  pub hash_is : tf.info_hash ≡ sha1 text

-- A file that Parse accepts is a bencoded dictionary with an info dictionary, of which the pieces
-- have a positive length, the hashes have 20 bytes each and make up the text of "pieces", and no
-- size is negative; the info hash is the SHA-1 sum of the info dictionary as Encode writes it.
pub parse-ValidFile :
    (sha1 sha256 : Bytes → Bytes) (contents : Bytes) (tf : TorrentFile)
    → parse sha1 sha256 contents ≡ some tf
    → ValidFile sha1 contents tf
unfolding parse
parse-ValidFile sha1 sha256 contents tf e =
    let (v, r, e1) = bind_some (decoded (decode contents)) _ tf e in
    let (root, r', e2) = bind_some (as_dict v) _ tf e1 in
    let (tiers, _, e3) = bind_some (tiers_or_none (get (codes "announce-list") root)) _ tf e2 in
    let (d, p, e4) = bind_some (get (codes "info") root >>= as_dict) _ tf e3 in
    let (w, p1, p2) = bind_some (get (codes "info") root) as_dict d p in
    let (text, q, e5) = bind_some (encode (dict d)) _ tf e4 in
    let (info, i, e6) = bind_some (parse_info d) _ tf e5 in
    subst (ValidFile sha1 contents) (some_inj _ tf e6) (record {
      root = root;
      root_is = decoded-ok (decode contents) v r ∙ ap ok (as_dict-some v root r');
      d = d;
      d_is = p1 ∙ ap some (as_dict-some w d p2);
      info_valid = parse_info-ValidInfo d info i;
      text = text;
      encoded = q;
      hash_is = refl;
    })
