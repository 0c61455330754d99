-- ===== src/Storage/Path.antt =====
-- filepath.Clean and filepath.Join on a Unix system, and strings.HasPrefix, which storage/multifile.go uses.
use stor.Prelude.{ℕ, Bool, true, false, if◌then◌else◌, ◌==◌, ◌||◌, [], ◌∷◌, ◌++◌, List, length}
use stor.Prelude.Words.{Bytes}
use stor.Bencode.Value.{str_eq}

abbrev dot : Bytes
dot = b'.' ∷ []

abbrev dot_dot : Bytes
dot_dot = b'.' ∷ b'.' ∷ []

-- The parts between the slashes.
abbrev add_byte : ℕ → List Bytes → List Bytes
add_byte b [] = (b ∷ []) ∷ []
add_byte b (p ∷ ps) = (b ∷ p) ∷ ps

unfoldable pub split : Bytes → List Bytes
split [] = [] ∷ []
split (b ∷ bs) = let rest = split bs in if b == b'/' then [] ∷ rest else add_byte b rest

-- One part on the stack of those kept: "." and nothing go, ".." takes the part before it.
abbrev up : Bool → List Bytes → List Bytes
up rooted [] = if rooted then [] else dot_dot ∷ []
up rooted (p ∷ ps) = if str_eq p dot_dot then dot_dot ∷ p ∷ ps else ps

unfoldable pub keep_parts : Bool → List Bytes → List Bytes → List Bytes
keep_parts rooted kept [] = kept
keep_parts rooted kept (p ∷ ps) =
    keep_parts rooted
      (if length p == 0 || str_eq p dot
        then kept
        else if str_eq p dot_dot
        then up rooted kept
        else p ∷ kept)
      ps

-- The parts kept, the last one first, with slashes between them.
unfoldable pub render : List Bytes → Bytes
render [] = []
render (p ∷ []) = p
render (p ∷ q ∷ ps) = render (q ∷ ps) ++ (b'/' ∷ p)

abbrev is_rooted : Bytes → Bool
is_rooted [] = false
is_rooted (b ∷ bs) = b == b'/'

abbrev or_dot : Bytes → Bytes
or_dot [] = dot
or_dot (b ∷ bs) = b ∷ bs

unfoldable pub clean : Bytes → Bytes
unfolding split keep_parts render
clean path =
    let text = render (keep_parts (is_rooted path) [] (split path)) in
    if is_rooted path then b'/' ∷ text else or_dot text

-- The parts that are not empty, with slashes between them.
unfoldable pub join_parts : List Bytes → Bytes
join_parts [] = []
join_parts (p ∷ ps) =
    let rest = join_parts ps in
    if length p == 0 then rest else if length rest == 0 then p else p ++ (b'/' ∷ rest)

abbrev clean_or_empty : Bytes → Bytes
clean_or_empty [] = []
clean_or_empty (b ∷ bs) = clean (b ∷ bs)

unfoldable pub join : List Bytes → Bytes
unfolding clean join_parts
join ps = clean_or_empty (join_parts ps)

-- `strings.HasPrefix`.
unfoldable pub has_prefix : Bytes → Bytes → Bool
has_prefix s [] = true
has_prefix [] (b ∷ bs) = false
has_prefix (a ∷ s) (b ∷ bs) = if a == b then has_prefix s bs else false
