-- ===== src/Download/PieceQueue/Buckets.antt =====
-- The availability buckets of download/piecequeue.go: a map from availability to a set of indices.
use stor.Prelude.{
  ℕ, Bool, true, false, if◌then◌else◌, ◌==◌, ◌&&◌, ◌||◌, [], ◌∷◌, List, Option, none, some, ◌≡◌,
  refl, arith, length, ltb, Option-cases, inl, inr,
}
use stor.Prelude.Int.{ℤ, pos, eq_ℤ, eq_ℤ_iff}

-- Sets of indices, a Go `map[int]bool` that holds only `true`.
unfoldable pub contains : ℕ → List ℕ → Bool
contains i [] = false
contains i (j ∷ js) = j == i || contains i js

unfoldable pub delete : ℕ → List ℕ → List ℕ
delete i [] = []
delete i (j ∷ js) = if j == i then delete i js else j ∷ delete i js

unfoldable pub add : ℕ → List ℕ → List ℕ
unfolding contains
add i js = if contains i js then js else i ∷ js

abbrev pub Levels : Type 0
Levels = List (ℤ × List ℕ)

unfoldable pub bucket_of : ℤ → Levels → Option (List ℕ)
bucket_of a [] = none
bucket_of a ((l, b) ∷ bs) = if eq_ℤ l a then some b else bucket_of a bs

unfoldable pub set_bucket : ℤ → List ℕ → Levels → Levels
set_bucket a b [] = (a, b) ∷ []
set_bucket a b ((l, c) ∷ bs) = if eq_ℤ l a then (l, b) ∷ bs else (l, c) ∷ set_bucket a b bs

unfoldable pub delete_bucket : ℤ → Levels → Levels
delete_bucket a [] = []
delete_bucket a ((l, b) ∷ bs) = if eq_ℤ l a then delete_bucket a bs else (l, b) ∷ delete_bucket a bs

-- Take an index out of a bucket, and drop the bucket when that empties it.
unfoldable pub take_out : ℤ → ℕ → Levels → Levels
take_out a i bs = elim (bucket_of a bs) [
  | none ↦ bs
  | some b ↦ if length (delete i b) == 0 then delete_bucket a bs else set_bucket a (delete i b) bs
]

unfoldable pub put_in : ℤ → ℕ → Levels → Levels
put_in a i bs = elim (bucket_of a bs) [
  | none ↦ set_bucket a (i ∷ []) bs
  | some b ↦ set_bucket a (add i b) bs
]

unfoldable pub move_bucket : ℕ → ℤ → ℤ → Levels → Levels
move_bucket i old new bs = put_in new i (take_out old i bs)

pub contains-delete :
    (i j : ℕ) (b : List ℕ) → contains j (delete i b) ≡ (if i == j then false else contains j b)
unfolding contains delete
contains-delete i j [] = ground arith
contains-delete i j (k ∷ b) = ground (arith, contains-delete i j b)

pub contains-add :
    (i j : ℕ) (b : List ℕ) → contains j (add i b) ≡ (if i == j then true else contains j b)
unfolding add
contains-add i j b = ground arith

bucket_of-set_bucket :
    (a c : ℤ) (b : List ℕ) (bs : Levels)
    → bucket_of c (set_bucket a b bs) ≡ (if eq_ℤ a c then some b else bucket_of c bs)
unfolding bucket_of set_bucket
bucket_of-set_bucket a c b [] = refl
bucket_of-set_bucket a c b ((l, d) ∷ bs) =
    ground (arith, bucket_of-set_bucket a c b bs, eq_ℤ_iff l a, eq_ℤ_iff l c, eq_ℤ_iff a c)

bucket_of-delete_bucket :
    (a c : ℤ) (bs : Levels)
    → bucket_of c (delete_bucket a bs) ≡ (if eq_ℤ a c then none else bucket_of c bs)
unfolding bucket_of delete_bucket
bucket_of-delete_bucket a c [] = ground arith
bucket_of-delete_bucket a c ((l, d) ∷ bs) =
    ground (arith, bucket_of-delete_bucket a c bs, eq_ℤ_iff l a, eq_ℤ_iff l c, eq_ℤ_iff a c)

-- Whether `j` stands in the bucket of availability `c`.
abbrev pub held : ℕ → Option (List ℕ) → Bool
held j none = false
held j (some b) = contains j b

unfoldable pub in_bucket : ℤ → ℕ → Levels → Bool
in_bucket c j bs = held j (bucket_of c bs)

contains-empty : (j : ℕ) (b : List ℕ) → length b == 0 ≡ true → contains j b ≡ false
unfolding contains
contains-empty j [] h = refl
contains-empty j (k ∷ b) h = ground arith

pub in_bucket-take_out :
    (a c : ℤ) (i j : ℕ) (bs : Levels)
    → in_bucket c j (take_out a i bs) ≡ (if eq_ℤ a c && i == j then false else in_bucket c j bs)
unfolding in_bucket take_out
in_bucket-take_out a c i j bs = elim (Option-cases (bucket_of a bs)) [
  | inl e ↦ ground (arith, e, eq_ℤ_iff a c)
  | inr (b, e) ↦ ground (
    arith,
    e,
    eq_ℤ_iff a c,
    contains-delete i j b,
    contains-empty j (delete i b),
    bucket_of-delete_bucket a c bs,
    bucket_of-set_bucket a c (delete i b) bs,
  )
]

in_bucket-put_in :
    (a c : ℤ) (i j : ℕ) (bs : Levels)
    → in_bucket c j (put_in a i bs) ≡ (if eq_ℤ a c && i == j then true else in_bucket c j bs)
unfolding in_bucket put_in contains
in_bucket-put_in a c i j bs = elim (Option-cases (bucket_of a bs)) [
  | inl e ↦ ground (arith, e, eq_ℤ_iff a c, bucket_of-set_bucket a c (i ∷ []) bs)
  | inr (b, e) ↦
      ground (arith, e, eq_ℤ_iff a c, contains-add i j b, bucket_of-set_bucket a c (add i b) bs)
]

-- After a move the index stands in the new bucket and no longer in the old one; nothing else moves.
pub in_bucket-move_bucket :
    (old new c : ℤ) (i j : ℕ) (bs : Levels)
    → in_bucket c j (move_bucket i old new bs) ≡ (
        if i == j
        then eq_ℤ new c || (if eq_ℤ old c then false else in_bucket c j bs)
        else in_bucket c j bs)
unfolding move_bucket
in_bucket-move_bucket old new c i j bs =
    ground (arith, in_bucket-put_in new c i j (take_out old i bs), in_bucket-take_out old c i j bs)

-- The buckets of a new queue: one of availability 0, unless it is empty.
pub in_bucket-single :
    (a : ℤ) (i : ℕ) (b : List ℕ)
    → in_bucket a i (if ltb 0 (length b) then (pos 0, b) ∷ [] else [])
      ≡ (contains i b && eq_ℤ (pos 0) a)
unfolding in_bucket bucket_of contains
in_bucket-single a i [] = refl
in_bucket-single a i (j ∷ b) = ground arith
