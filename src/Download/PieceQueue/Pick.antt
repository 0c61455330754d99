-- ===== src/Download/PieceQueue/Pick.antt =====
-- download/piecequeue.go: Pick. `draw n` is what `rand.IntN(n)` gives in the one loop that draws:
-- a loop that finds a piece ends the call, and one that finds none draws nothing.
use stor.Prelude.{
  ℕ, ◌+◌, ◌/◌, Bool, true, not, if◌then◌else◌, ◌==◌, ◌&&◌, ltb, leb, [], ◌∷◌, List, Option, none,
  some, length, max,
}
use stor.Prelude.Int.{ℤ, leb_ℤ}
use stor.Download.PieceQueue.Buckets.{Levels, bucket_of}
use stor.Download.PieceQueue.Queue.{PieceWork, PieceQueue, find_index, update, skips}

-- Enter the endgame when few pieces remain.
unfoldable pub check_endgame : PieceQueue → PieceQueue
check_endgame pq = record pq {
  endgame =
      if pq.endgame
      then true
      else ltb 0 (length pq.pieces) && leb (length pq.pieces) (max 5 (pq.total_pieces / 100));
}

-- None of the `continue`s of the loops.
unfoldable pub eligible : PieceQueue → (ℕ → Bool) → ℕ → Bool
eligible pq has_piece i =
    not (pq.done i)
    && (not (not pq.endgame && pq.pending i) && (not (skips pq.skip_mask i) && has_piece i))

-- `slices.Sort` of the indices.
unfoldable pub insert_index : ℕ → List ℕ → List ℕ
insert_index i [] = i ∷ []
insert_index i (j ∷ js) = if leb i j then i ∷ j ∷ js else j ∷ insert_index i js

unfoldable pub sorted_indices : List PieceWork → List ℕ
unfolding insert_index
sorted_indices [] = []
sorted_indices (p ∷ ps) = insert_index p.index (sorted_indices ps)

unfoldable pub first_eligible : (ℕ → Bool) → List ℕ → Option ℕ
first_eligible ok [] = none
first_eligible ok (i ∷ is) = if ok i then some i else first_eligible ok is

-- The reservoir loop, from the choice and the count so far.
unfoldable pub sample : (ℕ → ℕ) → (ℕ → Bool) → List ℕ → ℕ → ℕ → Option ℕ
sample draw ok [] chosen count = if ltb 0 count then some chosen else none
sample draw ok (i ∷ is) chosen count =
    let picked = sample draw ok is (if draw (count + 1) == 0 then i else chosen) (count + 1) in
    let passed = sample draw ok is chosen count in if ok i then picked else passed

-- The availabilities of the buckets that are not empty, ascending.
unfoldable pub insert_level : ℤ → List ℤ → List ℤ
insert_level a [] = a ∷ []
insert_level a (b ∷ bs) = if leb_ℤ a b then a ∷ b ∷ bs else b ∷ insert_level a bs

unfoldable pub sorted_levels : Levels → List ℤ
unfolding insert_level
sorted_levels [] = []
sorted_levels ((a, b) ∷ bs) =
    if ltb 0 (length b) then insert_level a (sorted_levels bs) else sorted_levels bs

abbrev pub bucket_or_empty : Option (List ℕ) → List ℕ
bucket_or_empty none = []
bucket_or_empty (some b) = b

-- The loop over the levels.
unfoldable pub from_levels : (ℕ → ℕ) → (ℕ → Bool) → List ℤ → Levels → Option ℕ
from_levels draw ok [] bs = none
from_levels draw ok (a ∷ later) bs = elim (sample draw ok (bucket_or_empty (bucket_of a bs)) 0 0) [
  | some i ↦ some i
  | none ↦ from_levels draw ok later bs
]

-- Which index is handed out, in the three ways of the source.
unfoldable pub choose : (ℕ → ℕ) → (ℕ → Bool) → PieceQueue → Option ℕ
choose draw ok pq =
    if pq.sequential
    then first_eligible ok (sorted_indices pq.pieces)
    else elim (sample draw ok pq.priority 0 0) [
      | some i ↦ some i
      | none ↦ from_levels draw ok (sorted_levels pq.buckets) pq.buckets
    ]

-- `pq.pieces[i]`, which is the zero PieceWork where the index is missing.
abbrev pub piece_or_zero : Option PieceWork → PieceWork
piece_or_zero (some p) = p
piece_or_zero none = record { index = 0; hash = []; len = 0 }

abbrev pub hand_out : PieceQueue → Option ℕ → PieceQueue × Option PieceWork
hand_out pq none = (pq, none)
hand_out pq (some i) = (
  record pq { pending = update pq.pending i true },
  some (piece_or_zero (find_index i pq.pieces)),
)

unfoldable pub pick : (ℕ → ℕ) → (ℕ → Bool) → PieceQueue → PieceQueue × Option PieceWork
pick draw has_piece pq =
    let q = check_endgame pq in hand_out q (choose draw (eligible q has_piece) q)
