-- ===== src/Download/PieceQueue/Queue.antt =====
-- download/piecequeue.go: the record, its constructor, and every method but Pick. The lock makes
-- each method one step; `waitCh` is whether its one place is taken, `cancelCh` its 64 places.
use stor.Prelude.{
  ℕ, zero, suc, ◌+◌, Bool, true, false, if◌then◌else◌, ◌==◌, ◌&&◌, ◌||◌, ltb, [], ◌∷◌, ◌++◌, List,
  Option, none, some, length, max,
}
use stor.Prelude.Int.{ℤ, pos, negsuc, inc, dec}
use stor.Prelude.Words.{Bytes}
use stor.Peer.Bitfield.{has_bit}
use stor.Download.PieceQueue.Buckets.{Levels, delete, add, take_out, move_bucket}

pub record PieceWork : Type 0 where
  pub index : ℕ
  pub hash : Bytes
  pub len : ℕ

pub record PieceQueue : Type 0 where
  pub pieces : List PieceWork
  pub availability : ℕ → ℤ
  pub pending : ℕ → Bool
  pub done : ℕ → Bool
  pub endgame : Bool
  pub total_pieces : ℕ
  pub signalled : Bool
  pub cancelled : List ℕ
  pub buckets : Levels
  pub skip_mask : Option Bytes
  pub priority : List ℕ
  pub sequential : Bool

-- The map from index to piece.
unfoldable pub has_index : ℕ → List PieceWork → Bool
has_index i [] = false
has_index i (p ∷ ps) = p.index == i || has_index i ps

unfoldable pub find_index : ℕ → List PieceWork → Option PieceWork
find_index i [] = none
find_index i (p ∷ ps) = if p.index == i then some p else find_index i ps

unfoldable pub put_index : PieceWork → List PieceWork → List PieceWork
put_index p [] = p ∷ []
put_index p (q ∷ ps) = if q.index == p.index then p ∷ ps else q ∷ put_index p ps

unfoldable pub delete_index : ℕ → List PieceWork → List PieceWork
delete_index i [] = []
delete_index i (p ∷ ps) = if p.index == i then delete_index i ps else p ∷ delete_index i ps

-- `m[i] = v` on a map that is read with a default.
abbrev pub update {ℓ} : {A : Type ℓ} → (ℕ → A) → ℕ → A → ℕ → A
update f i v j = if i == j then v else f j

-- `mask != nil && mask.HasPiece(i)`.
abbrev pub skips : Option Bytes → ℕ → Bool
skips none i = false
skips (some m) i = has_bit m i

unfoldable pub filter_skipped : Option Bytes → List PieceWork → List PieceWork
filter_skipped m [] = []
filter_skipped m (p ∷ ps) = if skips m p.index then filter_skipped m ps else p ∷ filter_skipped m ps

-- The loop that fills `pieces` and `bucket0`.
unfoldable pub fill_pieces : List PieceWork → List PieceWork → List PieceWork
fill_pieces acc [] = acc
fill_pieces acc (p ∷ ps) = fill_pieces (put_index p acc) ps

unfoldable pub fill_bucket : List ℕ → List PieceWork → List ℕ
fill_bucket acc [] = acc
fill_bucket acc (p ∷ ps) = fill_bucket (add p.index acc) ps

abbrev pub present : ℕ → List PieceWork → List ℕ
present i ps = if has_index i ps then i ∷ [] else []

-- The first and the last piece, unless the mask has removed them.
unfoldable pub first_last : Bool → ℤ → List PieceWork → List ℕ
first_last false total ps = []
first_last true (negsuc n) ps = []
first_last true (pos zero) ps = []
first_last true (pos (suc zero)) ps = present 0 ps
first_last true (pos (suc (suc n))) ps = present 0 ps ++ present (suc n) ps

unfoldable pub new_piece_queue_with_options :
    List PieceWork → Option Bytes → ℤ → Bool → Bool → PieceQueue
unfolding filter_skipped fill_pieces fill_bucket first_last
new_piece_queue_with_options pieces skip_mask total prioritize_first_last sequential =
    let filtered = filter_skipped skip_mask pieces in
    let ps = fill_pieces [] filtered in
    let bucket0 = fill_bucket [] filtered in
    record {
      pieces = ps;
      availability = λ i. pos 0;
      pending = λ i. false;
      done = λ i. false;
      endgame = false;
      total_pieces = length filtered;
      signalled = false;
      cancelled = [];
      buckets = if ltb 0 (length bucket0) then (pos 0, bucket0) ∷ [] else [];
      skip_mask = none;
      priority = first_last prioritize_first_last total ps;
      sequential = sequential;
    }

unfoldable pub new_piece_queue_with_skip : List PieceWork → Option Bytes → PieceQueue
unfolding new_piece_queue_with_options
new_piece_queue_with_skip pieces skip_mask =
    new_piece_queue_with_options pieces skip_mask (pos 0) false false

unfoldable pub new_piece_queue : List PieceWork → PieceQueue
unfolding new_piece_queue_with_skip
new_piece_queue pieces = new_piece_queue_with_skip pieces none

abbrev pub signal : PieceQueue → PieceQueue
signal pq = record pq { signalled = true }

unfoldable pub return_piece : PieceWork → PieceQueue → PieceQueue
return_piece p pq = signal (record pq { pending = update pq.pending p.index false })

abbrev pub cancel_capacity : ℕ
cancel_capacity = 64

-- The send to `cancelCh` that does not block.
abbrev pub broadcast : Bool → ℕ → List ℕ → List ℕ
broadcast endgame i ch = if endgame && ltb (length ch) cancel_capacity then ch ++ i ∷ [] else ch

unfoldable pub complete : ℕ → PieceQueue → PieceQueue
complete i pq = signal (record pq {
  pending = update pq.pending i false;
  buckets = take_out (pq.availability i) i pq.buckets;
  priority = delete i pq.priority;
  pieces = delete_index i pq.pieces;
  done = update pq.done i true;
  cancelled = broadcast pq.endgame i pq.cancelled;
})

-- The new availability of a piece in the queue, with its bucket.
unfoldable pub shift_piece : (ℤ → ℤ) → ℕ → PieceQueue → PieceQueue
shift_piece g i pq = record pq {
  availability = update pq.availability i (g (pq.availability i));
  buckets = move_bucket i (pq.availability i) (g (pq.availability i)) pq.buckets;
}

-- `bf == nil || bf.HasPiece(i)`.
abbrev pub offers : Option Bytes → ℕ → Bool
offers none i = true
offers (some bf) i = has_bit bf i

unfoldable pub shift_all : (ℤ → ℤ) → Option Bytes → List PieceWork → PieceQueue → PieceQueue
unfolding shift_piece
shift_all g bf [] pq = pq
shift_all g bf (p ∷ ps) pq =
    shift_all g bf ps (if offers bf p.index then shift_piece g p.index pq else pq)

unfoldable pub add_peer_bitfield : Option Bytes → PieceQueue → PieceQueue
add_peer_bitfield bf pq = signal (shift_all inc bf pq.pieces pq)

unfoldable pub remove_peer_bitfield : Option Bytes → PieceQueue → PieceQueue
remove_peer_bitfield bf pq = shift_all dec bf pq.pieces pq

unfoldable pub peer_have : ℕ → PieceQueue → PieceQueue
unfolding shift_piece
peer_have i pq = signal (
    if has_index i pq.pieces
    then shift_piece inc i pq
    else record pq { availability = update pq.availability i (inc (pq.availability i)) })

unfoldable pub update_skip_mask : Option Bytes → PieceQueue → PieceQueue
update_skip_mask m pq = signal (record pq { skip_mask = m })

unfoldable pub count_wanted : Option Bytes → List PieceWork → ℕ
count_wanted m [] = 0
count_wanted m (p ∷ ps) = (if skips m p.index then 0 else 1) + count_wanted m ps

-- Without a mask the source returns the number of pieces, which is what the loop counts then.
unfoldable pub remaining : PieceQueue → ℕ
remaining pq = elim pq.skip_mask [
  | none ↦ length pq.pieces
  | some m ↦ count_wanted (some m) pq.pieces
]

unfoldable pub max_piece_len : List PieceWork → ℕ
max_piece_len [] = 0
max_piece_len (p ∷ ps) = max p.len (max_piece_len ps)

unfoldable pub is_done : ℕ → PieceQueue → Bool
is_done i pq = pq.done i

unfoldable pub is_endgame : PieceQueue → Bool
is_endgame pq = pq.endgame
