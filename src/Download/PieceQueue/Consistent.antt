-- ===== src/Download/PieceQueue/Consistent.antt =====
-- download/piecequeue.go: the invariant that ties the maps of the queue together, and that every
-- method keeps it.
use stor.Prelude.{
  ℕ, zero, suc, Bool, true, false, if◌then◌else◌, ◌==◌, ◌&&◌, ◌||◌, [], ◌∷◌, ◌++◌, List, Option,
  ◌≡◌, refl, subst, arith, All, Bool-cases, inl, inr,
}
use stor.Prelude.Int.{ℤ, pos, negsuc, inc, dec, eq_ℤ}
use stor.Prelude.Words.{Bytes}
use stor.Download.PieceQueue.Buckets.{
  contains, add, in_bucket, contains-delete, contains-add, in_bucket-take_out,
  in_bucket-move_bucket, in_bucket-single,
}
use stor.Download.PieceQueue.Queue.{
  PieceWork, PieceQueue, has_index, put_index, delete_index, update, filter_skipped, fill_pieces,
  fill_bucket, present, first_last, new_piece_queue_with_options, signal, return_piece, complete,
  offers, shift_piece, shift_all, add_peer_bitfield, remove_peer_bitfield, peer_have,
  update_skip_mask,
}

-- A bucket holds the pieces of its availability that remain, the priority set only pieces that
-- remain, and a piece that is done does not remain.
pub record Consistent (pq : PieceQueue) : Type 0 where
  pub buckets_are :
      (a : ℤ) (i : ℕ)
      → in_bucket a i pq.buckets ≡ (has_index i pq.pieces && eq_ℤ (pq.availability i) a)
  pub priority_in : (i : ℕ) → contains i pq.priority ≡ true → has_index i pq.pieces ≡ true
  pub done_out : (i : ℕ) → pq.done i ≡ true → has_index i pq.pieces ≡ false

has_index-put_index :
    (i : ℕ) (p : PieceWork) (ps : List PieceWork)
    → has_index i (put_index p ps) ≡ (p.index == i || has_index i ps)
unfolding has_index put_index
has_index-put_index i p [] = refl
has_index-put_index i p (q ∷ ps) = ground (arith, has_index-put_index i p ps)

has_index-delete_index :
    (i j : ℕ) (ps : List PieceWork)
    → has_index j (delete_index i ps) ≡ (if i == j then false else has_index j ps)
unfolding has_index delete_index
has_index-delete_index i j [] = ground arith
has_index-delete_index i j (q ∷ ps) = ground (arith, has_index-delete_index i j ps)

contains-fill_bucket :
    (i : ℕ) (b : List ℕ) (acc ps : List PieceWork)
    → contains i b ≡ has_index i acc
    → contains i (fill_bucket b ps) ≡ has_index i (fill_pieces acc ps)
unfolding fill_bucket fill_pieces
contains-fill_bucket i b acc [] h = h
contains-fill_bucket i b acc (p ∷ ps) h =
    contains-fill_bucket i (add p.index b) (put_index p acc) ps
      (ground (arith, contains-add p.index i b, has_index-put_index i p acc))

contains-append :
    (i : ℕ) (xs ys : List ℕ) → contains i (xs ++ ys) ≡ (contains i xs || contains i ys)
unfolding contains
contains-append i [] ys = refl
contains-append i (x ∷ xs) ys = ground (arith, contains-append i xs ys)

contains-present :
    (i k : ℕ) (ps : List PieceWork) → contains i (present k ps) ≡ true → has_index i ps ≡ true
unfolding contains
contains-present i k ps h = ground arith

contains-first_last :
    (i : ℕ) (b : Bool) (total : ℤ) (ps : List PieceWork)
    → contains i (first_last b total ps) ≡ true
    → has_index i ps ≡ true
unfolding first_last contains
contains-first_last i false total ps h = ground arith
contains-first_last i true (negsuc n) ps h = ground arith
contains-first_last i true (pos zero) ps h = ground arith
contains-first_last i true (pos (suc zero)) ps h = contains-present i 0 ps h
contains-first_last i true (pos (suc (suc n))) ps h = ground (
  arith,
  contains-append i (present 0 ps) (present (suc n) ps),
  contains-present i 0 ps,
  contains-present i (suc n) ps,
)

empty_maps : (i : ℕ) → contains i [] ≡ has_index i []
unfolding contains has_index
empty_maps i = refl

pub new_piece_queue_with_options-Consistent :
    (ps : List PieceWork) (m : Option Bytes) (total : ℤ) (first_last sequential : Bool)
    → Consistent (new_piece_queue_with_options ps m total first_last sequential)
unfolding new_piece_queue_with_options
new_piece_queue_with_options-Consistent ps m total b s =
    let filtered = filter_skipped m ps in
    record {
      buckets_are = λ a i.
          let e = contains-fill_bucket i [] [] filtered (empty_maps i) in
          subst
            (λ c.
              in_bucket a i (new_piece_queue_with_options ps m total b s).buckets
              ≡ (c && eq_ℤ (pos 0) a))
            e (in_bucket-single a i (fill_bucket [] filtered));
      priority_in = λ i. contains-first_last i b total (fill_pieces [] filtered);
      done_out = λ i h. ground arith;
    }

pub return_piece-Consistent :
    (p : PieceWork) (pq : PieceQueue) → Consistent pq → Consistent (return_piece p pq)
unfolding return_piece
return_piece-Consistent p pq c = record {
  buckets_are = c.buckets_are;
  priority_in = c.priority_in;
  done_out = c.done_out;
}

pub update_skip_mask-Consistent :
    (m : Option Bytes) (pq : PieceQueue) → Consistent pq → Consistent (update_skip_mask m pq)
unfolding update_skip_mask
update_skip_mask-Consistent m pq c = record {
  buckets_are = c.buckets_are;
  priority_in = c.priority_in;
  done_out = c.done_out;
}

pub complete-Consistent : (i : ℕ) (pq : PieceQueue) → Consistent pq → Consistent (complete i pq)
unfolding complete
complete-Consistent i pq c = record {
  buckets_are = λ a j. ground (
    arith,
    in_bucket-take_out (pq.availability i) a i j pq.buckets,
    has_index-delete_index i j pq.pieces,
    c.buckets_are a j,
  );
  priority_in = λ j. ground (
    arith,
    contains-delete i j pq.priority,
    has_index-delete_index i j pq.pieces,
    c.priority_in j,
  );
  done_out = λ j. ground (arith, has_index-delete_index i j pq.pieces, c.done_out j);
}

shift_piece-pieces :
    {qs : List PieceWork} (g : ℤ → ℤ) (i : ℕ) (pq : PieceQueue)
    → pq.pieces ≡ qs
    → (shift_piece g i pq).pieces ≡ qs
unfolding shift_piece
shift_piece-pieces g i pq e = e

-- A piece that remains changes its availability and its bucket together.
pub shift_piece-Consistent :
    (g : ℤ → ℤ) (i : ℕ) (pq : PieceQueue)
    → has_index i pq.pieces ≡ true
    → Consistent pq
    → Consistent (shift_piece g i pq)
unfolding shift_piece
shift_piece-Consistent g i pq h c = record {
  buckets_are = λ a j. ground (
    arith,
    in_bucket-move_bucket (pq.availability i) (g (pq.availability i)) a i j pq.buckets,
    c.buckets_are a j,
    h,
  );
  priority_in = c.priority_in;
  done_out = c.done_out;
}

-- A state of the loop over the pieces: the pieces stay, and the invariant holds.
shift_all-Consistent :
    (g : ℤ → ℤ) (bf : Option Bytes) (qs ps : List PieceWork) (pq : PieceQueue)
    → pq.pieces ≡ qs
    → All (λ p. has_index p.index qs ≡ true) ps
    → Consistent pq
    → Consistent (shift_all g bf ps pq)
unfolding shift_all
shift_all-Consistent g bf qs [] pq e h c = c
shift_all-Consistent g bf qs (p ∷ ps) pq e h c = elim (Bool-cases (offers bf p.index)) [
  | inl o ↦ rw o (
      shift_all-Consistent g bf qs ps (shift_piece g p.index pq) (shift_piece-pieces g p.index pq e)
        h.1 (shift_piece-Consistent g p.index pq (rw e h.0) c))
  | inr o ↦ rw o (shift_all-Consistent g bf qs ps pq e h.1 c)
]

indices_in :
    (ps qs : List PieceWork)
    → ((i : ℕ) → has_index i ps ≡ true → has_index i qs ≡ true)
    → All (λ p. has_index p.index qs ≡ true) ps
unfolding has_index
indices_in [] qs h = tt
indices_in (p ∷ ps) qs h =
    (h p.index (ground arith), indices_in ps qs (λ i e. h i (ground (arith, e))))

shift_pieces-Consistent :
    (g : ℤ → ℤ) (bf : Option Bytes) (pq : PieceQueue)
    → Consistent pq
    → Consistent (shift_all g bf pq.pieces pq)
shift_pieces-Consistent g bf pq c =
    shift_all-Consistent g bf pq.pieces pq.pieces pq refl
      (indices_in pq.pieces pq.pieces (λ i h. h)) c

signal-Consistent : (pq : PieceQueue) → Consistent pq → Consistent (signal pq)
signal-Consistent pq c = record {
  buckets_are = c.buckets_are;
  priority_in = c.priority_in;
  done_out = c.done_out;
}

pub add_peer_bitfield-Consistent :
    (bf : Option Bytes) (pq : PieceQueue) → Consistent pq → Consistent (add_peer_bitfield bf pq)
unfolding add_peer_bitfield
add_peer_bitfield-Consistent bf pq c =
    signal-Consistent (shift_all inc bf pq.pieces pq) (shift_pieces-Consistent inc bf pq c)

pub remove_peer_bitfield-Consistent :
    (bf : Option Bytes) (pq : PieceQueue) → Consistent pq → Consistent (remove_peer_bitfield bf pq)
unfolding remove_peer_bitfield
remove_peer_bitfield-Consistent bf pq c = shift_pieces-Consistent dec bf pq c

-- A piece that is not in the queue has no bucket to move from.
count_absent-Consistent :
    (i : ℕ) (v : ℤ) (pq : PieceQueue)
    → has_index i pq.pieces ≡ false
    → Consistent pq
    → Consistent (record pq { availability = update pq.availability i v })
count_absent-Consistent i v pq h c = record {
  buckets_are = λ a j. ground (arith, c.buckets_are a j, h);
  priority_in = c.priority_in;
  done_out = c.done_out;
}

pub peer_have-Consistent : (i : ℕ) (pq : PieceQueue) → Consistent pq → Consistent (peer_have i pq)
unfolding peer_have
peer_have-Consistent i pq c = elim (Bool-cases (has_index i pq.pieces)) [
  | inl h ↦ rw h (signal-Consistent _ (shift_piece-Consistent inc i pq h c))
  | inr h ↦ rw h (signal-Consistent _ (count_absent-Consistent i _ pq h c))
]
