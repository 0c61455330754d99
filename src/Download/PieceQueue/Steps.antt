-- ===== src/Download/PieceQueue/Steps.antt =====
-- download/piecequeue.go: runs of a queue, a method at a time, and the counts of peers.
use stor.Prelude.{ℕ, Bool, List, Option}
use stor.Prelude.Int.{ℤ}
use stor.Prelude.Words.{Bytes}
use stor.Download.PieceQueue.Queue.{
  PieceWork, PieceQueue, new_piece_queue_with_options, return_piece, complete, add_peer_bitfield,
  remove_peer_bitfield, peer_have, update_skip_mask,
}
use stor.Download.PieceQueue.Pick.{pick}
use stor.Download.PieceQueue.Consistent.{
  Consistent, new_piece_queue_with_options-Consistent, return_piece-Consistent, complete-Consistent,
  add_peer_bitfield-Consistent, remove_peer_bitfield-Consistent, peer_have-Consistent,
  update_skip_mask-Consistent,
}
use stor.Download.PieceQueue.Picked.{pick-Consistent}

-- One call of a method that changes the queue.
pub data Step : PieceQueue → PieceQueue → Type 0 where
  picks :
      (draw : ℕ → ℕ) (has_piece : ℕ → Bool) {pq : PieceQueue} → Step pq (pick draw has_piece pq).0
  returns : (p : PieceWork) {pq : PieceQueue} → Step pq (return_piece p pq)
  completes : (i : ℕ) {pq : PieceQueue} → Step pq (complete i pq)
  joins : (bf : Option Bytes) {pq : PieceQueue} → Step pq (add_peer_bitfield bf pq)
  leaves : (bf : Option Bytes) {pq : PieceQueue} → Step pq (remove_peer_bitfield bf pq)
  announces : (i : ℕ) {pq : PieceQueue} → Step pq (peer_have i pq)
  masks : (m : Option Bytes) {pq : PieceQueue} → Step pq (update_skip_mask m pq)

pub data Reachable : PieceQueue → Type 0 where
  fresh :
      (ps : List PieceWork) (m : Option Bytes) (total : ℤ) (first_last sequential : Bool)
      → Reachable (new_piece_queue_with_options ps m total first_last sequential)
  then_step : {pq pq' : PieceQueue} → Reachable pq → Step pq pq' → Reachable pq'

pub Step-Consistent : {pq pq' : PieceQueue} → Step pq pq' → Consistent pq → Consistent pq'
Step-Consistent (picks draw h) c = pick-Consistent draw h _ c
Step-Consistent (returns p) c = return_piece-Consistent p _ c
Step-Consistent (completes i) c = complete-Consistent i _ c
Step-Consistent (joins bf) c = add_peer_bitfield-Consistent bf _ c
Step-Consistent (leaves bf) c = remove_peer_bitfield-Consistent bf _ c
Step-Consistent (announces i) c = peer_have-Consistent i _ c
Step-Consistent (masks m) c = update_skip_mask-Consistent m _ c

-- Every queue that any sequence of calls gives from a new one is consistent: each availability
-- bucket holds exactly the remaining pieces of that availability, priority pieces remain, and pieces
-- that are done do not.
pub Reachable-Consistent : {pq : PieceQueue} → Reachable pq → Consistent pq
Reachable-Consistent (fresh ps m total b s) = new_piece_queue_with_options-Consistent ps m total b s
Reachable-Consistent (then_step r s) = Step-Consistent s (Reachable-Consistent r)
