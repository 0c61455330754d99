-- ===== src/Download/Tests.antt =====
-- Runs of the definitions of Download, and the theorems at concrete inputs.
use stor.Prelude.{ℕ, Bool, true, false, [], ◌∷◌, List, Option, none, some, ◌≡◌, ◌≢◌, refl}
use stor.Prelude.Int.{ℤ, pos, inc, eq_ℤ, leb_ℤ}
use stor.Peer.Bitfield.{has_bit, test_bit}
use stor.Download.PieceQueue.Buckets.{
  in_bucket, contains, delete, add, bucket_of, set_bucket, delete_bucket, take_out, put_in,
  move_bucket,
}
use stor.Download.PieceQueue.Queue.{
  PieceWork, PieceQueue, new_piece_queue_with_options, complete, add_peer_bitfield,
  remove_peer_bitfield, has_index, find_index, put_index, delete_index, filter_skipped, fill_pieces,
  fill_bucket, first_last, shift_piece, shift_all,
}
use stor.Download.PieceQueue.Pick.{
  pick, check_endgame, eligible, choose, sample, from_levels, sorted_levels, insert_level,
}
use stor.Download.PieceQueue.Consistent.{Consistent}
use stor.Download.PieceQueue.Picked.{Picks, MayPick, pick-Picks}
use stor.Download.PieceQueue.Steps.{fresh, then_step, joins, Reachable-Consistent}
use stor.Download.PieceQueue.Runs.{stop, complete-pick, remove_peer_bitfield-add}

abbrev piece_0 : PieceWork
piece_0 = record { index = 0; hash = 7 ∷ []; len = 16384 }

abbrev piece_1 : PieceWork
piece_1 = record { index = 1; hash = 8 ∷ []; len = 100 }

-- A queue of two pieces, and a peer that has the second.
abbrev queue : PieceQueue
queue = new_piece_queue_with_options (piece_0 ∷ piece_1 ∷ []) none (pos 2) false false

abbrev second_only : Option (List ℕ)
second_only = some (64 ∷ [])

abbrev joined : PieceQueue
joined = add_peer_bitfield second_only queue

joined-Consistent : Consistent joined
joined-Consistent =
    Reachable-Consistent
      (then_step (fresh (piece_0 ∷ piece_1 ∷ []) none (pos 2) false false) (joins second_only))

abbrev first_draw : ℕ → ℕ
first_draw n = 0

abbrev has_all : ℕ → Bool
has_all i = true

-- Piece 0 is rarer, though the peer counted for piece 1 has no piece 0.
pick_rarest : (pick first_draw has_all joined).1 ≡ some piece_0
unfolding pick choose check_endgame eligible sample from_levels sorted_levels insert_level complete
    add_peer_bitfield shift_all shift_piece new_piece_queue_with_options filter_skipped fill_pieces
    fill_bucket first_last has_index find_index put_index delete_index contains delete add bucket_of
    set_bucket delete_bucket take_out put_in move_bucket has_bit test_bit inc eq_ℤ leb_ℤ
pick_rarest = refl

pick_last : (pick first_draw has_all (complete 0 joined)).1 ≡ some piece_1
unfolding pick choose check_endgame eligible sample from_levels sorted_levels insert_level complete
    add_peer_bitfield shift_all shift_piece new_piece_queue_with_options filter_skipped fill_pieces
    fill_bucket first_last has_index find_index put_index delete_index contains delete add bucket_of
    set_bucket delete_bucket take_out put_in move_bucket has_bit test_bit inc eq_ℤ leb_ℤ
pick_last = refl

Reachable-Consistent_example : Consistent joined
Reachable-Consistent_example =
    Reachable-Consistent
      (then_step (fresh (piece_0 ∷ piece_1 ∷ []) none (pos 2) false false) (joins second_only))

pick-Picks_example :
    Picks
      (check_endgame joined)
      (MayPick (check_endgame joined) has_all)
      (pick first_draw has_all joined)
pick-Picks_example = pick-Picks first_draw has_all joined (λ n h. h) joined-Consistent

complete-pick_example : piece_1.index ≢ piece_0.index
complete-pick_example =
    complete-pick first_draw has_all piece_0.index joined (complete 0 joined) piece_1 (λ n h. h)
      joined-Consistent stop pick_last

remove_peer_bitfield-add_example :
    ((j : ℕ)
      → (remove_peer_bitfield second_only (add_peer_bitfield second_only joined)).availability j
        ≡ joined.availability j)
    × ((a : ℤ) (j : ℕ)
        → in_bucket a j
            (remove_peer_bitfield second_only (add_peer_bitfield second_only joined)).buckets
          ≡ in_bucket a j joined.buckets)
remove_peer_bitfield-add_example = remove_peer_bitfield-add second_only joined joined-Consistent
