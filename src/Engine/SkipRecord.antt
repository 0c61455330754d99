-- ===== src/Engine/SkipRecord.antt =====
-- engine/skip_mask.go: computeSkipMaskFromRecord, from a torrent file and the priorities that a
-- session keeps; storage/torrent.go: TotalSize. The lengths of a parsed file are not negative, and
-- their sum is taken to stay below 2^63.
use stor.Prelude.{
  ℕ, Bool, false, if◌then◌else◌, ◌==◌, ◌||◌, [], ◌∷◌, List, Option, none, some, length,
}
use stor.Prelude.Int.{ℤ, pos, pos_part, leb_ℤ, eq_ℤ}
use stor.Prelude.Words.{Bytes}
use stor.Torrent.File.{File, TorrentFile}
use stor.Engine.SkipMask.{priority_skip, compute_skipped_piece_mask}
use stor.Engine.SkipMask.Ranges.{sum}

unfoldable pub lengths : List File → List ℕ
lengths [] = []
lengths (f ∷ fs) = pos_part f.len ∷ lengths fs

unfoldable pub total_size : TorrentFile → ℕ
unfolding lengths sum
total_size tf =
    if leb_ℤ tf.info.len (pos 0) then sum (lengths tf.info.files) else pos_part tf.info.len

-- The fast path: whether a file is marked skip.
unfoldable pub any_skipped : List ℤ → Bool
any_skipped [] = false
any_skipped (p ∷ ps) = eq_ℤ p priority_skip || any_skipped ps

-- A file that stands alone counts as the one entry of a list.
unfoldable pub file_lengths : TorrentFile → List ℕ
unfolding lengths
file_lengths tf =
    if length tf.info.files == 0 then pos_part tf.info.len ∷ [] else lengths tf.info.files

unfoldable pub compute_skip_mask_from_record : Option TorrentFile → List ℤ → Option Bytes
unfolding total_size any_skipped file_lengths
compute_skip_mask_from_record none ps = none
compute_skip_mask_from_record (some tf) ps =
    if any_skipped ps
    then compute_skipped_piece_mask (file_lengths tf) ps (pos_part tf.info.piece_length)
        (total_size tf) (length tf.info.piece_hashes)
    else none
