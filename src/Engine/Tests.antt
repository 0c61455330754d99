-- ===== src/Engine/Tests.antt =====
-- The theorems of Engine at concrete files.
use stor.Prelude.{
  leb, ◌-◌, false, ℕ, ◌+◌, ◌*◌, ◌≤◌, ◌<◌, min, true, [], ◌∷◌, List, none, some, ◌≡◌, ◌↔◌, refl,
  arith,
}
use stor.Prelude.Int.{ℤ, pos, negsuc, eq_ℤ, leb_ℤ}
use stor.Prelude.Words.{Bytes}
use stor.Peer.Bitfield.{has_piece, has_bit, test_bit, set_piece, set_bit, or_bit}
use stor.Engine.FileProgress.{
  compute_file_downloaded, count_bytes, add_pieces, covered, compute_file_downloaded_lem,
}
use stor.Engine.StallDetector.{
  Stall, stalled_after, cleared_after, run, step, step_alone, silent, last_time, NotBefore,
  run-silent,
}
use stor.Engine.SkipMask.{
  priority_skip, compute_skipped_piece_mask, mark, skippable, all_skipped, file_ranges,
}
use stor.Torrent.File.{TorrentFile}
use stor.Engine.SkipRecord.{
  compute_skip_mask_from_record, total_size, any_skipped, file_lengths, lengths,
}
use stor.Engine.SkipMask.Ranges.{file_skip, sum}
use stor.Engine.SkipMask.Marks.{compute_skipped_piece_mask_exact}

-- The second file is skipped: it has pieces 2 and 3 alone, and shares piece 1.
abbrev files : List ℕ
files = 15 ∷ 20 ∷ []

abbrev priorities : List ℤ
priorities = pos 0 ∷ negsuc 0 ∷ []

abbrev skip_bits : Bytes
skip_bits = 48 ∷ []

mask_run : compute_skipped_piece_mask files priorities 10 35 4 ≡ some skip_bits
unfolding compute_skipped_piece_mask mark skippable all_skipped file_ranges set_piece set_bit or_bit
    eq_ℤ
mask_run = refl

sum_files : sum files ≡ 35
unfolding sum
sum_files = refl

bit_2 : has_piece skip_bits (pos 2) ≡ true
unfolding has_piece has_bit test_bit
bit_2 = refl

compute_skipped_piece_mask_exact_example : (has_piece skip_bits (pos 2) ≡ true) ↔ (
    (2 < 4)
    × (2 * 10 < min (2 * 10 + 10) 35)
    × ((b : ℕ) → 2 * 10 ≤ b → b < min (2 * 10 + 10) 35 → file_skip priorities files b ≡ some true))
compute_skipped_piece_mask_exact_example =
    compute_skipped_piece_mask_exact files priorities 10 35 4 skip_bits 2 mask_run (omega arith)
      (omega (arith, sum_files)) (omega arith, (omega arith, tt))

-- Peers vanish at time 5, are still gone at 35, and come back at 40.
abbrev ticks : List (ℕ × ℕ)
ticks = (5, 0) ∷ (35, 0) ∷ (40, 2) ∷ []

abbrev awake : Stall
awake = record { stalled_since = 0; stalled = false }

run-ticks : (run 30 ticks awake).1 ≡ stalled_after 30 ∷ cleared_after 35 ∷ []
unfolding run step step_alone
run-ticks = refl

run-silent_example :
    (run 30 (silent (5 ∷ 20 ∷ 35 ∷ [])) awake).0.stalled ≡ leb 30 (last_time 5 (20 ∷ 35 ∷ []) - 5)
unfolding NotBefore
run-silent_example =
    run-silent 30 5 (20 ∷ 35 ∷ []) (omega arith) (omega arith) (omega arith, (omega arith, tt))

-- A file of 20 bytes from byte 5 on, with pieces of 10 bytes, of which the first and the third are
-- complete.
compute_file_downloaded_example :
    compute_file_downloaded (some (160 ∷ [])) 5 20 10 30 3
    ≡ count_bytes (λ i. has_piece (160 ∷ []) (pos i)) 10 20 5
compute_file_downloaded_example =
    compute_file_downloaded_lem (160 ∷ []) 5 20 10 30 3 (omega arith) (omega arith) (omega arith)
      (omega arith)

compute_file_downloaded-ten : compute_file_downloaded (some (160 ∷ [])) 5 20 10 30 3 ≡ 10
unfolding compute_file_downloaded add_pieces covered has_piece has_bit test_bit
compute_file_downloaded-ten = refl

-- One file of 25 bytes in three pieces of 10.
abbrev alone : TorrentFile
alone = record {
  announce = [];
  announce_list = [];
  info = record {
    name = [];
    piece_length = pos 10;
    piece_hashes = [] ∷ [] ∷ [] ∷ [];
    len = pos 25;
    files = [];
    is_private = false;
    file_tree = none;
  };
  info_hash = [];
  info_hash_v2 = [];
  meta_version = 1;
  web_seed_urls = [];
}

compute_skip_mask_from_record-alone :
    (compute_skip_mask_from_record (some alone) (priority_skip ∷ []) ≡ some (224 ∷ []))
    × (compute_skip_mask_from_record (some alone) (pos 0 ∷ []) ≡ none)
unfolding compute_skip_mask_from_record compute_skipped_piece_mask mark skippable all_skipped
    file_ranges set_piece set_bit or_bit total_size any_skipped file_lengths lengths sum eq_ℤ leb_ℤ
compute_skip_mask_from_record-alone = (refl, refl)
