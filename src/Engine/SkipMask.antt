-- ===== src/Engine/SkipMask.antt =====
-- engine/skip_mask.go: the pieces that lie in skipped files only. Lengths are numbers: the parser of
-- torrent files refuses negative ones, and their sum is taken to stay below 2^63.
pub mod Ranges
pub mod Marks
use stor.Prelude.{
  ℕ, zero, suc, ◌+◌, ◌-◌, ◌*◌, ◌/◌, ◌≤◌, ◌<◌, Bool, true, false, not, if◌then◌else◌, ◌==◌, ◌&&◌,
  ◌||◌, ltb, leb, [], ◌∷◌, List, Option, none, some, ◌≡◌, ◌≢◌, ◌↔◌, ◌⊎◌, refl, arith, length,
  replicate, length-replicate, All, inl, inr, Bool-cases, min, max, get_or, all_below,
  all_below_sound, ◌%◌,
}
use stor.Prelude.Int.{ℤ, pos, negsuc, eq_ℤ, leb_ℤ, to_int64}
use stor.Prelude.Words.{Bytes, IsBytes}
use stor.Peer.Bitfield.{has_piece, has_bit, test_bit, set_piece, set_piece_lem}

abbrev pub priority_skip : ℤ
priority_skip = negsuc 0

pub record FileRange : Type 0 where
  pub start : ℕ
  pub end : ℕ
  pub skip : Bool

-- A file beyond the priorities is wanted.
unfoldable pub file_ranges : List ℤ → ℕ → List ℕ → List FileRange
file_ranges ps offset [] = []
file_ranges [] offset (f ∷ fs) =
    record { start = offset; end = offset + f; skip = false } ∷ file_ranges [] (offset + f) fs
file_ranges (p ∷ ps) offset (f ∷ fs) =
    record { start = offset; end = offset + f; skip = eq_ℤ p priority_skip }
    ∷ file_ranges ps (offset + f) fs

-- The loop over the ranges for one piece: `coveredAny && allSkipped` at its end.
unfoldable pub all_skipped : ℤ → ℤ → Bool → List FileRange → Bool
unfolding leb_ℤ
all_skipped piece_start piece_end covered [] = covered
all_skipped piece_start piece_end covered (r ∷ rs) =
    let passed = all_skipped piece_start piece_end covered rs in
    let after = all_skipped piece_start piece_end true rs in
    if leb_ℤ (pos r.end) piece_start || leb_ℤ piece_end (pos r.start)
    then passed
    else if r.skip
    then after
    else false

-- The products and sums of int64 wrap around.
unfoldable pub skippable : ℕ → ℕ → List FileRange → ℕ → Bool
unfolding all_skipped
skippable piece_length total_bytes ranges i =
    let piece_start = to_int64 (i * piece_length) in
    let unclamped = to_int64 (i * piece_length + piece_length) in
    let piece_end = if leb_ℤ unclamped (pos total_bytes) then unclamped else pos total_bytes in
    if leb_ℤ piece_end piece_start then false else all_skipped piece_start piece_end false ranges

-- The loop over the pieces, with the rounds left and the index.
unfoldable pub mark : (ℕ → Bool) → ℕ → ℕ → Bytes → Bytes
mark skips zero i mask = mask
mark skips (suc n) i mask =
    mark skips n (i + 1) (if skips i then (set_piece mask (pos i)).0 else mask)

unfoldable pub compute_skipped_piece_mask : List ℕ → List ℤ → ℕ → ℕ → ℕ → Option Bytes
unfolding skippable mark file_ranges
compute_skipped_piece_mask files priorities piece_length total_bytes num_pieces =
    if num_pieces == 0 || piece_length == 0 || length files == 0
    then none
    else some (
        mark (skippable piece_length total_bytes (file_ranges priorities 0 files)) num_pieces 0
          (replicate ((num_pieces + 7) / 8) 0))
