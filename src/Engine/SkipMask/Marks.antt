-- ===== src/Engine/SkipMask/Marks.antt =====
-- engine/skip_mask.go: the bits of the mask.
use stor.Prelude.{
  ℕ, zero, suc, ◌+◌, ◌-◌, ◌*◌, ◌/◌, ◌^◌, ◌≤◌, ◌<◌, Bool, true, false, not, if◌then◌else◌, ◌==◌,
  ◌&&◌, ltb, leb, List, some, ◌≡◌, ◌↔◌, refl, arith, length, replicate, length-replicate, All, inl,
  inr, Bool-cases, min, get_or, all_below, all_below_sound, ◌%◌,
}
use stor.Prelude.Int.{ℤ, pos, leb_ℤ, to_int64-small}
use stor.Prelude.Words.{Bytes, IsBytes}
use stor.Peer.Bitfield.{has_piece, has_bit, test_bit, set_piece, set_piece_lem}
use stor.Engine.SkipMask.{
  FileRange, file_ranges, all_skipped, skippable, mark, compute_skipped_piece_mask,
}
use stor.Engine.SkipMask.Ranges.{file_skip, sum, all_skipped_sound, all_skipped_complete}

has_piece-mark :
    (skips : ℕ → Bool) (n i : ℕ) (mask : Bytes) (j : ℕ)
    → IsBytes mask
    → has_piece (mark skips n i mask) (pos j) ≡ (
        if leb i j && (ltb j (i + n) && (skips j && ltb (j / 8) (length mask)))
        then true
        else has_piece mask (pos j))
unfolding mark
has_piece-mark skips zero i mask j b = ground arith
has_piece-mark skips (suc n) i mask j b =
    let (same, b', _, bits) = set_piece_lem mask i b in
    let bit = bits j in
    let next = (set_piece mask (pos i)).0 in
    elim (Bool-cases (skips i)) [
      | inl t ↦
          let eq = has_piece-mark skips n (i + 1) next j b' in
          rw (t, mark)
            (elim (Bool-cases (i == j)) [
              | inl e ↦
                  let here : i ≡ j = ground (arith, e) in ground (arith, eq, bit, same, e, t, here)
              | inr e ↦ ground (arith, eq, bit, same, e)
            ])
      | inr t ↦
          let eq = has_piece-mark skips n (i + 1) mask j b in
          rw (t, mark)
            (elim (Bool-cases (i == j)) [
              | inl e ↦ let here : i ≡ j = ground (arith, e) in ground (arith, eq, e, t, here)
              | inr e ↦ ground (arith, eq, e)
            ])
    ]

zero_byte_bits : all_below 8 (λ k. not (test_bit 0 k)) ≡ true
unfolding all_below test_bit
zero_byte_bits = refl

get_or-zeros : (n i : ℕ) → get_or {A = ℕ} (replicate n 0) i 0 ≡ 0
get_or-zeros zero i = refl
get_or-zeros (suc n) zero = refl
get_or-zeros (suc n) (suc i) = get_or-zeros n i

has_piece-zeros : (n i : ℕ) → has_piece (replicate n 0) (pos i) ≡ false
unfolding has_piece has_bit
has_piece-zeros n i = ground (
  arith,
  get_or-zeros n (i / 8),
  all_below_sound 8 (λ k. not (test_bit 0 k)) (i % 8) zero_byte_bits (omega arith),
)

zeros-IsBytes : (n : ℕ) → IsBytes (replicate n 0)
zeros-IsBytes zero = tt
zeros-IsBytes (suc n) = (omega arith, zeros-IsBytes n)

-- The mask has the bit of piece `i` exactly if the piece is skippable.
pub has_piece-mask :
    (skips : ℕ → Bool) (n i : ℕ)
    → has_piece (mark skips n 0 (replicate ((n + 7) / 8) 0)) (pos i) ≡ (ltb i n && skips i)
has_piece-mask skips n i =
    let eq = has_piece-mark skips n 0 (replicate ((n + 7) / 8) 0) i (zeros-IsBytes ((n + 7) / 8)) in
    elim (Bool-cases (ltb i n)) [
      | inl l ↦
          let inside : i / 8 < (n + 7) / 8 = ground (arith, l) in
          ground (
            arith,
            eq,
            l,
            inside,
            length-replicate {A = ℕ} ((n + 7) / 8) 0,
            has_piece-zeros ((n + 7) / 8) i,
          )
      | inr l ↦ ground (arith, eq, l, has_piece-zeros ((n + 7) / 8) i)
    ]

-- Without an overflow the bounds of a piece are numbers.
skippable-small :
    (pl total : ℕ) (ranges : List FileRange) (i : ℕ)
    → i * pl + pl < 2 ^ 63
    → skippable pl total ranges i ≡ (
        if leb (min (i * pl + pl) total) (i * pl)
        then false
        else all_skipped (pos (i * pl)) (pos (min (i * pl + pl) total)) false ranges)
unfolding skippable leb_ℤ
skippable-small pl total ranges i l =
    let s = to_int64-small (i * pl) (omega arith) in
    let e = to_int64-small (i * pl + pl) l in
    elim (Bool-cases (leb (i * pl + pl) total)) [
      | inl y ↦
          let m : min (i * pl + pl) total ≡ i * pl + pl = ground (arith, y) in rw (s, e, m, y) refl
      | inr n ↦ let m : min (i * pl + pl) total ≡ total = ground (arith, n) in rw (s, e, m, n) refl
    ]

piece_fits : (i num pl : ℕ) → i < num → num * pl < 2 ^ 63 → i * pl + pl < 2 ^ 63
piece_fits i num pl l h = grind arith

-- Where the files hold all bytes of the torrent and the bounds of no piece pass 2^63 - 1, every byte of a piece whose bit is set lies in a
-- file of priority "skip".
pub compute_skipped_piece_mask_sound :
    (files : List ℕ) (priorities : List ℤ) (pl total num : ℕ) (mask : Bytes) (i b : ℕ)
    → compute_skipped_piece_mask files priorities pl total num ≡ some mask
    → num * pl < 2 ^ 63
    → total ≤ sum files
    → has_piece mask (pos i) ≡ true
    → i * pl ≤ b
    → b < min (i * pl + pl) total
    → file_skip priorities files b ≡ some true
unfolding compute_skipped_piece_mask
compute_skipped_piece_mask_sound files priorities pl total num mask i b e small t h lo hi =
    let ranges = file_ranges priorities 0 files in
    let skips = skippable pl total ranges in
    let is_mask : mark skips num 0 (replicate ((num + 7) / 8) 0) ≡ mask = ground (arith, e) in
    let bit = has_piece-mask skips num i in
    let skip : skips i ≡ true = ground (arith, bit, is_mask, h) in
    let inside : i < num = ground (arith, bit, is_mask, h) in
    let plain = skippable-small pl total ranges i (piece_fits i num pl inside small) in
    let zero_off : b - 0 ≡ b = omega arith in
    rw zero_off at (
      all_skipped_sound (i * pl) (min (i * pl + pl) total) false priorities 0 files b
        (ground (arith, skip, plain)) lo hi (omega arith) (omega arith))

-- Where no file is empty, their lengths add up to the total, and the bounds of no piece pass 2^63 - 1, the bit of an index is set exactly
-- if it is one of the pieces, has a byte, and all of its bytes lie in files of priority "skip".
pub compute_skipped_piece_mask_exact :
    (files : List ℕ) (priorities : List ℤ) (pl total num : ℕ) (mask : Bytes) (i : ℕ)
    → compute_skipped_piece_mask files priorities pl total num ≡ some mask
    → num * pl < 2 ^ 63
    → total ≡ sum files
    → All (λ f. 0 < f) files
    → (has_piece mask (pos i) ≡ true) ↔ (
        (i < num)
        × (i * pl < min (i * pl + pl) total)
        × ((b : ℕ)
            → i * pl ≤ b
            → b < min (i * pl + pl) total
            → file_skip priorities files b ≡ some true))
unfolding compute_skipped_piece_mask
compute_skipped_piece_mask_exact files priorities pl total num mask i e small t z =
    let ranges = file_ranges priorities 0 files in
    let skips = skippable pl total ranges in
    let is_mask : mark skips num 0 (replicate ((num + 7) / 8) 0) ≡ mask = ground (arith, e) in
    let bit = has_piece-mask skips num i in
    (
      λ h. (
        ground (arith, bit, is_mask, h),
        (let inside : i < num = ground (arith, bit, is_mask, h) in
            let plain = skippable-small pl total ranges i (piece_fits i num pl inside small) in
            ground (arith, bit, is_mask, h, plain)),
        λ b lo hi.
            compute_skipped_piece_mask_sound files priorities pl total num mask i b e small
              (omega arith) h lo hi,
      ),
      λ (l, ne, h).
          let plain = skippable-small pl total ranges i (piece_fits i num pl l small) in
          let all : all_skipped (pos (i * pl)) (pos (min (i * pl + pl) total)) false ranges ≡ true =
            all_skipped_complete (i * pl) (min (i * pl + pl) total) false priorities 0 files ne z
              (λ b lo hi _ _. let zero_off : b - 0 ≡ b = omega arith in rw zero_off (h b lo hi))
              (inr (omega arith)) in
          let skip : skips i ≡ true = ground (arith, plain, all, ne) in
          ground (arith, bit, is_mask, skip, l),
    )
