-- ===== src/Storage/Verify/Verified.antt =====
-- storage/verify.go: what the bitfield of VerifyPieces says.
use stor.Prelude.{
  ℕ, zero, suc, ◌+◌, ◌-◌, ◌*◌, ◌/◌, ◌%◌, ◌^◌, ◌≤◌, ◌<◌, Bool, true, false, if◌then◌else◌, leb, ltb,
  [], ◌∷◌, List, none, some, ◌≡◌, ◌↔◌, ◌⊎◌, refl, ◌∙◌, ap, arith, length, replicate, get_or, min,
  Bool-cases, inl, inr,
}
use stor.Prelude.Int.{ℤ, pos, negsuc, leb_ℤ, to_int64, to_int64-small}
use stor.Prelude.Words.{Bytes}
use stor.Bencode.Value.{str_eq}
use stor.Bencode.Order.{str_eq_iff}
use stor.Peer.Bitfield.{has_piece, set_piece}
use stor.Engine.SkipMask.{mark}
use stor.Engine.SkipMask.Marks.{has_piece-mask}
use stor.Storage.Verify.{is_verified, length_at, verify_loop, verify_pieces}

-- How many of the indices from `i` on pass a test.
unfoldable pub count_from : (ℕ → Bool) → ℕ → ℕ → ℕ
count_from good zero i = 0
count_from good (suc n) i = (if good i then 1 else 0) + count_from good n (i + 1)

zero_add : (n : ℕ) → 0 + n ≡ n
zero_add n = omega arith

count_from_ext :
    (g h : ℕ → Bool) (n i : ℕ)
    → ((j : ℕ) → i ≤ j → j < i + n → g j ≡ h j)
    → count_from g n i ≡ count_from h n i
unfolding count_from
count_from_ext g h zero i same = refl
count_from_ext g h (suc n) i same =
    rw
      (
        same i (omega arith) (omega arith),
        count_from_ext g h n (i + 1) (λ j l u. same j (omega arith) (omega arith)),
      )
      refl

module _ (sha1 : Bytes → Bytes) (read : ℕ → ℤ → Bytes × Bool) (piece_len total : ℕ) where
  -- The length of a piece.
  abbrev pub piece_size : ℕ → ℕ
  piece_size i = min piece_len (total - i * piece_len)

  -- The reader gives the piece in full, without an error, and it has the expected hash.
  pub record Matches (hashes : List Bytes) (i : ℕ) : Type 0 where
    pub no_error : (read (piece_size i) (pos (i * piece_len))).1 ≡ true
    pub in_full : length (read (piece_size i) (pos (i * piece_len))).0 ≡ piece_size i
    pub hash_is : sha1 (read (piece_size i) (pos (i * piece_len))).0 ≡ get_or hashes i []

  good_at : List Bytes → ℕ → Bool
  good_at hashes i = is_verified sha1 read piece_len total (get_or hashes i []) (piece_size i) i

  length_at-small :
      (i : ℕ)
      → i * piece_len ≤ total
      → total < 2 ^ 63
      → length_at sha1 read piece_len total i ≡ pos (piece_size i)
  unfolding length_at leb_ℤ
  length_at-small i l small =
      let p = i * piece_len in
      let e : (total + (2 ^ 64 - p % 2 ^ 64)) % 2 ^ 64 ≡ total - p = omega (arith, l, small) in
      let f : ltb (total - p) (2 ^ 63) ≡ true = ground (arith, small) in
      elim (Bool-cases (leb piece_len (total - p))) [
        | inl y ↦
            let m : min piece_len (total - p) ≡ piece_len = ground (arith, y) in
            rw (e, f, y, m) refl
        | inr n ↦
            let m : min piece_len (total - p) ≡ total - p = ground (arith, n) in
            rw (e, f, n, m) refl
      ]

  good_at-Matches :
      (hashes : List Bytes) (i : ℕ)
      → i * piece_len < 2 ^ 63
      → (good_at hashes i ≡ true) ↔ Matches hashes i
  unfolding good_at is_verified
  good_at-Matches hashes i small =
      let at : to_int64 (i * piece_len) ≡ pos (i * piece_len) =
        to_int64-small (i * piece_len) small in
      let got = (read (piece_size i) (pos (i * piece_len))).0 in
      let eq = str_eq_iff (sha1 got) (get_or hashes i []) in
      rw at (
        (λ h. record {
          no_error = ground (arith, h);
          in_full = ground (arith, h);
          hash_is = eq.0 (ground (arith, h));
        }),
        (λ m.
            let a : str_eq (sha1 got) (get_or hashes i []) ≡ true = eq.1 m.hash_is in
            ground (arith, m.no_error, m.in_full, a)),
      )

  good_head :
      (hashes : List Bytes) (h : Bytes) (i : ℕ)
      → get_or hashes i [] ≡ h
      → good_at hashes i ≡ is_verified sha1 read piece_len total h (piece_size i) i
  unfolding good_at
  good_head hashes h i e = rw e refl

  -- The loop marks what passes the test, and counts it.
  verify_loop-mark :
      (hashes hs : List Bytes) (i : ℕ) (bf : Bytes) (n : ℕ)
      → ((j : ℕ) → get_or hashes (i + j) [] ≡ get_or hs j [])
      → ((j : ℕ) → j < length hs → (i + j) * piece_len ≤ total)
      → total < 2 ^ 63
      → verify_loop sha1 read piece_len total hs i bf n
        ≡ some
            (mark (good_at hashes) (length hs) i bf, n + count_from (good_at hashes) (length hs) i)
  unfolding verify_loop mark count_from
  verify_loop-mark hashes [] i bf n same fits small = let e : n + 0 ≡ n = omega arith in rw e refl
  verify_loop-mark hashes (h ∷ hs) i bf n same fits small =
      let e : i + 0 ≡ i = omega arith in
      let head : get_or hashes i [] ≡ h = rw e at (same 0) in
      let starts : length_at sha1 read piece_len total i ≡ pos (piece_size i) =
        length_at-small i (rw e at (fits 0 (omega arith))) small in
      let good = is_verified sha1 read piece_len total h (piece_size i) i in
      let first : good_at hashes i ≡ good = good_head hashes h i head in
      let later = count_from (good_at hashes) (length hs) (i + 1) in
      let sum : (if good then n + 1 else n) + later ≡ n + ((if good then 1 else 0) + later) =
        ground arith in
      let rest =
        verify_loop-mark hashes hs (i + 1) (if good then (set_piece bf (pos i)).0 else bf)
          (if good then n + 1 else n)
          (λ j. let s : i + 1 + j ≡ i + suc j = omega arith in rw s (same (suc j)))
          (λ j l. let s : i + 1 + j ≡ i + suc j = omega arith in rw s (fits (suc j) (omega arith)))
          small in
      rw (starts, verify_loop, mark, first)
        (rest
          ∙ ap
              (λ k. some (
                mark (good_at hashes) (length hs) (i + 1)
                    (if good then (set_piece bf (pos i)).0 else bf),
                k,
              ))
              sum)

  length_at-negative :
      (i : ℕ)
      → total < i * piece_len
      → i * piece_len < 2 ^ 63
      → (m : ℕ) × (length_at sha1 read piece_len total i ≡ negsuc m)
  unfolding length_at leb_ℤ
  length_at-negative i l small =
      let p = i * piece_len in
      let e : (total + (2 ^ 64 - p % 2 ^ 64)) % 2 ^ 64 ≡ total + (2 ^ 64 - p) =
        omega (arith, l, small) in
      let f : ltb (total + (2 ^ 64 - p)) (2 ^ 63) ≡ false = ground (arith, small) in
      (2 ^ 64 - 1 - (total + (2 ^ 64 - p)), rw (e, f) refl)

  ℤ-cases : (a : ℤ) → ((n : ℕ) × (a ≡ pos n)) ⊎ ((n : ℕ) × (a ≡ negsuc n))
  ℤ-cases (pos n) = inl (n, refl)
  ℤ-cases (negsuc n) = inr (n, refl)

  verify_loop_panic :
      (hs : List Bytes) (i j : ℕ) (bf : Bytes) (n : ℕ)
      → j < length hs
      → total < (i + j) * piece_len
      → (i + j) * piece_len < 2 ^ 63
      → verify_loop sha1 read piece_len total hs i bf n ≡ none
  unfolding verify_loop
  verify_loop_panic [] i j bf n l over small = absurd (omega arith)
  verify_loop_panic (h ∷ hs) i zero bf n l over small =
      let e : i + 0 ≡ i = omega arith in
      let (m, past) = length_at-negative i (rw e at over) (rw e at small) in
      rw (past, verify_loop) refl
  verify_loop_panic (h ∷ hs) i (suc j) bf n l over small =
      let e : i + suc j ≡ i + 1 + j = omega arith in
      elim (ℤ-cases (length_at sha1 read piece_len total i)) [
        | inl (k, y) ↦
            let good = is_verified sha1 read piece_len total h k i in
            rw (y, verify_loop)
              (verify_loop_panic hs (i + 1) j (if good then (set_piece bf (pos i)).0 else bf)
                (if good then n + 1 else n) (omega arith) (rw e at over) (rw e at small))
        | inr (k, w) ↦ rw (w, verify_loop) refl
      ]

  -- Where the buffer for a piece can be made, the torrent has less than 2^63 bytes, and every piece
  -- begins within it, VerifyPieces does not panic; the bit of an index is set exactly if it is a piece
  -- that the reader gives in full, without an error, and with the expected hash; and the count is the
  -- number of the bits that are set.
  pub verify_pieces_lem :
      (allocates : ℕ → Bool) (hashes : List Bytes)
      → allocates piece_len ≡ true
      → total < 2 ^ 63
      → ((i : ℕ) → i < length hashes → i * piece_len ≤ total)
      → (bf : Bytes) × (n : ℕ) × (verify_pieces sha1 read piece_len total allocates hashes
          ≡ some (bf, n))
        × ((i : ℕ) → (has_piece bf (pos i) ≡ true) ↔ ((i < length hashes) × Matches hashes i))
        × (n ≡ count_from (λ i. has_piece bf (pos i)) (length hashes) 0)
  unfolding verify_pieces
  verify_pieces_lem allocates hashes room small fits =
      let good = good_at hashes in
      let zeros : Bytes = replicate ((length hashes + 7) / 8) 0 in
      let bit = has_piece-mask good (length hashes) in
      let matches = λ (i : ℕ) (l : i < length hashes).
        good_at-Matches hashes i (omega (arith, fits i l, small)) in
      (
        mark good (length hashes) 0 zeros,
        0 + count_from good (length hashes) 0,
        rw room (
            verify_loop-mark hashes hashes 0 zeros 0
              (λ j. let e : 0 + j ≡ j = omega arith in rw e refl)
              (λ j l. let e : 0 + j ≡ j = omega arith in rw e (fits j l)) small),
        λ i. (
          (λ h.
              let inside : i < length hashes = ground (arith, bit i, h) in
              (inside, (matches i inside).0 (ground (arith, bit i, h)))),
          (λ (l, m). let yes : good i ≡ true = (matches i l).1 m in ground (arith, bit i, l, yes)),
        ),
        zero_add (count_from good (length hashes) 0)
            ∙ count_from_ext good (λ i. has_piece (mark good (length hashes) 0 zeros) (pos i))
                (length hashes) 0 (λ j l u. ground (arith, bit j, u)),
      )

  -- A torrent with a piece that begins behind its end makes VerifyPieces panic, whatever is on disk.
  pub verify_pieces_panic :
      (allocates : ℕ → Bool) (hashes : List Bytes) (i : ℕ)
      → i < length hashes
      → total < i * piece_len
      → i * piece_len < 2 ^ 63
      → verify_pieces sha1 read piece_len total allocates hashes ≡ none
  unfolding verify_pieces
  verify_pieces_panic allocates hashes i l over small =
      let e : 0 + i ≡ i = omega arith in
      elim (Bool-cases (allocates piece_len)) [
        | inl y ↦ rw y (verify_loop_panic hashes 0 i _ 0 l (rw e over) (rw e small))
        | inr w ↦ rw w refl
      ]
