-- ===== src/Storage/Verify.antt =====
-- storage/verify.go: VerifyPieces, over a reader: `read need off` gives the bytes that ReadAt reads
-- and whether it gave no error. The hash function is a parameter, and so is `allocates`: whether make
-- can give a buffer of a length. `none` is a panic, of make or of slicing the buffer with a negative
-- length. The size of the torrent is a number, the rest of the arithmetic on int64 wraps around.
pub mod Verified
use stor.Prelude.{
  ℕ, ◌+◌, ◌-◌, ◌*◌, ◌/◌, ◌%◌, ◌^◌, Bool, if◌then◌else◌, ◌==◌, ◌&&◌, [], ◌∷◌, List, Option, none,
  some, length, replicate,
}
use stor.Prelude.Int.{ℤ, pos, negsuc, leb_ℤ, to_int64}
use stor.Prelude.Words.{Bytes}
use stor.Bencode.Value.{str_eq}
use stor.Peer.Bitfield.{set_piece}

module _ (sha1 : Bytes → Bytes) (read : ℕ → ℤ → Bytes × Bool) (piece_len total : ℕ) where
  -- `int(tl) - i*pieceLen`.
  abbrev pub remaining_at : ℕ → ℤ
  remaining_at i = to_int64 (total + (2 ^ 64 - i * piece_len % 2 ^ 64))

  unfoldable pub length_at : ℕ → ℤ
  unfolding leb_ℤ
  length_at i = if leb_ℤ (pos piece_len) (remaining_at i) then pos piece_len else remaining_at i

  -- Whether the piece, of `n` bytes, is read in full and has the hash.
  unfoldable pub is_verified : Bytes → ℕ → ℕ → Bool
  is_verified expected n i =
      let (got, ok) = read n (to_int64 (i * piece_len)) in
      ok && (length got == n && str_eq (sha1 got) expected)

  unfoldable pub verify_loop : List Bytes → ℕ → Bytes → ℕ → Option (Bytes × ℕ)
  unfolding is_verified length_at
  verify_loop [] i bf verified = some (bf, verified)
  verify_loop (h ∷ hs) i bf verified = elim (length_at i) [
    | negsuc m ↦ none
    | pos n ↦
        let good = is_verified h n i in
        verify_loop hs (i + 1) (if good then (set_piece bf (pos i)).0 else bf)
          (if good then verified + 1 else verified)
  ]

  unfoldable pub verify_pieces : (ℕ → Bool) → List Bytes → Option (Bytes × ℕ)
  unfolding verify_loop
  verify_pieces allocates hashes =
      let result = verify_loop hashes 0 (replicate ((length hashes + 7) / 8) 0) 0 in
      if allocates piece_len then result else none
