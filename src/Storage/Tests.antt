-- ===== src/Storage/Tests.antt =====
-- The theorems of Storage at two small files.
use stor.Prelude.{
  ℕ, ◌^◌, ◌<◌, Bool, true, false, if◌then◌else◌, [], ◌∷◌, List, none, some, ◌≡◌, refl, arith, take,
  drop, ◌↔◌,
}
use stor.Prelude.Int.{ℤ, pos, negsuc, leb_ℤ}
use stor.Prelude.Words.{Bytes}
use stor.Prelude.Text.{codes}
use stor.Bencode.Value.{str_eq}
use stor.Peer.Bitfield.{has_piece, set_piece, set_bit, or_bit}
use stor.Storage.Disk.{Disk, Os}
use stor.Storage.Path.{join, clean, split, keep_parts, render, has_prefix, join_parts}
use stor.Storage.MultiFile.{
  FileEntry, MultiFileWriter, new_multi_file_writer, entries, write_at, read_at, preallocate_files,
}
use stor.Storage.MultiFile.Stream.{sum_len, Laid, Elsewhere, Apart, Ready, Permits}
use stor.Storage.MultiFile.Write.{WritesStream, write_at-WritesStream}
use stor.Storage.MultiFile.RoundTrip.{ReadsStream, read_at-ReadsStream, read_at-write_at}
use stor.Storage.MultiFile.Prepare.{IsNew, total_len, preallocate_files-Ready}
use stor.Storage.Verify.{verify_pieces, verify_loop}
use stor.Storage.Verify.Verified.{count_from, Matches, verify_pieces_lem}

abbrev willing : Os
willing = record { opens = λ p. true; takes = λ p k n. n; truncates = λ p n. true }

willing-Permits : Permits willing
willing-Permits = record {
  opens_all = λ p. refl;
  takes_all = λ p k n. refl;
  truncates_all = λ p n. refl;
}

abbrev listed : List (ℕ × List Bytes)
listed = (3, codes "x" ∷ []) ∷ (4, codes "y" ∷ []) ∷ []

abbrev two_files : List FileEntry
two_files =
    record { path = codes "b/x"; offset = 0; len = 3 }
    ∷ record { path = codes "b/y"; offset = 3; len = 4 }
    ∷ []

abbrev two : MultiFileWriter
two = record { files = two_files; total = 7; handles = []; closed = false }

two_made : new_multi_file_writer (λ p. true) (codes "b") listed ≡ some two
unfolding new_multi_file_writer entries join clean split keep_parts render has_prefix join_parts
two_made = refl

listed_small : total_len listed < 2 ^ 63
unfolding total_len
listed_small = omega arith

-- The check of the prefix lets a path leave a base directory that is "..".
entries-escapes :
    entries (λ p. true) (codes "..") 0 ((1, codes ".." ∷ codes "x" ∷ []) ∷ [])
    ≡ some (record { path = codes "../../x"; offset = 0; len = 1 } ∷ [], 1)
unfolding entries join clean split keep_parts render has_prefix join_parts
entries-escapes = refl

two-Laid : Laid 0 two_files
unfolding Laid
two-Laid = (refl, (refl, tt))

two-Apart : Apart two_files
unfolding Apart
two-Apart = ((refl, tt), (tt, tt))

abbrev stored : Disk
stored p =
    if str_eq p (codes "b/x")
    then some (codes "123")
    else if str_eq p (codes "b/y")
    then some (codes "4567")
    else none

stored-Ready : Ready stored two_files
stored-Ready = ((refl, refl), ((refl, refl), tt))

write_at-WritesStream_example :
    (let (mw', d', count, ok) = write_at willing (codes "abc") 1 two stored in
      WritesStream (codes "abc") 1 two mw' stored d' count ok)
write_at-WritesStream_example =
    write_at-WritesStream willing two stored (codes "abc") 1 willing-Permits two-Laid two-Apart
      stored-Ready refl

read_at-ReadsStream_example :
    (let (mw', got, ok) = read_at willing 4 2 two stored in ReadsStream 4 2 two mw' stored got ok)
read_at-ReadsStream_example =
    read_at-ReadsStream willing two stored 4 2 willing-Permits two-Laid stored-Ready refl

read_at-write_at_example :
    (let (mw', d', _, _) = write_at willing (codes "abc") 1 two stored in
      let (_, got, ok) = read_at willing 3 1 mw' d' in (got ≡ codes "abc") × (ok ≡ true))
unfolding sum_len
read_at-write_at_example =
    read_at-write_at willing two stored (codes "abc") 1 willing-Permits two-Laid two-Apart
      stored-Ready refl (omega arith)

preallocate_files-Ready_example :
    (let (mw', d', ok) = preallocate_files willing two (λ p. none) in
      IsNew (codes "b") listed mw'
      × (mw'.files ≡ two_files)
      × Ready d' two_files
      × (ok ≡ true)
      × ((p : Bytes) → Elsewhere p two_files → d' p ≡ none))
preallocate_files-Ready_example =
    preallocate_files-Ready willing (λ p. true) (codes "b") listed two (λ p. none) willing-Permits
      listed_small two_made two-Apart

-- Two pieces of four and three bytes; any functions stand for the hash and the reader.
abbrev read_stored : ℕ → ℤ → Bytes × Bool
read_stored need (pos off) = (take need (drop off (codes "1234567")), true)
read_stored need (negsuc n) = ([], false)

abbrev itself : Bytes → Bytes
itself b = b

abbrev sums : List Bytes
sums = codes "1234" ∷ codes "890" ∷ []

abbrev any_length : ℕ → Bool
any_length n = true

verify_pieces-sums : verify_pieces itself read_stored 4 7 any_length sums ≡ some (128 ∷ [], 1)
unfolding verify_pieces verify_loop set_piece set_bit or_bit leb_ℤ
verify_pieces-sums = refl

verify_pieces_example :
    (bf : Bytes) × (n : ℕ) × (verify_pieces itself read_stored 4 7 any_length sums ≡ some (bf, n))
    × ((i : ℕ) → (has_piece bf (pos i) ≡ true) ↔ ((i < 2) × Matches itself read_stored 4 7 sums i))
    × (n ≡ count_from (λ i. has_piece bf (pos i)) 2 0)
verify_pieces_example =
    verify_pieces_lem itself read_stored 4 7 any_length sums refl (omega arith) (λ i l. omega arith)
