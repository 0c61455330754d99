-- ===== src/Storage/MultiFile/Prepare.antt =====
-- storage/multifile.go: a new writer after PreallocateFiles is ready to write and to read.
use mathlib.Core.Option.{some-injective}
use stor.Prelude.{
  ℕ, ◌+◌, ◌-◌, ◌%◌, ◌^◌, ◌<◌, Bool, true, false, ◌&&◌, [], ◌∷◌, ◌++◌, List, some, ◌≡◌, refl, subst,
  ◌∙◌, arith, length, take, Bool-cases, Option-cases, inl, inr, replicate, length-take,
  length-append, length-replicate,
}
use stor.Prelude.Words.{Bytes}
use stor.Bencode.Value.{str_eq}
use stor.Storage.Path.{clean, join, has_prefix}
use stor.Storage.Disk.{Disk, Os, put_file, contents_or_empty, resize}
use stor.Storage.MultiFile.{
  FileEntry, MultiFileWriter, entries, new_multi_file_writer, get_handle, is_open, preallocate_loop,
  preallocate_files,
}
use stor.Storage.MultiFile.Write.{put_here}
use stor.Storage.MultiFile.Stream.{sum_len, Laid, Elsewhere, Apart, Ready, Permits}

length-resize : (n : ℕ) (c : Bytes) → length (resize n c) ≡ n
unfolding resize
length-resize n c = omega (
  arith,
  length-append (take n c) (replicate (n - length c) 0),
  length-take n c,
  length-replicate {A = ℕ} (n - length c) 0,
)

-- A handle that may be created is opened, and no other file changes.
get_handle-creates :
    (os : Os) (p : Bytes) (hs : List Bytes) (d : Disk)
    → Permits os
    → (hs' : List Bytes) × (d' : Disk) × (get_handle os p true hs d ≡ some (hs', d'))
      × ((q : Bytes) → str_eq p q ≡ false → d' q ≡ d q)
unfolding get_handle
get_handle-creates os p hs d permits = elim (Bool-cases (is_open p hs)) [
  | inl o ↦ (hs, d, rw o refl, λ q h. refl)
  | inr o ↦ (
    p ∷ hs,
    put_file p (contents_or_empty (d p)) d,
    rw (o, permits.opens_all p) refl,
    λ q h. rw h refl,
  )
]

record Prepared (fes : List FileEntry) (d : Disk) (r : List Bytes × Disk × Bool) : Type 0 where
  ok : r.2 ≡ true
  ready : Ready r.1 fes
  elsewhere : (p : Bytes) → Elsewhere p fes → r.1 p ≡ d p

preallocate_loop-Prepared :
    (os : Os) (fes : List FileEntry) (hs : List Bytes) (d : Disk)
    → Permits os
    → Apart fes
    → Prepared fes d (preallocate_loop os fes hs d)
unfolding preallocate_loop Apart
preallocate_loop-Prepared os [] hs d permits apart = record {
  ok = refl;
  ready = tt;
  elsewhere = λ p h. refl;
}
preallocate_loop-Prepared os (fe ∷ fes) hs d permits apart =
    let (hs', d', opened, kept) = get_handle-creates os fe.path hs d permits in
    let c = resize fe.len (contents_or_empty (d' fe.path)) in
    let r = preallocate_loop-Prepared os fes hs' (put_file fe.path c d') permits apart.1 in
    let here = r.elsewhere fe.path apart.0 ∙ put_here fe.path c d' in
    rw (preallocate_loop, opened, permits.truncates_all fe.path fe.len)
      (record {
        ok = r.ok;
        ready = (
          (rw here refl, rw here (length-resize fe.len (contents_or_empty (d' fe.path)))),
          r.ready,
        );
        elsewhere = λ p h. r.elsewhere p h.1 ∙ rw h.0 (kept p h.0);
      })

unfoldable pub total_len : List (ℕ × List Bytes) → ℕ
total_len [] = 0
total_len ((n, path) ∷ files) = n + total_len files

-- One entry for each file of the torrent, in order: with the clean path that joins the base directory
-- and its own path, and of its length.
unfoldable pub Lists : Bytes → List (ℕ × List Bytes) → List FileEntry → Type 0
Lists base [] [] = Unit
Lists base [] (fe ∷ fes) = ⊥
Lists base (f ∷ files) [] = ⊥
Lists base ((n, path) ∷ files) (fe ∷ fes) =
    (fe.path ≡ clean (join (base ∷ join path ∷ []))) × (fe.len ≡ n) × Lists base files fes

-- Entries behind each other from `offset` to `total`.
LaidOut : Bytes → ℕ → List (ℕ × List Bytes) → List FileEntry × ℕ → Type 0
LaidOut base offset files (es, total) =
    Laid offset es × (total ≡ offset + sum_len es) × Lists base files es

entries-LaidOut :
    (makes : Bytes → Bool) (base : Bytes) (offset : ℕ) (files : List (ℕ × List Bytes))
    (r : List FileEntry × ℕ)
    → offset + total_len files < 2 ^ 63
    → entries makes base offset files ≡ some r
    → LaidOut base offset files r
unfolding entries LaidOut Laid sum_len total_len Lists
entries-LaidOut makes base offset [] r small e =
    subst (LaidOut base offset []) (some-injective ([], offset) r e) (tt, omega arith, tt)
entries-LaidOut makes base offset ((n, path) ∷ files) r small e =
    let full = clean (join (base ∷ join path ∷ [])) in
    let no_wrap : (offset + n) % 2 ^ 64 ≡ offset + n = omega (arith, small) in
    let e' = rw no_wrap at e in
    elim (Option-cases (entries makes base (offset + n) files)) [
      | inl miss ↦ ground (arith, rw (miss, entries) at e')
      | inr ((fs, t), found) ↦
          let (laid, sum, rest) =
            entries-LaidOut makes base (offset + n) files (fs, t) (omega (arith, small)) found in
          elim (Bool-cases (has_prefix full (clean base ++ b'/' ∷ []) && makes full)) [
            | inl y ↦
                subst (LaidOut base offset ((n, path) ∷ files))
                  (some-injective _ r (rw (found, entries, y) at e'))
                  ((refl, laid), omega (arith, sum), (refl, refl, rest))
            | inr w ↦ ground (arith, rw (found, entries, w) at e')
          ]
    ]

-- A writer that NewMultiFileWriter gives is open, has one entry for each file of the torrent, and its
-- files lie one behind the other from 0 to its total.
pub record IsNew (base : Bytes) (files : List (ℕ × List Bytes)) (mw : MultiFileWriter)
    : Type 0 where
  pub laid : Laid 0 mw.files
  pub total_is : mw.total ≡ sum_len mw.files
  pub lists : Lists base files mw.files
  pub live : mw.closed ≡ false

pub new_multi_file_writer-IsNew :
    (makes : Bytes → Bool) (base : Bytes) (files : List (ℕ × List Bytes)) (mw : MultiFileWriter)
    → total_len files < 2 ^ 63
    → new_multi_file_writer makes base files ≡ some mw
    → IsNew base files mw
unfolding new_multi_file_writer LaidOut
new_multi_file_writer-IsNew makes base files mw small e = elim (Bool-cases (makes base)) [
  | inl y ↦ elim (Option-cases (entries makes base 0 files)) [
    | inl miss ↦ ground (arith, rw (y, miss, new_multi_file_writer) at e)
    | inr ((fs, t), found) ↦
        let (laid, sum, all) =
          entries-LaidOut makes base 0 files (fs, t) (omega (arith, small)) found in
        subst (IsNew base files) (some-injective _ mw (rw (y, found, new_multi_file_writer) at e))
          (record { laid = laid; total_is = omega (arith, sum); lists = all; live = refl })
  ]
  | inr w ↦ ground (arith, rw (w, new_multi_file_writer) at e)
]

-- A writer that NewMultiFileWriter gives for files at different paths, whose lengths add up to less
-- than 2^63, has, after PreallocateFiles on a system that refuses nothing, one entry for each file of
-- the torrent, with the clean path from the base directory and the length of that file; they lie one
-- behind the other from 0 on, and exist on the disk with that length; no other path changes.
pub preallocate_files-Ready :
    (os : Os) (makes : Bytes → Bool) (base : Bytes) (files : List (ℕ × List Bytes))
    (mw : MultiFileWriter) (d : Disk)
    → Permits os
    → total_len files < 2 ^ 63
    → new_multi_file_writer makes base files ≡ some mw
    → Apart mw.files
    → (let (mw', d', ok) = preallocate_files os mw d in
        IsNew base files mw'
        × (mw'.files ≡ mw.files)
        × Ready d' mw.files
        × (ok ≡ true)
        × ((p : Bytes) → Elsewhere p mw.files → d' p ≡ d p))
unfolding preallocate_files
preallocate_files-Ready os makes base files mw d permits small made apart =
    let new = new_multi_file_writer-IsNew makes base files mw small made in
    let r = preallocate_loop-Prepared os mw.files mw.handles d permits apart in
    (
      record { laid = new.laid; total_is = new.total_is; lists = new.lists; live = new.live },
      refl,
      r.ready,
      r.ok,
      r.elsewhere,
    )
