-- ===== src/Storage/MultiFile.antt =====
-- storage/multifile.go: MultiFileWriter. The lock makes each method one step. A method returns the
-- writer, the disk, and its results; a write that is refused may have written a part.
pub mod Stream
pub mod Write
pub mod Read
pub mod RoundTrip
pub mod Prepare
use stor.Prelude.{
  ℕ, ◌+◌, ◌-◌, ◌%◌, ◌^◌, Bool, true, false, if◌then◌else◌, ◌==◌, ◌&&◌, ◌||◌, leb, ltb, not, [], ◌∷◌,
  ◌++◌, List, Option, none, some, length, take, drop, min,
}
use stor.Prelude.Words.{Bytes}
use stor.Bencode.Value.{str_eq}
use stor.Storage.Path.{clean, join, has_prefix}
use stor.Storage.Disk.{Disk, Os, put_file, contents_or_empty, overwrite, resize}

pub record FileEntry : Type 0 where
  pub path : Bytes
  pub offset : ℕ
  pub len : ℕ

pub record MultiFileWriter : Type 0 where
  pub files : List FileEntry
  pub total : ℕ
  pub handles : List Bytes
  pub closed : Bool

-- The loop of NewMultiFileWriter over the files, each its length and its path. `makes` says which
-- directories can be made. The offset is an int64, by its 64 bits: the sum wraps around. (The other
-- methods read it as a number, which it is while the lengths add up to less than 2^63.)
unfoldable pub entries :
    (Bytes → Bool) → Bytes → ℕ → List (ℕ × List Bytes) → Option (List FileEntry × ℕ)
unfolding join clean has_prefix
entries makes base offset [] = some ([], offset)
entries makes base offset ((n, path) ∷ files) =
    let full = clean (join (base ∷ join path ∷ [])) in
    elim (entries makes base ((offset + n) % 2 ^ 64) files) [
      | none ↦ none
      | some (es, total) ↦
          if has_prefix full (clean base ++ b'/' ∷ []) && makes full
          then some (record { path = full; offset = offset; len = n } ∷ es, total)
          else none
    ]

unfoldable pub new_multi_file_writer :
    (Bytes → Bool) → Bytes → List (ℕ × List Bytes) → Option MultiFileWriter
unfolding entries
new_multi_file_writer makes base files =
    elim (if makes base then entries makes base 0 files else none) [
      | none ↦ none
      | some (es, total) ↦ some (record { files = es; total = total; handles = []; closed = false })
    ]

unfoldable pub is_open : Bytes → List Bytes → Bool
is_open path [] = false
is_open path (h ∷ hs) = str_eq h path || is_open path hs

abbrev pub exists : Option Bytes → Bool
exists none = false
exists (some c) = true

-- The cached handle, or a new one; `none` is the error of os.OpenFile.
unfoldable pub get_handle : Os → Bytes → Bool → List Bytes → Disk → Option (List Bytes × Disk)
unfolding is_open
get_handle os path create hs d =
    if is_open path hs
    then some (hs, d)
    else if os.opens path && (create || exists (d path))
    then some (path ∷ hs, put_file path (contents_or_empty (d path)) d)
    else none

pub record Outcome : Type 0 where
  pub handles : List Bytes
  pub disk : Disk
  pub count : ℕ
  pub ok : Bool

-- The part of a write or a read that falls into a file, for an offset before the file's end.
abbrev pub into : FileEntry → ℕ → ℕ
into fe off = off - fe.offset

unfoldable pub write_loop : Os → List FileEntry → Bytes → ℕ → Outcome → Outcome
unfolding get_handle overwrite
write_loop os [] remaining off w = w
write_loop os (fe ∷ fes) remaining off w =
    let skipped = write_loop os fes remaining off w in
    let written : Outcome = elim (get_handle os fe.path true w.handles w.disk) [
      | none ↦ record w { ok = false }
      | some (hs, d) ↦
          let k = into fe off in
          let m = min (fe.len - k) (length remaining) in
          let n = os.takes fe.path k m in
          let d' =
            put_file fe.path
              (overwrite (contents_or_empty (d fe.path)) k (take n (take m remaining))) d in
          let rest =
            write_loop os fes (drop m remaining) (off + m)
              (record { handles = hs; disk = d'; count = w.count + m; ok = true }) in
          if ltb n m then record { handles = hs; disk = d'; count = w.count; ok = false } else rest
    ] in
    if length remaining == 0 then w else if leb (fe.offset + fe.len) off then skipped else written

-- A method on the writer and the disk; the result is the count and whether there was no error.
unfoldable pub write_at :
    Os → Bytes → ℕ → MultiFileWriter → Disk → MultiFileWriter × Disk × ℕ × Bool
unfolding write_loop
write_at os new off mw d =
    let w =
      write_loop os mw.files new off
        (record { handles = mw.handles; disk = d; count = 0; ok = true }) in
    if mw.closed
    then (mw, d, 0, false)
    else (record mw { handles = w.handles }, w.disk, w.count, w.ok)

pub record Reading : Type 0 where
  pub handles : List Bytes
  pub bytes : Bytes
  pub ok : Bool

-- os.File.ReadAt gives what the file has there; with fewer bytes than asked it gives an error too,
-- which the loop passes over unless there are none. A read into an empty buffer gives no error.
unfoldable pub read_loop : Os → Disk → List FileEntry → ℕ → ℕ → Reading → Reading
unfolding get_handle
read_loop os d [] need off r = r
read_loop os d (fe ∷ fes) need off r =
    let skipped = read_loop os d fes need off r in
    let reads : Reading = elim (get_handle os fe.path false r.handles d) [
      | none ↦ record r { ok = false }
      | some (hs, _) ↦
          let k = into fe off in
          let m = min (fe.len - k) need in
          let got = take m (drop k (contents_or_empty (d fe.path))) in
          let rest =
            read_loop os d fes (need - length got) (off + length got)
              (record { handles = hs; bytes = r.bytes ++ got; ok = true }) in
          if length got == 0 && not (m == 0)
          then record { handles = hs; bytes = r.bytes; ok = false }
          else rest
    ] in
    if need == 0 then r else if leb (fe.offset + fe.len) off then skipped else reads

unfoldable pub read_at : Os → ℕ → ℕ → MultiFileWriter → Disk → MultiFileWriter × Bytes × Bool
unfolding read_loop
read_at os need off mw d =
    let r =
      read_loop os d mw.files need off (record { handles = mw.handles; bytes = []; ok = true }) in
    if mw.closed then (mw, [], false) else (record mw { handles = r.handles }, r.bytes, r.ok)

unfoldable pub preallocate_loop : Os → List FileEntry → List Bytes → Disk → List Bytes × Disk × Bool
unfolding get_handle resize
preallocate_loop os [] hs d = (hs, d, true)
preallocate_loop os (fe ∷ fes) hs d = elim (get_handle os fe.path true hs d) [
  | none ↦ (hs, d, false)
  | some (hs', d') ↦
      let rest =
        preallocate_loop os fes hs'
          (put_file fe.path (resize fe.len (contents_or_empty (d' fe.path))) d') in
      if os.truncates fe.path fe.len then rest else (hs', d', false)
]

unfoldable pub preallocate_files : Os → MultiFileWriter → Disk → MultiFileWriter × Disk × Bool
unfolding preallocate_loop
preallocate_files os mw d =
    let (hs, d', ok) = preallocate_loop os mw.files mw.handles d in
    (record mw { handles = hs }, d', ok)

unfoldable pub close : MultiFileWriter → MultiFileWriter
close mw = record mw { handles = []; closed = true }
