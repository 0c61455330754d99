-- ===== src/Storage/MultiFile/RoundTrip.antt =====
-- storage/multifile.go: reading after writing, and what makes a writer ready for both.
use stor.Prelude.{
  ℕ, ◌+◌, ◌-◌, ◌≤◌, ◌<◌, Bool, true, false, [], ◌≡◌, refl, ap, ◌∙◌, arith, length, get_or, min, inr,
}
use stor.Prelude.Words.{Bytes}
use stor.Storage.Disk.{Disk, Os}
use stor.Storage.MultiFile.{MultiFileWriter, Reading, read_at, write_at}
use stor.Storage.MultiFile.Read.{read_loop-Reads}
use stor.Storage.MultiFile.Write.{write_at-WritesStream}
use stor.Storage.MultiFile.Stream.{list_ext, stream_at, sum_len, Laid, Apart, Ready, Permits}

-- What ReadAt promises: the bytes of the stream from the offset on, as many as asked or as there are.
pub record ReadsStream (need off : ℕ) (mw mw' : MultiFileWriter) (d : Disk) (got : Bytes)
    (ok : Bool) : Type 0 where
  pub no_error : ok ≡ true
  pub same_files : mw'.files ≡ mw.files
  pub size : length got ≡ min need (sum_len mw.files - off)
  pub stream : (x : ℕ) → x < length got → get_or got x 0 ≡ stream_at d mw.files (off + x)

-- Where the files lie one behind the other from 0 on and exist in full, the writer is open and the
-- system refuses nothing, ReadAt reads the stream that the files make up.
pub read_at-ReadsStream :
    (os : Os) (mw : MultiFileWriter) (d : Disk) (need off : ℕ)
    → Permits os
    → Laid 0 mw.files
    → Ready d mw.files
    → mw.closed ≡ false
    → (let (mw', got, ok) = read_at os need off mw d in ReadsStream need off mw mw' d got ok)
unfolding read_at
read_at-ReadsStream os mw d need off permits laid ready live =
    let r : Reading = record { handles = mw.handles; bytes = []; ok = true } in
    let s =
      read_loop-Reads os d 0 mw.files need off r permits laid ready refl (inr (omega arith)) in
    rw live (record {
      no_error = s.ok;
      same_files = refl;
      size = rw s.adds (omega (arith, s.size));
      stream = λ x.
          let e : off + x - 0 ≡ off + x = omega arith in rw s.adds (λ l. rw e at (s.stream x l));
    })

-- What WriteAt wrote into the files, ReadAt at the same offset reads back.
pub read_at-write_at :
    (os : Os) (mw : MultiFileWriter) (d : Disk) (new : Bytes) (off : ℕ)
    → Permits os
    → Laid 0 mw.files
    → Apart mw.files
    → Ready d mw.files
    → mw.closed ≡ false
    → off + length new ≤ sum_len mw.files
    → (let (mw', d', _, _) = write_at os new off mw d in
        let (_, got, ok) = read_at os (length new) off mw' d' in (got ≡ new) × (ok ≡ true))
read_at-write_at os mw d new off permits laid apart ready live fits =
    let w = write_at-WritesStream os mw d new off permits laid apart ready live in
    let r =
      read_at-ReadsStream os (write_at os new off mw d).0 (write_at os new off mw d).1 (length new)
        off permits (rw w.same_files laid) (rw w.same_files w.ready) w.still_open in
    let size : length
          (read_at os (length new) off (write_at os new off mw d).0 (write_at os new off mw d).1).1
        ≡ length new =
      omega (arith, r.size, ap sum_len w.same_files) in
    (
      list_ext _ new size (λ x l.
          let e : off + x - off ≡ x = omega arith in
          r.stream x l ∙ (rw w.same_files (ground (arith, w.stream (off + x), e, size, l, fits)))),
      r.no_error,
    )
