-- ===== src/Storage/MultiFile/Write.antt =====
-- storage/multifile.go: WriteAt writes the stream of bytes that the files make up.
use stor.Prelude.{
  ℕ, zero, suc, ◌+◌, ◌-◌, ◌≤◌, ◌<◌, Bool, true, false, if◌then◌else◌, ◌==◌, ◌&&◌, leb, ltb, [], ◌∷◌,
  List, some, ◌≡◌, ◌⊎◌, refl, ap, ◌∙◌, arith, length, get_or, take, drop, min, Bool-cases, inl, inr,
  length-take, length-drop,
}
use stor.Prelude.Words.{Bytes}
use stor.Bencode.Value.{str_eq}
use stor.Bencode.Order.{str_eq_iff}
use stor.Storage.Disk.{Disk, Os, put_file, overwrite}
use stor.Storage.MultiFile.{FileEntry, MultiFileWriter, Outcome, write_loop, write_at, into}
use stor.Storage.MultiFile.Stream.{
  get_or-overwrite, length-overwrite, get_or-take, get_or-drop, on_disk, stream_at, sum_len, Laid,
  Elsewhere, Apart, IsFull, Ready, Permits, get_handle-exists, Ready-same, stream_same,
  put_file-Elsewhere,
}

-- The state after a write of `new` at `off` into the files that begin at `base`.
pub record Writes (base : ℕ) (fes : List FileEntry) (new : Bytes) (off : ℕ) (w w' : Outcome)
    : Type 0 where
  pub ok : w'.ok ≡ true
  pub count : w'.count ≡ w.count + min (length new) (base + sum_len fes - off)
  pub ready : Ready w'.disk fes
  pub elsewhere : (p : Bytes) → Elsewhere p fes → w'.disk p ≡ w.disk p
  pub stream :
      (x : ℕ)
      → stream_at w'.disk fes x ≡ (
          if leb off (base + x) && (ltb (base + x) (off + length new) && ltb x (sum_len fes))
          then get_or new (base + x - off) 0
          else stream_at w.disk fes x)

nothing-Writes :
    (base : ℕ) (fes : List FileEntry) (new : Bytes) (off : ℕ) (w : Outcome)
    → w.ok ≡ true
    → (length new ≡ 0) ⊎ (base + sum_len fes ≤ off)
    → Ready w.disk fes
    → Writes base fes new off w w
nothing-Writes base fes new off w k h r = record {
  ok = k;
  count = omega arith;
  ready = r;
  elsewhere = λ p e. refl;
  stream = λ x. ground (arith, h);
}

-- The bytes of the file that a write of `new` at `off` begins in.
part_byte :
    (c new : Bytes) (base off x : ℕ)
    → base ≤ off
    → off < base + length c
    → x < length c
    → get_or (overwrite c (off - base) (take (min (length c - (off - base)) (length new)) new)) x 0
      ≡ (if leb off (base + x) && ltb (base + x) (off + length new)
          then get_or new (base + x - off) 0
          else get_or c x 0)
part_byte c new base off x lo hi h =
    let k = off - base in
    let m = min (length c - k) (length new) in
    let size : length (take m new) ≡ m = omega (arith, length-take m new) in
    let o = get_or-overwrite c k (take m new) x (omega arith) in
    let pos : base + x - off ≡ x - k = omega arith in
    elim (Bool-cases (leb k x && ltb x (k + m))) [
      | inl e ↦
          let t = get_or-take m new (x - k) (ground (arith, e)) in
          ground (arith, o, size, e, t, pos)
      | inr e ↦ ground (arith, o, size, e)
    ]

part_length :
    (c new : Bytes) (k : ℕ)
    → k ≤ length c
    → length (overwrite c k (take (min (length c - k) (length new)) new)) ≡ length c
part_length c new k h =
    let m = min (length c - k) (length new) in
    length-overwrite c k (take m new) (omega (arith, length-take m new))

part_full :
    (fe : FileEntry) (c new : Bytes) (off : ℕ)
    → {base : ℕ} → fe.offset ≡ base
    → base ≤ off
    → off < base + fe.len
    → length c ≡ fe.len
    → length (overwrite c (into fe off) (take (min (fe.len - into fe off) (length new)) new))
      ≡ fe.len
part_full fe c new off at lo hi size = rw (← size) (part_length c new (into fe off) (omega arith))

pub put_here : (p c : Bytes) (d : Disk) → put_file p c d p ≡ some c
put_here p c d = let e : str_eq p p ≡ true = (str_eq_iff p p).1 refl in rw e refl

module _ (os : Os) (permits : Permits os) where
  -- What one file's part of the write leaves on the disk.
  part : FileEntry → Bytes → ℕ → Disk → Disk
  part fe new off d =
      put_file fe.path
        (overwrite (on_disk d fe) (into fe off)
          (take (min (fe.len - into fe off) (length new)) new))
        d

  -- The state in which the loop goes on.
  next : FileEntry → Bytes → ℕ → List Bytes → Outcome → Outcome
  next fe new off hs w = record {
    handles = hs;
    disk = part fe new off w.disk;
    count = w.count + min (fe.len - into fe off) (length new);
    ok = true;
  }

  step_stream :
      (base : ℕ) (fe : FileEntry) (fes : List FileEntry) (new : Bytes) (off : ℕ) (hs : List Bytes)
      (w w' : Outcome)
      → fe.offset ≡ base
      → base ≤ off
      → off < base + fe.len
      → Elsewhere fe.path fes
      → length (on_disk w.disk fe) ≡ fe.len
      → Writes
          (base + fe.len)
          fes
          (drop (min (fe.len - into fe off) (length new)) new)
          (off + min (fe.len - into fe off) (length new))
          (next fe new off hs w)
          w'
      → (x : ℕ)
      → w'.disk fe.path
        ≡ some (
            overwrite
              (on_disk w.disk fe)
              (into fe off)
              (take (min (fe.len - into fe off) (length new)) new))
      → stream_at w'.disk (fe ∷ fes) x ≡ (
          if leb off (base + x)
            && (ltb (base + x) (off + length new) && ltb x (fe.len + sum_len fes))
          then get_or new (base + x - off) 0
          else stream_at w.disk (fe ∷ fes) x)
  unfolding next part stream_at
  step_stream base fe fes new off hs w w' at lo hi apart size r x here =
      let c = on_disk w.disk fe in
      let k = into fe off in
      let m = min (fe.len - k) (length new) in
      elim (Bool-cases (ltb x fe.len)) [
        | inl l ↦
            let b : get_or (overwrite c k (take m new)) x 0 ≡ (
                if leb off (base + x) && ltb (base + x) (off + length new)
                then get_or new (base + x - off) 0
                else get_or c x 0) =
              rw (← size, at) (part_byte c new base off x lo (omega arith) (ground (arith, l))) in
            rw (here, l) (ground (arith, b, l))
        | inr l ↦
            let y = x - fe.len in
            let b = r.stream y in
            let same =
              stream_same w.disk _ fes y
                (put_file-Elsewhere w.disk fe.path (overwrite c k (take m new)) fes apart) in
            let d = get_or-drop m new (base + fe.len + y - (off + m)) in
            let shrink = length-drop m new in rw l (ground (arith, b, same, d, shrink, at, l))
      ]

  step-Writes :
      (base : ℕ) (fe : FileEntry) (fes : List FileEntry) (new : Bytes) (off : ℕ) (hs : List Bytes)
      (w w' : Outcome)
      → fe.offset ≡ base
      → base ≤ off
      → off < base + fe.len
      → Elsewhere fe.path fes
      → IsFull w.disk fe
      → Writes
          (base + fe.len)
          fes
          (drop (min (fe.len - into fe off) (length new)) new)
          (off + min (fe.len - into fe off) (length new))
          (next fe new off hs w)
          w'
      → Writes base (fe ∷ fes) new off w w'
  unfolding next part sum_len
  step-Writes base fe fes new off hs w w' at lo hi apart full r =
      let c = on_disk w.disk fe in
      let k = into fe off in
      let m = min (fe.len - k) (length new) in
      let here : w'.disk fe.path ≡ some (overwrite c k (take m new)) =
        r.elsewhere fe.path apart ∙ put_here fe.path _ w.disk in
      let same = put_file-Elsewhere w.disk fe.path (overwrite c k (take m new)) fes apart in
      record {
        ok = r.ok;
        count = omega (arith, r.count, length-drop m new, at);
        ready = ((rw here refl, rw here (part_full fe c new off at lo hi (full.1))), r.ready);
        elsewhere = λ p h. r.elsewhere p h.1 ∙ ground (arith, h.0);
        stream = λ x. step_stream base fe fes new off hs w w' at lo hi apart full.1 r x here;
      }

  skip-Writes :
      (base : ℕ) (fe : FileEntry) (fes : List FileEntry) (new : Bytes) (off : ℕ) (w w' : Outcome)
      → base + fe.len ≤ off
      → Elsewhere fe.path fes
      → IsFull w.disk fe
      → Writes (base + fe.len) fes new off w w'
      → Writes base (fe ∷ fes) new off w w'
  unfolding stream_at sum_len
  skip-Writes base fe fes new off w w' past apart full r =
      let here = r.elsewhere fe.path apart in
      record {
        ok = r.ok;
        count = omega (arith, r.count);
        ready = ((rw here full.0, rw here full.1), r.ready);
        elsewhere = λ p h. r.elsewhere p h.1;
        stream = λ x. elim (Bool-cases (ltb x fe.len)) [
          | inl l ↦ rw (here, l) (ground (arith, l))
          | inr l ↦ rw l (ground (arith, r.stream (x - fe.len), l))
        ];
      }

  take_twice : (n : ℕ) (xs : Bytes) → take n (take n xs) ≡ take n xs
  take_twice zero xs = refl
  take_twice (suc n) [] = refl
  take_twice (suc n) (x ∷ xs) = ap (◌∷◌ x) (take_twice n xs)

  write_loop-Writes :
      (base : ℕ) (fes : List FileEntry) (new : Bytes) (off : ℕ) (w : Outcome)
      → Laid base fes
      → Apart fes
      → Ready w.disk fes
      → w.ok ≡ true
      → (length new ≡ 0) ⊎ (base ≤ off)
      → Writes base fes new off w (write_loop os fes new off w)
  unfolding write_loop Laid Apart sum_len next part
  write_loop-Writes base [] new off w laid apart ready k (inl z) =
      nothing-Writes base [] new off w k (inl z) tt
  write_loop-Writes base [] new off w laid apart ready k (inr l) =
      nothing-Writes base [] new off w k (inr (omega arith)) tt
  write_loop-Writes base (fe ∷ fes) new off w laid apart ready k h =
      elim (Bool-cases (length new == 0)) [
        | inl z ↦
            rw (z, write_loop)
              (nothing-Writes base (fe ∷ fes) new off w k (inl (ground (arith, z))) ready)
        | inr z ↦ elim (Bool-cases (leb (fe.offset + fe.len) off)) [
          | inl past ↦
              let p : base + fe.len ≤ off = ground (arith, past, laid.0) in
              rw (z, past, write_loop)
                (skip-Writes base fe fes new off w _ p apart.0 ready.0 (
                  write_loop-Writes (base + fe.len) fes new off w laid.1 apart.1 ready.1 k (inr p)))
          | inr before ↦
              let k' = into fe off in
              let m = min (fe.len - k') (length new) in
              let (hs, opened) =
                get_handle-exists os fe.path true w.handles w.disk permits (ready.0.0) in
              let lo : base ≤ off = ground (arith, h, z) in
              let hi : off < base + fe.len = ground (arith, before, laid.0) in
              let full : ltb m m ≡ false = ground arith in
              let meets : (length (drop m new) ≡ 0) ⊎ (base + fe.len ≤ off + m) =
                elim (Bool-cases (leb (fe.len - k') (length new))) [
                  | inl e ↦ inr (ground (arith, e, laid.0, lo, hi))
                  | inr e ↦ inl (ground (arith, e, length-drop m new))
                ] in
              let same =
                put_file-Elsewhere w.disk fe.path (overwrite (on_disk w.disk fe) k' (take m new))
                  fes apart.0 in
              let rest =
                write_loop-Writes (base + fe.len) fes (drop m new) (off + m) (next fe new off hs w)
                  laid.1 apart.1 (Ready-same w.disk _ fes same ready.1) refl meets in
              rw
                (
                  z,
                  before,
                  write_loop,
                  opened,
                  permits.takes_all fe.path k' m,
                  take_twice m new,
                  full,
                )
                (step-Writes base fe fes new off hs w _ laid.0 lo hi apart.0 ready.0 rest)
        ]
      ]

-- What WriteAt promises of the stream of bytes that the files make up: all of the data that lies
-- before its end is written, at its place, and counted; nothing else changes.
pub record WritesStream (new : Bytes) (off : ℕ) (mw mw' : MultiFileWriter) (d d' : Disk) (count : ℕ)
    (ok : Bool) : Type 0 where
  pub no_error : ok ≡ true
  pub counts : count ≡ min (length new) (sum_len mw.files - off)
  pub same_files : mw'.files ≡ mw.files
  pub still_open : mw'.closed ≡ false
  pub ready : Ready d' mw.files
  pub elsewhere : (p : Bytes) → Elsewhere p mw.files → d' p ≡ d p
  pub stream :
      (x : ℕ)
      → stream_at d' mw.files x ≡ (
          if leb off x && (ltb x (off + length new) && ltb x (sum_len mw.files))
          then get_or new (x - off) 0
          else stream_at d mw.files x)

-- Where the files lie one behind the other from 0 on, at different paths, exist in full, the writer
-- is open and the system refuses nothing, WriteAt writes the stream that the files make up.
pub write_at-WritesStream :
    (os : Os) (mw : MultiFileWriter) (d : Disk) (new : Bytes) (off : ℕ)
    → Permits os
    → Laid 0 mw.files
    → Apart mw.files
    → Ready d mw.files
    → mw.closed ≡ false
    → (let (mw', d', count, ok) = write_at os new off mw d in
        WritesStream new off mw mw' d d' count ok)
unfolding write_at
write_at-WritesStream os mw d new off permits laid apart ready live =
    let w : Outcome = record { handles = mw.handles; disk = d; count = 0; ok = true } in
    let r =
      write_loop-Writes os permits 0 mw.files new off w laid apart ready refl (inr (omega arith)) in
    rw live (record {
      no_error = r.ok;
      counts = omega (arith, r.count);
      same_files = refl;
      still_open = refl;
      ready = r.ready;
      elsewhere = r.elsewhere;
      stream = λ x. let e : 0 + x ≡ x = omega arith in rw e at (r.stream x);
    })
