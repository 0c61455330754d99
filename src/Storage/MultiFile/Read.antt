-- ===== src/Storage/MultiFile/Read.antt =====
-- storage/multifile.go: ReadAt reads the stream of bytes that the files make up.
use stor.Prelude.{
  ℕ, ◌+◌, ◌-◌, ◌≤◌, ◌<◌, true, false, not, ◌&&◌, ◌==◌, leb, ltb, [], ◌∷◌, ◌++◌, List, ◌≡◌, ◌⊎◌,
  refl, sym, ◌∙◌, arith, length, get_or, take, drop, min, Bool-cases, inl, inr, length-take,
  length-drop, length-append, append_assoc, append-nil,
}
use stor.Prelude.Words.{Bytes}
use stor.Storage.Disk.{Disk, Os}
use stor.Storage.MultiFile.{FileEntry, Reading, read_loop, into}
use stor.Storage.MultiFile.Stream.{
  get_or-take, get_or-drop, get_or-append, on_disk, stream_at, sum_len, Laid, Ready, Permits,
  get_handle-exists,
}

-- What a read of `need` bytes at `off` adds, from the files that begin at `base`.
pub record Reads (d : Disk) (base : ℕ) (fes : List FileEntry) (need off : ℕ) (r r' : Reading)
    : Type 0 where
  pub ok : r'.ok ≡ true
  pub got : Bytes
  pub adds : r'.bytes ≡ r.bytes ++ got
  pub size : length got ≡ min need (base + sum_len fes - off)
  pub stream : (x : ℕ) → x < length got → get_or got x 0 ≡ stream_at d fes (off + x - base)

nothing-Reads :
    (d : Disk) (base : ℕ) (fes : List FileEntry) (need off : ℕ) (r : Reading)
    → r.ok ≡ true
    → (need ≡ 0) ⊎ (base + sum_len fes ≤ off)
    → Reads d base fes need off r r
nothing-Reads d base fes need off r k h = record {
  ok = k;
  got = [];
  adds = sym (append-nil r.bytes);
  size = omega arith;
  stream = λ x l. absurd (omega arith);
}

skip-Reads :
    (d : Disk) (base : ℕ) (fe : FileEntry) (fes : List FileEntry) (need off : ℕ) (r r' : Reading)
    → base + fe.len ≤ off
    → Reads d (base + fe.len) fes need off r r'
    → Reads d base (fe ∷ fes) need off r r'
unfolding stream_at sum_len
skip-Reads d base fe fes need off r r' past s = record {
  ok = s.ok;
  got = s.got;
  adds = s.adds;
  size = omega (arith, s.size);
  stream = λ x l.
      let e : off + x - base - fe.len ≡ off + x - (base + fe.len) = omega arith in
      ground (arith, s.stream x l, e);
}

module _ (d : Disk) (base : ℕ) (fe : FileEntry) (fes : List FileEntry) (need off : ℕ)
    (hs : List Bytes) (r r' : Reading) where
  part : Bytes
  part = take (min (fe.len - into fe off) need) (drop (into fe off) (on_disk d fe))

  part_byte :
      (x : ℕ) → x < length part → get_or part x 0 ≡ get_or (on_disk d fe) (into fe off + x) 0
  unfolding part
  part_byte x l =
      let m = min (fe.len - into fe off) need in
      get_or-take m (drop (into fe off) (on_disk d fe)) x
        (omega (arith, length-take m (drop (into fe off) (on_disk d fe))))
      ∙ get_or-drop (into fe off) (on_disk d fe) x

  point :
      fe.offset ≡ base
      → base ≤ off
      → off < base + fe.len
      → length part ≡ min (fe.len - into fe off) need
      → (s : Reads d
          (base + fe.len)
          fes
          (need - length part)
          (off + length part)
          (record { handles = hs; bytes = r.bytes ++ part; ok = true })
          r')
      → (x : ℕ) → x < length (part ++ s.got)
      → get_or (part ++ s.got) x 0 ≡ stream_at d (fe ∷ fes) (off + x - base)
  unfolding stream_at
  point at lo hi size s x l =
      let both = length-append part s.got in
      let a = get_or-append part s.got x in
      elim (Bool-cases (ltb x (length part))) [
        | inl e ↦
            let lt : x < length part = ground (arith, e) in
            let e' : into fe off + x ≡ off + x - base = omega arith in
            ground (arith, a, e, part_byte x lt, e', size)
        | inr e ↦
            let y = x - length part in
            let lt : y < length s.got = ground (arith, e, both, l) in
            let e' : off + length part + y - (base + fe.len) ≡ off + x - base - fe.len =
              ground (arith, e, s.size, size, at, lt) in
            let later : ltb (off + x - base) fe.len ≡ false =
              ground (arith, e, s.size, size, at, lt) in
            ground (arith, a, e, s.stream y lt, e', later)
      ]

  step-Reads :
      fe.offset ≡ base
      → base ≤ off
      → off < base + fe.len
      → length (on_disk d fe) ≡ fe.len
      → length part ≡ min (fe.len - into fe off) need
      → Reads d
          (base + fe.len)
          fes
          (need - length part)
          (off + length part)
          (record { handles = hs; bytes = r.bytes ++ part; ok = true })
          r'
      → Reads d base (fe ∷ fes) need off r r'
  unfolding stream_at sum_len
  step-Reads at lo hi full size s = record {
    ok = s.ok;
    got = part ++ s.got;
    adds = s.adds ∙ append_assoc r.bytes part s.got;
    size = omega (arith, length-append part s.got, s.size, size, at);
    stream = point at lo hi size s;
  }

pub read_loop-Reads :
    (os : Os) (d : Disk) (base : ℕ) (fes : List FileEntry) (need off : ℕ) (r : Reading)
    → Permits os
    → Laid base fes
    → Ready d fes
    → r.ok ≡ true
    → (need ≡ 0) ⊎ (base ≤ off)
    → Reads d base fes need off r (read_loop os d fes need off r)
unfolding read_loop Laid sum_len part
read_loop-Reads os d base [] need off r permits laid ready k h =
    nothing-Reads d base [] need off r k (elim h [ inl z ↦ inl z | inr l ↦ inr (omega arith) ])
read_loop-Reads os d base (fe ∷ fes) need off r permits laid ready k h =
    elim (Bool-cases (need == 0)) [
      | inl z ↦
          rw (z, read_loop) (nothing-Reads d base (fe ∷ fes) need off r k (inl (ground (arith, z))))
      | inr z ↦ elim (Bool-cases (leb (fe.offset + fe.len) off)) [
        | inl past ↦
            let p : base + fe.len ≤ off = ground (arith, past, laid.0) in
            rw (z, past, read_loop)
              (skip-Reads d base fe fes need off r _ p (
                read_loop-Reads os d (base + fe.len) fes need off r permits laid.1 ready.1 k
                  (inr p)))
        | inr before ↦
            let k' = into fe off in
            let got = part d base fe fes need off [] r r in
            let (hs, opened) = get_handle-exists os fe.path false r.handles d permits ready.0.0 in
            let lo : base ≤ off = ground (arith, h, z) in
            let hi : off < base + fe.len = ground (arith, before, laid.0) in
            let size : length got ≡ min (fe.len - k') need = omega (
              arith,
              length-take (min (fe.len - k') need) (drop k' (on_disk d fe)),
              length-drop k' (on_disk d fe),
              ready.0.1,
            ) in
            let m = min (fe.len - k') need in
            let some_bytes : (length got == 0 && not (m == 0)) ≡ false =
              ground (arith, size, z, laid.0, lo, hi) in
            let meets : (need - length got ≡ 0) ⊎ (base + fe.len ≤ off + length got) =
              elim (Bool-cases (leb (fe.len - k') need)) [
                | inl e ↦ inr (ground (arith, e, size, laid.0, lo, hi))
                | inr e ↦ inl (ground (arith, e, size))
              ] in
            let rest =
              read_loop-Reads os d (base + fe.len) fes (need - length got) (off + length got)
                (record { handles = hs; bytes = r.bytes ++ got; ok = true }) permits laid.1 ready.1
                refl meets in
            rw (z, before, read_loop, opened, some_bytes)
              (step-Reads d base fe fes need off hs r _ laid.0 lo hi ready.0.1 size rest)
      ]
    ]
