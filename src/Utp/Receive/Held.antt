-- ===== src/Utp/Receive/Held.antt =====
-- The entries of the reorder buffer, as packets of the sender: `Held lo hi` is an entry for one of
-- the packets from `lo` up to `hi`.
use stor.Prelude.{
  ℕ, ◌+◌, ◌%◌, ◌≤◌, ◌<◌, false, ◌==◌, [], ◌∷◌, none, some, length, ◌≡◌, ◌≢◌, refl, arith, All, ap,
  ◌∙◌, inl, inr, Bool-cases, ==_iff,
}
use stor.Prelude.Words.{Bytes}
use stor.Utp.Seq.{seq_mod}
use stor.Utp.Receive.{Buffer, lookup_seq, delete_seq, insert_seq}

pub length-delete_seq-le : (s : ℕ) (b : Buffer) → length (delete_seq s b) ≤ length b
unfolding delete_seq
length-delete_seq-le s [] = omega arith
length-delete_seq-le s ((q, p) ∷ b) = ground (arith, length-delete_seq-le s b)

pub length-delete_seq :
    (s : ℕ) (b : Buffer) (p : Bytes) → lookup_seq s b ≡ some p → length (delete_seq s b) < length b
unfolding delete_seq lookup_seq
length-delete_seq s [] p h = cc
length-delete_seq s ((q, p') ∷ b) p h =
    ground (arith, length-delete_seq-le s b, length-delete_seq s b p)

-- The sender numbers packet `k` by `start + k`, and `f k` is its payload.
module _ (start : ℕ) (f : ℕ → Bytes) where
  -- An entry that stands for a packet from `lo` up to `hi`.
  pub record Held (lo hi : ℕ) (e : ℕ × Bytes) : Type 0 where
    pub index : ℕ
    pub from : lo ≤ index
    pub upto : index < hi
    pub seq_is : e.0 ≡ (start + index) % seq_mod
    pub payload_is : e.1 ≡ f index

  abbrev pub AllHeld : ℕ → ℕ → Buffer → Type 0
  AllHeld lo hi = All (Held lo hi)

  pub Held-mono :
      (lo hi lo' hi' : ℕ) (e : ℕ × Bytes) → lo' ≤ lo → hi ≤ hi' → Held lo hi e → Held lo' hi' e
  Held-mono lo hi lo' hi' e p q h = record {
    index = h.index;
    from = omega (arith, h.from);
    upto = omega (arith, h.upto);
    seq_is = h.seq_is;
    payload_is = h.payload_is;
  }

  pub AllHeld-mono : (lo hi hi' : ℕ) (b : Buffer) → hi ≤ hi' → AllHeld lo hi b → AllHeld lo hi' b
  AllHeld-mono lo hi hi' [] q h = tt
  AllHeld-mono lo hi hi' (e ∷ b) q h =
      (Held-mono lo hi lo hi' e (omega arith) q h.0, AllHeld-mono lo hi hi' b q h.1)

  -- A number from the window names one packet.
  pub Held-first :
      (lo hi : ℕ) (e : ℕ × Bytes)
      → hi ≤ lo + 32768
      → Held lo hi e
      → e.0 ≡ (start + lo) % seq_mod
      → (e.1 ≡ f lo) × (lo < hi)
  Held-first lo hi e w h q =
      let same : h.index ≡ lo = omega (arith, h.from, h.upto, h.seq_is) in
      (h.payload_is ∙ ap f same, omega (arith, same, h.upto))

  pub Held-other :
      (lo hi : ℕ) (e : ℕ × Bytes) → Held lo hi e → e.0 ≢ (start + lo) % seq_mod → Held (lo + 1) hi e
  Held-other lo hi e h q = record {
    index = h.index;
    from = elim (Bool-cases (h.index == lo)) [
      | inl same ↦ absurd (q (h.seq_is ∙ ap (λ k. (start + k) % seq_mod) ((==_iff _ _).0 same)))
      | inr apart ↦ omega (arith, h.from, lt_of apart)
    ];
    upto = h.upto;
    seq_is = h.seq_is;
    payload_is = h.payload_is;
  }
    where
      lt_of : (h.index == lo) ≡ false → h.index ≢ lo
      lt_of p = ground arith

  pub lookup_seq-AllHeld :
      (lo hi : ℕ) (b : Buffer) {p : Bytes}
      → hi ≤ lo + 32768
      → AllHeld lo hi b
      → lookup_seq ((start + lo) % seq_mod) b ≡ some p
      → (p ≡ f lo) × (lo < hi)
  unfolding lookup_seq
  lookup_seq-AllHeld lo hi [] w h e = cc
  lookup_seq-AllHeld lo hi ((q, p') ∷ b) w h e = elim (Bool-cases (q == (start + lo) % seq_mod)) [
    | inl same ↦
        let here = Held-first lo hi (q, p') w h.0 ((==_iff _ _).0 same) in
        (ground (arith, here.0), here.1)
    | inr apart ↦ lookup_seq-AllHeld lo hi b w h.1 (ground arith)
  ]

  pub delete_seq-AllHeld :
      (lo hi : ℕ) (b : Buffer)
      → AllHeld lo hi b
      → AllHeld (lo + 1) hi (delete_seq ((start + lo) % seq_mod) b)
  unfolding delete_seq
  delete_seq-AllHeld lo hi [] h = tt
  delete_seq-AllHeld lo hi ((q, p) ∷ b) h = elim (Bool-cases (q == (start + lo) % seq_mod)) [
    | inl same ↦ rw same (delete_seq-AllHeld lo hi b h.1)
    | inr apart ↦
        rw apart (Held-other lo hi (q, p) h.0 (ground arith), delete_seq-AllHeld lo hi b h.1)
  ]

  pub lookup_seq-none :
      (lo hi : ℕ) (b : Buffer)
      → AllHeld lo hi b
      → lookup_seq ((start + lo) % seq_mod) b ≡ none
      → AllHeld (lo + 1) hi b
  unfolding lookup_seq
  lookup_seq-none lo hi [] h e = tt
  lookup_seq-none lo hi ((q, p) ∷ b) h e = elim (Bool-cases (q == (start + lo) % seq_mod)) [
    | inl same ↦ ground arith
    | inr apart ↦
        (Held-other lo hi (q, p) h.0 (ground arith), lookup_seq-none lo hi b h.1 (ground arith))
  ]

  delete_seq-any : (lo hi s : ℕ) (b : Buffer) → AllHeld lo hi b → AllHeld lo hi (delete_seq s b)
  unfolding delete_seq
  delete_seq-any lo hi s [] h = tt
  delete_seq-any lo hi s ((q, p) ∷ b) h = elim (Bool-cases (q == s)) [
    | inl same ↦ rw same (delete_seq-any lo hi s b h.1)
    | inr apart ↦ rw apart (h.0, delete_seq-any lo hi s b h.1)
  ]

  pub insert_seq-AllHeld :
      (lo hi k : ℕ) (b : Buffer)
      → lo ≤ k
      → k < hi
      → AllHeld lo hi b
      → AllHeld lo hi (insert_seq ((start + k) % seq_mod) (f k) b)
  unfolding insert_seq
  insert_seq-AllHeld lo hi k b l u h = (
    record { index = k; from = l; upto = u; seq_is = refl; payload_is = refl },
    delete_seq-any lo hi ((start + k) % seq_mod) b h,
  )

pub length-insert_seq : (s : ℕ) (p : Bytes) (b : Buffer) → length (insert_seq s p b) ≤ length b + 1
unfolding insert_seq
length-insert_seq s p b = omega (arith, length-delete_seq-le s b)

pub lookup_seq-delete_seq :
    (t s : ℕ) (b : Buffer) → t ≢ s → lookup_seq t (delete_seq s b) ≡ lookup_seq t b
unfolding lookup_seq delete_seq
lookup_seq-delete_seq t s [] ne = refl
lookup_seq-delete_seq t s ((q, p) ∷ b) ne = ground (arith, lookup_seq-delete_seq t s b ne)

pub lookup_seq-insert_seq :
    (t s : ℕ) (p : Bytes) (b : Buffer) → t ≢ s → lookup_seq t (insert_seq s p b) ≡ lookup_seq t b
unfolding lookup_seq insert_seq
lookup_seq-insert_seq t s p b ne = ground (arith, lookup_seq-delete_seq t s b ne)

pub lookup_seq-inserted :
    (s : ℕ) (p : Bytes) (b : Buffer) → lookup_seq s (insert_seq s p b) ≡ some p
unfolding lookup_seq insert_seq
lookup_seq-inserted s p b = ground arith

-- Two packets of a window have different numbers.
pub apart_seq :
    (start i j : ℕ) → i < j → j ≤ i + 32768 → (start + j) % seq_mod ≢ (start + i) % seq_mod
apart_seq start i j l w = omega (arith, l, w)
