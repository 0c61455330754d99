-- ===== src/Download/PieceQueue/Sample.antt =====
-- download/piecequeue.go: what the loops of Pick choose, over any candidates.
use stor.Prelude.{
  ℕ, ◌+◌, ◌<◌, Bool, true, false, if◌then◌else◌, ◌==◌, ltb, [], ◌∷◌, List, none, some, ◌≡◌, subst,
  ltb→lt, arith, Bool-cases, inl, inr,
}
use stor.Download.PieceQueue.Buckets.{contains}
use stor.Download.PieceQueue.Pick.{sample}

-- The documented range of rand.IntN.
abbrev pub Draws : (ℕ → ℕ) → Type 0
Draws draw = (n : ℕ) → 0 < n → draw n < n

module _ (draw : ℕ → ℕ) (ok : ℕ → Bool) where
  -- What holds of the choice so far and of every eligible candidate holds of the chosen one.
  pub sample_lem :
      (Q : ℕ → Type 0) (is : List ℕ) (chosen count i : ℕ)
      → Draws draw
      → (0 < count → Q chosen)
      → ((j : ℕ) → contains j is ≡ true → ok j ≡ true → Q j)
      → sample draw ok is chosen count ≡ some i
      → Q i
  unfolding sample contains
  sample_lem Q [] chosen count i d h k e = elim (Bool-cases (ltb 0 count)) [
    | inl t ↦ let same : chosen ≡ i = ground (arith, t, e) in subst Q same (h (ltb→lt 0 count t))
    | inr t ↦ ground (arith, t, e)
  ]
  sample_lem Q (j ∷ is) chosen count i d h k e =
      let k' : (m : ℕ) → contains m is ≡ true → ok m ≡ true → Q m =
        λ m c. k m (ground (arith, c)) in
      elim (Bool-cases (ok j)) [
        | inl t ↦
            sample_lem Q is (if draw (count + 1) == 0 then j else chosen) (count + 1) i d
              (λ _. elim (Bool-cases (draw (count + 1) == 0)) [
                | inl z ↦ rw z (k j (ground arith) t)
                | inr z ↦ rw z (h (ground (arith, z, d (count + 1))))
              ])
              k' (rw t at e)
        | inr t ↦ sample_lem Q is chosen count i d h k' (rw t at e)
      ]

  pub sample-none :
      (is : List ℕ) (chosen count : ℕ)
      → sample draw ok is chosen count ≡ none
      → (count ≡ 0) × ((j : ℕ) → contains j is ≡ true → ok j ≡ false)
  unfolding sample contains
  sample-none [] chosen count e = (ground arith, λ j h. ground arith)
  sample-none (k ∷ is) chosen count e = elim (Bool-cases (ok k)) [
    | inl t ↦
        let (z, r) =
          sample-none is (if draw (count + 1) == 0 then k else chosen) (count + 1) (rw t at e) in
        absurd (omega arith)
    | inr t ↦
        let (z, r) = sample-none is chosen count (rw t at e) in (z, λ j h. ground (arith, r j))
  ]
