-- ===== src/Engine/SkipMask/Ranges.antt =====
-- engine/skip_mask.go: the loop over the ranges of the files, told by the bytes of a piece.
use stor.Prelude.{
  ℕ, ◌+◌, ◌-◌, ◌≤◌, ◌<◌, Bool, true, false, if◌then◌else◌, ◌||◌, ltb, leb, [], ◌∷◌, List, Option,
  none, some, ◌≡◌, ◌⊎◌, refl, arith, All, inl, inr, Bool-cases, max,
}
use stor.Prelude.Int.{ℤ, pos, eq_ℤ, leb_ℤ}
use stor.Engine.SkipMask.{priority_skip, file_ranges, all_skipped}

-- The same by bytes: whether the file that byte `b` lies in is skipped.
unfoldable pub file_skip : List ℤ → List ℕ → ℕ → Option Bool
file_skip ps [] b = none
file_skip [] (f ∷ fs) b = let rest = file_skip [] fs (b - f) in if ltb b f then some false else rest
file_skip (p ∷ ps) (f ∷ fs) b =
    let rest = file_skip ps fs (b - f) in if ltb b f then some (eq_ℤ p priority_skip) else rest

unfoldable pub sum : List ℕ → ℕ
sum [] = 0
sum (f ∷ fs) = f + sum fs

pub all_skipped_sound :
    (s e : ℕ) (c : Bool) (ps : List ℤ) (off : ℕ) (fs : List ℕ) (b : ℕ)
    → all_skipped (pos s) (pos e) c (file_ranges ps off fs) ≡ true
    → s ≤ b
    → b < e
    → off ≤ b
    → b < off + sum fs
    → file_skip ps fs (b - off) ≡ some true
unfolding all_skipped file_ranges file_skip sum leb_ℤ
all_skipped_sound s e c ps off [] b h p q r t = absurd (omega arith)
all_skipped_sound s e c [] off (f ∷ fs) b h p q r t =
    let eq : b - off - f ≡ b - (off + f) = omega arith in
    ground (
      arith,
      eq,
      all_skipped_sound s e c [] (off + f) fs b,
      all_skipped_sound s e true [] (off + f) fs b,
    )
all_skipped_sound s e c (k ∷ ps) off (f ∷ fs) b h p q r t =
    let eq : b - off - f ≡ b - (off + f) = omega arith in
    ground (
      arith,
      eq,
      all_skipped_sound s e c ps (off + f) fs b,
      all_skipped_sound s e true ps (off + f) fs b,
    )

-- The bytes of a piece from `offset` on lie in skipped files.
abbrev pub SkippedFrom : ℕ → ℕ → List ℤ → ℕ → List ℕ → Type 0
SkippedFrom s e ps off fs =
    (b : ℕ) → s ≤ b → b < e → off ≤ b → b < off + sum fs → file_skip ps fs (b - off) ≡ some true

-- The files from `offset` on reach into the piece.
abbrev pub Reach : ℕ → ℕ → ℕ → List ℕ → Type 0
Reach s e off fs = (off < e) × (s < off + sum fs) × (0 < sum fs)

tail_SkippedFrom :
    (s e : ℕ) (p : ℤ) (ps : List ℤ) (off f : ℕ) (fs : List ℕ)
    → SkippedFrom s e (p ∷ ps) off (f ∷ fs)
    → SkippedFrom s e ps (off + f) fs
unfolding file_skip sum
tail_SkippedFrom s e p ps off f fs h b l u o t =
    let eq : b - off - f ≡ b - (off + f) = omega arith in
    ground (arith, h b l u (omega arith) (omega arith), eq)

tail_SkippedFrom_nil :
    (s e off f : ℕ) (fs : List ℕ)
    → SkippedFrom s e [] off (f ∷ fs)
    → SkippedFrom s e [] (off + f) fs
unfolding file_skip sum
tail_SkippedFrom_nil s e off f fs h b l u o t =
    let eq : b - off - f ≡ b - (off + f) = omega arith in
    ground (arith, h b l u (omega arith) (omega arith), eq)

still_reaches :
    (s e : ℕ) (c : Bool) (off f : ℕ) (fs : List ℕ)
    → s < e
    → (leb (off + f) s || leb e off) ≡ true
    → (c ≡ true) ⊎ Reach s e off (f ∷ fs)
    → (c ≡ true) ⊎ Reach s e (off + f) fs
unfolding sum
still_reaches s e c off f fs l a (inl t) = inl t
still_reaches s e c off f fs l a (inr t) =
    inr (ground (arith, a, t), ground (arith, a, t), ground (arith, a, t))

pub all_skipped_complete :
    (s e : ℕ) (c : Bool) (ps : List ℤ) (off : ℕ) (fs : List ℕ)
    → s < e
    → All (λ f. 0 < f) fs
    → SkippedFrom s e ps off fs
    → (c ≡ true) ⊎ Reach s e off fs
    → all_skipped (pos s) (pos e) c (file_ranges ps off fs) ≡ true
unfolding all_skipped file_ranges file_skip sum leb_ℤ
all_skipped_complete s e c ps off [] l z h (inl t) = t
all_skipped_complete s e c ps off [] l z h (inr t) = absurd (omega arith)
all_skipped_complete s e c [] off (f ∷ fs) l z h r =
    let again : (c ≡ true) ⊎ Reach s e (off + f) fs
        → all_skipped (pos s) (pos e) c (file_ranges [] (off + f) fs) ≡ true =
      λ t.
        all_skipped_complete s e c [] (off + f) fs l z.1 (tail_SkippedFrom_nil s e off f fs h) t in
    elim (Bool-cases (leb (off + f) s || leb e off)) [
      | inl apart ↦ rw (apart, all_skipped) (again (still_reaches s e c off f fs l apart r))
      | inr over ↦ ground (arith, over, z.0, h (max s off))
    ]
all_skipped_complete s e c (p ∷ ps) off (f ∷ fs) l z h r =
    let again : (d : Bool)
        → (d ≡ true) ⊎ Reach s e (off + f) fs
        → all_skipped (pos s) (pos e) d (file_ranges ps (off + f) fs) ≡ true =
      λ d t.
        all_skipped_complete s e d ps (off + f) fs l z.1 (tail_SkippedFrom s e p ps off f fs h) t in
    elim (Bool-cases (leb (off + f) s || leb e off)) [
      | inl apart ↦ rw (apart, all_skipped) (again c (still_reaches s e c off f fs l apart r))
      | inr over ↦ ground (arith, over, z.0, h (max s off), again true (inl refl))
    ]
