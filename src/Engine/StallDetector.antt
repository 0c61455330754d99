-- ===== src/Engine/StallDetector.antt =====
-- engine/stall_detector.go: the steps of the stall detector. A time is a number that does not go
-- back, and 0 is the zero time.
use stor.Prelude.{
  ℕ, ◌-◌, ◌<◌, ◌≤◌, Bool, true, false, not, if◌then◌else◌, ◌==◌, ◌&&◌, leb, [], ◌∷◌, ◌++◌, List,
  ◌≡◌, ap, ◌∙◌, refl, arith, Bool-cases, inl, inr,
}

pub data Event : Type 0 where
  stalled_after : ℕ → Event
  cleared_after : ℕ → Event

pub record Stall : Type 0 where
  pub stalled_since : ℕ
  pub stalled : Bool

-- The branch without peers, from the time since which there are none.
unfoldable pub step_alone : ℕ → ℕ → Stall → Stall × List Event
step_alone t threshold s =
    if not s.stalled && leb threshold (t - s.stalled_since)
    then (record s { stalled = true }, stalled_after (t - s.stalled_since) ∷ [])
    else (s, [])

unfoldable pub step : ℕ → ℕ → ℕ → Stall → Stall × List Event
unfolding step_alone
step t threshold count s =
    if count == 0
    then step_alone t threshold (if s.stalled_since == 0 then record s { stalled_since = t } else s)
    else (
      record { stalled_since = 0; stalled = false },
      if s.stalled then cleared_after (t - s.stalled_since) ∷ [] else [],
    )

-- The loop over the ticks, each a time with the count of peers.
unfoldable pub run : ℕ → List (ℕ × ℕ) → Stall → Stall × List Event
unfolding step
run threshold [] s = (s, [])
run threshold ((t, count) ∷ ticks) s =
    let (s', out) = step t threshold count s in
    let (s'', rest) = run threshold ticks s' in (s'', out ++ rest)

-- Events that alternate; the flag says whether the next one is a clearing.
unfoldable pub Alternate : Bool → List Event → Type 0
Alternate b [] = Unit
Alternate false (stalled_after d ∷ es) = Alternate true es
Alternate false (cleared_after d ∷ es) = ⊥
Alternate true (stalled_after d ∷ es) = ⊥
Alternate true (cleared_after d ∷ es) = Alternate false es

step_alone-Alternate :
    (t threshold : ℕ) (s : Stall) (rest : List Event)
    → Alternate (step_alone t threshold s).0.stalled rest
    → Alternate s.stalled ((step_alone t threshold s).1 ++ rest)
unfolding step_alone Alternate
step_alone-Alternate t threshold s rest h =
    elim (Bool-cases (not s.stalled && leb threshold (t - s.stalled_since))) [
      | inl c ↦
          let quiet : s.stalled ≡ false = ground (arith, c) in
          rw (c, step_alone, quiet) (rw (c, step_alone) at h)
      | inr c ↦ rw (c, step_alone) (rw (c, step_alone) at h)
    ]

Alternate-nil : (b : Bool) → Alternate b []
unfolding Alternate
Alternate-nil b = tt

-- One step lets the events go on to alternate.
step-Alternate :
    (t threshold count : ℕ) (s : Stall) (rest : List Event)
    → Alternate (step t threshold count s).0.stalled rest
    → Alternate s.stalled ((step t threshold count s).1 ++ rest)
unfolding step Alternate
step-Alternate t threshold count s rest h = elim (Bool-cases (count == 0)) [
  | inl z ↦ elim (Bool-cases (s.stalled_since == 0)) [
    | inl n ↦
        rw (z, step, n)
          (step_alone-Alternate t threshold (record s { stalled_since = t }) rest
            (rw (z, step, n) at h))
    | inr n ↦ rw (z, step, n) (step_alone-Alternate t threshold s rest (rw (z, step, n) at h))
  ]
  | inr z ↦ elim (Bool-cases s.stalled) [
    | inl b ↦ rw (z, step, b) (rw (z, step) at h)
    | inr b ↦ rw (z, step, b) (rw (z, step) at h)
  ]
]

-- Over any ticks the detector's events alternate: from a state that is not stalled, a stall is
-- announced first, and never two of the same kind in a row.
pub run-Alternate :
    (threshold : ℕ) (ticks : List (ℕ × ℕ)) (s : Stall)
    → Alternate s.stalled (run threshold ticks s).1
unfolding run
run-Alternate threshold [] s = Alternate-nil s.stalled
run-Alternate threshold ((t, count) ∷ ticks) s =
    step-Alternate t threshold count s (run threshold ticks (step t threshold count s).0).1
      (run-Alternate threshold ticks (step t threshold count s).0)

-- Ticks without peers, at times that do not go back from `u` on, and the last of the times.
unfoldable pub silent : List ℕ → List (ℕ × ℕ)
silent [] = []
silent (v ∷ vs) = (v, 0) ∷ silent vs

unfoldable pub NotBefore : ℕ → List ℕ → Type 0
NotBefore u [] = Unit
NotBefore u (v ∷ vs) = (u ≤ v) × NotBefore v vs

unfoldable pub last_time : ℕ → List ℕ → ℕ
last_time u [] = u
last_time u (v ∷ vs) = last_time v vs

waiting : ℕ → Bool → Stall
waiting since b = record { stalled_since = since; stalled = b }

-- A step without peers once the wait has begun.
step-waiting :
    (threshold since u v : ℕ)
    → 0 < since
    → u ≤ v
    → (step v threshold 0 (waiting since (leb threshold (u - since)))).0
      ≡ waiting since (leb threshold (v - since))
unfolding step step_alone waiting
step-waiting threshold since u v z l = elim (Bool-cases (leb threshold (u - since))) [
  | inl e ↦
      let e' : leb threshold (v - since) ≡ true = ground (arith, e) in
      let s : (since == 0) ≡ false = ground arith in rw (e, e', s) refl
  | inr e ↦ elim (Bool-cases (leb threshold (v - since))) [
    | inl e' ↦ let s : (since == 0) ≡ false = ground arith in rw (e, s, e') refl
    | inr e' ↦ let s : (since == 0) ≡ false = ground arith in rw (e, s, e') refl
  ]
]

run-waiting :
    (threshold since u : ℕ) (us : List ℕ)
    → 0 < since
    → NotBefore u us
    → (run threshold (silent us) (waiting since (leb threshold (u - since)))).0.stalled
      ≡ leb threshold (last_time u us - since)
unfolding run silent NotBefore last_time waiting
run-waiting threshold since u [] z h = refl
run-waiting threshold since u (v ∷ vs) z h =
    ap (λ q. (run threshold (silent vs) q).0.stalled) (step-waiting threshold since u v z h.0)
    ∙ run-waiting threshold since v vs z h.1

first_step :
    (threshold t : ℕ)
    → 0 < threshold
    → (step t threshold 0 (record { stalled_since = 0; stalled = false })).0
      ≡ waiting t (leb threshold (t - t))
unfolding step step_alone waiting
first_step threshold t p = let e : leb threshold (t - t) ≡ false = ground arith in rw e refl

-- From a state that saw peers, ticks without peers from time `t` on leave the detector stalled
-- exactly if the last of them is the threshold or more after `t`, for a positive threshold and times
-- that do not go back.
pub run-silent :
    (threshold t : ℕ) (us : List ℕ)
    → 0 < threshold
    → 0 < t
    → NotBefore t us
    → (run threshold (silent (t ∷ us)) (record { stalled_since = 0; stalled = false })).0.stalled
      ≡ leb threshold (last_time t us - t)
unfolding run silent
run-silent threshold t us p z h =
    ap (λ q. (run threshold (silent us) q).0.stalled) (first_step threshold t p)
    ∙ run-waiting threshold t t us z h
