-- ===== src/Download/PieceQueue/Picked.antt =====
-- download/piecequeue.go: which piece Pick hands out.
use stor.Prelude.{
  ℕ, ◌≤◌, Bool, true, false, ◌==◌, [], ◌∷◌, List, Option, none, some, ◌≡◌, refl, arith, Bool-cases,
  Option-cases, inl, inr, ◌⊎◌, ◌↔◌,
}
use stor.Prelude.Int.{eq_ℤ_iff, leb_ℤ}
use stor.Download.PieceQueue.Buckets.{contains, in_bucket}
use stor.Download.PieceQueue.Queue.{PieceWork, PieceQueue, has_index, find_index, update, skips}
use stor.Download.PieceQueue.Pick.{
  check_endgame, eligible, sample, sorted_indices, first_eligible, sorted_levels, from_levels,
  choose, hand_out, pick,
}
use stor.Download.PieceQueue.Sample.{Draws, sample_lem, sample-none}
use stor.Download.PieceQueue.Ascending.{
  sequential-found, sequential-none, levels-found, levels-none,
}
use stor.Download.PieceQueue.Consistent.{Consistent}

-- What a piece needs to be handed out: not done, not pending unless in the endgame, not skipped,
-- and at the peer.
unfoldable pub MayPick : PieceQueue → (ℕ → Bool) → ℕ → Type 0
MayPick pq has_piece j =
    (pq.done j ≡ false)
    × (pq.endgame ≡ false → pq.pending j ≡ false)
    × (skips pq.skip_mask j ≡ false)
    × (has_piece j ≡ true)

eligible_iff :
    (pq : PieceQueue) (has_piece : ℕ → Bool) (j : ℕ)
    → (eligible pq has_piece j ≡ true) ↔ MayPick pq has_piece j
unfolding eligible MayPick
eligible_iff pq has_piece j = ground arith

-- Index `i` is the one to hand out from the queue: it may be, and is first in the order in force.
pub record Chosen (pq : PieceQueue) (Ok : ℕ → Type 0) (i : ℕ) : Type 0 where
  pub remains : has_index i pq.pieces ≡ true
  pub is_eligible : Ok i
  pub in_sequence : pq.sequential ≡ true → (j : ℕ) → has_index j pq.pieces ≡ true → Ok j → i ≤ j
  pub priority_first :
      pq.sequential ≡ false
      → (j : ℕ) → contains j pq.priority ≡ true
      → Ok j
      → contains i pq.priority ≡ true
  pub rarest_first :
      pq.sequential ≡ false
      → contains i pq.priority ≡ false
      → (j : ℕ) → has_index j pq.pieces ≡ true
      → Ok j
      → leb_ℤ (pq.availability i) (pq.availability j) ≡ true

module _ (draw : ℕ → ℕ) (draws : Draws draw) (ok : ℕ → Bool) (pq : PieceQueue)
    (c : Consistent pq) where
  in_own_bucket :
      (j : ℕ) → has_index j pq.pieces ≡ true → in_bucket (pq.availability j) j pq.buckets ≡ true
  in_own_bucket j h =
      ground (
        arith,
        c.buckets_are (pq.availability j) j,
        eq_ℤ_iff (pq.availability j) (pq.availability j),
      )

  choose_sequential :
      (i : ℕ)
      → pq.sequential ≡ true
      → first_eligible ok (sorted_indices pq.pieces) ≡ some i
      → Chosen pq (λ j. ok j ≡ true) i
  choose_sequential i s e =
      let (h, g, least) = sequential-found ok pq.pieces i e in
      record {
        remains = h;
        is_eligible = g;
        in_sequence = λ _. least;
        priority_first = λ s'. ground arith;
        rarest_first = λ s'. ground arith;
      }

  choose_priority :
      (i : ℕ)
      → pq.sequential ≡ false
      → sample draw ok pq.priority 0 0 ≡ some i
      → Chosen pq (λ j. ok j ≡ true) i
  choose_priority i s e =
      let (h, g) =
        sample_lem draw ok (λ j. (contains j pq.priority ≡ true) × (ok j ≡ true)) pq.priority 0 0 i
          draws (λ l. absurd (omega arith)) (λ j h g. (h, g)) e in
      record {
        remains = c.priority_in i h;
        is_eligible = g;
        in_sequence = λ s'. ground arith;
        priority_first = λ _ j _ _. h;
        rarest_first = λ _ out. ground arith;
      }

  choose_rarest :
      (i : ℕ)
      → pq.sequential ≡ false
      → sample draw ok pq.priority 0 0 ≡ none
      → from_levels draw ok (sorted_levels pq.buckets) pq.buckets ≡ some i
      → Chosen pq (λ j. ok j ≡ true) i
  choose_rarest i s n e =
      let (a, h, g, least) = levels-found draw ok draws pq.buckets i e in
      let (z, bad) = sample-none draw ok pq.priority 0 0 n in
      let remains : has_index i pq.pieces ≡ true = ground (arith, c.buckets_are a i) in
      let level : pq.availability i ≡ a =
        ground (arith, c.buckets_are a i, eq_ℤ_iff (pq.availability i) a) in
      record {
        remains = remains;
        is_eligible = g;
        in_sequence = λ s'. ground arith;
        priority_first = λ _ j inp g'. ground (arith, bad j);
        rarest_first =
            λ _ _ j h' g'. rw level (least (pq.availability j) j (in_own_bucket j h') g');
      }

  choose-Chosen : (i : ℕ) → choose draw ok pq ≡ some i → Chosen pq (λ j. ok j ≡ true) i
  unfolding choose
  choose-Chosen i e = elim (Bool-cases pq.sequential) [
    | inl s ↦ choose_sequential i s (rw (s, choose) at e)
    | inr s ↦ elim (Option-cases (sample draw ok pq.priority 0 0)) [
      | inl n ↦ choose_rarest i s n (rw (s, n, choose) at e)
      | inr (k, n) ↦
          let same : k ≡ i = ground (arith, rw (s, n, choose) at e) in
          choose_priority i s (rw same at n)
    ]
  ]

  choose-none : choose draw ok pq ≡ none → (j : ℕ) → has_index j pq.pieces ≡ true → ok j ≡ false
  unfolding choose
  choose-none e j h = elim (Bool-cases pq.sequential) [
    | inl s ↦ sequential-none ok pq.pieces (rw (s, choose) at e) j h
    | inr s ↦ elim (Option-cases (sample draw ok pq.priority 0 0)) [
      | inl n ↦
          levels-none draw ok draws pq.buckets (rw (s, n, choose) at e) (pq.availability j) j
            (in_own_bucket j h)
      | inr (k, n) ↦ ground (arith, rw (s, n, choose) at e)
    ]
  ]

-- What Pick gives: a piece of the queue that is marked as pending, or none when none is eligible.
unfoldable pub Picks : PieceQueue → (ℕ → Type 0) → PieceQueue × Option PieceWork → Type 0
Picks pq Ok result =
    (((j : ℕ) → has_index j pq.pieces ≡ true → ¬ Ok j) × (result ≡ (pq, none)))
    ⊎ ((p : PieceWork) × (find_index p.index pq.pieces ≡ some p)
        × Chosen pq Ok p.index
        × (result ≡ (record pq { pending = update pq.pending p.index true }, some p)))

check_endgame-Consistent : (pq : PieceQueue) → Consistent pq → Consistent (check_endgame pq)
unfolding check_endgame
check_endgame-Consistent pq c = record {
  buckets_are = c.buckets_are;
  priority_in = c.priority_in;
  done_out = c.done_out;
}

hand_out-Consistent : (q : PieceQueue) (o : Option ℕ) → Consistent q → Consistent (hand_out q o).0
hand_out-Consistent q none c = c
hand_out-Consistent q (some i) c = record {
  buckets_are = c.buckets_are;
  priority_in = c.priority_in;
  done_out = c.done_out;
}

find_index-has_index :
    (i : ℕ) (ps : List PieceWork)
    → has_index i ps ≡ true
    → (p : PieceWork) × (find_index i ps ≡ some p) × (p.index ≡ i)
unfolding has_index find_index
find_index-has_index i [] h = ground (arith, h)
find_index-has_index i (q ∷ ps) h = elim (Bool-cases (q.index == i)) [
  | inl t ↦ (q, rw t refl, ground arith)
  | inr t ↦ let (p, f, e) = find_index-has_index i ps (rw (t, has_index) at h) in (p, rw t f, e)
]

true-ne-false : (b : Bool) → b ≡ true → b ≡ false → ⊥
true-ne-false b t f = ground arith

Chosen-map :
    (pq : PieceQueue) (has_piece : ℕ → Bool) (i : ℕ)
    → Chosen pq (λ j. eligible pq has_piece j ≡ true) i
    → Chosen pq (MayPick pq has_piece) i
Chosen-map pq h i c = record {
  remains = c.remains;
  is_eligible = (eligible_iff pq h i).0 c.is_eligible;
  in_sequence = λ s j r m. c.in_sequence s j r ((eligible_iff pq h j).1 m);
  priority_first = λ s j r m. c.priority_first s j r ((eligible_iff pq h j).1 m);
  rarest_first = λ s o j r m. c.rarest_first s o j r ((eligible_iff pq h j).1 m);
}

hand_out-Picks :
    (draw : ℕ → ℕ) (has_piece : ℕ → Bool) (q : PieceQueue)
    → Draws draw
    → Consistent q
    → Picks q (MayPick q has_piece) (hand_out q (choose draw (eligible q has_piece) q))
unfolding Picks
hand_out-Picks draw has_piece q draws c =
    let ok = eligible q has_piece in
    elim (Option-cases (choose draw ok q)) [
      | inl e ↦ inl (
        λ j r m.
            true-ne-false _ ((eligible_iff q has_piece j).1 m)
              (choose-none draw draws ok q c e j r),
        rw e refl,
      )
      | inr (i, e) ↦
          let chosen = Chosen-map q has_piece i (choose-Chosen draw draws ok q c i e) in
          let (p, f, same) = find_index-has_index i q.pieces chosen.remains in
          inr (p, rw same f, rw same chosen, rw (e, f, same) refl)
    ]

-- Pick on a consistent queue, with draws in the range of rand.IntN, hands out a piece that remains and is eligible, and marks it as
-- pending; in sequential mode it is the eligible piece of the lowest index, otherwise a priority
-- piece when one is eligible, otherwise one than which no eligible piece is rarer. It gives none
-- exactly where no remaining piece is eligible. Eligibility is judged after the endgame check.
pub pick-Picks :
    (draw : ℕ → ℕ) (has_piece : ℕ → Bool) (pq : PieceQueue)
    → Draws draw
    → Consistent pq
    → Picks (check_endgame pq) (MayPick (check_endgame pq) has_piece) (pick draw has_piece pq)
unfolding pick
pick-Picks draw has_piece pq draws c =
    hand_out-Picks draw has_piece (check_endgame pq) draws (check_endgame-Consistent pq c)

pub pick-Consistent :
    (draw : ℕ → ℕ) (has_piece : ℕ → Bool) (pq : PieceQueue)
    → Consistent pq
    → Consistent (pick draw has_piece pq).0
unfolding pick
pick-Consistent draw has_piece pq c =
    let q = check_endgame pq in
    hand_out-Consistent q (choose draw (eligible q has_piece) q) (check_endgame-Consistent pq c)
