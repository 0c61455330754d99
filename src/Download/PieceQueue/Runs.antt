-- ===== src/Download/PieceQueue/Runs.antt =====
-- download/piecequeue.go: what lasts along a run of calls, and peers that come and go.
use stor.Prelude.{
  ℕ, Bool, true, if◌then◌else◌, ◌==◌, ◌&&◌, [], ◌∷◌, List, Option, none, some, ◌≡◌, ◌≢◌, refl, sym,
  arith, Bool-cases, inl, inr, ap, ◌∙◌,
}
use stor.Prelude.Int.{ℤ, inc, dec, dec-inc}
use stor.Prelude.Words.{Bytes}
use stor.Download.PieceQueue.Buckets.{in_bucket}
use stor.Download.PieceQueue.Queue.{
  PieceWork, PieceQueue, has_index, return_piece, complete, offers, shift_piece, shift_all,
  add_peer_bitfield, remove_peer_bitfield, peer_have, update_skip_mask,
}
use stor.Download.PieceQueue.Pick.{pick, check_endgame, choose, eligible, hand_out}
use stor.Download.PieceQueue.Consistent.{
  Consistent, complete-Consistent, add_peer_bitfield-Consistent, remove_peer_bitfield-Consistent,
}
use stor.Download.PieceQueue.Sample.{Draws}
use stor.Download.PieceQueue.Picked.{Picks, MayPick, pick-Picks}
use stor.Download.PieceQueue.Steps.{
  Step, Step-Consistent, picks, returns, completes, joins, leaves, announces, masks,
}

-- Any number of calls.
pub data Run : PieceQueue → PieceQueue → Type 0 where
  stop : {pq : PieceQueue} → Run pq pq
  call : {pq pq' pq'' : PieceQueue} → Step pq pq' → Run pq' pq'' → Run pq pq''

Run-Consistent : {pq pq' : PieceQueue} → Run pq pq' → Consistent pq → Consistent pq'
Run-Consistent stop c = c
Run-Consistent (call s r) c = Run-Consistent r (Step-Consistent s c)

shift_all-done :
    (g : ℤ → ℤ) (bf : Option Bytes) (ps : List PieceWork) (pq : PieceQueue)
    → (shift_all g bf ps pq).done ≡ pq.done
unfolding shift_all shift_piece
shift_all-done g bf [] pq = refl
shift_all-done g bf (p ∷ ps) pq = elim (Bool-cases (offers bf p.index)) [
  | inl o ↦ rw (o, shift_all) (shift_all-done g bf ps (shift_piece g p.index pq))
  | inr o ↦ rw (o, shift_all) (shift_all-done g bf ps pq)
]

shift_all-pieces :
    (g : ℤ → ℤ) (bf : Option Bytes) (ps : List PieceWork) (pq : PieceQueue)
    → (shift_all g bf ps pq).pieces ≡ pq.pieces
unfolding shift_all shift_piece
shift_all-pieces g bf [] pq = refl
shift_all-pieces g bf (p ∷ ps) pq = elim (Bool-cases (offers bf p.index)) [
  | inl o ↦ rw (o, shift_all) (shift_all-pieces g bf ps (shift_piece g p.index pq))
  | inr o ↦ rw (o, shift_all) (shift_all-pieces g bf ps pq)
]

hand_out-done : (q : PieceQueue) (o : Option ℕ) → (hand_out q o).0.done ≡ q.done
hand_out-done q none = refl
hand_out-done q (some i) = refl

pick-done : (draw : ℕ → ℕ) (h : ℕ → Bool) (pq : PieceQueue) → (pick draw h pq).0.done ≡ pq.done
unfolding pick check_endgame
pick-done draw h pq =
    hand_out-done (check_endgame pq)
      (choose draw (eligible (check_endgame pq) h) (check_endgame pq))

complete-done : (i j : ℕ) (pq : PieceQueue) → pq.done j ≡ true → (complete i pq).done j ≡ true
unfolding complete
complete-done i j pq h = ground arith

peer_have-done : (i : ℕ) (pq : PieceQueue) → (peer_have i pq).done ≡ pq.done
unfolding peer_have shift_piece
peer_have-done i pq = elim (Bool-cases (has_index i pq.pieces)) [
  | inl h ↦ rw h refl
  | inr h ↦ rw h refl
]

Step-done : (j : ℕ) {pq pq' : PieceQueue} → Step pq pq' → pq.done j ≡ true → pq'.done j ≡ true
unfolding return_piece add_peer_bitfield remove_peer_bitfield update_skip_mask
Step-done j {pq} (picks draw h) d = ap (λ f. f j) (pick-done draw h pq) ∙ d
Step-done j (returns p) d = d
Step-done j {pq} (completes i) d = complete-done i j pq d
Step-done j {pq} (joins bf) d = ap (λ f. f j) (shift_all-done inc bf pq.pieces pq) ∙ d
Step-done j {pq} (leaves bf) d = ap (λ f. f j) (shift_all-done dec bf pq.pieces pq) ∙ d
Step-done j {pq} (announces i) d = ap (λ f. f j) (peer_have-done i pq) ∙ d
Step-done j (masks m) d = d

Run-done : (j : ℕ) {pq pq' : PieceQueue} → Run pq pq' → pq.done j ≡ true → pq'.done j ≡ true
Run-done j stop d = d
Run-done j (call s r) d = Run-done j r (Step-done j s d)

complete_self-done : (i : ℕ) (pq : PieceQueue) → (complete i pq).done i ≡ true
unfolding complete
complete_self-done i pq = ground arith

-- Once Complete(i) is called on a consistent queue, no later Pick hands out piece `i`, whatever calls
-- come between.
pub complete-pick :
    (draw : ℕ → ℕ) (has_piece : ℕ → Bool) (i : ℕ) (pq pq' : PieceQueue) (p : PieceWork)
    → Draws draw
    → Consistent pq
    → Run (complete i pq) pq'
    → (pick draw has_piece pq').1 ≡ some p
    → p.index ≢ i
unfolding check_endgame Picks MayPick
complete-pick draw has_piece i pq pq' p draws c r e same =
    let d = Run-done i r (complete_self-done i pq) in
    elim (pick-Picks draw has_piece pq' draws (Run-Consistent r (complete-Consistent i pq c))) [
      | inl (_, n) ↦ ground (arith, e, ap (λ t. t.1) n)
      | inr (q, _, chosen, n) ↦
          let alike : q ≡ p = ground (arith, sym (ap (λ t. t.1) n) ∙ e) in
          ground (arith, chosen.is_eligible.0, d, ap (λ w. w.index) alike, same)
    ]

-- Counts.
shifts : (ℤ → ℤ) → Option Bytes → ℕ → List PieceWork → ℤ → ℤ
shifts g bf j [] a = a
shifts g bf j (p ∷ ps) a = shifts g bf j ps (if p.index == j && offers bf j then g a else a)

shift_piece-availability :
    (g : ℤ → ℤ) (bf : Option Bytes) (i j : ℕ) (pq : PieceQueue)
    → offers bf i ≡ true
    → (shift_piece g i pq).availability j
      ≡ (if i == j && offers bf j then g (pq.availability j) else pq.availability j)
unfolding shift_piece
shift_piece-availability g bf i j pq o = elim (Bool-cases (i == j)) [
  | inl e ↦
      let same : i ≡ j = ground (arith, e) in
      let o' : offers bf j ≡ true = rw same at o in rw (e, o', same)
  | inr e ↦ rw e
]

shift_all-availability :
    (g : ℤ → ℤ) (bf : Option Bytes) (j : ℕ) (ps : List PieceWork) (pq : PieceQueue)
    → (shift_all g bf ps pq).availability j ≡ shifts g bf j ps (pq.availability j)
unfolding shift_all shifts
shift_all-availability g bf j [] pq = refl
shift_all-availability g bf j (p ∷ ps) pq = elim (Bool-cases (offers bf p.index)) [
  | inl o ↦
      let rest = shift_all-availability g bf j ps (shift_piece g p.index pq) in
      rw (o, shift_all)
        (rest ∙ ap (shifts g bf j ps) (shift_piece-availability g bf p.index j pq o))
  | inr o ↦
      let rest = shift_all-availability g bf j ps pq in
      rw (o, shift_all) (rest ∙ ap (shifts g bf j ps) (ground (arith, o)))
]

shifts-inc :
    (bf : Option Bytes) (j : ℕ) (ps : List PieceWork) (a : ℤ)
    → shifts inc bf j ps (inc a) ≡ inc (shifts inc bf j ps a)
unfolding shifts
shifts-inc bf j [] a = refl
shifts-inc bf j (p ∷ ps) a = elim (Bool-cases (p.index == j && offers bf j)) [
  | inl h ↦ rw (h, shifts) (shifts-inc bf j ps (inc a))
  | inr h ↦ rw (h, shifts) (shifts-inc bf j ps a)
]

shifts-inverse :
    (bf : Option Bytes) (j : ℕ) (ps : List PieceWork) (a : ℤ)
    → shifts dec bf j ps (shifts inc bf j ps a) ≡ a
unfolding shifts
shifts-inverse bf j [] a = refl
shifts-inverse bf j (p ∷ ps) a = elim (Bool-cases (p.index == j && offers bf j)) [
  | inl h ↦
      rw (h, shifts, shifts-inc bf j ps a, dec-inc (shifts inc bf j ps a))
        (shifts-inverse bf j ps a)
  | inr h ↦ rw (h, shifts) (shifts-inverse bf j ps a)
]

removed_availability :
    (bf : Option Bytes) (pq : PieceQueue) (j : ℕ)
    → (remove_peer_bitfield bf (add_peer_bitfield bf pq)).availability j ≡ pq.availability j
unfolding remove_peer_bitfield add_peer_bitfield
removed_availability bf pq j =
    let added = record (shift_all inc bf pq.pieces pq) { signalled = true } in
    shift_all-availability dec bf j added.pieces added
    ∙ rw (shift_all-pieces inc bf pq.pieces pq, shift_all-availability inc bf j pq.pieces pq)
        (shifts-inverse bf j pq.pieces (pq.availability j))

removed_pieces :
    (bf : Option Bytes) (pq : PieceQueue)
    → (remove_peer_bitfield bf (add_peer_bitfield bf pq)).pieces ≡ pq.pieces
unfolding remove_peer_bitfield add_peer_bitfield
removed_pieces bf pq =
    let added = record (shift_all inc bf pq.pieces pq) { signalled = true } in
    shift_all-pieces dec bf added.pieces added ∙ shift_all-pieces inc bf pq.pieces pq

-- A peer that joins and leaves again with the same bitfield, or as one that has all, leaves every
-- availability and every bucket of a consistent queue as it was.
pub remove_peer_bitfield-add :
    (bf : Option Bytes) (pq : PieceQueue)
    → Consistent pq
    → ((j : ℕ)
        → (remove_peer_bitfield bf (add_peer_bitfield bf pq)).availability j ≡ pq.availability j)
      × ((a : ℤ) (j : ℕ)
          → in_bucket a j (remove_peer_bitfield bf (add_peer_bitfield bf pq)).buckets
            ≡ in_bucket a j pq.buckets)
remove_peer_bitfield-add bf pq c =
    let added = add_peer_bitfield bf pq in
    let c' = remove_peer_bitfield-Consistent bf added (add_peer_bitfield-Consistent bf pq c) in
    let same = removed_availability bf pq in
    (same, λ a j. rw (c'.buckets_are a j, same j, c.buckets_are a j, removed_pieces bf pq))
