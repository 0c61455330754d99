-- ===== src/Download/PieceQueue/Ascending.antt =====
-- download/piecequeue.go: the two ascending walks of Pick, over the levels and over the indices.
use stor.Prelude.{
  ℕ, ◌≤◌, Bool, true, false, ◌==◌, ◌||◌, ltb, leb, [], ◌∷◌, List, none, some, ◌≡◌, refl, arith,
  length, Bool-cases, Option-cases, inl, inr,
}
use stor.Prelude.Int.{ℤ, eq_ℤ, eq_ℤ_iff, leb_ℤ, leb_ℤ_total, leb_ℤ_trans, leb_ℤ_refl}
use stor.Download.PieceQueue.Buckets.{Levels, contains, bucket_of, in_bucket}
use stor.Download.PieceQueue.Queue.{PieceWork, has_index}
use stor.Download.PieceQueue.Pick.{
  sample, insert_index, sorted_indices, first_eligible, insert_level, sorted_levels,
  bucket_or_empty, from_levels,
}
use stor.Download.PieceQueue.Sample.{Draws, sample_lem, sample-none}

-- Levels.
has_level : ℤ → List ℤ → Bool
has_level a [] = false
has_level a (b ∷ bs) = eq_ℤ b a || has_level a bs

Ascends : List ℤ → Type 0
Ascends [] = Unit
Ascends (a ∷ bs) = ((b : ℤ) → has_level b bs ≡ true → leb_ℤ a b ≡ true) × Ascends bs

has_level-insert_level :
    (a c : ℤ) (bs : List ℤ) → has_level c (insert_level a bs) ≡ (eq_ℤ a c || has_level c bs)
unfolding has_level insert_level
has_level-insert_level a c [] = refl
has_level-insert_level a c (b ∷ bs) = ground (arith, has_level-insert_level a c bs)

insert_level-Ascends : (a : ℤ) (bs : List ℤ) → Ascends bs → Ascends (insert_level a bs)
unfolding has_level Ascends insert_level
insert_level-Ascends a [] h = (λ b e. ground arith, tt)
insert_level-Ascends a (b ∷ bs) h = elim (Bool-cases (leb_ℤ a b)) [
  | inl l ↦ rw l ((λ c e. ground (arith, h.0 c, eq_ℤ_iff b c, leb_ℤ_trans a b c), h))
  | inr l ↦ rw l (
      (
        λ c e. ground (arith, h.0 c, eq_ℤ_iff a c, leb_ℤ_total a b, has_level-insert_level a c bs),
        insert_level-Ascends a bs h.1,
      ))
]

sorted_levels-Ascends : (bs : Levels) → Ascends (sorted_levels bs)
unfolding Ascends sorted_levels
sorted_levels-Ascends [] = tt
sorted_levels-Ascends ((a, b) ∷ bs) = elim (Bool-cases (ltb 0 (length b))) [
  | inl l ↦ rw l (insert_level-Ascends a (sorted_levels bs) (sorted_levels-Ascends bs))
  | inr l ↦ rw l (sorted_levels-Ascends bs)
]

-- A bucket that holds an index is among the levels.
held-nonempty : (j : ℕ) (b : List ℕ) → contains j b ≡ true → ltb 0 (length b) ≡ true
unfolding contains
held-nonempty j [] h = ground arith
held-nonempty j (k ∷ b) h = ground arith

has_level-sorted_levels :
    (c : ℤ) (j : ℕ) (bs : Levels) → in_bucket c j bs ≡ true → has_level c (sorted_levels bs) ≡ true
unfolding has_level sorted_levels in_bucket bucket_of
has_level-sorted_levels c j [] h = h
has_level-sorted_levels c j ((a, b) ∷ bs) h = ground (
  arith,
  held-nonempty j b,
  has_level-sorted_levels c j bs,
  has_level-insert_level a c (sorted_levels bs),
)

held-bucket_or_empty :
    (c : ℤ) (j : ℕ) (bs : Levels) → contains j (bucket_or_empty (bucket_of c bs)) ≡ in_bucket c j bs
unfolding in_bucket contains
held-bucket_or_empty c j bs = elim (Option-cases (bucket_of c bs)) [
  | inl e ↦ rw e
  | inr (b, e) ↦ rw e
]

module _ (draw : ℕ → ℕ) (ok : ℕ → Bool) (draws : Draws draw) (bs : Levels) where
  -- The index found is eligible, and no eligible index stands in a lower bucket.
  from_levels-found :
      (ls : List ℤ) (i : ℕ)
      → Ascends ls
      → from_levels draw ok ls bs ≡ some i
      → (a : ℤ) × (in_bucket a i bs ≡ true)
        × (ok i ≡ true)
        × ((c : ℤ) (j : ℕ)
            → has_level c ls ≡ true
            → in_bucket c j bs ≡ true
            → ok j ≡ true
            → leb_ℤ a c ≡ true)
  unfolding from_levels Ascends has_level
  from_levels-found [] i s e = ground (arith, e)
  from_levels-found (l ∷ ls) i s e =
      let b = bucket_or_empty (bucket_of l bs) in
      elim (Option-cases (sample draw ok b 0 0)) [
        | inl n ↦
            let (a, here, good, least) = from_levels-found ls i s.1 (rw (n, from_levels) at e) in
            let (z, bad) = sample-none draw ok b 0 0 n in
            (
              a,
              here,
              good,
              λ c j lv inb g.
                  ground (arith, least c j, bad j, eq_ℤ_iff l c, held-bucket_or_empty c j bs),
            )
        | inr (k, n) ↦
            let same : k ≡ i = ground (arith, rw (n, from_levels) at e) in
            let (inb, good) =
              sample_lem draw ok (λ j. (contains j b ≡ true) × (ok j ≡ true)) b 0 0 k draws
                (λ h. absurd (omega arith)) (λ j h g. (h, g)) n in
            (
              l,
              ground (arith, held-bucket_or_empty l i bs),
              ground arith,
              λ c j lv inb' g. ground (arith, s.0 c, eq_ℤ_iff l c, leb_ℤ_refl l),
            )
      ]

  from_levels-none :
      (ls : List ℤ)
      → from_levels draw ok ls bs ≡ none
      → (c : ℤ) (j : ℕ) → has_level c ls ≡ true
      → in_bucket c j bs ≡ true
      → ok j ≡ false
  unfolding from_levels has_level
  from_levels-none [] e c j lv inb = ground arith
  from_levels-none (l ∷ ls) e c j lv inb =
      let b = bucket_or_empty (bucket_of l bs) in
      elim (Option-cases (sample draw ok b 0 0)) [
        | inl n ↦
            let (z, bad) = sample-none draw ok b 0 0 n in
            ground (
              arith,
              from_levels-none ls (rw (n, from_levels) at e) c j,
              bad j,
              eq_ℤ_iff l c,
              held-bucket_or_empty c j bs,
            )
        | inr (k, n) ↦ ground (arith, rw (n, from_levels) at e)
      ]

-- Indices.
Ordered : List ℕ → Type 0
Ordered [] = Unit
Ordered (i ∷ js) = ((j : ℕ) → contains j js ≡ true → i ≤ j) × Ordered js

contains-insert_index :
    (i j : ℕ) (js : List ℕ) → contains j (insert_index i js) ≡ (i == j || contains j js)
unfolding contains insert_index
contains-insert_index i j [] = refl
contains-insert_index i j (k ∷ js) = ground (arith, contains-insert_index i j js)

insert_index-Ordered : (i : ℕ) (js : List ℕ) → Ordered js → Ordered (insert_index i js)
unfolding contains Ordered insert_index
insert_index-Ordered i [] h = (λ j e. ground arith, tt)
insert_index-Ordered i (k ∷ js) h = elim (Bool-cases (leb i k)) [
  | inl l ↦ rw l ((λ j e. ground (arith, h.0 j), h))
  | inr l ↦
      rw l (
        (λ j e. ground (arith, h.0 j, contains-insert_index i j js), insert_index-Ordered i js h.1))
]

sorted_indices-Ordered : (ps : List PieceWork) → Ordered (sorted_indices ps)
unfolding Ordered sorted_indices
sorted_indices-Ordered [] = tt
sorted_indices-Ordered (p ∷ ps) =
    insert_index-Ordered p.index (sorted_indices ps) (sorted_indices-Ordered ps)

pub contains-sorted_indices :
    (i : ℕ) (ps : List PieceWork) → contains i (sorted_indices ps) ≡ has_index i ps
unfolding contains sorted_indices has_index
contains-sorted_indices i [] = refl
contains-sorted_indices i (p ∷ ps) =
    ground
      (arith, contains-insert_index p.index i (sorted_indices ps), contains-sorted_indices i ps)

first_eligible-found :
    (ok : ℕ → Bool) (is : List ℕ) (i : ℕ)
    → Ordered is
    → first_eligible ok is ≡ some i
    → (contains i is ≡ true)
      × (ok i ≡ true)
      × ((j : ℕ) → contains j is ≡ true → ok j ≡ true → i ≤ j)
unfolding contains Ordered first_eligible
first_eligible-found ok [] i s e = ground (arith, e)
first_eligible-found ok (k ∷ is) i s e = elim (Bool-cases (ok k)) [
  | inl t ↦
      let same : k ≡ i = ground (arith, e, t) in
      (ground arith, ground arith, λ j h g. ground (arith, s.0 j))
  | inr t ↦
      let (h, g, least) = first_eligible-found ok is i s.1 (rw (t, first_eligible) at e) in
      (ground arith, g, λ j h' g'. ground (arith, least j))
]

first_eligible-none :
    (ok : ℕ → Bool) (is : List ℕ)
    → first_eligible ok is ≡ none
    → (j : ℕ) → contains j is ≡ true
    → ok j ≡ false
unfolding contains first_eligible
first_eligible-none ok [] e j h = ground arith
first_eligible-none ok (k ∷ is) e j h = elim (Bool-cases (ok k)) [
  | inl t ↦ ground (arith, e, t)
  | inr t ↦ ground (arith, first_eligible-none ok is (rw (t, first_eligible) at e) j)
]

-- The walks over a queue.
pub sequential-found :
    (ok : ℕ → Bool) (ps : List PieceWork) (i : ℕ)
    → first_eligible ok (sorted_indices ps) ≡ some i
    → (has_index i ps ≡ true)
      × (ok i ≡ true)
      × ((j : ℕ) → has_index j ps ≡ true → ok j ≡ true → i ≤ j)
sequential-found ok ps i e =
    let (h, g, least) =
      first_eligible-found ok (sorted_indices ps) i (sorted_indices-Ordered ps) e in
    (
      ground (arith, contains-sorted_indices i ps),
      g,
      λ j h' g'. least j (ground (arith, contains-sorted_indices j ps)) g',
    )

pub sequential-none :
    (ok : ℕ → Bool) (ps : List PieceWork)
    → first_eligible ok (sorted_indices ps) ≡ none
    → (j : ℕ) → has_index j ps ≡ true
    → ok j ≡ false
sequential-none ok ps e j h =
    first_eligible-none ok (sorted_indices ps) e j (ground (arith, contains-sorted_indices j ps))

module _ (draw : ℕ → ℕ) (ok : ℕ → Bool) (draws : Draws draw) (bs : Levels) where
  pub levels-found :
      (i : ℕ)
      → from_levels draw ok (sorted_levels bs) bs ≡ some i
      → (a : ℤ) × (in_bucket a i bs ≡ true)
        × (ok i ≡ true)
        × ((c : ℤ) (j : ℕ) → in_bucket c j bs ≡ true → ok j ≡ true → leb_ℤ a c ≡ true)
  levels-found i e =
      let (a, here, good, least) =
        from_levels-found draw ok draws bs (sorted_levels bs) i (sorted_levels-Ascends bs) e in
      (a, here, good, λ c j h g. least c j (has_level-sorted_levels c j bs h) h g)

  pub levels-none :
      from_levels draw ok (sorted_levels bs) bs ≡ none
      → (c : ℤ) (j : ℕ) → in_bucket c j bs ≡ true
      → ok j ≡ false
  levels-none e c j h =
      from_levels-none draw ok draws bs (sorted_levels bs) e c j (has_level-sorted_levels c j bs h)
        h
