-- ===== src/Dht/Closest.antt =====
-- dht/table.go: Closest returns the nearest nodes.
use mathlib.Core.List.{reverse_aux, Permᴰ}
use mathlib.Core.List.Permᴰ
use Prim.Native.Nat.{bit_xor}
use stor.Prelude.{
  ℕ, zero, suc, ◌≤◌, ◌<◌, get_or, true, ap, ◌∙◌, false, ltb, [], ◌∷◌, ◌++◌, List, ◌≡◌, refl, sym,
  arith, length, take, drop, min, take-append-drop, length-take, All, Bool-cases, inl, inr,
}
use stor.Prelude.Words.{Bytes}
use stor.Dht.Id.{distance, less, less-asymmetric, less_trans, less_first, get_or-distance}
use stor.Dht.Table.{Node, RoutingTable, all_nodes, shift_down, sort_loop, sort_by_distance, closest}

take_all : (k : ℕ) (ns : List Node) → length ns ≤ k → take k ns ≡ ns
take_all zero [] h = refl
take_all (suc k) [] h = refl
take_all zero (n ∷ ns) h = absurd (omega arith)
take_all (suc k) (n ∷ ns) h = ap (◌∷◌ n) (take_all k ns (omega arith))

Perm-length : {xs ys : List Node} → Permᴰ xs ys → length xs ≡ length ys
Perm-length Permᴰ.nil = refl
Perm-length (Permᴰ.cons e p) = ap suc (Perm-length p)
Perm-length (Permᴰ.swap e f) = refl
Perm-length (Permᴰ.trans p q) = Perm-length p ∙ Perm-length q

module _ (target : Bytes) where
  -- Node `m` is no nearer than node `n`.
  unfoldable Within : Node → Node → Type 0
  Within n m = less (distance m.id target) (distance n.id target) ≡ false

  -- Nearest first.
  unfoldable Ascending : List Node → Type 0
  Ascending [] = Unit
  Ascending (n ∷ ns) = All (Within n) ns × Ascending ns

  Descending : List Node → Type 0
  Descending [] = Unit
  Descending (n ∷ ns) = All (λ m. Within m n) ns × Descending ns

  Within-trans : (a b c : Node) → Within a b → Within b c → Within a c
  unfolding Within
  Within-trans a b c p q =
      less_trans (distance a.id target) (distance b.id target) (distance c.id target) p q

  All-Within :
      (key n : Node) (ns : List Node)
      → Within n key
      → All (λ m. Within m n) ns
      → All (λ m. Within m key) ns
  All-Within key n [] w h = tt
  All-Within key n (m ∷ ns) w h = (Within-trans m n key h.0 w, All-Within key n ns w h.1)

  All-shift_down :
      (P : Node → Type 0) (key : Node) (ns : List Node)
      → P key
      → All P ns
      → All P (shift_down target key ns)
  unfolding shift_down
  All-shift_down P key [] k h = (k, tt)
  All-shift_down P key (n ∷ ns) k h =
      elim (Bool-cases (less (distance key.id target) (distance n.id target))) [
        | inl l ↦ rw (l, shift_down) ((h.0, All-shift_down P key ns k h.1))
        | inr l ↦ rw (l, shift_down) ((k, h))
      ]

  shift_down-Descending :
      (key : Node) (ns : List Node) → Descending ns → Descending (shift_down target key ns)
  unfolding shift_down Descending Within
  shift_down-Descending key [] h = (tt, tt)
  shift_down-Descending key (n ∷ ns) h =
      elim (Bool-cases (less (distance key.id target) (distance n.id target))) [
        | inl l ↦
            rw (l, shift_down)
              (
                All-shift_down (λ m. Within m n) key ns
                    (less-asymmetric (distance key.id target) (distance n.id target) l) h.0,
                shift_down-Descending key ns h.1,
              )
        | inr l ↦ rw (l, shift_down) ((l, All-Within key n ns l h.0), h)
      ]

  shift_down-Perm : (key : Node) (ns : List Node) → Permᴰ (shift_down target key ns) (key ∷ ns)
  unfolding shift_down
  shift_down-Perm key [] = Permᴰ.refl (key ∷ [])
  shift_down-Perm key (n ∷ ns) =
      elim (Bool-cases (less (distance key.id target) (distance n.id target))) [
        | inl l ↦
            rw (l, shift_down)
              (Permᴰ.trans (Permᴰ.cons refl (shift_down-Perm key ns)) (Permᴰ.swap refl refl))
        | inr l ↦ rw (l, shift_down) (Permᴰ.refl (key ∷ n ∷ ns))
      ]

  sort_loop-Descending :
      (done ns : List Node) → Descending done → Descending (sort_loop target done ns)
  unfolding sort_loop
  sort_loop-Descending done [] h = h
  sort_loop-Descending done (key ∷ ns) h =
      sort_loop-Descending (shift_down target key done) ns (shift_down-Descending key done h)

  sort_loop-Perm : (done ns : List Node) → Permᴰ (sort_loop target done ns) (done ++ ns)
  unfolding sort_loop
  sort_loop-Perm done [] = Permᴰ.symm (Permᴰ.append-nil done)
  sort_loop-Perm done (key ∷ ns) = Permᴰ.trans (sort_loop-Perm (shift_down target key done) ns) (
      Permᴰ.trans (Permᴰ.append_right ns (shift_down-Perm key done))
        (Permᴰ.symm (Permᴰ.middle key done ns)))

  reverse_aux-Ascending :
      (xs ys : List Node)
      → Descending xs
      → Ascending ys
      → All (λ x. All (Within x) ys) xs
      → Ascending (reverse_aux xs ys)
  unfolding Descending Ascending
  reverse_aux-Ascending [] ys d a h = a
  reverse_aux-Ascending (x ∷ xs) ys d a h =
      reverse_aux-Ascending xs (x ∷ ys) d.1 (h.0, a) (widen xs d.0 h.1)
    where
      widen :
          (zs : List Node)
          → All (λ m. Within m x) zs
          → All (λ m. All (Within m) ys) zs
          → All (λ m. All (Within m) (x ∷ ys)) zs
      widen [] p q = tt
      widen (z ∷ zs) p q = ((p.0, q.0), widen zs p.1 q.1)

  no_bounds : (xs : List Node) → All (λ x. All (Within x) []) xs
  no_bounds [] = tt
  no_bounds (x ∷ xs) = (tt, no_bounds xs)

  sort_by_distance-Ascending : (ns : List Node) → Ascending (sort_by_distance ns target)
  unfolding sort_by_distance Ascending Descending
  sort_by_distance-Ascending ns =
      reverse_aux-Ascending (sort_loop target [] ns) [] (sort_loop-Descending [] ns tt) tt
        (no_bounds (sort_loop target [] ns))

  sort_by_distance-Perm : (ns : List Node) → Permᴰ (sort_by_distance ns target) ns
  unfolding sort_by_distance
  sort_by_distance-Perm ns =
      Permᴰ.trans (Permᴰ.reverse_aux (sort_loop target [] ns) [])
        (Permᴰ.trans (Permᴰ.append-nil (sort_loop target [] ns)) (sort_loop-Perm [] ns))

  closest-take :
      (k : ℕ) (rt : RoutingTable)
      → closest target k rt ≡ take k (sort_by_distance (all_nodes rt) target)
  unfolding closest
  closest-take k rt =
      let all = sort_by_distance (all_nodes rt) target in
      elim (Bool-cases (ltb k (length all))) [
        | inl l ↦ rw l refl
        | inr l ↦ rw l (sym (take_all k all (ground (arith, l))))
      ]

  -- The byte of the XOR of an identifier with the target.
  abbrev pub xor_at : Node → ℕ → ℕ
  xor_at n i = bit_xor (get_or n.id i 0) (get_or target i 0)

  -- Node `m` is nearer than node `n`: the first of the 20 bytes in which the XORs of their identifiers
  -- with the target differ is smaller for `m`.
  pub record Nearer (m n : Node) : Type 0 where
    pub index : ℕ
    pub inside : index < 20
    pub before : (j : ℕ) → j < index → xor_at m j ≡ xor_at n j
    pub smaller : xor_at m index < xor_at n index

  -- Nearest first: nothing behind a node is nearer.
  unfoldable pub NearestFirst : List Node → Type 0
  NearestFirst [] = Unit
  NearestFirst (n ∷ ns) = All (λ m. ¬ Nearer m n) ns × NearestFirst ns

  Nearer-less :
      (m n : Node) → Nearer m n → less (distance m.id target) (distance n.id target) ≡ true
  Nearer-less m n h =
      let at_byte = λ (o : Node) (j : ℕ) (l : j < 20). get_or-distance j o.id target l in
      less_first h.index (distance m.id target) (distance n.id target) h.inside
        (λ j l.
          at_byte m j (omega (arith, h.inside))
          ∙ h.before j l
          ∙ sym (at_byte n j (omega (arith, h.inside))))
        (rw (at_byte m h.index h.inside, at_byte n h.index h.inside) h.smaller)

  All-Nearer : (n : Node) (ns : List Node) → All (Within n) ns → All (λ m. ¬ Nearer m n) ns
  unfolding Within
  All-Nearer n [] w = tt
  All-Nearer n (m ∷ ns) w = (λ h. ground (arith, Nearer-less m n h, w.0), All-Nearer n ns w.1)

  Ascending-NearestFirst : (ns : List Node) → Ascending ns → NearestFirst ns
  unfolding Ascending NearestFirst
  Ascending-NearestFirst [] a = tt
  Ascending-NearestFirst (n ∷ ns) a = (All-Nearer n ns a.0, Ascending-NearestFirst ns a.1)

  -- Closest returns the `k` nearest nodes of the table, or all when there are fewer: with some list
  -- of the others behind it, the result is the whole table, and no node is nearer than one before
  -- it.
  pub closest_lem :
      (k : ℕ) (rt : RoutingTable)
      → (others : List Node) × Permᴰ (closest target k rt ++ others) (all_nodes rt)
        × NearestFirst (closest target k rt ++ others)
        × (length (closest target k rt) ≡ min k (length (all_nodes rt)))
  closest_lem k rt =
      let all = sort_by_distance (all_nodes rt) target in
      let p = sort_by_distance-Perm (all_nodes rt) in
      let same = take-append-drop k all in
      (
        drop k all,
        rw (closest-take k rt, same) p,
        rw (closest-take k rt, same)
            (Ascending-NearestFirst all (sort_by_distance-Ascending (all_nodes rt))),
        rw (closest-take k rt, length-take k all, Perm-length p) refl,
      )
