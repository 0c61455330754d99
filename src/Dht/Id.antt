-- ===== src/Dht/Id.antt =====
-- dht/id.go: identifiers, their distance and its order. An ID is 20 bytes; `get_or` reads a byte.
use Prim.Native.Nat.{bit_xor}
use stor.Prelude.{
  ℕ, zero, suc, ◌+◌, ◌*◌, Bool, true, false, if◌then◌else◌, ◌==◌, ◌&&◌, ltb, leb, [], ◌∷◌, ◌≡◌,
  refl, arith, get_or, ◌<◌,
}
use stor.Prelude.Words.{Bytes}

-- The loops `for i := range 20`: the rounds left, from index `i` on.
unfoldable pub distance_from : ℕ → ℕ → Bytes → Bytes → Bytes
distance_from zero i a b = []
distance_from (suc n) i a b = bit_xor (get_or a i 0) (get_or b i 0) ∷ distance_from n (i + 1) a b

unfoldable pub distance : Bytes → Bytes → Bytes
distance a b = distance_from 20 0 a b

unfoldable pub less_from : ℕ → ℕ → Bytes → Bytes → Bool
less_from zero i a b = false
less_from (suc n) i a b =
    let rest = less_from n (i + 1) a b in
    if get_or a i 0 == get_or b i 0 then rest else ltb (get_or a i 0) (get_or b i 0)

unfoldable pub less : Bytes → Bytes → Bool
less a b = less_from 20 0 a b

-- `bits.LeadingZeros8`.
unfoldable pub leading_zeros8 : ℕ → ℕ
leading_zeros8 b =
    if leb 128 b
    then 0
    else if leb 64 b
    then 1
    else if leb 32 b
    then 2
    else if leb 16 b
    then 3
    else if leb 8 b
    then 4
    else if leb 4 b
    then 5
    else if leb 2 b
    then 6
    else if leb 1 b
    then 7
    else 8

unfoldable pub zero_prefix_from : ℕ → ℕ → Bytes → ℕ
unfolding leading_zeros8
zero_prefix_from zero i d = 160
zero_prefix_from (suc n) i d =
    let rest = zero_prefix_from n (i + 1) d in
    if get_or d i 0 == 0 then rest else i * 8 + leading_zeros8 (get_or d i 0)

unfoldable pub zero_prefix_len : Bytes → ℕ
zero_prefix_len d = zero_prefix_from 20 0 d

-- `a == b` on two arrays.
unfoldable pub equal_from : ℕ → ℕ → Bytes → Bytes → Bool
equal_from zero i a b = true
equal_from (suc n) i a b = get_or a i 0 == get_or b i 0 && equal_from n (i + 1) a b

unfoldable pub equal : Bytes → Bytes → Bool
equal a b = equal_from 20 0 a b

-- Less is a strict order: asymmetric, and its converse is transitive.
less_from-asymmetric :
    (n i : ℕ) (a b : Bytes) → less_from n i a b ≡ true → less_from n i b a ≡ false
unfolding less_from
less_from-asymmetric zero i a b h = refl
less_from-asymmetric (suc n) i a b h = ground (arith, less_from-asymmetric n (i + 1) a b)

less_from_trans :
    (n i : ℕ) (a b c : Bytes)
    → less_from n i b a ≡ false
    → less_from n i c b ≡ false
    → less_from n i c a ≡ false
unfolding less_from
less_from_trans zero i a b c p q = refl
less_from_trans (suc n) i a b c p q = ground (arith, less_from_trans n (i + 1) a b c)

pub less-asymmetric : (a b : Bytes) → less a b ≡ true → less b a ≡ false
unfolding less
less-asymmetric = less_from-asymmetric 20 0

pub less_trans : (a b c : Bytes) → less b a ≡ false → less c b ≡ false → less c a ≡ false
unfolding less
less_trans = less_from_trans 20 0

equal_from-sym : (n i : ℕ) (a b : Bytes) → equal_from n i a b ≡ equal_from n i b a
unfolding equal_from
equal_from-sym zero i a b = refl
equal_from-sym (suc n) i a b = ground (arith, equal_from-sym n (i + 1) a b)

pub equal-sym : (a b : Bytes) → equal a b ≡ equal b a
unfolding equal
equal-sym = equal_from-sym 20 0

equal_from_trans :
    (n i : ℕ) (a b c : Bytes) → equal_from n i a b ≡ true → equal_from n i b c ≡ equal_from n i a c
unfolding equal_from
equal_from_trans zero i a b c h = refl
equal_from_trans (suc n) i a b c h = ground (arith, equal_from_trans n (i + 1) a b c)

pub equal_trans : (a b c : Bytes) → equal a b ≡ true → equal b c ≡ equal a c
unfolding equal
equal_trans = equal_from_trans 20 0

equal_from_refl : (n i : ℕ) (a : Bytes) → equal_from n i a a ≡ true
unfolding equal_from
equal_from_refl zero i a = refl
equal_from_refl (suc n) i a = ground (arith, equal_from_refl n (i + 1) a)

pub equal_refl : (a : Bytes) → equal a a ≡ true
unfolding equal
equal_refl = equal_from_refl 20 0

-- A byte of the distance.
get_or-distance_from :
    (n i k : ℕ) (a b : Bytes)
    → k < n
    → get_or (distance_from n i a b) k 0 ≡ bit_xor (get_or a (i + k) 0) (get_or b (i + k) 0)
unfolding distance_from
get_or-distance_from zero i k a b l = absurd (omega arith)
get_or-distance_from (suc n) i zero a b l = let e : i + 0 ≡ i = omega arith in rw e refl
get_or-distance_from (suc n) i (suc k) a b l =
    let e : i + suc k ≡ i + 1 + k = omega arith in
    rw e (get_or-distance_from n (i + 1) k a b (omega arith))

pub get_or-distance :
    (k : ℕ) (a b : Bytes)
    → k < 20
    → get_or (distance a b) k 0 ≡ bit_xor (get_or a k 0) (get_or b k 0)
unfolding distance
get_or-distance k a b l =
    let e : 0 + k ≡ k = omega arith in rw e at (get_or-distance_from 20 0 k a b l)

-- Less decides by the first byte that differs.
less_from_first :
    (n i k : ℕ) (a b : Bytes)
    → k < n
    → ((j : ℕ) → j < k → get_or a (i + j) 0 ≡ get_or b (i + j) 0)
    → get_or a (i + k) 0 < get_or b (i + k) 0
    → less_from n i a b ≡ true
unfolding less_from
less_from_first zero i k a b l same lt = absurd (omega arith)
less_from_first (suc n) i zero a b l same lt =
    let e : i + 0 ≡ i = omega arith in
    let here : get_or a i 0 < get_or b i 0 = rw e at lt in ground (arith, here)
less_from_first (suc n) i (suc k) a b l same lt =
    let e0 : i + 0 ≡ i = omega arith in
    let e : i + suc k ≡ i + 1 + k = omega arith in
    let here : get_or a i 0 ≡ get_or b i 0 = rw e0 at (same 0 (omega arith)) in
    let later =
      less_from_first n (i + 1) k a b (omega arith)
        (λ j m. let ej : i + 1 + j ≡ i + suc j = omega arith in rw ej (same (suc j) (omega arith)))
        (rw e at lt) in
    ground (arith, here, later)

pub less_first :
    (k : ℕ) (a b : Bytes)
    → k < 20
    → ((j : ℕ) → j < k → get_or a j 0 ≡ get_or b j 0)
    → get_or a k 0 < get_or b k 0
    → less a b ≡ true
unfolding less
less_first k a b l same lt =
    let e : 0 + k ≡ k = omega arith in
    less_from_first 20 0 k a b l (λ j m. let ej : 0 + j ≡ j = omega arith in rw ej (same j m))
      (rw e lt)
