-- ===== src/Peer/Bitfield.antt =====
-- peer/message.go: Bitfield, HasPiece and SetPiece. Piece 0 is the highest bit of byte 0.
use Prim.Native.Nat.{bit_or}
use stor.Prelude.{
  ℕ, zero, suc, ◌+◌, ◌-◌, ◌*◌, ◌/◌, ◌%◌, ◌^◌, ◌<◌, Bool, true, false, not, if◌then◌else◌, ◌==◌,
  ◌&&◌, ltb, leb, [], ◌∷◌, ◌≡◌, ◌≢◌, refl, arith, length, get_or, set, length-set, inl, inr,
  get_or-set_self, get_or-set_ne, all_below, all_below_sound, ==_iff, Bool-cases,
}
use stor.Prelude.Int.{ℤ, pos, negsuc}
use stor.Prelude.Words.{Bytes, IsBytes}

-- `b>>(7-offset)&1 != 0` for a byte `b`.
unfoldable pub test_bit : ℕ → ℕ → Bool
test_bit b offset = b / 2 ^ (7 - offset) % 2 == 1

-- The body of HasPiece for an index that is not negative.
unfoldable pub has_bit : Bytes → ℕ → Bool
has_bit bf index =
    if leb (length bf) (index / 8) then false else test_bit (get_or bf (index / 8) 0) (index % 8)

unfoldable pub has_piece : Bytes → ℤ → Bool
unfolding has_bit
has_piece bf (negsuc n) = false
has_piece bf (pos index) = has_bit bf index

-- `b | 1<<(7-offset)`.
unfoldable pub or_bit : ℕ → ℕ → ℕ
or_bit b offset = bit_or b (2 ^ (7 - offset))

unfoldable pub set_bit : Bytes → ℕ → Bytes × Bool
set_bit bf index =
    if leb (length bf) (index / 8)
    then (bf, false)
    else (set bf (index / 8) (or_bit (get_or bf (index / 8) 0) (index % 8)), true)

-- SetPiece writes the slice in place: the new slice, and what the call returns.
unfoldable pub set_piece : Bytes → ℤ → Bytes × Bool
unfolding set_bit
set_piece bf (negsuc n) = (bf, false)
set_piece bf (pos index) = set_bit bf index

abbrev same : Bool → Bool → Bool
same true b = b
same false b = not b

same→eq : (a b : Bool) → same a b ≡ true → a ≡ b
same→eq a b h = ground arith

-- Every byte, bit to set and bit to read, as one number below 2 ^ 14.
abbrev or_bit_check : ℕ → ℕ → ℕ → Bool
or_bit_check b i j =
    ltb (or_bit b i) 256 && same (test_bit (or_bit b i) j) (if i == j then true else test_bit b j)

or_bit_table : all_below 16384 (λ x. or_bit_check (x / 64) (x / 8 % 8) (x % 8)) ≡ true
unfolding all_below or_bit test_bit
or_bit_table = refl

or_bit_checked : (b i j : ℕ) → b < 256 → i < 8 → j < 8 → or_bit_check b i j ≡ true
or_bit_checked b i j hb hi hj =
    let x = b * 64 + i * 8 + j in
    let eb : x / 64 ≡ b = omega arith in
    let ei : x / 8 % 8 ≡ i = omega arith in
    let ej : x % 8 ≡ j = omega arith in
    rw (eb, ei, ej) at
      (all_below_sound 16384 (λ x. or_bit_check (x / 64) (x / 8 % 8) (x % 8)) x or_bit_table
        (omega arith))

pub or_bit-lt : (b i : ℕ) → b < 256 → i < 8 → or_bit b i < 256
or_bit-lt b i hb hi = ground (arith, or_bit_checked b i 0 hb hi (omega arith))

pub test_bit-or_bit :
    (b i j : ℕ)
    → b < 256
    → i < 8
    → j < 8
    → test_bit (or_bit b i) j ≡ (if i == j then true else test_bit b j)
test_bit-or_bit b i j hb hi hj = same→eq _ _ (ground (arith, or_bit_checked b i j hb hi hj))

pub get_or-lt : (bf : Bytes) (i : ℕ) → IsBytes bf → get_or bf i 0 < 256
get_or-lt [] i h = omega arith
get_or-lt (b ∷ bf) zero h = h.0
get_or-lt (b ∷ bf) (suc i) h = get_or-lt bf i h.1

set-IsBytes : (bf : Bytes) (i b : ℕ) → b < 256 → IsBytes bf → IsBytes (set bf i b)
set-IsBytes [] i b h k = tt
set-IsBytes (c ∷ bf) zero b h k = (h, k.1)
set-IsBytes (c ∷ bf) (suc i) b h k = (k.0, set-IsBytes bf i b h k.1)

set_bit-inside :
    (bf : Bytes) (i : ℕ)
    → i / 8 < length bf
    → set_bit bf i ≡ (set bf (i / 8) (or_bit (get_or bf (i / 8) 0) (i % 8)), true)
unfolding set_bit
set_bit-inside bf i lt = ground arith

-- The bit that is read back, in the byte that was written and in any other.
pub has_bit-set_bit :
    (bf : Bytes) (i j : ℕ)
    → IsBytes bf
    → i / 8 < length bf
    → has_bit (set_bit bf i).0 j ≡ (if i == j then true else has_bit bf j)
unfolding has_bit
has_bit-set_bit bf i j h lt =
    let old = get_or bf (i / 8) 0 in
    let new = or_bit old (i % 8) in
    rw (set_bit-inside bf i lt) (elim (Bool-cases (i / 8 == j / 8)) [
      | inl here ↦
          let e : i / 8 ≡ j / 8 = (==_iff _ _).0 here in
          ground (
            arith,
            length-set bf (i / 8) new,
            e,
            get_or-set_self bf (i / 8) new 0 lt,
            test_bit-or_bit old (i % 8) (j % 8) (get_or-lt bf (i / 8) h) (omega arith)
                (omega arith),
          )
      | inr apart ↦
          let ne : i / 8 ≢ j / 8 = ground arith in
          ground (arith, length-set bf (i / 8) new, ne, get_or-set_ne bf (i / 8) (j / 8) new 0 ne)
    ])

pub set_piece_lem :
    (bf : Bytes) (i : ℕ)
    → IsBytes bf
    → (length (set_piece bf (pos i)).0 ≡ length bf)
      × IsBytes (set_piece bf (pos i)).0
      × ((set_piece bf (pos i)).1 ≡ ltb (i / 8) (length bf))
      × ((j : ℕ)
          → has_piece (set_piece bf (pos i)).0 (pos j)
            ≡ (if i == j && ltb (i / 8) (length bf) then true else has_piece bf (pos j)))
unfolding set_piece has_piece
set_piece_lem bf i h = elim (Bool-cases (ltb (i / 8) (length bf))) [
  | inl inside ↦
      let new = or_bit (get_or bf (i / 8) 0) (i % 8) in
      let lt : i / 8 < length bf = ground arith in
      let e = set_bit-inside bf i lt in
      (
        rw e (length-set bf (i / 8) new),
        rw e (set-IsBytes bf (i / 8) new (or_bit-lt _ _ (get_or-lt bf (i / 8) h) (omega arith)) h),
        rw (e, inside),
        λ j. ground (arith, has_bit-set_bit bf i j h lt, inside),
      )
  | inr outside ↦ (ground arith, ground arith, ground arith, λ j. ground arith)
]
