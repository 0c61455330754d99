-- ===== src/Bencode/Decimal.antt =====
-- The decimal text that bencode takes from strconv: AppendInt, Atoi and ParseInt(s, 10, 64).
use stor.Prelude.{
  ℕ, zero, suc, ◌+◌, ◌-◌, ◌*◌, ◌/◌, ◌%◌, ◌≤◌, ◌<◌, Bool, true, if◌then◌else◌, ◌==◌, ◌&&◌, leb, [],
  ◌∷◌, ◌≡◌, refl, inl, inr, arith, Option, none, some, All, Bool-cases,
}
use stor.Prelude.Int.{ℤ, pos, negsuc}
use stor.Prelude.Words.{Bytes}

abbrev pub max_int64 : ℕ
max_int64 = 9223372036854775807

abbrev pub is_digit : ℕ → Bool
is_digit b = leb b'0' b && leb b b'9'

-- The digits of `n` in front of `out`. One unit of fuel is spent on each digit.
pub digits : ℕ → ℕ → Bytes → Bytes
digits zero n out = out
digits (suc f) n out =
    let out' = (b'0' + n % 10) ∷ out in
    let rest = digits f (n / 10) out' in if n / 10 == 0 then out' else rest

-- The text of a number that is not negative; `n + 1` digits are always enough.
unfoldable pub format_nat : ℕ → Bytes
unfolding digits
format_nat n = digits (suc n) n []

-- `strconv.AppendInt(nil, n, 10)`.
unfoldable pub format_int : ℤ → Bytes
unfolding format_nat
format_int (pos n) = format_nat n
format_int (negsuc n) = b'-' ∷ format_nat (suc n)

-- Digits after the number `n` read so far; `none` is a syntax error.
unfoldable pub read_digits : ℕ → Bytes → Option ℕ
read_digits n [] = some n
read_digits n (b ∷ s) = if is_digit b then read_digits (n * 10 + (b - b'0')) s else none

-- At least one digit.
unfoldable pub parse_nat : Bytes → Option ℕ
unfolding read_digits
parse_nat [] = none
parse_nat (b ∷ s) = read_digits 0 (b ∷ s)

abbrev pub in_range : ℕ → Option ℕ → Option ℕ
in_range limit none = none
in_range limit (some n) = if leb n limit then some n else none

abbrev to_pos : Option ℕ → Option ℤ
to_pos none = none
to_pos (some n) = some (pos n)

abbrev to_neg : Option ℕ → Option ℤ
to_neg none = none
to_neg (some zero) = some (pos 0)
to_neg (some (suc n)) = some (negsuc n)

-- `strconv.ParseInt(s, 10, 64)`, and `strconv.Atoi` where `int` has 64 bits.
unfoldable pub parse_int : Bytes → Option ℤ
unfolding parse_nat
parse_int [] = none
parse_int (b ∷ s) =
    if b == b'+'
    then to_pos (in_range max_int64 (parse_nat s))
    else if b == b'-'
    then to_neg (in_range (max_int64 + 1) (parse_nat s))
    else to_pos (in_range max_int64 (parse_nat (b ∷ s)))

abbrev pub InInt64 : ℤ → Type 0
InInt64 (pos n) = n ≤ max_int64
InInt64 (negsuc n) = n ≤ max_int64

abbrev pub IsDigits : Bytes → Type 0
IsDigits = All (λ b. is_digit b ≡ true)

read_digits-digits :
    (f n : ℕ) (out : Bytes) → n < f → read_digits 0 (digits f n out) ≡ read_digits n out
unfolding read_digits digits
read_digits-digits zero n out h = absurd (omega arith)
read_digits-digits (suc f) n out h =
    ground (arith, read_digits-digits f (n / 10) ((b'0' + n % 10) ∷ out))

digits-IsDigits : (f n : ℕ) (out : Bytes) → IsDigits out → IsDigits (digits f n out)
unfolding digits
digits-IsDigits zero n out h = h
digits-IsDigits (suc f) n out h = ground (arith, digits-IsDigits f (n / 10) ((b'0' + n % 10) ∷ out))

pub format_nat-IsDigits : (n : ℕ) → IsDigits (format_nat n)
unfolding format_nat
format_nat-IsDigits n = digits-IsDigits (suc n) n [] tt

-- The text begins with a digit, which is `0` only in the text of 0.
digits_head :
    (f n : ℕ) (out : Bytes)
    → n < f
    → (b : ℕ) × (s : Bytes) × (digits f n out ≡ b ∷ s)
      × (b'0' ≤ b)
      × (b ≤ b'9')
      × (b ≡ b'0' → (n ≡ 0) × (s ≡ out))
unfolding digits
digits_head zero n out h = absurd (omega arith)
digits_head (suc f) n out h = elim (Bool-cases (n / 10 == 0)) [
  | inl last ↦ (b'0' + n % 10, out, rw last, omega arith, omega arith, ground arith)
  | inr more ↦
      let (b, s, e, lo, hi, z) = digits_head f (n / 10) ((b'0' + n % 10) ∷ out) (ground arith) in
      (b, s, rw more e, lo, hi, λ p. ground (arith, z p))
]

pub format_nat_head :
    (n : ℕ)
    → (b : ℕ) × (s : Bytes) × (format_nat n ≡ b ∷ s)
      × (b'0' ≤ b)
      × (b ≤ b'9')
      × (b ≡ b'0' → (n ≡ 0) × (s ≡ []))
unfolding format_nat
format_nat_head n = digits_head (suc n) n [] (omega arith)

read_digits-format_nat : (n : ℕ) → read_digits 0 (format_nat n) ≡ some n
unfolding format_nat read_digits
read_digits-format_nat n = read_digits-digits (suc n) n [] (omega arith)

pub format_int-pos : (n : ℕ) → format_int (pos n) ≡ format_nat n
unfolding format_int
format_int-pos n = refl

pub format_int-negsuc : (n : ℕ) → format_int (negsuc n) ≡ b'-' ∷ format_nat (suc n)
unfolding format_int
format_int-negsuc n = refl

pub parse_nat-format_nat : (n : ℕ) → parse_nat (format_nat n) ≡ some n
unfolding parse_nat
parse_nat-format_nat n =
    let (b, s, e, lo, hi, z) = format_nat_head n in rw e (rw e at (read_digits-format_nat n))

-- strconv reads back what it has written.
pub parse_int-format_int : (z : ℤ) → InInt64 z → parse_int (format_int z) ≡ some z
unfolding parse_int format_int
parse_int-format_int (pos n) h =
    let (b, s, e, lo, hi, z) = format_nat_head n in
    rw e (ground (arith, (rw e at (parse_nat-format_nat n))))
parse_int-format_int (negsuc n) h = ground (arith, parse_nat-format_nat (suc n))

-- ParseInt never returns a number outside int64.
pub parse_int-InInt64 : (s : Bytes) (z : ℤ) → parse_int s ≡ some z → InInt64 z
unfolding parse_int
parse_int-InInt64 [] z h = cc
parse_int-InInt64 (b ∷ s) (pos n) h = ground arith
parse_int-InInt64 (b ∷ s) (negsuc n) h = ground arith
