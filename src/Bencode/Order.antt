-- ===== src/Bencode/Order.antt =====
-- The byte-wise order of Go strings, which sorts dictionary keys.
use stor.Prelude.{
  Bool, true, false, ◌==◌, ◌&&◌, ◌||◌, ltb, [], ◌∷◌, ◌≡◌, ◌⊎◌, inl, inr, refl, arith, ◌↔◌,
}
use stor.Prelude.Words.{Bytes}
use stor.Bencode.Value.{str_eq}

-- `s < t` on strings.
unfoldable pub str_lt : Bytes → Bytes → Bool
str_lt s [] = false
str_lt [] (b ∷ t) = true
str_lt (a ∷ s) (b ∷ t) = ltb a b || (a == b && str_lt s t)

pub str_eq_iff : (s t : Bytes) → (str_eq s t ≡ true) ↔ (s ≡ t)
str_eq_iff [] [] = ground arith
str_eq_iff [] (b ∷ t) = ground arith
str_eq_iff (a ∷ s) [] = ground arith
str_eq_iff (a ∷ s) (b ∷ t) = ground (arith, str_eq_iff s t)

pub str_lt_irrefl : (s : Bytes) → str_lt s s ≡ false
unfolding str_lt
str_lt_irrefl [] = refl
str_lt_irrefl (a ∷ s) = ground (arith, str_lt_irrefl s)

pub str_lt_trans : (s t u : Bytes) → str_lt s t ≡ true → str_lt t u ≡ true → str_lt s u ≡ true
unfolding str_lt
str_lt_trans s t [] p q = q
str_lt_trans s [] (c ∷ u) p q = ground arith
str_lt_trans [] (b ∷ t) (c ∷ u) p q = refl
str_lt_trans (a ∷ s) (b ∷ t) (c ∷ u) p q = ground (arith, str_lt_trans s t u)

pub str_lt_cases : (s t : Bytes) → str_lt s t ≡ false → (s ≡ t) ⊎ (str_lt t s ≡ true)
unfolding str_lt
str_lt_cases [] [] h = inl refl
str_lt_cases (a ∷ s) [] h = inr refl
str_lt_cases [] (b ∷ t) h = ground arith
str_lt_cases (a ∷ s) (b ∷ t) h = ground (arith, str_lt_cases s t)

pub str_lt_ne : (s t : Bytes) → str_lt s t ≡ true → str_eq s t ≡ false
unfolding str_lt
str_lt_ne s [] h = ground arith
str_lt_ne [] (b ∷ t) h = refl
str_lt_ne (a ∷ s) (b ∷ t) h = ground (arith, str_lt_ne s t)

pub str_eq-sym : (s t : Bytes) → str_eq s t ≡ str_eq t s
str_eq-sym [] [] = refl
str_eq-sym [] (b ∷ t) = refl
str_eq-sym (a ∷ s) [] = refl
str_eq-sym (a ∷ s) (b ∷ t) = ground (arith, str_eq-sym s t)
