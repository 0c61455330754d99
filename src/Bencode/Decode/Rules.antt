-- ===== src/Bencode/Decode/Rules.antt =====
-- Postconditions on the results of the decoder: the run kept within its fuel, and `P` holds of the
-- value where there is one.
use stor.Prelude.{Bool, true, false, if◌then◌else◌, ◌≡◌, ◌≢◌, refl, subst}
use stor.Bencode.Decode.{Result, Error, ok, err, out_of_fuel, ◌>>=◌, ◌>>◌, guard}

pub data Ensures {ℓ κ} {A : Type ℓ} (P : A → Type κ) : Result A → Type (ℓ ⊔ κ) where
  holds : {a : A} → P a → Ensures P (ok a)
  failed : {e : Error} → Ensures P (err e)

module _ {ℓ κ} {A : Type ℓ} {P : A → Type κ} where
  pub Ensures-ok : {r : Result A} {a : A} → Ensures P r → r ≡ ok a → P a
  Ensures-ok (holds h) e = subst P (cc) h
  Ensures-ok failed e = cc

  pub Ensures-out_of_fuel : {r : Result A} → Ensures P r → r ≢ out_of_fuel
  Ensures-out_of_fuel (holds h) e = cc
  Ensures-out_of_fuel failed e = cc

  pub Ensures-if :
      {x y : Result A} (b : Bool)
      → (b ≡ true → Ensures P x)
      → (b ≡ false → Ensures P y)
      → Ensures P (if b then x else y)
  Ensures-if true h k = h refl
  Ensures-if false h k = k refl

  pub Ensures-guard :
      {k : Result A} (b : Bool) (e : Error) → (b ≡ true → Ensures P k) → Ensures P (guard b e >> k)
  Ensures-guard true e h = h refl
  Ensures-guard false e h = failed

pub Ensures-bind {ℓ κ μ ν} :
    {A : Type ℓ} {B : Type κ} {P : A → Type μ} {Q : B → Type ν} {m : Result A} {f : A → Result B}
    → Ensures P m
    → ((a : A) → P a → Ensures Q (f a))
    → Ensures Q (m >>= f)
Ensures-bind (holds {a} h) k = k a h
Ensures-bind failed k = failed

pub Ensures-mono {ℓ κ μ} :
    {A : Type ℓ} {P : A → Type κ} {Q : A → Type μ} {r : Result A}
    → ((a : A) → P a → Q a)
    → Ensures P r
    → Ensures Q r
Ensures-mono k (holds {a} h) = holds (k a h)
Ensures-mono k failed = failed
