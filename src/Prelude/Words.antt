-- ===== src/Prelude/Words.antt =====
-- Bytes and the big-endian words of `encoding/binary`.
use stor.Prelude.Lists.{get_or, All}
use Prim.Native.Nat.{ℕ, ◌+◌, ◌*◌, ◌/◌, ◌%◌, ◌^◌, ◌<◌}
use mathlib.Core.Path.{◌≡◌}
use mathlib.Core.List.{List, [], ◌∷◌}
use native.Mathlib.Omega.{arith}

-- A `[]byte`; that its entries are below 256 is a hypothesis where it is needed.
abbrev pub Bytes : Type 0
Bytes = List ℕ

abbrev pub IsBytes : Bytes → Type 0
IsBytes = All (λ b. b < 256)

-- `binary.BigEndian.PutUint16` and `PutUint32` of a value of that width.
abbrev pub put_uint16 : ℕ → Bytes
put_uint16 v = v / 256 % 256 ∷ v % 256 ∷ []

abbrev pub put_uint32 : ℕ → Bytes
put_uint32 v = v / 16777216 % 256 ∷ v / 65536 % 256 ∷ v / 256 % 256 ∷ v % 256 ∷ []

-- `binary.BigEndian.Uint16` and `Uint32` of the bytes from `i` on.
abbrev pub uint16_at : Bytes → ℕ → ℕ
uint16_at b i = get_or b i 0 * 256 + get_or b (i + 1) 0

abbrev pub uint32_at : Bytes → ℕ → ℕ
uint32_at b i =
    get_or b i 0 * 16777216
    + get_or b (i + 1) 0 * 65536
    + get_or b (i + 2) 0 * 256
    + get_or b (i + 3) 0

pub uint32-put_uint32 : (v : ℕ) → v < 2 ^ 32 → uint32_at (put_uint32 v) 0 ≡ v
uint32-put_uint32 v h = omega arith

pub uint16-put_uint16 : (v : ℕ) → v < 2 ^ 16 → uint16_at (put_uint16 v) 0 ≡ v
uint16-put_uint16 v h = omega arith
