-- ===== src/Utp/Seq.antt =====
-- utp/conn.go: the order of 16-bit sequence numbers.
use stor.Prelude.{ℕ, ◌+◌, ◌-◌, ◌%◌, ◌≤◌, ◌<◌, Bool, not, ◌&&◌, ltb, ◌≡◌, arith}

abbrev pub seq_mod : ℕ
seq_mod = 65536

-- `uint16` arithmetic.
abbrev pub seq_add : ℕ → ℕ → ℕ
seq_add a b = (a + b) % seq_mod

abbrev pub seq_sub : ℕ → ℕ → ℕ
seq_sub a b = (a + seq_mod - b) % seq_mod

-- `int16(a-b) > 0`.
unfoldable pub wrapping_gt : ℕ → ℕ → Bool
wrapping_gt a b = ltb 0 (seq_sub a b) && ltb (seq_sub a b) 32768

unfoldable pub wrapping_leq : ℕ → ℕ → Bool
unfolding wrapping_gt
wrapping_leq a b = not (wrapping_gt a b)

-- On the numbers of packets less than half the circle apart, the wrapping order is the order of
-- the packets themselves, whatever number the stream began with.
pub wrapping_gt_lem :
    (start j k : ℕ)
    → j ≤ k + 32768
    → k < j + 32768
    → wrapping_gt ((start + k) % seq_mod) ((start + j) % seq_mod) ≡ ltb j k
unfolding wrapping_gt
wrapping_gt_lem start j k h g = ground arith
