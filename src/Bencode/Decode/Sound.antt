-- ===== src/Bencode/Decode/Sound.antt =====
-- What Decode returns: values within the limits, with ascending keys. The fuel always suffices.
use stor.Prelude.{
  ℕ, zero, suc, ◌+◌, ◌-◌, ◌*◌, ◌≤◌, ◌<◌, true, not, ◌==◌, ◌&&◌, ltb, leb, [], ◌∷◌, ◌≡◌, ◌≢◌, arith,
  length, length-take, length-drop, Option, none, some, inl, inr, Option-cases, get_or, ltb→lt,
  leb→le,
}
use stor.Prelude.Int.{ℤ, pos, negsuc}
use stor.Prelude.Words.{Bytes}
use stor.Bencode.Value.{
  Value, Items, Fields, end, field, items, items_items, items_fields, depth, depth_items,
  depth_fields, str_eq, len_items, len_fields, put, max_string_length, max_collection_size,
  max_decode_depth, max_total_items,
}
use stor.Bencode.Order.{str_lt}
use stor.Bencode.Decimal.{InInt64, parse_int, is_digit, parse_int-InInt64}
use stor.Bencode.Canonical.{
  Canonical, CanonicalItems, CanonicalFields, Ascending, UpTo, UpTo-mono, put-UpTo, put-Ascending,
  put-CanonicalFields, len_fields-put-le, items_fields-put-le, depth_fields-put,
}
use stor.Bencode.Decode.{
  ok, out_of_fuel, split_colon, take_string, decode_string, split_e, or_invalid, read_int,
  decode_int, decode_value, decode_list, decode_dict, decode, decode_bytes,
}
use stor.Bencode.Decode.Rules.{
  Ensures, holds, failed, Ensures-ok, Ensures-out_of_fuel, Ensures-if, Ensures-guard, Ensures-bind,
  Ensures-mono,
}

split_colon-Ensures : (ts : Bytes) → Ensures (λ r. length r.1 < length ts) (split_colon ts)
unfolding split_colon
split_colon-Ensures [] = failed
split_colon-Ensures (b ∷ s) =
    Ensures-if (b == b':') (λ _. holds (omega arith))
      λ _.
        Ensures-if (not (is_digit b)) (λ _. failed)
          λ _. Ensures-bind (split_colon-Ensures s) λ (ds, rest) h. holds (omega arith)

take_string-Ensures :
    (n : Option ℤ) (s : Bytes)
    → Ensures (λ r. (length r.0 ≤ max_string_length) × (length r.1 ≤ length s)) (take_string n s)
unfolding take_string
take_string-Ensures none s = failed
take_string-Ensures (some (negsuc n)) s = failed
take_string-Ensures (some (pos n)) s = Ensures-guard (leb n max_string_length) _ λ small.
    Ensures-guard (leb n (length s)) _
      λ here. holds (ground (arith, length-take n s), omega (arith, length-drop n s))

decode_string-Ensures :
    (ts : Bytes)
    → Ensures (λ r. (length r.0 ≤ max_string_length) × (length r.1 < length ts)) (decode_string ts)
unfolding decode_string
decode_string-Ensures ts =
    Ensures-bind (split_colon-Ensures ts)
      λ (ds, s) h. Ensures-mono (λ r g. (g.0, omega arith)) (take_string-Ensures (parse_int ds) s)

split_e-Ensures : (ts : Bytes) → Ensures (λ r. length r.1 < length ts) (split_e ts)
unfolding split_e
split_e-Ensures [] = failed
split_e-Ensures (b ∷ s) =
    Ensures-if (b == b'e') (λ _. holds (omega arith))
      λ _. Ensures-bind (split_e-Ensures s) λ (ds, rest) h. holds (omega arith)

or_invalid-Ensures : (num : Bytes) → Ensures InInt64 (or_invalid (parse_int num))
unfolding or_invalid
or_invalid-Ensures num = elim (Option-cases (parse_int num)) [
  | inl e ↦ rw e failed
  | inr (z, e) ↦ rw e (holds (parse_int-InInt64 num z e))
]

read_int-Ensures : (num : Bytes) → Ensures InInt64 (read_int num)
unfolding read_int
read_int-Ensures num = Ensures-guard (not (str_eq num [])) _ λ _.
    Ensures-guard (not (ltb 1 (length num) && get_or num 0 0 == b'0')) _ λ _.
      Ensures-guard (not (str_eq num (b'-' ∷ b'0' ∷ []))) _ λ _.
        Ensures-guard
          (not (ltb 2 (length num) && (get_or num 0 0 == b'-' && get_or num 1 0 == b'0'))) _
          λ _. or_invalid-Ensures num

decode_int-Ensures :
    (s : Bytes) → Ensures (λ r. InInt64 r.0 × (length r.1 < length s)) (decode_int s)
unfolding decode_int
decode_int-Ensures s =
    Ensures-bind (split_e-Ensures s)
      λ (num, rest) h. Ensures-bind (read_int-Ensures num) λ n g. holds (g, h)

-- What is known of a value read at depth `deep` from `ts`, when `total` items were read before it.
abbrev ReadsValue : ℕ → ℕ → Bytes → Value × Bytes × ℕ → Type 0
ReadsValue deep total ts (v, rest, total') =
    (length rest < length ts)
    × Canonical v
    × (deep + depth v ≤ max_decode_depth)
    × (total + items v ≤ total')
    × (total' ≤ max_total_items)

abbrev ReadsItems : ℕ → ℕ → ℕ → Bytes → Items × Bytes × ℕ → Type 0
ReadsItems deep total n ts (xs, rest, total') =
    (length rest < length ts)
    × CanonicalItems xs
    × (deep + depth_items xs ≤ max_decode_depth)
    × (total + items_items xs ≤ total')
    × (total' ≤ max_total_items)
    × (n + len_items xs ≤ max_collection_size)

-- A dictionary that the loop may stand at.
record IsDict (deep : ℕ) (prev : Bytes) (fs : Fields) : Type 0 where
  keys : CanonicalFields fs
  order : Ascending fs
  below : UpTo prev fs
  deep_enough : deep + depth_fields fs ≤ max_decode_depth
  small : len_fields fs ≤ max_collection_size

abbrev ReadsDict : ℕ → ℕ → Fields → Bytes → Fields × Bytes × ℕ → Type 0
ReadsDict deep total gs ts (fs, rest, total') =
    (length rest < length ts)
    × ((prev : Bytes) × IsDict deep prev fs)
    × (total + items_fields fs ≤ total' + items_fields gs)
    × (total' ≤ max_total_items)

-- `len(dict) > 0 && key < prevKey` fails: no key of the dictionary is above the new one.
in_order-UpTo :
    (prev key : Bytes) (fs : Fields)
    → not (ltb 0 (len_fields fs) && str_lt key prev) ≡ true
    → UpTo prev fs
    → UpTo key fs
in_order-UpTo prev key end h u = tt
in_order-UpTo prev key (field j v fs) h u = UpTo-mono prev key (field j v fs) (ground arith) u

put-IsDict :
    (deep : ℕ) (prev key : Bytes) (v : Value) (fs : Fields)
    → length key ≤ max_string_length
    → not (ltb 0 (len_fields fs) && str_lt key prev) ≡ true
    → len_fields fs < max_collection_size
    → Canonical v
    → deep + suc (depth v) ≤ max_decode_depth
    → IsDict deep prev fs
    → IsDict deep key (put key v fs)
put-IsDict deep prev key v fs small_key ordered room c h d =
    let up = in_order-UpTo prev key fs ordered d.below in
    record {
      keys = put-CanonicalFields key v fs small_key c d.keys;
      order = put-Ascending key v fs up d.order;
      below = put-UpTo key v fs up;
      deep_enough = omega (
        arith,
        depth_fields-put (max_decode_depth - deep) key v fs (omega arith)
            (let k = d.deep_enough in omega arith),
        d.deep_enough,
      );
      small = omega (arith, len_fields-put-le key v fs);
    }

empty-IsDict : (deep : ℕ) → leb deep max_decode_depth ≡ true → IsDict deep [] end
unfolding Canonical depth
empty-IsDict deep h = record {
  keys = tt;
  order = tt;
  below = tt;
  deep_enough = ground arith;
  small = omega arith;
}

-- One induction on the fuel: each call leaves less of the input than it was given.
mutual
  unfolding decode_value depth items Canonical

  decode_value-Ensures :
      (f deep total : ℕ) (ts : Bytes)
      → 2 * length ts < f
      → total ≤ max_total_items
      → Ensures (ReadsValue deep total ts) (decode_value f deep total ts)
  decode_value-Ensures zero deep total ts h t = absurd (omega arith)
  decode_value-Ensures (suc f) deep total [] h t = failed
  decode_value-Ensures (suc f) deep total (b ∷ s) h t =
      Ensures-guard (leb deep max_decode_depth) _ λ d.
        Ensures-if (b == b'i')
          (λ _.
            Ensures-bind (decode_int-Ensures s)
              λ (n, rest) g. holds (omega arith, g.0, ground arith, omega arith, t))
          λ _.
            Ensures-if (b == b'l')
              (λ _.
                Ensures-bind (decode_list-Ensures f deep total 0 s (omega arith) t (ground arith))
                  λ (xs, rest, total') g.
                    holds (omega arith, (omega (arith, g.5), g.1), g.2, g.3, g.4))
              λ _.
                Ensures-if (b == b'd')
                  (λ _.
                    Ensures-bind
                      (decode_dict-Ensures f deep total end [] s (omega arith) t
                        (empty-IsDict deep d))
                      λ (fs, rest, total') (g, (prev, i), n, m).
                        holds
                          (omega arith, (i.small, i.order, i.keys), i.deep_enough, omega arith, m))
                  λ _.
                    Ensures-if (is_digit b)
                      (λ _.
                        Ensures-bind (decode_string-Ensures (b ∷ s))
                          λ (k, rest) g. holds (g.1, g.0, ground arith, omega arith, t))
                      λ _. failed

  decode_list-Ensures :
      (f deep total n : ℕ) (ts : Bytes)
      → 2 * length ts + 1 < f
      → total ≤ max_total_items
      → (n ≤ max_collection_size) × (deep ≤ max_decode_depth)
      → Ensures (ReadsItems deep total n ts) (decode_list f deep total n ts)
  decode_list-Ensures zero deep total n ts h t r = absurd (omega arith)
  decode_list-Ensures (suc f) deep total n [] h t r = failed
  decode_list-Ensures (suc f) deep total n (b ∷ s) h t r =
      Ensures-if (b == b'e')
        (λ _. holds (omega arith, tt, omega arith, omega arith, t, omega arith))
        λ _. Ensures-guard (ltb n max_collection_size) _ λ room.
          Ensures-guard (leb (total + 1) max_total_items) _ λ more.
            Ensures-bind
              (decode_value-Ensures f (deep + 1) (total + 1) (b ∷ s) (omega arith)
                (leb→le _ _ more))
              λ (v, rest, total₁) (g, c, dv, iv, m).
                Ensures-bind
                  (decode_list-Ensures f deep total₁ (n + 1) rest (omega arith) m (ground arith))
                  λ (xs, rest', total₂) (g', c', dx, ix, m', sz).
                    holds (omega arith, (c, c'), omega arith, omega arith, m', omega arith)

  decode_dict-Ensures :
      (f deep total : ℕ) (gs : Fields) (prev ts : Bytes)
      → 2 * length ts + 1 < f
      → total ≤ max_total_items
      → IsDict deep prev gs
      → Ensures (ReadsDict deep total gs ts) (decode_dict f deep total gs prev ts)
  decode_dict-Ensures zero deep total gs prev ts h t d = absurd (omega arith)
  decode_dict-Ensures (suc f) deep total gs prev [] h t d = failed
  decode_dict-Ensures (suc f) deep total gs prev (b ∷ s) h t d =
      Ensures-if (b == b'e') (λ _. holds (omega arith, (prev, d), omega arith, t))
        λ _. Ensures-guard (ltb (len_fields gs) max_collection_size) _ λ room.
          Ensures-guard (leb (total + 1) max_total_items) _ λ more.
            Ensures-guard (is_digit b) _ λ _.
              Ensures-bind (decode_string-Ensures (b ∷ s)) λ (key, rest) k.
                Ensures-guard (not (ltb 0 (len_fields gs) && str_lt key prev)) _ λ ordered.
                  Ensures-guard (ltb 0 (length rest)) _ λ _.
                    Ensures-bind
                      (decode_value-Ensures f (deep + 1) (total + 1) rest (omega arith)
                        (leb→le _ _ more))
                      λ (v, rest', total') (g, c, dv, iv, m).
                        Ensures-mono
                          (λ (fs, rest, total₂) (g', i, n, m').
                            (omega arith, i, omega (arith, items_fields-put-le key v gs), m'))
                          (decode_dict-Ensures f deep total' (put key v gs) key rest' (omega arith)
                            m
                            (put-IsDict deep prev key v gs k.0 ordered (ltb→lt _ _ room) c
                              (omega arith) d))

abbrev pub WithinLimits : Value → Type 0
WithinLimits v = Canonical v × (depth v ≤ max_decode_depth) × (items v ≤ max_total_items)

decode-Ensures : (ts : Bytes) → Ensures WithinLimits (decode ts)
unfolding decode
decode-Ensures ts =
    Ensures-bind (decode_value-Ensures (2 * length ts + 1) 0 0 ts (omega arith) (omega arith))
      λ (v, rest, total) (g, c, d, i, m). holds (c, omega arith, omega arith)

-- Decode terminates on every input: the fuel that it is given is never used up.
pub decode-ne-out_of_fuel : (ts : Bytes) → decode ts ≢ out_of_fuel
decode-ne-out_of_fuel ts = Ensures-out_of_fuel (decode-Ensures ts)

-- Whatever Decode returns has all its strings and collections within their limits, integers of 64
-- bits, strictly ascending dictionary keys, at most 100 levels and at most two million items.
pub decode-WithinLimits : (ts : Bytes) (v : Value) → decode ts ≡ ok v → WithinLimits v
decode-WithinLimits ts v = Ensures-ok (decode-Ensures ts)

-- DecodeBytes consumes at least one byte and no more than it was given.
pub decode_bytes_bounds :
    (ts : Bytes) (v : Value) (n : ℕ)
    → decode_bytes ts ≡ ok (v, n)
    → WithinLimits v × (1 ≤ n) × (n ≤ length ts)
unfolding decode_bytes
decode_bytes_bounds ts v n = Ensures-ok {P = λ (w, m). WithinLimits w × (1 ≤ m) × (m ≤ length ts)} (
    Ensures-bind (decode_value-Ensures (2 * length ts + 1) 0 0 ts (omega arith) (omega arith))
      λ (v, rest, total) (g, c, d, i, m).
        holds ((c, omega arith, omega arith), omega arith, omega arith))
