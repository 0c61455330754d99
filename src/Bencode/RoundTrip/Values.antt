-- ===== src/Bencode/RoundTrip/Values.antt =====
-- Whole values: Decode reads back what Encode writes, also with other bytes behind it.
use stor.Prelude.{
  ℕ, zero, suc, ◌+◌, ◌*◌, ◌≤◌, ◌<◌, true, not, ◌&&◌, ltb, [], ◌∷◌, ◌++◌, ◌≡◌, refl, ◌∙◌, arith,
  length, length-append, append_assoc, append-nil, ap, some,
}
use stor.Prelude.Words.{Bytes}
use stor.Bencode.Value.{
  Value, Items, Fields, str, bytes, int64, int, list, dict, other, nil, cons, end, field, items,
  items_items, items_fields, depth, depth_items, depth_fields, len_items, len_fields, put,
  max_collection_size, max_decode_depth, max_total_items,
}
use stor.Bencode.Order.{str_lt, str_lt_ne, str_lt_trans}
use stor.Bencode.Canonical.{Canonical, CanonicalItems, CanonicalFields, Ascending, Follows}
use stor.Bencode.Decode.Sound.{WithinLimits, decode-WithinLimits}
use stor.Bencode.Decode.{Result, ok, decode_value, decode_list, decode_dict, decode, decode_bytes}
use stor.Bencode.Encode.{encode, encode_string}
use stor.Bencode.RoundTrip.Text.{
  text, text_items, text_fields, encode-text, text_head, encode_string_head, str_lt_asymm,
}
use stor.Bencode.RoundTrip.Rounds.{
  decode_value-encode_string, decode_value-encode_int, decode_value-list, decode_value-dict,
  decode_list_round, decode_dict_round, decode_list_end, decode_dict_end,
}

abbrev append_fields : Fields → Fields → Fields
append_fields end hs = hs
append_fields (field k v fs) hs = field k v (append_fields fs hs)

abbrev IsBelow : Bytes → Fields → Type 0
IsBelow k end = Unit
IsBelow k (field j v fs) = (str_lt j k ≡ true) × IsBelow k fs

IsBelow-mono : (j k : Bytes) (fs : Fields) → str_lt j k ≡ true → IsBelow j fs → IsBelow k fs
IsBelow-mono j k end h b = tt
IsBelow-mono j k (field i v fs) h b = (str_lt_trans i j k b.0 h, IsBelow-mono j k fs h b.1)

put_last :
    (k : Bytes) (v : Value) (fs : Fields)
    → IsBelow k fs
    → put k v fs ≡ append_fields fs (field k v end)
unfolding put
put_last k v end b = refl
put_last k v (field j w fs) b = rw (str_lt_ne j k b.0, put_last k v fs b.1)

append_fields_assoc :
    (fs gs hs : Fields)
    → append_fields (append_fields fs gs) hs ≡ append_fields fs (append_fields gs hs)
append_fields_assoc end gs hs = refl
append_fields_assoc (field k v fs) gs hs = ap (field k v) (append_fields_assoc fs gs hs)

len_fields-last :
    (fs : Fields) (k : Bytes) (v : Value)
    → len_fields (append_fields fs (field k v end)) ≡ suc (len_fields fs)
len_fields-last end k v = refl
len_fields-last (field j w fs) k v = ap suc (len_fields-last fs k v)

IsBelow-last :
    (j k : Bytes) (v : Value) (fs : Fields)
    → str_lt k j ≡ true
    → IsBelow k fs
    → IsBelow j (append_fields fs (field k v end))
IsBelow-last j k v end h b = (h, tt)
IsBelow-last j k v (field i w fs) h b = (str_lt_trans i k j b.0 h, IsBelow-last j k v fs h b.1)

-- The keys that are still to come stand above the keys read, the last of which is `prev`.
abbrev Starts : Bytes → Fields → Fields → Type 0
Starts prev gs end = Unit
Starts prev gs (field k v fs) = IsBelow k gs × (not (ltb 0 (len_fields gs) && str_lt k prev) ≡ true)

Starts-last :
    (k : Bytes) (v : Value) (gs fs : Fields)
    → Follows k fs
    → IsBelow k gs
    → Starts k (append_fields gs (field k v end)) fs
Starts-last k v gs end h b = tt
Starts-last k v gs (field j w fs) h b =
    (IsBelow-last j k v gs h b, ground (arith, str_lt_asymm k j h))

append-pos : (b : ℕ) (t s u : Bytes) → s ≡ b ∷ t → 0 < length (s ++ u)
append-pos b t s u e = rw e (omega arith)

append_fields-end : (fs : Fields) → append_fields fs end ≡ fs
append_fields-end end = refl
append_fields-end (field k v fs) = ap (field k v) (append_fields-end fs)

text_items-pos : (xs : Items) → CanonicalItems xs → 0 < length (text_items xs)
unfolding text Canonical
text_items-pos nil c = omega arith
text_items-pos (cons v xs) c =
    let (b, t, e, ne) = text_head v c.0 in append-pos b t (text v) (text_items xs) e

text_fields-pos : (fs : Fields) → 0 < length (text_fields fs)
unfolding text
text_fields-pos end = omega arith
text_fields-pos (field k v fs) =
    let (b, t, e, lo, hi) = encode_string_head k in
    append-pos b t (encode_string k) (text v ++ text_fields fs) e

starts : (fs : Fields) → Starts [] end fs
starts end = tt
starts (field k v fs) = (tt, refl)

abbrev answer {ℓ} : {A : Type ℓ} → A → Bytes → ℕ → Result (A × Bytes × ℕ)
answer a rest n = ok (a, rest, n)

same_total {ℓ} :
    {A : Type ℓ} (a : A) (rest : Bytes) (m n : ℕ) → m ≡ n → answer a rest m ≡ answer a rest n
same_total a rest m n e = rw e

-- One induction on the value; the rest of the input, the fuel, the depth and the count are free.
mutual
  unfolding text depth items Canonical

  decode_value-text_lem :
      (v : Value) (f deep total : ℕ) (rest : Bytes)
      → Canonical v
      → 2 * length (text v) < f
      → deep + depth v ≤ max_decode_depth
      → total + items v ≤ max_total_items
      → decode_value f deep total (text v ++ rest) ≡ ok (v, rest, total + items v)
  decode_value-text_lem v zero deep total rest c h d i = absurd (omega arith)
  decode_value-text_lem (str s) (suc f) deep total rest c h d i =
      decode_value-encode_string f deep total rest (omega arith) s c
      ∙ same_total (str s) rest total (total + 0) (omega arith)
  decode_value-text_lem (int64 n) (suc f) deep total rest c h d i =
      decode_value-encode_int f deep total rest (omega arith) n c
      ∙ same_total (int64 n) rest total (total + 0) (omega arith)
  decode_value-text_lem (list xs) (suc f) deep total rest c h d i =
      decode_value-list f deep total rest (omega arith) (text_items xs ++ rest) xs _
        (decode_list-text xs f deep total 0 rest c.1 (omega arith) d i (omega (arith, c.0)))
  decode_value-text_lem (dict fs) (suc f) deep total rest c h d i =
      decode_value-dict f deep total rest (omega arith) (text_fields fs ++ rest) fs _ (
        decode_dict-text fs f deep total end [] rest c.2 c.1 (starts fs) (omega arith) d i
          (omega (arith, c.0)))
  decode_value-text_lem (bytes s) (suc f) deep total rest c h d i = absurd c
  decode_value-text_lem (int n) (suc f) deep total rest c h d i = absurd c
  decode_value-text_lem other (suc f) deep total rest c h d i = absurd c

  decode_list-text :
      (xs : Items) (f deep total n : ℕ) (rest : Bytes)
      → CanonicalItems xs
      → 2 * length (text_items xs) < f
      → deep + depth_items xs ≤ max_decode_depth
      → total + items_items xs ≤ max_total_items
      → n + len_items xs ≤ max_collection_size
      → decode_list f deep total n (text_items xs ++ rest) ≡ ok (xs, rest, total + items_items xs)
  decode_list-text xs zero deep total n rest c h d i l = absurd (omega arith)
  decode_list-text nil (suc f) deep total n rest c h d i l =
      decode_list_end f deep total n rest ∙ same_total nil rest total (total + 0) (omega arith)
  decode_list-text (cons v xs) (suc f) deep total n rest c h d i l =
      let (b, t, e, ne) = text_head v c.0 in
      let sizes = length-append (text v) (text_items xs) in
      let first =
        decode_value-text_lem v f (deep + 1) (total + 1) (text_items xs ++ rest) c.0
          (omega (arith, sizes, text_items-pos xs c.1)) (omega arith) (omega arith) in
      let others =
        decode_list-text xs f deep (total + 1 + items v) (n + 1) rest c.1
          (omega (arith, sizes, ap length e)) (omega arith) (omega arith) (omega arith) in
      rw (append_assoc (text v) (text_items xs) rest) (
        rw e (
          decode_list_round f deep total n b (t ++ (text_items xs ++ rest)) (text_items xs ++ rest)
            rest v xs _ _ ne (omega arith) (omega arith) (rw e at first) others
          ∙ same_total (cons v xs) rest _ _ (omega arith)))

  decode_dict-text :
      (fs : Fields) (f deep total : ℕ) (gs : Fields) (prev rest : Bytes)
      → CanonicalFields fs
      → Ascending fs
      → Starts prev gs fs
      → 2 * length (text_fields fs) < f
      → deep + depth_fields fs ≤ max_decode_depth
      → total + items_fields fs ≤ max_total_items
      → len_fields gs + len_fields fs ≤ max_collection_size
      → decode_dict f deep total gs prev (text_fields fs ++ rest)
        ≡ ok (append_fields gs fs, rest, total + items_fields fs)
  decode_dict-text fs zero deep total gs prev rest c a s h d i l = absurd (omega arith)
  decode_dict-text end (suc f) deep total gs prev rest c a s h d i l =
      decode_dict_end f deep total gs prev rest
      ∙ rw (append_fields-end gs) (same_total gs rest total (total + 0) (omega arith))
  decode_dict-text (field k v fs) (suc f) deep total gs prev rest c a s h d i l =
      let (b, t, e, ne) = text_head v c.1 in
      let here = text v ++ text_fields fs in
      let sizes = length-append (text v) (text_fields fs) in
      let sizes' = length-append (encode_string k) here in
      let first =
        decode_value-text_lem v f (deep + 1) (total + 1) (text_fields fs ++ rest) c.1
          (omega (arith, sizes, sizes', text_fields-pos fs)) (omega arith) (omega arith) in
      let others =
        decode_dict-text fs f deep (total + 1 + items v) (append_fields gs (field k v end)) k rest
          c.2 a.1 (Starts-last k v gs fs a.0 s.0) (omega (arith, sizes, sizes', ap length e))
          (omega arith) (omega arith) (omega (arith, len_fields-last gs k v)) in
      rw (append_assoc (encode_string k) here rest, append_assoc (text v) (text_fields fs) rest)
        (decode_dict_round f deep total gs prev k (text v ++ (text_fields fs ++ rest))
            (text_fields fs ++ rest) v _ c.0 (omega arith) (omega arith) s.1
            (append-pos b t (text v) (text_fields fs ++ rest) e) first
          ∙ rw (put_last k v gs s.0) (
              others
              ∙ rw (append_fields_assoc gs (field k v end) fs)
                  (same_total (append_fields gs (field k v fs)) rest _ _ (omega arith))))

-- Every value within the limits has a text, which Encode writes; and with any bytes behind that
-- text DecodeBytes reads the value back and says how long the text was.
pub decode_bytes-encode :
    (v : Value) (rest : Bytes)
    → WithinLimits v
    → (ts : Bytes) × (encode v ≡ some ts) × (decode_bytes (ts ++ rest) ≡ ok (v, length ts))
unfolding decode_bytes
decode_bytes-encode v rest (c, d, i) =
    let sizes = length-append (text v) rest in
    (
      text v,
      encode-text v c,
      rw
          (decode_value-text_lem v (2 * length (text v ++ rest) + 1) 0 0 rest c
            (omega (arith, sizes)) (omega arith) (omega arith))
          (ap (λ n. ok (v, n)) (omega (arith, sizes))),
    )

-- What Decode accepts, it also accepts in the form that Encode writes, with the same value.
pub decode-encode-decode :
    (ts : Bytes) (v : Value)
    → decode ts ≡ ok v
    → (us : Bytes) × (encode v ≡ some us) × (decode us ≡ ok v)
unfolding decode
decode-encode-decode ts v h =
    let (c, d, i) = decode-WithinLimits ts v h in
    let reads =
      decode_value-text_lem v (2 * length (text v) + 1) 0 0 [] c (omega arith) (omega arith)
        (omega arith) in
    (text v, encode-text v c, rw (rw append-nil at reads))
