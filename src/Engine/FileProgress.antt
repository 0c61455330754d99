-- ===== src/Engine/FileProgress.antt =====
-- engine/file_progress.go: how much of a file its complete pieces cover. Offsets and lengths are
-- numbers, whose sums are taken to stay below 2^63; `stop` is the source's `lastPiece + 1`.
use native.Mathlib.Nat.{
  div-eq_of_lt-le, div-mul-le_self, lt-div-mul-add, le-div_iff_mul-le, div-lt_iff_lt-mul,
}
use stor.Prelude.{
  ℕ, zero, suc, ◌+◌, ◌-◌, ◌*◌, ◌/◌, ◌≤◌, ◌<◌, Bool, false, if◌then◌else◌, ◌==◌, ◌||◌, ltb, leb,
  Option, none, some, ◌≡◌, refl, arith, min, max, subst, ◌⊎◌, ◌∙◌, Bool-cases, inl, inr,
}
use stor.Prelude.Int.{pos}
use stor.Prelude.Words.{Bytes}
use stor.Peer.Bitfield.{has_piece}

-- What piece `i` adds: `finish - start` where that is positive.
unfoldable pub covered : ℕ → ℕ → ℕ → ℕ → ℕ → ℕ
covered offset end piece_length total_bytes i =
    let start = max (i * piece_length) offset in
    let finish = min (min (i * piece_length + piece_length) total_bytes) end in
    if ltb start finish then finish - start else 0

-- The loop from piece `i` on, with the rounds left.
unfoldable pub add_pieces : (ℕ → Bool) → (ℕ → ℕ) → ℕ → ℕ → ℕ → ℕ
add_pieces has size zero i downloaded = downloaded
add_pieces has size (suc n) i downloaded =
    add_pieces has size n (i + 1) (if has i then downloaded + size i else downloaded)

unfoldable pub compute_file_downloaded : Option Bytes → ℕ → ℕ → ℕ → ℕ → ℕ → ℕ
unfolding covered add_pieces
compute_file_downloaded none offset length piece_length total_bytes num_pieces = 0
compute_file_downloaded (some bf) offset length piece_length total_bytes num_pieces =
    let end = offset + length in
    let first_piece = offset / piece_length in
    let stop = min ((end - 1) / piece_length + 1) num_pieces in
    if length == 0 || piece_length == 0
    then 0
    else add_pieces (λ i. has_piece bf (pos i)) (covered offset end piece_length total_bytes)
        (stop - first_piece) first_piece 0

-- The bytes from `lo` on, `n` of them, that lie in a piece that is complete.
unfoldable pub count_bytes : (ℕ → Bool) → ℕ → ℕ → ℕ → ℕ
count_bytes has piece_length zero lo = 0
count_bytes has piece_length (suc n) lo =
    (if has (lo / piece_length) then 1 else 0) + count_bytes has piece_length n (lo + 1)

count_bytes-add :
    (has : ℕ → Bool) (pl m n lo : ℕ)
    → count_bytes has pl (m + n) lo ≡ count_bytes has pl m lo + count_bytes has pl n (lo + m)
unfolding count_bytes
count_bytes-add has pl zero n lo =
    let e : 0 + n ≡ n = omega arith in let f : lo + 0 ≡ lo = omega arith in rw (e, f) (omega arith)
count_bytes-add has pl (suc m) n lo =
    let e : suc m + n ≡ suc (m + n) = omega arith in
    let f : lo + suc m ≡ lo + 1 + m = omega arith in
    rw (e, f) (omega (arith, count_bytes-add has pl m n (lo + 1)))

piece_of : (pl i b : ℕ) → 0 < pl → i * pl ≤ b → b < i * pl + pl → b / pl ≡ i
piece_of pl i b z l u =
    let e : (i + 1) * pl ≡ i * pl + pl = omega arith in div-eq_of_lt-le pl l (rw e u)

count_bytes-piece :
    (has : ℕ → Bool) (pl i n lo : ℕ)
    → 0 < pl
    → i * pl ≤ lo
    → lo + n ≤ i * pl + pl
    → count_bytes has pl n lo ≡ (if has i then n else 0)
unfolding count_bytes
count_bytes-piece has pl i zero lo z l u = ground arith
count_bytes-piece has pl i (suc n) lo z l u =
    rw (piece_of pl i lo z l (omega arith))
      (ground (arith, count_bytes-piece has pl i n (lo + 1) z (omega arith) (omega arith)))

-- Where nothing is counted the position does not matter.
count_at :
    (has : ℕ → Bool) (pl n lo lo' : ℕ)
    → (n ≡ 0) ⊎ (lo ≡ lo')
    → count_bytes has pl n lo ≡ count_bytes has pl n lo'
unfolding count_bytes
count_at has pl n lo lo' (inl e) = rw e refl
count_at has pl n lo lo' (inr e) = rw e refl

-- What piece `i` adds is what the count finds between `p` and the end of the piece or file.
covered-count :
    (has : ℕ → Bool) (offset end pl total i p : ℕ)
    → 0 < pl
    → end ≤ total
    → p ≡ max (i * pl) offset
    → offset ≤ i * pl + pl
    → count_bytes has pl (min (i * pl + pl) end - p) p
      ≡ (if has i then covered offset end pl total i else 0)
unfolding covered
covered-count has offset end pl total i p z t e o =
    let a = min (i * pl + pl) end - p in
    let c = count_bytes-piece has pl i a p z (omega arith) (omega arith) in ground (arith, c)

-- From piece `i` on, `n` pieces add what the count finds from `p` to their end.
add_pieces-count :
    (has : ℕ → Bool) (offset end pl total n i p d : ℕ)
    → 0 < pl
    → end ≤ total
    → p ≡ max (i * pl) offset
    → offset ≤ i * pl + pl
    → add_pieces has (covered offset end pl total) n i d
      ≡ d + count_bytes has pl (min (i * pl + n * pl) end - p) p
unfolding add_pieces count_bytes
add_pieces-count has offset end pl total zero i p d z t e o =
    let none_left : min (i * pl + 0 * pl) end - p ≡ 0 = omega arith in rw none_left (omega arith)
add_pieces-count has offset end pl total (suc n) i p d z t e o =
    let next : (i + 1) * pl ≡ i * pl + pl = omega arith in
    let more : suc n * pl ≡ pl + n * pl = omega arith in
    let q = i * pl + pl in
    let a = min q end - p in
    let b = min (q + n * pl) end - q in
    let size = covered offset end pl total in
    let added = if has i then d + size i else d in
    let ih =
      add_pieces-count has offset end pl total n (i + 1) q added z t (omega arith) (omega arith) in
    let here = covered-count has offset end pl total i p z t e o in
    let split : min (i * pl + suc n * pl) end - p ≡ a + b = omega arith in
    let same : count_bytes has pl b (p + a) ≡ count_bytes has pl b q =
      count_at has pl b (p + a) q (elim (Bool-cases (leb end q)) [
        | inl f ↦ inl (ground (arith, f))
        | inr f ↦ inr (ground (arith, f))
      ]) in
    rw (split, count_bytes-add has pl a b p, same, here)
      (ih ∙ elim (Bool-cases (has i)) [
        | inl h ↦ rw (next, h) (omega arith)
        | inr h ↦ rw (next, h) (omega arith)
      ])

-- The pieces of the loop reach to the end of the file.
loop_reach :
    (offset end pl num : ℕ)
    → 0 < pl
    → offset < end
    → end ≤ num * pl
    → (let first = offset / pl in
        let stop = min ((end - 1) / pl + 1) num in end ≤ first * pl + (stop - first) * pl)
loop_reach offset end pl num z l t =
    let first = offset / pl in
    let last = (end - 1) / pl in
    let stop = min (last + 1) num in
    let low : first * pl ≤ offset = div-mul-le_self offset pl in
    let high : end - 1 < last * pl + pl = lt-div-mul-add z in
    let in_last : first ≤ last = (le-div_iff_mul-le z).1 (omega arith) in
    let in_num : first < num = (div-lt_iff_lt-mul z).1 (omega arith) in
    let whole : first + (stop - first) ≡ stop = omega arith in
    let sum : (first + (stop - first)) * pl ≡ first * pl + (stop - first) * pl = omega arith in
    let top : end ≤ stop * pl = elim (Bool-cases (leb (last + 1) num)) [
      | inl e ↦
          let s : stop ≡ last + 1 = ground (arith, e) in
          let x : (last + 1) * pl ≡ last * pl + pl = omega arith in rw (s, x) (omega arith)
      | inr e ↦ let s : stop ≡ num = ground (arith, e) in rw s t
    ] in
    subst (λ x. end ≤ x) sum (rw whole top)

-- For a file of positive length within the torrent, whose pieces cover it, the result is the number
-- of the file's bytes that lie in complete pieces.
pub compute_file_downloaded_lem :
    (bf : Bytes) (offset len pl total num : ℕ)
    → 0 < len
    → 0 < pl
    → offset + len ≤ total
    → total ≤ num * pl
    → compute_file_downloaded (some bf) offset len pl total num
      ≡ count_bytes (λ i. has_piece bf (pos i)) pl len offset
unfolding compute_file_downloaded
compute_file_downloaded_lem bf offset len pl total num l z t c =
    let has : ℕ → Bool = λ i. has_piece bf (pos i) in
    let end = offset + len in
    let first = offset / pl in
    let stop = min ((end - 1) / pl + 1) num in
    let low : first * pl ≤ offset = div-mul-le_self offset pl in
    let high : offset < first * pl + pl = lt-div-mul-add z in
    let reach = loop_reach offset end pl num z (omega arith) (omega arith) in
    let count =
      add_pieces-count has offset end pl total (stop - first) first offset 0 z t (omega arith)
        (omega arith) in
    let all : min (first * pl + (stop - first) * pl) end - offset ≡ len = omega (arith, reach) in
    let test : (len == 0 || pl == 0) ≡ false = ground arith in
    rw test (count ∙ rw all (omega arith))
