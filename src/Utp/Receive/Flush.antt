-- ===== src/Utp/Receive/Flush.antt =====
-- The loop that flushes the reorder buffer delivers a stretch of the stream.
use stor.Prelude.{
  ℕ, zero, suc, ◌+◌, ◌%◌, ◌≤◌, ◌<◌, ◌==◌, ◌∙◌, none, some, Bool-cases, [], ◌∷◌, ◌++◌, List, length,
  ◌≡◌, refl, arith, sym, inl, inr, Option-cases,
}
use stor.Prelude.Words.{Bytes}
use stor.Utp.Seq.{seq_mod, seq_add}
use stor.Utp.Receive.Held.{
  AllHeld, lookup_seq-AllHeld, delete_seq-AllHeld, lookup_seq-none, length-delete_seq,
  lookup_seq-delete_seq, apart_seq,
}
use stor.Utp.Receive.{Buffer, lookup_seq, delete_seq, chunk, Flushed, flush}

-- The payloads of the packets `i`, `i + 1`, …: `n` packets, the empty ones left out.
abbrev pub stream : (ℕ → Bytes) → ℕ → ℕ → List Bytes
stream f i zero = []
stream f i (suc n) = chunk (f i) ++ stream f (i + 1) n

module _ (start : ℕ) (f : ℕ → Bytes) where
  -- The flush from packet `lo` on: it delivers `count` packets, which were held,
  -- while the one behind them was not, and it keeps the entries of all later ones.
  pub record Flushes (lo hi : ℕ) (b : Buffer) (r : Flushed) : Type 0 where
    pub count : ℕ
    pub ends : lo + count ≤ hi
    pub next_is : r.next ≡ (start + (lo + count)) % seq_mod
    pub held : AllHeld start f (lo + count + 1) hi r.left
    pub out_is : r.out ≡ stream f lo count
    pub shrinks : length r.left ≤ length b
    pub was_held :
        (j : ℕ) → lo ≤ j → j < lo + count → lookup_seq ((start + j) % seq_mod) b ≡ some (f j)
    pub stops : lookup_seq ((start + (lo + count)) % seq_mod) b ≡ none
    pub kept :
        (j : ℕ)
        → lo + count < j
        → j < hi
        → lookup_seq ((start + j) % seq_mod) r.left ≡ lookup_seq ((start + j) % seq_mod) b

  Flushes-stop :
      (lo hi next : ℕ) (b : Buffer)
      → lo ≤ hi
      → next ≡ (start + lo) % seq_mod
      → AllHeld start f (lo + 1) hi b
      → lookup_seq ((start + lo) % seq_mod) b ≡ none
      → Flushes lo hi b (record { next = next; left = b; out = [] })
  Flushes-stop lo hi next b w q h miss =
      let e : lo + 0 ≡ lo = omega arith in
      record {
        count = 0;
        ends = omega arith;
        next_is = rw e q;
        held = rw e h;
        out_is = refl;
        shrinks = omega arith;
        was_held = λ j l u. absurd (omega arith);
        stops = rw e miss;
        kept = λ j l u. refl;
      }

  Flushes-more :
      (lo hi next : ℕ) (b : Buffer) (p : Bytes) (r : Flushed)
      → p ≡ f lo
      → hi ≤ lo + 32768
      → next ≡ (start + lo) % seq_mod
      → lookup_seq next b ≡ some p
      → length (delete_seq next b) ≤ length b
      → Flushes (lo + 1) hi (delete_seq next b) r
      → Flushes lo hi b (record r { out = chunk p ++ r.out })
  Flushes-more lo hi next b p r e w q hit l k =
      let same_at = λ (j : ℕ) (a : lo < j) (u : j ≤ hi).
        lookup_seq-delete_seq ((start + j) % seq_mod) next b
          (rw q (apart_seq start lo j a (omega arith))) in
      let m : lo + suc k.count ≡ lo + 1 + k.count = omega arith in
      record {
        count = suc k.count;
        ends = omega (arith, k.ends);
        next_is = rw m k.next_is;
        held = rw m k.held;
        out_is = rw (e, k.out_is);
        shrinks = omega (arith, l, k.shrinks);
        was_held = λ j a u. elim (Bool-cases (j == lo)) [
          | inl first ↦ let at_lo : j ≡ lo = ground (arith, first) in rw at_lo (rw (q, e) at hit)
          | inr past ↦
              let lt : lo < j = ground (arith, past, a) in
              sym (same_at j lt (omega (arith, k.ends, u)))
              ∙ k.was_held j (omega arith) (omega (arith, u))
        ];
        stops = rw m (sym (same_at (lo + 1 + k.count) (omega arith) k.ends) ∙ k.stops);
        kept = λ j a u. k.kept j (omega (arith, a)) u ∙ same_at j (omega (arith, a)) (omega arith);
      }

  pub flush-Flushes :
      (fuel lo hi next : ℕ) (b : Buffer)
      → length b ≤ fuel
      → lo ≤ hi
      → hi ≤ lo + 32768
      → next ≡ (start + lo) % seq_mod
      → AllHeld start f lo hi b
      → Flushes lo hi b (flush fuel next b)
  unfolding flush lookup_seq
  flush-Flushes zero lo hi next [] l o w q h = Flushes-stop lo hi next [] o q tt refl
  flush-Flushes zero lo hi next (e ∷ b) l o w q h = absurd (omega arith)
  flush-Flushes (suc fuel) lo hi next b l o w q h = elim (Option-cases (lookup_seq next b)) [
    | inl e ↦
        rw (e, flush)
          (Flushes-stop lo hi next b o q (lookup_seq-none start f lo hi b h (rw q at e))
            (rw q at e))
    | inr (p, e) ↦
        let shorter = length-delete_seq next b p e in
        let (is_lo, below) = lookup_seq-AllHeld start f lo hi b w h (rw q at e) in
        let later =
          flush-Flushes fuel (lo + 1) hi (seq_add next 1) (delete_seq next b) (omega arith)
            (omega arith) (omega arith) (omega arith)
            (rw (sym q) at (delete_seq-AllHeld start f lo hi b h)) in
        rw (e, flush) (Flushes-more lo hi next b p _ is_lo w q e (omega arith) later)
  ]
