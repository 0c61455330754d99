-- ===== src/Utp/Receive/InOrder.antt =====
-- What a receiver delivers is the sender's stream: in order, without gaps and without duplicates.
use stor.Prelude.{
  ℕ, zero, suc, ◌+◌, ◌%◌, ◌≤◌, ◌<◌, Bool, true, false, ◌&&◌, ◌∙◌, Option, none, some, if◌then◌else◌,
  ◌==◌, ltb, [], ◌∷◌, ◌++◌, List, length, ◌≡◌, ◌≢◌, ◌↔◌, refl, arith, All, sym, inl, inr,
  append_assoc, Bool-cases, subst, ltb→lt,
}
use stor.Prelude.Words.{Bytes}
use stor.Utp.Seq.{seq_mod, seq_add, wrapping_gt, wrapping_gt_lem}
use stor.Utp.Receive.Held.{
  AllHeld, insert_seq-AllHeld, length-insert_seq, lookup_seq-insert_seq, lookup_seq-inserted,
  apart_seq,
}
use stor.Utp.Receive.Flush.{stream, flush-Flushes}
use stor.Utp.Receive.{
  Buffer, Receiver, reorder_buf_max, lookup_seq, insert_seq, chunk, advance, deliver_inited,
  deliver_in_order, set_first_expected,
}

inited_if : (b : Bool) (r q : Receiver) → b ≡ true → (if b then r else q) ≡ r
inited_if b r q h = rw h

module _ (start : ℕ) (f : ℕ → Bytes) where
  -- The receiver waits for packet `n`, and holds only later ones, below `hi`.
  pub record IsAt (n hi : ℕ) (r : Receiver) : Type 0 where
    pub inited : r.recv_inited ≡ true
    pub next_is : r.next_expected ≡ (start + n) % seq_mod
    pub held : AllHeld start f (n + 1) hi r.reorder_buf
    pub bounded : length r.reorder_buf ≤ reorder_buf_max

  -- What is held of packet `j` after packet `k` came in, when it is not yet delivered: packet `k` is
  -- taken in while there is room.
  unfoldable pub after : ℕ → ℕ → Buffer → Option Bytes
  after k j b =
      if j == k && ltb (length b) reorder_buf_max
      then some (f k)
      else lookup_seq ((start + j) % seq_mod) b

  -- The state and the chunks after some packet, when `count` packets were delivered: those behind the
  -- first had been held, the one that would be next had not, and what is held of later ones stays.
  pub record Delivers (n hi k : ℕ) (r : Receiver) (a : Receiver × List Bytes) : Type 0 where
    pub count : ℕ
    pub ends : n + count ≤ hi
    pub at : IsAt (n + count) hi a.0
    pub out_is : a.1 ≡ stream f n count
    pub moves_iff : (0 < count) ↔ (k ≡ n)
    pub was_held :
        (j : ℕ)
        → n < j
        → j < n + count
        → lookup_seq ((start + j) % seq_mod) r.reorder_buf ≡ some (f j)
    pub stops : 0 < count → lookup_seq ((start + (n + count)) % seq_mod) r.reorder_buf ≡ none
    pub kept :
        (j : ℕ)
        → n + count < j
        → j < hi
        → lookup_seq ((start + j) % seq_mod) a.0.reorder_buf ≡ after k j r.reorder_buf

  advance-Delivers :
      (n hi : ℕ) (r : Receiver)
      → n < hi
      → hi ≤ n + 32768
      → IsAt n hi r
      → Delivers n hi n r (advance r (f n))
  unfolding advance after
  advance-Delivers n hi r l w a =
      let fl =
        flush-Flushes start f (length r.reorder_buf) (n + 1) hi (seq_add r.next_expected 1)
          r.reorder_buf (omega arith) (omega arith) (omega arith) (omega (arith, a.next_is))
          a.held in
      let m : n + suc fl.count ≡ n + 1 + fl.count = omega arith in
      record {
        count = suc fl.count;
        ends = omega (arith, fl.ends);
        at = rw m (record {
          inited = a.inited;
          next_is = fl.next_is;
          held = fl.held;
          bounded = omega (arith, fl.shrinks, a.bounded);
        });
        out_is = rw fl.out_is;
        moves_iff = (λ _. refl, λ _. omega arith);
        was_held = λ j l u. fl.was_held j (omega arith) (omega arith);
        stops = λ _. rw m fl.stops;
        kept = λ j l u.
            let other : (j == n) ≡ false = ground (arith, l) in
            fl.kept j (omega arith) u ∙ rw other refl;
      }

  stays-Delivers :
      (n hi k : ℕ) (r r' : Receiver)
      → k ≢ n
      → n ≤ hi
      → IsAt n hi r'
      → ((j : ℕ)
          → n < j
          → j < hi
          → lookup_seq ((start + j) % seq_mod) r'.reorder_buf ≡ after k j r.reorder_buf)
      → Delivers n hi k r (r', [])
  stays-Delivers n hi k r r' ne l a same =
      let e : n + 0 ≡ n = omega arith in
      record {
        count = 0;
        ends = omega arith;
        at = rw e a;
        out_is = refl;
        moves_iff = (λ h. absurd (omega arith), λ h. absurd (ne h));
        was_held = λ j m u. absurd (omega arith);
        stops = λ h. absurd (omega arith);
        kept = λ j m u. same j (omega arith) u;
      }

  buffers-IsAt :
      (n hi k : ℕ) (r : Receiver)
      → n < k
      → k < hi
      → length r.reorder_buf < reorder_buf_max
      → IsAt n hi r
      → IsAt n hi
          (record r { reorder_buf = insert_seq ((start + k) % seq_mod) (f k) r.reorder_buf })
  buffers-IsAt n hi k r lo up room a = record {
    inited = a.inited;
    next_is = a.next_is;
    held = insert_seq-AllHeld start f (n + 1) hi k r.reorder_buf (omega arith) up a.held;
    bounded = omega (arith, length-insert_seq ((start + k) % seq_mod) (f k) r.reorder_buf);
  }

  takes-after :
      (n hi k j : ℕ) (b : Buffer)
      → n < k
      → k < hi
      → hi ≤ n + 32768
      → ltb (length b) reorder_buf_max ≡ true
      → n < j
      → j < hi
      → lookup_seq ((start + j) % seq_mod) (insert_seq ((start + k) % seq_mod) (f k) b)
        ≡ after k j b
  unfolding after
  takes-after n hi k j b lo up w room l u = elim (Bool-cases (j == k)) [
    | inl e ↦
        let same : j ≡ k = ground (arith, e) in
        rw (e, room) (rw same (lookup_seq-inserted ((start + k) % seq_mod) (f k) b))
    | inr e ↦
        let ne : (start + j) % seq_mod ≢ (start + k) % seq_mod = different (ground (arith, e)) in
        rw e (lookup_seq-insert_seq ((start + j) % seq_mod) ((start + k) % seq_mod) (f k) b ne)
  ]
    where
      different : j ≢ k → (start + j) % seq_mod ≢ (start + k) % seq_mod
      different h = elim (Bool-cases (ltb k j)) [
        | inl e ↦ apart_seq start k j (ltb→lt _ _ e) (omega arith)
        | inr e ↦ λ q. apart_seq start j k (ground (arith, e, h)) (omega arith) (sym q)
      ]

  full-after :
      (k j : ℕ) (b : Buffer)
      → ((j ≡ k) → ltb (length b) reorder_buf_max ≡ false)
      → lookup_seq ((start + j) % seq_mod) b ≡ after k j b
  unfolding after
  full-after k j b h = elim (Bool-cases (j == k)) [
    | inl e ↦ rw (e, h (ground (arith, e))) refl
    | inr e ↦ rw e refl
  ]

  deliver_inited-Delivers :
      (n hi k : ℕ) (r : Receiver)
      → n ≤ hi
      → hi ≤ n + 32768
      → k < hi
      → n ≤ k + 32768
      → IsAt n hi r
      → Delivers n hi k r (deliver_inited r ((start + k) % seq_mod) (f k))
  unfolding deliver_inited
  deliver_inited-Delivers n hi k r l w up lo a =
      let s = (start + k) % seq_mod in
      elim (Bool-cases (s == r.next_expected)) [
        | inl hit ↦
            let same : k ≡ n = ground (arith, hit, a.next_is) in
            rw hit (
              subst (λ j. Delivers n hi j r (advance r (f j))) (sym same)
                (advance-Delivers n hi r (omega arith) w a))
        | inr miss ↦
            let apart : k ≢ n = ground (arith, miss, a.next_is) in
            let order : wrapping_gt s r.next_expected ≡ ltb n k =
              rw a.next_is (wrapping_gt_lem start n k lo (omega arith)) in
            rw (miss, order)
              (elim (Bool-cases (ltb n k)) [
                | inl later ↦
                    rw later (elim (Bool-cases (ltb (length r.reorder_buf) reorder_buf_max)) [
                      | inl room ↦ rw room (
                          stays-Delivers n hi k r _ apart l
                            (buffers-IsAt n hi k r (ltb→lt _ _ later) up (ltb→lt _ _ room) a)
                            (λ j m u.
                              takes-after n hi k j r.reorder_buf (ltb→lt _ _ later) up w room m u))
                      | inr full ↦ rw full (
                          stays-Delivers n hi k r r apart l a
                            (λ j m u. full-after k j r.reorder_buf (λ e. full)))
                    ])
                | inr old ↦ rw old (
                    stays-Delivers n hi k r r apart l a
                      (λ j m u. full-after k j r.reorder_buf (λ e. ground (arith, old, m, e))))
              ])
      ]

  -- One packet, of any number within half the circle: the receiver moves exactly when the packet is
  -- the one that it waits for; then it delivers that packet and those behind it that it holds, up to
  -- the first that it does not hold, and it keeps what it holds of later ones. Another packet that is
  -- still to come is held while there is room.
  pub deliver_in_order-Delivers :
      (n hi k : ℕ) (r : Receiver)
      → n ≤ hi
      → hi ≤ n + 32768
      → k < hi
      → n ≤ k + 32768
      → IsAt n hi r
      → Delivers n hi k r (deliver_in_order r ((start + k) % seq_mod) (f k))
  unfolding deliver_in_order
  deliver_in_order-Delivers n hi k r l w up lo a =
      let s = (start + k) % seq_mod in
      let ready : (if r.recv_inited then r else set_first_expected s r) ≡ r =
        inited_if r.recv_inited r (set_first_expected s r) a.inited in
      subst (λ q. Delivers n hi k r (deliver_inited q s (f k))) (sym ready)
        (deliver_inited-Delivers n hi k r l w up lo a)

  -- A run: packets arrive in any order and any number of times.
  unfoldable pub receive_all : Receiver → List ℕ → Receiver × List Bytes
  receive_all r [] = (r, [])
  receive_all r (k ∷ ks) =
      let (r', out) = deliver_in_order r ((start + k) % seq_mod) (f k) in
      let (r'', rest) = receive_all r' ks in (r'', out ++ rest)

  pub stream-append : (i m n : ℕ) → stream f i m ++ stream f (i + m) n ≡ stream f i (m + n)
  stream-append i zero n =
      let e : i + 0 ≡ i = omega arith in let e' : 0 + n ≡ n = omega arith in rw (e, e')
  stream-append i (suc m) n =
      let e : i + suc m ≡ i + 1 + m = omega arith in
      let e' : suc m + n ≡ suc (m + n) = omega arith in
      rw (
        e,
        e',
        append_assoc (chunk (f i)) (stream f (i + 1) m) (stream f (i + 1 + m) n),
        stream-append (i + 1) m n,
      )

  -- Whatever arrives of the packets from `base` to `hi`, in any order, with losses and duplicates,
  -- what is delivered from packet `n` on is a stretch of the stream that begins with packet `n`.
  pub receive_all-stream :
      (base hi n : ℕ) (r : Receiver) (ks : List ℕ)
      → base ≤ n
      → n ≤ hi
      → hi ≤ base + 32768
      → All (λ k. (base ≤ k) × (k < hi)) ks
      → IsAt n hi r
      → (count : ℕ) × (n + count ≤ hi)
        × IsAt (n + count) hi (receive_all r ks).0
        × ((receive_all r ks).1 ≡ stream f n count)
  unfolding receive_all
  receive_all-stream base hi n r [] b l w h a =
      let e : n + 0 ≡ n = omega arith in (0, omega arith, rw e a, refl)
  receive_all-stream base hi n r (k ∷ ks) b l w h a =
      let d = deliver_in_order-Delivers n hi k r l (omega arith) (h.0.1) (omega (arith, h.0.0)) a in
      let (c, ends, at, out) =
        receive_all-stream base hi (n + d.count) _ ks (omega arith) d.ends w h.1 d.at in
      let e : n + (d.count + c) ≡ n + d.count + c = omega arith in
      (d.count + c, rw e ends, rw e at, rw (d.out_is, out) (stream-append n d.count c))
