-- ===== src/Download/Piece/Requests.antt =====
-- download/download.go: what DownloadPiece asks for in a round.
use stor.Prelude.{
  ℕ, zero, suc, ◌+◌, ◌-◌, ◌*◌, ◌≤◌, ◌<◌, true, false, ltb, [], ◌++◌, ◌≡◌, ◌⊎◌, refl, sym, ◌∙◌,
  arith, min, Bool-cases, inl, inr, append_assoc, append-nil,
}
use stor.Prelude.Int.{ℤ, pos, negsuc, inc, leb_ℤ}
use stor.Prelude.Words.{Bytes}
use stor.Peer.Message.{write, new_request_message}
use stor.Download.PieceQueue.Queue.{PieceWork}
use stor.Download.Client.{Client, block_size, default_to, pipeline_target, pipeline_target_of}
use stor.Download.Piece.{Progress, request_blocks, request_round}

-- The requests for `n` blocks of the piece from an offset on, one behind the other; the last block of
-- the piece may be shorter.
unfoldable pub block_requests : PieceWork → ℕ → ℕ → Bytes
block_requests pw from zero = []
block_requests pw from (suc n) =
    let size = min block_size (pw.len - from) in
    write (new_request_message pw.index from size) ++ block_requests pw (from + size) n

unfoldable pub add_ℤ : ℕ → ℤ → ℤ
add_ℤ zero a = a
add_ℤ (suc n) a = add_ℤ n (inc a)

-- From a state with the given variables: `count` blocks are asked for, which counts them as requested
-- and outstanding; the pipeline is full or the whole piece is requested; and it is not overfull.
pub record Asks (pw : PieceWork) (target : ℕ) (requested : ℕ) (backlog : ℤ) (out : Bytes)
    (r : ℕ × ℤ × Bytes) : Type 0 where
  pub count : ℕ
  pub out_is : r.2 ≡ out ++ block_requests pw requested count
  pub requested_is : r.0 ≡ min pw.len (requested + count * block_size)
  pub backlog_is : r.1 ≡ add_ℤ count backlog
  pub full : (r.0 ≡ pw.len) ⊎ (leb_ℤ (pos target) r.1 ≡ true)
  pub no_more : (count ≡ 0) ⊎ (leb_ℤ r.1 (pos target) ≡ true)

inc-leb : (t : ℕ) (b : ℤ) → leb_ℤ (pos t) b ≡ false → leb_ℤ (inc b) (pos t) ≡ true
unfolding leb_ℤ inc
inc-leb t (pos n) h = ground arith
inc-leb t (negsuc zero) h = ground arith
inc-leb t (negsuc (suc n)) h = refl

pub request_blocks-Asks :
    (f target : ℕ) (pw : PieceWork) (requested : ℕ) (backlog : ℤ) (out : Bytes)
    → pw.len ≤ requested + f
    → requested ≤ pw.len
    → Asks pw target requested backlog out (request_blocks f (pos target) pw requested backlog out)
unfolding request_blocks block_requests add_ℤ
request_blocks-Asks zero target pw requested backlog out enough inside = record {
  count = 0;
  out_is = sym (append-nil out);
  requested_is = omega arith;
  backlog_is = refl;
  full = inl (omega arith);
  no_more = inl refl;
}
request_blocks-Asks (suc f) target pw requested backlog out enough inside =
    let size = min block_size (pw.len - requested) in
    let asked = write (new_request_message pw.index requested size) in
    elim (Bool-cases (leb_ℤ (pos target) backlog)) [
      | inl e ↦
          rw (e, request_blocks)
            (record {
              count = 0;
              out_is = sym (append-nil out);
              requested_is = omega arith;
              backlog_is = refl;
              full = inr e;
              no_more = inl refl;
            })
      | inr e ↦ elim (Bool-cases (ltb requested pw.len)) [
        | inr l ↦
            rw (e, l, request_blocks)
              (record {
                count = 0;
                out_is = sym (append-nil out);
                requested_is = omega arith;
                backlog_is = refl;
                full = inl (ground (arith, l));
                no_more = inl refl;
              })
        | inl l ↦
            let lt : requested < pw.len = ground (arith, l) in
            let s =
              request_blocks-Asks f target pw (requested + size) (inc backlog) (out ++ asked)
                (omega arith) (omega arith) in
            rw (e, l, request_blocks)
              (record {
                count = suc s.count;
                out_is =
                    s.out_is
                    ∙ append_assoc out asked (block_requests pw (requested + size) s.count);
                requested_is = omega (arith, s.requested_is);
                backlog_is = s.backlog_is;
                full = s.full;
                no_more = inr (at_most s.count (inc-leb target backlog e) s.backlog_is s.no_more);
              })
      ]
    ]
  where
    at_most :
        {b : ℤ} (n : ℕ)
        → leb_ℤ (inc backlog) (pos target) ≡ true
        → b ≡ add_ℤ n (inc backlog)
        → (n ≡ 0) ⊎ (leb_ℤ b (pos target) ≡ true)
        → leb_ℤ b (pos target) ≡ true
    at_most zero first e h = rw e first
    at_most (suc n) first e (inl z) = absurd (omega arith)
    at_most (suc n) first e (inr h) = h

pub pipeline_target-pos : (c : Client) (rate : ℤ) → 1 ≤ pipeline_target c rate
unfolding pipeline_target pipeline_target_of default_to
pipeline_target-pos c rate = ground arith

-- In every round, from a state in which no more is requested than the piece has, DownloadPiece asks
-- for the next blocks of the piece, in order, until the pipeline, which has room for one at least, is
-- full or everything is requested, and it asks for no more than that; the buffer and the count of the
-- bytes that have come stay.
pub request_round-Asks :
    (pw : PieceWork) (rate : ℤ) (p : Progress)
    → p.requested ≤ pw.len
    → (let target = pipeline_target p.client rate in
        let q = request_round pw rate p in
        (1 ≤ target)
        × Asks pw target p.requested p.backlog p.client.out (q.requested, q.backlog, q.client.out)
        × (q.buf ≡ p.buf)
        × (q.downloaded ≡ p.downloaded))
unfolding request_round
request_round-Asks pw rate p inside = (
  pipeline_target-pos p.client rate,
  request_blocks-Asks pw.len (pipeline_target p.client rate) pw p.requested p.backlog p.client.out
      (omega arith) inside,
  refl,
  refl,
)
