-- ===== src/Download/Piece/Sound.antt =====
-- download/download.go: DownloadPiece ends, and what it returns has the expected hash and length.
use stor.Prelude.{
  ℕ, zero, suc, ◌<◌, Bool, true, false, ltb, ◌≡◌, refl, arith, length, Bool-cases, inl, inr, ◌⊎◌,
  ◌∙◌,
}
use stor.Prelude.Int.{ℤ}
use stor.Prelude.Words.{Bytes}
use stor.Bencode.Value.{str_eq}
use stor.Bencode.Order.{str_eq_iff}
use stor.Storage.MultiFile.Stream.{length-overwrite}
use stor.Peer.Message.{Message, Parsed, ok, err, parse_piece}
use stor.Peer.Message.Framing.{read_message-cases}
use stor.Download.PieceQueue.Queue.{PieceWork}
use stor.Download.Client.{Client, send_interested}
use stor.Download.Piece.{
  Failure, out_of_fuel, read_failed, Result, done, fail, Progress, Step, go_on, stop, take_block,
  take_piece, handle_message, request_round, finish, download_loop, wait_for_unchoke,
  download_piece, handle_other,
}

abbrev pub ran_out : Failure → Bool
ran_out out_of_fuel = true
ran_out _ = false

-- A piece of the expected hash and length, or a failure of the source.
abbrev pub Verified : (Bytes → Bytes) → PieceWork → Result Bytes → Type 0
Verified sha1 pw (done c r b) = (sha1 b ≡ pw.hash) × (length b ≡ pw.len)
Verified sha1 pw (fail c r e) = ran_out e ≡ false

abbrev KeepsLength : ℕ → Step → Type 0
KeepsLength n (go_on s) = length s.buf ≡ n
KeepsLength n (stop c e) = ran_out e ≡ false

take_block-KeepsLength :
    (pw : PieceWork) (index begin : ℕ) (block : Bytes) (p : Progress)
    → KeepsLength (length p.buf) (take_block pw (index, begin, block) p)
unfolding take_block
take_block-KeepsLength pw index begin block p = ground (arith, length-overwrite p.buf begin block)

take_piece-KeepsLength :
    (pw : PieceWork) (b : Parsed (ℕ × ℕ × Bytes)) (p : Progress)
    → KeepsLength (length p.buf) (take_piece pw b p)
unfolding take_piece
take_piece-KeepsLength pw (err e) p = refl
take_piece-KeepsLength pw (ok (index, begin, block)) p =
    take_block-KeepsLength pw index begin block p

handle_message-KeepsLength :
    (takes : Bytes → Bool) (pw : PieceWork) (m : Message) (p : Progress)
    → KeepsLength (length p.buf) (handle_message takes pw m p)
unfolding handle_message
handle_message-KeepsLength takes pw m p =
    ground (arith, take_piece-KeepsLength pw (parse_piece m.payload) p)

Step-cases :
    (s : Step) → ((p : Progress) × (s ≡ go_on p)) ⊎ ((c : Client) × (e : Failure) × (s ≡ stop c e))
Step-cases (go_on p) = inl (p, refl)
Step-cases (stop c e) = inr (c, e, refl)

module _ (sha1 : Bytes → Bytes) (takes : Bytes → Bool) (rates : ℕ → ℤ) (pw : PieceWork) where
  finish-Verified :
      (p : Progress) (r : Bytes)
      → length p.buf ≡ pw.len
      → Verified sha1 pw (finish sha1 takes rates pw p r)
  unfolding finish
  finish-Verified p r size = elim (Bool-cases (str_eq (sha1 p.buf) pw.hash)) [
    | inl e ↦ rw e ((str_eq_iff _ _).0 e, size)
    | inr e ↦ rw e refl
  ]

  download_loop-Verified :
      (f : ℕ) (p : Progress) (r : Bytes)
      → length r < f
      → length p.buf ≡ pw.len
      → Verified sha1 pw (download_loop sha1 takes rates pw f p r)
  unfolding download_loop request_round
  download_loop-Verified zero p r enough size = absurd (omega arith)
  download_loop-Verified (suc f) p r enough size = elim (Bool-cases (ltb p.downloaded pw.len)) [
    | inr e ↦ rw e (finish-Verified p r size)
    | inl e ↦
        let q = request_round pw (rates f) p in
        let kept : length q.buf ≡ pw.len = size in
        elim (Bool-cases (takes q.client.out)) [
          | inr w ↦ rw (e, w) refl
          | inl w ↦ elim (read_message-cases r) [
            | inr (inr (x, failure)) ↦ rw (e, w, failure) refl
            | inr (inl (rest, ping, lt)) ↦
                rw (e, w, ping) (download_loop-Verified f q rest (omega arith) kept)
            | inl (m, rest, got, lt) ↦ elim (Step-cases (handle_message takes pw m q)) [
              | inl (s, on) ↦
                  rw (e, w, got, on)
                    (download_loop-Verified f s rest (omega arith)
                      (rw on at (handle_message-KeepsLength takes pw m q) ∙ kept))
              | inr (c, x, off) ↦
                  rw (e, w, got, off) (rw off at (handle_message-KeepsLength takes pw m q))
            ]
          ]
        ]
  ]

  wait_for_unchoke-cases :
      (f : ℕ) (c : Client) (r : Bytes)
      → length r < f
      → ((d : Client) × (rest : Bytes) × (wait_for_unchoke takes f c r ≡ done d rest tt))
        ⊎ ((d : Client) × (rest : Bytes) × (e : Failure) × (wait_for_unchoke takes f c r
              ≡ fail d rest e)
            × (ran_out e ≡ false))
  unfolding wait_for_unchoke
  wait_for_unchoke-cases zero c r enough = absurd (omega arith)
  wait_for_unchoke-cases (suc f) c r enough = elim (Bool-cases c.choked) [
    | inr w ↦ inl (c, r, rw w refl)
    | inl w ↦ elim (read_message-cases r) [
      | inr (inr (x, failure)) ↦ inr (c, r, read_failed x, simp (w, failure), refl)
      | inr (inl (rest, ping, lt)) ↦ simp (w, ping) (wait_for_unchoke-cases f c rest (omega arith))
      | inl (m, rest, got, lt) ↦
          simp (w, got) (wait_for_unchoke-cases f (handle_other takes m c) rest (omega arith))
    ]
  ]

  -- Where the buffer has the length of the piece, DownloadPiece ends whatever the peer sends, and the
  -- data that it returns has the expected hash and length.
  pub download_piece-Verified :
      (buf : Bytes) (c : Client) (r : Bytes)
      → length buf ≡ pw.len
      → Verified sha1 pw (download_piece sha1 takes rates pw buf c r)
  unfolding download_piece
  download_piece-Verified buf c r size =
      let c' = (send_interested takes c).0 in
      elim (Bool-cases ((send_interested takes c).1)) [
        | inr w ↦ rw w refl
        | inl w ↦ elim (wait_for_unchoke-cases (suc (length r)) c' r (omega arith)) [
          | inr (d, rest, e, off, ended) ↦ rw (w, off) ended
          | inl (d, rest, on) ↦
              rw (w, on) (download_loop-Verified (suc (length rest)) _ rest (omega arith) size)
        ]
      ]
