-- ===== src/Download/Piece/Honest.antt =====
-- download/download.go: DownloadPiece with a peer that sends the blocks of the piece.
use stor.Prelude.{
  ℕ, zero, suc, ◌+◌, ◌^◌, ◌<◌, Bool, true, false, ltb, [], ◌∷◌, ◌++◌, List, ◌≡◌, refl, arith,
  length, Bool-cases, inl, inr, ◌⊎◌, ◌∙◌, ap, get_or, All, length-append, append_assoc,
}
use stor.Prelude.Int.{ℤ, pos}
use stor.Prelude.Words.{Bytes}
use stor.Bencode.Value.{str_eq}
use stor.Bencode.Order.{str_eq_iff}
use stor.Storage.MultiFile.Stream.{length-overwrite, list_ext}
use stor.Peer.MsgId
use stor.Peer.Message.{new_piece_message, write, write_keep_alive}
use stor.Peer.Message.Framing.{read_message-keep_alive}
use stor.Download.PieceQueue.Queue.{PieceWork}
use stor.Download.Client.{Client, bare, send_interested}
use stor.Download.Piece.Opening.{
  declared, opening, Opens, StartsWith, request_round-StartsWith, handle_other-StartsWith,
}
use stor.Download.Piece.{
  Result, done, fail, Progress, request_round, finish, download_loop, download_piece, handle_other,
}
use stor.Download.Piece.Frames.{
  Frame, block, aside, ping, sum_sizes, covers, nothing-covers, read_small, handle_aside,
  handle_block, length-slice, one_byte, length-all_sent, still_known, length-new_piece_message,
  unchoked, interested, slice, all_sent, IsHonest,
}

module _ (sha1 : Bytes → Bytes) (takes : Bytes → Bool) (rates : ℕ → ℤ) (pw : PieceWork)
    (content : Bytes) where
  -- The loop with the frames that are still to come.
  record Awaits (fs : List Frame) (p : Progress) : Type 0 where
    size : length p.buf ≡ pw.len
    sum : p.downloaded + sum_sizes fs ≡ pw.len
    known : (x : ℕ) → x < pw.len → (get_or p.buf x 0 ≡ get_or content x 0) ⊎ (covers fs x ≡ true)

  -- What the theorem says of a result.
  abbrev pub Succeeds : Result Bytes → Type 0
  Succeeds (done c rest b) = b ≡ content
  Succeeds (fail c rest e) = false ≡ true

  module _ (c : Client) (takes_declared : takes (declared c) ≡ true)
      (takes_more : (x : Bytes) → takes (opening pw c ++ x) ≡ true)
      (small_index : pw.index < 2 ^ 32) (small_len : pw.len < 2 ^ 32)
      (size_content : length content ≡ pw.len) (hash : sha1 content ≡ pw.hash) where
    finish-Succeeds :
        (fs : List Frame) (p : Progress) (r : Bytes)
        → Awaits fs p
        → sum_sizes fs ≡ 0
        → Succeeds (finish sha1 takes rates pw p r)
    unfolding finish
    finish-Succeeds fs p r w none_left =
        let eq : p.buf ≡ content = list_ext p.buf content (omega (arith, w.size)) (λ x l.
          ground (arith, w.known x (omega (arith, w.size)), nothing-covers fs x none_left)) in
        let good : str_eq (sha1 p.buf) pw.hash ≡ true = (str_eq_iff _ _).1 (ap sha1 eq ∙ hash) in
        rw good eq

    round_taken :
        (rate : ℤ) (p : Progress)
        → ltb p.downloaded pw.len ≡ true
        → Opens pw c p
        → (takes (request_round pw rate p).client.out ≡ true)
          × StartsWith (opening pw c) (request_round pw rate p).client.out
    round_taken rate p e opens =
        let some_bytes : 0 < pw.len = ground (arith, e) in
        let st = request_round-StartsWith pw rate c p some_bytes opens in
        (rw st.1 (takes_more st.0), st)

    download_loop-Succeeds :
        (f : ℕ) (fs : List Frame) (p : Progress) (rest : Bytes)
        → length fs < f
        → All (IsHonest pw content) fs
        → Awaits fs p
        → Opens pw c p
        → Succeeds (download_loop sha1 takes rates pw f p (all_sent pw content fs ++ rest))
    unfolding download_loop request_round sum_sizes covers
    download_loop-Succeeds zero fs p rest enough honest w opens = absurd (omega arith)
    download_loop-Succeeds (suc f) [] p rest enough honest w opens =
        let over : ltb p.downloaded pw.len ≡ false = ground (arith, w.sum) in
        simp over (finish-Succeeds [] p rest w refl)
    download_loop-Succeeds (suc f) (ping ∷ fs) p rest enough honest w opens =
        let q = request_round pw (rates f) p in
        let r = all_sent pw content fs ++ rest in
        let next : Awaits fs q = record {
          size = w.size;
          sum = omega (arith, w.sum);
          known = λ x l. w.known x l;
        } in
        elim (Bool-cases (ltb p.downloaded pw.len)) [
          | inr e ↦ simp e (finish-Succeeds (ping ∷ fs) p _ w (ground (arith, w.sum, e)))
          | inl e ↦
              let (taken, st) = round_taken (rates f) p e opens in
              simp
                (
                  e,
                  taken,
                  append_assoc write_keep_alive (all_sent pw content fs) rest,
                  read_message-keep_alive r,
                )
                (download_loop-Succeeds f fs q rest (omega arith) honest.1 next (inl st))
        ]
    download_loop-Succeeds (suc f) (aside m ∷ fs) p rest enough honest w opens =
        let q = request_round pw (rates f) p in
        let r = all_sent pw content fs ++ rest in
        let (small, no_piece, no_choke, no_reject) = honest.0 in
        let s : Progress = record q { client = handle_other takes m q.client } in
        let next : Awaits fs s = record {
          size = w.size;
          sum = omega (arith, w.sum);
          known = λ x l. w.known x l;
        } in
        elim (Bool-cases (ltb p.downloaded pw.len)) [
          | inr e ↦ simp e (finish-Succeeds (aside m ∷ fs) p _ w (ground (arith, w.sum, e)))
          | inl e ↦
              let (taken, st) = round_taken (rates f) p e opens in
              simp
                (
                  e,
                  taken,
                  append_assoc (write m) (all_sent pw content fs) rest,
                  read_small m r small,
                  handle_aside takes pw m q no_piece no_choke no_reject,
                )
                (download_loop-Succeeds f fs s rest (omega arith) honest.1 next
                  (inl (handle_other-StartsWith (opening pw c) takes m q.client st)))
        ]
    download_loop-Succeeds (suc f) (block b n ∷ fs) p rest enough honest w opens =
        let q = request_round pw (rates f) p in
        let r = all_sent pw content fs ++ rest in
        let (fits, small) = honest.0 in
        let new = slice pw content b n in
        let m = new_piece_message pw.index b new in
        let size : length new ≡ n = length-slice content b n (omega arith) in
        let (s, handled, buf, got, same_out) =
          handle_block takes pw b new q small_index (omega arith) (omega (arith, w.size)) in
        let next : Awaits fs s = record {
          size = rw buf (length-overwrite p.buf b new (omega (arith, w.size)) ∙ w.size);
          sum = omega (arith, w.sum, got);
          known = λ x l. rw buf (
              still_known p.buf content b n fs x (omega arith) (omega (arith, w.size))
                (w.known x l));
        } in
        elim (Bool-cases (ltb p.downloaded pw.len)) [
          | inr e ↦ simp e (finish-Succeeds (block b n ∷ fs) p _ w (ground (arith, w.sum, e)))
          | inl e ↦
              let (taken, st) = round_taken (rates f) p e opens in
              simp
                (
                  e,
                  taken,
                  append_assoc (write m) (all_sent pw content fs) rest,
                  read_small m r (omega (arith, length-new_piece_message pw.index b new)),
                  handled,
                )
                (download_loop-Succeeds f fs s rest (omega arith) honest.1 next
                  (inl (rw same_out st)))
        ]

    -- Over a connection that takes the declaration of interest and then anything that begins with it
    -- and with the request for the first block, and of which nothing is known when anything else is
    -- written, from a peer that unchokes and then sends blocks of the content which together have every
    -- byte once, in any order, with keep-alives and messages in between that are no piece, choke or
    -- reject, and with every frame within the size limit, DownloadPiece returns the content.
    pub download_piece-Succeeds :
        (buf : Bytes) (fs : List Frame) (rest : Bytes)
        → c.choked ≡ true
        → length buf ≡ pw.len
        → All (IsHonest pw content) fs
        → sum_sizes fs ≡ pw.len
        → ((x : ℕ) → x < pw.len → covers fs x ≡ true)
        → Succeeds (
            download_piece sha1 takes rates pw buf c
              (write (bare MsgId.unchoke) ++ (all_sent pw content fs ++ rest)))
    unfolding download_piece
    download_piece-Succeeds buf fs rest choked size honest sum all =
        let c' = (send_interested takes c).0 in
        let r = all_sent pw content fs ++ rest in
        let (sent_ok, still, said) = interested takes c takes_declared in
        let first = length-append (write (bare MsgId.unchoke)) r in
        let one : 0 < length (write (bare MsgId.unchoke) ++ r) =
          omega (arith, first, one_byte pw content (aside (bare MsgId.unchoke))) in
        let start : Progress = record {
          client = record c' { choked = false };
          buf = buf;
          downloaded = 0;
          requested = 0;
          backlog = pos 0;
          no_progress = 0;
        } in
        let waits : Awaits fs start = record {
          size = size;
          sum = omega arith;
          known = λ x l. inr (all x l);
        } in
        rw (sent_ok, unchoked takes _ c' r one (still ∙ choked))
          (download_loop-Succeeds (suc (length r)) fs start rest
            (omega
              (arith, length-all_sent pw content fs, length-append (all_sent pw content fs) rest))
            honest waits (inr (said, refl, refl)))
