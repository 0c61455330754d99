-- ===== src/Download/Piece/Frames.antt =====
-- download/download.go: the frames of a peer that sends the blocks of a piece, and what DownloadPiece
-- does with one of them.
use stor.Prelude.{
  ℕ, zero, suc, ◌+◌, ◌-◌, ◌^◌, ◌≤◌, ◌<◌, Bool, true, false, ◌==◌, ◌&&◌, ◌||◌, ltb, leb, [], ◌∷◌,
  ◌++◌, List, ◌≡◌, ◌≢◌, refl, arith, length, Bool-cases, inl, inr, ◌⊎◌, ◌∙◌, take, drop, get_or,
  length-take, length-drop, length-append,
}
use stor.Prelude.Int.{dec}
use stor.Prelude.Words.{Bytes}
use stor.Storage.Disk.{overwrite}
use stor.Storage.MultiFile.Stream.{get_or-overwrite, get_or-take, get_or-drop}
use stor.Peer.MsgId
use stor.Peer.Message.{
  Message, message, read_message, new_piece_message, write, write_keep_alive, max_message,
}
use stor.Peer.Message.Framing.{read_message-write, parse-new}
use stor.Download.PieceQueue.Queue.{PieceWork}
use stor.Download.Client.{Client, bare, send, send_interested}
use stor.Download.Piece.Opening.{declared}
use stor.Download.Piece.{
  done, Progress, go_on, take_block, take_piece, handle_message, wait_for_unchoke, handle_other,
}

-- What the peer sends: a block of the content at an offset, another message, or a keep-alive.
pub data Frame : Type 0 where
  block : ℕ → ℕ → Frame
  aside : Message → Frame
  ping : Frame

module _ (pw : PieceWork) (content : Bytes) where
  abbrev pub slice : ℕ → ℕ → Bytes
  slice begin n = take n (drop begin content)

  abbrev pub sent : Frame → Bytes
  sent (block begin n) = write (new_piece_message pw.index begin (slice begin n))
  sent (aside m) = write m
  sent ping = write_keep_alive

  abbrev pub all_sent : List Frame → Bytes
  all_sent [] = []
  all_sent (f ∷ fs) = sent f ++ all_sent fs

  -- A block lies in the piece; another message is no piece, choke or reject.
  abbrev pub IsHonest : Frame → Type 0
  IsHonest (block begin n) = (begin + n ≤ pw.len) × (9 + n ≤ max_message)
  IsHonest (aside m) =
      (1 + length m.payload ≤ max_message)
      × (m.id ≢ MsgId.piece)
      × (m.id ≢ MsgId.choke)
      × (m.id ≢ MsgId.reject)
  IsHonest ping = Unit

abbrev pub size_of : Frame → ℕ
size_of (block begin n) = n
size_of _ = 0

unfoldable pub sum_sizes : List Frame → ℕ
sum_sizes [] = 0
sum_sizes (f ∷ fs) = size_of f + sum_sizes fs

abbrev pub within : Frame → ℕ → Bool
within (block begin n) x = leb begin x && ltb x (begin + n)
within _ x = false

-- Whether some block has the byte.
unfoldable pub covers : List Frame → ℕ → Bool
covers [] x = false
covers (f ∷ fs) x = within f x || covers fs x

pub nothing-covers : (fs : List Frame) (x : ℕ) → sum_sizes fs ≡ 0 → covers fs x ≡ false
unfolding sum_sizes covers
nothing-covers [] x e = refl
nothing-covers (block begin n ∷ fs) x e = ground (arith, nothing-covers fs x (omega arith))
nothing-covers (aside m ∷ fs) x e = nothing-covers fs x (omega arith)
nothing-covers (ping ∷ fs) x e = nothing-covers fs x (omega arith)

pub read_small :
    (m : Message) (r : Bytes)
    → 1 + length m.payload ≤ max_message
    → read_message (write m ++ r) ≡ message m r
read_small m r h = read_message-write m r (omega arith) ∙ ground arith

pub handle_aside :
    (takes : Bytes → Bool) (pw : PieceWork) (m : Message) (p : Progress)
    → (m.id ≢ MsgId.piece)
    → (m.id ≢ MsgId.choke)
    → (m.id ≢ MsgId.reject)
    → handle_message takes pw m p ≡ go_on (record p { client = handle_other takes m p.client })
unfolding handle_message
handle_aside takes pw m p no_piece no_choke no_reject =
    let a : (m.id == MsgId.piece) ≡ false = ground arith in
    let b : (m.id == MsgId.choke) ≡ false = ground arith in
    let c : (m.id == MsgId.reject) ≡ false = ground arith in simp (a, b, c)

pub handle_block :
    (takes : Bytes → Bool) (pw : PieceWork) (begin : ℕ) (new : Bytes) (p : Progress)
    → pw.index < 2 ^ 32
    → begin < 2 ^ 32
    → begin + length new ≤ length p.buf
    → (q : Progress) × (handle_message takes pw (new_piece_message pw.index begin new) p ≡ go_on q)
      × (q.buf ≡ overwrite p.buf begin new)
      × (q.downloaded ≡ p.downloaded + length new)
      × (q.client.out ≡ p.client.out)
unfolding handle_message take_piece take_block new_piece_message
handle_block takes pw begin new p small_index small fits =
    let (_, _, _, parsed, _, _) = parse-new pw.index begin 0 new small_index small (omega arith) in
    let same : (pw.index == pw.index) ≡ true = ground arith in
    let inside : ltb (length p.buf) (begin + length new) ≡ false = ground arith in
    let q : Progress = record p {
      client = record p.client { downloaded = p.client.downloaded + length new };
      buf = overwrite p.buf begin new;
      downloaded = p.downloaded + length new;
      backlog = dec p.backlog;
      no_progress = 0;
    } in
    (q, rw (parsed, same, inside) refl, refl, refl, refl)

pub length-slice :
    (content : Bytes) (begin n : ℕ)
    → begin + n ≤ length content
    → length (take n (drop begin content)) ≡ n
length-slice content begin n h =
    omega (arith, length-take n (drop begin content), length-drop begin content)

-- A byte of the buffer after a block of the content has been copied into it.
pub copied :
    (buf content : Bytes) (begin n x : ℕ)
    → begin + n ≤ length content
    → length buf ≡ length content
    → ((get_or buf x 0 ≡ get_or content x 0) ⊎ ((leb begin x && ltb x (begin + n)) ≡ true))
    → get_or (overwrite buf begin (take n (drop begin content))) x 0 ≡ get_or content x 0
copied buf content begin n x fits same h =
    let new = take n (drop begin content) in
    let size : length new ≡ n = length-slice content begin n fits in
    let over = get_or-overwrite buf begin new x (omega arith) in
    elim (Bool-cases (leb begin x && ltb x (begin + n))) [
      | inl e ↦
          let t = get_or-take n (drop begin content) (x - begin) (ground (arith, e)) in
          let d = get_or-drop begin content (x - begin) in
          let at : begin + (x - begin) ≡ x = ground (arith, e) in
          ground (arith, over, size, e, t, rw at at d)
      | inr e ↦ ground (arith, over, size, e, h)
    ]

pub one_byte : (pw : PieceWork) (content : Bytes) (g : Frame) → 1 ≤ length (sent pw content g)
unfolding write write_keep_alive
one_byte pw content (block b n) = omega arith
one_byte pw content (aside m) = omega arith
one_byte pw content ping = omega arith

pub length-all_sent :
    (pw : PieceWork) (content : Bytes) (fs : List Frame)
    → length fs ≤ length (all_sent pw content fs)
length-all_sent pw content [] = omega arith
length-all_sent pw content (g ∷ fs) =
    let ih = length-all_sent pw content fs in
    let sum = length-append (sent pw content g) (all_sent pw content fs) in
    let one = one_byte pw content g in omega (arith, ih, sum, one)

pub still_known :
    (buf content : Bytes) (begin n : ℕ) (fs : List Frame) (x : ℕ)
    → begin + n ≤ length content
    → length buf ≡ length content
    → ((get_or buf x 0 ≡ get_or content x 0) ⊎ (covers (block begin n ∷ fs) x ≡ true))
    → (get_or (overwrite buf begin (take n (drop begin content))) x 0 ≡ get_or content x 0)
      ⊎ (covers fs x ≡ true)
unfolding covers
still_known buf content begin n fs x fits same (inl e) =
    inl (copied buf content begin n x fits same (inl e))
still_known buf content begin n fs x fits same (inr c) =
    elim (Bool-cases (leb begin x && ltb x (begin + n))) [
      | inl e ↦ inl (copied buf content begin n x fits same (inr e))
      | inr e ↦ inr (ground (arith, c, e))
    ]

pub length-new_piece_message :
    (index begin : ℕ) (new : Bytes)
    → length (new_piece_message index begin new).payload ≡ 8 + length new
unfolding new_piece_message
length-new_piece_message index begin new = omega arith

pub unchoked :
    (takes : Bytes → Bool) (f : ℕ) (c : Client) (r : Bytes)
    → 0 < f
    → c.choked ≡ true
    → wait_for_unchoke takes (suc f) c (write (bare MsgId.unchoke) ++ r)
      ≡ done (record c { choked = false }) r tt
unfolding wait_for_unchoke handle_other
unchoked takes zero c r pos_f choked = absurd (omega arith)
unchoked takes (suc f) c r pos_f choked =
    simp (choked, read_small (bare MsgId.unchoke) r (omega arith))

pub interested :
    (takes : Bytes → Bool) (c : Client)
    → takes (declared c) ≡ true
    → ((send_interested takes c).1 ≡ true)
      × ((send_interested takes c).0.choked ≡ c.choked)
      × ((send_interested takes c).0.out ≡ declared c)
unfolding send_interested send
interested takes c taken = elim (Bool-cases c.sent_interested) [
  | inl e ↦ rw (e, send_interested) (refl, refl, refl)
  | inr e ↦
      let t : takes (c.out ++ write (bare MsgId.interested)) ≡ true = rw e at taken in
      rw (e, t, send_interested) (refl, refl, refl)
]
