-- ===== src/Download/Piece.antt =====
-- download/download.go: DownloadPiece over the bytes that the peer sends. The buffer that the pool or
-- make gives and the hash function are parameters, and so is `rates`, the client's download rate as
-- each round of the loop reads it. The timeout of 30 seconds is an end of the bytes.
pub mod Requests
pub mod Opening
pub mod Frames
pub mod Sound
pub mod Honest
use stor.Prelude.{
  ℕ, zero, suc, ◌+◌, ◌-◌, ◌*◌, ◌<◌, Bool, true, false, not, if◌then◌else◌, ◌==◌, ◌&&◌, ltb, leb, [],
  ◌∷◌, ◌++◌, List, Option, none, some, length, min,
}
use stor.Prelude.Int.{ℤ, pos, inc, dec, leb_ℤ}
use stor.Prelude.Words.{Bytes}
use stor.Bencode.Value.{str_eq}
use stor.Storage.Disk.{overwrite}
use stor.Peer.MsgId
use stor.Peer.Message.{
  Message, Error, Parsed, Read, message, keep_alive, failed, read_message, Parsed, ok, err, write,
  new_request_message, parse_piece,
}
use stor.Download.PieceQueue.Queue.{PieceWork}
use stor.Download.Client.{
  Client, block_size, max_unexpected_messages, pipeline_target, send_interested, send_unchoke,
  handle_have, handle_request, handle_extended,
}

-- `out_of_fuel` has no counterpart.
pub data Failure : Type 0 where
  write_failed : Failure
  read_failed : Error → Failure
  bad_piece : Error → Failure
  too_many_unexpected : Failure
  out_of_bounds : Failure
  peer_choked : Failure
  rejected : Failure
  hash_mismatch : Failure
  out_of_fuel : Failure

-- The client afterwards with the bytes that it has not read, and what the call gives.
pub data Result {ℓ} (A : Type ℓ) : Type ℓ where
  done : Client → Bytes → A → Result A
  fail : Client → Bytes → Failure → Result A

-- What is common to the messages that waitForUnchoke and DownloadPiece treat alike.
unfoldable pub handle_other : (Bytes → Bool) → Message → Client → Client
handle_other takes m c =
    if m.id == MsgId.unchoke
    then record c { choked = false }
    else if m.id == MsgId.have
    then handle_have m.payload c
    else if m.id == MsgId.interested
    then (send_unchoke takes c).0
    else if m.id == MsgId.request
    then handle_request m.payload c
    else if m.id == MsgId.extended
    then handle_extended m.payload c
    else c

-- A message of choke leaves the client choked, as it is in this loop.
unfoldable pub wait_for_unchoke : (Bytes → Bool) → ℕ → Client → Bytes → Result (Unit {0})
unfolding handle_other
wait_for_unchoke takes zero c r = fail c r out_of_fuel
wait_for_unchoke takes (suc f) c r =
    let wait : Result (Unit {0}) = elim (read_message r) [
      | failed e ↦ fail c r (read_failed e)
      | keep_alive rest ↦ wait_for_unchoke takes f c rest
      | message m rest ↦ wait_for_unchoke takes f (handle_other takes m c) rest
    ] in
    if c.choked then wait else done c r tt

-- The requests of one round, up to the target: what is requested, the backlog and the bytes written.
unfoldable pub request_blocks : ℕ → ℤ → PieceWork → ℕ → ℤ → Bytes → ℕ × ℤ × Bytes
request_blocks zero target pw requested backlog out = (requested, backlog, out)
request_blocks (suc f) target pw requested backlog out =
    let size = min block_size (pw.len - requested) in
    let rest =
      request_blocks f target pw (requested + size) (inc backlog)
        (out ++ write (new_request_message pw.index requested size)) in
    if not (leb_ℤ target backlog) && ltb requested pw.len then rest else (requested, backlog, out)

-- The variables of the loop.
pub record Progress : Type 0 where
  pub client : Client
  pub buf : Bytes
  pub downloaded : ℕ
  pub requested : ℕ
  pub backlog : ℤ
  pub no_progress : ℕ

-- One message within the loop: the state to go on in, or the failure with the client.
pub data Step : Type 0 where
  go_on : Progress → Step
  stop : Client → Failure → Step

unfoldable pub take_block : PieceWork → ℕ × ℕ × Bytes → Progress → Step
take_block pw (index, begin, block) p =
    if not (index == pw.index)
    then if ltb max_unexpected_messages (suc p.no_progress)
      then stop p.client too_many_unexpected
      else go_on (record p {
        backlog = dec p.backlog;
        no_progress = suc p.no_progress;
        requested = if leb_ℤ (dec p.backlog) (pos 0) then p.downloaded else p.requested;
      })
    else if ltb (length p.buf) (begin + length block)
    then stop p.client out_of_bounds
    else go_on (record p {
      client = record p.client { downloaded = p.client.downloaded + length block };
      buf = overwrite p.buf begin block;
      downloaded = p.downloaded + length block;
      backlog = dec p.backlog;
      no_progress = 0;
    })

unfoldable pub take_piece : PieceWork → Parsed (ℕ × ℕ × Bytes) → Progress → Step
unfolding take_block
take_piece pw (err e) p = stop p.client (bad_piece e)
take_piece pw (ok b) p = take_block pw b p

unfoldable pub handle_message : (Bytes → Bool) → PieceWork → Message → Progress → Step
unfolding take_piece handle_other
handle_message takes pw m p =
    if m.id == MsgId.piece
    then take_piece pw (parse_piece m.payload) p
    else if m.id == MsgId.choke
    then stop (record p.client { choked = true }) peer_choked
    else if m.id == MsgId.reject
    then stop p.client rejected
    else go_on (record p { client = handle_other takes m p.client })

-- The writes of a round, before it reads.
unfoldable pub request_round : PieceWork → ℤ → Progress → Progress
unfolding request_blocks
request_round pw rate p =
    let (requested, backlog, out) =
      request_blocks pw.len (pos (pipeline_target p.client rate)) pw p.requested p.backlog
        p.client.out in
    record p { client = record p.client { out = out }; requested = requested; backlog = backlog }

module _ (sha1 : Bytes → Bytes) (takes : Bytes → Bool) (rates : ℕ → ℤ) (pw : PieceWork) where
  unfoldable pub finish : Progress → Bytes → Result Bytes
  finish p r =
      if str_eq (sha1 p.buf) pw.hash then done p.client r p.buf else fail p.client r hash_mismatch

  unfoldable pub download_loop : ℕ → Progress → Bytes → Result Bytes
  unfolding finish request_round handle_message
  download_loop zero p r = fail p.client r out_of_fuel
  download_loop (suc f) p r =
      let q = request_round pw (rates f) p in
      let round : Result Bytes = elim (read_message r) [
        | failed e ↦ fail q.client r (read_failed e)
        | keep_alive rest ↦ download_loop f q rest
        | message m rest ↦ elim (handle_message takes pw m q) [
          | stop c e ↦ fail c rest e
          | go_on s ↦ download_loop f s rest
        ]
      ] in
      if not (ltb p.downloaded pw.len)
      then finish p r
      else if not (takes q.client.out)
      then fail q.client r write_failed
      else round

  -- Every round reads four bytes at least.
  unfoldable pub download_piece : Bytes → Client → Bytes → Result Bytes
  unfolding download_loop wait_for_unchoke
  download_piece buf c r =
      let (c', sent) = send_interested takes c in
      let got : Result Bytes = elim (wait_for_unchoke takes (suc (length r)) c' r) [
        | fail d rest e ↦ fail d rest e
        | done d rest _ ↦
            download_loop (suc (length rest))
              (record {
                client = d;
                buf = buf;
                downloaded = 0;
                requested = 0;
                backlog = pos 0;
                no_progress = 0;
              })
              rest
      ] in
      if sent then got else fail c' r write_failed
