-- ===== src/Download/TransferTests.antt =====
-- The theorems of Download/Piece and Download/Upload at a piece of seven bytes.
use stor.Prelude.{
  zero, suc, ℕ, ◌<◌, ◌≤◌, ◌==◌, ◌||◌, if◌then◌else◌, Bool, true, false, [], ◌∷◌, ◌++◌, List, some,
  ◌≡◌, refl, arith, take, drop, replicate,
}
use stor.Prelude.Int.{ℤ, pos}
use stor.Prelude.Words.{Bytes}
use stor.Prelude.Text.{codes}
use stor.Peer.MsgId
use stor.Peer.Message.{write, new_request_message}
use stor.Download.PieceQueue.Queue.{PieceWork}
use stor.Download.Client.{Client, bare, pipeline_target}
use stor.Download.Piece.{Progress, request_round, download_piece}
use stor.Bencode.Value.{str_eq}
use stor.Download.Piece.Sound.{Verified, download_piece-Verified}
use stor.Download.Piece.Requests.{Asks, request_round-Asks}
use stor.Download.Piece.Opening.{declared, opening}
use stor.Download.Piece.Frames.{Frame, block, aside, ping, all_sent, sum_sizes, covers}
use stor.Download.Piece.Honest.{Succeeds, download_piece-Succeeds}
use stor.Download.PeerManager.{PeerManager, Heap, rechoke, contains}
use stor.Download.PeerManager.Rechoked.{Fair, Distinct, Descending, rechoke-Fair}
use stor.Download.Upload.{Shared, incoming_client, initial_message, serve_loop}
use stor.Download.Upload.Served.{Ends, serve_loop-Ends}
use stor.Download.Upload.Initial.{announced, ours, announced-initial_message}

abbrev words : Bytes
words = codes "1234567"

abbrev itself : Bytes → Bytes
itself b = b

abbrev takes_any : Bytes → Bool
takes_any b = true

abbrev slow : ℕ → ℤ
slow n = pos 0

abbrev work : PieceWork
work = record { index = 2; hash = words; len = 7 }

abbrev choked_client : Client
choked_client = record (incoming_client true []) { choked = true }

-- The end of the piece comes first, and a message of interest and a keep-alive between the blocks.
abbrev frames : List Frame
frames = block 3 4 ∷ aside (bare MsgId.interested) ∷ ping ∷ block 0 3 ∷ []

abbrev answer : Bytes
answer = write (bare MsgId.unchoke) ++ (all_sent work words frames ++ [])

download_piece-Verified_example :
    Verified itself work
      (download_piece itself takes_any slow work (replicate 7 0) choked_client answer)
download_piece-Verified_example =
    download_piece-Verified itself takes_any slow work (replicate 7 0) choked_client answer refl

covered : (x : ℕ) → x < 7 → covers frames x ≡ true
unfolding covers
covered x l = ground arith

abbrev begins_with : Bytes → Bytes → Bool
begins_with [] b = true
begins_with (x ∷ xs) [] = false
begins_with (x ∷ xs) (y ∷ ys) = if x == y then begins_with xs ys else false

-- A connection that breaks unless interest is declared and the first block is asked for.
abbrev takes_opened : Bytes → Bool
takes_opened b = str_eq b (declared choked_client) || begins_with (opening work choked_client) b

declares : takes_opened (declared choked_client) ≡ true
unfolding write
declares = refl

opened : (x : Bytes) → takes_opened (opening work choked_client ++ x) ≡ true
unfolding write new_request_message
opened x = refl

download_piece-Succeeds_example :
    Succeeds itself takes_opened slow work words
      (download_piece itself takes_opened slow work (replicate 7 0) choked_client answer)
unfolding sum_sizes
download_piece-Succeeds_example =
    download_piece-Succeeds itself takes_opened slow work words choked_client declares opened
      (omega arith) (omega arith) refl refl (replicate 7 0) frames [] refl refl ground arith refl
      covered

-- Some blocks of a piece of five are asked for, two are outstanding, and the pipeline has room for 16.
abbrev long_work : PieceWork
long_work = record { index = 0; hash = []; len = 70000 }

abbrev underway : Progress
underway = record {
  client = choked_client;
  buf = [];
  downloaded = 0;
  requested = 32768;
  backlog = pos 2;
  no_progress = 0;
}

request_round-Asks_example :
    (let target = pipeline_target choked_client (pos 0) in
      let q = request_round long_work (pos 0) underway in
      (1 ≤ target)
      × Asks long_work target 32768 (pos 2) [] (q.requested, q.backlog, q.client.out)
      × (q.buf ≡ [])
      × (q.downloaded ≡ 0))
request_round-Asks_example = request_round-Asks long_work (pos 0) underway (omega arith)

abbrev read_words : ℕ → ℕ → Bytes × Bool
read_words need off = (take need (drop off words), true)

abbrev shared : Shared
shared = record { num_pieces = 2; piece_len = 4; total = 7 }

-- A peer that is interested and then asks for three bytes of the second piece.
abbrev asks : Bytes
asks = 0 ∷ 0 ∷ 0 ∷ 1 ∷ 2 ∷ 0 ∷ 0 ∷ 0 ∷ 13 ∷ 6 ∷ 0 ∷ 0 ∷ 0 ∷ 1 ∷ 0 ∷ 0 ∷ 0 ∷ 0 ∷ 0 ∷ 0 ∷ 0 ∷ 3 ∷ []

serve_loop-Ends_example :
    Ends takes_any read_words shared words true
      (incoming_client true [])
      (serve_loop takes_any (some read_words) shared (incoming_client true []) asks)
serve_loop-Ends_example =
    serve_loop-Ends takes_any read_words shared words true (λ need off a b. refl) (omega arith)
      (incoming_client true []) asks ground arith refl

announced-initial_message_example :
    announced (initial_message false (some (128 ∷ [])) 2) 1 ≡ ours (some (128 ∷ [])) 1
announced-initial_message_example =
    announced-initial_message false (some (128 ∷ [])) 2 1 (omega arith) (λ e. ground (arith, e))

-- Three clients, of whom the second is the optimistic one; a client's number is its speed.
abbrev three : PeerManager
three = record { peers = 0 ∷ 1 ∷ 2 ∷ []; unchoke_slots = 1; optimistic_peer = some 1 }

abbrev clients : Heap
clients p = incoming_client true []

abbrev backwards : (ℕ → ℕ) → List ℕ → List ℕ
backwards speed ps = 2 ∷ 1 ∷ 0 ∷ []

abbrev itself_speed : ℕ → ℕ
itself_speed p = p

three-Distinct : Distinct (2 ∷ 1 ∷ 0 ∷ [])
unfolding Distinct contains
three-Distinct = (refl, (refl, (refl, tt)))

three-Descending : Descending itself_speed (2 ∷ 1 ∷ 0 ∷ [])
three-Descending zero zero h l = absurd (omega arith)
three-Descending zero (suc zero) h l = omega arith
three-Descending zero (suc (suc j)) h l = ground arith
three-Descending (suc i) zero h l = absurd (omega arith)
three-Descending (suc zero) (suc (suc zero)) h l = omega arith
three-Descending (suc i) (suc j) h l = ground arith

rechoke-Fair_example :
    Fair three itself_speed
      (2 ∷ 1 ∷ 0 ∷ [])
      (rechoke (λ p b. true) backwards itself_speed three clients)
rechoke-Fair_example =
    rechoke-Fair (λ p b. true) backwards itself_speed three clients (λ p b. refl) three-Distinct
      three-Descending
