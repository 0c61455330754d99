-- ===== src/Download/Piece/Opening.antt =====
-- download/download.go: what DownloadPiece writes first, and that what is written stays written.
use stor.Prelude.{
  ℕ, zero, suc, ◌+◌, ◌-◌, ◌*◌, ◌≤◌, ◌<◌, Bool, true, not, if◌then◌else◌, ◌==◌, ◌&&◌, ltb, leb, ◌++◌,
  ◌≡◌, ◌⊎◌, refl, sym, ◌∙◌, arith, min, Bool-cases, Option-cases, inl, inr, append_assoc,
}
use stor.Prelude.Int.{ℤ, pos, inc, leb_ℤ}
use stor.Prelude.Words.{Bytes}
use stor.Peer.MsgId
use stor.Peer.Message.{
  Message, Error, Parsed, ok, err, write, new_request_message, new_piece_message, parse_request,
}
use stor.Download.PieceQueue.Queue.{PieceWork}
use stor.Download.Client.{
  Client, block_size, pipeline_target, handle_have, safe_bitfield_set, handle_request,
  handle_extended, send_unchoke, send, bare, max_request,
}
use stor.Download.Piece.{Progress, handle_other, request_blocks, request_round}
use stor.Download.Piece.Requests.{
  Asks, block_requests, add_ℤ, request_blocks-Asks, pipeline_target-pos,
}

-- Bytes that begin with others.
abbrev pub StartsWith : Bytes → Bytes → Type 0
StartsWith base b = (x : Bytes) × (b ≡ base ++ x)

StartsWith-append : (base b x : Bytes) → StartsWith base b → StartsWith base (b ++ x)
StartsWith-append base b x (y, e) = (y ++ x, rw e (append_assoc base y x))

handle_have-out : (payload : Bytes) (c : Client) → (handle_have payload c).out ≡ c.out
unfolding handle_have safe_bitfield_set
handle_have-out payload c = ground arith

handle_extended-out : (payload : Bytes) (c : Client) → (handle_extended payload c).out ≡ c.out
unfolding handle_extended
handle_extended-out payload c = ground arith

Parsed-cases {ℓ} :
    {A : Type ℓ} (p : Parsed A) → ((a : A) × (p ≡ ok a)) ⊎ ((e : Error) × (p ≡ err e))
Parsed-cases (ok a) = inl (a, refl)
Parsed-cases (err e) = inr (e, refl)

handle_request-StartsWith :
    (base payload : Bytes) (c : Client)
    → StartsWith base c.out
    → StartsWith base (handle_request payload c).out
unfolding handle_request
handle_request-StartsWith base payload c s = elim (Option-cases c.on_request) [
  | inl e ↦ rw (e, handle_request) s
  | inr (serve, e) ↦ elim (Parsed-cases (parse_request payload)) [
    | inr (x, bad) ↦ rw (e, bad, handle_request) s
    | inl ((index, begin, len), good) ↦ elim (Bool-cases (ltb max_request len)) [
      | inl big ↦ rw (e, good, big, handle_request) s
      | inr small ↦ elim (Bool-cases (ltb 0 c.num_pieces && leb c.num_pieces index)) [
        | inl off ↦ rw (e, good, small, off, handle_request) s
        | inr on ↦ elim (Option-cases (serve index begin len)) [
          | inl miss ↦ rw (e, good, small, on, miss, handle_request) s
          | inr (block, hit) ↦
              rw (e, good, small, on, hit, handle_request)
                (StartsWith-append base c.out (write (new_piece_message index begin block)) s)
        ]
      ]
    ]
  ]
]

send_unchoke-StartsWith :
    (base : Bytes) (takes : Bytes → Bool) (c : Client)
    → StartsWith base c.out
    → StartsWith base (send_unchoke takes c).0.out
unfolding send_unchoke send
send_unchoke-StartsWith base takes c s =
    let more = StartsWith-append base c.out (write (bare MsgId.unchoke)) s in
    elim (Bool-cases c.choking) [
      | inr free ↦ rw (free, send_unchoke) s
      | inl closed ↦ elim (Bool-cases (takes (c.out ++ write (bare MsgId.unchoke)))) [
        | inl took ↦ rw (closed, took, send_unchoke) more
        | inr broke ↦ rw (closed, broke, send_unchoke) more
      ]
    ]

pub handle_other-StartsWith :
    (base : Bytes) (takes : Bytes → Bool) (m : Message) (c : Client)
    → StartsWith base c.out
    → StartsWith base (handle_other takes m c).out
unfolding handle_other
handle_other-StartsWith base takes m c s = elim (Bool-cases (m.id == MsgId.unchoke)) [
  | inl e ↦ rw (e, handle_other) s
  | inr a ↦ elim (Bool-cases (m.id == MsgId.have)) [
    | inl e ↦ rw (a, e, handle_other, handle_have-out m.payload c) s
    | inr b ↦ elim (Bool-cases (m.id == MsgId.interested)) [
      | inl e ↦ rw (a, b, e, handle_other) (send_unchoke-StartsWith base takes c s)
      | inr d ↦ elim (Bool-cases (m.id == MsgId.request)) [
        | inl e ↦ rw (a, b, d, e, handle_other) (handle_request-StartsWith base m.payload c s)
        | inr f ↦ elim (Bool-cases (m.id == MsgId.extended)) [
          | inl e ↦ rw (a, b, d, f, e, handle_other, handle_extended-out m.payload c) s
          | inr g ↦ rw (a, b, d, f, g, handle_other) s
        ]
      ]
    ]
  ]
]

request_blocks-StartsWith :
    (base : Bytes) (f : ℕ) (target : ℤ) (pw : PieceWork) (requested : ℕ) (backlog : ℤ) (out : Bytes)
    → StartsWith base out
    → StartsWith base (request_blocks f target pw requested backlog out).2
unfolding request_blocks
request_blocks-StartsWith base zero target pw requested backlog out s = s
request_blocks-StartsWith base (suc f) target pw requested backlog out s =
    let size = min block_size (pw.len - requested) in
    let asked = write (new_request_message pw.index requested size) in
    let later =
      request_blocks-StartsWith base f target pw (requested + size) (inc backlog) (out ++ asked)
        (StartsWith-append base out asked s) in
    elim (Bool-cases (not (leb_ℤ target backlog) && ltb requested pw.len)) [
      | inl e ↦ rw (e, request_blocks) later
      | inr e ↦ rw (e, request_blocks) s
    ]

-- What DownloadPiece writes first: the declaration of interest, unless it was made before, and the
-- request for the first block of the piece.
abbrev pub declared : Client → Bytes
declared c = if c.sent_interested then c.out else c.out ++ write (bare MsgId.interested)

abbrev pub opening : PieceWork → Client → Bytes
opening pw c = declared c ++ write (new_request_message pw.index 0 (min block_size pw.len))

-- The state of the loop: the opening is written, or the next round writes it.
abbrev pub Opens : PieceWork → Client → Progress → Type 0
Opens pw c p =
    StartsWith (opening pw c) p.client.out
    ⊎ ((p.client.out ≡ declared c) × (p.requested ≡ 0) × (p.backlog ≡ pos 0))

first_request :
    (pw : PieceWork) (target : ℕ) (out : Bytes) (r : ℕ × ℤ × Bytes)
    → 0 < pw.len
    → 1 ≤ target
    → Asks pw target 0 (pos 0) out r
    → StartsWith (out ++ write (new_request_message pw.index 0 (min block_size pw.len))) r.2
unfolding block_requests add_ℤ leb_ℤ
first_request pw target out r some_bytes room a =
    go a.count a.out_is a.requested_is a.backlog_is a.full
  where
    go :
        (n : ℕ)
        → r.2 ≡ out ++ block_requests pw 0 n
        → r.0 ≡ min pw.len (0 + n * block_size)
        → r.1 ≡ add_ℤ n (pos 0)
        → (r.0 ≡ pw.len) ⊎ (leb_ℤ (pos target) r.1 ≡ true)
        → StartsWith (out ++ write (new_request_message pw.index 0 (min block_size pw.len))) r.2
    go zero o q b (inl h) = absurd (omega arith)
    go zero o q b (inr h) = let h' : leb target 0 ≡ true = rw b at h in ground (arith, h', room)
    go (suc n) o q b h =
        let e : pw.len - 0 ≡ pw.len = omega arith in
        let size = min block_size pw.len in
        let ask = write (new_request_message pw.index 0 size) in
        (
          block_requests pw (0 + size) n,
          rw e at o ∙ sym (append_assoc out ask (block_requests pw (0 + size) n)),
        )

pub request_round-StartsWith :
    (pw : PieceWork) (rate : ℤ) (c : Client) (p : Progress)
    → 0 < pw.len
    → Opens pw c p
    → StartsWith (opening pw c) (request_round pw rate p).client.out
unfolding request_round
request_round-StartsWith pw rate c p some_bytes (inl s) =
    request_blocks-StartsWith (opening pw c) pw.len (pos (pipeline_target p.client rate)) pw
      p.requested p.backlog p.client.out s
request_round-StartsWith pw rate c p some_bytes (inr (o, q, b)) =
    let target = pipeline_target p.client rate in
    rw (← o) (
      first_request pw target p.client.out
        (request_blocks pw.len (pos target) pw p.requested p.backlog p.client.out) some_bytes
        (pipeline_target-pos p.client rate)
        (rw (q, b)
          (request_blocks-Asks pw.len target pw 0 (pos 0) p.client.out (omega arith)
            (omega arith))))
