-- ===== src/Download/Upload/Served.antt =====
-- download/upload.go: every run of the serve loop writes truthful replies, and ends.
use stor.Prelude.{
  ℕ, zero, suc, ◌+◌, ◌-◌, ◌*◌, ◌^◌, ◌≤◌, ◌<◌, Bool, true, false, not, if◌then◌else◌, ◌==◌, ◌&&◌,
  ltb, leb, [], ◌∷◌, ◌++◌, List, some, ◌≡◌, refl, ◌∙◌, sym, subst, arith, length, take, drop,
  append-nil, Bool-cases, inl, inr, ◌⊎◌,
}
use stor.Prelude.Words.{Bytes, IsBytes, uint32_at}
use stor.Peer.MsgId
use stor.Peer.Bitfield.{get_or-lt}
use stor.Peer.Message.{
  Message, Read, message, keep_alive, failed, read_message, read_body, Parsed, ok, err, write,
  new_piece_message, parse_request,
}
use stor.Peer.Message.Framing.{read_message-cases}
use stor.Download.Client.{Client, send, max_request}
use stor.Download.Upload.{
  Shared, Reason, peer_error, bad_request, invalid_index, too_large, out_of_bounds, write_failed,
  out_of_fuel, Step, go_on, stop, offset_of, is_outside, refuse, send_block, serve_request,
  serve_message, serve_steps, serve_loop,
}
use stor.Download.Upload.Replies.{
  Reply, served, text, sum_served, still_choking, is_polite, Replied, Replied-nothing, Replied-then,
  handle_have-Replied, send_unchoke-Replied, refuse-Replied,
}

drop-IsBytes : (n : ℕ) (b : Bytes) → IsBytes b → IsBytes (drop n b)
drop-IsBytes zero b h = h
drop-IsBytes (suc n) [] h = tt
drop-IsBytes (suc n) (x ∷ b) h = drop-IsBytes n b h.1

take-IsBytes : (n : ℕ) (b : Bytes) → IsBytes b → IsBytes (take n b)
take-IsBytes zero b h = tt
take-IsBytes (suc n) [] h = tt
take-IsBytes (suc n) (x ∷ b) h = (h.0, take-IsBytes n b h.1)

-- What is read from bytes is bytes.
abbrev ReadsBytes : Read → Type 0
ReadsBytes (message m rest) = IsBytes m.payload × IsBytes rest
ReadsBytes (keep_alive rest) = IsBytes rest
ReadsBytes (failed e) = Unit

read_body-ReadsBytes : (n : ℕ) (r : Bytes) → IsBytes r → ReadsBytes (read_body n r)
unfolding read_body
read_body-ReadsBytes n [] h = tt
read_body-ReadsBytes n (b ∷ r) h =
    ground (arith, take-IsBytes (n - 1) r h.1, drop-IsBytes (n - 1) r h.1)

read_message-ReadsBytes : (r : Bytes) → IsBytes r → ReadsBytes (read_message r)
unfolding read_message
read_message-ReadsBytes r h = ground (
  arith,
  drop-IsBytes 4 r h,
  read_body-ReadsBytes (uint32_at r 0) (drop 4 r) (drop-IsBytes 4 r h),
)

uint32_at-lt : (b : Bytes) (i : ℕ) → IsBytes b → uint32_at b i < 2 ^ 32
uint32_at-lt b i h =
    omega
      (arith, get_or-lt b i h, get_or-lt b (i + 1) h, get_or-lt b (i + 2) h, get_or-lt b (i + 3) h)

-- A request whose fields have 32 bits.
abbrev IsSmall : Parsed (ℕ × ℕ × ℕ) → Type 0
IsSmall (err e) = Unit
IsSmall (ok (index, begin, len)) = begin < 2 ^ 32

parse_request-IsSmall : (b : Bytes) → IsBytes b → IsSmall (parse_request b)
unfolding parse_request
parse_request-IsSmall b h = ground (arith, uint32_at-lt b 4 h)

abbrev pub is_write_failed : Reason → Bool
is_write_failed write_failed = true
is_write_failed _ = false

abbrev pub is_out_of_fuel : Reason → Bool
is_out_of_fuel out_of_fuel = true
is_out_of_fuel _ = false

Step-cases :
    (s : Step) → ((c : Client) × (s ≡ go_on c)) ⊎ ((c : Client) × (e : Reason) × (s ≡ stop c e))
Step-cases (go_on c) = inl (c, refl)
Step-cases (stop c e) = inr (c, e, refl)

mul_mono : (a b k : ℕ) → a ≤ b → a * k ≤ b * k
mul_mono a b k h = grind arith

module _ (takes : Bytes → Bool) (read : ℕ → ℕ → Bytes × Bool) (tf : Shared) (content : Bytes)
    (fast : Bool) where
  -- What a step or the loop leaves, as replies.
  abbrev pub Answers : Client → Client → Reason → Type 0
  Answers c c' reason =
      (rs : List Reply) × Replied content tf fast c c' rs (not (is_write_failed reason))

  abbrev pub Ends : Client → Client × Reason → Type 0
  Ends c end = Answers c end.0 end.1 × (is_out_of_fuel end.1 ≡ false)

  abbrev StepAnswers : Client → Step → Type 0
  StepAnswers c (go_on c') = (rs : List Reply) × Replied content tf fast c c' rs true
  StepAnswers c (stop c' reason) = Answers c c' reason × (is_out_of_fuel reason ≡ false)

  module _
      (reads : (need off : ℕ)
        → (read need off).1 ≡ true
        → length (read need off).0 ≡ need
        → (read need off).0 ≡ take need (drop off content))
      (no_overflow : tf.num_pieces * tf.piece_len + 2 ^ 33 ≤ 2 ^ 63) where
    send_block-StepAnswers :
        (index begin len : ℕ) (c : Client)
        → index < tf.num_pieces
        → begin < 2 ^ 32
        → len ≤ max_request
        → is_outside tf (offset_of tf index begin) len ≡ false
        → c.choking ≡ false
        → StepAnswers c (send_block takes read tf index begin len c)
    unfolding send_block send is_outside text sum_served still_choking is_polite
    send_block-StepAnswers index begin len c i b l inside free =
        let here = index * tf.piece_len + begin in
        let below = mul_mono index tf.num_pieces tf.piece_len (omega arith) in
        let exact : offset_of tf index begin ≡ here = omega (arith, below) in
        let (block, no_error) = read len here in
        let fits : here + len ≤ tf.total = ground (arith, rw exact at inside, below) in
        let m = new_piece_message index begin block in
        let replied : length block ≡ len
            → block ≡ take len (drop here content)
            → (c' : Client) (counted : Bool) → c'.out ≡ c.out ++ write m
            → c'.choking ≡ c.choking
            → c'.fast_ext ≡ c.fast_ext
            → (counted ≡ true → c'.uploaded ≡ c.uploaded + len)
            → Replied content tf fast c c' (served index begin block ∷ []) counted =
          λ size right c' counted out same_choking same_fast counts. record {
            out = rw append-nil out;
            truthful = ((i, omega arith, omega arith, rw size right), tt);
            polite = ground (arith, free);
            choking = λ h. free;
            counts = λ h. omega (arith, counts h, size);
            same_fast = same_fast;
          } in
        elim (Bool-cases (no_error && length block == len)) [
          | inr e ↦
              rw (exact, e) (([], Replied-nothing content tf fast c c refl refl refl refl), refl)
          | inl e ↦
              let size : length block ≡ len = ground (arith, e) in
              let right = reads len here (ground (arith, e)) size in
              elim (Bool-cases (takes (c.out ++ write m))) [
                | inl y ↦
                    rw (exact, e, y)
                      (
                        served index begin block ∷ [],
                        replied size right
                            (record c { out = c.out ++ write m; uploaded = c.uploaded + len }) true
                            refl refl refl (λ h. refl),
                      )
                | inr w ↦
                    rw (exact, e, w)
                      (
                        (
                          served index begin block ∷ [],
                          replied size right (record c { out = c.out ++ write m }) false refl refl
                              refl (λ h. ground (arith, h)),
                        ),
                        refl,
                      )
              ]
        ]

    stopped :
        (c : Client) (reason : Reason)
        → is_write_failed reason ≡ false
        → is_out_of_fuel reason ≡ false
        → StepAnswers c (stop c reason)
    stopped c reason a b = (([], rw a (Replied-nothing content tf fast c c refl refl refl refl)), b)

    serve_request-StepAnswers :
        (p : Parsed (ℕ × ℕ × ℕ)) (c : Client)
        → IsSmall p
        → c.choking ≡ false
        → StepAnswers c (serve_request takes read tf p c)
    unfolding serve_request
    serve_request-StepAnswers (err e) c small free = stopped c (bad_request e) refl refl
    serve_request-StepAnswers (ok (index, begin, len)) c small free =
        elim (Bool-cases (leb tf.num_pieces index)) [
          | inl e ↦ simp e (stopped c invalid_index refl refl)
          | inr e ↦ elim (Bool-cases (ltb max_request len)) [
            | inl g ↦ simp (e, g) (stopped c too_large refl refl)
            | inr g ↦ elim (Bool-cases (is_outside tf (offset_of tf index begin) len)) [
              | inl o ↦ rw (e, g, o) (stopped c out_of_bounds refl refl)
              | inr o ↦
                  rw (e, g, o)
                    (send_block-StepAnswers index begin len c (ground (arith, e)) small
                      (ground (arith, g)) o free)
            ]
          ]
        ]

    by_choking :
        (p : Parsed (ℕ × ℕ × ℕ)) (c : Client) (choking : Bool)
        → IsSmall p
        → c.fast_ext ≡ fast
        → c.choking ≡ choking
        → StepAnswers c (if choking then go_on (refuse p c) else serve_request takes read tf p c)
    by_choking p c true small is_fast e = refuse-Replied content tf fast p c is_fast e
    by_choking p c false small is_fast e = serve_request-StepAnswers p c small e

    serve_message-StepAnswers :
        (m : Message) (c : Client)
        → IsBytes m.payload
        → c.fast_ext ≡ fast
        → StepAnswers c (serve_message takes read tf m c)
    unfolding serve_message
    serve_message-StepAnswers m c bytes is_fast =
        let nothing : (c' : Client)
            → c'.out ≡ c.out
            → c'.choking ≡ c.choking
            → c'.uploaded ≡ c.uploaded
            → c'.fast_ext ≡ c.fast_ext
            → StepAnswers c (go_on c') =
          λ c' a b d e. ([], Replied-nothing content tf fast c c' a b d e) in
        elim (Bool-cases (m.id == MsgId.interested)) [
          | inl a ↦ simp a (send_unchoke-Replied content tf fast takes c)
          | inr a ↦ elim (Bool-cases (m.id == MsgId.request)) [
            | inl b ↦
                simp (a, b)
                  (by_choking (parse_request m.payload) c c.choking
                    (parse_request-IsSmall m.payload bytes) is_fast refl)
            | inr b ↦ elim (Bool-cases (m.id == MsgId.have)) [
              | inl d ↦ simp (a, b, d) ([], handle_have-Replied content tf fast m.payload c)
              | inr d ↦ elim (Bool-cases (m.id == MsgId.bitfield)) [
                | inl e ↦ simp (a, b, d, e) (nothing _ refl refl refl refl)
                | inr e ↦ elim (Bool-cases (m.id == MsgId.have_all)) [
                  | inl f ↦ simp (a, b, d, e, f) (nothing _ refl refl refl refl)
                  | inr f ↦ elim (Bool-cases (m.id == MsgId.have_none)) [
                    | inl g ↦ simp (a, b, d, e, f, g) (nothing _ refl refl refl refl)
                    | inr g ↦ simp (a, b, d, e, f, g) (nothing _ refl refl refl refl)
                  ]
                ]
              ]
            ]
          ]
        ]

    serve_steps-Answers :
        (f : ℕ) (c : Client) (r : Bytes)
        → length r < f
        → IsBytes r
        → c.fast_ext ≡ fast
        → Ends c (serve_steps takes read tf f c r)
    unfolding serve_steps
    serve_steps-Answers zero c r enough bytes is_fast = absurd (omega arith)
    serve_steps-Answers (suc f) c r enough bytes is_fast = elim (read_message-cases r) [
      | inr (inr (x, failure)) ↦
          let eq : serve_steps takes read tf (suc f) c r ≡ (c, peer_error x) =
            rw (serve_steps, failure) refl in
          subst (Ends c) (sym eq) (stopped c (peer_error x) refl refl)
      | inr (inl (rest, ping, lt)) ↦
          let eq : serve_steps takes read tf (suc f) c r ≡ serve_steps takes read tf f c rest =
            rw (serve_steps, ping) refl in
          subst (Ends c) (sym eq) (
            serve_steps-Answers f c rest (omega arith)
              (rw ping at (read_message-ReadsBytes r bytes)) is_fast)
      | inl (m, rest, got, lt) ↦
          let (payload_bytes, rest_bytes) = rw got at (read_message-ReadsBytes r bytes) in
          let step = serve_message-StepAnswers m c payload_bytes is_fast in
          elim (Step-cases (serve_message takes read tf m c)) [
            | inr (c', reason, off) ↦
                let eq : serve_steps takes read tf (suc f) c r ≡ (c', reason) =
                  rw (serve_steps, got, off) refl in
                subst (Ends c) (sym eq) (rw off at step)
            | inl (c', on) ↦
                let (rs, replied) = rw on at step in
                let ((ss, later), ended) =
                  serve_steps-Answers f c' rest (omega arith) rest_bytes
                    (replied.same_fast ∙ is_fast) in
                let eq : serve_steps takes read tf (suc f) c r
                    ≡ serve_steps takes read tf f c' rest =
                  rw (serve_steps, got, on) refl in
                subst (Ends c) (sym eq)
                  ((rs ++ ss, Replied-then content tf fast c c' _ rs ss _ replied later), ended)
          ]
    ]

    -- Where the reader gives the content or an error and int64 has room for the offsets, the serve loop
    -- ends on every stream of bytes, and all that it writes is a list of replies: unchokes, rejects to
    -- a peer with the fast extension, and blocks of the content within the torrent, of 32 KiB at most,
    -- none of them to a choked peer; the counter counts the blocks unless a write fails.
    pub serve_loop-Ends :
        (c : Client) (r : Bytes)
        → IsBytes r
        → c.fast_ext ≡ fast
        → Ends c (serve_loop takes (some read) tf c r)
    unfolding serve_loop
    serve_loop-Ends c r bytes is_fast =
        serve_steps-Answers (suc (length r)) c r (omega arith) bytes is_fast
