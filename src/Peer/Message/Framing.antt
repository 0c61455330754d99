-- ===== src/Peer/Message/Framing.antt =====
-- A stream of messages is read back message by message, and the payloads parse.
use stor.Prelude.{
  ℕ, ◌+◌, ◌-◌, ◌%◌, ◌^◌, ◌≤◌, ◌<◌, if◌then◌else◌, ◌==◌, ltb, [], ◌∷◌, ◌++◌, ◌≡◌, arith, length,
  drop, length-append, take-append, drop-append, ◌∙◌, length-drop, inl, inr, ◌⊎◌, refl,
}
use stor.Prelude.Words.{Bytes, put_uint32, uint32_at}
use stor.Peer.Message.{
  Message, Error, Read, message, keep_alive, failed, too_large, read_body, max_message,
  read_message, write, write_keep_alive, new_request_message, new_cancel_message,
  new_reject_message, new_have_message, new_piece_message, new_allowed_fast_message, parse_request,
  parse_reject, parse_allowed_fast, parse_piece, parse_have, ok,
}

read_message-framed :
    (n : ℕ) (r : Bytes)
    → n < 2 ^ 32
    → read_message (put_uint32 n ++ r) ≡ (
        if n == 0
        then keep_alive r
        else if ltb max_message n
        then failed too_large
        else read_body n r)
unfolding read_message
read_message-framed n r h =
    let e : uint32_at (put_uint32 n ++ r) 0 ≡ n = omega arith in rw e (ground arith)

read_body-append :
    (m : Message) (r : Bytes)
    → read_body (1 + length m.payload) ((m.id ∷ m.payload) ++ r) ≡ message m r
unfolding read_body
read_body-append m r =
    let n = length m.payload in
    let e : 1 + n - 1 ≡ n = omega arith in
    rw e
      (ground (arith, take-append m.payload r, drop-append m.payload r, length-append m.payload r))

-- A written message that is not too large is read back, and the bytes behind it are left.
pub read_message-write :
    (m : Message) (r : Bytes)
    → 1 + length m.payload < 2 ^ 32
    → read_message (write m ++ r)
      ≡ (if ltb max_message (1 + length m.payload) then failed too_large else message m r)
unfolding write
read_message-write m r h =
    let n = 1 + length m.payload in
    let e : n % 2 ^ 32 ≡ n = omega arith in
    rw e
      (read_message-framed n (m.id ∷ (m.payload ++ r)) h ∙ rw (read_body-append m r) (ground arith))

-- Every read consumes: at least the four bytes of the length.
abbrev pub Shorter : Bytes → Read → Type 0
Shorter r (message m rest) = length rest + 5 ≤ length r
Shorter r (keep_alive rest) = length rest + 4 ≡ length r
Shorter r (failed e) = Unit

read_body-Shorter : (n : ℕ) (r h : Bytes) → length h ≡ length r + 4 → Shorter h (read_body n r)
unfolding read_body
read_body-Shorter n [] h e = tt
read_body-Shorter n (b ∷ r) h e = ground (arith, length-drop (n - 1) r)

pub read_message-Shorter : (r : Bytes) → Shorter r (read_message r)
unfolding read_message
read_message-Shorter r =
    ground (arith, length-drop 4 r, read_body-Shorter (uint32_at r 0) (drop 4 r) r)

-- What a read gives, as equations, with fewer bytes left.
Shorter-cases :
    (r : Bytes) (d : Read)
    → Shorter r d
    → ((m : Message) × (rest : Bytes) × (d ≡ message m rest) × (length rest < length r))
      ⊎ ((rest : Bytes) × (d ≡ keep_alive rest) × (length rest < length r))
      ⊎ ((e : Error) × (d ≡ failed e))
Shorter-cases r (message m rest) s = inl (m, rest, refl, omega arith)
Shorter-cases r (keep_alive rest) s = inr (inl (rest, refl, omega arith))
Shorter-cases r (failed e) s = inr (inr (e, refl))

pub read_message-cases :
    (r : Bytes)
    → ((m : Message) × (rest : Bytes) × (read_message r ≡ message m rest)
        × (length rest < length r))
      ⊎ ((rest : Bytes) × (read_message r ≡ keep_alive rest) × (length rest < length r))
      ⊎ ((e : Error) × (read_message r ≡ failed e))
read_message-cases r = Shorter-cases r (read_message r) (read_message-Shorter r)

-- The parsers read what the constructors write, for words of 32 bits.
pub parse-new :
    (index begin len : ℕ) (block : Bytes)
    → index < 2 ^ 32
    → begin < 2 ^ 32
    → len < 2 ^ 32
    → (parse_request (new_request_message index begin len).payload ≡ ok (index, begin, len))
      × (parse_request (new_cancel_message index begin len).payload ≡ ok (index, begin, len))
      × (parse_reject (new_reject_message index begin len).payload ≡ ok (index, begin, len))
      × (parse_piece (new_piece_message index begin block).payload ≡ ok (index, begin, block))
      × (parse_have (new_have_message index).payload ≡ ok index)
      × (parse_allowed_fast (new_allowed_fast_message index).payload ≡ ok index)
unfolding parse_request parse_piece parse_have parse_reject parse_allowed_fast new_request_message
    new_cancel_message new_reject_message new_piece_message new_have_message
    new_allowed_fast_message
parse-new index begin len block hi hb hl =
    let ei : uint32_at (put_uint32 index) 0 ≡ index = omega arith in
    let eb : uint32_at (put_uint32 begin) 0 ≡ begin = omega arith in
    let el : uint32_at (put_uint32 len) 0 ≡ len = omega arith in
    (rw (ei, eb, el), rw (ei, eb, el), rw (ei, eb, el), ground arith, rw ei, rw ei)

pub read_message-keep_alive : (r : Bytes) → read_message (write_keep_alive ++ r) ≡ keep_alive r
unfolding read_message write_keep_alive
read_message-keep_alive r = ground arith
