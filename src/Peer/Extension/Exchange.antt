-- ===== src/Peer/Extension/Exchange.antt =====
-- ReadExtMessage returns the first message of its extension, and terminates on every stream.
use stor.Prelude.{
  ℕ, zero, suc, ◌+◌, ◌≤◌, ◌<◌, [], ◌∷◌, ◌++◌, ◌-◌, ◌≡◌, ◌≢◌, arith, List, length, append_assoc,
  append-nil, inl, inr, ◌⊎◌, All, ◌∙◌, length-append,
}
use stor.Prelude.Words.{Bytes}
use stor.Peer.MsgId
use stor.Peer.Message.{
  Message, Read, message, keep_alive, failed, max_message, read_message, write, write_keep_alive,
}
use stor.Peer.Message.Framing.{
  read_message-write, read_message-Shorter, Shorter, read_message-keep_alive,
}
use stor.Peer.Extension.{
  ExtConn, Received, received, broken, out_of_fuel, new_extended_message, parse_extended,
  send_ext_message, accept, read_ext_loop, read_ext_message,
}

-- Frames that the loop passes over: keep-alives, other messages, and other extensions.
abbrev Passes : ExtConn → Message → Type 0
Passes c m =
    (1 + length m.payload ≤ max_message)
    × ((m.id ≢ MsgId.extended)
        ⊎ ((b : ℕ) × (p : Bytes) × (m.payload ≡ b ∷ p) × (b ≢ c.local_ext_id)))

pub data Frame : Type 0 where
  ping : Frame
  frame : Message → Frame

abbrev pub Skipped : ExtConn → Frame → Type 0
Skipped c ping = Unit
Skipped c (frame m) = Passes c m

abbrev pub write_frames : List Frame → Bytes
write_frames [] = []
write_frames (ping ∷ fs) = write_keep_alive ++ write_frames fs
write_frames (frame m ∷ fs) = write m ++ write_frames fs

read_message-small :
    (m : Message) (r : Bytes)
    → 1 + length m.payload ≤ max_message
    → read_message (write m ++ r) ≡ message m r
read_message-small m r h = read_message-write m r (omega arith) ∙ ground arith

accept-Passes :
    (c : ExtConn) (m : Message) (rest : Bytes) (again : Received)
    → Passes c m
    → accept c m (parse_extended m.payload) rest again ≡ again
unfolding accept parse_extended
accept-Passes c m rest again (small, inr (b, p, e, ne)) = rw e (ground arith)
accept-Passes c m rest again (small, inl ne) = other_id m.payload
  where
    other_id : (p : Bytes) → accept c m (parse_extended p) rest again ≡ again
    other_id [] = ground arith
    other_id (b ∷ p) = ground arith

read_ext_loop-Skipped :
    (c : ExtConn) (f : ℕ) (fr : Frame) (r : Bytes)
    → Skipped c fr
    → read_ext_loop c (suc f) (write_frames (fr ∷ []) ++ r) ≡ read_ext_loop c f r
unfolding read_ext_loop
read_ext_loop-Skipped c f ping r s =
    rw (append-nil write_keep_alive, read_message-keep_alive r, read_ext_loop)
read_ext_loop-Skipped c f (frame m) r s =
    rw (append-nil (write m), read_message-small m r s.0, read_ext_loop) (accept-Passes c m r _ s)

write_frames-cons :
    (fr : Frame) (fs : List Frame) (r : Bytes)
    → write_frames (fr ∷ fs) ++ r ≡ write_frames (fr ∷ []) ++ (write_frames fs ++ r)
write_frames-cons ping fs r = simp (append-nil, append_assoc)
write_frames-cons (frame m) fs r = simp (append-nil, append_assoc)

read_ext_loop-frames :
    (c : ExtConn) (fs : List Frame) (f : ℕ) (r : Bytes)
    → All (Skipped c) fs
    → read_ext_loop c (length fs + f) (write_frames fs ++ r) ≡ read_ext_loop c f r
read_ext_loop-frames c [] f r s = let e : 0 + f ≡ f = omega arith in rw e
read_ext_loop-frames c (fr ∷ fs) f r s =
    let e : suc (length fs) + f ≡ suc (length fs + f) = omega arith in
    rw (e, write_frames-cons fr fs r)
      (read_ext_loop-Skipped c (length fs + f) fr (write_frames fs ++ r) s.0
        ∙ read_ext_loop-frames c fs f r s.1)

read_ext_loop-match :
    (c : ExtConn) (f : ℕ) (p r : Bytes)
    → 2 + length p ≤ max_message
    → read_ext_loop c (suc f) (write (new_extended_message c.local_ext_id p) ++ r) ≡ received p r
unfolding read_ext_loop accept parse_extended new_extended_message
read_ext_loop-match c f p r h =
    let m = new_extended_message c.local_ext_id p in
    rw (read_message-small m r (omega arith), read_ext_loop) (ground arith)

length-write_frames : (fs : List Frame) → length fs ≤ length (write_frames fs)
unfolding write write_keep_alive
length-write_frames [] = omega arith
length-write_frames (ping ∷ fs) = omega (arith, length-write_frames fs)
length-write_frames (frame m ∷ fs) =
    omega (arith, length-write_frames fs, length-append m.payload (write_frames fs))

-- ReadExtMessage passes over any run of keep-alives and of messages that are not for this
-- extension, and returns the payload that the other side sent with our id, leaving what follows it.
pub read_ext_message-send :
    (c : ExtConn) (fs : List Frame) (p r : Bytes)
    → All (Skipped c) fs
    → 2 + length p ≤ max_message
    → read_ext_message c (
        write_frames fs
        ++ (send_ext_message (record { local_ext_id = 0; remote_ext_id = c.local_ext_id }) p ++ r))
      ≡ received p r
unfolding read_ext_message send_ext_message
read_ext_message-send c fs p r s h =
    let sent = write (new_extended_message c.local_ext_id p) ++ r in
    let whole = write_frames fs ++ sent in
    let spare = length whole - length fs in
    let e : suc (length whole) ≡ length fs + suc spare =
      omega (arith, length-write_frames fs, length-append (write_frames fs) sent) in
    rw e (read_ext_loop-frames c fs (suc spare) sent s ∙ read_ext_loop-match c spare p r h)

accept-ne :
    (c : ExtConn) (m : Message) (rest : Bytes) (again : Received)
    → again ≢ out_of_fuel
    → accept c m (parse_extended m.payload) rest again ≢ out_of_fuel
unfolding accept parse_extended
accept-ne c m rest again h = by_payload m.payload
  where
    by_payload : (p : Bytes) → accept c m (parse_extended p) rest again ≢ out_of_fuel
    by_payload [] = ground arith
    by_payload (b ∷ p) = ground arith

read_ext_loop-ne :
    (c : ExtConn) (f : ℕ) (r : Bytes) → length r < f → read_ext_loop c f r ≢ out_of_fuel
unfolding read_ext_loop
read_ext_loop-ne c zero r h = absurd (omega arith)
read_ext_loop-ne c (suc f) r h =
    by_read (read_message r) (read_message-Shorter r) (λ rest lt. read_ext_loop-ne c f rest lt)
  where
    by_read :
        (d : Read)
        → Shorter r d
        → ((rest : Bytes) → length rest < f → read_ext_loop c f rest ≢ out_of_fuel)
        → elim d [
          | failed e ↦ broken e
          | keep_alive rest ↦ read_ext_loop c f rest
          | message m rest ↦ accept c m (parse_extended m.payload) rest (read_ext_loop c f rest)
        ]
          ≢ out_of_fuel
    by_read (failed e) s ih = cc
    by_read (keep_alive rest) s ih = ih rest (omega arith)
    by_read (message m rest) s ih = accept-ne c m rest _ (ih rest (omega arith))

-- The loop ends on every stream: the fuel is never used up.
pub read_ext_message-ne-out_of_fuel : (c : ExtConn) (r : Bytes) → read_ext_message c r ≢ out_of_fuel
unfolding read_ext_message
read_ext_message-ne-out_of_fuel c r = read_ext_loop-ne c (suc (length r)) r (omega arith)
