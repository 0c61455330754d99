-- ===== src/Download/Upload/Initial.antt =====
-- download/upload.go: what the first message of an incoming connection says of our pieces.
use stor.Prelude.{
  ℕ, zero, suc, ◌<◌, Bool, true, false, if◌then◌else◌, ◌==◌, ◌&&◌, Option, none, some, ◌≡◌, refl,
  arith, length, Bool-cases, inl, inr,
}
use stor.Prelude.Int.{pos}
use stor.Prelude.Words.{Bytes}
use stor.Peer.MsgId
use stor.Peer.Bitfield.{has_piece, has_bit}
use stor.Peer.Message.{Message}
use stor.Download.Upload.{has_all_below, initial_message}

-- The pieces that a peer takes us to have after the message: none where there is no message.
abbrev pub announced : Option Message → ℕ → Bool
announced none i = false
announced (some m) i =
    if m.id == MsgId.have_all
    then true
    else if m.id == MsgId.bitfield
    then has_piece m.payload (pos i)
    else false

-- The pieces that we have: all of them where the bitfield is nil.
abbrev pub ours : Option Bytes → ℕ → Bool
ours none i = true
ours (some bf) i = has_piece bf (pos i)

has_all_below_sound :
    (bf : Bytes) (n i : ℕ) → has_all_below bf n ≡ true → i < n → has_piece bf (pos i) ≡ true
unfolding has_all_below
has_all_below_sound bf zero i all lt = absurd (omega arith)
has_all_below_sound bf (suc n) i all lt = elim (Bool-cases (i == n)) [
  | inl e ↦ let same : i ≡ n = ground (arith, e) in rw same (ground (arith, all))
  | inr e ↦ has_all_below_sound bf n i (ground (arith, all)) (ground (arith, e))
]

empty-has_piece : (bf : Bytes) (i : ℕ) → length bf ≡ 0 → has_piece bf (pos i) ≡ false
unfolding has_piece has_bit
empty-has_piece bf i e = ground (arith, e)

-- To a peer that has the fast extension, or where the bitfield is not nil, the first message
-- announces exactly the pieces that the bitfield has.
pub announced-initial_message :
    (fast : Bool) (bitfield : Option Bytes) (n i : ℕ)
    → i < n
    → (bitfield ≡ none → fast ≡ true)
    → announced (initial_message fast bitfield n) i ≡ ours bitfield i
unfolding initial_message
announced-initial_message fast none n i lt knows = rw (knows refl) refl
announced-initial_message fast (some bf) n i lt knows =
    elim (Bool-cases (fast && has_all_below bf n)) [
      | inl e ↦ rw e (ground (arith, has_all_below_sound bf n i (ground (arith, e)) lt))
      | inr e ↦ elim (Bool-cases (length bf == 0)) [
        | inr l ↦ rw (e, l) refl
        | inl l ↦ ground (arith, e, l, empty-has_piece bf i)
      ]
    ]
