-- ===== src/Utp/Receive.antt =====
-- utp/conn.go: deliverInOrder, with setFirstExpected. The reorder buffer is an association list, and
-- what the source sends to `recvCh` is the list that a call returns, in order. (A connection that is
-- closed meanwhile drops the rest of that list; that is not modelled.)
mod Held
pub mod Flush
pub mod InOrder
use stor.Prelude.{
  ℕ, zero, suc, ◌+◌, Bool, true, false, if◌then◌else◌, ◌==◌, ltb, [], ◌∷◌, ◌++◌, List, Option, none,
  some, length,
}
use stor.Prelude.Words.{Bytes}
use stor.Utp.Seq.{seq_add, seq_sub, wrapping_gt}

abbrev pub Buffer : Type 0
Buffer = List (ℕ × Bytes)

pub record Receiver : Type 0 where
  pub next_expected : ℕ
  pub recv_inited : Bool
  pub ack_nr : ℕ
  pub reorder_buf : Buffer

abbrev pub reorder_buf_max : ℕ
reorder_buf_max = 64

unfoldable pub lookup_seq : ℕ → Buffer → Option Bytes
lookup_seq s [] = none
lookup_seq s ((q, p) ∷ b) = if q == s then some p else lookup_seq s b

unfoldable pub delete_seq : ℕ → Buffer → Buffer
delete_seq s [] = []
delete_seq s ((q, p) ∷ b) = if q == s then delete_seq s b else (q, p) ∷ delete_seq s b

unfoldable pub insert_seq : ℕ → Bytes → Buffer → Buffer
unfolding delete_seq
insert_seq s p b = (s, p) ∷ delete_seq s b

unfoldable pub set_first_expected : ℕ → Receiver → Receiver
set_first_expected s r = record r { next_expected = s; recv_inited = true }

-- `if len(p) > 0 { toDeliver = append(toDeliver, p) }`
abbrev pub chunk : Bytes → List Bytes
chunk [] = []
chunk (b ∷ p) = (b ∷ p) ∷ []

pub record Flushed : Type 0 where
  pub next : ℕ
  pub left : Buffer
  pub out : List Bytes

-- The loop that flushes consecutive packets. Each round deletes an entry, so the number of entries
-- is fuel enough.
unfoldable pub flush : ℕ → ℕ → Buffer → Flushed
flush zero next b = record { next = next; left = b; out = [] }
flush (suc f) next b = elim (lookup_seq next b) [
  | none ↦ record { next = next; left = b; out = [] }
  | some p ↦
      let r = flush f (seq_add next 1) (delete_seq next b) in record r { out = chunk p ++ r.out }
]

-- `case seqNr == c.nextExpected`.
unfoldable pub advance : Receiver → Bytes → Receiver × List Bytes
advance r p =
    let f = flush (length r.reorder_buf) (seq_add r.next_expected 1) r.reorder_buf in
    (
      record r { next_expected = f.next; ack_nr = seq_sub f.next 1; reorder_buf = f.left },
      chunk p ++ f.out,
    )

-- The `switch`, on an initialised receiver.
unfoldable pub deliver_inited : Receiver → ℕ → Bytes → Receiver × List Bytes
unfolding advance
deliver_inited r s p =
    if s == r.next_expected
    then advance r p
    else if wrapping_gt s r.next_expected
    then if ltb (length r.reorder_buf) reorder_buf_max
      then (record r { reorder_buf = insert_seq s p r.reorder_buf }, [])
      else (r, [])
    else (r, [])

unfoldable pub deliver_in_order : Receiver → ℕ → Bytes → Receiver × List Bytes
deliver_in_order r s p = deliver_inited (if r.recv_inited then r else set_first_expected s r) s p
