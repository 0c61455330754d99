-- ===== src/Magnet/Metadata/Checked.antt =====
-- magnet/metadata.go: what FetchMetadata returns has the expected hash and length.
use stor.Prelude.{
  Option-cases, ℕ, zero, suc, ◌+◌, ◌*◌, ◌++◌, Bool, ◌==◌, ◌||◌, ltb, Option, none, some, ◌≡◌, refl,
  arith, length, Bool-cases, inl, inr, ◌⊎◌, length-replicate, replicate,
}
use stor.Prelude.Words.{Bytes}
use stor.Bencode.Value.{str_eq}
use stor.Bencode.Order.{str_eq_iff}
use stor.Storage.MultiFile.Stream.{length-overwrite}
use stor.Peer.Extension.{
  ExtConn, send_ext_message, Received, received, broken, out_of_fuel, read_ext_message,
}
use stor.Peer.Message.{Error}
use stor.Magnet.Metadata.{
  max_metadata_size, metadata_block_size, encode_metadata_request, MetadataMessage,
  decode_metadata_message, Failure, Result, fetched, failed, Step, go_on, stop, take_message,
  check_hash, fetch_loop, fetch_metadata,
}

abbrev KeepsLength : ℕ → Step → Type 0
KeepsLength size (go_on m) = length m ≡ size
KeepsLength size (stop e) = Unit

take_message-KeepsLength :
    (size i : ℕ) (o : Option MetadataMessage) (metadata : Bytes)
    → length metadata ≡ size
    → KeepsLength size (take_message size i o metadata)
unfolding take_message
take_message-KeepsLength size i none metadata h = tt
take_message-KeepsLength size i (some msg) metadata h =
    ground (arith, length-overwrite metadata (i * metadata_block_size) msg.block)

Step-cases : (s : Step) → ((m : Bytes) × (s ≡ go_on m)) ⊎ ((e : Failure) × (s ≡ stop e))
Step-cases (go_on m) = inl (m, refl)
Step-cases (stop e) = inr (e, refl)

Received-cases :
    (d : Received)
    → ((p : Bytes) × (rest : Bytes) × (d ≡ received p rest))
      ⊎ ((e : Error) × (d ≡ broken e))
      ⊎ (d ≡ out_of_fuel)
Received-cases (received p rest) = inl (p, rest, refl)
Received-cases (broken e) = inr (inl (e, refl))
Received-cases out_of_fuel = inr (inr refl)

module _ (sha1 : Bytes → Bytes) (takes : Bytes → Bool) (c : ExtConn) (size : ℕ)
    (info_hash : Bytes) where
  -- Metadata of the expected hash and length, or a failure.
  abbrev pub Checked : Result → Type 0
  Checked (fetched b) = (sha1 b ≡ info_hash) × (length b ≡ size)
  Checked (failed e) = Unit

  fetch_loop-Checked :
      (n i : ℕ) (metadata out r : Bytes)
      → length metadata ≡ size
      → Checked (fetch_loop sha1 takes c size info_hash n i metadata out r)
  unfolding fetch_loop check_hash
  fetch_loop-Checked zero i metadata out r h =
      elim (Bool-cases (str_eq (sha1 metadata) info_hash)) [
        | inl e ↦ rw e ((str_eq_iff _ _).0 e, h)
        | inr e ↦ rw e tt
      ]
  fetch_loop-Checked (suc n) i metadata out r h = elim (Option-cases (encode_metadata_request i)) [
    | inl miss ↦ rw (fetch_loop, miss) tt
    | inr (request, written) ↦
        let out' = out ++ send_ext_message c request in
        elim (Bool-cases (takes out')) [
          | inr w ↦ rw (fetch_loop, written, w) tt
          | inl w ↦ elim (Received-cases (read_ext_message c r)) [
            | inr (inl (e, off)) ↦ rw (fetch_loop, written, w, off) tt
            | inr (inr off) ↦ rw (fetch_loop, written, w, off) tt
            | inl (p, rest, got) ↦
                let kept = take_message-KeepsLength size i (decode_metadata_message p) metadata h in
                elim (Step-cases (take_message size i (decode_metadata_message p) metadata)) [
                  | inr (e, off) ↦ rw (fetch_loop, written, w, got, off) tt
                  | inl (m, on) ↦
                      rw (fetch_loop, written, w, got, on)
                        (fetch_loop-Checked n (i + 1) m out' rest (rw on at kept))
                ]
          ]
        ]
  ]

  -- Whatever the peer sends, the metadata that FetchMetadata returns has the expected hash and length.
  pub fetch_metadata-Checked :
      (out r : Bytes) → Checked (fetch_metadata sha1 takes c size info_hash out r)
  unfolding fetch_metadata
  fetch_metadata-Checked out r = elim (Bool-cases (size == 0 || ltb max_metadata_size size)) [
    | inl e ↦ rw e tt
    | inr e ↦ rw e (fetch_loop-Checked _ 0 (replicate size 0) out r (length-replicate size 0))
  ]
