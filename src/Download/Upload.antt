-- ===== src/Download/Upload.antt =====
-- download/upload.go: what the Uploader does with one incoming connection. The reader of the files,
-- `read need off`, is a parameter, as storage/verify.go has it; `none` is one that cannot be opened.
-- int64 offsets are written out with their wrap-around; piece lengths and sizes are not negative, as
-- torrent.Parse makes sure. Write errors end the loop where the source looks at them.
pub mod Replies
pub mod Served
pub mod Initial
use stor.Prelude.{
  ℕ, zero, suc, ◌+◌, ◌*◌, ◌^◌, ◌%◌, Bool, true, false, not, if◌then◌else◌, ◌==◌, ◌&&◌, ◌||◌, ltb,
  leb, [], ◌++◌, List, map, Option, none, some, length,
}
use stor.Prelude.Int.{pos}
use stor.Prelude.Words.{Bytes}
use stor.Peer.MsgId
use stor.Peer.Bitfield.{has_piece, set_piece}
use stor.Peer.Handshake.{Handshake, write_handshake}
use stor.Peer.Message.{
  Message, Error, message, keep_alive, failed, read_message, Parsed, ok, err, write,
  new_piece_message, new_reject_message, parse_request,
}
use stor.Download.Client.{send_have, Client, send, send_unchoke, handle_have, max_request, bare}

-- The fields that a serve loop reads of the torrent.
pub record Shared : Type 0 where
  pub num_pieces : ℕ
  pub piece_len : ℕ
  pub total : ℕ

-- The reasons of a disconnection. `out_of_fuel` has no counterpart.
pub data Reason : Type 0 where
  peer_error : Error → Reason
  storage_open_failed : Reason
  bad_request : Error → Reason
  invalid_index : Reason
  too_large : Reason
  out_of_bounds : Reason
  read_failed : Reason
  write_failed : Reason
  out_of_fuel : Reason

pub data Step : Type 0 where
  go_on : Client → Step
  stop : Client → Reason → Step

-- A negative int64, as its 64 bits.
abbrev pub is_negative : ℕ → Bool
is_negative n = leb (2 ^ 63) n

abbrev pub offset_of : Shared → ℕ → ℕ → ℕ
offset_of tf index begin = (index * tf.piece_len + begin) % 2 ^ 64

-- `offset < 0 || offset+int64(length) > totalSize`.
unfoldable pub is_outside : Shared → ℕ → ℕ → Bool
is_outside tf offset len =
    let last = (offset + len) % 2 ^ 64 in
    is_negative offset || not (is_negative last) && ltb tf.total last

-- Write and Flush of the reject are not looked at.
unfoldable pub refuse : Parsed (ℕ × ℕ × ℕ) → Client → Client
refuse (err e) c = c
refuse (ok (index, begin, len)) c =
    if c.fast_ext then record c { out = c.out ++ write (new_reject_message index begin len) } else c

module _ (takes : Bytes → Bool) (read : ℕ → ℕ → Bytes × Bool) (tf : Shared) where
  unfoldable pub send_block : ℕ → ℕ → ℕ → Client → Step
  send_block index begin len c =
      let (block, no_error) = read len (offset_of tf index begin) in
      let (c', sent) = send takes (new_piece_message index begin block) c in
      if not (no_error && length block == len)
      then stop c read_failed
      else if not sent
      then stop c' write_failed
      else go_on (record c' { uploaded = c'.uploaded + len })

  unfoldable pub serve_request : Parsed (ℕ × ℕ × ℕ) → Client → Step
  unfolding send_block is_outside
  serve_request (err e) c = stop c (bad_request e)
  serve_request (ok (index, begin, len)) c =
      if leb tf.num_pieces index
      then stop c invalid_index
      else if ltb max_request len
      then stop c too_large
      else if is_outside tf (offset_of tf index begin) len
      then stop c out_of_bounds
      else send_block index begin len c

  unfoldable pub serve_message : Message → Client → Step
  unfolding serve_request refuse
  serve_message m c =
      if m.id == MsgId.interested
      then go_on (send_unchoke takes c).0
      else if m.id == MsgId.request
      then if c.choking
        then go_on (refuse (parse_request m.payload) c)
        else serve_request (parse_request m.payload) c
      else if m.id == MsgId.have
      then go_on (handle_have m.payload c)
      else if m.id == MsgId.bitfield
      then go_on (record c { bitfield = m.payload; have_all = false })
      else if m.id == MsgId.have_all
      then go_on (record c { have_all = true })
      else if m.id == MsgId.have_none
      then go_on (record c { bitfield = []; have_all = false })
      else go_on c

  unfoldable pub serve_steps : ℕ → Client → Bytes → Client × Reason
  unfolding serve_message
  serve_steps zero c r = (c, out_of_fuel)
  serve_steps (suc f) c r = elim (read_message r) [
    | failed e ↦ (c, peer_error e)
    | keep_alive rest ↦ serve_steps f c rest
    | message m rest ↦ elim (serve_message m c) [
      | stop c' reason ↦ (c', reason)
      | go_on c' ↦ serve_steps f c' rest
    ]
  ]

unfoldable pub serve_loop :
    (Bytes → Bool) → Option (ℕ → ℕ → Bytes × Bool) → Shared → Client → Bytes → Client × Reason
unfolding serve_steps
serve_loop takes none tf c r = (c, storage_open_failed)
serve_loop takes (some read) tf c r = serve_steps takes read tf (suc (length r)) c r

-- Whether all of the first `n` pieces are in the bitfield.
unfoldable pub has_all_below : Bytes → ℕ → Bool
has_all_below bf zero = true
has_all_below bf (suc n) = has_piece bf (pos n) && has_all_below bf n

-- A nil bitfield stands for all pieces.
abbrev pub all_have : Option Bytes → ℕ → Bool
all_have none n = true
all_have (some bf) n = has_all_below bf n

-- The first message that HandleIncoming sends, if it sends one.
unfoldable pub initial_message : Bool → Option Bytes → ℕ → Option Message
unfolding has_all_below
initial_message fast bitfield n =
    if fast && all_have bitfield n then some (bare MsgId.have_all) else elim bitfield [
      | none ↦ none
      | some bf ↦
          if length bf == 0
          then if fast then some (bare MsgId.have_none) else none
          else some (record { id = MsgId.bitfield; payload = bf })
    ]

pub record Uploader : Type 0 where
  pub torrent : Shared
  pub info_hash : Bytes
  pub peer_id : Bytes
  pub bitfield : Option Bytes
  pub stopped : Bool
  pub clients : List Client

-- SetPiece: the clients are told, whether their connections take it or not.
unfoldable pub set_and_tell : (Bytes → Bool) → ℕ → Uploader → Uploader
unfolding send_have
set_and_tell takes index u = record u {
  bitfield = elim u.bitfield [ none ↦ none | some bf ↦ some (set_piece bf (pos index)).0 ];
  clients = map (λ c. (send_have takes index c).0) u.clients;
}

-- The client of an incoming connection, which is choked at first; `out` has our handshake.
abbrev pub incoming_client : Bool → Bytes → Client
incoming_client fast out = record {
  bitfield = [];
  have_all = false;
  choked = false;
  choking = true;
  sent_interested = false;
  max_pipeline = 0;
  pipeline_min = 0;
  pipeline_max = 0;
  pipeline_window = 0;
  pex_remote_id = 0;
  pex_offered = [];
  fast_ext = fast;
  num_pieces = 0;
  on_request = none;
  downloaded = 0;
  uploaded = 0;
  out = out;
}

-- `none` where the connection is closed before there is a client. The client is in the uploader's
-- list only while this runs.
unfoldable pub handle_incoming :
    (Bytes → Bool)
    → Option (ℕ → ℕ → Bytes × Bool)
    → Uploader
    → Handshake
    → Bytes
    → Option (Client × Reason)
unfolding initial_message send serve_loop
handle_incoming takes reader u remote r =
    let ours = write_handshake (record {
      info_hash = u.info_hash;
      peer_id = u.peer_id;
      extensions = false;
      fast_extension = true;
    }) in
    let c = incoming_client remote.fast_extension ours in
    let told : Client × Bool =
      elim (initial_message remote.fast_extension u.bitfield u.torrent.num_pieces) [
        | none ↦ (c, true)
        | some m ↦ send takes m c
      ] in
    if u.stopped
    then none
    else if not (takes ours)
    then none
    else if told.1
    then some (serve_loop takes reader u.torrent told.0 r)
    else some (told.0, write_failed)
