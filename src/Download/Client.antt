-- ===== src/Download/Client.antt =====
-- download/download.go: Client, its choking state, and what it serves while it downloads. The
-- connection is the list of the bytes handed to the writer; `takes` says whether the connection takes
-- them so far. `pex_offered` lists the peers offered to PeerSink. The rate estimators are outside.
-- Settings that are negative act as 0.
use stor.Prelude.{
  ℕ, ◌+◌, ◌*◌, ◌/◌, ◌%◌, Bool, true, false, not, if◌then◌else◌, ◌==◌, ◌&&◌, ◌||◌, ltb, leb, [], ◌∷◌,
  ◌++◌, List, Option, none, some, length, min, max,
}
use stor.Prelude.Int.{ℤ, pos, pos_part}
use stor.Prelude.Words.{Bytes}
use stor.Prelude.Text.{codes}
use stor.Peer.MsgId
use stor.Peer.Bitfield.{has_piece, set_piece}
use stor.Peer.Message.{
  Message, ok, err, write, new_piece_message, new_have_message, parse_request, parse_have,
}
use stor.Peer.Extension.{parse_extended}
use stor.Peer.ExtHandshake.{decode_ext_handshake}
use stor.Peer.Negotiate.{lookup}
use stor.Peer.Pex.{PexPeer, decode_pex}

abbrev pub block_size : ℕ
block_size = 16384

abbrev pub default_max_pipeline : ℕ
default_max_pipeline = 16

abbrev pub default_pipeline_min : ℕ
default_pipeline_min = 4

abbrev pub default_pipeline_max : ℕ
default_pipeline_max = 256

abbrev pub default_pipeline_window_secs : ℕ
default_pipeline_window_secs = 3

abbrev pub max_unexpected_messages : ℕ
max_unexpected_messages = 100

abbrev pub max_request : ℕ
max_request = 32 * 1024

pub record Client : Type 0 where
  pub bitfield : Bytes
  pub have_all : Bool
  pub choked : Bool
  pub choking : Bool
  pub sent_interested : Bool
  pub max_pipeline : ℕ
  pub pipeline_min : ℕ
  pub pipeline_max : ℕ
  pub pipeline_window : ℕ
  pub pex_remote_id : ℕ
  pub pex_offered : List PexPeer
  pub fast_ext : Bool
  pub num_pieces : ℕ
  pub on_request : Option (ℕ → ℕ → ℕ → Option Bytes)
  pub downloaded : ℕ
  pub uploaded : ℕ
  pub out : Bytes

unfoldable pub default_to : ℕ → ℕ → ℕ
default_to d n = if n == 0 then d else n

-- The least and the greatest depth and the window of a configuration, whose MaxPipeline is `legacy`.
unfoldable pub resolve_pipeline : ℕ → ℕ → ℕ → ℕ → ℕ × ℕ × ℕ
unfolding default_to
resolve_pipeline min_p max_p window_secs legacy =
    let fixed = default_to default_max_pipeline legacy in
    let highest = if max_p == 0 then if min_p == 0 then fixed else max fixed min_p else max_p in
    let lowest =
      if min_p == 0 then if max_p == 0 then fixed else min default_pipeline_min max_p else min_p in
    (min lowest highest, highest, default_to default_pipeline_window_secs window_secs)

-- The quotient is rounded as Go rounds it, since the rate is not negative there.
unfoldable pub pipeline_target_of : ℤ → ℕ → ℕ → ℕ → ℕ
unfolding default_to
pipeline_target_of rate window_secs min_p max_p =
    let window = default_to default_pipeline_window_secs window_secs in
    let lowest = max 1 min_p in
    let highest = max lowest max_p in min highest (max lowest (pos_part rate * window / block_size))

unfoldable pub pipeline_target : Client → ℤ → ℕ
unfolding default_to pipeline_target_of
pipeline_target c rate =
    if c.pipeline_min == 0 && c.pipeline_max == 0
    then default_to default_max_pipeline c.max_pipeline
    else pipeline_target_of rate (default_to default_pipeline_window_secs c.pipeline_window)
        (default_to default_pipeline_min c.pipeline_min)
        (default_to (default_to default_pipeline_max c.max_pipeline) c.pipeline_max)

unfoldable pub client_has_piece : Client → ℤ → Bool
client_has_piece c index = if c.have_all then true else has_piece c.bitfield index

-- The slice is written in place; on a nil one, as on an empty one, nothing happens.
unfoldable pub safe_bitfield_set : Client → ℕ → Client
safe_bitfield_set c index =
    if c.have_all then c else record c { bitfield = (set_piece c.bitfield (pos index)).0 }

unfoldable pub validate_bitfield : Client → ℕ → Bool
validate_bitfield c num_pieces =
    if c.have_all || length c.bitfield == 0 then true else length c.bitfield == (num_pieces + 7) / 8

-- Write and Flush of one message, and whether there was no error.
unfoldable pub send : (Bytes → Bool) → Message → Client → Client × Bool
send takes m c = let out = c.out ++ write m in (record c { out = out }, takes out)

abbrev pub bare : ℕ → Message
bare id = record { id = id; payload = [] }

abbrev after : Bool → Client → Client → Client
after sent c c' = if sent then c' else c

unfoldable pub send_choke : (Bytes → Bool) → Client → Client × Bool
unfolding send
send_choke takes c =
    let (c', sent) = send takes (bare MsgId.choke) c in
    if c.choking then (c, true) else (after sent c' (record c' { choking = true }), sent)

unfoldable pub send_unchoke : (Bytes → Bool) → Client → Client × Bool
unfolding send
send_unchoke takes c =
    let (c', sent) = send takes (bare MsgId.unchoke) c in
    if c.choking then (after sent c' (record c' { choking = false }), sent) else (c, true)

unfoldable pub send_interested : (Bytes → Bool) → Client → Client × Bool
unfolding send
send_interested takes c =
    let (c', sent) = send takes (bare MsgId.interested) c in
    if c.sent_interested
    then (c, true)
    else (after sent c' (record c' { sent_interested = true }), sent)

unfoldable pub send_have : (Bytes → Bool) → ℕ → Client → Client × Bool
unfolding send
send_have takes index c = send takes (new_have_message index) c

unfoldable pub any_set : Bytes → Bool
any_set [] = false
any_set (b ∷ bf) = not (b == 0) || any_set bf

unfoldable pub send_bitfield : (Bytes → Bool) → Bytes → Client → Client × Bool
unfolding send any_set
send_bitfield takes bf c =
    if any_set bf then send takes (record { id = MsgId.bitfield; payload = bf }) c else (c, true)

unfoldable pub handle_have : Bytes → Client → Client
unfolding safe_bitfield_set
handle_have payload c = elim (parse_have payload) [
  | ok index ↦ safe_bitfield_set c index
  | err e ↦ c
]

-- Errors of the write are ignored.
unfoldable pub handle_request : Bytes → Client → Client
handle_request payload c = elim c.on_request [
  | none ↦ c
  | some serve ↦ elim (parse_request payload) [
    | err e ↦ c
    | ok (index, begin, len) ↦
        if ltb max_request len
        then c
        else if ltb 0 c.num_pieces && leb c.num_pieces index
        then c
        else elim (serve index begin len) [
          | none ↦ c
          | some block ↦ record c {
            out = c.out ++ write (new_piece_message index begin block);
            uploaded = c.uploaded + length block;
          }
        ]
  ]
]

abbrev pub local_pex_id : ℕ
local_pex_id = 2

-- `uint8(id)` of an id that is positive.
unfoldable pub handle_extended : Bytes → Client → Client
handle_extended payload c = elim (parse_extended payload) [
  | err e ↦ c
  | ok (ext_id, body) ↦
      if ext_id == 0
      then elim (decode_ext_handshake body) [
        | none ↦ c
        | some hs ↦
            let id = pos_part (lookup (codes "ut_pex") hs.m) in
            if id == 0 then c else record c { pex_remote_id = id % 256 }
      ]
      else if ext_id == local_pex_id
      then elim (decode_pex body) [
        | some (some msg) ↦ record c { pex_offered = c.pex_offered ++ msg.added }
        | _ ↦ c
      ]
      else c
]
