-- ===== src/Utp/Packet.antt =====
-- utp/packet.go: the 20-byte header and the packet around it. Fields keep Go's widths by hypothesis.
use Prim.Native.Nat.{bit_and, bit_or}
use stor.Prelude.{
  ℕ, ◌+◌, ◌*◌, ◌/◌, ◌%◌, ◌^◌, ◌<◌, Bool, true, false, if◌then◌else◌, ◌==◌, ◌&&◌, ltb, ◌∷◌, ◌++◌,
  ◌≡◌, refl, arith, length, get_or, drop, Option, none, some, all_below, all_below_sound,
}
use stor.Prelude.Words.{Bytes, put_uint16, put_uint32, uint16_at, uint32_at}

abbrev pub st_data : ℕ
st_data = 0

abbrev pub st_fin : ℕ
st_fin = 1

abbrev pub st_state : ℕ
st_state = 2

abbrev pub st_reset : ℕ
st_reset = 3

abbrev pub st_syn : ℕ
st_syn = 4

pub record Header : Type 0 where
  pub type : ℕ
  pub version : ℕ
  pub extension : ℕ
  pub conn_id : ℕ
  pub timestamp : ℕ
  pub ts_diff : ℕ
  pub wnd_size : ℕ
  pub seq_nr : ℕ
  pub ack_nr : ℕ

-- The widths of the fields on the wire: `Type` and `Version` share a byte there.
pub record IsHeader (h : Header) : Type 0 where
  pub type_lt : h.type < 16
  pub version_lt : h.version < 16
  pub extension_lt : h.extension < 256
  pub conn_id_lt : h.conn_id < 2 ^ 16
  pub timestamp_lt : h.timestamp < 2 ^ 32
  pub ts_diff_lt : h.ts_diff < 2 ^ 32
  pub wnd_size_lt : h.wnd_size < 2 ^ 32
  pub seq_nr_lt : h.seq_nr < 2 ^ 16
  pub ack_nr_lt : h.ack_nr < 2 ^ 16

pub record Packet : Type 0 where
  pub header : Header
  pub payload : Bytes

abbrev pub header_size : ℕ
header_size = 20

-- `(h.Type << 4) | (h.Version & 0x0f)`, on bytes.
unfoldable pub type_version : ℕ → ℕ → ℕ
type_version t v = bit_or (t * 16 % 256) (bit_and v 0x0f)

unfoldable pub marshal_header : Header → Bytes
marshal_header h =
    type_version h.type h.version
    ∷ h.extension
    ∷ (put_uint16 h.conn_id
        ++ (put_uint32 h.timestamp
            ++ (put_uint32 h.ts_diff
                ++ (put_uint32 h.wnd_size ++ (put_uint16 h.seq_nr ++ put_uint16 h.ack_nr)))))

-- `none` is the error for a packet that is too short.
unfoldable pub parse_header : Bytes → Option Header
parse_header b =
    if ltb (length b) header_size
    then none
    else some (record {
      type = get_or b 0 0 / 16;
      version = bit_and (get_or b 0 0) 0x0f;
      extension = get_or b 1 0;
      conn_id = uint16_at b 2;
      timestamp = uint32_at b 4;
      ts_diff = uint32_at b 8;
      wnd_size = uint32_at b 12;
      seq_nr = uint16_at b 16;
      ack_nr = uint16_at b 18;
    })

unfoldable pub marshal : Packet → Bytes
marshal p = marshal_header p.header ++ p.payload

abbrev with_payload : Bytes → Option Header → Option Packet
with_payload b none = none
with_payload b (some h) = some (record { header = h; payload = drop header_size b })

unfoldable pub parse_packet : Bytes → Option Packet
parse_packet b = with_payload b (parse_header b)

unfoldable pub is_utp : Bytes → Bool
is_utp b = if ltb (length b) header_size then false else bit_and (get_or b 0 0) 0x0f == 1

-- The shared byte, for every type and version.
type_version_table :
    all_below 256
      (λ x. let b = type_version (x / 16) (x % 16) in b / 16 == x / 16 && bit_and b 0x0f == x % 16)
    ≡ true
unfolding all_below type_version
type_version_table = refl

type_version_fields :
    (t v : ℕ)
    → t < 16
    → v < 16
    → (type_version t v / 16 ≡ t) × (bit_and (type_version t v) 0x0f ≡ v)
type_version_fields t v ht hv =
    let et : (t * 16 + v) / 16 ≡ t = omega arith in
    let ev : (t * 16 + v) % 16 ≡ v = omega arith in
    let checked =
      all_below_sound 256
        (λ x.
          let b = type_version (x / 16) (x % 16) in b / 16 == x / 16 && bit_and b 0x0f == x % 16)
        (t * 16 + v) type_version_table (omega arith) in
    ground (arith, rw (et, ev) at checked)

-- A packet is read back from its bytes, field by field, and is recognised by its version.
pub parse_packet-marshal :
    (p : Packet)
    → IsHeader p.header
    → (parse_packet (marshal p) ≡ some p) × (is_utp (marshal p) ≡ (p.header.version == 1))
unfolding parse_packet parse_header marshal marshal_header is_utp
parse_packet-marshal p v =
    let (et, ev) = type_version_fields p.header.type p.header.version v.type_lt v.version_lt in
    (ground (arith, et, ev), ground (arith, et, ev))
