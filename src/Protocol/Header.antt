-- ===== src/Protocol/Header.antt =====
-- The type Header of protocol/message.go, a [12]byte: its getters and setters.
pub mod Masks
pub mod Flags
use frpc.Base.{
  ℕ, ◌+◌, ◌*◌, ◌/◌, ◌%◌, ◌^◌, ◌<◌, bit_and, bit_or, Bool, true, false, List, [], ◌∷◌, ◌==◌,
  if◌then◌else◌, get_or,
}
use frpc.Base.Bytes.{Bytes, AllBytes}
use frpc.Protocol.Word.{put_u32, get_u32}

abbrev pub magic_number : ℕ
magic_number = 0x08

-- MessageType, CompressType, MessageStatusType and SerializeType are Go bytes with named values.
abbrev pub request : ℕ
request = 0

abbrev pub response : ℕ
response = 1

abbrev pub uncompressed : ℕ
uncompressed = 0

abbrev pub gzip : ℕ
gzip = 1

abbrev pub normal_status : ℕ
normal_status = 0

abbrev pub error_status : ℕ
error_status = 1

abbrev pub json : ℕ
json = 0

abbrev pub proto_buffer : ℕ
proto_buffer = 1

abbrev pub msg_pack : ℕ
msg_pack = 2

-- The field `hi` is h[i].
pub record Header : Type 0 where
  pub h0 : ℕ
  pub h1 : ℕ
  pub h2 : ℕ
  pub h3 : ℕ
  pub h4 : ℕ
  pub h5 : ℕ
  pub h6 : ℕ
  pub h7 : ℕ
  pub h8 : ℕ
  pub h9 : ℕ
  pub h10 : ℕ
  pub h11 : ℕ

-- h[:]
abbrev pub to_bytes : Header → Bytes
to_bytes h =
    h.h0 ∷ h.h1 ∷ h.h2 ∷ h.h3 ∷ h.h4 ∷ h.h5 ∷ h.h6 ∷ h.h7 ∷ h.h8 ∷ h.h9 ∷ h.h10 ∷ h.h11 ∷ []

abbrev pub of_bytes : Bytes → Header
of_bytes b = record {
  h0 = get_or b 0 0;
  h1 = get_or b 1 0;
  h2 = get_or b 2 0;
  h3 = get_or b 3 0;
  h4 = get_or b 4 0;
  h5 = get_or b 5 0;
  h6 = get_or b 6 0;
  h7 = get_or b 7 0;
  h8 = get_or b 8 0;
  h9 = get_or b 9 0;
  h10 = get_or b 10 0;
  h11 = get_or b 11 0;
}

abbrev pub IsHeader : Header → Type 0
IsHeader h = AllBytes (to_bytes h)

unfoldable pub check_magic_number : Header → Bool
check_magic_number h = h.h0 == magic_number

unfoldable pub version : Header → ℕ
version h = h.h1

unfoldable pub set_version : ℕ → Header → Header
set_version v h = record h { h1 = v }

unfoldable pub message_type : Header → ℕ
message_type h = bit_and h.h2 0x80 / 2 ^ 7

unfoldable pub set_message_type : ℕ → Header → Header
set_message_type mt h = record h { h2 = bit_or h.h2 (mt * 2 ^ 7 % 256) }

unfoldable pub is_heartbeat : Header → Bool
is_heartbeat h = bit_and h.h2 0x40 == 0x40

-- `x &^ 0x40` clears one bit: on a byte it is `x & 0xbf`.
unfoldable pub set_heartbeat : Bool → Header → Header
set_heartbeat hb h =
    if hb then record h { h2 = bit_or h.h2 0x40 } else record h { h2 = bit_and h.h2 0xbf }

unfoldable pub is_oneway : Header → Bool
is_oneway h = bit_and h.h2 0x20 == 0x20

unfoldable pub set_oneway : Bool → Header → Header
set_oneway oneway h =
    if oneway then record h { h2 = bit_or h.h2 0x20 } else record h { h2 = bit_and h.h2 0xdf }

unfoldable pub compress_type : Header → ℕ
compress_type h = bit_and h.h2 0x1c / 2 ^ 2

unfoldable pub set_compress_type : ℕ → Header → Header
set_compress_type ct h = record h { h2 = bit_or h.h2 (bit_and (ct * 2 ^ 2 % 256) 0x1c) }

unfoldable pub message_status_type : Header → ℕ
message_status_type h = bit_and h.h2 0x03

unfoldable pub set_message_status_type : ℕ → Header → Header
set_message_status_type mt h = record h { h2 = bit_or h.h2 (bit_and mt 0x03) }

unfoldable pub serialize_type : Header → ℕ
serialize_type h = bit_and h.h3 0xf0 / 2 ^ 4

unfoldable pub set_serialize_type : ℕ → Header → Header
set_serialize_type st h = record h { h3 = bit_or h.h3 (st * 2 ^ 4 % 256) }

-- binary.BigEndian.Uint64(h[4:]): the upper and the lower word.
unfoldable pub seq : Header → ℕ
seq h =
    get_u32 (h.h4 ∷ h.h5 ∷ h.h6 ∷ h.h7 ∷ []) * 2 ^ 32 + get_u32 (h.h8 ∷ h.h9 ∷ h.h10 ∷ h.h11 ∷ [])

-- binary.BigEndian.PutUint64(h[4:], seq), byte by byte.
unfoldable pub set_seq : ℕ → Header → Header
set_seq s h = record h {
  h4 = s / 2 ^ 56 % 256;
  h5 = s / 2 ^ 48 % 256;
  h6 = s / 2 ^ 40 % 256;
  h7 = s / 2 ^ 32 % 256;
  h8 = s / 2 ^ 24 % 256;
  h9 = s / 2 ^ 16 % 256;
  h10 = s / 2 ^ 8 % 256;
  h11 = s % 256;
}
