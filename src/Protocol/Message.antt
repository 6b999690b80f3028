-- ===== src/Protocol/Message.antt =====
-- The type Message of protocol/message.go with Encode, Decode, Copy and Reset, and the pool of
-- protocol/pool.go.
pub mod Steps
pub mod Layout
pub mod RoundTrip
pub mod Stream
pub mod Pool
pub mod Malformed
use frpc.Base.{
  ℕ, zero, suc, ◌+◌, ◌-◌, ◌%◌, ◌^◌, ◌≤◌, ◌<◌, Bool, true, false, ◌&&◌, List, [], ◌∷◌, ◌++◌, Option,
  none, some, ltb, leb, ◌==◌, if◌then◌else◌, length, take, drop,
}
use frpc.Base.Bytes.{Bytes, slice, copy_at, zeros}
use frpc.Base.Dict.{Dict}
use frpc.Protocol.Word.{put_u32, get_u32}
use frpc.Protocol.Header.{Header, magic_number, to_bytes, of_bytes}
use frpc.Protocol.Metadata.{
  encode_metadata, decode_metadata, MetaResult, entries, missing, crashed, stuck,
}

-- `raw` is the field `data`: the body that Payload is a slice of. A nil map is `none`.
pub record Message : Type 0 where
  pub header : Header
  pub service_path : Bytes
  pub service_method : Bytes
  pub metadata : Option (Dict Bytes)
  pub payload : Bytes
  pub raw : Bytes

abbrev pub zero_header : Header
zero_header = of_bytes (zeros 12)

unfoldable pub new_message : Message
new_message = record {
  header = record zero_header { h0 = magic_number };
  service_path = [];
  service_method = [];
  metadata = none;
  payload = [];
  raw = [];
}

-- Copy over the message `c` that GetMsgs gave.
unfoldable pub copy : Message → Message → Message
copy c m = record c {
  header = m.header;
  service_path = m.service_path;
  service_method = m.service_method;
}

-- copy(h[1:], zeroHeader)
unfoldable pub reset_header : Header → Header
reset_header h = of_bytes (copy_at (to_bytes h) 1 (zeros 11))

unfoldable pub reset : Message → Message
unfolding reset_header
reset m = record {
  header = reset_header m.header;
  service_path = [];
  service_method = [];
  metadata = none;
  payload = [];
  raw = [];
}

-- sync.Pool: FreeMsg puts a message back, and GetMsgs takes one of those or makes a new one. Which
-- one it takes is the run time's choice, here the number `pick`; one past the end means a new one.
unfoldable pub free_msg : Message → List Message → List Message
unfolding reset
free_msg m pool = reset m ∷ pool

unfoldable pub get_msgs : ℕ → List Message → Message × List Message
unfolding new_message
get_msgs pick [] = (new_message, [])
get_msgs zero (m ∷ pool) = (m, pool)
get_msgs (suc pick) (m ∷ pool) = let (got, rest) = get_msgs pick pool in (got, m ∷ rest)

-- Encode: a buffer of zeroes, and one copy for each part, at its offset.
unfoldable pub encode : Message → Bytes
encode m =
    let meta = encode_metadata m.metadata in
    let spl = length m.service_path in
    let sml = length m.service_method in
    let all_l = (4 + spl) + (4 + sml) + (4 + length meta) + (4 + length m.payload) in
    let meta_start = 12 + 4 + (4 + spl) + (4 + sml) in
    let payload_start = meta_start + (4 + length meta) in
    let l = 12 + 4 + all_l in
    let d0 = copy_at (zeros l) 0 (to_bytes m.header) in
    let d1 = copy_at d0 12 (put_u32 all_l) in
    let d2 = copy_at d1 16 (put_u32 spl) in
    let d3 = copy_at d2 20 m.service_path in
    let d4 = copy_at d3 (20 + spl) (put_u32 sml) in
    let d5 = copy_at d4 (24 + spl) m.service_method in
    let d6 = copy_at d5 meta_start (put_u32 (length meta)) in
    let d7 = copy_at d6 (meta_start + 4) meta in
    let d8 = copy_at d7 payload_start (put_u32 (length m.payload)) in
    copy_at d8 (payload_start + 4) m.payload

pub data Error : Type 0 where
  eof unexpected_eof meta_kv_missing message_too_long : Error

-- io.ReadFull: the buffer filled and the stream left, or an error with the bytes that came.
pub data ReadFull : Type 0 where
  full : Bytes → Bytes → ReadFull
  short : Error → Bytes → Bytes → ReadFull

-- `r` is what the connection holds before its end, and `n` the length of the buffer.
unfoldable pub read_full : Bytes → ℕ → ReadFull
read_full r n =
    if leb n (length r)
    then full (take n r) (drop n r)
    else if length r == 0
    then short eof [] []
    else short unexpected_eof r []

-- Decode fills in the message and leaves the rest of the stream; it fails with the message as far as
-- it was filled in; or a slice out of range panics.
pub data Decoded : Type 0 where
  done : Message → Bytes → Decoded
  failed : Error → Message → Bytes → Decoded
  panicked : Decoded
  out_of_fuel : Decoded

infixl 5 ◌>>=◌
abbrev pub ◌>>=◌ : Option Bytes → (Bytes → Decoded) → Decoded
none >>= k = panicked
some b >>= k = k b

-- The length of the payload is read and not used: the payload is what is left of the body.
unfoldable pub decode_payload : Message → Bytes → ℕ → Decoded
decode_payload m rest n = do
  _ ← slice m.raw n (n + 4)
  done (record m { payload = drop (n + 4) m.raw }) rest

-- `n` is the end of the metadata.
unfoldable pub store_metadata : Message → Bytes → ℕ → MetaResult → Decoded
store_metadata m rest n (entries d) = decode_payload (record m { metadata = some d }) rest n
store_metadata m rest n (missing d) = failed meta_kv_missing (record m { metadata = some d }) rest
store_metadata m rest n crashed = panicked
store_metadata m rest n stuck = out_of_fuel

unfoldable pub decode_meta : Message → Bytes → ℕ → ℕ → Decoded
decode_meta m rest n l =
    if l == 0
    then decode_payload m rest n
    else (slice m.raw n (n + l) >>= λ _.
        store_metadata m rest (n + l) (decode_metadata l (drop n m.raw)))

-- The part of Decode behind `message.data = data`.
unfoldable pub decode_body : Message → Bytes → Decoded
decode_body m rest = do
  b ← slice m.raw 0 4
  let path_end = 4 + get_u32 b
  path ← slice m.raw 4 path_end
  b' ← slice m.raw path_end (path_end + 4)
  let method_end = path_end + 4 + get_u32 b'
  method ← slice m.raw (path_end + 4) method_end
  b'' ← slice m.raw method_end (method_end + 4)
  decode_meta (record m { service_path = path; service_method = method }) rest (method_end + 4)
      (get_u32 b'')

-- Reading the body, of the length `l` that stands in front of it.
unfoldable pub decode_data : Message → Bytes → ℕ → Decoded
decode_data m reader l = elim (read_full reader l) [
  | short e b rest ↦ failed e m rest
  | full b rest ↦ decode_body (record m { raw = b }) rest
]

-- `max_length` is the variable MaxMessageLength, 0 for no limit.
unfoldable pub decode_length : ℕ → Message → Bytes → Decoded
decode_length max_length m reader = elim (read_full reader 4) [
  | short e b rest ↦ failed e m rest
  | full b rest ↦
      let l = get_u32 b in
      if ltb 0 max_length && ltb max_length l
      then failed message_too_long m rest
      else decode_data m rest l
]

unfoldable pub decode : ℕ → Message → Bytes → Decoded
decode max_length m reader = elim (read_full reader 12) [
  | short e b rest ↦
      failed e (record m { header = of_bytes (copy_at (to_bytes m.header) 0 b) }) rest
  | full b rest ↦ decode_length max_length (record m { header = of_bytes b }) rest
]
