-- ===== src/Protocol/Message/Malformed.antt =====
-- Bodies that Decode of protocol/message.go does not survive: it slices with no check of its own.
use frpc.Base.{ℕ, ◌+◌, ◌<◌, ◌≡◌, none, some, arith, length, take, dec_lt}
use frpc.Base.Bytes.{Bytes, slice}
use frpc.Protocol.Word.{get_u32}
use frpc.Protocol.Message.{Message, panicked, decode_body}

slice_beyond : (s : Bytes) (low high : ℕ) → length s < high → slice s low high ≡ none
unfolding slice
slice_beyond s low high h = ground arith

-- Decode panics on a body that has no room for the length of the path, or whose path is announced
-- longer than the body.
pub decode_body_panics :
    (m : Message) (rest : Bytes)
    → length m.raw < 4 + get_u32 (take 4 m.raw)
    → decode_body m rest ≡ panicked
unfolding decode_body
decode_body_panics m rest h = elim (dec_lt (length m.raw) 4) [
  | yes l ↦ rw (slice_beyond m.raw 0 4 l)
  | no l ↦ rw (whole l, slice_beyond m.raw 4 (4 + get_u32 (take 4 m.raw)) h)
]
  where
    whole : ¬ (length m.raw < 4) → slice m.raw 0 4 ≡ some (take 4 m.raw)
    whole l = unfold slice in ground arith
