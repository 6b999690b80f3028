-- ===== src/Protocol/Word.antt =====
-- encoding/binary's BigEndian, as protocol/message.go uses it, over lists of bytes.
use frpc.Base.{ℕ, ◌+◌, ◌*◌, ◌/◌, ◌%◌, ◌^◌, ◌<◌, ◌≡◌, refl, [], ◌∷◌, arith, length}
use frpc.Base.Bytes.{Bytes, AllBytes}

-- binary.BigEndian.PutUint32(d, uint32(v)): the conversion wraps.
unfoldable pub put_u32 : ℕ → Bytes
put_u32 v = (v / 2 ^ 24 % 256) ∷ (v / 2 ^ 16 % 256) ∷ (v / 2 ^ 8 % 256) ∷ (v % 256) ∷ []

-- binary.BigEndian.Uint32(b) on a slice of four bytes.
unfoldable pub get_u32 : Bytes → ℕ
get_u32 (a ∷ b ∷ c ∷ d ∷ rest) = a * 2 ^ 24 + b * 2 ^ 16 + c * 2 ^ 8 + d
get_u32 _ = 0

pub length-put_u32 : (v : ℕ) → length (put_u32 v) ≡ 4
unfolding put_u32
length-put_u32 v = refl

put_u32-AllBytes : (v : ℕ) → AllBytes (put_u32 v)
unfolding put_u32
put_u32-AllBytes v = omega arith

pub get_u32-put_u32 : (v : ℕ) → get_u32 (put_u32 v) ≡ v % 2 ^ 32
unfolding get_u32 put_u32
get_u32-put_u32 v = omega arith

get_u32-lt : (b : Bytes) → AllBytes b → get_u32 b < 2 ^ 32
unfolding get_u32
get_u32-lt (a ∷ b ∷ c ∷ d ∷ rest) h = omega arith
get_u32-lt (a ∷ b ∷ c ∷ []) h = omega arith
get_u32-lt (a ∷ b ∷ []) h = omega arith
get_u32-lt (a ∷ []) h = omega arith
get_u32-lt [] h = omega arith
