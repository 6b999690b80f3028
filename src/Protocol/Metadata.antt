-- ===== src/Protocol/Metadata.antt =====
-- encodeMetadata and decodeMetadata of protocol/message.go.
pub mod Total
pub mod RoundTrip
use frpc.Base.{
  ℕ, zero, suc, ◌+◌, ◌-◌, ◌%◌, ◌^◌, ◌≤◌, ◌<◌, Bool, true, false, List, [], ◌∷◌, ◌++◌, Option, none,
  some, ltb, if◌then◌else◌, length,
}
use frpc.Base.Bytes.{Bytes, slice}
use frpc.Base.Dict.{Dict, insert}
use frpc.Protocol.Word.{put_u32, get_u32}

-- One round of the loop of encodeMetadata appends to the buffer.
unfoldable pub write_entry : Bytes → Bytes → Bytes → Bytes
write_entry buf k v = (((buf ++ put_u32 (length k)) ++ k) ++ put_u32 (length v)) ++ v

unfoldable pub write_entries : Bytes → Dict Bytes → Bytes
unfolding write_entry
write_entries buf [] = buf
write_entries buf ((k, v) ∷ m) = write_entries (write_entry buf k v) m

-- A nil map has no entries either.
unfoldable pub encode_metadata : Option (Dict Bytes) → Bytes
encode_metadata none = []
encode_metadata (some m) = write_entries [] m

-- uint32 arithmetic.
abbrev pub u32 : ℕ → ℕ
u32 n = n % 2 ^ 32

-- Reading one key or value: its bytes and the position behind it, the error ErrMetaKVMissing, or
-- the run-time panic of a slice out of range.
pub data Read : Type 0 where
  got : Bytes → ℕ → Read
  kv_missing : Read
  panicked : Read

infixl 5 ◌>>=◌
abbrev ◌>>=◌ : Option Bytes → (Bytes → Read) → Read
none >>= k = panicked
some b >>= k = k b

-- The positions are uint32 and wrap; `limit` is what the loop compares the end with.
unfoldable pub read_string : ℕ → Bytes → ℕ → Read
read_string limit d n = do
  b ← slice d n (u32 (n + 4))
  let start = u32 (n + 4)
  let stop = u32 (start + get_u32 b)
  if ltb limit stop then kv_missing else (slice d start stop >>= λ s. got s stop)

pub data MetaResult : Type 0 where
  entries : Dict Bytes → MetaResult
  missing : Dict Bytes → MetaResult
  crashed : MetaResult
  stuck : MetaResult

-- The loop `for n < l`, on fuel. The limit of a key is the uint32 `l-4`, which wraps below 4.
unfoldable pub metadata_loop : ℕ → ℕ → Bytes → ℕ → Dict Bytes → MetaResult
metadata_loop zero l d n m = stuck
metadata_loop (suc fuel) l d n m = elim (ltb n l) [
  | false ↦ entries m
  | true ↦ elim (read_string (u32 (l + 2 ^ 32 - 4)) d n) [
    | kv_missing ↦ missing m
    | panicked ↦ crashed
    | got k n' ↦ elim (read_string l d n') [
      | kv_missing ↦ missing m
      | panicked ↦ crashed
      | got v n'' ↦ metadata_loop fuel l d n'' (insert k v m)
    ]
  ]
]

-- `d` is the slice with its capacity: Go lets a slice of a slice reach behind its length, up to the
-- end of the backing array.
unfoldable pub decode_metadata : ℕ → Bytes → MetaResult
decode_metadata l d = metadata_loop (suc l) l d 0 []
