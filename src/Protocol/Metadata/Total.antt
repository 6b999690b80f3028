-- ===== src/Protocol/Metadata/Total.antt =====
-- The loop of decodeMetadata ends on every input.
use frpc.Base.{
  ℕ, zero, suc, ◌+◌, ◌-◌, ◌^◌, ◌≤◌, ◌<◌, ◌≡◌, ◌≢◌, ◌⊎◌, [], refl, some, arith, ltb, inl, inr,
  Bool-cases, Option-cases, ltb→lt, lt→ltb,
}
use frpc.Base.Bytes.{Bytes, slice}
use frpc.Base.Dict.{Dict, insert}
use frpc.Protocol.Word.{get_u32}
use frpc.Protocol.Metadata.{
  Read, got, kv_missing, panicked, read_string, u32, stuck, metadata_loop, decode_metadata,
}

-- A slice that does not panic has its ends in order.
slice_order : (s : Bytes) (low high : ℕ) {r : Bytes} → slice s low high ≡ some r → low ≤ high
unfolding slice
slice_order s low high e = ground arith

Read-cases :
    (r : Read) → ((s : Bytes) × (n : ℕ) × (r ≡ got s n)) ⊎ ((r ≡ kv_missing) ⊎ (r ≡ panicked))
Read-cases (got s n) = inl (s, n, refl)
Read-cases kv_missing = inr (inl refl)
Read-cases panicked = inr (inr refl)

-- Reading moves the position on, by the four bytes of the length at least: no wrapping goes unseen.
read_string_advances :
    (limit : ℕ) (d : Bytes) (n n' : ℕ) (s : Bytes) → read_string limit d n ≡ got s n' → n + 4 ≤ n'
unfolding read_string
read_string_advances limit d n n' s e = elim (Option-cases (slice d n (u32 (n + 4)))) [
  | inl h ↦ cc (rw (h, read_string) at e)
  | inr (b, h) ↦
      let stop = u32 (u32 (n + 4) + get_u32 b) in
      elim (Option-cases (slice d (u32 (n + 4)) stop)) [
        | inl h' ↦ ground (arith, h, h')
        | inr (t, h') ↦
            ground
              (arith, h, h', slice_order d n (u32 (n + 4)) h, slice_order d (u32 (n + 4)) stop h')
      ]
]

-- A round that reads an entry.
pub metadata_loop_step :
    (fuel l : ℕ) (d : Bytes) (n : ℕ) (m : Dict Bytes) {k v : Bytes} {n' n'' : ℕ}
    → n < l
    → read_string (u32 (l + 2 ^ 32 - 4)) d n ≡ got k n'
    → read_string l d n' ≡ got v n''
    → metadata_loop (suc fuel) l d n m ≡ metadata_loop fuel l d n'' (insert k v m)
unfolding metadata_loop
metadata_loop_step fuel l d n m h e f = rw (lt→ltb n l h, e, f, metadata_loop)

metadata_loop-ne-stuck :
    (fuel l : ℕ) (d : Bytes) (n : ℕ) (m : Dict Bytes)
    → l < fuel + n
    → 0 < fuel
    → metadata_loop fuel l d n m ≢ stuck
metadata_loop-ne-stuck zero l d n m h p = absurd (omega arith)
metadata_loop-ne-stuck (suc fuel) l d n m h p = elim (Bool-cases (ltb n l)) [
  | inr e ↦ unfold metadata_loop in λ x. ground (arith, e)
  | inl e ↦ elim (Read-cases (read_string (u32 (l + 2 ^ 32 - 4)) d n)) [
    | inr k ↦ unfold metadata_loop in λ x. ground (arith, e, k)
    | inl (s, n', k) ↦ elim (Read-cases (read_string l d n')) [
      | inr v ↦ unfold metadata_loop in λ x. ground (arith, e, k, v)
      | inl (t, n'', v) ↦ rw (metadata_loop_step fuel l d n m (ltb→lt n l e) k v) (
          metadata_loop-ne-stuck fuel l d n'' (insert s t m)
            (omega (arith, read_string_advances _ d n n' s k, read_string_advances _ d n' n'' t v))
            (omega (arith, ltb→lt n l e)))
    ]
  ]
]

-- The loop of decodeMetadata ends on every input: the fuel l + 1 is never used up, wrapping
-- positions included.
pub decode_metadata-ne-stuck : (l : ℕ) (d : Bytes) → decode_metadata l d ≢ stuck
unfolding decode_metadata
decode_metadata-ne-stuck l d = metadata_loop-ne-stuck (suc l) l d 0 [] (omega arith) (omega arith)
