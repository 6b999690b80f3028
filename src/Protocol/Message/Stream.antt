-- ===== src/Protocol/Message/Stream.antt =====
-- Decode of protocol/message.go on any input: it ends, keeps to the announced length and to
-- MaxMessageLength, and reports a stream that breaks off.
use frpc.Base.{
  ℕ, ◌+◌, ◌^◌, ◌≤◌, ◌<◌, ◌≡◌, ◌≢◌, refl, sym, ap, ap₂, ◌∙◌, ◌&&◌, [], ◌∷◌, ◌++◌, Option, none, some,
  arith, ltb, leb, leb→le, ◌==◌, length, length-append, take, drop, ◌⊎◌, inl, inr, Bool-cases,
  dec_lt, take-append-drop, length-take,
}
use frpc.Base.Bytes.{Bytes, slice}
use frpc.Protocol.Word.{put_u32, get_u32, length-put_u32}
use frpc.Protocol.Header.{to_bytes, of_bytes}
use frpc.Protocol.Metadata.{MetaResult, entries, missing, crashed, stuck}
use frpc.Protocol.Metadata.Total.{decode_metadata-ne-stuck}
use frpc.Protocol.Message.Steps.{
  decode_full, decode_short, decode_length_full, decode_length_long, decode_length_short,
  decode_data_full, decode_data_short,
}
use frpc.Protocol.Message.Layout.{body, encode-body}
use frpc.Protocol.Message.RoundTrip.{read_full-append, Admits, guard_passes, size_fits}
use frpc.Protocol.Message.{
  Message, ◌>>=◌, store_metadata, encode, read_full, full, short, Decoded, done, failed, panicked,
  out_of_fuel, decode_payload, decode_meta, decode_body, decode_data, decode_length, decode, Error,
  eof, unexpected_eof,
}

-- What the body is parsed to keeps the stream behind it and the raw body.
data Keeps (raw rest : Bytes) : Decoded → Type 0 where
  keeps_done : (m : Message) → m.raw ≡ raw → Keeps raw rest (done m rest)
  keeps_failed : (e : Error) (m : Message) → Keeps raw rest (failed e m rest)
  keeps_panicked : Keeps raw rest panicked

>>=-Keeps :
    {raw rest : Bytes} (o : Option Bytes) {f : Bytes → Decoded}
    → ((b : Bytes) → Keeps raw rest (f b))
    → Keeps raw rest (o >>= f)
>>=-Keeps none h = keeps_panicked
>>=-Keeps (some b) h = h b

decode_payload-Keeps :
    (m : Message) (rest : Bytes) (n : ℕ) → Keeps m.raw rest (decode_payload m rest n)
unfolding decode_payload
decode_payload-Keeps m rest n =
    >>=-Keeps (slice m.raw n (n + 4))
      (λ b. keeps_done (record m { payload = drop (n + 4) m.raw }) refl)

store_metadata-Keeps :
    (m : Message) (rest : Bytes) (n : ℕ) (r : MetaResult)
    → r ≢ stuck
    → Keeps m.raw rest (store_metadata m rest n r)
unfolding store_metadata
store_metadata-Keeps m rest n (entries d) h =
    decode_payload-Keeps (record m { metadata = some d }) rest n
store_metadata-Keeps m rest n (missing d) h = keeps_failed _ _
store_metadata-Keeps m rest n crashed h = keeps_panicked
store_metadata-Keeps m rest n stuck h = absurd (h refl)

decode_meta-Keeps :
    (m : Message) (rest : Bytes) (n l : ℕ) → Keeps m.raw rest (decode_meta m rest n l)
unfolding decode_meta
decode_meta-Keeps m rest n l = elim (Bool-cases (l == 0)) [
  | inl e ↦ rw e (decode_payload-Keeps m rest n)
  | inr e ↦ rw e (
      >>=-Keeps (slice m.raw n (n + l))
        (λ b. store_metadata-Keeps m rest (n + l) _ (decode_metadata-ne-stuck l (drop n m.raw))))
]

decode_body-Keeps : (m : Message) (rest : Bytes) → Keeps m.raw rest (decode_body m rest)
unfolding decode_body
decode_body-Keeps m rest = >>=-Keeps (slice m.raw 0 4) λ size.
    >>=-Keeps (slice m.raw 4 (4 + get_u32 size)) λ path.
      let path_end = 4 + get_u32 size in
      >>=-Keeps (slice m.raw path_end (path_end + 4)) λ size'.
        let method_end = path_end + 4 + get_u32 size' in
        >>=-Keeps (slice m.raw (path_end + 4) method_end) λ method.
          >>=-Keeps (slice m.raw method_end (method_end + 4)) λ size''.
            decode_meta-Keeps (record m { service_path = path; service_method = method }) rest
              (method_end + 4) (get_u32 size'')

read_full-cases :
    (r : Bytes) (n : ℕ)
    → ((b : Bytes) × (rest : Bytes) × (read_full r n ≡ full b rest)
        × (r ≡ b ++ rest)
        × (length b ≡ n))
      ⊎ ((x : Error) × (b : Bytes) × (read_full r n ≡ short x b [])
          × (length r < n)
          × ((x ≡ eof) ⊎ (x ≡ unexpected_eof)))
unfolding read_full
read_full-cases r n = elim (Bool-cases (leb n (length r))) [
  | inl e ↦ inl (
    take n r,
    drop n r,
    rw e refl,
    sym (take-append-drop n r),
    omega (arith, length-take n r, leb→le n (length r) e),
  )
  | inr e ↦ inr (elim (Bool-cases (length r == 0)) [
    | inl z ↦ (eof, [], rw (e, z) refl, ground arith, inl refl)
    | inr z ↦ (unexpected_eof, r, rw (e, z) refl, ground arith, inr refl)
  ])
]

-- How Decode leaves the stream: it took sixteen bytes and the body, or it failed, or it panicked.
abbrev pub Sound : ℕ → Bytes → Decoded → Type 0
Sound max_length r (done m rest) =
    (length r ≡ 16 + length m.raw + length rest) × (0 < max_length → length m.raw ≤ max_length)
Sound max_length r (failed e m rest) = length rest ≤ length r
Sound max_length r panicked = Unit {0}
Sound max_length r out_of_fuel = ⊥

Sound-body :
    (max_length : ℕ) (r raw rest : Bytes) (d : Decoded)
    → Keeps raw rest d
    → length r ≡ 16 + length raw + length rest
    → (0 < max_length → length raw ≤ max_length)
    → Sound max_length r d
Sound-body max_length r raw rest d (keeps_done m e) h g =
    (omega (arith, ap length e), λ p. omega (arith, ap length e, g p))
Sound-body max_length r raw rest d (keeps_failed x m) h g = omega arith
Sound-body max_length r raw rest d keeps_panicked h g = tt

-- Decode ends on every stream with a result: a message for which exactly sixteen bytes and its
-- body were taken and whose body keeps to MaxMessageLength, an error with no more left than there
-- was, or the panic of a slice out of range.
pub decode-Sound :
    (max_length : ℕ) (m : Message) (r : Bytes) → Sound max_length r (decode max_length m r)
decode-Sound max_length m r = elim (read_full-cases r 12) [
  | inr (x, b, e, h, _) ↦ rw (decode_short max_length m r e) (omega arith)
  | inl (b, r1, e, h, l) ↦ rw (decode_full max_length m r e) (elim (read_full-cases r1 4) [
    | inr (x, b', e', h', _) ↦ rw (decode_length_short max_length _ r1 e') (omega arith)
    | inl (b', r2, e', h', l') ↦
        elim (Bool-cases (ltb 0 max_length && ltb max_length (get_u32 b'))) [
          | inl g ↦
              rw (decode_length_long max_length _ r1 e' g)
                (omega (arith, ap length h, ap length h', length-append b r1, length-append b' r2))
          | inr g ↦
              rw (decode_length_full max_length _ r1 e' g) (elim (read_full-cases r2 (get_u32 b')) [
                | inr (x, b'', e'', h'', _) ↦
                    rw (decode_data_short _ r2 (get_u32 b') e'') (omega arith)
                | inl (b'', r3, e'', h'', l'') ↦ rw (decode_data_full _ r2 (get_u32 b') e'') (
                    Sound-body max_length r b'' r3 _
                      (decode_body-Keeps (record m { header = of_bytes b; raw = b'' }) r3)
                      (omega (
                        arith,
                        ap length h,
                        ap length h',
                        ap length h'',
                        length-append b r1,
                        length-append b' r2,
                        length-append b'' r3,
                      ))
                      (λ p. ground (arith, g, l'')))
              ])
        ]
  ])
]

read_full_short :
    (r : Bytes) (n : ℕ)
    → length r < n
    → (x : Error) × (b : Bytes) × (read_full r n ≡ short x b [])
      × ((x ≡ eof) ⊎ (x ≡ unexpected_eof))
read_full_short r n h = elim (read_full-cases r n) [
  | inl (b, rest, e, f, l) ↦ absurd (omega (arith, ap length f, length-append b rest))
  | inr (x, b, e, l, k) ↦ (x, b, e, k)
]

-- A stream that ends inside a message.
abbrev pub BrokenOff : Decoded → Type 0
BrokenOff (failed e m rest) = ((e ≡ eof) ⊎ (e ≡ unexpected_eof)) × (rest ≡ [])
BrokenOff _ = ⊥

prefix_split :
    (a b front back : Bytes)
    → a ++ b ≡ front ++ back
    → length a ≤ length front
    → (c : Bytes) × (front ≡ a ++ c) × (b ≡ c ++ back)
prefix_split [] b front back e h = (front, refl, e)
prefix_split (x ∷ a) b [] back e h = absurd (omega arith)
prefix_split (x ∷ a) b (y ∷ front) back e h =
    let (c, f, g) = prefix_split a b front back (cc) (omega arith) in (c, ap₂ ◌∷◌ (cc) f, g)

-- Every proper front of an encoded message makes Decode fail with EOF or ErrUnexpectedEOF: it is
-- never read as a message and never panics. Conditions: the body is shorter than 2^32 bytes and
-- within MaxMessageLength.
pub decode_truncated :
    (max_length : ℕ) (m x : Message) (front back : Bytes)
    → length (body x) < 2 ^ 32
    → Admits max_length (length (body x))
    → encode x ≡ front ++ back
    → 0 < length back
    → BrokenOff (decode max_length m front)
decode_truncated max_length m x front back small admits e p = elim (dec_lt (length front) 12) [
  | yes h ↦
      let (y, b, s, k) = read_full_short front 12 h in
      rw (decode_short max_length m front s) (k, refl)
  | no h ↦
      let (c, f, g) =
        prefix_split (to_bytes x.header) _ front back (sym (encode-body x) ∙ e) (omega arith) in
      rw f (
        rw
          (decode_full max_length m (to_bytes x.header ++ c)
            (read_full-append (to_bytes x.header) c 12 refl))
          (in_length c g))
]
  where
    m' : Message
    m' = record m { header = x.header }

    in_body : (d : Bytes) → body x ≡ d ++ back → BrokenOff (decode_data m' d (length (body x)))
    in_body d g =
        let (y, b, s, k) =
          read_full_short d (length (body x)) (omega (arith, ap length g, length-append d back)) in
        rw (decode_data_short m' d (length (body x)) s) (k, refl)

    in_length :
        (c : Bytes)
        → put_u32 (length (body x)) ++ body x ≡ c ++ back
        → BrokenOff (decode_length max_length m' c)
    in_length c g = elim (dec_lt (length c) 4) [
      | yes h ↦
          let (y, b, s, k) = read_full_short c 4 h in
          rw (decode_length_short max_length m' c s) (k, refl)
      | no h ↦
          let (d, f, g') =
            prefix_split (put_u32 (length (body x))) (body x) c back g
              (omega (arith, length-put_u32 (length (body x)))) in
          rw f (
            rw
              (decode_length_full max_length m' (put_u32 (length (body x)) ++ d)
                (read_full-append (put_u32 (length (body x))) d 4
                  (sym (length-put_u32 (length (body x)))))
                (rw (size_fits (body x) small) (guard_passes max_length (length (body x)) admits)))
              (rw (size_fits (body x) small) (in_body d g')))
    ]
