-- ===== src/Protocol/Metadata/RoundTrip.antt =====
-- decodeMetadata reads back what encodeMetadata wrote, wherever it stands in the message.
use frpc.Base.{
  ℕ, zero, suc, ◌+◌, ◌%◌, ◌^◌, ◌≤◌, ◌<◌, ◌≡◌, refl, sym, ap, ap₂, subst, ◌∙◌, false, [], ◌∷◌, ◌++◌,
  some, arith, ltb, length, length-append, append_assoc, append-nil,
}
use frpc.Base.Bytes.{Bytes, slice, slice-append}
use frpc.Base.Dict.{Dict, insert_new, Distinct, Distinct-middle}
use frpc.Protocol.Word.{put_u32, get_u32, get_u32-put_u32, length-put_u32}
use frpc.Protocol.Metadata.Total.{metadata_loop_step}
use frpc.Protocol.Metadata.{
  write_entry, write_entries, encode_metadata, got, read_string, entries, metadata_loop,
  decode_metadata,
}

-- A string behind its length.
abbrev pub framed : Bytes → Bytes
framed s = put_u32 (length s) ++ s

pub length-framed : (s : Bytes) → length (framed s) ≡ 4 + length s
length-framed s =
    length-append (put_u32 (length s)) s ∙ ap (λ n. n + length s) (length-put_u32 (length s))

-- The entries one behind the other, with no buffer.
abbrev pub rendered : Dict Bytes → Bytes
rendered [] = []
rendered ((k, v) ∷ m) = framed k ++ (framed v ++ rendered m)

write_entries-rendered : (buf : Bytes) (m : Dict Bytes) → write_entries buf m ≡ buf ++ rendered m
unfolding write_entries
write_entries-rendered buf [] = sym (append-nil buf)
write_entries-rendered buf ((k, v) ∷ m) =
    write_entries-rendered (write_entry buf k v) m ∙ unfold write_entry in simp append_assoc

pub encode_metadata-rendered : (m : Dict Bytes) → encode_metadata (some m) ≡ rendered m
unfolding encode_metadata
encode_metadata-rendered m = write_entries-rendered [] m

-- The two slices of a framed string at position `n`.
pub framed_slices :
    (front s back : Bytes) (n : ℕ)
    → n ≡ length front
    → (slice (front ++ (framed s ++ back)) n (n + 4) ≡ some (put_u32 (length s)))
      × (slice (front ++ (framed s ++ back)) (n + 4) (n + 4 + length s) ≡ some s)
framed_slices front s back n h = (
  ap (λ t. slice (front ++ t) n (n + 4)) (append_assoc (put_u32 (length s)) s back)
      ∙ slice-append front (put_u32 (length s)) (s ++ back) n (n + 4) h
          (omega (arith, length-put_u32 (length s))),
  ap (λ t. slice t (n + 4) (n + 4 + length s)) regroup
      ∙ slice-append (front ++ put_u32 (length s)) s back (n + 4) (n + 4 + length s) low
          (omega (arith, low)),
)
  where
    regroup : front ++ (framed s ++ back) ≡ (front ++ put_u32 (length s)) ++ (s ++ back)
    regroup = simp append_assoc

    low : n + 4 ≡ length (front ++ put_u32 (length s))
    low = omega (arith, length-append front (put_u32 (length s)), length-put_u32 (length s))

-- Reading a framed string that ends within the limit.
read_string-framed :
    (limit : ℕ) (front s back : Bytes) (n : ℕ)
    → n ≡ length front
    → n + 4 + length s ≤ limit
    → limit < 2 ^ 32
    → read_string limit (front ++ (framed s ++ back)) n ≡ got s (n + 4 + length s)
unfolding read_string
read_string-framed limit front s back n h fits small =
    rw (start, slices.0, size, stop, test, slices.1) refl
  where
    slices :
        (slice (front ++ (framed s ++ back)) n (n + 4) ≡ some (put_u32 (length s)))
        × (slice (front ++ (framed s ++ back)) (n + 4) (n + 4 + length s) ≡ some s)
    slices = framed_slices front s back n h

    start : (n + 4) % 2 ^ 32 ≡ n + 4
    start = omega arith

    size : get_u32 (put_u32 (length s)) ≡ length s
    size = get_u32-put_u32 (length s) ∙ omega arith

    stop : (n + 4 + length s) % 2 ^ 32 ≡ n + 4 + length s
    stop = omega arith

    test : ltb limit (n + 4 + length s) ≡ false
    test = ground arith

metadata_loop-rendered :
    (fuel l n : ℕ) (front back : Bytes) (acc m : Dict Bytes)
    → n ≡ length front
    → l ≡ n + length (rendered m)
    → l < 2 ^ 32
    → length (rendered m) < fuel
    → Distinct (acc ++ m)
    → metadata_loop fuel l (front ++ (rendered m ++ back)) n acc ≡ entries (acc ++ m)
unfolding metadata_loop
metadata_loop-rendered zero l n front back acc m hn hl small hf d = absurd (omega arith)
metadata_loop-rendered (suc fuel) l n front back acc [] hn hl small hf d =
    rw (append-nil acc) (ground arith)
metadata_loop-rendered (suc fuel) l n front back acc ((k, v) ∷ m) hn hl small hf d =
    ap (λ t. metadata_loop (suc fuel) l t n acc) at_key
    ∙ metadata_loop_step fuel l _ n acc (omega (arith, sizes))
        (read_string-framed _ front k (framed v ++ (rendered m ++ back)) n hn (omega (arith, sizes))
          (omega arith))
        (ap (λ t. read_string l t (n + 4 + length k)) at_value
          ∙ read_string-framed l (front ++ framed k) v (rendered m ++ back) (n + 4 + length k)
              (omega (arith, sizes)) (omega (arith, sizes)) small)
    ∙ ap₂ (λ t a. metadata_loop fuel l t (n + 4 + length k + 4 + length v) a) at_rest
        (insert_new k v acc (Distinct-middle k v acc m d))
    ∙ metadata_loop-rendered fuel l (n + 4 + length k + 4 + length v)
        ((front ++ framed k) ++ framed v) back (acc ++ ((k, v) ∷ [])) m (omega (arith, sizes))
        (omega (arith, sizes)) small (omega (arith, sizes))
        (subst Distinct (sym (append_assoc acc ((k, v) ∷ []) m)) d)
    ∙ ap entries (append_assoc acc ((k, v) ∷ []) m)
  where
    at_key :
        front ++ (rendered ((k, v) ∷ m) ++ back)
        ≡ front ++ (framed k ++ (framed v ++ (rendered m ++ back)))
    at_key = simp append_assoc

    at_value :
        front ++ (framed k ++ (framed v ++ (rendered m ++ back)))
        ≡ (front ++ framed k) ++ (framed v ++ (rendered m ++ back))
    at_value = simp append_assoc

    at_rest :
        front ++ (framed k ++ (framed v ++ (rendered m ++ back)))
        ≡ ((front ++ framed k) ++ framed v) ++ (rendered m ++ back)
    at_rest = simp append_assoc

    sizes :
        (length (rendered ((k, v) ∷ m)) ≡ 4 + length k + (4 + length v) + length (rendered m))
        × (length (front ++ framed k) ≡ length front + (4 + length k))
        × (length ((front ++ framed k) ++ framed v)
            ≡ length front + (4 + length k) + (4 + length v))
    sizes = omega (
      arith,
      length-append (framed k) (framed v ++ rendered m),
      length-append (framed v) (rendered m),
      length-append front (framed k),
      length-append (front ++ framed k) (framed v),
      length-framed k,
      length-framed v,
    )

-- decodeMetadata reads back the entries that encodeMetadata wrote, in order and whatever follows
-- them. Conditions: no key stands twice, and the encoding is shorter than 2^32 bytes.
pub decode_metadata-encode_metadata :
    (m : Dict Bytes) (back : Bytes)
    → Distinct m
    → length (encode_metadata (some m)) < 2 ^ 32
    → decode_metadata (length (encode_metadata (some m))) (encode_metadata (some m) ++ back)
      ≡ entries m
unfolding decode_metadata
decode_metadata-encode_metadata m back d small = rw (encode_metadata-rendered m) (
    metadata_loop-rendered _ _ 0 [] back [] m refl (omega arith)
      (subst (λ t. length t < 2 ^ 32) (encode_metadata-rendered m) small) (omega arith) d)
