-- ===== src/Protocol/Message/RoundTrip.antt =====
-- Decode of protocol/message.go reads back what Encode wrote.
use frpc.Base.{
  ℕ, ◌+◌, ◌^◌, ◌≤◌, ◌<◌, ◌≡◌, refl, sym, ap, ap₂, ◌∙◌, true, false, ◌&&◌, [], ◌∷◌, ◌++◌, Option,
  none, some, arith, ltb, leb, ◌==◌, length, length-append, append_assoc, append-nil, drop, ◌⊎◌,
  inl, inr,
}
use frpc.Base.Bytes.{Bytes, slice, take_all, drop_all}
use frpc.Base.Dict.{Dict, Distinct}
use frpc.Protocol.Word.{put_u32, get_u32, get_u32-put_u32, length-put_u32}
use frpc.Protocol.Header.{to_bytes}
use frpc.Protocol.Metadata.{encode_metadata, write_entries, decode_metadata, entries}
use frpc.Protocol.Metadata.RoundTrip.{
  framed, length-framed, framed_slices, decode_metadata-encode_metadata, encode_metadata-rendered,
  rendered,
}
use frpc.Protocol.Message.Steps.{decode_full, decode_length_full, decode_data_full}
use frpc.Protocol.Message.Layout.{body, encode-body, length-body}
use frpc.Protocol.Message.{
  Message, encode, store_metadata, read_full, full, done, decode_payload, decode_meta, decode_body,
  decode,
}

pub read_full-append : (xs ys : Bytes) (n : ℕ) → n ≡ length xs → read_full (xs ++ ys) n ≡ full xs ys
unfolding read_full
read_full-append xs ys n h = rw (h, take_all xs ys, drop_all xs ys, enough) refl
  where
    enough : leb (length xs) (length (xs ++ ys)) ≡ true
    enough = ground (arith, length-append xs ys)

-- A message that came with no metadata leaves what the receiving Message held.
abbrev pub carried : Option (Dict Bytes) → Option (Dict Bytes) → Option (Dict Bytes)
carried old none = old
carried old (some []) = old
carried old (some (e ∷ d)) = some (e ∷ d)

abbrev pub received : Message → Message → Message
received m x = record x { metadata = carried m.metadata x.metadata; raw = body x }

abbrev pub HasDistinct : Option (Dict Bytes) → Type 0
HasDistinct none = Unit {0}
HasDistinct (some d) = Distinct d

module _ (front back s : Bytes) (n : ℕ) (at : n ≡ length front) where
  behind_length : drop (n + 4) (front ++ (framed s ++ back)) ≡ s ++ back
  behind_length = ap₂ drop place regroup ∙ drop_all (front ++ put_u32 (length s)) (s ++ back)
    where
      regroup : front ++ (framed s ++ back) ≡ (front ++ put_u32 (length s)) ++ (s ++ back)
      regroup = simp append_assoc

      place : n + 4 ≡ length (front ++ put_u32 (length s))
      place = omega (arith, length-append front (put_u32 (length s)), length-put_u32 (length s))

decode_payload-framed :
    (m : Message) (rest front s : Bytes) (n : ℕ)
    → n ≡ length front
    → m.raw ≡ front ++ (framed s ++ [])
    → decode_payload m rest n ≡ done (record m { payload = s }) rest
unfolding decode_payload
decode_payload-framed m rest front s n at r =
    rw size_slice (ap (λ t. done (record m { payload = t }) rest) left)
  where
    size_slice : slice m.raw n (n + 4) ≡ some (put_u32 (length s))
    size_slice = ap (λ t. slice t n (n + 4)) r ∙ (framed_slices front s [] n at).0

    left : drop (n + 4) m.raw ≡ s
    left = ap (drop (n + 4)) r ∙ behind_length front [] s n at ∙ append-nil s

-- The lengths of the encoding and of its parts fit into 32 bits.
pub size_fits : (s : Bytes) → length s < 2 ^ 32 → get_u32 (put_u32 (length s)) ≡ length s
size_fits s h = get_u32-put_u32 (length s) ∙ omega arith

decode_meta_empty :
    (m : Message) (rest : Bytes) (n : ℕ) → decode_meta m rest n 0 ≡ decode_payload m rest n
unfolding decode_meta
decode_meta_empty m rest n = refl

decode_meta_entries :
    (m : Message) (rest : Bytes) (n l : ℕ) {b : Bytes} {d : Dict Bytes}
    → 0 < l
    → slice m.raw n (n + l) ≡ some b
    → decode_metadata l (drop n m.raw) ≡ entries d
    → decode_meta m rest n l ≡ decode_payload (record m { metadata = some d }) rest (n + l)
unfolding decode_meta store_metadata
decode_meta_entries m rest n l h e f = rw (nonzero, e, f) refl
  where
    nonzero : (l == 0) ≡ false
    nonzero = ground arith

-- The metadata and the payload behind `front`, which ends where the length of the metadata stands.
decode_meta-framed :
    (m : Message) (rest front p : Bytes) (n : ℕ) (o : Option (Dict Bytes))
    → n ≡ length front
    → m.raw ≡ front ++ (framed (encode_metadata o) ++ (framed p ++ []))
    → length (encode_metadata o) < 2 ^ 32
    → HasDistinct o
    → decode_meta m rest (n + 4) (length (encode_metadata o))
      ≡ done (record m { metadata = carried m.metadata o; payload = p }) rest
decode_meta-framed m rest front p n none at r small d =
    unfold encode_metadata in
    decode_meta_empty m rest (n + 4)
    ∙ decode_payload-framed m rest (front ++ framed []) p (n + 4)
        (omega (arith, at, length-append front (framed []), length-framed []))
        (r ∙ simp append_assoc)
decode_meta-framed m rest front p n (some []) at r small d =
    unfold encode_metadata write_entries in
    decode_meta_empty m rest (n + 4)
    ∙ decode_payload-framed m rest (front ++ framed []) p (n + 4)
        (omega (arith, at, length-append front (framed []), length-framed []))
        (r ∙ simp append_assoc)
decode_meta-framed m rest front p n (some ((k, v) ∷ d')) at r small d =
    decode_meta_entries m rest (n + 4) (length meta) some_bytes
      (ap (λ t. slice t (n + 4) (n + 4 + length meta)) r
        ∙ (framed_slices front meta (framed p ++ []) n at).1)
      (ap (decode_metadata (length meta))
          (ap (drop (n + 4)) r ∙ behind_length front (framed p ++ []) meta n at)
        ∙ decode_metadata-encode_metadata ((k, v) ∷ d') (framed p ++ []) d small)
    ∙ decode_payload-framed (record m { metadata = some ((k, v) ∷ d') }) rest (front ++ framed meta)
        p (n + 4 + length meta)
        (omega (arith, at, length-append front (framed meta), length-framed meta))
        (r ∙ simp append_assoc)
  where
    meta : Bytes
    meta = encode_metadata (some ((k, v) ∷ d'))

    some_bytes : 0 < length meta
    some_bytes = omega (
      arith,
      ap length (encode_metadata-rendered ((k, v) ∷ d')),
      length-append (framed k) (framed v ++ rendered d'),
      length-framed k,
    )

-- One length and the text behind it, as decode_body reads them.
module _ (raw front s back : Bytes) (n : ℕ) (at : n ≡ length front)
    (r : raw ≡ front ++ (framed s ++ back)) where
  raw_size : slice raw n (n + 4) ≡ some (put_u32 (length s))
  raw_size = ap (λ t. slice t n (n + 4)) r ∙ (framed_slices front s back n at).0

  raw_text : slice raw (n + 4) (n + 4 + length s) ≡ some s
  raw_text = ap (λ t. slice t (n + 4) (n + 4 + length s)) r ∙ (framed_slices front s back n at).1

  raw_next : raw ≡ (front ++ framed s) ++ back
  raw_next = r ∙ sym (append_assoc front (framed s) back)

decode_body-body :
    (m x : Message) (rest : Bytes)
    → m.raw ≡ body x
    → length (body x) < 2 ^ 32
    → HasDistinct x.metadata
    → decode_body m rest
      ≡ done
          (record m {
            service_path = x.service_path;
            service_method = x.service_method;
            metadata = carried m.metadata x.metadata;
            payload = x.payload;
          })
          rest
unfolding decode_body
decode_body-body m x rest r small d =
    rw
      (
        raw_size m.raw [] path b1 0 refl r1,
        size_fits path (omega (arith, length-body x)),
        raw_text m.raw [] path b1 0 refl r1,
        raw_size m.raw f1 method b2 (4 + length path) l1 r2,
        size_fits method (omega (arith, length-body x)),
        raw_text m.raw f1 method b2 (4 + length path) l1 r2,
        raw_size m.raw f2 meta b3 (4 + length path + 4 + length method) l2 r3,
        size_fits meta (omega (arith, length-body x)),
      )
      (decode_meta-framed (record m { service_path = path; service_method = method }) rest f2
        x.payload (4 + length path + 4 + length method) x.metadata l2 r3
        (omega (arith, length-body x)) d)
  where
    path : Bytes
    path = x.service_path

    method : Bytes
    method = x.service_method

    meta : Bytes
    meta = encode_metadata x.metadata

    b3 : Bytes
    b3 = framed x.payload ++ []

    b2 : Bytes
    b2 = framed meta ++ b3

    b1 : Bytes
    b1 = framed method ++ b2

    f1 : Bytes
    f1 = framed path

    f2 : Bytes
    f2 = f1 ++ framed method

    l1 : 4 + length path ≡ length f1
    l1 = omega (arith, length-framed path)

    l2 : 4 + length path + 4 + length method ≡ length f2
    l2 = omega (arith, length-append f1 (framed method), length-framed path, length-framed method)

    r1 : m.raw ≡ framed path ++ b1
    r1 = r ∙ simp append-nil

    r2 : m.raw ≡ f1 ++ (framed method ++ b2)
    r2 = r1

    r3 : m.raw ≡ f2 ++ (framed meta ++ b3)
    r3 = r1 ∙ simp append_assoc

abbrev pub Admits : ℕ → ℕ → Type 0
Admits max_length l = (max_length ≡ 0) ⊎ (l ≤ max_length)

pub guard_passes :
    (max_length l : ℕ) → Admits max_length l → (ltb 0 max_length && ltb max_length l) ≡ false
guard_passes max_length l (inl e) = ground arith
guard_passes max_length l (inr h) = ground arith

-- Decode of the bytes that Encode writes, followed by anything on the connection, gives the
-- message back and leaves what follows: header, path, method and payload are those sent, `raw` is
-- the body, and the metadata are those sent, where an empty map leaves the metadata of the
-- receiving message. Conditions: the body is shorter than 2^32 bytes and within MaxMessageLength,
-- and no key stands twice.
pub decode-encode :
    (max_length : ℕ) (m x : Message) (rest : Bytes)
    → length (body x) < 2 ^ 32
    → Admits max_length (length (body x))
    → HasDistinct x.metadata
    → decode max_length m (encode x ++ rest) ≡ done (received m x) rest
decode-encode max_length m x rest small admits d =
    ap (decode max_length m) stream
    ∙ decode_full max_length m _ (read_full-append (to_bytes x.header) _ 12 refl)
    ∙ decode_length_full max_length (record m { header = x.header }) _
        (read_full-append (put_u32 (length (body x))) (body x ++ rest) 4
          (sym (length-put_u32 (length (body x)))))
        (rw (size_fits (body x) small) (guard_passes max_length (length (body x)) admits))
    ∙ decode_data_full (record m { header = x.header }) (body x ++ rest) _
        (read_full-append (body x) rest _ (size_fits (body x) small))
    ∙ decode_body-body (record m { header = x.header; raw = body x }) x rest refl small d
  where
    stream : encode x ++ rest ≡ to_bytes x.header ++ (put_u32 (length (body x)) ++ (body x ++ rest))
    stream = ap (λ t. t ++ rest) (encode-body x) ∙ simp append_assoc
