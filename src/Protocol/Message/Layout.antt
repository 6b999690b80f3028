-- ===== src/Protocol/Message/Layout.antt =====
-- Encode of protocol/message.go writes every part at its place: the copies at computed offsets into
-- one buffer are the parts one behind the other.
use frpc.Base.{
  ℕ, ◌+◌, ◌≡◌, refl, ap, ◌∙◌, [], ◌++◌, arith, length, length-append, append_assoc, append-nil,
}
use frpc.Base.Bytes.{Bytes, copy_at, zeros, copy_at-zeros}
use frpc.Protocol.Word.{put_u32, length-put_u32}
use frpc.Protocol.Header.{to_bytes}
use frpc.Protocol.Metadata.{encode_metadata}
use frpc.Protocol.Metadata.RoundTrip.{framed, length-framed}
use frpc.Protocol.Message.{Message, encode}

-- The body: path, method, metadata and payload, each behind its length.
abbrev pub body : Message → Bytes
body m =
    framed m.service_path
    ++ (framed m.service_method ++ (framed (encode_metadata m.metadata) ++ framed m.payload))

pub length-body :
    (m : Message)
    → length (body m)
      ≡ (4 + length m.service_path)
        + (4 + length m.service_method)
        + (4 + length (encode_metadata m.metadata))
        + (4 + length m.payload)
length-body m = omega (
  arith,
  length-framed m.service_path,
  length-framed m.service_method,
  length-framed (encode_metadata m.metadata),
  length-framed m.payload,
  length-append (framed m.service_path)
      (framed m.service_method ++ (framed (encode_metadata m.metadata) ++ framed m.payload)),
  length-append (framed m.service_method) (framed (encode_metadata m.metadata) ++ framed m.payload),
  length-append (framed (encode_metadata m.metadata)) (framed m.payload),
)

-- One copy: `front` is written, and `n` zeroes are left behind `src`.
write :
    (front src : Bytes) (off total n : ℕ)
    → off ≡ length front
    → total ≡ length src + n
    → copy_at (front ++ zeros total) off src ≡ (front ++ src) ++ zeros n
write front src off total n h k =
    ap (λ t. copy_at (front ++ zeros t) off src) k ∙ copy_at-zeros front src off n h

-- A length and a text, written by two copies.
write_framed :
    (front s : Bytes) (off off' total n : ℕ)
    → off ≡ length front
    → off' ≡ length front + 4
    → total ≡ 4 + length s + n
    → copy_at (copy_at (front ++ zeros total) off (put_u32 (length s))) off' s
      ≡ (front ++ framed s) ++ zeros n
write_framed front s off off' total n h h' k =
    ap (λ t. copy_at t off' s)
      (write front (put_u32 (length s)) off total (length s + n) h
        (omega (arith, length-put_u32 (length s))))
    ∙ write (front ++ put_u32 (length s)) s off' (length s + n) n
        (omega (arith, length-append front (put_u32 (length s)), length-put_u32 (length s))) refl
    ∙ simp append_assoc

-- The copies of Encode at computed offsets into one buffer give the header, the length of the
-- body, and the body: path, method, metadata and payload, each behind its own length.
pub encode-body :
    (m : Message) → encode m ≡ to_bytes m.header ++ (put_u32 (length (body m)) ++ body m)
unfolding encode
encode-body m =
    rw (header_written, length_written, path_written, method_written, meta_written, payload_written)
      (rw length-body (simp (append_assoc, append-nil)))
  where
    spl : ℕ
    spl = length m.service_path

    sml : ℕ
    sml = length m.service_method

    meta : Bytes
    meta = encode_metadata m.metadata

    pl : ℕ
    pl = length m.payload

    all_l : ℕ
    all_l = (4 + spl) + (4 + sml) + (4 + length meta) + (4 + pl)

    f0 : Bytes
    f0 = to_bytes m.header

    f1 : Bytes
    f1 = f0 ++ put_u32 all_l

    f2 : Bytes
    f2 = f1 ++ framed m.service_path

    f3 : Bytes
    f3 = f2 ++ framed m.service_method

    f4 : Bytes
    f4 = f3 ++ framed meta

    ends :
        (length f1 ≡ 16)
        × (length f2 ≡ 20 + spl)
        × (length f3 ≡ 24 + spl + sml)
        × (length f4 ≡ 28 + spl + sml + length meta)
    ends = omega (
      arith,
      length-append f0 (put_u32 all_l),
      length-put_u32 all_l,
      length-append f1 (framed m.service_path),
      length-append f2 (framed m.service_method),
      length-append f3 (framed meta),
      length-framed m.service_path,
      length-framed m.service_method,
      length-framed meta,
    )

    header_written : copy_at (zeros (12 + 4 + all_l)) 0 f0 ≡ f0 ++ zeros (4 + all_l)
    header_written = write [] f0 0 (12 + 4 + all_l) (4 + all_l) refl (omega arith)

    length_written : copy_at (f0 ++ zeros (4 + all_l)) 12 (put_u32 all_l) ≡ f1 ++ zeros all_l
    length_written =
        write f0 (put_u32 all_l) 12 (4 + all_l) all_l refl (omega (arith, length-put_u32 all_l))

    path_written :
        copy_at (copy_at (f1 ++ zeros all_l) 16 (put_u32 spl)) 20 m.service_path
        ≡ f2 ++ zeros ((4 + sml) + (4 + length meta) + (4 + pl))
    path_written =
        write_framed f1 m.service_path 16 20 all_l ((4 + sml) + (4 + length meta) + (4 + pl))
          (omega (arith, ends)) (omega (arith, ends)) (omega arith)

    method_written :
        copy_at
          (copy_at
            (f2 ++ zeros ((4 + sml) + (4 + length meta) + (4 + pl)))
            (20 + spl)
            (put_u32 sml))
          (24 + spl)
          m.service_method
        ≡ f3 ++ zeros ((4 + length meta) + (4 + pl))
    method_written =
        write_framed f2 m.service_method (20 + spl) (24 + spl) _ ((4 + length meta) + (4 + pl))
          (omega (arith, ends)) (omega (arith, ends)) (omega arith)

    meta_start : ℕ
    meta_start = 12 + 4 + (4 + spl) + (4 + sml)

    meta_written :
        copy_at
          (copy_at (f3 ++ zeros ((4 + length meta) + (4 + pl))) meta_start (put_u32 (length meta)))
          (meta_start + 4)
          meta
        ≡ f4 ++ zeros (4 + pl)
    meta_written =
        write_framed f3 meta meta_start (meta_start + 4) _ (4 + pl) (omega (arith, ends))
          (omega (arith, ends)) (omega arith)

    payload_start : ℕ
    payload_start = meta_start + (4 + length meta)

    payload_written :
        copy_at
          (copy_at (f4 ++ zeros (4 + pl)) payload_start (put_u32 pl))
          (payload_start + 4)
          m.payload
        ≡ (f4 ++ framed m.payload) ++ zeros 0
    payload_written =
        write_framed f4 m.payload payload_start (payload_start + 4) _ 0 (omega (arith, ends))
          (omega (arith, ends)) (omega arith)
