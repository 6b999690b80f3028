-- ===== src/Examples/Wire.antt =====
-- Messages of protocol/message.go and what the theorems say of them.
use frpc.Base.{
  sym, take, drop, take-append-drop, length-drop, length-append, ap, ◌^◌, ◌<◌, ◌≡◌, refl, [], ◌∷◌,
  ◌++◌, some, arith, length, inl,
}
use frpc.Base.Bytes.{text, eq}
use frpc.Base.Dict.{Distinct}
use frpc.Protocol.Word.{put_u32}
use frpc.Protocol.Metadata.{write_entries, encode_metadata}
use frpc.Protocol.Header.{Header, to_bytes, of_bytes}
use frpc.Protocol.Message.{Message, new_message, encode, decode, done}
use frpc.Protocol.Message.Layout.{body, encode-body}
use frpc.Protocol.Message.RoundTrip.{received, decode-encode}
use frpc.Protocol.Message.Stream.{Sound, decode-Sound, BrokenOff, decode_truncated}

abbrev header : Header
header = of_bytes (8 ∷ 0 ∷ 0x20 ∷ 0x20 ∷ 0 ∷ 0 ∷ 0 ∷ 0 ∷ 0 ∷ 0 ∷ 1 ∷ 7 ∷ [])

abbrev hello : Message
hello = record {
  header = header;
  service_path = text "Arith";
  service_method = text "Add";
  metadata = some ((text "k", text "v") ∷ (text "trace", []) ∷ []);
  payload = 1 ∷ 2 ∷ 3 ∷ [];
  raw = [];
}

-- A message whose body announces a path of 2^32 - 1 bytes.
abbrev broken : Message
broken = record hello { raw = 255 ∷ 255 ∷ 255 ∷ 255 ∷ 0 ∷ [] }

abbrev wrong : Message
wrong = record hello { header = record header { h0 = 7 } }

hello_size : length (body hello) ≡ 50
unfolding encode_metadata write_entries put_u32
hello_size = refl

hello_small : length (body hello) < 2 ^ 32
hello_small = omega (arith, hello_size)

hello-Distinct : Distinct ((text "k", text "v") ∷ (text "trace", []) ∷ [])
hello-Distinct = unfold eq in ((refl, tt), (tt, tt))

decode-encode_example :
    decode 0 new_message (encode hello ++ (8 ∷ 9 ∷ []))
    ≡ done (received new_message hello) (8 ∷ 9 ∷ [])
decode-encode_example =
    decode-encode 0 new_message hello (8 ∷ 9 ∷ []) hello_small (inl refl) hello-Distinct

encode-body_example :
    encode hello ≡ to_bytes hello.header ++ (put_u32 (length (body hello)) ++ body hello)
encode-body_example = encode-body hello

decode-Sound_example : Sound 10 (encode hello) (decode 10 new_message (encode hello))
decode-Sound_example = decode-Sound 10 new_message (encode hello)

decode_truncated_example : BrokenOff (decode 0 new_message (take 30 (encode hello)))
decode_truncated_example =
    decode_truncated 0 new_message hello (take 30 (encode hello)) (drop 30 (encode hello))
      hello_small (inl refl) (sym (take-append-drop 30 (encode hello)))
      (omega (
        arith,
        length-drop 30 (encode hello),
        ap length (encode-body hello),
        hello_size,
        length-append (put_u32 (length (body hello))) (body hello),
      ))
