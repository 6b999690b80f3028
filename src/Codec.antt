-- ===== src/Codec.antt =====
-- The codecs of codec/codec.go with the map Codecs of core/frpc.go, and Zip and Unzip of
-- util/compress.go. The libraries behind them are foreign.
use frpc.Base.{ℕ, ◌++◌, Option, none, some, Bool, if◌then◌else◌, ◌==◌}
use frpc.Base.Bytes.{Bytes, text}
use frpc.Client.Call.{Result, ok, err, Codec, Env}
use frpc.Protocol.Header.{json, proto_buffer, msg_pack}

-- Marshal and Unmarshal of encoding/json, of msgpack and of golang/protobuf, the methods Marshal and
-- Unmarshal of a value that has them, whether a value is a proto.Message, and the name of its type.
pub record Libraries (V : Type 0) : Type 0 where
  pub json_marshal : V → Result Bytes
  pub json_unmarshal : Bytes → V → V × Option Bytes
  pub msgpack_marshal : V → Result Bytes
  pub msgpack_unmarshal : Bytes → V → V × Option Bytes
  pub marshaler : V → Option (Result Bytes)
  pub unmarshaler : V → Option (Bytes → V × Option Bytes)
  pub is_message : V → Bool
  pub proto_marshal : V → Result Bytes
  pub proto_unmarshal : Bytes → V → V × Option Bytes
  pub type_name : V → Bytes

module _ {V : Type 0} (lib : Libraries V) where
  unfoldable pub json_codec : Codec V
  json_codec = record { encode = lib.json_marshal; decode = lib.json_unmarshal }

  unfoldable pub msgpack_codec : Codec V
  msgpack_codec = record { encode = lib.msgpack_marshal; decode = lib.msgpack_unmarshal }

  -- fmt.Errorf("%T is not a proto.Unmarshaler", i)
  unfoldable pub not_proto : V → Bytes
  not_proto i = lib.type_name i ++ text " is not a proto.Unmarshaler"

  unfoldable pub proto_encode : V → Result Bytes
  unfolding not_proto
  proto_encode i = elim (lib.marshaler i) [
    | some r ↦ r
    | none ↦ if lib.is_message i then lib.proto_marshal i else err (not_proto i)
  ]

  unfoldable pub proto_decode : Bytes → V → V × Option Bytes
  unfolding not_proto
  proto_decode b i = elim (lib.unmarshaler i) [
    | some f ↦ f b
    | none ↦ if lib.is_message i then lib.proto_unmarshal b i else (i, some (not_proto i))
  ]

  unfoldable pub proto_codec : Codec V
  unfolding proto_encode proto_decode
  proto_codec = record { encode = proto_encode; decode = proto_decode }

  -- core.Codecs, by SerializeType
  unfoldable pub codecs : ℕ → Option (Codec V)
  unfolding json_codec proto_codec msgpack_codec
  codecs t =
      if t == json
      then some json_codec
      else if t == proto_buffer
      then some proto_codec
      else if t == msg_pack
      then some msgpack_codec
      else none

-- compress/gzip: a writer `W` over a buffer, with what its calls report, and a reader `R`.
pub record Gzip (W R : Type 0) : Type 0 where
  pub new_writer : W
  pub write : Bytes → W → W × Option Bytes
  pub flush : W → W × Option Bytes
  pub close : W → W × Option Bytes
  pub buffer : W → Bytes
  pub new_reader : Bytes → Result R
  pub read_all : R → Result Bytes

module _ {W R : Type 0} (gz : Gzip W R) where
  unfoldable pub unzip : Bytes → Result Bytes
  unzip b = elim (gz.new_reader b) [ err e ↦ err e | ok r ↦ gz.read_all r ]

  unfoldable pub zip : Bytes → Result Bytes
  zip b =
      let (w, failure) = gz.write b gz.new_writer in
      elim failure [
        | some e ↦ err e
        | none ↦
            let (w', failure') = gz.flush w in
            elim failure' [
              | some e ↦ err e
              | none ↦
                  let (w'', failure'') = gz.close w' in
                  elim failure'' [ some e ↦ err e | none ↦ ok (gz.buffer w'') ]
            ]
      ]

-- What a connection uses of codecs and compression.
unfoldable pub env_of : {V W R : Type 0} → Libraries V → Gzip W R → Env V
unfolding codecs zip unzip
env_of lib gz = record { codecs = codecs lib; zip = zip gz; unzip = unzip gz }
