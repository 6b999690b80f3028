-- ===== src/Server/Handle.antt =====
-- One request at the server: handleRequest, handleError and the handler of serveConn in
-- server/server.go.
pub mod Answers
pub mod Encoded
use frpc.Base.{
  ℕ, ◌+◌, ◌/◌, ◌%◌, Bool, true, false, List, [], ◌∷◌, ◌++◌, Option, none, some, ltb, if◌then◌else◌,
}
use frpc.Base.Bytes.{Bytes, text}
use frpc.Base.Dict.{Dict, lookup, insert}
use frpc.Protocol.Header.{
  response, set_message_type, set_message_status_type, serialize_type, is_heartbeat, is_oneway,
  error_status,
}
use frpc.Protocol.Message.{Message, copy, encode}
use frpc.Client.Call.{Result, ok, err, Codec}
use frpc.Client.Call.Response.{service_error_key}
use frpc.Server.Service.{Service, MethodType, call, count_call}

-- The services, and the codecs by SerializeType (core.Codecs).
pub record Server (V : Type 0) : Type 0 where
  pub services : Dict (Service V)
  pub codecs : ℕ → Option (Codec V)

-- %d of a number below 100; a SerializeType is below 16.
unfoldable pub decimal : ℕ → Bytes
decimal n = if ltb n 10 then (48 + n) ∷ [] else (48 + n / 10) ∷ (48 + n % 10) ∷ []

-- res.Metadata[key] = value, with a new map for nil.
unfoldable pub put_metadata : Bytes → Bytes → Option (Dict Bytes) → Option (Dict Bytes)
put_metadata k v none = some (insert k v [])
put_metadata k v (some m) = some (insert k v m)

unfoldable pub handle_error : Message → Bytes → Message × Option Bytes
unfolding put_metadata
handle_error res e = (
  record res {
    header = set_message_status_type error_status res.header;
    metadata = put_metadata service_error_key e res.metadata;
  },
  some e,
)

-- for k, v := range resMetadata { meta[k] = v }
unfoldable pub merge : Dict Bytes → Dict Bytes → Dict Bytes
merge [] meta = meta
merge ((k, v) ∷ more) meta = merge more (insert k v meta)

unfoldable pub add_metadata : Dict Bytes → Option (Dict Bytes) → Option (Dict Bytes)
unfolding merge
add_metadata [] meta = meta
add_metadata (e ∷ more) none = some (e ∷ more)
add_metadata (e ∷ more) (some meta) = some (merge (e ∷ more) meta)

-- What a request leads to: the answer, its error, the metadata that the method set, and whether the
-- method was called.
pub record Handled : Type 0 where
  pub res : Message
  pub failure : Option Bytes
  pub extra : Dict Bytes
  pub called : Bool

unfoldable pub give_up : Message → Bytes → Dict Bytes → Bool → Handled
unfolding handle_error
give_up res e extra called = record {
  res = (handle_error res e).0;
  failure = (handle_error res e).1;
  extra = extra;
  called = called;
}

module _ {V : Type 0} where
  -- Behind the call: its error, or the encoded reply.
  unfoldable pub encode_reply : Codec V → Message → V × Option Bytes → Dict Bytes → Handled
  unfolding give_up
  encode_reply codec res (reply, some e) extra = give_up res e extra true
  encode_reply codec res (reply, none) extra = elim (codec.encode reply) [
    | err e ↦ give_up res e extra true
    | ok b ↦ record {
      res = record res { payload = b };
      failure = none;
      extra = extra;
      called = true;
    }
  ]

  -- Behind the codec: decoding the arguments, and the call.
  unfoldable pub invoke : Codec V → MethodType V → Message → Message → Handled
  unfolding encode_reply give_up
  invoke codec m req res =
      let (argv, failure) = codec.decode req.payload m.method.new_arg in
      elim failure [
        | some e ↦ give_up res e [] false
        | none ↦
            let (end, extra) = call m argv m.method.new_reply in encode_reply codec res end extra
      ]

  -- handleRequest over the message `c` that GetMsgs gave.
  unfoldable pub handle_request : Server V → Message → Message → Handled
  unfolding invoke give_up
  handle_request s c req =
      let copied = copy c req in
      let res = record copied { header = set_message_type response copied.header } in
      elim (lookup res.service_path s.services) [
        | none ↦ give_up res (text "frpc: can't find service " ++ res.service_path) [] false
        | some service ↦ elim (lookup res.service_method service.method) [
          | none ↦ give_up res (text "frpc: can't find method " ++ res.service_method) [] false
          | some m ↦ elim (s.codecs (serialize_type req.header)) [
            | none ↦
                give_up res (text "can not find codec for " ++ decimal (serialize_type req.header))
                  [] false
            | some codec ↦ invoke codec m req res
          ]
        ]
      ]

  -- The goroutine of serveConn for one request: what it writes, and the services afterwards.
  unfoldable pub serve : Server V → Message → Message → Option Bytes × Server V
  unfolding handle_request
  serve s c req =
      if is_heartbeat req.header
      then (some (encode (record req { header = set_message_type response req.header })), s)
      else let h = handle_request s c req in
        let s' =
          if h.called
          then record s { services = count_call req.service_path req.service_method s.services }
          else s in
        (
          if is_oneway req.header
              then none
              else some (encode (record h.res { metadata = add_metadata h.extra h.res.metadata })),
          s',
        )
