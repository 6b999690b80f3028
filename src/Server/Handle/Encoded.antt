-- ===== src/Server/Handle/Encoded.antt =====
-- What handleRequest of server/server.go replies with: the bytes that a codec wrote.
use frpc.Base.{Bool, true, false, [], ◌≡◌, refl, Option, none, some, inl, inr, Option-cases}
use frpc.Base.Bytes.{Bytes}
use frpc.Base.Dict.{Dict, lookup}
use frpc.Protocol.Header.{serialize_type}
use frpc.Protocol.Message.{Message, copy}
use frpc.Client.Call.{Codec, ok, Result-cases}
use frpc.Server.Service.{MethodType}
use frpc.Server.Handle.{
  Server, Handled, handle_error, give_up, encode_reply, invoke, handle_request,
}

fails : (e : Bytes) → Path (Option Bytes) (some e) none → ⊥
fails e f = cc

give_up_fails :
    (res : Message) (e : Bytes) (extra : Dict Bytes) (b : Bool)
    → (give_up res e extra b).failure ≡ none
    → ⊥
unfolding give_up handle_error
give_up_fails res e extra b f = cc

module _ {V : Type 0} where
  -- Where there is no error, the payload is what the codec wrote of some value.
  abbrev pub IsEncoded : Codec V → Handled → Type 0
  IsEncoded codec a = a.failure ≡ none → (v : V) × (codec.encode v ≡ ok a.res.payload)

  encode_reply-IsEncoded :
      (codec : Codec V) (res : Message) (r : V × Option Bytes) (extra : Dict Bytes)
      → IsEncoded codec (encode_reply codec res r extra)
  unfolding encode_reply
  encode_reply-IsEncoded codec res (reply, some e) extra =
      λ f. absurd (give_up_fails res e extra true f)
  encode_reply-IsEncoded codec res (reply, none) extra = elim (Result-cases (codec.encode reply)) [
    | inl (b, e) ↦ rw (e, encode_reply) (λ f. (reply, e))
    | inr (x, e) ↦ rw (e, encode_reply) (λ f. absurd (give_up_fails res x extra true f))
  ]

  invoke-IsEncoded :
      (codec : Codec V) (m : MethodType V) (req res : Message)
      → IsEncoded codec (invoke codec m req res)
  unfolding invoke
  invoke-IsEncoded codec m req res =
      elim (Option-cases (codec.decode req.payload m.method.new_arg).1) [
        | inl e ↦ rw (e, invoke) (encode_reply-IsEncoded codec res _ _)
        | inr (x, e) ↦ rw (e, invoke) (λ f. absurd (give_up_fails res x [] false f))
      ]

  pub handle_request-IsEncoded :
      (s : Server V) (c req : Message)
      → (handle_request s c req).failure ≡ none
      → (codec : Codec V) × (s.codecs (serialize_type req.header) ≡ some codec)
        × ((v : V) × (codec.encode v ≡ ok (handle_request s c req).res.payload))
  unfolding handle_request copy give_up handle_error
  handle_request-IsEncoded s c req = elim (Option-cases (lookup req.service_path s.services)) [
    | inl e ↦ rw (e, handle_request) (λ f. absurd (fails _ f))
    | inr (service, e) ↦ elim (Option-cases (lookup req.service_method service.method)) [
      | inl f ↦ rw (e, f, handle_request) (λ z. absurd (fails _ z))
      | inr (m, f) ↦ elim (Option-cases (s.codecs (serialize_type req.header))) [
        | inl g ↦ rw (e, f, g, handle_request) (λ z. absurd (fails _ z))
        | inr (codec, g) ↦
            rw (e, f, g, handle_request) (λ z. (codec, refl, invoke-IsEncoded codec m req _ z))
      ]
    ]
  ]
