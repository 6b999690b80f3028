-- ===== src/Rpc/Exchange.antt =====
-- One call from end to end: what the caller gets of what the handler of server/server.go did.
use frpc.Base.{
  Bool, ◌&&◌, ◌∷◌, ℕ, ◌^◌, ◌<◌, ◌≡◌, ◌≢◌, Option-cases, refl, sym, ap, subst, ◌∙◌, true, false, [],
  ◌++◌, Option, none, some, arith, ◌==◌, length, append-nil, get_elem?, inl, inr,
}
use frpc.Base.Bytes.{Bytes, text}
use frpc.Base.Dict.{Dict, Missing}
use frpc.Base.Table.{lookup as lookup_call}
use frpc.Protocol.Header.{
  Header, message_status_type, compress_type, serialize_type, is_heartbeat, is_oneway,
  normal_status, gzip,
}
use frpc.Protocol.Message.{Message, Decoded, new_message, encode, decode}
use frpc.Protocol.Message.Layout.{body}
use frpc.Protocol.Message.RoundTrip.{HasDistinct, received, carried, decode-encode}
use frpc.Client.Call.{ok, err, Codec, Env, Call, Client, service_error, call_done}
use frpc.Client.Call.Request.{IsRequest}
use frpc.Client.Call.Response.{
  service_error_key, meta_value, handle_message, answer_call, receive_reply, decode_reply,
  set_service_error,
}
use frpc.Client.Call.Trace.Heap.{some_eq}
use frpc.Client.Call.Trace.Answer.{handle_message_answers}
use frpc.Server.Handle.{Server, Handled, handle_request, serve, add_metadata}
use frpc.Server.Handle.Answers.{
  status_of, Answered, replied, refused, handle_request-Answered, Reads, handle_request-Reads,
  response-is_server_message, answer_call-error,
}
use frpc.Server.Handle.Encoded.{handle_request-IsEncoded}
use frpc.Rpc.{answer, deliver, exchange}
use frpc.Rpc.Metadata.{meta_value-add_metadata}

-- The message fits the format: its body into 32 bits, and no key twice, as in every Go map.
abbrev pub Fits : Message → Type 0
Fits x = (length (body x) < 2 ^ 32) × HasDistinct x.metadata

pub reads : (o x : Message) → Fits x → decode 0 o (encode x) ≡ Decoded.done (received o x) []
reads o x (small, d) =
    ap (decode 0 o) (sym (append-nil (encode x))) ∙ decode-encode 0 o x [] small (inl refl) d

-- The text that the client finds in the metadata of an answer with an error.
Answered-text :
    {h : Header} {path method : Bytes} (a : Handled) (e : Bytes) (old : Option (Dict Bytes))
    → a.failure ≡ some e
    → Missing service_error_key a.extra
    → Answered h path method a
    → meta_value service_error_key (carried old (add_metadata a.extra a.res.metadata)) ≡ e
Answered-text _ e old f n (replied a _ _ _ g _) = cc
Answered-text _ e old f n (refused a x d _ _ _ g p q) =
    ap (λ o. meta_value service_error_key (carried old (add_metadata a.extra o))) p
    ∙ meta_value-add_metadata service_error_key x a.extra d old n q
    ∙ some_eq (sym g ∙ f)

call_done-result :
    {V : Type 0} (c : Call V) → ((call_done c).reply ≡ c.reply) × ((call_done c).error ≡ c.error)
unfolding call_done
call_done-result c = ground arith

-- A normal answer, not zipped, for which the client has a codec that reads the payload.
answer_call-reply :
    {V : Type 0} (env : Env V) (res : Message) (call : Call V) (codec : Codec V) (reply : V)
    → message_status_type res.header ≡ normal_status
    → is_heartbeat res.header ≡ false
    → (length res.payload == 0) ≡ false
    → (compress_type res.header == gzip) ≡ false
    → env.codecs (serialize_type res.header) ≡ some codec
    → codec.decode res.payload call.reply ≡ (reply, none)
    → ((answer_call env res call).0.reply ≡ reply)
      × ((answer_call env res call).0.error ≡ call.error)
unfolding answer_call
answer_call-reply env res call codec reply n h p z k d =
    rw (n, h, received_reply, answer_call) (call_done-result _)
  where
    received_reply : receive_reply env res call ≡ (record call { reply = reply }, none)
    received_reply =
        unfold receive_reply decode_reply in
        rw (p, z, k, d, receive_reply) (ap (λ x. (record call { reply = x.0 }, none)) d)

decode_reply-keeps_failure :
    {V : Type 0} (codec : Codec V) (e : Option Bytes) (b : Bytes) (c : Call V)
    → c.error ≢ none
    → (decode_reply (some codec) e b c).0.error ≢ none
unfolding decode_reply set_service_error
decode_reply-keeps_failure codec e b c n = elim (Option-cases (codec.decode b c.reply).1) [
  | inl q ↦ rw (q, decode_reply) n
  | inr (x, q) ↦ rw (q, decode_reply) (λ z. cc)
]

-- A normal answer marked as zipped, whose payload cannot be unzipped.
answer_call-unzip_failure :
    {V : Type 0} (env : Env V) (res : Message) (call : Call V) (codec : Codec V) (x : Bytes)
    → message_status_type res.header ≡ normal_status
    → is_heartbeat res.header ≡ false
    → (length res.payload == 0) ≡ false
    → (compress_type res.header == gzip) ≡ true
    → env.codecs (serialize_type res.header) ≡ some codec
    → env.unzip res.payload ≡ err x
    → (answer_call env res call).0.error ≢ none
unfolding answer_call
answer_call-unzip_failure {V} env res call codec x n h p z k u =
    rw (n, h, answer_call) (λ e. received_failure (sym (call_done-result _).1 ∙ e))
  where
    failed_call : Call V
    failed_call = record call { error = some (service_error (text "unzip payload: " ++ x)) }

    received_failure : (receive_reply env res call).0.error ≢ none
    received_failure =
        unfold receive_reply in
        rw (p, z, u, receive_reply)
          (subst (λ (o : Option (Codec V)). (decode_reply o (some x) [] failed_call).0.error ≢ none)
            (sym k) (decode_reply-keeps_failure codec (some x) [] failed_call (λ e. cc)))

-- What the handler does with the request as it came over the wire.
abbrev pub handled : {W : Type 0} → Server W → Message → Message → Handled
handled s m req = handle_request s m (received new_message req)

-- The first two bytes of a gzip stream.
abbrev pub starts_gzip : Bytes → Bool
starts_gzip [] = false
starts_gzip (a ∷ []) = false
starts_gzip (a ∷ b ∷ rest) = a == 31 && b == 139

-- No codec of the server writes what looks like gzip.
abbrev pub WritesNoGzip : {W : Type 0} → Server W → Type 0
WritesNoGzip {W} s =
    (n : ℕ) (codec : Codec W) (v : W) (b : Bytes)
    → s.codecs n ≡ some codec
    → codec.encode v ≡ ok b
    → starts_gzip b ≡ false

-- gzip.NewReader refuses bytes without the header of gzip.
abbrev pub UnzipsGzip : {V : Type 0} → Env V → Type 0
UnzipsGzip env = (b : Bytes) → starts_gzip b ≡ false → (x : Bytes) × (env.unzip b ≡ err x)

module _ {V W : Type 0} (s : Server W) (m : Message) (env : Env V) (r : Message) (c : Client V)
    (req : Message) where
  pub serve-answer :
      is_heartbeat req.header ≡ false
      → is_oneway req.header ≡ false
      → (serve s m (received new_message req)).0 ≡ some (encode (answer (handled s m req)))
  unfolding serve answer
  serve-answer h o = rw (h, o, serve) refl

  exchange_delivers :
      Fits req
      → Fits (answer (handled s m req))
      → is_heartbeat req.header ≡ false
      → is_oneway req.header ≡ false
      → exchange s m env r c (encode req)
        ≡ (handle_message env (received r (answer (handled s m req))) c).0
  unfolding exchange deliver
  exchange_delivers f g h o =
      rw (reads new_message req f, exchange)
        (rw (serve-answer h o, exchange) (rw (reads r (answer (handled s m req)) g, deliver) refl))

  module _ (number i : ℕ) (call : Call V) (is_request : IsRequest req.header number false)
      (fits : Fits req) (fits_back : Fits (answer (handled s m req)))
      (waits : lookup_call number c.pending ≡ some i) (at : get_elem? c.calls i ≡ some call) where
    marks : Reads (handled s m req).res.header req.header (status_of (handled s m req).failure)
    marks = handle_request-Reads s m (received new_message req) is_request.byte is_request.status

    pub exchange-answer_call :
        get_elem? (exchange s m env r c (encode req)).calls i
        ≡ some (answer_call env (received r (answer (handled s m req))) call).0
    unfolding answer
    exchange-answer_call =
        ap (λ x. get_elem? x.calls i)
          (exchange_delivers fits fits_back is_request.beats is_request.two_way)
        ∙ (handle_message_answers env (received r (answer (handled s m req))) c i call
            (response-is_server_message (received r (answer (handled s m req))) marks.kind)
            (ap (λ k. lookup_call k c.pending) (marks.number ∙ is_request.number_kept) ∙ waits)
            at).0

    -- An error of the handler, through both encodings.
    pub exchange-service_error :
        (e : Bytes)
        → (handled s m req).failure ≡ some e
        → Missing service_error_key (handled s m req).extra
        → (answered : Call V) × (get_elem? (exchange s m env r c (encode req)).calls i
            ≡ some answered)
          × (answered.error ≡ some (service_error e))
    unfolding answer
    exchange-service_error e f n = (
      (answer_call env (received r (answer (handled s m req))) call).0,
      exchange-answer_call,
      answer_call-error env (received r (answer (handled s m req))) call
            (marks.status ∙ ap status_of f)
          ∙ ap (λ t. some (service_error t))
              (Answered-text (handled s m req) e r.metadata f n
                (handle_request-Answered s m (received new_message req))),
    )

    -- A reply of the handler.
    pub exchange-reply :
        {codec : Codec V} {reply : V}
        → (handled s m req).failure ≡ none
        → (length (handled s m req).res.payload == 0) ≡ false
        → (compress_type req.header == gzip) ≡ false
        → env.codecs (serialize_type req.header) ≡ some codec
        → codec.decode (handled s m req).res.payload call.reply ≡ (reply, none)
        → (answered : Call V) × (get_elem? (exchange s m env r c (encode req)).calls i
            ≡ some answered)
          × (answered.reply ≡ reply)
          × (answered.error ≡ call.error)
    unfolding answer
    exchange-reply {codec} {reply} f p z k d = (
      (answer_call env (received r (answer (handled s m req))) call).0,
      exchange-answer_call,
      result.0,
      result.1,
    )
      where
        result :
            ((answer_call env (received r (answer (handled s m req))) call).0.reply ≡ reply)
            × ((answer_call env (received r (answer (handled s m req))) call).0.error ≡ call.error)
        result =
            answer_call-reply env (received r (answer (handled s m req))) call codec reply
              (marks.status ∙ ap status_of f) (marks.beats ∙ is_request.beats) p
              (ap (λ k. k == gzip) marks.compress ∙ z) (ap env.codecs marks.serialize ∙ k) d

    -- A call of a request that is marked as Gzip fails from end to end although handleRequest
    -- succeeds, and the call has an error. Conditions: those of a reply, but with the mark, no
    -- codec of the server writes bytes that start as a gzip stream does, and gzip of the client
    -- refuses bytes that do not.
    pub exchange-zipped_request :
        {codec : Codec V}
        → (handled s m req).failure ≡ none
        → (length (handled s m req).res.payload == 0) ≡ false
        → (compress_type req.header == gzip) ≡ true
        → env.codecs (serialize_type req.header) ≡ some codec
        → WritesNoGzip s
        → UnzipsGzip env
        → (answered : Call V) × (get_elem? (exchange s m env r c (encode req)).calls i
            ≡ some answered)
          × (answered.error ≢ none)
    unfolding answer
    exchange-zipped_request {codec} f p z k no_gzip unzips =
        let (own, found, (value, wrote)) =
          handle_request-IsEncoded s m (received new_message req) f in
        let (x, u) = unzips (handled s m req).res.payload (no_gzip _ own value _ found wrote) in
        (
          (answer_call env (received r (answer (handled s m req))) call).0,
          exchange-answer_call,
          answer_call-unzip_failure env (received r (answer (handled s m req))) call codec x
              (marks.status ∙ ap status_of f) (marks.beats ∙ is_request.beats) p
              (ap (λ k. k == gzip) marks.compress ∙ z) (ap env.codecs marks.serialize ∙ k) u,
        )
