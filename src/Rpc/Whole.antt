-- ===== src/Rpc/Whole.antt =====
-- A whole call: Go of client/client.go, the server, and the value in the channel Done.
use frpc.Base.{
  ◌+◌, ◌%◌, ◌^◌, ◌<◌, ◌≡◌, refl, sym, subst, ◌∙◌, ◌||◌, false, [], ◌∷◌, ◌++◌, none, some, arith,
  ◌==◌, length, get_elem?,
}
use frpc.Base.Bytes.{Bytes, copy_at}
use frpc.Base.Dict.{Missing}
use frpc.Base.Members.{get_elem?-new}
use frpc.Base.Table.{lookup, insert, lookup-insert}
use frpc.Protocol.Header.{gzip, compress_type, serialize_type, is_oneway}
use frpc.Protocol.Message.{Message, new_message, encode, reset, reset_header}
use frpc.Protocol.Message.RoundTrip.{received}
use frpc.Client.Call.{ok, Codec, Env, Call, Client, service_error}
use frpc.Client.Call.Request.{IsRequest, build_request-IsRequest}
use frpc.Client.Call.Response.{service_error_key, answer_call}
use frpc.Client.Call.Send.{is_heartbeat_call, build_request, write_request, transmit, send, go_call}
use frpc.Client.Call.Trace.Heap.{some_eq, IsSignalled, answer_call-Wakes}
use frpc.Server.Handle.{Server}
use frpc.Rpc.{answer, exchange}
use frpc.Rpc.Exchange.{Fits, handled, exchange-answer_call, exchange-service_error, exchange-reply}

reset_two_way : (req : Message) → is_oneway (reset req).header ≡ false
unfolding reset reset_header is_oneway copy_at
reset_two_way req = refl

module _ {V : Type 0} where
  -- The client after Go has written the request.
  abbrev pub sent_call : Client V → Call V → Message → Client V
  sent_call c call req = record c {
    seq = (c.seq + 1) % 2 ^ 64;
    pending = insert c.seq (length c.calls) c.pending;
    calls = c.calls ++ (call ∷ []);
    sent = c.sent ++ (encode req ∷ []);
  }

  pub go_call-sent_call :
      (env : Env V) (codec : Codec V) (call : Call V) (c : Client V) (req : Message)
      → (c.shutdown || c.closing) ≡ false
      → env.codecs c.serialize_type ≡ some codec
      → build_request env codec c c.seq call new_message ≡ ok req
      → go_call env new_message none call c ≡ sent_call c call req
  unfolding go_call
  go_call-sent_call env codec call c req up has built = rw (up, has, same_request, send) written
    where
      same_request :
          build_request env codec
            (record c { calls = c.calls ++ (call ∷ []) })
            c.seq
            call
            new_message
          ≡ ok req
      same_request = unfold build_request in built

      written :
          transmit
            (record c {
              seq = (c.seq + 1) % 2 ^ 64;
              pending = insert c.seq (length c.calls) c.pending;
              calls = c.calls ++ (call ∷ []);
            })
            c.seq
            req
            none
          ≡ sent_call c call req
      written = unfold transmit write_request in rw (reset_two_way req) refl

-- The connection is open and has a codec, and the call is a call of a method, on a channel with room,
-- whose request can be made and fits the format, as does the answer.
pub record Calls {V W : Type 0} (s : Server W) (m : Message) (env : Env V) (c : Client V)
    (call : Call V) (req : Message) : Type 0 where
  pub codec : Codec V
  pub up : (c.shutdown || c.closing) ≡ false
  pub has : env.codecs c.serialize_type ≡ some codec
  pub built : build_request env codec c c.seq call new_message ≡ ok req
  pub small : c.seq < 2 ^ 64
  pub of_method : is_heartbeat_call call ≡ false
  pub room : 0 < call.capacity
  pub fits : Fits req
  pub fits_back : Fits (answer (handled s m req))

module _ {V W : Type 0} (s : Server W) (m : Message) (env : Env V) (r : Message) (c : Client V)
    (call : Call V) (req : Message) (k : Calls s m env c call req) where
  went : go_call env new_message none call c ≡ sent_call c call req
  went = go_call-sent_call env k.codec call c req k.up k.has k.built

  marks : IsRequest req.header c.seq false
  marks =
      subst (IsRequest req.header c.seq) k.of_method
        (build_request-IsRequest env k.codec c c.seq call req k.small k.built)

  waits : lookup c.seq (sent_call c call req).pending ≡ some (length c.calls)
  waits = rw (lookup-insert c.seq c.seq (length c.calls) c.pending) (ground arith)

  at : get_elem? (sent_call c call req).calls (length c.calls) ≡ some call
  at = get_elem?-new c.calls call

  -- The call that was answered has been woken.
  woken :
      (answered : Call V)
      → get_elem? (exchange s m env r (sent_call c call req) (encode req)).calls (length c.calls)
        ≡ some answered
      → IsSignalled answered
  woken answered e =
      subst IsSignalled
        (some_eq (
          sym (
            exchange-answer_call s m env r (sent_call c call req) req c.seq (length c.calls) call
              marks k.fits k.fits_back waits at)
          ∙ e))
        ((answer_call-Wakes env _).wakes call k.room)

  pub go_call-answer_call :
      get_elem?
        (exchange s m env r (go_call env new_message none call c) (encode req)).calls
        (length c.calls)
      ≡ some (answer_call env (received r (answer (handled s m req))) call).0
  go_call-answer_call = rw went (
      exchange-answer_call s m env r (sent_call c call req) req c.seq (length c.calls) call marks
        k.fits k.fits_back waits at)

  -- A whole call: a reply reaches the caller. Go writes the encoded request; the server decodes
  -- it, calls the method and encodes its answer; the client decodes that. Then the call that Go
  -- made has the value that the client's codec reads from the payload of the answer, its error is
  -- as before, and its caller has been woken. Conditions: the connection is open and has a codec;
  -- the call names a method, its channel has room, its request can be made and the sequence number
  -- is below 2^64; request and answer have bodies below 2^32 bytes and no key twice; the request
  -- is not marked as Gzip; handleRequest succeeds with a payload that is not empty, and the client
  -- has the codec, which reads it.
  pub go_call-reply :
      {codec : Codec V} {reply : V}
      → (handled s m req).failure ≡ none
      → (length (handled s m req).res.payload == 0) ≡ false
      → (compress_type req.header == gzip) ≡ false
      → env.codecs (serialize_type req.header) ≡ some codec
      → codec.decode (handled s m req).res.payload call.reply ≡ (reply, none)
      → let c' = exchange s m env r (go_call env new_message none call c) (encode req) in
        (answered : Call V) × (get_elem? c'.calls (length c.calls) ≡ some answered)
        × (answered.reply ≡ reply)
        × (answered.error ≡ call.error)
        × IsSignalled answered
  go_call-reply f p z n d = rw went (
      let (answered, e, x, y) =
        exchange-reply s m env r (sent_call c call req) req c.seq (length c.calls) call marks k.fits
          k.fits_back waits at f p z n d in
      (answered, e, x, y, woken answered e))

  -- A whole call: an error of handleRequest reaches the caller through both encodings. After Go,
  -- the exchange of the encoded request and the encoded answer, the call that Go made has that
  -- error as its ServiceError, with the text unchanged, and its caller has been woken. Conditions:
  -- the connection is open and has a codec; the call names a method, its channel has room, its
  -- request can be made and the sequence number is below 2^64; request and answer have bodies
  -- below 2^32 bytes and no key twice; handleRequest fails, and no method put the error's own key
  -- into the metadata.
  pub go_call-service_error :
      (e : Bytes)
      → (handled s m req).failure ≡ some e
      → Missing service_error_key (handled s m req).extra
      → let c' = exchange s m env r (go_call env new_message none call c) (encode req) in
        (answered : Call V) × (get_elem? c'.calls (length c.calls) ≡ some answered)
        × (answered.error ≡ some (service_error e))
        × IsSignalled answered
  go_call-service_error e f n = rw went (
      let (answered, q, x) =
        exchange-service_error s m env r (sent_call c call req) req c.seq (length c.calls) call
          marks k.fits k.fits_back waits at e f n in
      (answered, q, x, woken answered q))
