-- ===== src/Rpc/Heartbeat.antt =====
-- A heartbeat from end to end: `heartbeat` of client/client.go, a call without path and method, and
-- the first branch of the goroutine of serveConn in server/server.go.
use frpc.Base.{
  ℕ, ◌^◌, ◌<◌, ◌≡◌, refl, ap, subst, ◌∙◌, ◌||◌, true, false, Option, none, some, arith, length,
  get_elem?,
}
use frpc.Base.Bytes.{eq}
use frpc.Base.Members.{get_elem?-new}
use frpc.Base.Table.{lookup, lookup-insert}
use frpc.Protocol.Header.{
  set_message_type, response, is_heartbeat, normal_status, message_status_type,
}
use frpc.Protocol.Message.{Message, new_message, encode}
use frpc.Protocol.Message.RoundTrip.{received}
use frpc.Circuit.{Breaker}
use frpc.Client.Call.{Codec, Env, Call, Client, ok, call_done}
use frpc.Client.Call.Request.{IsRequest, build_request-IsRequest}
use frpc.Client.Call.Response.{handle_message, answer_call}
use frpc.Client.Call.Send.{
  is_heartbeat_call, build_request, beat_call, lets_through, heartbeat_tick,
}
use frpc.Client.Call.Trace.Heap.{IsSignalled, answer_call-Wakes}
use frpc.Client.Call.Trace.Answer.{handle_message_answers}
use frpc.Server.Handle.{Server, serve}
use frpc.Server.Handle.Answers.{Reads, reply-Reads, response-is_server_message}
use frpc.Rpc.{deliver, exchange}
use frpc.Rpc.Exchange.{Fits, reads}
use frpc.Rpc.Whole.{sent_call, go_call-sent_call}

-- What the server sends back: the request with the type of a response.
abbrev pub beat_back : Message → Message
beat_back req = record (received new_message req) { header = set_message_type response req.header }

call_done_error : {V : Type 0} (c : Call V) → (call_done c).error ≡ c.error
unfolding call_done
call_done_error c = ground arith

answer_call_beat :
    {V : Type 0} (env : Env V) (res : Message) (call : Call V)
    → message_status_type res.header ≡ normal_status
    → is_heartbeat res.header ≡ true
    → (answer_call env res call).0.error ≡ call.error
unfolding answer_call
answer_call_beat env res call n b = rw (n, b, answer_call) (call_done_error _)

module _ {V W : Type 0} (s : Server W) (m : Message) (env : Env V) (r : Message) where
  beat_delivers :
      (c : Client V) (req : Message)
      → Fits req
      → Fits (beat_back req)
      → is_heartbeat req.header ≡ true
      → exchange s m env r c (encode req) ≡ (handle_message env (received r (beat_back req)) c).0
  unfolding exchange deliver serve
  beat_delivers c req f g b =
      rw (reads new_message req f, exchange)
        (rw (b, serve) (rw (reads r (beat_back req) g, deliver) refl))

  beat_answers :
      (c : Client V) (req : Message) (number i : ℕ) (call : Call V)
      → IsRequest req.header number true
      → Fits req
      → Fits (beat_back req)
      → lookup number c.pending ≡ some i
      → get_elem? c.calls i ≡ some call
      → 0 < call.capacity
      → (answered : Call V) × (get_elem? (exchange s m env r c (encode req)).calls i
          ≡ some answered)
        × (answered.error ≡ call.error)
        × IsSignalled answered
  beat_answers c req number i call h f g waits at room = (
    (answer_call env (received r (beat_back req)) call).0,
    ap (λ x. get_elem? x.calls i) (beat_delivers c req f g h.beats)
        ∙ (handle_message_answers env (received r (beat_back req)) c i call
            (response-is_server_message (received r (beat_back req)) marks.kind)
            (ap (λ k. lookup k c.pending) (marks.number ∙ h.number_kept) ∙ waits) at).0,
    answer_call_beat env (received r (beat_back req)) call marks.status (marks.beats ∙ h.beats),
    (answer_call-Wakes env _).wakes call room,
  )
    where
      marks : Reads (set_message_type response req.header) req.header normal_status
      marks = reply-Reads req.header h.byte h.status

  -- A heartbeat is answered from end to end: a tick of heartbeat on an open connection goes on,
  -- and after the exchange of its request and the server's answer the call that it made has no
  -- error and its caller has been woken. Conditions: there is no breaker or its
  -- SimpleCircuitBreaker is ready; the connection is neither shut down nor closing and has a
  -- codec, the request can be made and is written, its sequence number is below 2^64, and the
  -- request and what comes back fit the format.
  pub heartbeat_tick-answered :
      (guard : Option (ℕ × Breaker)) (c : Client V) (codec : Codec V) (nil : V) (req : Message)
      → lets_through guard ≡ true
      → (c.shutdown || c.closing) ≡ false
      → env.codecs c.serialize_type ≡ some codec
      → build_request env codec c c.seq (beat_call nil) new_message ≡ ok req
      → c.seq < 2 ^ 64
      → Fits req
      → Fits (beat_back req)
      → let (sent, goes_on) = heartbeat_tick guard env new_message none nil c in
        (goes_on ≡ true)
        × ((answered : Call V) × (get_elem?
                (exchange s m env r sent (encode req)).calls
                (length c.calls)
              ≡ some answered)
            × (answered.error ≡ none)
            × IsSignalled answered)
  heartbeat_tick-answered guard c codec nil req through up has built small f g = rw ticked (
    refl,
    beat_answers (sent_call c (beat_call nil) req) req c.seq (length c.calls) (beat_call nil) marks
        f g waits (get_elem?-new c.calls (beat_call nil)) (omega arith),
  )
    where
      marks : IsRequest req.header c.seq true
      marks =
          subst (IsRequest req.header c.seq) beat
            (build_request-IsRequest env codec c c.seq (beat_call nil) req small built)
        where
          beat : is_heartbeat_call (beat_call nil) ≡ true
          beat = unfold is_heartbeat_call eq in refl

      waits : lookup c.seq (sent_call c (beat_call nil) req).pending ≡ some (length c.calls)
      waits = rw (lookup-insert c.seq c.seq (length c.calls) c.pending) (ground arith)

      ticked :
          heartbeat_tick guard env new_message none nil c ≡ (sent_call c (beat_call nil) req, true)
      ticked =
          unfold heartbeat_tick in
          rw (up, through, heartbeat_tick)
            (ap (λ x. (x, true)) (go_call-sent_call env codec (beat_call nil) c req up has built))
