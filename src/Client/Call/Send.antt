-- ===== src/Client/Call/Send.antt =====
-- The methods Go and send of client/client.go.
use frpc.Base.{
  ℕ, ◌+◌, ◌%◌, ◌^◌, Bool, true, false, ◌&&◌, ◌||◌, [], ◌∷◌, ◌++◌, Option, none, some, ltb, ◌==◌,
  if◌then◌else◌, length,
}
use frpc.Base.Bytes.{Bytes, eq}
use frpc.Base.Table.{lookup, insert, erase}
use frpc.Protocol.Header.{
  set_message_type, set_seq, set_heartbeat, set_serialize_type, set_compress_type, is_oneway,
  request, gzip,
}
use frpc.Protocol.Message.{Message, encode, reset}
use frpc.Circuit.{Breaker, ready}
use frpc.Client.Call.{
  Result, ok, err, Codec, Env, Error, shut_down, unsupported_codec, foreign, Call, Client,
  call_done, fail_call, on_call,
}

-- Go: a nil `done` becomes a channel of ten; an unbuffered one panics, which is `none`.
unfoldable pub done_capacity : Option ℕ → Option ℕ
done_capacity none = some 10
done_capacity (some n) = if n == 0 then none else some n

-- Whether CallDirect comes to its call at the time `now`: without a breaker, or when it is ready.
unfoldable pub lets_through : Option (ℕ × Breaker) → Bool
unfolding ready
lets_through none = true
lets_through (some (now, b)) = (ready now b).0

module _ {V : Type 0} where
  unfoldable pub is_heartbeat_call : Call V → Bool
  is_heartbeat_call c = eq c.service_path [] && eq c.service_method []

  -- `codec.Encode` and, for more than 1024 bytes under Gzip, `util.Zip`: the payload, and whether it
  -- is compressed.
  unfoldable pub pack : Env V → Codec V → ℕ → V → Result (Bytes × Bool)
  pack env codec compress_type args = elim (codec.encode args) [
    | err e ↦ err e
    | ok b ↦
        if ltb 1024 (length b) && compress_type == gzip
        then elim (env.zip b) [ ok z ↦ ok (z, true) | err e ↦ err e ]
        else ok (b, false)
  ]

  -- The request for `call` over the message `m` that GetMsgs gave; an error where it cannot be made.
  unfoldable pub build_request : Env V → Codec V → Client V → ℕ → Call V → Message → Result Message
  build_request env codec c seq call m =
      let base = record m { header = set_seq seq (set_message_type request m.header) } in
      if is_heartbeat_call call
      then ok (record base { header = set_heartbeat true base.header })
      else elim (pack env codec c.compress_type call.args) [
        | err e ↦ err e
        | ok (b, zipped) ↦
            let h = set_serialize_type c.serialize_type base.header in
            ok (record base {
              header = if zipped then set_compress_type c.compress_type h else h;
              metadata = elim call.metadata [ none ↦ base.metadata | some d ↦ some d ];
              service_path = call.service_path;
              service_method = call.service_method;
              payload = b;
            })
      ]

  -- call = client.pending[seq]; delete(client.pending, seq); and, if there was one, `f` on it.
  unfoldable pub take_pending : ℕ → (Call V → Call V) → Client V → Client V
  unfolding on_call
  take_pending seq f c = elim (lookup seq c.pending) [
    | none ↦ record c { pending = erase seq c.pending }
    | some i ↦ on_call i f (record c { pending = erase seq c.pending })
  ]

  -- conn.Write with its error.
  unfoldable pub write_request : Client V → ℕ → Message → Option Error → Client V
  unfolding take_pending fail_call call_done
  write_request c seq req none = record c { sent = c.sent ++ (encode req ∷ []) }
  write_request c seq req (some e) = take_pending seq (fail_call e) c

  -- The write, FreeMsg, and the test of the freed request for IsOneway.
  unfoldable pub transmit : Client V → ℕ → Message → Option Error → Client V
  unfolding write_request take_pending call_done
  transmit c seq req failure =
      let written = write_request c seq req failure in
      if is_oneway (reset req).header then take_pending seq call_done written else written

  -- send, for the call `i` of the heap. `m` is what GetMsgs gives, `failure` the error of conn.Write.
  unfoldable pub send : Env V → Message → Option Error → ℕ → Call V → Client V → Client V
  unfolding on_call fail_call call_done
  send env m failure i call c =
      if c.shutdown || c.closing
      then on_call i (fail_call shut_down) c
      else elim (env.codecs c.serialize_type) [
        | none ↦ on_call i (fail_call unsupported_codec) c
        | some codec ↦
            let registered = record c {
              seq = (c.seq + 1) % 2 ^ 64;
              pending = insert c.seq i c.pending;
            } in
            elim (build_request env codec c c.seq call m) [
              | err e ↦ on_call i (fail_call (foreign e)) registered
              | ok req ↦ transmit registered c.seq req failure
            ]
      ]

  -- Go: a new Call on the heap, and send.
  unfoldable pub go_call : Env V → Message → Option Error → Call V → Client V → Client V
  unfolding send
  go_call env m failure call c =
      send env m failure (length c.calls) call (record c { calls = c.calls ++ (call ∷ []) })

  -- The call that `heartbeat` makes, with the arguments nil.
  abbrev pub beat_call : V → Call V
  beat_call nil = record {
    service_path = [];
    service_method = [];
    metadata = none;
    res_metadata = none;
    args = nil;
    reply = nil;
    error = none;
    capacity = 1;
    buffered = 0;
    received = 0;
  }

  -- One tick of `heartbeat`, up to where CallDirect waits, and whether its loop goes on.
  unfoldable pub heartbeat_tick :
      Option (ℕ × Breaker) → Env V → Message → Option Error → V → Client V → Client V × Bool
  unfolding lets_through
  heartbeat_tick guard env m failure nil c =
      if c.shutdown || c.closing
      then (c, false)
      else if lets_through guard
      then (go_call env m failure (beat_call nil) c, true)
      else (c, true)
