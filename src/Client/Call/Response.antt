-- ===== src/Client/Call/Response.antt =====
-- handleResponse, the cancelled branch of call, and close of client/client.go.
use frpc.Base.{
  ℕ, zero, suc, Bool, true, not, ◌&&◌, ◌||◌, List, [], ◌∷◌, ◌++◌, Option, none, some, ◌==◌,
  if◌then◌else◌, length,
}
use frpc.Base.Bytes.{Bytes, text}
use frpc.Base.Dict.{Dict}
use frpc.Base.Dict as Dictionary
use frpc.Base.Table.{Table, lookup, erase}
use frpc.Protocol.Header.{
  seq, message_type, is_heartbeat, is_oneway, message_status_type, compress_type, serialize_type,
  request, gzip, error_status,
}
use frpc.Protocol.Message.{
  Message, reset, decode, Decoded, done, failed, panicked, out_of_fuel, eof, unexpected_eof,
}
use frpc.Client.Call.Send.{take_pending}
use frpc.Protocol.Message as Wire
use frpc.Client.Call.{
  ok, err, Codec, Env, Error, shut_down, service_error, wire, Call, Client, call_done, fail_call,
  modify,
}

-- The constant ServiceError.
abbrev pub service_error_key : Bytes
service_error_key = text "__frpc_error__"

-- res.Metadata[key], with "" for a missing key.
unfoldable pub meta_value : Bytes → Option (Dict Bytes) → Bytes
meta_value k none = []
meta_value k (some m) = elim (Dictionary.lookup k m) [ none ↦ [] | some v ↦ v ]

-- ErrUnsupportedCodec.Error()
abbrev pub unsupported_codec_text : Bytes
unsupported_codec_text = text "unsupported codec"

unfoldable pub is_server_message : Message → Bool
is_server_message m =
    message_type m.header == request && (not (is_heartbeat m.header) && is_oneway m.header)

-- The error with which the loop ends, as the calls see it.
unfoldable pub final_error : Bool → Error → Error
final_error closing (wire Wire.eof) = if closing then shut_down else wire unexpected_eof
final_error closing e = e

-- What a context of Go holds under seqKey: the address of a uint64, where it holds one.
pub record Context : Type 0 where
  pub seq_cell : Option ℕ

-- context.WithValue(ctx, seqKey{}, seq), a new context.
unfoldable pub with_seq : ℕ → Context → Context
with_seq p ctx = record ctx { seq_cell = some p }

-- What send writes where its context holds a pointer: the number, where it came to one.
unfoldable pub note_seq : Context → Option ℕ → (ℕ → ℕ) → ℕ → ℕ
note_seq ctx none cells q = cells q
note_seq ctx (some s) cells q = elim ctx.seq_cell [
  | none ↦ cells q
  | some p ↦ if p == q then s else cells q
]

-- `*seq` of call behind Go, for the new cell `p`, which is 0 at first: call throws the context of
-- WithValue away and hands its own to Go.
unfoldable pub seq_of_call : Context → ℕ → Option ℕ → ℕ
unfolding with_seq note_seq
seq_of_call ctx p sent = let discarded = with_seq p ctx in note_seq ctx sent (λ q. 0) p

module _ {V : Type 0} where
  -- call.Error = ServiceError(e)
  unfoldable pub set_service_error : Bytes → Call V → Call V
  set_service_error e c = record c { error = some (service_error e) }

  -- The last use of `err`: codec.Decode's result replaces that of util.Unzip.
  unfoldable pub decode_reply :
      Option (Codec V) → Option Bytes → Bytes → Call V → Call V × Option Bytes
  unfolding set_service_error
  decode_reply none e b c = (set_service_error unsupported_codec_text c, e)
  decode_reply (some codec) e b c =
      let (reply, failure) = codec.decode b c.reply in
      let c' = record c { reply = reply } in
      elim failure [ none ↦ (c', none) | some x ↦ (set_service_error x c', some x) ]

  -- The branch `default`: a normal answer. The second part is `err`, at which the loop stops.
  unfoldable pub receive_reply : Env V → Message → Call V → Call V × Option Bytes
  unfolding decode_reply
  receive_reply env res c =
      if length res.payload == 0
      then (c, none)
      else let codec = env.codecs (serialize_type res.header) in
        if compress_type res.header == gzip
        then elim (env.unzip res.payload) [
          | ok b ↦ decode_reply codec none b c
          | err e ↦
              decode_reply codec (some e) []
                (record c { error = some (service_error (text "unzip payload: " ++ e)) })
        ]
        else decode_reply codec none res.payload c

  -- The three branches of the switch for a call that waits.
  unfoldable pub answer_call : Env V → Message → Call V → Call V × Option Bytes
  unfolding receive_reply call_done
  answer_call env res c =
      if message_status_type res.header == error_status
      then (
        call_done (record c {
          error = some (service_error (meta_value service_error_key res.metadata));
          res_metadata = res.metadata;
        }),
        none,
      )
      else if is_heartbeat res.header
      then (call_done (record c { res_metadata = res.metadata }), none)
      else let (c', e) = receive_reply env res c in
        (call_done (record c' { res_metadata = res.metadata }), e)

  -- The heap with the call `i` answered, and `err`.
  unfoldable pub answer_at : Env V → Message → ℕ → List (Call V) → List (Call V) × Option Bytes
  unfolding answer_call
  answer_at env res i [] = ([], none)
  answer_at env res zero (c ∷ cs) = let (c', e) = answer_call env res c in (c' ∷ cs, e)
  answer_at env res (suc i) (c ∷ cs) = let (cs', e) = answer_at env res i cs in (c ∷ cs', e)

  -- One round of the loop: the client, the Message for the next round, and `err`. A message of the
  -- server goes round by `continue`, past Reset.
  unfoldable pub handle_message : Env V → Message → Client V → Client V × Message × Option Bytes
  unfolding answer_at
  handle_message env res c =
      if is_server_message res
      then (c, res, none)
      else let c' = record c { pending = erase (seq res.header) c.pending } in
        elim (lookup (seq res.header) c.pending) [
          | none ↦ (c', reset res, none)
          | some i ↦
              let (calls', e) = answer_at env res i c.calls in
              (record c' { calls = calls' }, reset res, e)
        ]

  unfoldable pub fail_all : Error → Table ℕ → List (Call V) → List (Call V)
  fail_all e [] calls = calls
  fail_all e ((s, i) ∷ p) calls = fail_all e p (modify i (fail_call e) calls)

  -- Behind the loop: the calls that wait fail; `pending` is left as it is.
  unfoldable pub terminate : Error → Client V → Client V
  unfolding fail_all final_error
  terminate e c = record c {
    shutdown = true;
    calls = fail_all (final_error c.closing e) c.pending c.calls;
  }

  -- close: its error is ErrShutdown or what conn.Close gives, here `none` for the latter.
  unfoldable pub close : Client V → Client V × Option Error
  unfolding fail_all
  close c =
      let c' = record c { calls = fail_all shut_down c.pending c.calls; pending = [] } in
      if c.closing || c.shutdown then (c', some shut_down) else (record c' { closing = true }, none)

  -- The branch `<-ctx.Done()` of call, for the number in its cell.
  unfoldable pub cancel : Context → ℕ → Option ℕ → Error → Client V → Client V
  unfolding take_pending fail_call seq_of_call
  cancel ctx p sent e c = take_pending (seq_of_call ctx p sent) (fail_call e) c
