-- ===== src/Server/Handle/Answers.antt =====
-- The answers of handleRequest in server/server.go, as the client reads them.
use frpc.Base.{
  ℕ, ◌≡◌, refl, sym, ap, ◌∙◌, Bool, true, false, [], Option, none, some, arith, inl, inr,
  Option-cases, get_elem?,
}
use frpc.Base.Bytes.{Bytes, IsByte, eq_refl}
use frpc.Base.Dict.{Dict, lookup, insert, lookup-insert}
use frpc.Protocol.Header.{
  Header, response, set_message_type, set_message_status_type, serialize_type, compress_type,
  is_heartbeat, is_oneway, error_status, normal_status, seq, message_type, message_status_type,
}
use frpc.Protocol.Header.Masks.{raise_80}
use frpc.Protocol.Header.Flags.{Flags, flags, flags-set_message_type, flags-set_message_status_type}
use frpc.Protocol.Message.{Message, copy}
use frpc.Client.Call.{Codec, Result-cases, Call, Client, Env, service_error, call_done}
use frpc.Client.Call.Response.{
  service_error_key, meta_value, answer_call, handle_message, is_server_message,
}
use frpc.Client.Call.Trace.Answer.{handle_message_answers}
use frpc.Client.Call.Trace.Heap.{some_eq}
use frpc.Base.Table.{lookup as lookup_call}
use frpc.Server.Service.{MethodType, call}
use frpc.Server.Handle.{
  Server, Handled, put_metadata, handle_error, give_up, encode_reply, invoke, handle_request,
}

-- An answer under the header `h`: a reply of the method, or an error with its text.
pub data Answered (h : Header) (path method : Bytes) : Handled → Type 0 where
  replied :
      (a : Handled)
      → a.res.header ≡ h
      → a.res.service_path ≡ path
      → a.res.service_method ≡ method
      → a.failure ≡ none
      → a.called ≡ true
      → Answered h path method a
  refused :
      (a : Handled) (e : Bytes) (d : Dict Bytes)
      → a.res.header ≡ set_message_status_type error_status h
      → a.res.service_path ≡ path
      → a.res.service_method ≡ method
      → a.failure ≡ some e
      → a.res.metadata ≡ some d
      → lookup service_error_key d ≡ some e
      → Answered h path method a

found : (k v : Bytes) (m : Dict Bytes) → lookup k (insert k v m) ≡ some v
found k v m = lookup-insert k k v m ∙ rw (eq_refl k) refl

meta_value_found : (k v : Bytes) (m : Dict Bytes) → lookup k m ≡ some v → meta_value k (some m) ≡ v
unfolding meta_value
meta_value_found k v m e = rw (e, meta_value) refl

stored :
    (k v : Bytes) (o : Option (Dict Bytes))
    → (d : Dict Bytes) × (put_metadata k v o ≡ some d) × (lookup k d ≡ some v)
unfolding put_metadata
stored k v none = (insert k v [], refl, found k v [])
stored k v (some m) = (insert k v m, refl, found k v m)

give_up-Answered :
    (res : Message) (e : Bytes) (extra : Dict Bytes) (called : Bool)
    → Answered res.header res.service_path res.service_method (give_up res e extra called)
unfolding give_up handle_error
give_up-Answered res e extra called =
    let (d, p, q) = stored service_error_key e res.metadata in refused _ e d refl refl refl refl p q

module _ {V : Type 0} where
  encode_reply-Answered :
      (codec : Codec V) (res : Message) (r : V × Option Bytes) (extra : Dict Bytes)
      → Answered res.header res.service_path res.service_method (encode_reply codec res r extra)
  unfolding encode_reply
  encode_reply-Answered codec res (reply, some e) extra = give_up-Answered res e extra true
  encode_reply-Answered codec res (reply, none) extra = elim (Result-cases (codec.encode reply)) [
    | inl (b, e) ↦ rw (e, encode_reply) (replied _ refl refl refl refl refl)
    | inr (x, e) ↦ rw (e, encode_reply) (give_up-Answered res x extra true)
  ]

  invoke-Answered :
      (codec : Codec V) (m : MethodType V) (req res : Message)
      → Answered res.header res.service_path res.service_method (invoke codec m req res)
  unfolding invoke
  invoke-Answered codec m req res =
      elim (Option-cases (codec.decode req.payload m.method.new_arg).1) [
        | inl e ↦ rw (e, invoke) (encode_reply-Answered codec res _ _)
        | inr (x, e) ↦ rw (e, invoke) (give_up-Answered res x [] false)
      ]

  -- handleRequest either replies after the method was called, under the header of the request with
  -- the type response, or reports an error, with the error status and its text in the metadata; in
  -- both cases path and method are those of the request.
  pub handle_request-Answered :
      (s : Server V) (c req : Message)
      → Answered
          (set_message_type response req.header)
          req.service_path
          req.service_method
          (handle_request s c req)
  unfolding handle_request copy
  handle_request-Answered s c req = elim (Option-cases (lookup req.service_path s.services)) [
    | inl e ↦ rw (e, handle_request) (give_up-Answered _ _ [] false)
    | inr (service, e) ↦ elim (Option-cases (lookup req.service_method service.method)) [
      | inl f ↦ rw (e, f, handle_request) (give_up-Answered _ _ [] false)
      | inr (m, f) ↦ elim (Option-cases (s.codecs (serialize_type req.header))) [
        | inl g ↦ rw (e, f, g, handle_request) (give_up-Answered _ _ [] false)
        | inr (codec, g) ↦ rw (e, f, g, handle_request) (invoke-Answered codec m req _)
      ]
    ]
  ]

abbrev pub status_of : Option Bytes → ℕ
status_of none = normal_status
status_of (some e) = error_status

seq_kept :
    (mt st : ℕ) (h : Header) → seq (set_message_status_type st (set_message_type mt h)) ≡ seq h
unfolding seq set_message_status_type set_message_type
seq_kept mt st h = refl

serialize_kept :
    (mt st : ℕ) (h : Header)
    → serialize_type (set_message_status_type st (set_message_type mt h)) ≡ serialize_type h
unfolding serialize_type set_message_status_type set_message_type
serialize_kept mt st h = refl

serialize_response :
    (mt : ℕ) (h : Header) → serialize_type (set_message_type mt h) ≡ serialize_type h
unfolding serialize_type set_message_type
serialize_response mt h = refl

seq_response : (mt : ℕ) (h : Header) → seq (set_message_type mt h) ≡ seq h
unfolding seq set_message_type
seq_response mt h = refl

response-IsByte : (h : Header) → IsByte h.h2 → IsByte (set_message_type response h).h2
unfolding set_message_type
response-IsByte h b = omega (arith, raise_80 h.h2 b)

flags-response :
    (h : Header)
    → IsByte h.h2
    → flags (set_message_type response h) ≡ record (flags h) { kind = response }
flags-response h b = flags-set_message_type h response b

flags-error :
    (h : Header)
    → IsByte h.h2
    → (flags h).status ≡ normal_status
    → flags (set_message_status_type error_status (set_message_type response h))
      ≡ record (flags h) { kind = response; status = error_status }
flags-error h b n =
    flags-set_message_status_type (set_message_type response h) error_status (response-IsByte h b)
      (omega arith)
    ∙ rw (flags-response h b, n) refl

-- What the client reads from a header: the number and the marks of the request, and the status `st`.
pub record Reads (h req : Header) (st : ℕ) : Type 0 where
  pub number : seq h ≡ seq req
  pub kind : message_type h ≡ response
  pub beats : is_heartbeat h ≡ is_heartbeat req
  pub one_way : is_oneway h ≡ is_oneway req
  pub status : message_status_type h ≡ st
  pub compress : compress_type h ≡ compress_type req
  pub serialize : serialize_type h ≡ serialize_type req

pub reply-Reads :
    (h : Header)
    → IsByte h.h2
    → message_status_type h ≡ normal_status
    → Reads (set_message_type response h) h normal_status
unfolding flags
reply-Reads h b n = record {
  number = seq_response response h;
  kind = ap Flags.kind (flags-response h b);
  beats = ap Flags.heartbeat (flags-response h b);
  one_way = ap Flags.oneway (flags-response h b);
  status = ap Flags.status (flags-response h b) ∙ n;
  compress = ap Flags.compress (flags-response h b);
  serialize = serialize_response response h;
}

error-Reads :
    (h : Header)
    → IsByte h.h2
    → message_status_type h ≡ normal_status
    → Reads (set_message_status_type error_status (set_message_type response h)) h error_status
unfolding flags
error-Reads h b n = record {
  number = seq_kept response error_status h;
  kind = ap Flags.kind (flags-error h b n);
  beats = ap Flags.heartbeat (flags-error h b n);
  one_way = ap Flags.oneway (flags-error h b n);
  status = ap Flags.status (flags-error h b n);
  compress = ap Flags.compress (flags-error h b n);
  serialize = serialize_kept response error_status h;
}

Answered-Reads :
    {path method : Bytes} (h : Header) (a : Handled)
    → IsByte h.h2
    → message_status_type h ≡ normal_status
    → Answered (set_message_type response h) path method a
    → Reads a.res.header h (status_of a.failure)
Answered-Reads h _ b n (replied a e _ _ f _) = rw (e, f) (reply-Reads h b n)
Answered-Reads h _ b n (refused a x d e _ _ f _ _) = rw (e, f) (error-Reads h b n)

-- Every answer of handleRequest carries the number, the heartbeat mark and the oneway mark of its
-- request, the type response, and the status error exactly where handleRequest fails. Conditions:
-- the third header byte is a byte, and the request has the status normal.
pub handle_request-Reads :
    {V : Type 0} (s : Server V) (c req : Message)
    → IsByte req.header.h2
    → message_status_type req.header ≡ normal_status
    → Reads
        (handle_request s c req).res.header
        req.header
        (status_of (handle_request s c req).failure)
handle_request-Reads s c req b n = Answered-Reads req.header _ b n (handle_request-Answered s c req)

-- No answer is taken for a message of the server.
pub response-is_server_message :
    (m : Message) → message_type m.header ≡ response → is_server_message m ≡ false
unfolding is_server_message
response-is_server_message m e = rw e refl

call_done-error : {V : Type 0} (c : Call V) → (call_done c).error ≡ c.error
unfolding call_done
call_done-error c = ground arith

pub answer_call-error :
    {V : Type 0} (env : Env V) (res : Message) (call : Call V)
    → message_status_type res.header ≡ error_status
    → (answer_call env res call).0.error
      ≡ some (service_error (meta_value service_error_key res.metadata))
unfolding answer_call
answer_call-error env res call e = rw (e, answer_call) (call_done-error _)

Answered-error :
    {h : Header} {path method : Bytes} (a : Handled) (x : Bytes)
    → a.failure ≡ some x
    → Answered h path method a
    → meta_value service_error_key a.res.metadata ≡ x
Answered-error _ x f (replied a _ _ _ g _) = cc
Answered-error _ x f (refused a y d _ _ _ g p q) =
    ap (meta_value service_error_key) p
    ∙ meta_value_found service_error_key y d q
    ∙ some_eq (sym g ∙ f)

-- An error of handleRequest reaches the caller: when the client handles the answer, the call that
-- waits under the number of the request has that error as its ServiceError, with the text
-- unchanged. Conditions: the third header byte is a byte, the request has the status normal,
-- handleRequest fails, and a call waits under the number.
error_reaches_caller :
    {V W : Type 0} (s : Server W) (m req : Message) (env : Env V) (c : Client V) (i : ℕ)
    (call : Call V) (e : Bytes)
    → IsByte req.header.h2
    → message_status_type req.header ≡ normal_status
    → (handle_request s m req).failure ≡ some e
    → lookup_call (seq req.header) c.pending ≡ some i
    → get_elem? c.calls i ≡ some call
    → (answered : Call V) × (get_elem? (handle_message env (handle_request s m req).res c).0.calls i
        ≡ some answered)
      × (answered.error ≡ some (service_error e))
error_reaches_caller s m req env c i call e b n f q g =
    let r = handle_request-Reads s m req b n in
    let res = (handle_request s m req).res in
    (
      (answer_call env res call).0,
      (handle_message_answers env res c i call (response-is_server_message res r.kind)
          (ap (λ k. lookup_call k c.pending) r.number ∙ q) g).0,
      answer_call-error env res call (r.status ∙ ap status_of f)
          ∙ ap (λ t. some (service_error t))
              (Answered-error (handle_request s m req) e f (handle_request-Answered s m req)),
    )
