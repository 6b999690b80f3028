-- ===== src/Examples/Exchanges.antt =====
-- Calls from end to end, a connection of the server with two requests, and the handshake.
use frpc.Base.{
  some_injective, subst, ℕ, ◌*◌, ◌≤◌, true, ◌≡◌, ◌≢◌, refl, ap, false, [], ◌∷◌, none, some, arith,
  length, get_elem?, inl, map, take, drop, sym, take-append-drop, length-drop, length-append,
}
use frpc.Base.Bytes.{Bytes, text, eq}
use frpc.Base.Dict.{Dict, lookup, insert}
use frpc.Base.Table.{lookup as lookup_call}
use frpc.Protocol.Word.{get_u32, put_u32}
use frpc.Protocol.Header.{
  of_bytes, check_magic_number, seq, message_type, is_heartbeat, is_oneway, message_status_type,
  compress_type, request, set_serialize_type, set_seq, set_message_type,
}
use frpc.Protocol.Metadata.{write_entries, encode_metadata}
use frpc.Protocol.Message.{Message, new_message, copy, encode}
use frpc.Protocol.Message.Layout.{body, encode-body}
use frpc.Client.Call.{ok, err, Codec, Env, Error, Client, Call, fail_call, service_error}
use frpc.Client.Call.Response.{cancel}
use frpc.Rpc.Cancelled.{cancel_hits_zero}
use frpc.Client.Call.Request.{IsRequest}
use frpc.Server.Service.{
  GoType, Method, returned, call, outcome, register, suitable_methods, suitable_loop, is_suitable,
  no_methods,
}
use frpc.Server.Handle.{
  merge, Server, handle_request, give_up, handle_error, put_metadata, add_metadata, invoke,
  encode_reply,
}
use frpc.Server.Conn.{serve_conn, serve_all, closed, stuck}
use frpc.Server.Conn.Requests.{
  wire, all_received, is_written, wants_answer, serve_conn-wire, serve_conn_ends,
}
use frpc.Server.Conn.Suitable.{serve_conn-WellTyped}
use frpc.Server.Service.Suitable.{WellTyped}
use frpc.Client.Call.Send.{is_heartbeat_call, pack, build_request, go_call}
use frpc.Client.Call.Trace.Heap.{IsSignalled}
use frpc.Rpc.Returned.{take_done-metadata}
use frpc.Client.Call.Done.{take_done}
use frpc.Rpc.Heartbeat.{beat_back, heartbeat_tick-answered}
use frpc.Client.Call.Send.{lets_through, heartbeat_tick}
use frpc.Protocol.Header.{set_heartbeat}
use frpc.Base.{true}
use frpc.Rpc.Whole.{Calls, go_call-reply, go_call-service_error}
use frpc.Rpc.{answer, exchange}
use frpc.Rpc.Exchange.{starts_gzip, WritesNoGzip, Fits, handled, exchange-zipped_request}
use frpc.Examples.Requests.{codec, env, server, echo, echo_request, lost_request, client, caller}

lost_request_size : length (body lost_request) ≡ 26
unfolding encode_metadata write_entries put_u32 new_message
lost_request_size = refl

lost_request-Fits : Fits lost_request
unfolding new_message
lost_request-Fits = (omega (arith, lost_request_size), tt)

echo_request_size : length (body echo_request) ≡ 27
unfolding encode_metadata write_entries put_u32 new_message
echo_request_size = refl

echo_request-Fits : Fits echo_request
unfolding new_message
echo_request-Fits = (omega (arith, echo_request_size), tt)

-- The same request under Gzip; its payload is then no gzip stream for the client.
abbrev zipped_request : Message
zipped_request = record echo_request {
  header = of_bytes (8 ∷ 0 ∷ 4 ∷ 0 ∷ 0 ∷ 0 ∷ 0 ∷ 0 ∷ 0 ∷ 0 ∷ 0 ∷ 1 ∷ []);
}

abbrev zipping : Env Bytes
zipping = record env { unzip = λ b. err (text "gzip: invalid header") }

-- A server whose codec puts a quote in front of what it writes.
abbrev quoting : Codec Bytes
quoting = record { encode = λ b. ok (34 ∷ b); decode = λ b old. (drop 1 b, none) }

abbrev quoting_server : Server Bytes
quoting_server = record server { codecs = λ t. some quoting }

quoting_server-WritesNoGzip : WritesNoGzip quoting_server
quoting_server-WritesNoGzip n codec v b found wrote =
    subst (λ (x : Bytes). starts_gzip x ≡ false) (written v b own) (quoted v)
  where
    same : quoting ≡ codec
    same = some_injective found

    own : quoting.encode v ≡ ok b
    own = subst (λ (c : Codec Bytes). c.encode v ≡ ok b) (sym same) wrote

    written : (v b : Bytes) → ok (34 ∷ v) ≡ ok b → 34 ∷ v ≡ b
    written v b e = cc

    quoted : (v : Bytes) → starts_gzip (34 ∷ v) ≡ false
    quoted [] = refl
    quoted (c ∷ v) = refl

zipped_marks : IsRequest zipped_request.header 1 false
zipped_marks = record {
  magic = unfold check_magic_number in refl;
  number_kept = unfold seq get_u32 in refl;
  kind = unfold message_type in refl;
  beats = unfold is_heartbeat in refl;
  two_way = unfold is_oneway in refl;
  status = unfold message_status_type in refl;
  byte = omega arith;
}

zipped_answer_size : length (body (answer (handled quoting_server new_message zipped_request))) ≡ 27
unfolding encode_metadata write_entries put_u32 answer handle_request invoke encode_reply call
    outcome copy lookup eq add_metadata new_message
zipped_answer_size = refl

zipped_answer-Fits : Fits (answer (handled quoting_server new_message zipped_request))
unfolding answer handle_request invoke encode_reply call outcome copy lookup eq add_metadata
    new_message
zipped_answer-Fits = (omega (arith, zipped_answer_size), tt)

exchange-zipped_request_example :
    (answered : Call Bytes) × (get_elem?
        (exchange quoting_server new_message zipping new_message client
          (encode zipped_request)).calls
        0
      ≡ some answered)
    × (answered.error ≢ none)
unfolding handle_request invoke encode_reply call outcome copy lookup eq
exchange-zipped_request_example =
    exchange-zipped_request quoting_server new_message zipping new_message client zipped_request 1 0
      caller zipped_marks echo_request-Fits zipped_answer-Fits (unfold lookup_call in refl) refl
      refl refl (unfold compress_type in refl) refl quoting_server-WritesNoGzip (λ b h. (_, refl))

serve_conn-wire_example :
    (serve_conn 0 server new_message (wire (lost_request ∷ []) (take 30 (encode echo_request)))
      ≡ (serve_all server new_message (all_received (lost_request ∷ [])), closed))
    × (map is_written
          (serve_conn 0 server new_message
            (wire (lost_request ∷ []) (take 30 (encode echo_request)))).0.0
        ≡ map wants_answer (lost_request ∷ []))
serve_conn-wire_example =
    serve_conn-wire 0 server new_message (lost_request ∷ []) echo_request
      (take 30 (encode echo_request)) (drop 30 (encode echo_request))
      ((lost_request-Fits.0, inl refl, lost_request-Fits.1), tt)
      (echo_request-Fits.0, inl refl, echo_request-Fits.1)
      (sym (take-append-drop 30 (encode echo_request)))
      (omega (
        arith,
        length-drop 30 (encode echo_request),
        ap length (encode-body echo_request),
        echo_request_size,
        length-append (put_u32 (length (body echo_request))) (body echo_request),
      ))

serve_conn_ends_example :
    ((serve_conn 0 server new_message (8 ∷ 0 ∷ [])).1 ≢ stuck)
    × (16 * length (serve_conn 0 server new_message (8 ∷ 0 ∷ [])).0.0 ≤ 2)
serve_conn_ends_example = serve_conn_ends 0 server new_message (8 ∷ 0 ∷ [])

-- A type of the program, and a method of it with a suitable signature.
abbrev own_type : ℕ → GoType
own_type n = record {
  pointers = n;
  name = text "Args";
  pkg_path = text "main";
  exported = true;
  is_context = false;
  is_error = false;
}

abbrev suitable_echo : Method Bytes
suitable_echo = record echo {
  ins = own_type 1 ∷ record (own_type 0) { is_context = true } ∷ own_type 0 ∷ own_type 1 ∷ [];
  outs = record (own_type 0) { is_error = true } ∷ [];
}

-- The method is registered.
suitable_echo-registered :
    (register (text "*Arith") (text "Arith") (suitable_echo ∷ echo ∷ []) []).0 ≡ none
unfolding register suitable_methods suitable_loop is_suitable no_methods insert eq
suitable_echo-registered = refl

serve_conn-WellTyped_example :
    let s : Server Bytes = record {
      services = (register (text "*Arith") (text "Arith") (suitable_echo ∷ echo ∷ []) []).1;
      codecs = server.codecs;
    } in
    WellTyped (serve_conn 0 s new_message (encode echo_request)).0.1.services
serve_conn-WellTyped_example =
    serve_conn-WellTyped (text "*Arith") (text "Arith") (suitable_echo ∷ echo ∷ []) [] server.codecs
      0 new_message (encode echo_request) (λ s service e. unfold lookup in cc)

-- The calls of those requests, on a connection that has not been used.
abbrev fresh : Client Bytes
fresh = record client { seq = 1; pending = []; calls = [] }

abbrev pub echo_call : Call Bytes
echo_call = record caller { service_path = text "Arith"; args = 4 ∷ 2 ∷ [] }

abbrev pub lost_call : Call Bytes
lost_call = record caller { args = 4 ∷ 2 ∷ [] }

abbrev built : Call Bytes → Message
built call = record new_message {
  header = set_serialize_type 0 (set_seq 1 (set_message_type request new_message.header));
  service_path = call.service_path;
  service_method = call.service_method;
  payload = call.args;
}

built_echo_size : length (body (built echo_call)) ≡ 27
unfolding encode_metadata write_entries put_u32 new_message
built_echo_size = refl

built_lost_size : length (body (built lost_call)) ≡ 26
unfolding encode_metadata write_entries put_u32 new_message
built_lost_size = refl

answered_echo_size : length (body (answer (handled server new_message (built echo_call)))) ≡ 27
unfolding encode_metadata write_entries put_u32 answer handle_request invoke encode_reply call
    outcome copy lookup eq add_metadata new_message
answered_echo_size = refl

answered_lost_size : length (body (answer (handled server new_message (built lost_call)))) ≡ 75
unfolding encode_metadata write_entries put_u32 answer handle_request give_up handle_error copy
    lookup eq put_metadata add_metadata insert new_message
answered_lost_size = refl

echo_call-Calls : Calls server new_message env fresh echo_call (built echo_call)
unfolding answer handle_request invoke encode_reply call outcome copy lookup eq add_metadata
    new_message
echo_call-Calls = record {
  codec = codec;
  up = refl;
  has = refl;
  built = unfold build_request pack is_heartbeat_call in refl;
  small = omega arith;
  of_method = unfold is_heartbeat_call in refl;
  room = omega arith;
  fits = (omega (arith, built_echo_size), tt);
  fits_back = (omega (arith, answered_echo_size), tt);
}

lost_call-Calls : Calls server new_message env fresh lost_call (built lost_call)
unfolding answer handle_request give_up handle_error copy lookup eq put_metadata add_metadata insert
    new_message
lost_call-Calls = record {
  codec = codec;
  up = refl;
  has = refl;
  built = unfold build_request pack is_heartbeat_call in refl;
  small = omega arith;
  of_method = unfold is_heartbeat_call in refl;
  room = omega arith;
  fits = (omega (arith, built_lost_size), tt);
  fits_back = (omega (arith, answered_lost_size), (tt, tt));
}

go_call-reply_example :
    let c' =
      exchange server new_message env new_message
        (go_call env new_message none echo_call fresh)
        (encode (built echo_call)) in
    (answered : Call Bytes) × (get_elem? c'.calls 0 ≡ some answered)
    × (answered.reply ≡ 4 ∷ 2 ∷ [])
    × (answered.error ≡ none)
    × IsSignalled answered
unfolding handle_request invoke encode_reply call outcome copy lookup eq new_message
go_call-reply_example =
    go_call-reply server new_message env new_message fresh echo_call (built echo_call)
      echo_call-Calls refl refl
      (unfold compress_type set_serialize_type set_seq set_message_type in refl) refl refl

go_call-service_error_example :
    let c' =
      exchange server new_message env new_message
        (go_call env new_message none lost_call fresh)
        (encode (built lost_call)) in
    (answered : Call Bytes) × (get_elem? c'.calls 0 ≡ some answered)
    × (answered.error ≡ some (service_error (text "frpc: can't find service Lost")))
    × IsSignalled answered
unfolding handle_request give_up handle_error copy lookup eq new_message
go_call-service_error_example =
    go_call-service_error server new_message env new_message fresh lost_call (built lost_call)
      lost_call-Calls (text "frpc: can't find service Lost") refl tt

-- A server whose method sets metadata.
abbrev tagging : Server Bytes
tagging = record {
  services =
      (
        text "Arith",
        record {
          name = text "Arith";
          method =
              (
                text "Echo",
                record {
                  method = record echo {
                    function = λ b old. (returned b none, (text "k", text "v") ∷ []);
                  };
                  num_calls = 0;
                },
              )
              ∷ [];
        },
      )
      ∷ [];
  codecs = server.codecs;
}

tagged_size : length (body (answer (handled tagging new_message (built echo_call)))) ≡ 37
unfolding encode_metadata write_entries put_u32 answer handle_request invoke encode_reply call
    outcome copy lookup eq add_metadata merge insert new_message
tagged_size = refl

tagged-Calls : Calls tagging new_message env fresh echo_call (built echo_call)
unfolding answer handle_request invoke encode_reply call outcome copy lookup eq add_metadata merge
    insert new_message
tagged-Calls = record {
  codec = codec;
  up = refl;
  has = refl;
  built = unfold build_request pack is_heartbeat_call in refl;
  small = omega arith;
  of_method = unfold is_heartbeat_call in refl;
  room = omega arith;
  fits = (omega (arith, built_echo_size), tt);
  fits_back = (omega (arith, tagged_size), (tt, tt));
}

take_done-metadata_example :
    let c' =
      exchange tagging new_message env new_message
        (go_call env new_message none echo_call fresh)
        (encode (built echo_call)) in
    (answered : Call Bytes) × (meta : Dict Bytes) × (get_elem? c'.calls 0 ≡ some answered)
    × (take_done answered (some []) ≡ (answered.error, some meta))
    × (lookup (text "k") meta ≡ some (text "v"))
unfolding handle_request invoke encode_reply call outcome copy lookup eq new_message
take_done-metadata_example =
    take_done-metadata tagging new_message env new_message fresh echo_call (built echo_call) []
      (text "k") (text "v") tagged-Calls (tt, tt) refl

abbrev beat_request : Message
beat_request = record new_message {
  header = set_heartbeat true (set_seq 1 (set_message_type request new_message.header));
}

beat_size : length (body beat_request) ≡ 16
unfolding encode_metadata write_entries put_u32 new_message
beat_size = refl

beat_back_size : length (body (beat_back beat_request)) ≡ 16
unfolding encode_metadata write_entries put_u32 new_message
beat_back_size = refl

heartbeat_tick-answered_example :
    let (sent, goes_on) = heartbeat_tick none env new_message none [] fresh in
    (goes_on ≡ true)
    × ((answered : Call Bytes) × (get_elem?
            (exchange server new_message env new_message sent (encode beat_request)).calls
            0
          ≡ some answered)
        × (answered.error ≡ none)
        × IsSignalled answered)
unfolding new_message
heartbeat_tick-answered_example =
    heartbeat_tick-answered server new_message env new_message none fresh codec [] beat_request
      (unfold lets_through in refl) refl refl (unfold build_request is_heartbeat_call eq in refl)
      (omega arith) (omega (arith, beat_size), tt) (omega (arith, beat_back_size), tt)

-- One call waits, under 0.
abbrev one_waits : Client Bytes
one_waits = record client { seq = 1; pending = (0, 0) ∷ []; calls = lost_call ∷ [] }

cancel_hits_zero_example :
    let c' =
      cancel
        (record { seq_cell = none })
        3
        (some 1)
        Error.shut_down
        (go_call env new_message none echo_call one_waits) in
    (lookup_call 1 c'.pending ≡ some 1)
    × (get_elem? c'.calls 0 ≡ some (fail_call Error.shut_down lost_call))
    × (lookup_call 0 c'.pending ≡ none)
unfolding eq
cancel_hits_zero_example =
    cancel_hits_zero env codec echo_call one_waits (built echo_call) (record { seq_cell = none }) 3
      0 lost_call Error.shut_down refl refl (unfold build_request pack is_heartbeat_call in refl)
      (λ e. cc) (λ e. cc) (unfold lookup_call in refl) refl
