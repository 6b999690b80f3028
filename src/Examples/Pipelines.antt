-- ===== src/Examples/Pipelines.antt =====
-- Two calls under way at once, answered in the other order.
use frpc.Base.{
  ℕ, zero, suc, ◌≡◌, refl, subst, some_injective, false, List, [], ◌∷◌, some, arith, length,
  get_elem?,
}
use frpc.Base.Bytes.{Bytes, eq, copy_at}
use frpc.Base.Dict.{lookup, insert}
use frpc.Protocol.Word.{put_u32}
use frpc.Protocol.Header.{
  message_status_type, is_heartbeat, compress_type, serialize_type, set_message_type, set_seq,
  set_serialize_type, request, set_message_status_type,
}
use frpc.Protocol.Metadata.{write_entries, encode_metadata}
use frpc.Protocol.Message.{Message, new_message, copy}
use frpc.Protocol.Message.Layout.{body}
use frpc.Client.Call.{Call, Client}
use frpc.Client.Call.Send.{is_heartbeat_call, pack, build_request}
use frpc.Client.Call.Response.{answer_call, receive_reply, decode_reply}
use frpc.Client.Call.Trace.Heap.{IsSignalled}
use frpc.Server.Service.{call, outcome}
use frpc.Server.Handle.{
  handle_request, give_up, handle_error, put_metadata, add_metadata, invoke, encode_reply,
}
use frpc.Rpc.{answer}
use frpc.Rpc.Exchange.{handled}
use frpc.Rpc.Interleaved.{Event, calls, reads, finishes, receives, run, made}
use frpc.Rpc.Interleaved.State.{settled, IsGood, AllGood, Progress, IsSettled}
use frpc.Rpc.Interleaved.Runs.{IsNew, opened, run-Progress}
use frpc.Rpc.Interleaved.Drained.{drained, drained-IsSettled}
use frpc.Examples.Requests.{codec, env, server, client}
use frpc.Examples.Exchanges.{echo_call, lost_call}

abbrev new_client : Client Bytes
new_client = record client { seq = 0; pending = []; calls = []; sent = [] }

abbrev chosen : ℕ → Call Bytes
chosen zero = echo_call
chosen (suc n) = lost_call

abbrev asks : ℕ → Message
asks n = record new_message {
  header = set_serialize_type 0 (set_seq n (set_message_type request new_message.header));
  service_path = (chosen n).service_path;
  service_method = (chosen n).service_method;
  payload = (chosen n).args;
}

-- The second request is served first, and both answers are still to be read.
abbrev history : List (Event Bytes)
history = calls echo_call ∷ calls lost_call ∷ reads ∷ reads ∷ finishes 1 ∷ receives ∷ []

echo_size : length (body (asks 0)) ≡ 27
unfolding encode_metadata write_entries put_u32 new_message
echo_size = refl

lost_size : length (body (asks 1)) ≡ 26
unfolding encode_metadata write_entries put_u32 new_message
lost_size = refl

echo_back_size : length (body (answer (handled server new_message (asks 0)))) ≡ 27
unfolding encode_metadata write_entries put_u32 answer handle_request invoke encode_reply call
    outcome copy lookup eq add_metadata new_message
echo_back_size = refl

lost_back_size : length (body (answer (handled server new_message (asks 1)))) ≡ 75
unfolding encode_metadata write_entries put_u32 answer handle_request give_up handle_error copy
    lookup eq put_metadata add_metadata insert new_message
lost_back_size = refl

echo-IsGood : IsGood env codec new_client server new_message asks 0 echo_call
unfolding answer handle_request invoke encode_reply call outcome copy lookup eq add_metadata
    new_message
echo-IsGood = record {
  small = omega arith;
  built = unfold build_request pack is_heartbeat_call in refl;
  of_method = unfold is_heartbeat_call in refl;
  room = omega arith;
  fits = (omega (arith, echo_size), tt);
  fits_back = (omega (arith, echo_back_size), tt);
  readable =
      unfold answer_call receive_reply decode_reply message_status_type is_heartbeat compress_type
        serialize_type set_message_type set_seq set_serialize_type copy_at in
      refl;
}

lost-IsGood : IsGood env codec new_client server new_message asks 1 lost_call
unfolding answer handle_request give_up handle_error copy lookup eq put_metadata add_metadata insert
    new_message
lost-IsGood = record {
  small = omega arith;
  built = unfold build_request pack is_heartbeat_call in refl;
  of_method = unfold is_heartbeat_call in refl;
  room = omega arith;
  fits = (omega (arith, lost_size), tt);
  fits_back = (omega (arith, lost_back_size), (tt, tt));
  readable =
      unfold answer_call message_status_type set_message_status_type set_message_type set_seq
        set_serialize_type in
      refl;
}

history-AllGood : AllGood env codec new_client server new_message asks (made history)
unfolding made
history-AllGood zero call e =
    subst (IsGood env codec new_client server new_message asks 0) (some_injective e) echo-IsGood
history-AllGood (suc zero) call e =
    subst (IsGood env codec new_client server new_message asks 1) (some_injective e) lost-IsGood
history-AllGood (suc (suc n)) call e = cc

new_client-IsNew : IsNew new_client
new_client-IsNew = record {
  up = refl;
  open_ = refl;
  number = refl;
  no_calls = refl;
  no_writes = refl;
}

run-Progress_example :
    let x = run env new_message (opened new_client server) history in
    (x.client.shutdown ≡ false)
    × ((n : ℕ) (call : Call Bytes)
        → get_elem? (made history) n ≡ some call
        → Progress env codec new_client server new_message asks x n call
          × IsSignalled (settled env codec new_client server new_message asks n call))
run-Progress_example =
    run-Progress env codec new_client server new_message asks refl history new_client-IsNew
      history-AllGood

drained-IsSettled_example :
    IsSettled env codec new_client server new_message asks
      (drained env new_message (run env new_message (opened new_client server) history))
      0
      echo_call
    × IsSignalled (settled env codec new_client server new_message asks 0 echo_call)
drained-IsSettled_example =
    drained-IsSettled env codec new_client server new_message asks history 0 echo_call refl
      new_client-IsNew history-AllGood (unfold made in refl)
