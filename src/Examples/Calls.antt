-- ===== src/Examples/Calls.antt =====
-- A connection of client/client.go with a caller or two, and what the theorems say of it.
use frpc.Base.{
  ℕ, zero, suc, ap, ◌<◌, ◌≡◌, ◌≢◌, refl, false, List, [], ◌∷◌, none, some, arith, inr,
  if◌then◌else◌, ◌==◌, get_elem?,
}
use frpc.Base.Bytes.{Bytes, text}
use frpc.Base.Table.{lookup}
use frpc.Protocol.Header.{
  of_bytes, seq, request, set_seq, set_message_type, set_serialize_type, message_type,
}
use frpc.Protocol.Word.{get_u32}
use frpc.Protocol.Message.{Message, new_message}
use frpc.Protocol.Message as Wire
use frpc.Client.Call.{shut_down, ok, err, Codec, Env, wire, Call, Client}
use frpc.Client.Call.Response.{handle_message, answer_call, is_server_message, terminate}
use frpc.Client.Call.Trace.{Event, goes, arrives, ends, takes, run}
use frpc.Client.Call.Trace.Heap.{Each, some_eq}
use frpc.Client.Call.Trace.Accounted.{Inv, Fine}
use frpc.Client.Call.Trace.Ends.{Awake, AllAllowed, run-Inv, run-terminate-Awake}
use frpc.Client.Call.Trace.Board.{Moves, board, run-Moves}
use frpc.Client.Call.Trace.Answer.{handle_message_answers}

-- Values are bytes: one codec is the identity, the other one always fails.
abbrev plain_codec : Codec Bytes
plain_codec = record { encode = λ b. ok b; decode = λ b old. (b, none) }

abbrev bad_codec : Codec Bytes
bad_codec = record { encode = λ b. err (text "no"); decode = λ b old. (old, some (text "no")) }

abbrev env : Env Bytes
env = record {
  codecs = λ t. if t == 0 then some plain_codec else if t == 1 then some bad_codec else none;
  zip = λ b. ok b;
  unzip = λ b. ok b;
}

abbrev add : Call Bytes
add = record {
  service_path = text "Arith";
  service_method = text "Add";
  metadata = none;
  res_metadata = none;
  args = 1 ∷ 2 ∷ [];
  reply = [];
  error = none;
  capacity = 10;
  buffered = 0;
  received = 0;
}

abbrev start : Client Bytes
start = record {
  serialize_type = 0;
  compress_type = 0;
  seq = 0;
  pending = [];
  closing = false;
  shutdown = false;
  calls = [];
  sent = [];
}

-- Two calls wait, under 0 and 1.
abbrev waiting : Client Bytes
waiting = record start { seq = 2; pending = (0, 0) ∷ (1, 1) ∷ []; calls = add ∷ add ∷ [] }

-- The answer to number 1.
abbrev answer : Message
answer = record new_message {
  header = of_bytes (8 ∷ 0 ∷ 0x80 ∷ 0 ∷ 0 ∷ 0 ∷ 0 ∷ 0 ∷ 0 ∷ 0 ∷ 0 ∷ 1 ∷ []);
  payload = 3 ∷ [];
}

abbrev history : List (Event Bytes)
history = goes new_message none add ∷ arrives answer ∷ takes 0 ∷ []

start-Inv : Inv start
start-Inv = record { fine = λ i c e. cc; fresh = λ s i e. unfold lookup in cc; used = omega arith }

history_allowed : AllAllowed env start history
history_allowed = ((omega arith, omega arith), (tt, (tt, tt)))

run-Inv_example : Inv (run env start history)
run-Inv_example = run-Inv env start history history_allowed start-Inv

run-terminate-Awake_example : Each Awake (terminate (wire Wire.eof) (run env start history)).calls
run-terminate-Awake_example =
    run-terminate-Awake env start history (wire Wire.eof) history_allowed start-Inv

waiting-Inv : Inv waiting
waiting-Inv = record { fine = fine; fresh = fresh; used = omega arith }
  where
    fine : Each (Fine waiting.pending) waiting.calls
    fine zero c e = (omega (arith, ap Call.capacity (some_eq e)), inr (0, unfold lookup in refl))
    fine (suc zero) c e =
        (omega (arith, ap Call.capacity (some_eq e)), inr (1, unfold lookup in refl))
    fine (suc (suc i)) c e = cc

    fresh : (s i : ℕ) → lookup s waiting.pending ≡ some i → s < 2
    fresh s i e = unfold lookup in ground arith

abbrev add_request : Message
add_request = record new_message {
  header = set_serialize_type 0 (set_seq 5 (set_message_type request new_message.header));
  service_path = text "Arith";
  service_method = text "Add";
  payload = 1 ∷ 2 ∷ [];
}

handle_message_answers_example :
    let c' = (handle_message env answer waiting).0 in
    (get_elem? c'.calls 1 ≡ some (answer_call env answer add).0)
    × ((j : ℕ) → j ≢ 1 → get_elem? c'.calls j ≡ get_elem? waiting.calls j)
    × ((s : ℕ)
        → lookup s c'.pending ≡ (if seq answer.header == s then none else lookup s waiting.pending))
    × (c'.seq ≡ 2)
handle_message_answers_example =
    handle_message_answers env answer waiting 1 add (unfold is_server_message message_type in refl)
      (unfold lookup seq get_u32 in refl) refl

run-Moves_example : Moves history (board start.calls) (board (run env start history).calls)
run-Moves_example = run-Moves env start history history_allowed start-Inv

-- The first of two calls has been answered; a third one is made, and the connection ends.
abbrev settled : Client Bytes
settled = record waiting { pending = (1, 1) ∷ []; calls = record add { buffered = 1 } ∷ add ∷ [] }

abbrev later : List (Event Bytes)
later = goes new_message none add ∷ ends shut_down ∷ []
