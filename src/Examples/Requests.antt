-- ===== src/Examples/Requests.antt =====
-- A server of server/ with one method, a circuit breaker, and the plain selectors on small inputs.
use frpc.Client.Call.Trace.Heap.{some_eq}
use frpc.Base.{ℕ, ◌==◌, subst, ◌+◌, ◌-◌, ◌≡◌, false, List, [], ◌∷◌, Option, none, some, arith}
use frpc.Base.Int.{ℤ, pos, ◌≤ℤ◌}
use frpc.Base.Bytes.{Bytes, text}
use frpc.Protocol.Header.{of_bytes}
use frpc.Protocol.Message.{Message, new_message}
use frpc.Client.Call.{ok, Codec, Env, Call, Client}
use frpc.Server.Service.{returned, Method}
use frpc.Server.Handle.{Server}
use frpc.Circuit.{Breaker, Work, outcome, call, ready, fail, settle}
use frpc.Circuit.Trips.{Attempt, run_calls, AllFail, lesser, run_calls-failures}
use frpc.Selector.Plain.{RoundRobin}
use frpc.Server.Controller.{Controller}
use frpc.Registry.{Pair, Discovery}

abbrev pub codec : Codec Bytes
codec = record { encode = λ b. ok b; decode = λ b old. (b, none) }

abbrev pub env : Env Bytes
env = record { codecs = λ t. some codec; zip = λ b. ok b; unzip = λ b. ok b }

-- The method turns its arguments into its reply.
abbrev pub echo : Method Bytes
echo = record {
  name = text "Echo";
  pkg_path = [];
  ins = [];
  outs = [];
  new_arg = [];
  new_reply = [];
  function = λ b old. (returned b none, []);
}

abbrev pub server : Server Bytes
server = record {
  services =
      (
        text "Arith",
        record {
          name = text "Arith";
          method = (text "Echo", record { method = echo; num_calls = 0 }) ∷ [];
        },
      )
      ∷ [];
  codecs = λ t. some codec;
}

-- Number 1, for the method Echo of Arith, and for a service that is not there.
abbrev pub echo_request : Message
echo_request = record new_message {
  header = of_bytes (8 ∷ 0 ∷ 0 ∷ 0 ∷ 0 ∷ 0 ∷ 0 ∷ 0 ∷ 0 ∷ 0 ∷ 0 ∷ 1 ∷ []);
  service_path = text "Arith";
  service_method = text "Echo";
  payload = 4 ∷ 2 ∷ [];
}

abbrev pub lost_request : Message
lost_request = record echo_request { service_path = text "Lost" }

abbrev pub caller : Call Bytes
caller = record {
  service_path = text "Lost";
  service_method = text "Echo";
  metadata = none;
  res_metadata = none;
  args = [];
  reply = [];
  error = none;
  capacity = 1;
  buffered = 0;
  received = 0;
}

abbrev pub client : Client Bytes
client = record {
  serialize_type = 0;
  compress_type = 0;
  seq = 2;
  pending = (1, 0) ∷ [];
  closing = false;
  shutdown = false;
  calls = caller ∷ [];
  sent = [];
}

abbrev breaker : Breaker
breaker = record { last_failure_time = 100; failures = 0; failure_threshold = 2; window = 50 }

abbrev failing : Work
failing = record { takes = 1; failure = some (text "no") }

abbrev attempts : List Attempt
attempts =
    record { now = 110; later = 111; work = failing }
    ∷ record { now = 112; later = 113; work = failing }
    ∷ record { now = 114; later = 115; work = failing }
    ∷ []

attempts-AllFail : AllFail 0 attempts breaker
unfolding call ready settle fail outcome
attempts-AllFail = (omega arith, (λ e. cc), (omega arith, (λ e. cc), (omega arith, (λ e. cc), tt)))

run_calls-failures_example :
    ((run_calls 0 attempts breaker).0 ≡ lesser 3 (2 - 0))
    × ((run_calls 0 attempts breaker).1.failures ≡ lesser (0 + 3) 2)
run_calls-failures_example =
    run_calls-failures 0 attempts breaker (omega arith) (omega arith) attempts-AllFail

abbrev three : RoundRobin
three = record { servers = text "a" ∷ text "b" ∷ text "c" ∷ []; i = 4 }

abbrev weight_of : Bytes → Option ℤ
weight_of [] = none
weight_of (b ∷ bs) = some (pos b)

weight_of_positive : (metadata : Bytes) (x : ℤ) → weight_of metadata ≡ some x → pos 0 ≤ℤ x
weight_of_positive [] x e = cc
weight_of_positive (b ∷ bs) x e = subst (λ y. pos 0 ≤ℤ y) (some_eq e) (omega arith)

-- Two watchers, of which the second one goes.
abbrev discovery : Discovery
discovery = record { base_path = text "/frpc/Arith"; pairs = []; chans = 1 ∷ 2 ∷ []; sent = [] }

abbrev reported : List Pair
reported = record { key = text "tcp@a:1"; value = text "weight=2" } ∷ []

-- It admits every other connection.
abbrev limit : Controller ℕ
limit = record {
  register = λ name metadata s. (none, s);
  handle_conn = λ conn s. ((conn, s == 0), s + 1);
  post_request = λ req e s. (none, s);
  post_response = λ req res e s. (none, s);
}
