-- ===== src/Examples/Breakers.antt =====
-- A client with a breaker that opens at two failures, whose server a fails and whose server b does not.
use frpc.Base.{ℕ, ◌≡◌, refl, false, [], ◌∷◌, none, some, arith, Bool, Option}
use frpc.Base.Bytes.{text, eq}
use frpc.Base.Dict.{lookup, insert}
use frpc.Circuit.{Breaker, Error, breaker_open, Work, call, ready, settle, fail, outcome}
use frpc.Circuit.Trips.{AllFail}
use frpc.Client.Guarded.{
  simple, Fleet, Called, call_server, call_servers, cached_settings, call_direct, guard_call, write,
}
use frpc.Client.Guarded.Shared.{Guards, attempt, call_servers-breaker_open}

abbrev fresh_breaker : Breaker
fresh_breaker = record { last_failure_time = 100; failures = 0; failure_threshold = 2; window = 50 }

-- There is no breaker of the library.
abbrev no_library : ℕ → ℕ → ℕ → Work → ⊥ → Option Error × Bool × ⊥
no_library now later d w l = absurd l

abbrev fleet : Fleet ⊥
fleet = record {
  own = record { breaker = some 0; timeout = 0 };
  cached = [];
  heap = λ p. simple fresh_breaker;
}

fleet-Guards : Guards 0 0 fresh_breaker fleet
unfolding lookup
fleet-Guards = record { breaker = refl; timeout = refl; copies = λ server c e. cc; here = refl }

abbrev to_a : ℕ → Called
to_a now = record {
  server = text "a";
  now = now;
  later = now;
  work = record { takes = 1; failure = some (text "no") };
}

abbrev to_b : Called
to_b = record {
  server = text "b";
  now = 120;
  later = 121;
  work = record { takes = 1; failure = none };
}

abbrev open_breaker : Breaker
open_breaker = record { last_failure_time = 112; failures = 2; failure_threshold = 2; window = 50 }

failing_calls-AllFail : AllFail 0 (attempt (to_a 110) ∷ attempt (to_a 112) ∷ []) fresh_breaker
unfolding call ready settle fail outcome
failing_calls-AllFail = (omega arith, (λ e. cc), (omega arith, (λ e. cc), tt))

heap_after :
    (call_servers no_library (to_a 110 ∷ to_a 112 ∷ []) fleet).1.heap 0 ≡ simple open_breaker
unfolding call_servers call_server cached_settings call_direct guard_call write call ready settle
    fail outcome lookup insert eq
heap_after = refl

call_servers-breaker_open_example :
    (call_server no_library to_b (call_servers no_library (to_a 110 ∷ to_a 112 ∷ []) fleet).1).0
    ≡ (some breaker_open, false)
call_servers-breaker_open_example =
    call_servers-breaker_open no_library (to_a 110 ∷ to_a 112 ∷ []) to_b 0 0 fresh_breaker
      open_breaker fleet fleet-Guards (omega arith) (omega arith) failing_calls-AllFail
      (omega arith) heap_after (omega arith)
