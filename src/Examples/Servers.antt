-- ===== src/Examples/Servers.antt =====
-- The cache of connections, the modes of failure and the weighted selector on small inputs.
use mathlib.Core.List.{Memᴰ}
use frpc.Base.{
  ◌⊎◌, ℕ, ◌≡◌, refl, Bool, true, false, [], ◌∷◌, none, some, arith, if◌then◌else◌, ◌==◌,
}
use frpc.Base.Bytes.{text, eq}
use frpc.Base.Dict.{lookup}
use frpc.Client.Failmode.{Error, Net, Client, fail_fast, fail_over, fail_try}
use frpc.Client.Failmode.Cached.{FastOutcome, fail_fast-FastOutcome}
use frpc.Client.Failmode.Retry.{EveryCallFails, retries_mask_failure}
use frpc.Server.Listener.{Listening, connects, permanent, Stop, accept_one, serve_listener, close}
use frpc.Server.Listener.Lifecycle.{
  Life, Reaches, here, later, accepts, ends, end_conn, blank, Reaches-close,
}
use frpc.Server.Listener.Closed.{came_in, serve_listener-close}

-- The selector alternates between two servers, both can be dialled, and calls succeed or fail.
abbrev net : Bool → Net ℕ
net succeeds = record {
  select = λ s. (if s == 0 then text "tcp@a:1" else text "tcp@b:2", if s == 0 then 1 else 0);
  dial = λ network address s. (none, s);
  call_direct = λ i s. (if succeeds then none else some (Error.other (text "reset")), s);
  ended = λ i s. false;
}

abbrev start : Client ℕ
start = record { outside = 0; cached_client = []; conns = []; attempts = []; watching = true }

abbrev warm : Client ℕ
warm = record start {
  cached_client = (text "tcp@a:1", 0) ∷ [];
  conns =
      record { network = text "tcp"; address = text "a:1"; closing = false; shutdown = true } ∷ [];
}

fail_fast-FastOutcome_example :
    FastOutcome (net false) (text "tcp@a:1") 0 warm (fail_fast (net false) (text "tcp@a:1") 0 warm)
    × ((fail_fast (net false) (text "tcp@a:1") 0 warm).1.attempts ≡ 0 ∷ [])
fail_fast-FastOutcome_example =
    fail_fast-FastOutcome (net false) (text "tcp@a:1") 0 warm (unfold lookup eq in refl)

all_fail : EveryCallFails (net false)
all_fail = (λ s. unfold eq in ground arith, (λ n a s. refl), (λ i s e. cc))

retries_mask_failure_example :
    ((fail_over (net false) 3 (text "tcp@a:1") (some 0) none warm).0 ≡ none)
    × ((fail_try (net false) 3 (text "tcp@a:1") (some 0) none warm).0 ≡ none)
retries_mask_failure_example =
    retries_mask_failure (net false) all_fail 3 (text "tcp@a:1") (some 0) warm

-- A listener with one connection, whose doneChan has been made.
abbrev listener : Listening
listener = record {
  temp_delay = 5;
  active = 1 ∷ [];
  served = 1 ∷ [];
  closed = [];
  slept = 5 ∷ [];
  done_chan = some false;
}

-- After Close one connection still comes in, and then Accept fails.
serve_listener-close_example :
    (serve_listener
      (came_in ((2, true) ∷ []) (permanent (text "use of closed network connection") ∷ []))
      (close (some none) listener).1).0
    ≡ some Stop.server_closed
serve_listener-close_example =
    serve_listener-close (some none) ((2, true) ∷ [])
      (permanent (text "use of closed network connection")) [] listener tt

-- Connection 2 comes in and ends.
abbrev one_served : Life
one_served = (end_conn 2 (accept_one (connects 2 true) blank).1, none)

one_served-Reaches : Reaches (blank, none) one_served
unfolding accept_one
one_served-Reaches =
    later _ _ (later _ _ here (accepts (connects 2 true) blank))
      (ends 2 (accept_one (connects 2 true) blank).1 none (Memᴰ.head refl))

Reaches-close_example :
    (Memᴰ 2 one_served.0.served → Memᴰ 2 one_served.0.active ⊎ Memᴰ 2 one_served.0.closed)
    × (Memᴰ 2 one_served.0.active → Memᴰ 2 one_served.0.served ⊎ Memᴰ 2 one_served.0.closed)
    × (Memᴰ 2 one_served.0.served → Memᴰ 2 (close (some none) one_served.0).1.closed)
    × ((close (some none) one_served.0).1.active ≡ [])
Reaches-close_example = Reaches-close one_served (some none) 2 one_served-Reaches
