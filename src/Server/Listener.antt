-- ===== src/Server/Listener.antt =====
-- The accept loop of serveListener, and Close, in server/server.go. Durations are milliseconds.
use frpc.Base.{
  ℕ, ◌*◌, Bool, true, false, List, [], ◌∷◌, ◌++◌, Option, none, some, ltb, ◌==◌, if◌then◌else◌,
}
use frpc.Base.Bytes.{Bytes}
mod Pauses
pub mod Closed
pub mod Lifecycle

-- What ln.Accept gives: a connection, with whether the controllers admit it; an error that passes; or
-- one that stays.
pub data Accept : Type 0 where
  connects : ℕ → Bool → Accept
  temporary : Accept
  permanent : Bytes → Accept

pub data Stop : Type 0 where
  server_closed : Stop
  accept_error : Bytes → Stop

-- `active` is activeConn; `served` the connections that serveConn got, `closed` those that were
-- closed, `slept` the pauses, all the last one first; `done_chan` is doneChan: whether it is closed,
-- where it has been made.
pub record Listening : Type 0 where
  pub temp_delay : ℕ
  pub active : List ℕ
  pub served : List ℕ
  pub closed : List ℕ
  pub slept : List ℕ
  pub done_chan : Option Bool

-- getDoneChan and getDoneChanLocked: whether the channel is closed, and what stands there then.
unfoldable pub get_done_chan : Option Bool → Bool × Option Bool
get_done_chan none = (false, some false)
get_done_chan (some is_closed) = (is_closed, some is_closed)

-- closeDoneChanLocked: a channel is closed once, since closing it again would panic.
unfoldable pub close_done_chan : Option Bool → Option Bool
unfolding get_done_chan
close_done_chan d = let (is_closed, made) = get_done_chan d in if is_closed then made else some true

unfoldable pub next_delay : ℕ → ℕ
next_delay d = let raised = if d == 0 then 5 else d * 2 in if ltb 1000 raised then 1000 else raised

-- One round of the loop. A connection that the controllers refuse is closed and stays in activeConn.
unfoldable pub accept_one : Accept → Listening → Option Stop × Listening
unfolding next_delay get_done_chan
accept_one (connects conn admitted) l = (
  none,
  record l {
    temp_delay = 0;
    active = conn ∷ l.active;
    served = if admitted then conn ∷ l.served else l.served;
    closed = if admitted then l.closed else conn ∷ l.closed;
  },
)
accept_one temporary l =
    let (is_closed, made) = get_done_chan l.done_chan in
    if is_closed then (some server_closed, record l { done_chan = made }) else (
      none,
      record l {
        temp_delay = next_delay l.temp_delay;
        slept = next_delay l.temp_delay ∷ l.slept;
        done_chan = made;
      },
    )
accept_one (permanent e) l =
    let (is_closed, made) = get_done_chan l.done_chan in
    (if is_closed then some server_closed else some (accept_error e), record l { done_chan = made })

-- The loop over what Accept gives; it goes on waiting where that list ends.
unfoldable pub serve_listener : List Accept → Listening → Option Stop × Listening
unfolding accept_one
serve_listener [] l = (none, l)
serve_listener (a ∷ as') l =
    let (stop, l') = accept_one a l in
    let rest = serve_listener as' l' in elim stop [ some x ↦ (some x, l') | none ↦ rest ]

-- Close: doneChan is closed, the listener is closed where there is one, and the connections are closed
-- and forgotten. `ln` is what closing the listener gives.
unfoldable pub close : Option (Option Bytes) → Listening → Option Bytes × Listening
unfolding close_done_chan
close ln l = (
  elim ln [ none ↦ none | some e ↦ e ],
  record l { done_chan = close_done_chan l.done_chan; active = []; closed = l.active ++ l.closed },
)
