-- ===== src/Server/Listener/Closed.antt =====
-- How serveListener of server/server.go ends once Close was called.
use frpc.Base.{ℕ, ◌≡◌, refl, Bool, true, false, List, [], ◌∷◌, Option, none, some}
use frpc.Base.Bytes.{Bytes}
use frpc.Server.Listener.{
  Accept, connects, temporary, permanent, server_closed, Listening, get_done_chan, close_done_chan,
  accept_one, serve_listener, close,
}

abbrev pub Fails : Accept → Type 0
Fails (connects conn admitted) = ⊥
Fails temporary = Unit {0}
Fails (permanent e) = Unit {0}

abbrev pub came_in : List (ℕ × Bool) → List Accept → List Accept
came_in [] rest = rest
came_in (c ∷ cs) rest = connects c.0 c.1 ∷ came_in cs rest

closed_done_chan : (d : Option Bool) → (get_done_chan (close_done_chan d)).0 ≡ true
unfolding get_done_chan close_done_chan
closed_done_chan none = refl
closed_done_chan (some true) = refl
closed_done_chan (some false) = refl

accept_one_ends :
    (a : Accept) (l : Listening)
    → Fails a
    → (get_done_chan l.done_chan).0 ≡ true
    → (accept_one a l).0 ≡ some server_closed
unfolding accept_one
accept_one_ends (connects conn admitted) l h e = absurd h
accept_one_ends temporary l h e = rw e refl
accept_one_ends (permanent x) l h e = rw e refl

ends :
    (conns : List (ℕ × Bool)) (a : Accept) (more : List Accept) (l : Listening)
    → Fails a
    → (get_done_chan l.done_chan).0 ≡ true
    → (serve_listener (came_in conns (a ∷ more)) l).0 ≡ some server_closed
unfolding serve_listener
ends [] a more l h e = rw (accept_one_ends a l h e, serve_listener) refl
ends (c ∷ cs) a more l h e =
    unfold accept_one in ends cs a more (accept_one (connects c.0 c.1) l).1 h e

-- After Close the loop of serveListener ends with ErrServerClosed at the first error of Accept,
-- whether that error passes or not, whatever connections come in before it and whether doneChan
-- had been made or closed before. Condition: what Accept gives after those connections is an
-- error.
pub serve_listener-close :
    (ln : Option (Option Bytes)) (conns : List (ℕ × Bool)) (a : Accept) (more : List Accept)
    (l : Listening)
    → Fails a
    → (serve_listener (came_in conns (a ∷ more)) (close ln l).1).0 ≡ some server_closed
serve_listener-close ln conns a more l h =
    ends conns a more (close ln l).1 h (unfold close in closed_done_chan l.done_chan)
