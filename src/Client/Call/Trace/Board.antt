-- ===== src/Client/Call/Trace/Board.antt =====
-- What a connection of client/client.go promises, as a board of calls, each settled or open; the
-- connection keeps to it.
use frpc.Base.{
  ℕ, zero, suc, ◌+◌, ◌<◌, ◌≡◌, ◌⊎◌, inl, inr, refl, sym, subst, ap, ap₂, ◌∙◌, Bool, true, ◌||◌,
  List, [], ◌∷◌, ◌++◌, Option, map, arith, ltb, length, replicate, Bool-cases, Option-cases,
}
use frpc.Base.Table.{lookup}
use frpc.Client.Call.{Call, Client, Env, Error, shut_down, fail_call, receive_call, modify, on_call}
use frpc.Client.Call.Send.{take_pending}
use frpc.Client.Call.Response.{
  handle_message, is_server_message, terminate, close, cancel, final_error, Context, seq_of_call,
}
use frpc.Client.Call.Trace.{Event, goes, arrives, ends, closes, cancels, takes, step, run}
use frpc.Client.Call.Trace.Heap.{Each, Wakes, fail_call-Wakes, answer_call-Wakes, answer_at-modify}
use frpc.Client.Call.Trace.Accounted.{Inv}
use frpc.Client.Call.Trace.Ends.{
  Awake, length-fail_all, terminate-Awake, close-Awake, AllAllowed, step-Inv,
}
use frpc.Client.Call.Trace.Own.{go_call-adds}
use frpc.Protocol.Message.{Message}
use frpc.Protocol.Header.{seq}

-- A board has one entry for each call made: whether its caller has been woken.
abbrev pub Board : Type 0
Board = List Bool

unfoldable pub mark : ℕ → Board → Board
mark i [] = []
mark zero (x ∷ b) = true ∷ b
mark (suc i) (x ∷ b) = x ∷ mark i b

-- Nothing, or one call settled.
abbrev pub AtMostOne : Board → Board → Type 0
AtMostOne b b' = (b' ≡ b) ⊎ ((i : ℕ) × (b' ≡ mark i b))

module _ {V : Type 0} where
  -- What each event may do to the board: Go adds one call and leaves the others; an answer and a
  -- cancellation mark one call at most; the end of the loop and close mark all; taking a value
  -- from Done changes nothing.
  pub data Move : Event V → Board → Board → Type 0 where
    opens :
        (m : Message) (failure : Option Error) (call : Call V) (b : Board) (x : Bool)
        → Move (goes m failure call) b (b ++ (x ∷ []))
    answers : (res : Message) (b b' : Board) → AtMostOne b b' → Move (arrives res) b b'
    cancels_one :
        (ctx : Context) (p : ℕ) (sent : Option ℕ) (e : Error) (b b' : Board)
        → AtMostOne b b'
        → Move (cancels ctx p sent e) b b'
    ends_all : (e : Error) (b : Board) → Move (ends e) b (replicate (length b) true)
    closes_all : (b : Board) → Move closes b (replicate (length b) true)
    takes_one : (k : ℕ) (b : Board) → Move (takes k) b b

  pub data Moves : List (Event V) → Board → Board → Type 0 where
    rests : (b : Board) → Moves [] b b
    moves :
        (e : Event V) (es : List (Event V)) (b b' b'' : Board)
        → Move e b b'
        → Moves es b' b''
        → Moves (e ∷ es) b b''

  -- The board of a connection.
  abbrev pub is_settled : Call V → Bool
  is_settled c = ltb 0 (c.buffered + c.received)

  abbrev pub board : List (Call V) → Board
  board calls = map is_settled calls

  board-append : (xs ys : List (Call V)) → board (xs ++ ys) ≡ board xs ++ board ys
  board-append [] ys = refl
  board-append (x ∷ xs) ys = ap (λ b. is_settled x ∷ b) (board-append xs ys)

  Roomy : List (Call V) → Type 0
  Roomy calls = Each (λ i c. 0 < c.capacity) calls

  board-modify :
      (k : ℕ) (f : Call V → Call V) (calls : List (Call V))
      → Wakes f
      → Roomy calls
      → board (modify k f calls) ≡ mark k (board calls)
  unfolding modify mark Roomy
  board-modify k f [] w r = refl
  board-modify zero f (c ∷ calls) w r =
      ap (λ b. b ∷ board calls) (ground (arith, w.wakes c (r 0 c refl)))
  board-modify (suc k) f (c ∷ calls) w r =
      ap (λ b. is_settled c ∷ b) (board-modify k f calls w (λ i d e. r (suc i) d e))

  board-receive_call :
      (k : ℕ) (calls : List (Call V)) → board (modify k receive_call calls) ≡ board calls
  unfolding modify receive_call
  board-receive_call k [] = refl
  board-receive_call zero (c ∷ calls) = ap (λ b. b ∷ board calls) (ground arith)
  board-receive_call (suc k) (c ∷ calls) = ap (λ b. is_settled c ∷ b) (board-receive_call k calls)

  board-Awake :
      (calls : List (Call V)) → Each Awake calls → board calls ≡ replicate (length calls) true
  board-Awake [] a = refl
  board-Awake (c ∷ calls) a =
      ap₂ ◌∷◌ (ground (arith, (a 0 c refl).1)) (board-Awake calls (λ i d e. a (suc i) d e))

  length-board : (calls : List (Call V)) → length (board calls) ≡ length calls
  length-board [] = refl
  length-board (c ∷ calls) = ap suc (length-board calls)

  all_settled :
      (old new : List (Call V))
      → Each Awake new
      → length new ≡ length old
      → board new ≡ replicate (length (board old)) true
  all_settled old new a l =
      board-Awake new a ∙ ap (λ n. replicate n true) (l ∙ sym (length-board old))

  length-close : (c : Client V) → length (close c).0.calls ≡ length c.calls
  unfolding close
  length-close c = elim (Bool-cases (c.closing || c.shutdown)) [
    | inl e ↦ rw e (length-fail_all shut_down c.pending c.calls)
    | inr e ↦ rw e (length-fail_all shut_down c.pending c.calls)
  ]

  length-terminate : (e : Error) (c : Client V) → length (terminate e c).calls ≡ length c.calls
  unfolding terminate
  length-terminate e c = length-fail_all (final_error c.closing e) c.pending c.calls

  Inv-Roomy : (c : Client V) → Inv c → Roomy c.calls
  unfolding Roomy
  Inv-Roomy c v i d e = (v.fine i d e).0

  take_pending-AtMostOne :
      (s : ℕ) (f : Call V → Call V) (c : Client V)
      → Wakes f
      → Roomy c.calls
      → AtMostOne (board c.calls) (board (take_pending s f c).calls)
  unfolding take_pending on_call
  take_pending-AtMostOne s f c w r = elim (Option-cases (lookup s c.pending)) [
    | inl e ↦ rw (e, take_pending) (inl refl)
    | inr (k, e) ↦ rw (e, take_pending) (inr (k, board-modify k f c.calls w r))
  ]

  module _ (env : Env V) where
    handle_message-AtMostOne :
        (res : Message) (c : Client V)
        → Roomy c.calls
        → AtMostOne (board c.calls) (board (handle_message env res c).0.calls)
    unfolding handle_message
    handle_message-AtMostOne res c r = elim (Bool-cases (is_server_message res)) [
      | inl e ↦ rw e (inl refl)
      | inr e ↦ rw e (elim (Option-cases (lookup (seq res.header) c.pending)) [
        | inl q ↦ rw (q, handle_message) (inl refl)
        | inr (k, q) ↦
            rw (q, handle_message)
              (inr (
                k,
                ap board (answer_at-modify env res k c.calls)
                    ∙ board-modify k _ c.calls (answer_call-Wakes env res) r,
              ))
      ])
    ]

    -- Each event does to the board what it may.
    step-Move :
        (c : Client V) (e : Event V) → Inv c → Move e (board c.calls) (board (step env c e).calls)
    unfolding step
    step-Move c (goes m failure call) v =
        let (x, added) = go_call-adds env m failure call c in
        subst (λ b. Move (goes m failure call) (board c.calls) b)
          (sym (ap board added ∙ board-append c.calls (x ∷ [])))
          (opens m failure call (board c.calls) (is_settled x))
    step-Move c (arrives res) v = answers res _ _ (handle_message-AtMostOne res c (Inv-Roomy c v))
    step-Move c (ends e) v =
        subst (λ b. Move (ends e) (board c.calls) b)
          (sym (all_settled c.calls _ (terminate-Awake e c v) (length-terminate e c)))
          (ends_all e (board c.calls))
    step-Move c closes v =
        subst (λ b. Move closes (board c.calls) b)
          (sym (all_settled c.calls _ (close-Awake c v) (length-close c)))
          (closes_all (board c.calls))
    step-Move c (cancels ctx p sent e) v =
        unfold cancel in
        cancels_one ctx p sent e _ _ (
          take_pending-AtMostOne (seq_of_call ctx p sent) (fail_call e) c (fail_call-Wakes e)
            (Inv-Roomy c v))
    step-Move c (takes k) v =
        unfold on_call in
        subst (λ b. Move (takes k) (board c.calls) b) (sym (board-receive_call k c.calls))
          (takes_one k (board c.calls))

    -- The connection implements the abstract board of calls. A board has one entry for each call
    -- made: whether its caller has been woken. Over any history each event does to the board of
    -- the connection just what the board allows: Go adds one call and leaves all others, an answer
    -- or a cancellation settles one call at most, the end of the loop and close settle every call,
    -- and taking a value from Done changes nothing. Conditions: the invariant of the calls holds
    -- at the start, channels have room and the sequence numbers do not wrap.
    pub run-Moves :
        (c : Client V) (es : List (Event V))
        → AllAllowed env c es
        → Inv c
        → Moves es (board c.calls) (board (run env c es).calls)
    unfolding run
    run-Moves c [] a v = rests _
    run-Moves c (e ∷ es) a v =
        moves e es _ _ _ (step-Move c e v)
          (run-Moves (step env c e) es a.1 (step-Inv env c e a.0 v))
