-- ===== src/Rpc/Interleaved.antt =====
-- One connection with many calls under way: callers of Go and the loop of handleResponse in
-- client/client.go, and the loop of serveConn with a goroutine for each request in server/server.go.
-- What each of them does next comes in any order.
pub mod State
pub mod Serves
pub mod Sends
pub mod Answers
pub mod Receives
pub mod Runs
pub mod Drained
use frpc.Base.{
  ℕ, zero, suc, ◌+◌, List, [], ◌∷◌, ◌++◌, Option, none, some, Bool, true, false, get_elem?,
  if◌then◌else◌,
}
use frpc.Base.Bytes.{Bytes}
use frpc.Base.Members.{remove_at}
use frpc.Protocol.Message.{Message, Decoded, new_message, decode}
use frpc.Client.Call.{Env, Call, Client, wire, foreign}
use frpc.Client.Call.Send.{go_call}
use frpc.Client.Call.Response.{handle_message, terminate}
use frpc.Server.Handle.{Server, serve}

-- `loop` is the Message of the loop of handleResponse. `read` counts the writes of the client that
-- serveConn has read; `running` holds the requests whose goroutines have not written yet; `written` is
-- what the goroutines wrote and the client has not read, the first write first.
pub record Connection (V W : Type 0) : Type 0 where
  pub client : Client V
  pub loop : Message
  pub read : ℕ
  pub running : List Message
  pub server : Server W
  pub written : List Bytes

-- A caller of Go; a round of the loop of serveConn; the goroutine of the request at a place of
-- `running`; and a round of the loop of handleResponse.
pub data Event (V : Type 0) : Type 0 where
  calls : Call V → Event V
  reads : Event V
  finishes : ℕ → Event V
  receives : Event V

module _ {V W : Type 0} where
  -- What the loop of handleResponse does with what Decode gave: an error of a round ends it.
  unfoldable pub take_in : Env V → Connection V W → Decoded → Connection V W
  take_in env s (Decoded.done res rest) =
      let (c, next, failure) = handle_message env res s.client in
      record s {
        client = elim failure [ none ↦ c | some e ↦ terminate (foreign e) c ];
        loop = next;
      }
  take_in env s (Decoded.failed e res rest) = record s { client = terminate (wire e) s.client }
  take_in env s Decoded.panicked = s
  take_in env s Decoded.out_of_fuel = s

  -- A loop that has ended reads nothing.
  unfoldable pub receive : Env V → Connection V W → List Bytes → Connection V W
  unfolding take_in
  receive env s [] = s
  receive env s (b ∷ more) =
      if s.client.shutdown then s else take_in env (record s { written = more }) (decode 0 s.loop b)

  -- The goroutine of `req`, over the Message `m` that Copy gets from the pool.
  unfoldable pub finish : Message → ℕ → Connection V W → Option Message → Connection V W
  finish m i s none = s
  finish m i s (some req) =
      let (back, server) = serve s.server m req in
      record s {
        server = server;
        running = remove_at i s.running;
        written = s.written ++ elim back [ none ↦ [] | some b ↦ b ∷ [] ];
      }

  -- At a request that cannot be read the loop of serveConn ends, and reads no further.
  unfoldable pub start : Connection V W → Decoded → Connection V W
  start s (Decoded.done req rest) = record s {
    read = s.read + 1;
    running = s.running ++ (req ∷ []);
  }
  start s other = s

  unfoldable pub read_next : Connection V W → Option Bytes → Connection V W
  unfolding start
  read_next s none = s
  read_next s (some b) = start s (decode 0 new_message b)

  unfoldable pub step : Env V → Message → Connection V W → Event V → Connection V W
  unfolding receive finish read_next
  step env m s (calls call) = record s { client = go_call env new_message none call s.client }
  step env m s reads = read_next s (get_elem? s.client.sent s.read)
  step env m s (finishes i) = finish m i s (get_elem? s.running i)
  step env m s receives = receive env s s.written

  unfoldable pub run : Env V → Message → Connection V W → List (Event V) → Connection V W
  unfolding step
  run env m s [] = s
  run env m s (e ∷ es) = run env m (step env m s e) es

-- The calls that events make, in their order.
unfoldable pub made : {V : Type 0} → List (Event V) → List (Call V)
made [] = []
made (calls call ∷ es) = call ∷ made es
made (reads ∷ es) = made es
made (finishes i ∷ es) = made es
made (receives ∷ es) = made es
