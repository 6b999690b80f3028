-- ===== src/Rpc/Interleaved/State.antt =====
-- What holds while calls are under way on a connection of client/client.go and server/server.go.
use frpc.Base.{ℕ, ◌+◌, ◌^◌, ◌≤◌, ◌<◌, ◌≡◌, ◌⊎◌, false, List, none, some, length, get_elem?}
use frpc.Base.Bytes.{Bytes}
use frpc.Base.Table.{lookup}
use mathlib.Core.List.{Memᴰ}
use frpc.Protocol.Message.{Message, new_message, encode}
use frpc.Protocol.Message.RoundTrip.{received}
use frpc.Client.Call.{ok, Codec, Env, Call, Client}
use frpc.Client.Call.Response.{answer_call}
use frpc.Client.Call.Send.{is_heartbeat_call, build_request}
use frpc.Server.Handle.{Server}
use frpc.Rpc.{answer}
use frpc.Rpc.Exchange.{Fits, handled}
use frpc.Rpc.Interleaved.{Connection}
use frpc.Rpc.Interleaved.Serves.{Alike}

-- The client and the server at the start, and the request `req n` of the call number `n`.
module _ {V W : Type 0} (env : Env V) (codec : Codec V) (c : Client V) (s : Server W) (m : Message)
    (req : ℕ → Message) where
  -- The request as the server has it, its answer, and the call that has got that answer.
  abbrev pub question : ℕ → Message
  question n = received new_message (req n)

  abbrev pub reply_to : ℕ → Message
  reply_to n = answer (handled s m (req n))

  abbrev pub settled : ℕ → Call V → Call V
  settled n call = (answer_call env (received new_message (reply_to n)) call).0

  -- A call number `n` of a method, on a channel with room, whose request can be made and fits the
  -- format, as does the answer, which the client can read.
  pub record IsGood (n : ℕ) (call : Call V) : Type 0 where
    pub small : n + 1 < 2 ^ 64
    pub built : build_request env codec c n call new_message ≡ ok (req n)
    pub of_method : is_heartbeat_call call ≡ false
    pub room : 0 < call.capacity
    pub fits : Fits (req n)
    pub fits_back : Fits (reply_to n)
    pub readable : (answer_call env (received new_message (reply_to n)) call).1 ≡ none

  abbrev pub AllGood : List (Call V) → Type 0
  AllGood made = (n : ℕ) (call : Call V) → get_elem? made n ≡ some call → IsGood n call

  -- A request is on the wire, with its goroutine, or its answer is on the wire.
  abbrev pub OnWay : Connection V W → ℕ → Type 0
  OnWay x n = (x.read ≤ n) ⊎ (Memᴰ (question n) x.running ⊎ Memᴰ (encode (reply_to n)) x.written)

  -- A call waits for an answer that is on its way, or it has got its own.
  abbrev pub Waits : Connection V W → ℕ → Call V → Type 0
  Waits x n call =
      (lookup n x.client.pending ≡ some n) × (get_elem? x.client.calls n ≡ some call) × OnWay x n

  abbrev pub IsSettled : Connection V W → ℕ → Call V → Type 0
  IsSettled x n call =
      (lookup n x.client.pending ≡ none) × (get_elem? x.client.calls n ≡ some (settled n call))

  abbrev pub Progress : Connection V W → ℕ → Call V → Type 0
  Progress x n call = Waits x n call ⊎ IsSettled x n call

  pub record Inv (x : Connection V W) (made : List (Call V)) : Type 0 where
    pub up : x.client.shutdown ≡ false
    pub open_ : x.client.closing ≡ false
    pub serialize : x.client.serialize_type ≡ c.serialize_type
    pub compress : x.client.compress_type ≡ c.compress_type
    pub number : x.client.seq ≡ length made
    pub heap : length x.client.calls ≡ length made
    pub writes : length x.client.sent ≡ length made
    pub behind : x.read ≤ length made
    pub wire :
        (n : ℕ) (call : Call V)
        → get_elem? made n ≡ some call
        → get_elem? x.client.sent n ≡ some (encode (req n))
    pub loop : x.loop.metadata ≡ none
    pub alike : Alike x.server s
    pub asked :
        (q : Message)
        → Memᴰ q x.running
        → (n : ℕ) × (call : Call V) × (get_elem? made n ≡ some call) × (q ≡ question n)
    pub replied :
        (b : Bytes)
        → Memᴰ b x.written
        → (n : ℕ) × (call : Call V) × (get_elem? made n ≡ some call) × (b ≡ encode (reply_to n))
    pub each : (n : ℕ) (call : Call V) → get_elem? made n ≡ some call → Progress x n call
