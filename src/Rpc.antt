-- ===== src/Rpc.antt =====
-- A call from end to end: the request of client/client.go on the wire of protocol/message.go, the
-- handler of server/server.go, and the answer back at the connection.
pub mod Cancelled
pub mod Metadata
pub mod Exchange
pub mod Whole
pub mod Returned
pub mod Heartbeat
pub mod Interleaved
use frpc.Base.{ℕ, Option, none, some, List, []}
use frpc.Base.Bytes.{Bytes}
use frpc.Protocol.Message.{Message, Decoded, new_message, encode, decode}
use frpc.Protocol.Message as Wire
use frpc.Client.Call.{Env, Client}
use frpc.Client.Call.Response.{handle_message}
use frpc.Server.Handle.{Server, Handled, handle_request, add_metadata, serve}

-- The message that the server encodes.
unfoldable pub answer : Handled → Message
answer h = record h.res { metadata = add_metadata h.extra h.res.metadata }

module _ {V : Type 0} where
  -- The client reads what came, over the message `r` of its loop; it is not changed by bytes that
  -- are no message.
  unfoldable pub deliver : Env V → Message → Client V → Bytes → Client V
  deliver env r c sent = elim (decode 0 r sent) [
    | Decoded.done res rest ↦ (handle_message env res c).0
    | Decoded.failed e m rest ↦ c
    | Decoded.panicked ↦ c
    | Decoded.out_of_fuel ↦ c
  ]

module _ {V W : Type 0} where
  -- The server reads the bytes of one request over a fresh message, and serves it over the message
  -- `m` of the pool; what it writes goes to the client.
  unfoldable pub exchange : Server W → Message → Env V → Message → Client V → Bytes → Client V
  unfolding deliver
  exchange s m env r c sent = elim (decode 0 new_message sent) [
    | Decoded.done req rest ↦ elim (serve s m req).0 [ none ↦ c | some back ↦ deliver env r c back ]
    | Decoded.failed e x rest ↦ c
    | Decoded.panicked ↦ c
    | Decoded.out_of_fuel ↦ c
  ]
