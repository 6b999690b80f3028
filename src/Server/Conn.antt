-- ===== src/Server/Conn.antt =====
-- The loop of serveConn in server/server.go: the requests that one connection gives.
pub mod Requests
pub mod Suitable
pub mod Observed
use frpc.Base.{
  ℕ, zero, suc, ◌+◌, Bool, true, false, List, [], ◌∷◌, Option, none, some, length, if◌then◌else◌,
}
use frpc.Base.Bytes.{Bytes}
use frpc.Protocol.Message.{Message, Decoded, Error, eof, unexpected_eof, new_message, decode}
use frpc.Server.Handle.{Server, serve}

-- How the loop ends: silently at the end of the stream, with another error, or with a panic that the
-- deferred function recovers; in each case the connection is forgotten and closed.
pub data End : Type 0 where
  closed : End
  undecodable : Error → End
  recovered : End
  stuck : End

unfoldable pub end_of : Error → End
end_of Error.eof = closed
end_of Error.unexpected_eof = closed
end_of e = undecodable e

-- The requests read, the first one first. Each is read over a message like a new one, as a pool
-- gives it. The loop is on fuel; each message takes at least sixteen bytes.
unfoldable pub read_requests : ℕ → ℕ → Bytes → List Message × End
unfolding end_of
read_requests zero max_length r = ([], stuck)
read_requests (suc fuel) max_length r = elim (decode max_length new_message r) [
  | Decoded.done m rest ↦ let (ms, end) = read_requests fuel max_length rest in (m ∷ ms, end)
  | Decoded.failed e m rest ↦ ([], end_of e)
  | Decoded.panicked ↦ ([], recovered)
  | Decoded.out_of_fuel ↦ ([], stuck)
]

module _ {V : Type 0} where
  -- The goroutines of the requests, here one after the other: what each one writes.
  unfoldable pub serve_all : Server V → Message → List Message → List (Option Bytes) × Server V
  serve_all s c [] = ([], s)
  serve_all s c (req ∷ reqs) =
      let (written, s') = serve s c req in
      let (more, s'') = serve_all s' c reqs in (written ∷ more, s'')

  unfoldable pub serve_conn :
      ℕ → Server V → Message → Bytes → (List (Option Bytes) × Server V) × End
  unfolding read_requests serve_all
  serve_conn max_length s c r =
      let (reqs, end) = read_requests (suc (length r)) max_length r in (serve_all s c reqs, end)
