-- ===== src/Client/Connect.antt =====
-- Connect of client/connection.go, with the handshake of newHttpConn; and Discovery and watch of
-- client/client_registry.go. Dialling is foreign; a connection is a number.
pub mod Handshake
pub mod Deadline
use frpc.Base.{
  ℕ, ◌+◌, Bool, true, false, ◌&&◌, List, [], ◌∷◌, ◌++◌, Option, none, some, ltb, not, ◌==◌,
  if◌then◌else◌,
}
use frpc.Base.Bytes.{Bytes, text, eq}
use frpc.Base.Dict.{Dict, insert}
use frpc.Client.Call.{Result, ok, err}
use frpc.Client.Option.{Options}
use frpc.Registry.{Pair}
use frpc.Server.Http.{default_rpc_path, connected}

-- The dialling of net by network, address and timeout, of kcp by address, and of quic by address and
-- whether the server's certificate is verified as the user's configuration says, or not at all; and
-- what comes back on a connection for the bytes that were written first: none where it ends.
pub record Dialling : Type 0 where
  pub tcp : Bytes → Bytes → ℕ → Result ℕ
  pub kcp : Bytes → Result ℕ
  pub quic : Bool → Bytes → Result ℕ
  pub answer_to : ℕ → Bytes → Option Bytes

-- The first line, without its end.
unfoldable pub first_line : Bytes → Bytes
first_line [] = []
first_line (b ∷ s) =
    let rest = first_line s in if b == 10 then [] else if b == 13 then rest else b ∷ rest

-- The text behind the first space, and the one before it.
unfoldable pub after_space : Bytes → Option Bytes
after_space [] = none
after_space (b ∷ s) = let rest = after_space s in if b == b' ' then some s else rest

unfoldable pub before_space : Bytes → Bytes
before_space [] = []
before_space (b ∷ s) = let rest = before_space s in if b == b' ' then [] else b ∷ rest

-- Status of http.ReadResponse: the status line behind the protocol; an error where there is none.
unfoldable pub read_status : Option Bytes → Result Bytes
unfolding first_line after_space
read_status none = err (text "unexpected EOF")
read_status (some s) = elim (after_space (first_line s)) [
  | none ↦ err (text "malformed HTTP response")
  | some status ↦ ok status
]

-- "CONNECT "+path+" HTTP/1.0\n\n"
unfoldable pub connect_request : Bytes → Bytes
connect_request path = text "CONNECT " ++ path ++ text " HTTP/1.0" ++ 10 ∷ 10 ∷ []

-- newHttpConn: the connection or an error, without the net.OpError around it, and the connections
-- that were closed.
unfoldable pub new_http_conn : Dialling → Options → Bytes → Result ℕ × List ℕ
unfolding read_status connect_request
new_http_conn d o address =
    let path = if eq o.rpc_path [] then default_rpc_path else o.rpc_path in
    elim (d.tcp (text "tcp") address o.conn_timeout) [
      | err e ↦ (err e, [])
      | ok conn ↦ elim (read_status (d.answer_to conn (connect_request path))) [
        | err e ↦ (err e, conn ∷ [])
        | ok status ↦
            if eq status connected
            then (ok conn, [])
            else (err (text "unexpected HTTP response: " ++ status), conn ∷ [])
      ]
    ]

-- What Connect leaves: the connection, if any, and whether the heartbeat runs; the loop of
-- handleResponse runs on every connection.
pub record Connected : Type 0 where
  pub conn : Option ℕ
  pub read_deadline : Bool
  pub write_deadline : Bool
  pub heartbeat : Bool
  pub closed : List ℕ
  pub failure : Option Bytes

-- newKcpConn: the assertion of the type of the block panics where there is none, which is `none`.
unfoldable pub new_kcp_conn : Dialling → Options → Bytes → Option (Result ℕ)
new_kcp_conn d o address = if o.block then some (d.kcp address) else none

-- newQuicConn: without a TLS configuration nothing is verified.
unfoldable pub new_quic_conn : Dialling → Options → Bytes → Result ℕ
new_quic_conn d o address = d.quic o.tls_config address

unfoldable pub new_direct_conn : Dialling → Options → Bytes → Bytes → Result ℕ
new_direct_conn d o network address = d.tcp network address o.conn_timeout

-- The switch of Connect; `none` is a panic.
unfoldable pub dial_network : Dialling → Options → Bytes → Bytes → Option (Result ℕ × List ℕ)
unfolding new_http_conn new_kcp_conn new_quic_conn new_direct_conn
dial_network d o network address =
    if eq network (text "http")
    then some (new_http_conn d o address)
    else if eq network (text "kcp")
    then elim (new_kcp_conn d o address) [ none ↦ none | some r ↦ some (r, []) ]
    else if eq network (text "quic")
    then some (new_quic_conn d o address, [])
    else some (new_direct_conn d o network address, [])

unfoldable pub connected_by : Options → Result ℕ × List ℕ → Connected
connected_by o (dialled, closed) = elim dialled [
  | err e ↦ record {
    conn = none;
    read_deadline = false;
    write_deadline = false;
    heartbeat = false;
    closed = closed;
    failure = some e;
  }
  | ok c ↦ record {
    conn = some c;
    read_deadline = not (o.read_timeout == 0);
    write_deadline = not (o.write_timeout == 0);
    heartbeat = o.heartbeat && ltb 0 o.heartbeat_interval;
    closed = closed;
    failure = none;
  }
]

-- Connect; `none` is a panic.
unfoldable pub connect : Dialling → Options → Bytes → Bytes → Option Connected
unfolding dial_network connected_by
connect d o network address = elim (dial_network d o network address) [
  | none ↦ none
  | some r ↦ some (connected_by o r)
]

-- for _, p := range pairs { servers[p.Key] = p.Value }
unfoldable pub fill_servers : List Pair → Dict Bytes → Dict Bytes
fill_servers [] servers = servers
fill_servers (p ∷ pairs) servers = fill_servers pairs (insert p.key p.value servers)

-- The servers map of registryClient, which Discovery and each change in `watch` build anew.
unfoldable pub servers_of : List Pair → Dict Bytes
unfolding fill_servers
servers_of pairs = fill_servers pairs []

unfoldable pub watch_servers : List (List Pair) → Dict Bytes → Dict Bytes
unfolding servers_of
watch_servers [] servers = servers
watch_servers (pairs ∷ changes) servers = watch_servers changes (servers_of pairs)
