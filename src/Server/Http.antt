-- ===== src/Server/Http.antt =====
-- How a server of server/server.go starts: ServeProxy and Serve; and ServeHTTP, by which a connection
-- comes in over HTTP.
pub mod Unconfigured
use frpc.Base.{Bool, ℕ, List, [], ◌∷◌, ◌++◌, if◌then◌else◌}
use frpc.Base.Bytes.{Bytes, text, eq}
use frpc.Client.Call.{Result, ok, err}
use frpc.Client.Failmode.{split_network_and_address}
use frpc.Server.Option.{Options}

-- core.DefaultRPCPath
abbrev pub default_rpc_path : Bytes
default_rpc_path = text "/_fprc_"

abbrev pub connected : Bytes
connected = text "200 Connected to frpc"

-- net.Listen for "tcp", and the listeners of kcp and quic, by address; a listener is a number.
pub record Listeners : Type 0 where
  pub tcp : Bytes → Result ℕ
  pub kcp : Bytes → Result ℕ
  pub quic : Bytes → Result ℕ

unfoldable pub make_quic_listener : Listeners → Options → Bytes → Result ℕ
make_quic_listener ls option address =
    if option.tls_config
    then ls.quic address
    else err (text "TLSConfig must be configured in server.Options")

unfoldable pub make_kcp_listener : Listeners → Options → Bytes → Result ℕ
make_kcp_listener ls option address =
    if option.block_crypt
    then ls.kcp address
    else err (text "KCP BlockCrypt must be configured in server.Options")

-- makeListener, with the map makeListeners.
unfoldable pub make_listener : Listeners → Options → Bytes → Bytes → Result ℕ
unfolding make_kcp_listener make_quic_listener
make_listener ls option network address =
    if eq network (text "tcp")
    then ls.tcp address
    else if eq network (text "http")
    then ls.tcp address
    else if eq network (text "quic")
    then make_quic_listener ls option address
    else if eq network (text "kcp")
    then make_kcp_listener ls option address
    else err (text "can not make listener for " ++ network)

-- What Serve starts, over the listener that makeListener gave: the loop of serveListener, or HTTP
-- under a path; or the error of makeListener.
pub data Serving : Type 0 where
  listening : ℕ → Serving
  over_http : ℕ → Bytes → Serving
  no_listener : Bytes → Serving
  no_address : Serving

unfoldable pub serve_http_listener : ℕ → Bytes → Serving
serve_http_listener ln rpc_path =
    over_http ln (if eq rpc_path [] then default_rpc_path else rpc_path)

unfoldable pub serve_on : Listeners → Options → Bytes → Bytes → Serving
unfolding serve_http_listener make_listener
serve_on ls option network address = elim (make_listener ls option network address) [
  | err e ↦ no_listener e
  | ok ln ↦
      if eq network (text "http") then serve_http_listener ln option.rpc_path else listening ln
]

-- ServeProxy: the network is "tcp" where the address names none.
unfoldable pub serve_proxy : Listeners → Options → Bytes → Serving
unfolding serve_on
serve_proxy ls option service_address =
    if eq service_address []
    then no_address
    else let (network, address) = split_network_and_address service_address in
      serve_on ls option network address

-- What ServeHTTP does: the refusal of another method, an error of Hijack, or a connection that it
-- writes to, enters into activeConn and serves.
pub data Hijacked : Type 0 where
  not_allowed : Bytes → Hijacked
  not_hijacked : Bytes → Hijacked
  serves : ℕ → Bytes → List ℕ → Hijacked

unfoldable pub serve_http : Result ℕ → Bytes → List ℕ → Hijacked
serve_http hijack method active =
    if eq method (text "CONNECT")
    then elim hijack [
      | err e ↦ not_hijacked e
      | ok conn ↦ serves conn (text "HTTP/1.0 " ++ connected ++ 10 ∷ 10 ∷ []) (conn ∷ active)
    ]
    else not_allowed (text "405 must CONNECT" ++ 10 ∷ [])
