-- ===== src/Client/Connect/Handshake.antt =====
-- The handshake over HTTP: newHttpConn of client/connection.go against ServeHTTP of server/server.go.
use frpc.Base.{
  Bool, true, false, not, ◌&&◌, ◌==◌, arith, ℕ, ◌≡◌, refl, ap, ◌∙◌, List, [], ◌∷◌, ◌++◌, Option,
  none, some, if◌then◌else◌,
}
use frpc.Base.Bytes.{Bytes, text, eq}
use frpc.Base.Dict.{Dict, lookup, insert, lookup-insert}
use frpc.Client.Call.{Result, ok}
use frpc.Client.Option.{Options}
use frpc.Client.Connect.{
  Dialling, after_space, before_space, first_line, read_status, connect_request, new_http_conn,
  fill_servers, servers_of,
}
use frpc.Registry.{Pair}
use frpc.Server.Http.{
  over_http, serve_http_listener, serves, serve_http, default_rpc_path, connected,
}

-- The path in the request line: its second word.
abbrev pub path_of : Bytes → Bytes
path_of sent = elim (after_space (first_line sent)) [ none ↦ [] | some rest ↦ before_space rest ]

-- The server at the other end, which handles one path (http.Handle): it reads the method and the path of
-- the request, and what ServeHTTP then writes on the connection is what comes back.
abbrev pub Serves : Dialling → Result ℕ → List ℕ → Bytes → Type 0
Serves d hijack active handled =
    (conn taken : ℕ) (sent b : Bytes) (active' : List ℕ)
    → path_of sent ≡ handled
    → serve_http hijack (before_space (first_line sent)) active ≡ serves taken b active'
    → d.answer_to conn sent ≡ some b

-- Neither a space nor the end of a line, nor what a URL writes otherwise.
abbrev pub is_plain_byte : ℕ → Bool
is_plain_byte b =
    not (b == 10) && (not (b == 13) && (not (b == b' ') && (not (b == b'?') && not (b == b'%'))))

abbrev pub AllPlain : Bytes → Type 0
AllPlain [] = Unit {0}
AllPlain (b ∷ s) = (is_plain_byte b ≡ true) × AllPlain s

-- The path that the options of client and server come to.
abbrev pub path_or_default : Bytes → Bytes
path_or_default path = if eq path [] then default_rpc_path else path

method_read : (path : Bytes) → before_space (first_line (connect_request path)) ≡ text "CONNECT"
unfolding before_space first_line connect_request
method_read path = refl

first_line-path :
    (path : Bytes)
    → AllPlain path
    → first_line (path ++ text " HTTP/1.0" ++ 10 ∷ 10 ∷ []) ≡ path ++ text " HTTP/1.0"
unfolding first_line
first_line-path [] h = refl
first_line-path (b ∷ s) (p, h) =
    rw (no_end.0, no_end.1, first_line) (ap (◌∷◌ b) (first_line-path s h))
  where
    no_end : ((b == 10) ≡ false) × ((b == 13) ≡ false)
    no_end = ground (arith, p)

before_space-path : (path : Bytes) → AllPlain path → before_space (path ++ text " HTTP/1.0") ≡ path
unfolding before_space
before_space-path [] h = refl
before_space-path (b ∷ s) (p, h) = rw (no_space, before_space) (ap (◌∷◌ b) (before_space-path s h))
  where
    no_space : (b == b' ') ≡ false
    no_space = ground (arith, p)

path_read : (path : Bytes) → AllPlain path → path_of (connect_request path) ≡ path
unfolding connect_request after_space first_line
path_read path h = ap before_space (first_line-path path h) ∙ before_space-path path h

status_read : read_status (some (text "HTTP/1.0 " ++ connected ++ 10 ∷ 10 ∷ [])) ≡ ok connected
unfolding read_status
status_read = refl

-- The client's handshake over HTTP succeeds against a server that serves HTTP under the same
-- RpcPath, the default one included: for every address newHttpConn returns the connection that it
-- dialled and closes none. Conditions: the server handles with ServeHTTP the path that serve gave
-- to http.Handle, and no other; the path has no space, line end, question mark or per cent sign;
-- dialling succeeds, the server can take the connection over, and what it writes for that path is
-- what comes back.
pub new_http_conn-serve_http :
    (d : Dialling) (o : Options) (hijack : Result ℕ) (active : List ℕ) (address handled : Bytes)
    (conn taken ln : ℕ)
    → Serves d hijack active handled
    → serve_http_listener ln o.rpc_path ≡ over_http ln handled
    → AllPlain (path_or_default o.rpc_path)
    → hijack ≡ ok taken
    → d.tcp (text "tcp") address o.conn_timeout ≡ ok conn
    → new_http_conn d o address ≡ (ok conn, [])
unfolding new_http_conn
new_http_conn-serve_http d o hijack active address handled conn taken ln s same plain h t =
    rw (t, new_http_conn) (rw (accepted, new_http_conn) (unfold eq in refl))
  where
    p : Bytes
    p = path_or_default o.rpc_path

    served :
        serve_http hijack (before_space (first_line (connect_request p))) active
        ≡ serves taken (text "HTTP/1.0 " ++ connected ++ 10 ∷ 10 ∷ []) (taken ∷ active)
    served = unfold serve_http eq in rw (method_read p, h, serve_http) refl

    handles : (a b : Bytes) → over_http ln a ≡ over_http ln b → a ≡ b
    handles a b e = cc

    agreed : p ≡ handled
    agreed = unfold serve_http_listener in handles _ _ same

    accepted : read_status (d.answer_to conn (connect_request p)) ≡ ok connected
    accepted =
        ap read_status (s conn taken (connect_request p) _ _ (path_read p plain ∙ agreed) served)
        ∙ status_read

-- The servers of a list of pairs: the last one under a key counts.
abbrev pub last_of : Bytes → List Pair → Option Bytes → Option Bytes
last_of k [] found = found
last_of k (p ∷ pairs) found = last_of k pairs (if eq p.key k then some p.value else found)

fill_servers-last_of :
    (k : Bytes) (pairs : List Pair) (servers : Dict Bytes)
    → lookup k (fill_servers pairs servers) ≡ last_of k pairs (lookup k servers)
unfolding fill_servers
fill_servers-last_of k [] servers = refl
fill_servers-last_of k (p ∷ pairs) servers =
    fill_servers-last_of k pairs (insert p.key p.value servers)
    ∙ ap (last_of k pairs) (lookup-insert p.key k p.value servers)

servers_of-last_of :
    (k : Bytes) (pairs : List Pair) → lookup k (servers_of pairs) ≡ last_of k pairs none
unfolding servers_of lookup
servers_of-last_of k pairs = fill_servers-last_of k pairs []
