-- ===== src/Server/Conn/Suitable.antt =====
-- The services while a connection is served: the loop of serveConn in server/server.go.
use frpc.Base.{ℕ, suc, length, List, [], ◌∷◌, Option, inl, inr, Bool-cases}
use frpc.Base.Bytes.{Bytes}
use frpc.Base.Dict.{Dict}
use frpc.Protocol.Header.{is_heartbeat}
use frpc.Protocol.Message.{Message}
use frpc.Client.Call.{Codec}
use frpc.Server.Service.{Method, Service, register}
use frpc.Server.Service.Suitable.{WellTyped, register-WellTyped, count_call-WellTyped}
use frpc.Server.Handle.{Server, handle_request, serve}
use frpc.Server.Conn.{read_requests, serve_all, serve_conn}

module _ {V : Type 0} where
  serve-WellTyped :
      (s : Server V) (c req : Message) → WellTyped s.services → WellTyped (serve s c req).1.services
  unfolding serve
  serve-WellTyped s c req h = elim (Bool-cases (is_heartbeat req.header)) [
    | inl e ↦ rw (e, serve) h
    | inr e ↦
        rw (e, serve)
          (elim (Bool-cases (handle_request s c req).called) [
            | inl f ↦
                rw (f, serve)
                  (count_call-WellTyped req.service_path req.service_method s.services h)
            | inr f ↦ rw (f, serve) h
          ])
  ]

  serve_all-WellTyped :
      (s : Server V) (c : Message) (reqs : List Message)
      → WellTyped s.services
      → WellTyped (serve_all s c reqs).1.services
  unfolding serve_all
  serve_all-WellTyped s c [] h = h
  serve_all-WellTyped s c (req ∷ reqs) h =
      serve_all-WellTyped (serve s c req).1 c reqs (serve-WellTyped s c req h)

  -- However a service is registered and whatever a connection then sends, every method that the
  -- server can call stands under its own name and has the signature of a service method: it is
  -- exported, has four arguments, of which the second is a context, the third an exported or
  -- built-in type and the fourth a pointer to one, and its one result is an error. Condition: this
  -- holds of the services registered before.
  pub serve_conn-WellTyped :
      (typ name : Bytes) (ms : List (Method V)) (services : Dict (Service V))
      (codecs : ℕ → Option (Codec V)) (max_length : ℕ) (c : Message) (r : Bytes)
      → WellTyped services
      → let s : Server V = record {
        services = (register typ name ms services).1;
        codecs = codecs;
      } in
        WellTyped (serve_conn max_length s c r).0.1.services
  unfolding serve_conn
  serve_conn-WellTyped typ name ms services codecs max_length c r h =
      serve_all-WellTyped (record { services = (register typ name ms services).1; codecs = codecs })
        c (read_requests (suc (length r)) max_length r).0
        (register-WellTyped typ name ms services h)
