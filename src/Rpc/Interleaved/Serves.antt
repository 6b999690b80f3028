-- ===== src/Rpc/Interleaved/Serves.antt =====
-- The answer of handleRequest in server/server.go does not depend on what was served before: only the
-- counters of the services change.
use frpc.Base.{
  ℕ, ◌+◌, ◌≡◌, refl, sym, ap, subst, ◌∙◌, inl, inr, false, [], ◌++◌, Option, none, some,
  Option-cases, Bool-cases,
}
use frpc.Base.Bytes.{Bytes, text, eq, eq_iff}
use frpc.Base.Dict.{Dict, lookup, insert, lookup-insert}
use frpc.Protocol.Header.{serialize_type, set_message_type, response, is_heartbeat}
use frpc.Protocol.Message.{Message, copy}
use frpc.Client.Call.{Codec}
use frpc.Server.Service.{Service, Method, MethodType, call, count_call}
use frpc.Server.Handle.{Server, Handled, decimal, give_up, invoke, handle_request, serve}

module _ {W : Type 0} where
  -- What the map of services says of a path and a method, without the counters.
  pub method_in : Bytes → Option (Service W) → Option (Option (Method W))
  method_in q none = none
  method_in q (some s) = some (elim (lookup q s.method) [ none ↦ none | some t ↦ some t.method ])

  abbrev method_at : Bytes → Bytes → Dict (Service W) → Option (Option (Method W))
  method_at p q services = method_in q (lookup p services)

  method_in-count :
      (b q : Bytes) (service : Service W) (t : MethodType W)
      → lookup b service.method ≡ some t
      → method_in q (
          some (record service {
            method = insert b (record t { num_calls = t.num_calls + 1 }) service.method;
          }))
        ≡ method_in q (some service)
  unfolding method_in
  method_in-count b q service t found = elim (Bool-cases (eq b q)) [
    | inl same ↦
        rw (lookup-insert b q (record t { num_calls = t.num_calls + 1 }) service.method, same)
          (subst
            (λ k.
              some (some t.method)
              ≡ some (elim (lookup k service.method) [ none ↦ none | some t ↦ some t.method ]))
            ((eq_iff b q).0 same) (rw found refl))
    | inr other ↦
        rw (lookup-insert b q (record t { num_calls = t.num_calls + 1 }) service.method, other) refl
  ]

  method_at-count_call :
      (a b p q : Bytes) (services : Dict (Service W))
      → method_at p q (count_call a b services) ≡ method_at p q services
  unfolding count_call
  method_at-count_call a b p q services = elim (Option-cases (lookup a services)) [
    | inl no_service ↦ rw (no_service, count_call) refl
    | inr (service, found) ↦ elim (Option-cases (lookup b service.method)) [
      | inl no_method ↦ rw (found, no_method, count_call) refl
      | inr (t, has) ↦ elim (Bool-cases (eq a p)) [
        | inr other ↦ rw (found, has, count_call) (rw (lookup-insert a p _ services, other) refl)
        | inl same ↦
            rw (found, has, count_call)
              (rw (lookup-insert a p _ services, same)
                (method_in-count b q service t has
                  ∙ ap (method_in q)
                      (sym found ∙ ap (λ k. lookup k services) ((eq_iff a p).0 same))))
      ]
    ]
  ]

  -- handleRequest with the method that the services have for it.
  handle_by : (ℕ → Option (Codec W)) → Option (Option (Method W)) → Message → Message → Handled
  handle_by codecs found c req =
      let copied = copy c req in
      let res = record copied { header = set_message_type response copied.header } in
      elim found [
        | none ↦ give_up res (text "frpc: can't find service " ++ res.service_path) [] false
        | some none ↦ give_up res (text "frpc: can't find method " ++ res.service_method) [] false
        | some (some f) ↦ elim (codecs (serialize_type req.header)) [
          | none ↦
              give_up res (text "can not find codec for " ++ decimal (serialize_type req.header)) []
                false
          | some codec ↦ invoke codec (record { method = f; num_calls = 0 }) req res
        ]
      ]

  handle_request-handle_by :
      (s : Server W) (c req : Message)
      → handle_request s c req
        ≡ handle_by s.codecs
            (method_at (copy c req).service_path (copy c req).service_method s.services)
            c
            req
  unfolding handle_request handle_by method_in
  handle_request-handle_by s c req =
      elim (Option-cases (lookup (copy c req).service_path s.services)) [
        | inl no_service ↦ rw (no_service, handle_request) refl
        | inr (service, found) ↦
            elim (Option-cases (lookup (copy c req).service_method service.method)) [
              | inl no_method ↦ rw (found, no_method, handle_request) refl
              | inr (t, has) ↦ elim (Option-cases (s.codecs (serialize_type req.header))) [
                | inl no_codec ↦ rw (found, has, no_codec, handle_request, handle_by) refl
                | inr (codec, known) ↦
                    rw (found, has, known, handle_request, handle_by) (unfold invoke call in refl)
              ]
            ]
      ]

  -- The same services, but for the counters.
  pub record Alike (s t : Server W) : Type 0 where
    pub codecs : s.codecs ≡ t.codecs
    pub methods : (p q : Bytes) → method_at p q s.services ≡ method_at p q t.services

  pub handle_request-Alike :
      (s t : Server W) (c req : Message)
      → Alike s t
      → handle_request s c req ≡ handle_request t c req
  handle_request-Alike s t c req h =
      handle_request-handle_by s c req
      ∙ ap
          (λ k.
            handle_by k (method_at (copy c req).service_path (copy c req).service_method s.services)
              c req)
          h.codecs
      ∙ ap (λ k. handle_by t.codecs k c req)
          (h.methods (copy c req).service_path (copy c req).service_method)
      ∙ sym (handle_request-handle_by t c req)

  -- After a request was served the server is as before, but for the counters.
  pub serve-Alike : (s : Server W) (c req : Message) → Alike (serve s c req).1 s
  unfolding serve
  serve-Alike s c req = elim (Bool-cases (is_heartbeat req.header)) [
    | inl beat ↦ rw (beat, serve) (record { codecs = refl; methods = λ p q. refl })
    | inr plain ↦ elim (Bool-cases (handle_request s c req).called) [
      | inl called ↦
          rw (plain, called, serve)
            (record {
              codecs = refl;
              methods =
                  λ p q. method_at-count_call req.service_path req.service_method p q s.services;
            })
      | inr refused ↦ rw (plain, refused, serve) (record { codecs = refl; methods = λ p q. refl })
    ]
  ]
