-- ===== src/Examples/Selectors.antt =====
-- The hash selector, the rate limit and the handshake over HTTP on small inputs.
use native.Mathlib.Nat.{div-add-mod, mod-lt, mul-le-mul_left}
use frpc.Base.{
  none, zero, suc, ◌<◌, ◌%◌, inl, inr, Bool-cases, ap, ℕ, ◌+◌, ◌-◌, ◌*◌, ◌/◌, ◌^◌, ◌≤◌, ◌≡◌, true,
  ◌⊎◌, refl, List, [], ◌∷◌, ◌++◌, some, arith, length, ltb, if◌then◌else◌,
}
use frpc.Base.Bytes.{Bytes, text, eq}
use frpc.Client.Call.{ok, err}
use frpc.Client.Connect.{before_space, first_line, Dialling, new_http_conn}
use frpc.Client.Option.{Setter, apply, apply_all, new_client}
use frpc.Client.Connect.{connect, dial_network, connected_by, new_direct_conn}
use frpc.Client.Connect.Deadline.{connect-read_deadline}
use frpc.Client.Connect.Handshake.{Serves, new_http_conn-serve_http}
use frpc.Server.Http.{
  default_rpc_path, serve_http_listener, serves, not_allowed, serve_http, connected,
}
use frpc.Server.Controllers.{rate_limit}
use frpc.Server.Controllers.Limit.{admitted_of, Drains, admitted_of-rate_limit}
use frpc.Base.Int.{pos}
use frpc.Base.Dict.{Dict}
use frpc.Selector.Plain.{names}
use frpc.Selector.Modes.{Sources, hash, hash_selector, new_selector, update_server, select}
use frpc.Selector.Modes.Picks.{picks, AllPicked, new_selector-AllPicked}
use frpc.Selector.Hash.{hash_select, hash_servers}
use frpc.Selector.Hash.Jump.{Forward, hash_select_consistent}

-- A step in whole numbers.
abbrev jump : ℕ → ℕ → ℕ
jump b k = b * (2 ^ 31 / k)

jump-Forward : Forward jump
jump-Forward b k low high = omega (
  arith,
  mul-le-mul_left b (
      positive (2 ^ 31 / k) (2 ^ 31 % k) k low high (div-add-mod (2 ^ 31) k) (mod-lt (2 ^ 31) low)),
)
  where
    positive : (q r k : ℕ) → 1 ≤ k → k ≤ 2 ^ 31 → k * q + r ≡ 2 ^ 31 → r < k → 1 ≤ q
    positive zero r k low high e l = absurd (omega (arith, e, l, high))
    positive (suc q) r k low high e l = omega arith

abbrev servers : List Bytes
servers = text "tcp@a:1" ∷ text "tcp@b:1" ∷ []

hash_select_consistent_example :
    (hash_select jump (servers ++ (text "tcp@c:1" ∷ [])) (text "Arith") (text "Add") []
      ≡ hash_select jump servers (text "Arith") (text "Add") [])
    ⊎ (hash_select jump (servers ++ (text "tcp@c:1" ∷ [])) (text "Arith") (text "Add") []
        ≡ some (text "tcp@c:1"))
hash_select_consistent_example =
    hash_select_consistent jump jump-Forward servers (text "Arith") (text "Add") [] (text "tcp@c:1")
      (omega arith)

-- A bucket of tokens.
abbrev take_tokens : ℕ → ℕ → ℕ × ℕ
take_tokens n s = if ltb s n then (s, 0) else (n, s - n)

take_tokens-Drains : Drains (λ s. s) take_tokens
take_tokens-Drains n s = ground arith

admitted_of-rate_limit_example :
    length (admitted_of (rate_limit take_tokens ∷ []) (7 ∷ 8 ∷ 9 ∷ []) 2).0
      + (admitted_of (rate_limit take_tokens ∷ []) (7 ∷ 8 ∷ 9 ∷ []) 2).1
    ≤ 2
admitted_of-rate_limit_example =
    admitted_of-rate_limit (λ s. s) take_tokens (7 ∷ 8 ∷ 9 ∷ []) 2 take_tokens-Drains

-- A server that takes the connection 5 over.
abbrev dialling : Dialling
dialling = record {
  tcp = λ network address timeout. ok 3;
  kcp = λ address. err [];
  quic = λ verified address. err [];
  answer_to = λ conn sent. some (text "HTTP/1.0 " ++ connected ++ 10 ∷ 10 ∷ []);
}

dialling-Serves : Serves dialling (ok 5) [] default_rpc_path
unfolding serve_http
dialling-Serves conn taken sent b active' p e =
    elim (Bool-cases (eq (before_space (first_line sent)) (text "CONNECT"))) [
      | inl same ↦ ap some (written (rw same at e))
      | inr other ↦ absurd (refused (rw other at e))
    ]
  where
    written :
        serves 5 (text "HTTP/1.0 " ++ connected ++ 10 ∷ 10 ∷ []) (5 ∷ []) ≡ serves taken b active'
        → text "HTTP/1.0 " ++ connected ++ 10 ∷ 10 ∷ [] ≡ b
    written x = cc

    refused : not_allowed (text "405 must CONNECT" ++ 10 ∷ []) ≡ serves taken b active' → ⊥
    refused x = cc

new_http_conn-serve_http_example : new_http_conn dialling new_client (text "a:1") ≡ (ok 3, [])
new_http_conn-serve_http_example =
    new_http_conn-serve_http dialling new_client (ok 5) [] (text "a:1") default_rpc_path 3 5 7
      dialling-Serves (unfold serve_http_listener new_client apply_all apply eq in refl)
      (unfold new_client apply_all apply eq in
        (refl, (refl, (refl, (refl, (refl, (refl, (refl, tt))))))))
      refl refl

connect-read_deadline_example :
    (connected_by (apply_all (Setter.retries 5 ∷ []) new_client) (ok 3, [])).read_deadline ≡ true
connect-read_deadline_example =
    connect-read_deadline dialling (Setter.retries 5 ∷ []) (text "tcp") (text "a:1")
      (connected_by (apply_all (Setter.retries 5 ∷ []) new_client) (ok 3, [])) 3 tt
      (unfold connect dial_network new_direct_conn eq in refl) (unfold connected_by in refl)

abbrev sources : Sources
sources = record {
  uint32n = λ n. 0;
  weight_of = λ metadata. none;
  jump = jump;
  rtt_of = λ host. pos 20;
}

abbrev two_servers : Dict Bytes
two_servers = (text "tcp@a:1", []) ∷ (text "tcp@b:1", []) ∷ []

abbrev one_server : Dict Bytes
one_server = (text "tcp@c:1", []) ∷ []

abbrev requests : List (Bytes × Bytes × Bytes)
requests = (text "Arith", text "Add", []) ∷ (text "Arith", text "Mul", []) ∷ []

new_selector-AllPicked_example :
    AllPicked sources
      (names two_servers)
      (picks sources requests (hash_selector (names two_servers))).0
    × AllPicked sources
        (names one_server)
        (picks sources requests (hash_selector (names one_server))).0
unfolding new_selector update_server picks select hash_servers
new_selector-AllPicked_example =
    new_selector-AllPicked sources hash two_servers one_server requests requests
      (hash_selector (names two_servers)) (hash_selector (names one_server)) jump-Forward (λ n p. p)
      refl refl
