-- ===== src/Selector/Modes.antt =====
-- The interface Selector of selector/selector.go: NewSelector, and Select and UpdateServer of each
-- selector that it makes.
pub mod Among
pub mod Picks
use frpc.Base.{ℕ, zero, suc, List, [], ◌∷◌, Option, none, some, length, if◌then◌else◌, get_elem?}
use frpc.Base.Int.{ℤ, pos}
use frpc.Base.Bytes.{Bytes}
use frpc.Base.Dict.{Dict}
use frpc.Client.Failmode.{split_at}
use frpc.Selector.Weight.{Weighted, next_weighted}
use frpc.Selector.Plain.{
  names, RoundRobin, new_round_robin, update_round_robin, next_server, random_server,
  create_weighted,
}
use frpc.Selector.Ping.{calculate_weight}
use frpc.Selector.Hash.{hash_servers, hash_select}

-- core.SelectMode
pub data SelectMode : Type 0 where
  random round_robin weighted hash ping closest : SelectMode

-- Random numbers, the weight that the metadata give, the step of the jump hash, and the time of a ping.
pub record Sources : Type 0 where
  pub uint32n : ℕ → ℕ
  pub weight_of : Bytes → Option ℤ
  pub jump : ℕ → ℕ → ℕ
  pub rtt_of : Bytes → ℤ

pub data Selector : Type 0 where
  random_selector : List Bytes → Selector
  round_robin_selector : RoundRobin → Selector
  weighted_selector : List (Option Weighted) → Selector
  hash_selector : List Bytes → Selector
  ping_selector : List (Option Weighted) → Selector

-- strings.Split(k, "@")[1]; `none` is the panic for a server without "@".
unfoldable pub host_part : Bytes → Option Bytes
unfolding split_at
host_part k = elim (split_at [] k) [
  | none ↦ none
  | some (network, rest) ↦ elim (split_at [] rest) [
    | none ↦ some rest
    | some (host, more) ↦ some host
  ]
]

-- createICMPWeighted
unfoldable pub create_icmp_weighted : (Bytes → ℤ) → Dict Bytes → Option (List (Option Weighted))
unfolding host_part calculate_weight
create_icmp_weighted rtt_of [] = some []
create_icmp_weighted rtt_of ((k, metadata) ∷ servers) =
    let rest = create_icmp_weighted rtt_of servers in
    elim (host_part k) [
      | none ↦ none
      | some host ↦
          let w : ℤ = pos (calculate_weight (rtt_of host)) in
          elim rest [
            | none ↦ none
            | some ws ↦
                some (some (record { server = k; weight = w; current = pos 0; effective = w }) ∷ ws)
          ]
    ]

unfoldable pub new_ping_selector : (Bytes → ℤ) → Dict Bytes → Option Selector
unfolding create_icmp_weighted
new_ping_selector rtt_of servers = elim (create_icmp_weighted rtt_of servers) [
  | none ↦ none
  | some ws ↦ some (ping_selector ws)
]

-- NewSelector; `none` is a panic.
unfoldable pub new_selector : Sources → SelectMode → Dict Bytes → Option Selector
unfolding names new_round_robin create_weighted hash_servers new_ping_selector
new_selector o random servers = some (random_selector (names servers))
new_selector o round_robin servers = some (round_robin_selector (new_round_robin servers))
new_selector o weighted servers = some (weighted_selector (create_weighted o.weight_of servers))
new_selector o hash servers = some (hash_selector (hash_servers servers))
new_selector o ping servers = new_ping_selector o.rtt_of servers
new_selector o closest servers = some (random_selector (names servers))

-- w.Server of the server that was chosen; `none` is a panic.
unfoldable pub server_at : List (Option Weighted) → ℕ → Option Bytes
server_at [] i = none
server_at (none ∷ ws) zero = none
server_at (some w ∷ ws) zero = some w.server
server_at (w ∷ ws) (suc i) = server_at ws i

-- Select of the weighted and of the ping selector.
unfoldable pub select_weighted : List (Option Weighted) → Option Bytes × List (Option Weighted)
unfolding next_weighted server_at
select_weighted [] = (some [], [])
select_weighted (w ∷ ws) =
    let (best, ws') = next_weighted (w ∷ ws) in
    ((elim best as (λ _. Option Bytes) [ none ↦ some [] | some i ↦ server_at ws' i ]), ws')

-- Select, for a path, a method and the text of the arguments; `none` is a panic.
unfoldable pub select : Sources → Bytes → Bytes → Bytes → Selector → Option Bytes × Selector
unfolding random_server next_server select_weighted hash_select
select o path method args (random_selector ss) = (random_server o.uint32n ss, random_selector ss)
select o path method args (round_robin_selector s) =
    let (server, s') = next_server s in (server, round_robin_selector s')
select o path method args (weighted_selector ws) =
    let (server, ws') = select_weighted ws in (server, weighted_selector ws')
select o path method args (hash_selector ss) =
    (hash_select o.jump ss path method args, hash_selector ss)
select o path method args (ping_selector ws) =
    let (server, ws') = select_weighted ws in (server, ping_selector ws')

unfoldable pub update_server : Sources → Dict Bytes → Selector → Option Selector
unfolding names update_round_robin create_weighted hash_servers new_ping_selector
update_server o servers (random_selector ss) = some (random_selector (names servers))
update_server o servers (round_robin_selector s) =
    some (round_robin_selector (update_round_robin servers s))
update_server o servers (weighted_selector ws) =
    some (weighted_selector (create_weighted o.weight_of servers))
update_server o servers (hash_selector ss) = some (hash_selector (hash_servers servers))
update_server o servers (ping_selector ws) = new_ping_selector o.rtt_of servers
