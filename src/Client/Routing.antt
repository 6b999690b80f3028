-- ===== src/Client/Routing.antt =====
-- How a client comes to the servers that it calls: Discovery and watch of client/client_registry.go,
-- Selector of client/client_controller.go, and the choice that selectClient of client/client.go makes.
pub mod Stale
pub mod Found
use frpc.Base.{List, [], ◌∷◌, Option, none, some}
use frpc.Base.Bytes.{Bytes}
use frpc.Base.Dict.{Dict}
use frpc.Client.Connect.{servers_of}
use frpc.Registry.{Pair}
use frpc.Selector.Modes.{Sources, SelectMode, Selector, new_selector, select}

-- The servers of registryClient, `none` for a nil map, and the selector of controllerClient.
pub record Routing : Type 0 where
  pub servers : Option (Dict Bytes)
  pub selector : Option Selector

-- Discovery, for the servers that the discovery has.
unfoldable pub discover : List Pair → Routing → Routing
discover pairs r = record r { servers = some (servers_of pairs) }

-- Selector; a nil map is logged, and ranges like an empty one. `none` is a panic of NewSelector.
unfoldable pub choose_selector : Sources → SelectMode → Routing → Option Routing
choose_selector o mode r =
    elim (new_selector o mode (elim r.servers [ none ↦ [] | some servers ↦ servers ])) [
      | none ↦ none
      | some s ↦ some (record r { selector = some s })
    ]

-- A round of watch.
unfoldable pub hear : List Pair → Routing → Routing
hear pairs r = record r { servers = some (servers_of pairs) }

-- Select in selectClient; without a selector Call returns before it.
unfoldable pub choose : Sources → Bytes → Bytes → Bytes → Routing → Option Bytes × Routing
choose o path method args r = elim r.selector [
  | none ↦ (none, r)
  | some s ↦
      let (server, s') = select o path method args s in (server, record r { selector = some s' })
]

-- The registry reports the servers, or a call chooses one.
pub data Event : Type 0 where
  hears : List Pair → Event
  asks : Bytes → Bytes → Bytes → Event

-- The servers that the calls chose, and the client afterwards.
unfoldable pub run : Sources → List Event → Routing → List (Option Bytes) × Routing
unfolding hear choose
run o [] r = ([], r)
run o (hears pairs ∷ es) r = run o es (hear pairs r)
run o (asks path method args ∷ es) r =
    let (server, r') = choose o path method args r in
    let (servers, r'') = run o es r' in (server ∷ servers, r'')
