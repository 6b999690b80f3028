-- ===== src/Examples/Registers.antt =====
-- A registry and a discovery over a store that is a map.
use mathlib.Core.List.{Mem, Memᴰ}
use frpc.Base.{
  ◌≡◌, ◌≢◌, refl, sym, ap, subst, true, false, List, [], ◌∷◌, ◌++◌, none, some, map, inl, inr,
  Bool-cases,
}
use frpc.Base.Bytes.{Bytes, text, eq, eq_iff}
use frpc.Base.Dict.{Dict, lookup, insert, lookup-insert}
use frpc.Registry.{
  Pair, Discovery, new_discovery, normal_path, without_slash, relative, trim_prefix, behind,
}
use frpc.Base.{◌+◌, arith}
use frpc.Base.Int.{pos}
use frpc.Client.Connect.{servers_of, fill_servers}
use frpc.Client.Routing.{Routing, hears, asks, run, choose_selector, discover}
use frpc.Client.Routing.Stale.{last_heard, run-stale}
use frpc.Client.Routing.Found.{asking, registered-found}
use frpc.Registry.Modes.{etcd_registry}
use frpc.Server.Registration.{Registration, register_with_meta}
use frpc.Server.Registration.Announced.{register_with_meta-announced}
use frpc.Server.Service.{suitable_methods, suitable_loop}
use frpc.Selector.Hash.Jump.{Forward}
use frpc.Selector.Modes.{Sources, SelectMode, random_selector, round_robin_selector, new_selector}
use frpc.Selector.Modes.Picks.{AllPicked}
use frpc.Selector.Plain.{names, new_round_robin}
use frpc.Registry.Register.{
  Store, Registrar, etcd_register, blank, one_of, connect, not_a_directory, write_node,
  service_path, node_path, tick,
}
use frpc.Registry.Register.Nodes.{
  absolute, IsClean, Lists, etcd_register-Listed, etcd_register-misplaced,
}
use frpc.Registry.Register.Ticks.{Keeps, restored, tick_restores}
use frpc.Registry.Watch.{forever, limited, channel, given_up, try_watch, watch, waiting}
use frpc.Registry.Watch.Rounds.{
  Round, as_round, all_changes, apply_changes, watch-apply_changes, pauses_of, try_watch-pauses_of,
}

abbrev nodes_of : Dict Bytes → List Pair
nodes_of [] = []
nodes_of ((k, v) ∷ s) = record { key = k; value = v } ∷ nodes_of s

-- It keeps every node under its path from the root and lists them all, and no call fails.
abbrev store : Store (Dict Bytes)
store = record {
  new_store = λ s. none;
  put = λ o k v s. (insert (absolute k) v s, none);
  get = λ k s. lookup (absolute k) s;
  list = λ dir s. nodes_of s;
  retag = λ v. v ++ text "&tps=";
}

inserted :
    (k v : Bytes) (s : Dict Bytes) → Memᴰ (record { key = k; value = v }) (nodes_of (insert k v s))
unfolding insert
inserted k v [] = Memᴰ.head refl
inserted k v ((j, w) ∷ s) = elim (Bool-cases (eq j k)) [
  | inl e ↦ rw (e, insert) (Memᴰ.head refl)
  | inr e ↦ rw (e, insert) (Memᴰ.tail (inserted k v s))
]

store-Lists : Lists store
store-Lists n dir leaf v s s' clean flat e =
    subst (λ x. Mem (record { key = absolute (dir ++ text "/" ++ leaf); value = v }) (nodes_of x))
      (ap (λ p. p.0) e) ∣ inserted (absolute (dir ++ text "/" ++ leaf)) v s ∣₁

-- The keys as they are written.
abbrev plain_store : Store (Dict Bytes)
plain_store = record store { put = λ o k v s. (insert k v s, none); get = λ k s. lookup k s }

store-Keeps : Keeps plain_store
store-Keeps = record {
  put_back = λ o k v s. rw (lookup-insert k k v s) (rw ((eq_iff k k).1 refl) refl);
  others = λ o k j v s n. rw (lookup-insert k j v s) (rw (apart k j n) refl);
}
  where
    apart : (k j : Bytes) → j ≢ k → eq k j ≡ false
    apart k j n = elim (Bool-cases (eq k j)) [
      | inl e ↦ absurd (n (sym ((eq_iff k j).0 e)))
      | inr e ↦ e
    ]

abbrev fresh : Registrar
fresh = record {
  service_address = text "tcp@a:1";
  base_path = text "/frpc";
  services = [];
  metas = [];
  update_interval = 60;
  connected = true;
}

abbrev registered : Registrar
registered = record fresh {
  services = text "Arith" ∷ [];
  metas = (text "Arith", text "weight=2") ∷ [];
}

arith-IsClean : IsClean (node_path fresh (text "Arith"))
unfolding node_path
arith-IsClean = refl

arith_plain : without_slash (service_path fresh (text "Arith")) ≡ none
unfolding service_path without_slash
arith_plain = refl

etcd_register-Listed_example :
    let end = etcd_register store (text "Arith") (text "weight=2") fresh [] in
    let path = service_path fresh (text "Arith") in
    Mem
      (record { key = text "tcp@a:1"; value = text "weight=2" })
      (new_discovery path (store.list (normal_path path) end.1)).pairs
unfolding etcd_register blank one_of connect not_a_directory write_node service_path node_path
    insert eq
etcd_register-Listed_example =
    etcd_register-Listed store store-Lists (text "Arith") (text "weight=2") fresh arith_plain
      arith-IsClean refl (text "frpc") [] refl refl

tick_restores_example :
    plain_store.get (node_path registered (text "Arith")) (tick plain_store registered [])
    ≡ some (restored plain_store registered (text "Arith") none)
unfolding lookup
tick_restores_example =
    tick_restores plain_store store-Keeps registered (text "Arith") [] (inl (refl, tt))

abbrev discovery : Discovery
discovery = record { base_path = text "/frpc/Arith"; pairs = []; chans = 1 ∷ []; sent = [] }

abbrev rounds : List Round
rounds =
    record {
      failures = text "no" ∷ [];
      changes = (record { key = text "/frpc/Arith/tcp@a:1"; value = [] } ∷ []) ∷ [];
    }
    ∷ record { failures = []; changes = [] ∷ [] }
    ∷ []

watch-apply_changes_example :
    watch forever (map as_round rounds) discovery
    ≡ (apply_changes (all_changes rounds) discovery, waiting)
watch-apply_changes_example = watch-apply_changes rounds discovery

try_watch-pauses_of_example :
    (try_watch forever 0 none (some (text "x") ∷ some (text "y") ∷ none ∷ [])
      ≡ (pauses_of 0 2, channel))
    × (try_watch (limited 3) 0 none (some (text "x") ∷ some (text "y") ∷ some (text "z") ∷ [])
        ≡ (pauses_of 0 3, given_up (text "z")))
try_watch-pauses_of_example = try_watch-pauses_of (text "x" ∷ text "y" ∷ []) (text "z") []

-- A client of that registry: one server, and later another one that its selector never sees.
abbrev sources : Sources
sources = record {
  uint32n = λ n. 0;
  weight_of = λ m. none;
  jump = λ b k. b + 1;
  rtt_of = λ m. pos 0;
}

sources-Forward : Forward sources.jump
sources-Forward b k p q = omega arith

abbrev unset : Routing
unset = record { servers = none; selector = none }

abbrev one_server : List Pair
one_server = record { key = text "tcp@a:1"; value = [] } ∷ []

abbrev chosen : Routing
chosen = record {
  servers = some ((text "tcp@a:1", []) ∷ []);
  selector = some (random_selector (text "tcp@a:1" ∷ []));
}

run-stale_example :
    let es = hears (record { key = text "tcp@b:2"; value = [] } ∷ []) ∷ asks [] [] [] ∷ [] in
    AllPicked sources (names (servers_of one_server)) (run sources es chosen).0
    × ((run sources es chosen).1.servers ≡ last_heard es (some (servers_of one_server)))
run-stale_example =
    run-stale sources sources-Forward (λ n p. p) SelectMode.random one_server
      (hears (record { key = text "tcp@b:2"; value = [] } ∷ []) ∷ asks [] [] [] ∷ []) unset chosen
      (unfold choose_selector discover servers_of fill_servers new_selector names insert in refl)

-- What the discovery has once the server has registered, and a client that asks it.
abbrev listed : List Pair
listed =
    (new_discovery (service_path fresh (text "Arith")) (
      store.list (normal_path (service_path fresh (text "Arith")))
        (etcd_register store (text "Arith") (text "weight=2") fresh []).1)).pairs

abbrev asker : Routing
asker = record {
  servers = some (servers_of listed);
  selector = some (round_robin_selector (new_round_robin (servers_of listed)));
}

abbrev requests : List (Bytes × Bytes × Bytes)
requests = ([], [], []) ∷ ([], [], []) ∷ ([], [], []) ∷ []

registered-found_example : Mem (some (text "tcp@a:1")) (run sources (asking requests) asker).0
unfolding etcd_register blank one_of connect not_a_directory write_node service_path node_path
    insert eq
registered-found_example =
    registered-found store store-Lists (text "Arith") (text "weight=2") fresh (text "frpc") refl
      arith_plain arith-IsClean refl sources [] unset asker requests refl
      (unfold choose_selector discover new_selector in refl)
      (unfold new_discovery normal_path without_slash relative trim_prefix behind servers_of
          fill_servers names in
        refl)

-- A server that registers a type without methods.
abbrev registration : Registration Bytes Bytes
registration = record {
  services = [];
  service_address = text "tcp@a:1";
  registry = some (etcd_registry fresh);
  controllers = [];
  state = [];
}

register_with_meta-announced_example :
    let (failure, y, t) =
      register_with_meta store
        (text "*Arith")
        []
        (text "Arith")
        (text "weight=2")
        registration
        [] in
    let path = service_path fresh (text "Arith") in
    (failure ≢ none)
    × (y.services ≡ registration.services)
    × Mem
        (record { key = text "tcp@a:1"; value = text "weight=2" })
        (new_discovery path (store.list (normal_path path) t)).pairs
unfolding etcd_register blank one_of connect not_a_directory write_node service_path node_path
    insert eq
register_with_meta-announced_example =
    register_with_meta-announced store store-Lists (text "Arith") (text "weight=2") fresh
      (text "frpc") refl arith_plain arith-IsClean refl (text "*Arith") [] registration [] refl refl
      (unfold suitable_methods suitable_loop in refl)

-- A registrar as the comment of EtcdRegister gives its base path.
abbrev relative_registrar : Registrar
relative_registrar = record fresh { base_path = text "com/example/frpc" }

relative-IsClean : IsClean (node_path relative_registrar (text "Arith"))
unfolding node_path
relative-IsClean = refl

etcd_register-misplaced_example :
    let end = etcd_register store (text "Arith") (text "weight=2") relative_registrar [] in
    let path = service_path relative_registrar (text "Arith") in
    Mem
      (record { key = text "/com/example/frpc/Arith/tcp@a:1"; value = text "weight=2" })
      (new_discovery path (store.list (normal_path path) end.1)).pairs
unfolding etcd_register blank one_of connect not_a_directory write_node service_path node_path
    insert eq
etcd_register-misplaced_example =
    etcd_register-misplaced store store-Lists (text "Arith") (text "weight=2") relative_registrar
      (unfold service_path without_slash in refl) relative-IsClean refl b'c'
      (text "om/example/frpc") [] refl refl refl
