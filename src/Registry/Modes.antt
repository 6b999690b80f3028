-- ===== src/Registry/Modes.antt =====
-- The interfaces Registry and Discovery of registry/registry.go and registry/discovery.go, and how
-- a mode of core/mode.go chooses what stands behind them.
use frpc.Base.{ℕ, Bool, true, false, List, [], ◌∷◌, ◌++◌, Option, none, some, ◌==◌, if◌then◌else◌}
use frpc.Base.Bytes.{Bytes, text}
use frpc.Registry.{Pair, Discovery, new_discovery}
use frpc.Registry.Register.{
  Store, Registrar, new_registry, etcd_register, consul_register, etcd_start, consul_start,
}
use frpc.Registry.Watch.{consul_discovery}

-- core.RegistryMode
abbrev pub etcd : ℕ
etcd = 0

abbrev pub consul : ℕ
consul = 1

-- A value of the interface Registry that is not nil.
pub data Registry : Type 0 where
  etcd_registry : Registrar → Registry
  consul_registry : Registrar → Registry

unfoldable pub new_consul_registry : Bytes → Bytes → ℕ → Registrar
new_consul_registry base_path service_address interval = record {
  service_address = service_address;
  base_path = base_path;
  services = [];
  metas = [];
  update_interval = interval;
  connected = false;
}

-- NewRegistry; `none` is nil.
unfoldable pub registry_of : ℕ → Bytes → Bytes → ℕ → Option Registry
unfolding new_registry new_consul_registry
registry_of mode base_path service_address interval =
    if mode == etcd
    then some (etcd_registry (new_registry base_path service_address interval))
    else if mode == consul
    then some (consul_registry (new_consul_registry base_path service_address interval))
    else none

module _ {S : Type 0} (store : Store S) where
  unfoldable pub register_with : Bytes → Bytes → Registry → S → Registry × S × Option Bytes
  unfolding etcd_register consul_register
  register_with name metadata (etcd_registry r) s =
      let (r', s', e) = etcd_register store name metadata r s in (etcd_registry r', s', e)
  register_with name metadata (consul_registry r) s =
      let (r', s', e) = consul_register store name metadata r s in (consul_registry r', s', e)

  -- Start; `none` is a panic.
  unfoldable pub start_registry : Registry → S → Option (Registry × S × Option Bytes × Bool)
  unfolding etcd_start consul_start
  start_registry (etcd_registry r) s =
      let (r', s', e, ticks) = etcd_start store r s in some (etcd_registry r', s', e, ticks)
  start_registry (consul_registry r) s = elim (consul_start store r s) [
    | none ↦ none
    | some (r', s', e, ticks) ↦ some (consul_registry r', s', e, ticks)
  ]

-- NewEtcdDiscovery with NewEtcdDiscoveryOption: `failure` is the error of libkv.NewStore, `kv` what
-- List gives; `none` is a panic.
unfoldable pub new_etcd_discovery : Option Bytes → List Pair → Bytes → Bytes → Option Discovery
unfolding new_discovery
new_etcd_discovery (some e) kv base_path service_path = none
new_etcd_discovery none kv base_path service_path =
    some (new_discovery (base_path ++ text "/" ++ service_path) kv)

unfoldable pub new_consul_discovery : Option Bytes → List Pair → Bytes → Bytes → Option Discovery
unfolding consul_discovery
new_consul_discovery (some e) kv base_path service_path = none
new_consul_discovery none kv base_path service_path =
    consul_discovery (base_path ++ text "/" ++ service_path) kv

-- NewDiscovery: a panic is `none`, nil is `some none`.
unfoldable pub discovery_of :
    ℕ → Option Bytes → List Pair → Bytes → Bytes → Option (Option Discovery)
unfolding new_etcd_discovery new_consul_discovery
discovery_of mode failure kv base_path service_path =
    if mode == etcd
    then elim (new_etcd_discovery failure kv base_path service_path) [
      | none ↦ none
      | some d ↦ some (some d)
    ]
    else if mode == consul
    then elim (new_consul_discovery failure kv base_path service_path) [
      | none ↦ none
      | some d ↦ some (some d)
    ]
    else some none

unfoldable pub get_services : Discovery → List Pair
get_services d = d.pairs

-- Close of the channel stopCh: closing it again panics, which is `none`.
unfoldable pub close_discovery : Bool → Option Bool
close_discovery stopped = if stopped then none else some true

-- The methods of ConsulDiscovery.
unfoldable pub consul_get_services : Discovery → List Pair
consul_get_services d = d.pairs

unfoldable pub consul_watch_service : ℕ → Discovery → Discovery
consul_watch_service ch d = record d { chans = d.chans ++ (ch ∷ []) }

-- The loop of RemoveWatcher with the channels kept so far.
unfoldable pub consul_keep : ℕ → List ℕ → List ℕ → List ℕ
consul_keep ch [] chans = chans
consul_keep ch (c ∷ cs) chans = consul_keep ch cs (if c == ch then chans else chans ++ (c ∷ []))

unfoldable pub consul_remove_watcher : ℕ → Discovery → Discovery
unfolding consul_keep
consul_remove_watcher ch d = record d { chans = consul_keep ch d.chans [] }

unfoldable pub consul_close_discovery : Bool → Option Bool
consul_close_discovery stopped = if stopped then none else some true
