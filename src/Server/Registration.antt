-- ===== src/Server/Registration.antt =====
-- How services come to a server and to its registry: Register, RegisterWithName and RegisterWithMeta of
-- server/service.go, and Registry of server/server_registry.go.
pub mod Announced
use frpc.Base.{ℕ, List, [], ◌∷◌, ◌++◌, Option, none, some}
use frpc.Base.Bytes.{Bytes}
use frpc.Base.Dict.{Dict}
use frpc.Registry.Modes.{Registry, registry_of, register_with, start_registry}
use frpc.Registry.Register.{Store}
use frpc.Server.Controller.{Controller, register_all}
use frpc.Server.Service.{Method, Service, register}

-- `C` is the state of the controllers, `S` that of the store.
pub record Registration (W C : Type 0) : Type 0 where
  pub services : Dict (Service W)
  pub service_address : Bytes
  pub registry : Option Registry
  pub controllers : List (Controller C)
  pub state : C

-- newServer: no services, no registry, no controllers.
unfoldable pub new_registration : {W C : Type 0} → C → Registration W C
new_registration state = record {
  services = [];
  service_address = [];
  registry = none;
  controllers = [];
  state = state;
}

-- Metric, Trace and RateLimit.
unfoldable pub add_controller : {W C : Type 0} → Controller C → Registration W C → Registration W C
add_controller c r = record r { controllers = r.controllers ++ (c ∷ []) }

module _ {S : Type 0} (store : Store S) where
  -- The first statement of RegisterWithMeta; the error of the registry is dropped.
  unfoldable pub announce : Bytes → Bytes → Option Registry → S → Option Registry × S
  unfolding register_with
  announce name metadata none s = (none, s)
  announce name metadata (some registry) s =
      let (registry', s', e) = register_with store name metadata registry s in (some registry', s')

module _ {W C S : Type 0} (store : Store S) where
  -- Registry: NewRegistry and Start, whose error is dropped. `none` is a panic, as for a mode that has no
  -- registry.
  unfoldable pub set_registry :
      ℕ → Bytes → Bytes → ℕ → Registration W C → S → Option (Registration W C × S)
  unfolding registry_of start_registry
  set_registry mode base_path service_address interval r s =
      elim (registry_of mode base_path service_address interval) [
        | none ↦ none
        | some registry ↦ elim (start_registry store registry s) [
          | none ↦ none
          | some (started, s', e, ticks) ↦
              some (record r { service_address = service_address; registry = some started }, s')
        ]
      ]

  -- RegisterWithMeta, for a value whose type is `typ` and has the methods `ms`.
  unfoldable pub register_with_meta :
      Bytes
      → List (Method W)
      → Bytes
      → Bytes
      → Registration W C
      → S
      → Option Bytes × Registration W C × S
  unfolding announce register_all register
  register_with_meta typ ms name metadata r s =
      let (registry, s') = announce store name metadata r.registry s in
      let (errors, state) = register_all r.controllers name metadata r.state in
      let (failure, services) = register typ name ms r.services in
      (failure, record r { services = services; registry = registry; state = state }, s')

  unfoldable pub register_with_name :
      Bytes → List (Method W) → Bytes → Registration W C → S → Option Bytes × Registration W C × S
  unfolding register_with_meta
  register_with_name typ ms name r s = register_with_meta typ ms name [] r s

  -- Register, where `own` is the name of the type behind a pointer.
  unfoldable pub register_own :
      Bytes → List (Method W) → Bytes → Registration W C → S → Option Bytes × Registration W C × S
  unfolding register_with_meta
  register_own typ ms own r s = register_with_meta typ ms own [] r s
