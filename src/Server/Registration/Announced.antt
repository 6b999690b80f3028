-- ===== src/Server/Registration/Announced.antt =====
-- What server/service.go announces in the registry.
use mathlib.Core.List.{Mem}
use frpc.Base.{
  true, ◌∷◌, ◌≡◌, ◌≢◌, refl, sym, subst, ap, ◌∙◌, List, [], none, some, Bool-cases, inl, inr,
}
use frpc.Base.Bytes.{Bytes, eq}
use frpc.Registry.{new_discovery, normal_path, without_slash}
use frpc.Registry.Modes.{etcd_registry, register_with}
use frpc.Registry.Register.{Store, Registrar, etcd_register, service_path, node_path}
use frpc.Registry.Register.Nodes.{Lists, IsClean, no_slash, etcd_register-Listed}
use frpc.Server.Service.{Method, suitable_methods, no_methods, register}
use frpc.Server.Registration.{Registration, announce, register_with_meta}

module _ {W C S : Type 0} (store : Store S) (lists : Lists store) (name metadata : Bytes)
    (r : Registrar) (rest : Bytes) (rooted : r.base_path ≡ b'/' ∷ rest)
    (plain : without_slash (service_path r name) ≡ none) (clean : IsClean (node_path r name))
    (flat : no_slash r.service_address ≡ true) where
  -- A service that the server does not have is announced all the same: RegisterWithMeta of a type
  -- without a suitable method gives an error and leaves the services as they are, but a discovery
  -- then lists the server under that name. Conditions: the registry is one over etcd whose
  -- Register reports no error; the store lists what was put without an error under its path from
  -- the root, where that path is clean (no segment empty or with a dot or an underscore in front)
  -- and its last segment has no slash; the base path starts with a slash, the path of the node is
  -- clean, the address of the server has no slash, and the name does not end in one.
  pub register_with_meta-announced :
      (typ : Bytes) (ms : List (Method W)) (x : Registration W C) (s : S) {r' : Registrar} {s' : S}
      → x.registry ≡ some (etcd_registry r)
      → etcd_register store name metadata r s ≡ (r', s', none)
      → suitable_methods ms ≡ []
      → let (failure, y, t) = register_with_meta store typ ms name metadata x s in
        let path = service_path r name in
        (failure ≢ none)
        × (y.services ≡ x.services)
        × Mem
            (record { key = r.service_address; value = metadata })
            (new_discovery path (store.list (normal_path path) t)).pairs
  unfolding register_with_meta
  register_with_meta-announced typ ms x s {r'} {s'} has e bad = (
    refused.0,
    refused.1,
    subst
        (λ (t : S).
          Mem (record { key = r.service_address; value = metadata })
            (new_discovery (service_path r name)
              (store.list (normal_path (service_path r name)) t)).pairs)
        (sym wrote)
        (etcd_register-Listed store lists name metadata r plain clean flat rest s rooted e),
  )
    where
      wrote : (announce store name metadata x.registry s).1 ≡ s'
      wrote =
          ap (λ o. (announce store name metadata o s).1) has
          ∙ unfold announce register_with in ap (λ p. p.1) e

      refused :
          ((register typ name ms x.services).0 ≢ none)
          × ((register typ name ms x.services).1 ≡ x.services)
      refused = elim (Bool-cases (eq name [])) [
        | inl q ↦ unfold register in rw (q, register) ((λ z. cc), refl)
        | inr q ↦ unfold register no_methods in rw (q, bad, register) ((λ z. cc), refl)
      ]
