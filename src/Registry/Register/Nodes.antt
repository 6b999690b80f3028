-- ===== src/Registry/Register/Nodes.antt =====
-- What registering in registry/registry_etcd.go and registry/registry_consul.go leaves in the store,
-- and what the discoveries read of it.
use frpc.Base.{
  ℕ, ◌==◌, ◌&&◌, ◌||◌, not, Bool, false, if◌then◌else◌, ◌*◌, ◌≡◌, inl, inr, refl, sym, ap, ap₂,
  subst, ◌∙◌, true, List, [], ◌∷◌, ◌++◌, Option, none, some, Option-cases, Bool-cases, arith,
}
use mathlib.Core.List.{Mem, Memᴰ}
use mathlib.Core.Logic.{∥∥₁_map}
use frpc.Base.Bytes.{Bytes, text}
use frpc.Base.Dict.{insert}
use frpc.Registry.{Pair, trim_prefix, behind, relative, without_slash, normal_path, new_discovery}
use frpc.Registry.Watchers.{trim_prefix-append}
use frpc.Registry.Register.{
  is_dir, ttl, Store, Registrar, not_a_directory, service_path, node_path, blank, connect,
  write_node, etcd_register, consul_register,
}

module _ {S : Type 0} (store : Store S) (name metadata : Bytes) (r : Registrar) where
  -- How registering ends: with an error and the lists as they were, or with the node written last
  -- and the service kept for the ticker.
  pub data Registered : Registrar × S × Option Bytes → Type 0 where
    refused :
        (r' : Registrar) (s' : S) (e : Bytes)
        → r'.services ≡ r.services
        → r'.metas ≡ r.metas
        → Registered (r', s', some e)
    written :
        (r' : Registrar) (s1 s' : S)
        → store.put (ttl (r.update_interval * 2)) (node_path r name) metadata s1 ≡ (s', none)
        → r'.services ≡ r.services ++ (name ∷ [])
        → r'.metas ≡ insert name metadata r.metas
        → Registered (r', s', none)

module _ {S : Type 0} (store : Store S) (name metadata : Bytes) where
  not_a_directory-some : (o : Option Bytes) → not_a_directory o ≡ true → (e : Bytes) × (o ≡ some e)
  unfolding not_a_directory
  not_a_directory-some none h = absurd (cc)
  not_a_directory-some (some e) h = (e, refl)

  write_node-Registered :
      (r : Registrar) (s : S)
      → Registered store name metadata r (write_node store name metadata r s)
  unfolding write_node
  write_node-Registered r s = elim (Bool-cases (not_a_directory first.1)) [
    | inl h ↦
        let (e, p) = not_a_directory-some first.1 h in
        rw (h, write_node) (rw p (refused r first.0 e refl refl))
    | inr h ↦
        rw (h, write_node)
          (elim (Option-cases second.1) [
            | inl n ↦
                rw (n, write_node)
                  (written _ first.0 second.0 (ap (λ o. (second.0, o)) n) refl refl)
            | inr (e, p) ↦ rw (p, write_node) (refused r second.0 e refl refl)
          ])
  ]
    where
      first : S × Option Bytes
      first = store.put is_dir (service_path r name) name s

      second : S × Option Bytes
      second = store.put (ttl (r.update_interval * 2)) (node_path r name) metadata first.0

  connect-Kept :
      (r : Registrar) (s : S)
      → let r' = (connect store r s).0 in
        (r'.services ≡ r.services)
        × (r'.metas ≡ r.metas)
        × (r'.base_path ≡ r.base_path)
        × (r'.service_address ≡ r.service_address)
        × (r'.update_interval ≡ r.update_interval)
  unfolding connect
  connect-Kept r s = elim (Bool-cases r.connected) [
    | inl c ↦ rw (c, connect) (refl, refl, refl, refl, refl)
    | inr c ↦
        rw (c, connect)
          (elim (Option-cases (store.new_store s)) [
            | inl n ↦ rw (n, connect) (refl, refl, refl, refl, refl)
            | inr (e, p) ↦ rw (p, connect) (refl, refl, refl, refl, refl)
          ])
  ]

  -- Registering from a registrar that the connecting gave is registering from the old one.
  Registered-connect :
      (r : Registrar) (s : S) (d : Registrar × S × Option Bytes)
      → Registered store name metadata (connect store r s).0 d
      → Registered store name metadata r d
  unfolding node_path
  Registered-connect r s _ (refused r' s' e p q) =
      let k = connect-Kept r s in refused r' s' e (p ∙ k.0) (q ∙ k.1)
  Registered-connect r s _ (written r' s1 s' w p q) =
      let (a, b, c, d, u) = connect-Kept r s in
      written r' s1 s'
        (ap₂ (λ i path. store.put (ttl (i * 2)) path metadata s1) (sym u)
            (ap₂ (λ base address. base ++ text "/" ++ name ++ text "/" ++ address) (sym c) (sym d))
          ∙ w)
        (p ∙ ap (λ l. l ++ (name ∷ [])) a) (q ∙ ap (insert name metadata) b)

  etcd_register-Registered :
      (r : Registrar) (s : S)
      → Registered store name metadata r (etcd_register store name metadata r s)
  unfolding etcd_register
  etcd_register-Registered r s = elim (Bool-cases (blank [] name)) [
    | inl b ↦ rw (b, etcd_register) (refused r s _ refl refl)
    | inr b ↦
        rw (b, etcd_register)
          (elim (Option-cases (connect store r s).1) [
            | inr (e, p) ↦ let k = connect-Kept r s in rw (p, etcd_register) (refused _ s e k.0 k.1)
            | inl n ↦
                rw (n, etcd_register)
                  (elim (Bool-cases (not_a_directory based.1)) [
                    | inl h ↦
                        let (e, p) = not_a_directory-some based.1 h in
                        let k = connect-Kept r s in
                        rw (h, etcd_register) (rw p (refused _ based.0 e k.0 k.1))
                    | inr h ↦
                        rw (h, etcd_register)
                          (Registered-connect r s _
                            (write_node-Registered (connect store r s).0 based.0))
                  ])
          ])
  ]
    where
      based : S × Option Bytes
      based = store.put is_dir (connect store r s).0.base_path (text "frpc_path") s

  consul_register-Registered :
      (r : Registrar) (s : S)
      → Registered store name metadata r (consul_register store name metadata r s)
  unfolding consul_register
  consul_register-Registered r s = elim (Bool-cases (blank [] name)) [
    | inl b ↦ rw (b, consul_register) (refused r s _ refl refl)
    | inr b ↦
        rw (b, consul_register)
          (elim (Option-cases (connect store r s).1) [
            | inr (e, p) ↦
                let k = connect-Kept r s in rw (p, consul_register) (refused _ s e k.0 k.1)
            | inl n ↦
                rw (n, consul_register)
                  (elim (Option-cases based.1) [
                    | inr (e, p) ↦
                        let k = connect-Kept r s in
                        rw (p, consul_register) (refused _ based.0 e k.0 k.1)
                    | inl h ↦
                        rw (h, consul_register)
                          (Registered-connect r s _
                            (write_node-Registered (connect store r s).0 based.0))
                  ])
          ])
  ]
    where
      based : S × Option Bytes
      based = store.put is_dir (connect store r s).0.base_path (text "frpc_path") s

-- The key of a node in etcd: the path from the root.
abbrev pub absolute : Bytes → Bytes
absolute [] = text "/"
absolute (b ∷ s) = if b == b'/' then b ∷ s else b'/' ∷ b ∷ s

-- A segment of a path that etcd neither cleans away nor hides: it is not empty and starts with
-- neither a dot nor an underscore.
abbrev pub starts_segment : Bytes → Bool
starts_segment [] = false
starts_segment (b ∷ s) = not (b == b'/' || (b == b'.' || b == b'_'))

abbrev pub clean_segments : Bytes → Bool
clean_segments [] = true
clean_segments (b ∷ s) =
    let rest = clean_segments s in if b == b'/' then starts_segment s && rest else rest

abbrev pub IsClean : Bytes → Type 0
IsClean path = clean_segments (absolute path) ≡ true

abbrev pub no_slash : Bytes → Bool
no_slash [] = true
no_slash (b ∷ s) = let rest = no_slash s in if b == b'/' then false else rest

-- What etcd promises for a Put of a node that reported no error: List of the directory gives the node
-- with its value, under its path from the root.
abbrev pub Lists : {S : Type 0} → Store S → Type 0
Lists {S} store =
    (n : ℕ) (dir leaf v : Bytes) (s s' : S)
    → IsClean (dir ++ text "/" ++ leaf)
    → no_slash leaf ≡ true
    → store.put (ttl n) (dir ++ text "/" ++ leaf) v s ≡ (s', none)
    → Mem (record { key = absolute (dir ++ text "/" ++ leaf); value = v }) (store.list dir s')

Memᴰ-relative :
    (prefix key k v : Bytes) (kv : List Pair)
    → trim_prefix prefix key ≡ k
    → Memᴰ (record { key = key; value = v }) kv
    → Memᴰ (record { key = k; value = v }) (relative prefix kv)
unfolding relative
Memᴰ-relative prefix key k v [] t d = elim d [ ]
Memᴰ-relative prefix key k v (entry ∷ kv) t (Memᴰ.head e) = Memᴰ.head (
    ap₂ (λ a b. record { key = a; value = b })
      (sym (ap (λ p. trim_prefix prefix (Pair.key p)) (sym e) ∙ t)) (ap Pair.value e))
Memᴰ-relative prefix key k v (entry ∷ kv) t (Memᴰ.tail d) =
    Memᴰ.tail (Memᴰ-relative prefix key k v kv t d)

normal_path_kept : (s : Bytes) → without_slash s ≡ none → normal_path s ≡ s
unfolding normal_path
normal_path_kept s h = ground (arith, h)

-- A path below the root is its own key, and any other gets a slash in front.
absolute_rooted :
    (base rest name address : Bytes)
    → base ≡ b'/' ∷ rest
    → absolute (base ++ text "/" ++ name ++ text "/" ++ address)
      ≡ base ++ text "/" ++ name ++ text "/" ++ address
absolute_rooted base rest name address e = rw e refl

trim_other : (b : ℕ) (p x : Bytes) → (b == b'/') ≡ false → trim_prefix (b ∷ p) (b'/' ∷ x) ≡ b'/' ∷ x
unfolding trim_prefix behind
trim_other b p x other = rw (other, trim_prefix, behind) refl

absolute_other : (b : ℕ) (x : Bytes) → (b == b'/') ≡ false → absolute (b ∷ x) ≡ b'/' ∷ b ∷ x
absolute_other b x other = rw other refl

trim_misplaced :
    (base : Bytes) (b : ℕ) (rest name address : Bytes)
    → base ≡ b ∷ rest
    → (b == b'/') ≡ false
    → trim_prefix
        (base ++ text "/" ++ name ++ text "/")
        (absolute (base ++ text "/" ++ name ++ text "/" ++ address))
      ≡ b'/' ∷ (base ++ text "/" ++ name ++ text "/" ++ address)
trim_misplaced base b rest name address e other =
    subst
      (λ (base : Bytes).
        trim_prefix (base ++ text "/" ++ name ++ text "/")
          (absolute (base ++ text "/" ++ name ++ text "/" ++ address))
        ≡ b'/' ∷ (base ++ text "/" ++ name ++ text "/" ++ address))
      (sym e)
      (ap (trim_prefix (b ∷ (rest ++ text "/" ++ name ++ text "/")))
          (absolute_other b (rest ++ text "/" ++ name ++ text "/" ++ address) other)
        ∙ trim_other b _ _ other)

module _ {S : Type 0} (store : Store S) (lists : Lists store) (name metadata : Bytes)
    (r : Registrar) (plain : without_slash (service_path r name) ≡ none)
    (clean : IsClean (node_path r name)) (flat : no_slash r.service_address ≡ true) where
  -- What the discovery has for the node, by its key in the store.
  Registered-pairs :
      (k : Bytes) {r' : Registrar} {s' : S}
      → trim_prefix (service_path r name ++ text "/") (absolute (node_path r name)) ≡ k
      → Registered store name metadata r (r', s', none)
      → let path = service_path r name in
        Mem
          (record { key = k; value = metadata })
          (new_discovery path (store.list (normal_path path) s')).pairs
  unfolding new_discovery service_path node_path
  Registered-pairs k t (written r' s1 s' w p q) =
      rw (normal_path_kept (service_path r name) plain) (
        ∥∥₁_map
          (lists (r.update_interval * 2) (service_path r name) r.service_address metadata s1 s'
            clean flat w)
          (λ d. Memᴰ-relative (service_path r name ++ text "/") _ k metadata _ t d))

  -- A server that has registered is found: after EtcdRegister.Register reported no error, a
  -- discovery that newEtcdDiscoveryStore makes from what the store then lists has the address of
  -- the server with its metadata among its servers. Conditions: the store lists what was put
  -- without an error under its path from the root, where that path is clean (no segment empty or
  -- with a dot or an underscore in front) and its last segment has no slash; the base path starts
  -- with a slash, the path of the node is clean, the address of the server has no slash, and the
  -- name does not end in one.
  pub etcd_register-Listed :
      (rest : Bytes) (s : S) {r' : Registrar} {s' : S}
      → r.base_path ≡ b'/' ∷ rest
      → etcd_register store name metadata r s ≡ (r', s', none)
      → let path = service_path r name in
        Mem
          (record { key = r.service_address; value = metadata })
          (new_discovery path (store.list (normal_path path) s')).pairs
  unfolding service_path node_path
  etcd_register-Listed rest s rooted e =
      Registered-pairs r.service_address
        (ap (trim_prefix (service_path r name ++ text "/"))
            (absolute_rooted r.base_path rest name r.service_address rooted)
          ∙ trim_prefix-append (service_path r name ++ text "/") r.service_address)
        (subst (λ d. Registered store name metadata r d) e
          (etcd_register-Registered store name metadata r s))

  -- Under a base path that does not start with a slash a server that has registered is listed by
  -- the path of its node: after EtcdRegister.Register reported no error, a discovery has among its
  -- servers one with the metadata of the server whose key is that whole path with a slash in
  -- front. Conditions: the store lists what was put without an error under its path from the root,
  -- where that path is clean (no segment empty or with a dot or an underscore in front) and its
  -- last segment has no slash; the base path is not empty and does not start with a slash, the
  -- path of the node is clean, the address of the server has no slash, and the name does not end
  -- in one.
  pub etcd_register-misplaced :
      (b : ℕ) (rest : Bytes) (s : S) {r' : Registrar} {s' : S}
      → r.base_path ≡ b ∷ rest
      → (b == b'/') ≡ false
      → etcd_register store name metadata r s ≡ (r', s', none)
      → let path = service_path r name in
        Mem
          (record { key = b'/' ∷ node_path r name; value = metadata })
          (new_discovery path (store.list (normal_path path) s')).pairs
  unfolding service_path node_path
  etcd_register-misplaced b rest s relative other e =
      Registered-pairs (b'/' ∷ node_path r name)
        (trim_misplaced r.base_path b rest name r.service_address relative other)
        (subst (λ d. Registered store name metadata r d) e
          (etcd_register-Registered store name metadata r s))
