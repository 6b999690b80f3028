-- ===== src/Client/Routing/Found.antt =====
-- A server that has registered is called: registry/registry_etcd.go, registry/discovery_etcd.go, the
-- client of client/client_registry.go, and the round robin selector.
use mathlib.Core.List.{Mem, Memᴰ}
use mathlib.Core.Logic.{∥∥₁_map}
use native.Mathlib.Nat.{mod-eq_of_lt}
use frpc.Base.{
  true, ℕ, zero, suc, ◌+◌, ◌%◌, ◌<◌, ◌≡◌, refl, sym, ap, subst, ◌∙◌, List, [], ◌∷◌, none, some,
  arith, length, get_or, map, Bool-cases, inl, inr, some_injective,
}
use frpc.Base.Bytes.{Bytes, eq, eq_iff}
use frpc.Base.Dict.{Dict, insert}
use frpc.Client.Connect.{fill_servers, servers_of}
use frpc.Registry.{Pair, new_discovery, normal_path, without_slash}
use frpc.Registry.Register.{Store, Registrar, etcd_register, service_path, node_path}
use frpc.Registry.Register.Nodes.{Lists, IsClean, no_slash, etcd_register-Listed}
use frpc.Selector.Modes.{Sources, round_robin, round_robin_selector, select, new_selector}
use frpc.Selector.Plain.{names, RoundRobin, new_round_robin, next_server, turns, cycle, turns-cycle}
use frpc.Client.Routing.{Routing, Event, asks, discover, choose_selector, choose, run}

names-insert : (k v : Bytes) (d : Dict Bytes) → Memᴰ k (names (insert k v d))
unfolding names insert
names-insert k v [] = Memᴰ.head refl
names-insert k v ((j, w) ∷ d) = elim (Bool-cases (eq j k)) [
  | inl e ↦ rw (e, insert) (Memᴰ.head refl)
  | inr e ↦ rw (e, insert) (Memᴰ.tail (names-insert k v d))
]

names-keeps : (x k v : Bytes) (d : Dict Bytes) → Memᴰ x (names d) → Memᴰ x (names (insert k v d))
unfolding names insert
names-keeps x k v [] h = elim h [ ]
names-keeps x k v ((j, w) ∷ d) (Memᴰ.head q) = elim (Bool-cases (eq j k)) [
  | inl e ↦ rw (e, insert) (Memᴰ.head (q ∙ (eq_iff j k).0 e))
  | inr e ↦ rw (e, insert) (Memᴰ.head q)
]
names-keeps x k v ((j, w) ∷ d) (Memᴰ.tail h) = elim (Bool-cases (eq j k)) [
  | inl e ↦ rw (e, insert) (Memᴰ.tail h)
  | inr e ↦ rw (e, insert) (Memᴰ.tail (names-keeps x k v d h))
]

names-fill_servers :
    (x : Bytes) (pairs : List Pair) (d : Dict Bytes)
    → Memᴰ x (names d)
    → Memᴰ x (names (fill_servers pairs d))
unfolding fill_servers
names-fill_servers x [] d h = h
names-fill_servers x (p ∷ pairs) d h =
    names-fill_servers x pairs (insert p.key p.value d) (names-keeps x p.key p.value d h)

-- Every server that the discovery has is in the map of the client.
fill_servers-names :
    (p : Pair) (pairs : List Pair) (d : Dict Bytes)
    → Memᴰ p pairs
    → Memᴰ p.key (names (fill_servers pairs d))
unfolding fill_servers
fill_servers-names p [] d h = elim h [ ]
fill_servers-names p (q ∷ pairs) d (Memᴰ.head e) =
    names-fill_servers p.key pairs (insert q.key q.value d) (
      subst (λ k. Memᴰ k (names (insert q.key q.value d))) (sym (ap Pair.key e))
        (names-insert q.key q.value d))
fill_servers-names p (q ∷ pairs) d (Memᴰ.tail h) =
    fill_servers-names p pairs (insert q.key q.value d) h

place : (x : Bytes) (ss : List Bytes) → Memᴰ x ss → (j : ℕ) × (j < length ss) × (get_or ss j [] ≡ x)
place x [] h = elim h [ ]
place x (s ∷ ss) (Memᴰ.head e) = (0, omega arith, sym e)
place x (s ∷ ss) (Memᴰ.tail h) = let (j, lt, e) = place x ss h in (suc j, omega (arith, lt), e)

cycle-place :
    (ss : List Bytes) (n i j : ℕ) → j < n → Memᴰ (get_or ss ((i + j) % length ss) []) (cycle ss i n)
cycle-place ss zero i j h = absurd (omega arith)
cycle-place ss (suc n) i zero h = Memᴰ.head (ap (λ k. get_or ss (k % length ss) []) (omega arith))
cycle-place ss (suc n) i (suc j) h = Memᴰ.tail (
    subst (λ k. Memᴰ (get_or ss (k % length ss) []) (cycle ss (suc i) n)) (omega arith)
      (cycle-place ss n (suc i) j (omega arith)))

-- One round over the servers comes to each.
cycle-all : (x : Bytes) (ss : List Bytes) → Memᴰ x ss → Memᴰ x (cycle ss 0 (length ss))
cycle-all x ss h =
    let (j, lt, e) = place x ss h in
    subst (λ y. Memᴰ y (cycle ss 0 (length ss)))
      (ap (λ k. get_or ss k []) (ap (λ k. k % length ss) (omega arith) ∙ mod-eq_of_lt lt) ∙ e)
      (cycle-place ss (length ss) 0 j lt)

nonempty : (x : Bytes) (ss : List Bytes) → Memᴰ x ss → 0 < length ss
nonempty x [] h = elim h [ ]
nonempty x (s ∷ ss) h = omega arith

-- Calls, as many as a list is long.
abbrev pub asking : List (Bytes × Bytes × Bytes) → List Event
asking [] = []
asking ((path, method, args) ∷ reqs) = asks path method args ∷ asking reqs

module _ (o : Sources) where
  run-turns :
      (reqs : List (Bytes × Bytes × Bytes)) (r : Routing) (s : RoundRobin)
      → r.selector ≡ some (round_robin_selector s)
      → (run o (asking reqs) r).0 ≡ (turns (length reqs) s).0
  unfolding run choose select turns
  run-turns [] r s e = refl
  run-turns ((path, method, args) ∷ reqs) r s e =
      rw (e, choose)
        (ap (◌∷◌ (next_server s).0) (
          run-turns reqs (record r { selector = some (round_robin_selector (next_server s).1) })
            (next_server s).1 refl))

  Memᴰ-map_some : (x : Bytes) (xs : List Bytes) → Memᴰ x xs → Memᴰ (some x) (map some xs)
  Memᴰ-map_some x [] h = elim h [ ]
  Memᴰ-map_some x (y ∷ xs) (Memᴰ.head e) = Memᴰ.head (ap some e)
  Memᴰ-map_some x (y ∷ xs) (Memᴰ.tail h) = Memᴰ.tail (Memᴰ-map_some x xs h)

  -- Among as many calls as there are servers each server of the discovery is chosen.
  run-found :
      (p : Pair) (pairs : List Pair) (r r' : Routing) (reqs : List (Bytes × Bytes × Bytes))
      → choose_selector o round_robin (discover pairs r) ≡ some r'
      → length reqs ≡ length (names (servers_of pairs))
      → Memᴰ p pairs
      → Memᴰ (some p.key) (run o (asking reqs) r').0
  run-found p pairs r r' reqs e n h =
      subst (Memᴰ (some p.key))
        (sym (
          run-turns reqs r' first (chosen)
          ∙ ap (λ k. (turns k first).0) n
          ∙ turns-cycle (length first.servers) first (nonempty p.key first.servers there)))
        (Memᴰ-map_some p.key (cycle first.servers 0 (length first.servers))
          (cycle-all p.key first.servers there))
    where
      first : RoundRobin
      first = record { servers = names (servers_of pairs); i = 0 }

      there : Memᴰ p.key (names (servers_of pairs))
      there = unfold servers_of in fill_servers-names p pairs [] h

      chosen : r'.selector ≡ some (round_robin_selector first)
      chosen =
          unfold choose_selector discover new_selector new_round_robin in
          sym (ap Routing.selector (some_injective e))

module _ {S : Type 0} (store : Store S) (lists : Lists store) (name metadata : Bytes)
    (r : Registrar) (rest : Bytes) (rooted : r.base_path ≡ b'/' ∷ rest)
    (plain : without_slash (service_path r name) ≡ none) (clean : IsClean (node_path r name))
    (flat : no_slash r.service_address ≡ true) where
  -- A server that has registered is called: after EtcdRegister.Register reported no error, a
  -- client whose Discovery lists the store and whose Selector is round robin chooses the address
  -- of that server within as many calls as it has servers. Conditions: the store lists what was
  -- put without an error under its path from the root, where that path is clean (no segment empty
  -- or with a dot or an underscore in front) and its last segment has no slash; the base path
  -- starts with a slash, the path of the node is clean, the address of the server has no slash,
  -- and the name does not end in one.
  pub registered-found :
      (o : Sources) (s : S) {r' : Registrar} {s' : S} (c c' : Routing)
      (reqs : List (Bytes × Bytes × Bytes))
      → etcd_register store name metadata r s ≡ (r', s', none)
      → let path = service_path r name in
        let pairs = (new_discovery path (store.list (normal_path path) s')).pairs in
        choose_selector o round_robin (discover pairs c) ≡ some c'
        → length reqs ≡ length (names (servers_of pairs))
        → Mem (some r.service_address) (run o (asking reqs) c').0
  registered-found o s c c' reqs e chosen n =
      ∥∥₁_map (etcd_register-Listed store lists name metadata r plain clean flat rest s rooted e)
        (run-found o _ _ c c' reqs chosen n)
