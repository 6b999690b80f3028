-- ===== src/Registry/Register/Ticks.antt =====
-- What the ticker of registry/registry_etcd.go and registry/registry_consul.go restores.
use frpc.Base.{
  ◌≡◌, ◌≢◌, ◌⊎◌, inl, inr, refl, sym, ap, ◌∙◌, List, [], ◌∷◌, ◌++◌, Option, none, some,
  Option-cases,
}
use mathlib.Core.List.{append_cancel_left, append_cancel_right}
use frpc.Base.Bytes.{Bytes, text}
use frpc.Registry.Register.{
  WriteOptions, Store, Registrar, node_path, meta_of, refresh, refresh_all, tick,
}

-- A store on which no Put fails and that keeps what was put, key by key.
pub record Keeps {S : Type 0} (store : Store S) : Type 0 where
  pub put_back :
      (o : WriteOptions) (k v : Bytes) (s : S) → store.get k (store.put o k v s).0 ≡ some v
  pub others :
      (o : WriteOptions) (k j v : Bytes) (s : S)
      → j ≢ k
      → store.get j (store.put o k v s).0 ≡ store.get j s

abbrev pub Absent : Bytes → List Bytes → Type 0
Absent name [] = Unit {0}
Absent name (n ∷ ns) = (n ≢ name) × Absent name ns

-- What a tick puts at a node: the metadata again where it was lost, or the renewed value.
abbrev pub restored : {S : Type 0} → Store S → Registrar → Bytes → Option Bytes → Bytes
restored store r name none = meta_of name r
restored store r name (some v) = store.retag v

-- The name stands in the list exactly once.
abbrev pub Once : Bytes → List Bytes → Type 0
Once name [] = ⊥
Once name (n ∷ ns) = ((n ≡ name) × Absent name ns) ⊎ ((n ≢ name) × Once name ns)

node_path_injective : (r : Registrar) (a b : Bytes) → node_path r a ≡ node_path r b → a ≡ b
unfolding node_path
node_path_injective r a b e = append_cancel_left (r.base_path ++ text "/") a b (
    append_cancel_right (r.base_path ++ text "/" ++ a) (r.base_path ++ text "/" ++ b) (text "/") (
      append_cancel_right (r.base_path ++ text "/" ++ a ++ text "/")
        (r.base_path ++ text "/" ++ b ++ text "/") r.service_address e))

module _ {S : Type 0} (store : Store S) (laws : Keeps store) (r : Registrar) where
  refresh-get :
      (name : Bytes) (s : S)
      → store.get (node_path r name) (refresh store r name s)
        ≡ some (restored store r name (store.get (node_path r name) s))
  unfolding refresh
  refresh-get name s = elim (Option-cases (store.get (node_path r name) s)) [
    | inl n ↦ rw (n, refresh) (laws.put_back _ _ _ s)
    | inr (v, n) ↦ rw (n, refresh) (laws.put_back _ _ _ s)
  ]

  refresh_other :
      (name : Bytes) (k : Bytes) (s : S)
      → k ≢ node_path r name
      → store.get k (refresh store r name s) ≡ store.get k s
  unfolding refresh
  refresh_other name k s d = elim (Option-cases (store.get (node_path r name) s)) [
    | inl n ↦ rw (n, refresh) (laws.others _ _ k _ s d)
    | inr (v, n) ↦ rw (n, refresh) (laws.others _ _ k _ s d)
  ]

  refresh_all-Absent :
      (name : Bytes) (names : List Bytes) (s : S)
      → Absent name names
      → store.get (node_path r name) (refresh_all store r names s) ≡ store.get (node_path r name) s
  unfolding refresh_all
  refresh_all-Absent name [] s h = refl
  refresh_all-Absent name (n ∷ ns) s (d, h) =
      refresh_all-Absent name ns (refresh store r n s) h
      ∙ refresh_other n (node_path r name) s (λ e. d (sym (node_path_injective r name n e)))

  refresh_all-Once :
      (name : Bytes) (names : List Bytes) (s : S)
      → Once name names
      → store.get (node_path r name) (refresh_all store r names s)
        ≡ some (restored store r name (store.get (node_path r name) s))
  unfolding refresh_all
  refresh_all-Once name [] s h = absurd h
  refresh_all-Once name (n ∷ ns) s (inl (e, h)) =
      refresh_all-Absent name ns (refresh store r n s) h
      ∙ ap (λ x. store.get (node_path r name) (refresh store r x s)) e
      ∙ refresh-get name s
  refresh_all-Once name (n ∷ ns) s (inr (d, h)) =
      refresh_all-Once name ns (refresh store r n s) h
      ∙ ap (λ o. some (restored store r name o))
          (refresh_other n (node_path r name) s (λ e. d (sym (node_path_injective r name n e))))

  -- After a tick of the registry the node of a registered service holds the metadata of the
  -- service again where it was lost, and otherwise its renewed value; the other services of the
  -- same tick do not touch it. Conditions: no Put of the store fails and what is put is kept key
  -- by key, and the service is registered once.
  pub tick_restores :
      (name : Bytes) (s : S)
      → Once name r.services
      → store.get (node_path r name) (tick store r s)
        ≡ some (restored store r name (store.get (node_path r name) s))
  unfolding tick
  tick_restores name s h = refresh_all-Once name r.services s h
