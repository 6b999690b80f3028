-- ===== src/Registry/Register.antt =====
-- EtcdRegister and ConsulRegister of registry/registry_etcd.go and registry/registry_consul.go: the
-- nodes that a server writes. The store of libkv is foreign: a record of its calls.
pub mod Nodes
pub mod Ticks
use frpc.Base.{
  ℕ, ◌*◌, Bool, true, false, not, ◌&&◌, ◌||◌, List, [], ◌∷◌, ◌++◌, Option, none, some, ltb, ◌==◌,
  if◌then◌else◌,
}
use frpc.Base.Bytes.{Bytes, text, eq}
use frpc.Base.Dict.{Dict, lookup, insert}
use frpc.Registry.{Pair, behind}

-- store.WriteOptions: IsDir, or a TTL.
pub data WriteOptions : Type 0 where
  is_dir : WriteOptions
  ttl : ℕ → WriteOptions

-- The calls of a libkv store on its state S: Put with its error, Get (`none` for an error) and List,
-- and what libkv.NewStore returns as its error. `retag` is url.ParseQuery, the setting of "tps" to
-- the empty text, and Encode.
pub record Store (S : Type 0) : Type 0 where
  pub new_store : S → Option Bytes
  pub put : WriteOptions → Bytes → Bytes → S → S × Option Bytes
  pub get : Bytes → S → Option Bytes
  pub list : Bytes → S → List Pair
  pub retag : Bytes → Bytes

pub record Registrar : Type 0 where
  pub service_address : Bytes
  pub base_path : Bytes
  pub services : List Bytes
  pub metas : Dict Bytes
  pub update_interval : ℕ
  pub connected : Bool

unfoldable pub new_registry : Bytes → Bytes → ℕ → Registrar
new_registry base_path service_address interval = record {
  service_address = service_address;
  base_path = base_path;
  services = [];
  metas = [];
  update_interval = interval;
  connected = false;
}

-- strings.Contains
unfoldable pub contains : Bytes → Bytes → Bool
unfolding behind
contains part [] = elim (behind part []) [ none ↦ false | some t ↦ true ]
contains part (b ∷ s) = elim (behind part (b ∷ s)) [ none ↦ contains part s | some t ↦ true ]

-- The white space of Go: one character each, in UTF-8.
abbrev pub spaces : List Bytes
spaces =
    (9 ∷ [])
    ∷ (10 ∷ [])
    ∷ (11 ∷ [])
    ∷ (12 ∷ [])
    ∷ (13 ∷ [])
    ∷ (32 ∷ [])
    ∷ (0xC2 ∷ 0x85 ∷ [])
    ∷ (0xC2 ∷ 0xA0 ∷ [])
    ∷ (0xE1 ∷ 0x9A ∷ 0x80 ∷ [])
    ∷ (0xE2 ∷ 0x80 ∷ 0x80 ∷ [])
    ∷ (0xE2 ∷ 0x80 ∷ 0x81 ∷ [])
    ∷ (0xE2 ∷ 0x80 ∷ 0x82 ∷ [])
    ∷ (0xE2 ∷ 0x80 ∷ 0x83 ∷ [])
    ∷ (0xE2 ∷ 0x80 ∷ 0x84 ∷ [])
    ∷ (0xE2 ∷ 0x80 ∷ 0x85 ∷ [])
    ∷ (0xE2 ∷ 0x80 ∷ 0x86 ∷ [])
    ∷ (0xE2 ∷ 0x80 ∷ 0x87 ∷ [])
    ∷ (0xE2 ∷ 0x80 ∷ 0x88 ∷ [])
    ∷ (0xE2 ∷ 0x80 ∷ 0x89 ∷ [])
    ∷ (0xE2 ∷ 0x80 ∷ 0x8A ∷ [])
    ∷ (0xE2 ∷ 0x80 ∷ 0xA8 ∷ [])
    ∷ (0xE2 ∷ 0x80 ∷ 0xA9 ∷ [])
    ∷ (0xE2 ∷ 0x80 ∷ 0xAF ∷ [])
    ∷ (0xE2 ∷ 0x81 ∷ 0x9F ∷ [])
    ∷ (0xE3 ∷ 0x80 ∷ 0x80 ∷ [])
    ∷ []

unfoldable pub one_of : Bytes → List Bytes → Bool
one_of s [] = false
one_of s (t ∷ ts) = eq s t || one_of s ts

-- Whether strings.TrimSpace leaves nothing; `seen` is the front of a character that is being read.
unfoldable pub blank : Bytes → Bytes → Bool
unfolding one_of
blank seen [] = eq seen []
blank seen (b ∷ s) =
    let ended = one_of (seen ++ (b ∷ [])) spaces in blank (if ended then [] else seen ++ (b ∷ [])) s

-- err != nil && !strings.Contains(err.Error(), "Not a file")
unfoldable pub not_a_directory : Option Bytes → Bool
unfolding contains
not_a_directory none = false
not_a_directory (some e) = not (contains (text "Not a file") e)

-- base/name and base/name/address
unfoldable pub service_path : Registrar → Bytes → Bytes
service_path r name = r.base_path ++ text "/" ++ name

unfoldable pub node_path : Registrar → Bytes → Bytes
node_path r name = r.base_path ++ text "/" ++ name ++ text "/" ++ r.service_address

-- p.BasePath[0] == '/' and p.BasePath[1:]; `none` is the panic of the index.
unfoldable pub without_root : Bytes → Option Bytes
without_root [] = none
without_root (b ∷ s) = if b == b'/' then some s else some (b ∷ s)

unfoldable pub empty_name_text : Bytes
empty_name_text = text "Register service `name` can't be empty"

-- p.metas[name], the empty text where it is missing
unfoldable pub meta_of : Bytes → Registrar → Bytes
meta_of name r = elim (lookup name r.metas) [ none ↦ [] | some m ↦ m ]

module _ {S : Type 0} (store : Store S) where
  -- Where p.store is nil: libkv.NewStore.
  unfoldable pub connect : Registrar → S → Registrar × Option Bytes
  connect r s = if r.connected then (r, none) else elim (store.new_store s) [
    | some e ↦ (r, some e)
    | none ↦ (record r { connected = true }, none)
  ]

  -- The end of Register, once the base path stands.
  unfoldable pub write_node : Bytes → Bytes → Registrar → S → Registrar × S × Option Bytes
  unfolding not_a_directory service_path node_path
  write_node name metadata r s =
      let (s1, e1) = store.put is_dir (service_path r name) name s in
      if not_a_directory e1
      then (r, s1, e1)
      else let (s2, e2) = store.put (ttl (r.update_interval * 2)) (node_path r name) metadata s1 in
        elim e2 [
          | some e ↦ (r, s2, some e)
          | none ↦ (
            record r { services = r.services ++ (name ∷ []); metas = insert name metadata r.metas },
            s2,
            none,
          )
        ]

  unfoldable pub etcd_register : Bytes → Bytes → Registrar → S → Registrar × S × Option Bytes
  unfolding blank connect not_a_directory write_node
  etcd_register name metadata r s =
      if blank [] name
      then (r, s, some empty_name_text)
      else let (r', failure) = connect r s in
        elim failure [
          | some e ↦ (r', s, some e)
          | none ↦
              let (s', e) = store.put is_dir r'.base_path (text "frpc_path") s in
              if not_a_directory e then (r', s', e) else write_node name metadata r' s'
        ]

  -- The error "Not a file" of the base path counts here.
  unfoldable pub consul_register : Bytes → Bytes → Registrar → S → Registrar × S × Option Bytes
  unfolding blank connect write_node
  consul_register name metadata r s =
      if blank [] name
      then (r, s, some empty_name_text)
      else let (r', failure) = connect r s in
        elim failure [
          | some e ↦ (r', s, some e)
          | none ↦
              let (s', e) = store.put is_dir r'.base_path (text "frpc_path") s in
              elim e [ some x ↦ (r', s', some x) | none ↦ write_node name metadata r' s' ]
        ]

  -- Start, up to the ticker: the last part says whether the ticker runs.
  unfoldable pub etcd_start : Registrar → S → Registrar × S × Option Bytes × Bool
  unfolding connect not_a_directory
  etcd_start r s =
      let (r', failure) = connect r s in
      elim failure [
        | some e ↦ (r', s, some e, false)
        | none ↦
            let (s', e) = store.put is_dir r'.base_path (text "frpc_path") s in
            if not_a_directory e
            then (r', s', e, false)
            else (r', s', none, ltb 0 r'.update_interval)
      ]

  -- `none` is the panic for an empty base path.
  unfoldable pub consul_start : Registrar → S → Option (Registrar × S × Option Bytes × Bool)
  unfolding connect without_root
  consul_start r s =
      let (r', failure) = connect r s in
      elim failure [
        | some e ↦ some (r', s, some e, false)
        | none ↦ elim (without_root r'.base_path) [
          | none ↦ none
          | some path ↦
              let r'' = record r' { base_path = path } in
              let (s', e) = store.put is_dir path (text "frpc_path") s in
              elim e [
                | some x ↦ some (r'', s', some x, false)
                | none ↦ some (r'', s', none, ltb 0 r''.update_interval)
              ]
        ]
      ]

  -- The ticker for one service: a lost node is written again.
  unfoldable pub refresh : Registrar → Bytes → S → S
  unfolding node_path meta_of
  refresh r name s =
      let path = node_path r name in
      elim (store.get path s) [
        | none ↦ (store.put (ttl (r.update_interval * 3)) path (meta_of name r) s).0
        | some v ↦ (store.put (ttl (r.update_interval * 3)) path (store.retag v) s).0
      ]

  unfoldable pub refresh_all : Registrar → List Bytes → S → S
  unfolding refresh
  refresh_all r [] s = s
  refresh_all r (name ∷ names) s = refresh_all r names (refresh r name s)

  -- One tick, the same in both registries.
  unfoldable pub tick : Registrar → S → S
  unfolding refresh_all
  tick r s = refresh_all r r.services s
