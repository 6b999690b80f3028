-- ===== src/Registry.antt =====
-- EtcdDiscovery of registry/discovery_etcd.go: the list of servers and its watchers. The store is
-- foreign: what it lists and what it reports are arguments.
pub mod Watchers
pub mod Register
pub mod Watch
pub mod Modes
pub mod Same
use frpc.Base.{
  ℕ, zero, suc, ◌+◌, ◌*◌, Bool, true, false, not, ◌&&◌, List, [], ◌∷◌, ◌++◌, Option, none, some,
  ltb, ◌==◌, if◌then◌else◌, length,
}
use frpc.Base.Bytes.{Bytes, text}

-- A registry.KV or a store.KVPair: a key and a value.
pub record Pair : Type 0 where
  pub key : Bytes
  pub value : Bytes

-- A channel of a watcher is its number; `sent` lists what was sent to which, the last one first. A
-- send that waits for a minute is dropped by the source; here every send arrives.
pub record Discovery : Type 0 where
  pub base_path : Bytes
  pub pairs : List Pair
  pub chans : List ℕ
  pub sent : List (ℕ × List Pair)

-- strings.HasSuffix(s, "/") and s[:len(s)-1]
unfoldable pub without_slash : Bytes → Option Bytes
without_slash [] = none
without_slash (b ∷ []) = if b == b'/' then some [] else none
without_slash (b ∷ c ∷ s) = elim (without_slash (c ∷ s)) [ none ↦ none | some t ↦ some (b ∷ t) ]

unfoldable pub normal_path : Bytes → Bytes
unfolding without_slash
normal_path s = if ltb 1 (length s) then elim (without_slash s) [ none ↦ s | some t ↦ t ] else s

-- The rest behind a prefix, if it is one.
unfoldable pub behind : Bytes → Bytes → Option Bytes
behind [] s = some s
behind (p ∷ prefix) [] = none
behind (p ∷ prefix) (b ∷ s) = let rest = behind prefix s in if p == b then rest else none

unfoldable pub trim_prefix : Bytes → Bytes → Bytes
unfolding behind
trim_prefix prefix s = elim (behind prefix s) [ none ↦ s | some rest ↦ rest ]

-- The loop over what the store gives.
unfoldable pub relative : Bytes → List Pair → List Pair
unfolding trim_prefix
relative prefix [] = []
relative prefix (entry ∷ kv) =
    record entry { key = trim_prefix prefix entry.key } ∷ relative prefix kv

-- newEtcdDiscoveryStore, for what store.List gives.
unfoldable pub new_discovery : Bytes → List Pair → Discovery
unfolding normal_path relative
new_discovery path kv = record {
  base_path = normal_path path;
  pairs = relative (normal_path path ++ text "/") kv;
  chans = [];
  sent = [];
}

-- for _, ch := range d.chans { ch <- pairs }
unfoldable pub send_all : List Pair → List ℕ → List (ℕ × List Pair) → List (ℕ × List Pair)
send_all pairs [] sent = sent
send_all pairs (ch ∷ chans) sent = send_all pairs chans ((ch, pairs) ∷ sent)

-- A change that WatchTree reports.
unfoldable pub change : List Pair → Discovery → Discovery
unfolding relative send_all
change kv d =
    let latest = relative (d.base_path ++ text "/") kv in
    record d { pairs = latest; sent = send_all latest d.chans d.sent }

-- WatchService, with the new channel `ch`.
unfoldable pub watch_service : ℕ → Discovery → Discovery
watch_service ch d = record d { chans = d.chans ++ (ch ∷ []) }

unfoldable pub without : ℕ → List ℕ → List ℕ
without ch [] = []
without ch (c ∷ chans) = let rest = without ch chans in if c == ch then rest else c ∷ rest

unfoldable pub remove_watcher : ℕ → Discovery → Discovery
unfolding without
remove_watcher ch d = record d { chans = without ch d.chans }

-- Clone, for what store.List gives for the new path.
unfoldable pub clone : Bytes → List Pair → Discovery → Discovery
unfolding new_discovery
clone service_path kv d = new_discovery (d.base_path ++ text "/" ++ service_path) kv

-- The pause before the next try of WatchTree, in seconds.
unfoldable pub next_pause : ℕ → ℕ
next_pause d = let raised = if d == 0 then 1 else d * 2 in if ltb 30 raised then 30 else raised
