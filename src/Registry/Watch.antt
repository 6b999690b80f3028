-- ===== src/Registry/Watch.antt =====
-- The loop `watch` of registry/discovery_etcd.go, which registry/discovery_consul.go repeats line for
-- line, and the discovery over consul.
pub mod Rounds
use frpc.Base.{ℕ, zero, suc, List, [], ◌∷◌, ◌++◌, Option, none, some}
use frpc.Base.Bytes.{Bytes, text}
use frpc.Registry.{Pair, Discovery, new_discovery, clone, change, next_pause}
use frpc.Registry.Register.{without_root}

-- RetriesAfterWatchFailed: -1, or a number of tries.
pub data Retries : Type 0 where
  forever : Retries
  limited : ℕ → Retries

-- What the tries of WatchTree lead to: a channel, no try at all and so no channel, the last error, or
-- a wait for what WatchTree does next.
pub data Watched : Type 0 where
  channel : Watched
  no_channel : Watched
  given_up : Bytes → Watched
  trying : Watched

-- The inner loop over what WatchTree returns, an error or a channel; the first part lists the pauses.
unfoldable pub try_watch : Retries → ℕ → Option Bytes → List (Option Bytes) → List ℕ × Watched
try_watch (limited zero) delay none results = ([], no_channel)
try_watch (limited zero) delay (some e) results = ([], given_up e)
try_watch (limited (suc n)) delay last [] = ([], trying)
try_watch (limited (suc n)) delay last (none ∷ results) = ([], channel)
try_watch (limited (suc n)) delay last (some e ∷ results) =
    let pause = next_pause delay in
    let (pauses, w) = try_watch (limited n) pause (some e) results in (pause ∷ pauses, w)
try_watch forever delay last [] = ([], trying)
try_watch forever delay last (none ∷ results) = ([], channel)
try_watch forever delay last (some e ∷ results) =
    let pause = next_pause delay in
    let (pauses, w) = try_watch forever pause (some e) results in (pause ∷ pauses, w)

-- What comes next in readChanges: a change, nil from a channel that was closed, or Close.
pub data Event : Type 0 where
  changed : List Pair → Event
  ended : Event
  stopped : Event

pub data Next : Type 0 where
  again : Next
  finished : Next
  waiting : Next

unfoldable pub read_changes : List Event → Discovery → Discovery × Next
read_changes [] d = (d, waiting)
read_changes (changed kv ∷ events) d = read_changes events (change kv d)
read_changes (ended ∷ events) d = (d, again)
read_changes (stopped ∷ events) d = (d, finished)

-- The outer loop: each round has what WatchTree returns and what then comes.
unfoldable pub watch :
    Retries → List (List (Option Bytes) × List Event) → Discovery → Discovery × Next
unfolding try_watch read_changes
watch retries [] d = (d, waiting)
watch retries ((results, events) ∷ rounds) d =
    let (d', next) = read_changes events d in
    let more = watch retries rounds d' in
    elim (try_watch retries 0 none results).1 [
      | given_up e ↦ (d, finished)
      | trying ↦ (d, waiting)
      | no_channel ↦ (d, waiting)
      | channel ↦ elim next [ again ↦ more | finished ↦ (d', finished) | waiting ↦ (d', waiting) ]
    ]

-- newConsulDiscoveryStore: `none` is the panic for an empty path.
unfoldable pub consul_discovery : Bytes → List Pair → Option Discovery
unfolding without_root
consul_discovery path kv = elim (without_root path) [
  | none ↦ none
  | some p ↦ some (new_discovery p kv)
]

unfoldable pub consul_clone : Bytes → List Pair → Discovery → Option Discovery
unfolding consul_discovery
consul_clone service_path kv d = consul_discovery (d.base_path ++ text "/" ++ service_path) kv

unfoldable pub consul_watch :
    Retries → List (List (Option Bytes) × List Event) → Discovery → Discovery × Next
unfolding watch
consul_watch retries rounds d = watch retries rounds d
