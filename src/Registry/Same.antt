-- ===== src/Registry/Same.antt =====
-- The discovery over consul of registry/discovery_consul.go does what the one over etcd does.
use frpc.Base.{
  ℕ, ◌≡◌, refl, sym, ap, ◌∙◌, List, [], ◌∷◌, ◌++◌, Bool-cases, inl, inr, Bool, ◌==◌, append-nil,
  append_assoc,
}
use frpc.Registry.{Pair, Discovery, watch_service, without, remove_watcher, change}
use frpc.Registry.Modes.{
  get_services, close_discovery, consul_get_services, consul_watch_service, consul_keep,
  consul_remove_watcher, consul_close_discovery,
}

-- What a client or the store does with a discovery.
pub data Use : Type 0 where
  watches : ℕ → Use
  unwatches : ℕ → Use
  reported : List Pair → Use

abbrev pub use_etcd : List Use → Discovery → Discovery
use_etcd [] d = d
use_etcd (watches ch ∷ us) d = use_etcd us (watch_service ch d)
use_etcd (unwatches ch ∷ us) d = use_etcd us (remove_watcher ch d)
use_etcd (reported kv ∷ us) d = use_etcd us (change kv d)

abbrev pub use_consul : List Use → Discovery → Discovery
use_consul [] d = d
use_consul (watches ch ∷ us) d = use_consul us (consul_watch_service ch d)
use_consul (unwatches ch ∷ us) d = use_consul us (consul_remove_watcher ch d)
use_consul (reported kv ∷ us) d = use_consul us (change kv d)

consul_keep-without :
    (ch : ℕ) (cs chans : List ℕ) → consul_keep ch cs chans ≡ chans ++ without ch cs
unfolding consul_keep without
consul_keep-without ch [] chans = sym (append-nil chans)
consul_keep-without ch (c ∷ cs) chans = elim (Bool-cases (c == ch)) [
  | inl e ↦ rw e (consul_keep-without ch cs chans)
  | inr e ↦
      rw e (
        consul_keep-without ch cs (chans ++ (c ∷ [])) ∙ append_assoc chans (c ∷ []) (without ch cs))
]

-- Whatever is done with the two discoveries after they were made, they have the same servers, watchers
-- and messages sent.
pub use_consul-use_etcd :
    (us : List Use) (d : Discovery) (stopped : Bool)
    → (use_consul us d ≡ use_etcd us d)
      × (consul_get_services (use_consul us d) ≡ get_services (use_etcd us d))
      × (consul_close_discovery stopped ≡ close_discovery stopped)
unfolding consul_get_services get_services consul_close_discovery close_discovery
use_consul-use_etcd us d stopped = (same us d, ap Discovery.pairs (same us d), refl)
  where
    removed : (ch : ℕ) (d : Discovery) → consul_remove_watcher ch d ≡ remove_watcher ch d
    removed ch d =
        unfold consul_remove_watcher remove_watcher in
        ap (λ cs. record d { chans = cs }) (consul_keep-without ch d.chans [])

    added : (ch : ℕ) (d : Discovery) → consul_watch_service ch d ≡ watch_service ch d
    added ch d = unfold consul_watch_service watch_service in refl

    same : (us : List Use) (d : Discovery) → use_consul us d ≡ use_etcd us d
    same [] d = refl
    same (watches ch ∷ us) d = same us (consul_watch_service ch d) ∙ ap (use_etcd us) (added ch d)
    same (unwatches ch ∷ us) d =
        same us (consul_remove_watcher ch d) ∙ ap (use_etcd us) (removed ch d)
    same (reported kv ∷ us) d = same us (change kv d)
