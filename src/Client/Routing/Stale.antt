-- ===== src/Client/Routing/Stale.antt =====
-- The selector of a client keeps to the servers of the time when it was made: client/client_registry.go
-- and client/client_controller.go.
use frpc.Base.{
  ◌≡◌, refl, sym, ap, List, [], ◌∷◌, Option, none, some, some_injective, Option-cases, inl, inr,
  ◌∙◌,
}
use frpc.Base.Bytes.{Bytes}
use frpc.Base.Dict.{Dict}
use frpc.Client.Connect.{servers_of}
use frpc.Registry.{Pair}
use frpc.Selector.Hash.Jump.{Forward}
use frpc.Selector.Modes.{Sources, SelectMode, Selector, new_selector, select}
use frpc.Selector.Modes.Among.{Holds}
use frpc.Selector.Modes.Picks.{Below, AllPicked, select-Picked, new_selector-Holds}
use frpc.Selector.Plain.{names}
use frpc.Client.Routing.{Routing, Event, hears, asks, discover, choose_selector, hear, choose, run}

-- The servers that the registry reported last.
abbrev pub last_heard : List Event → Option (Dict Bytes) → Option (Dict Bytes)
last_heard [] servers = servers
last_heard (hears pairs ∷ es) servers = last_heard es (some (servers_of pairs))
last_heard (asks path method args ∷ es) servers = last_heard es servers

module _ (o : Sources) (forward : Forward o.jump) (below : Below o.uint32n) where
  run-AllPicked :
      (es : List Event) (ss : List Bytes) (r : Routing) (s : Selector)
      → r.selector ≡ some s
      → Holds ss s
      → AllPicked o ss (run o es r).0
  unfolding run hear choose
  run-AllPicked [] ss r s e h = tt
  run-AllPicked (hears pairs ∷ es) ss r s e h = run-AllPicked es ss (hear pairs r) s e h
  run-AllPicked (asks path method args ∷ es) ss r s e h =
      let (p, q) = select-Picked o path method args ss s forward below h in
      rw (e, choose)
        (
          p,
          run-AllPicked es ss (record r { selector = some (select o path method args s).1 }) _ refl
              q,
        )

  run-servers : (es : List Event) (r : Routing) → (run o es r).1.servers ≡ last_heard es r.servers
  unfolding run hear choose
  run-servers [] r = refl
  run-servers (hears pairs ∷ es) r = run-servers es (hear pairs r)
  run-servers (asks path method args ∷ es) r = elim (Option-cases r.selector) [
    | inl e ↦ rw (e, choose) (run-servers es r)
    | inr (s, e) ↦
        rw (e, choose)
          (run-servers es (record r { selector = some (select o path method args s).1 }))
  ]

  -- The selector of a client never learns of a change: whatever the registry reports and however
  -- many calls choose a server after Selector, all choices are among the servers of the time of
  -- Discovery, or none, while the map of the client follows the last report. Conditions: Selector
  -- did not panic, fastrand.Uint32n gives numbers below its argument, and the step of the hash in
  -- float64 does not go back.
  pub run-stale :
      (mode : SelectMode) (pairs : List Pair) (es : List Event) (r r' : Routing)
      → choose_selector o mode (discover pairs r) ≡ some r'
      → AllPicked o (names (servers_of pairs)) (run o es r').0
        × ((run o es r').1.servers ≡ last_heard es (some (servers_of pairs)))
  unfolding discover
  run-stale mode pairs es r r' e =
      let (s, made, has, kept) = chosen (new_selector o mode (servers_of pairs)) refl in
      (
        run-AllPicked es (names (servers_of pairs)) r' s has
            (new_selector-Holds o mode (servers_of pairs) s made),
        run-servers es r' ∙ ap (last_heard es) kept,
      )
    where
      chosen :
          (x : Option Selector)
          → new_selector o mode (servers_of pairs) ≡ x
          → (s : Selector) × (new_selector o mode (servers_of pairs) ≡ some s)
            × (r'.selector ≡ some s)
            × (r'.servers ≡ some (servers_of pairs))
      chosen none q = absurd (unfold choose_selector discover in cc (rw (q, choose_selector) at e))
      chosen (some s) q =
          let same : record (discover pairs r) { selector = some s } ≡ r' =
            unfold choose_selector discover in some_injective (rw (q, choose_selector) at e) in
          (s, q, sym (ap Routing.selector same), sym (ap Routing.servers same))
