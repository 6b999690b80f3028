-- ===== src/Selector/Modes/Picks.antt =====
-- A selector of selector/ over its life: made, asked, updated, asked again.
use mathlib.Core.List.{Memᴰ}
use native.Mathlib.Nat.{mod-lt}
use frpc.Base.{
  ℕ, ◌<◌, ◌%◌, get_elem?, some_injective, ◌≡◌, inl, inr, refl, subst, ◌∙◌, List, [], ◌∷◌, Option,
  none, some, Option-cases, Bool-cases, arith, length, ◌==◌,
}
use frpc.Base.Int.{ℤ}
use frpc.Base.Bytes.{Bytes}
use frpc.Base.Dict.{Dict}
use frpc.Selector.Weight.{Weighted}
use frpc.Selector.Plain.{
  names, RoundRobin, new_round_robin, update_round_robin, next_server, random_server,
  create_weighted, get_elem?-get_or,
}
use frpc.Selector.Hash.{hash_servers, hash_select}
use frpc.Selector.Hash.Jump.{Forward, hash_select_member}
use frpc.Selector.Modes.{
  SelectMode, random, round_robin, weighted, hash, ping, closest, Sources, Selector,
  random_selector, round_robin_selector, weighted_selector, hash_selector, ping_selector, host_part,
  create_icmp_weighted, new_ping_selector, new_selector, select, update_server,
}
use frpc.Selector.Modes.Among.{Picked, AllOf, Holds, get_elem?-Memᴰ, select_weighted-Picked}

AllOf-more :
    (x : Bytes) (ss : List Bytes) (ws : List (Option Weighted)) → AllOf ss ws → AllOf (x ∷ ss) ws
AllOf-more x ss [] h = tt
AllOf-more x ss (none ∷ ws) h = AllOf-more x ss ws h
AllOf-more x ss (some w ∷ ws) (d, h) = (Memᴰ.tail d, AllOf-more x ss ws h)

AllOf-create_weighted :
    (weight_of : Bytes → Option ℤ) (servers : Dict Bytes)
    → AllOf (names servers) (create_weighted weight_of servers)
unfolding names create_weighted
AllOf-create_weighted weight_of [] = tt
AllOf-create_weighted weight_of ((k, v) ∷ servers) = (
  Memᴰ.head refl,
  AllOf-more k (names servers) (create_weighted weight_of servers)
      (AllOf-create_weighted weight_of servers),
)

no_list : {a : List (Option Weighted)} → none ≡ some a → ⊥
no_list e = cc

AllOf-create_icmp_weighted :
    (rtt_of : Bytes → ℤ) (servers : Dict Bytes) (ws : List (Option Weighted))
    → create_icmp_weighted rtt_of servers ≡ some ws
    → AllOf (names servers) ws
unfolding names create_icmp_weighted
AllOf-create_icmp_weighted rtt_of [] ws e = subst (AllOf []) (some_injective e) tt
AllOf-create_icmp_weighted rtt_of ((k, v) ∷ servers) ws e = elim (Option-cases (host_part k)) [
  | inl h ↦ absurd (no_list (rw (h, create_icmp_weighted) at e))
  | inr (host, h) ↦ elim (Option-cases (create_icmp_weighted rtt_of servers)) [
    | inl r ↦ absurd (no_list (rw (h, r, create_icmp_weighted) at e))
    | inr (rest, r) ↦
        subst (AllOf (k ∷ names servers)) (some_injective (rw (h, r, create_icmp_weighted) at e)) (
          Memᴰ.head refl,
          AllOf-more k (names servers) rest (AllOf-create_icmp_weighted rtt_of servers rest r),
        )
  ]
]

new_ping_selector-Holds :
    (rtt_of : Bytes → ℤ) (servers : Dict Bytes) (sel : Selector)
    → new_ping_selector rtt_of servers ≡ some sel
    → Holds (names servers) sel
unfolding new_ping_selector
new_ping_selector-Holds rtt_of servers sel e =
    elim (Option-cases (create_icmp_weighted rtt_of servers)) [
      | inl n ↦ absurd (no_selector (rw (n, new_ping_selector) at e))
      | inr (ws, n) ↦
          subst (Holds (names servers)) (some_injective (rw (n, new_ping_selector) at e))
            (AllOf-create_icmp_weighted rtt_of servers ws n)
    ]
  where
    no_selector : none ≡ some sel → ⊥
    no_selector x = cc

-- fastrand.Uint32n gives numbers below its argument.
abbrev pub Below : (ℕ → ℕ) → Type 0
Below uint32n = (n : ℕ) → 0 < n → uint32n n < n

get_elem?-Picked : (ss : List Bytes) (i : ℕ) → i < length ss → Picked ss (get_elem? ss i)
get_elem?-Picked ss i h =
    (_, get_elem?-get_or ss i h, inr (get_elem?-Memᴰ ss i _ (get_elem?-get_or ss i h)))

module _ (o : Sources) where
  pub new_selector-Holds :
      (mode : SelectMode) (servers : Dict Bytes) (sel : Selector)
      → new_selector o mode servers ≡ some sel
      → Holds (names servers) sel
  unfolding new_selector new_round_robin hash_servers
  new_selector-Holds random servers sel e = subst (Holds (names servers)) (some_injective e) refl
  new_selector-Holds round_robin servers sel e =
      subst (Holds (names servers)) (some_injective e) refl
  new_selector-Holds weighted servers sel e =
      subst (Holds (names servers)) (some_injective e) (AllOf-create_weighted o.weight_of servers)
  new_selector-Holds hash servers sel e = subst (Holds (names servers)) (some_injective e) refl
  new_selector-Holds ping servers sel e = new_ping_selector-Holds o.rtt_of servers sel e
  new_selector-Holds closest servers sel e = subst (Holds (names servers)) (some_injective e) refl

  update_server-Holds :
      (servers : Dict Bytes) (old sel : Selector)
      → update_server o servers old ≡ some sel
      → Holds (names servers) sel
  unfolding update_server update_round_robin hash_servers
  update_server-Holds servers (random_selector ss) sel e =
      subst (Holds (names servers)) (some_injective e) refl
  update_server-Holds servers (round_robin_selector s) sel e =
      subst (Holds (names servers)) (some_injective e) refl
  update_server-Holds servers (weighted_selector ws) sel e =
      subst (Holds (names servers)) (some_injective e) (AllOf-create_weighted o.weight_of servers)
  update_server-Holds servers (hash_selector ss) sel e =
      subst (Holds (names servers)) (some_injective e) refl
  update_server-Holds servers (ping_selector ws) sel e =
      new_ping_selector-Holds o.rtt_of servers sel e

  random_server-Picked :
      (ss : List Bytes) → Below o.uint32n → Picked ss (random_server o.uint32n ss)
  unfolding random_server
  random_server-Picked ss below = elim (Bool-cases (length ss == 0)) [
    | inl e ↦ rw (e, random_server) ([], refl, inl refl)
    | inr e ↦
        rw (e, random_server)
          (get_elem?-Picked ss (o.uint32n (length ss)) (below (length ss) (ground (arith, e))))
  ]

  next_server-Picked :
      (s : RoundRobin)
      → Picked s.servers (next_server s).0 × ((next_server s).1.servers ≡ s.servers)
  unfolding next_server
  next_server-Picked s = elim (Bool-cases (length s.servers == 0)) [
    | inl e ↦ rw (e, next_server) (([], refl, inl refl), refl)
    | inr e ↦
        rw (e, next_server)
          (
            get_elem?-Picked s.servers (s.i % length s.servers) (mod-lt s.i (ground (arith, e))),
            refl,
          )
  ]

  hash_select-Picked :
      (path method args : Bytes) (ss : List Bytes)
      → Forward o.jump
      → Picked ss (hash_select o.jump ss path method args)
  hash_select-Picked path method args [] f = ([], unfold hash_select in refl, inl refl)
  hash_select-Picked path method args (s ∷ ss) f =
      let (i, x, e, at) = hash_select_member o.jump f (s ∷ ss) path method args (omega arith) in
      (x, e, inr (get_elem?-Memᴰ (s ∷ ss) i x at))

  pub select-Picked :
      (path method args : Bytes) (ss : List Bytes) (sel : Selector)
      → Forward o.jump
      → Below o.uint32n
      → Holds ss sel
      → Picked ss (select o path method args sel).0 × Holds ss (select o path method args sel).1
  unfolding select
  select-Picked path method args ss (random_selector own) f u h =
      (subst (λ l. Picked l (random_server o.uint32n own)) h (random_server-Picked own u), h)
  select-Picked path method args ss (round_robin_selector s) f u h =
      let (p, q) = next_server-Picked s in (subst (λ l. Picked l (next_server s).0) h p, q ∙ h)
  select-Picked path method args ss (weighted_selector ws) f u h = select_weighted-Picked ss ws h
  select-Picked path method args ss (hash_selector own) f u h = (
    subst (λ l. Picked l (hash_select o.jump own path method args)) h
        (hash_select-Picked path method args own f),
    h,
  )
  select-Picked path method args ss (ping_selector ws) f u h = select_weighted-Picked ss ws h

  -- A list of requests: path, method and arguments.
  unfoldable pub picks : List (Bytes × Bytes × Bytes) → Selector → List (Option Bytes) × Selector
  picks [] sel = ([], sel)
  picks ((path, method, args) ∷ reqs) sel =
      let (x, sel') = select o path method args sel in
      let (xs, sel'') = picks reqs sel' in (x ∷ xs, sel'')

  abbrev pub AllPicked : List Bytes → List (Option Bytes) → Type 0
  AllPicked ss [] = Unit {0}
  AllPicked ss (x ∷ xs) = Picked ss x × AllPicked ss xs

  picks-AllPicked :
      (reqs : List (Bytes × Bytes × Bytes)) (ss : List Bytes) (sel : Selector)
      → Forward o.jump
      → Below o.uint32n
      → Holds ss sel
      → AllPicked ss (picks reqs sel).0
  unfolding picks
  picks-AllPicked [] ss sel f u h = tt
  picks-AllPicked ((path, method, args) ∷ reqs) ss sel f u h =
      let (p, q) = select-Picked path method args ss sel f u h in
      (p, picks-AllPicked reqs ss (select o path method args sel).1 f u q)

  -- Whatever its mode, a selector of NewSelector never panics in Select and gives only servers
  -- that it was given, or none: before UpdateServer those of the first map, and after it those of
  -- the newer map, for any requests. Conditions: making and updating the selector does not panic,
  -- fastrand.Uint32n gives numbers below its argument, and the step of the hash in float64 does
  -- not go back.
  pub new_selector-AllPicked :
      (mode : SelectMode) (servers newer : Dict Bytes) (reqs more : List (Bytes × Bytes × Bytes))
      (sel updated : Selector)
      → Forward o.jump
      → Below o.uint32n
      → new_selector o mode servers ≡ some sel
      → update_server o newer (picks reqs sel).1 ≡ some updated
      → AllPicked (names servers) (picks reqs sel).0
        × AllPicked (names newer) (picks more updated).0
  new_selector-AllPicked mode servers newer reqs more sel updated f below e u = (
    picks-AllPicked reqs (names servers) sel f below (new_selector-Holds mode servers sel e),
    picks-AllPicked more (names newer) updated f below
        (update_server-Holds newer (picks reqs sel).1 updated u),
  )
