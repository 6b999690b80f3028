-- ===== src/Selector/Plain.antt =====
-- The round robin and random selectors of selector/, and createWeighted of the weighted one.
use frpc.Base.{
  ℕ, zero, suc, ◌+◌, ◌%◌, ◌<◌, ◌≡◌, refl, sym, ap, ap₂, ◌∙◌, false, List, [], ◌∷◌, Option, none,
  some, arith, ◌==◌, if◌then◌else◌, length, get_or, get_elem?, map,
}
use native.Mathlib.Nat.{mod-add-mod, mod-lt}
use frpc.Base.Int.{ℤ, pos}
use frpc.Base.Bytes.{Bytes}
use frpc.Base.Dict.{Dict}
use frpc.Selector.Weight.{Weighted}

-- for k := range servers { ss = append(ss, k) }
unfoldable pub names : Dict Bytes → List Bytes
names [] = []
names ((k, v) ∷ servers) = k ∷ names servers

pub record RoundRobin : Type 0 where
  pub servers : List Bytes
  pub i : ℕ

unfoldable pub new_round_robin : Dict Bytes → RoundRobin
unfolding names
new_round_robin servers = record { servers = names servers; i = 0 }

unfoldable pub update_round_robin : Dict Bytes → RoundRobin → RoundRobin
unfolding names
update_round_robin servers s = record s { servers = names servers }

-- Select of the round robin selector; `none` is the panic of an index out of range.
unfoldable pub next_server : RoundRobin → Option Bytes × RoundRobin
next_server s =
    if length s.servers == 0
    then (some [], s)
    else (get_elem? s.servers (s.i % length s.servers), record s { i = s.i % length s.servers + 1 })

-- Select of the random selector; `uint32n` is fastrand.Uint32n, and `none` is the panic of an index
-- out of range.
unfoldable pub random_server : (ℕ → ℕ) → List Bytes → Option Bytes
random_server uint32n servers =
    if length servers == 0 then some [] else get_elem? servers (uint32n (length servers))

-- createWeighted; `weight_of` is the weight that url.ParseQuery and strconv.Atoi find in the metadata.
unfoldable pub create_weighted : (Bytes → Option ℤ) → Dict Bytes → List (Option Weighted)
create_weighted weight_of [] = []
create_weighted weight_of ((k, metadata) ∷ servers) =
    let w : ℤ = elim (weight_of metadata) [ none ↦ pos 1 | some x ↦ x ] in
    some (record { server = k; weight = w; current = pos 0; effective = w })
    ∷ create_weighted weight_of servers

-- The choices of n calls of Select, and the selector afterwards.
unfoldable pub turns : ℕ → RoundRobin → List (Option Bytes) × RoundRobin
turns zero s = ([], s)
turns (suc n) s =
    let (server, s') = next_server s in let (servers, s'') = turns n s' in (server ∷ servers, s'')

-- The servers from the place `i` on, round and round.
abbrev pub cycle : List Bytes → ℕ → ℕ → List Bytes
cycle servers i zero = []
cycle servers i (suc n) = get_or servers (i % length servers) [] ∷ cycle servers (suc i) n

nonempty : (n : ℕ) → 0 < n → (n == 0) ≡ false
nonempty n p = ground arith

cycle-congruent :
    (servers : List Bytes) (n i j : ℕ)
    → i % length servers ≡ j % length servers
    → cycle servers i n ≡ cycle servers j n
cycle-congruent servers zero i j e = refl
cycle-congruent servers (suc n) i j e = ap₂ ◌∷◌ (ap (λ k. get_or servers k []) e) (
    cycle-congruent servers n (suc i) (suc j) (
      ap (λ k. k % length servers) (omega arith)
      ∙ sym (mod-add-mod i (length servers) 1)
      ∙ ap (λ k. (k + 1) % length servers) e
      ∙ mod-add-mod j (length servers) 1
      ∙ ap (λ k. k % length servers) (omega arith)))

pub get_elem?-get_or :
    (servers : List Bytes) (i : ℕ)
    → i < length servers
    → get_elem? servers i ≡ some (get_or servers i [])
get_elem?-get_or [] i h = absurd (omega arith)
get_elem?-get_or (s ∷ servers) zero h = refl
get_elem?-get_or (s ∷ servers) (suc i) h = get_elem?-get_or servers i (omega arith)

-- The round robin selector does not panic and gives its servers in their order, round and round from
-- the place where it stands. Condition: there is a server.
pub turns-cycle :
    (n : ℕ) (s : RoundRobin)
    → 0 < length s.servers
    → (turns n s).0 ≡ map some (cycle s.servers s.i n)
unfolding turns next_server
turns-cycle zero s p = refl
turns-cycle (suc n) s p =
    rw (nonempty (length s.servers) p, next_server)
      (ap₂ ◌∷◌ (get_elem?-get_or s.servers (s.i % length s.servers) (mod-lt s.i p)) (
        turns-cycle n (record s { i = s.i % length s.servers + 1 }) p
        ∙ ap (map some) (
            cycle-congruent s.servers n (s.i % length s.servers + 1) (suc s.i) (
              mod-add-mod s.i (length s.servers) 1
              ∙ ap (λ k. k % length s.servers) (omega arith)))))
