-- ===== src/Selector/Modes/Among.antt =====
-- Every selector of selector/ gives only servers that it was given.
use mathlib.Core.List.{Memᴰ}
use frpc.Base.{ℕ, zero, suc, ◌≡◌, ◌⊎◌, inl, inr, refl, List, [], ◌∷◌, Option, none, some, get_elem?}
use frpc.Base.Int.{ℤ}
use frpc.Base.Bytes.{Bytes}
use frpc.Selector.Weight.{Weighted, charge, advance}
use frpc.Selector.Weight.Step.{advance_all, Chosen, nothing, chosen, next_weighted-Chosen}
use frpc.Selector.Modes.{
  Selector, random_selector, round_robin_selector, weighted_selector, hash_selector, ping_selector,
  server_at, select_weighted,
}

-- No server, or one of them.
abbrev pub OneOf : List Bytes → Bytes → Type 0
OneOf ss x = (x ≡ []) ⊎ Memᴰ x ss

-- Every server that is not nil is one of them.
abbrev pub AllOf : List Bytes → List (Option Weighted) → Type 0
AllOf ss [] = Unit {0}
AllOf ss (none ∷ ws) = AllOf ss ws
AllOf ss (some w ∷ ws) = Memᴰ w.server ss × AllOf ss ws

-- What Select gives: no panic, and no server or one of them.
abbrev pub Picked : List Bytes → Option Bytes → Type 0
Picked ss r = (x : Bytes) × (r ≡ some x) × OneOf ss x

abbrev pub Holds : List Bytes → Selector → Type 0
Holds ss (random_selector own) = own ≡ ss
Holds ss (round_robin_selector s) = s.servers ≡ ss
Holds ss (weighted_selector ws) = AllOf ss ws
Holds ss (hash_selector own) = own ≡ ss
Holds ss (ping_selector ws) = AllOf ss ws

pub get_elem?-Memᴰ : (ss : List Bytes) (i : ℕ) (x : Bytes) → get_elem? ss i ≡ some x → Memᴰ x ss
get_elem?-Memᴰ [] i x e = absurd (cc)
get_elem?-Memᴰ (y ∷ ss) zero x e = Memᴰ.head (cc)
get_elem?-Memᴰ (y ∷ ss) (suc i) x e = Memᴰ.tail (get_elem?-Memᴰ ss i x e)

AllOf-advance_all :
    (ss : List Bytes) (ws : List (Option Weighted)) → AllOf ss ws → AllOf ss (advance_all ws)
unfolding advance
AllOf-advance_all ss [] h = tt
AllOf-advance_all ss (none ∷ ws) h = AllOf-advance_all ss ws h
AllOf-advance_all ss (some w ∷ ws) (d, h) = (d, AllOf-advance_all ss ws h)

AllOf-charge :
    (ss : List Bytes) (i : ℕ) (t : ℤ) (ws : List (Option Weighted))
    → AllOf ss ws
    → AllOf ss (charge i t ws)
unfolding charge
AllOf-charge ss i t [] h = tt
AllOf-charge ss zero t (none ∷ ws) h = h
AllOf-charge ss zero t (some w ∷ ws) h = h
AllOf-charge ss (suc i) t (none ∷ ws) h = AllOf-charge ss i t ws h
AllOf-charge ss (suc i) t (some w ∷ ws) (d, h) = (d, AllOf-charge ss i t ws h)

AllOf-next_weighted :
    (ss : List Bytes) (ws : List (Option Weighted)) (r : Option ℕ × List (Option Weighted))
    → Chosen ws r
    → AllOf ss ws
    → AllOf ss r.1
AllOf-next_weighted ss ws _ (nothing f) h = AllOf-advance_all ss ws h
AllOf-next_weighted ss ws _ (chosen i c s m) h = AllOf-charge ss i _ _ (AllOf-advance_all ss ws h)

-- The server that was chosen and charged is there, and one of them.
server_at-charge :
    (ss : List Bytes) (ws : List (Option Weighted)) (i : ℕ) (t : ℤ) (w : Weighted)
    → AllOf ss ws
    → get_elem? ws i ≡ some (some w)
    → Picked ss (server_at (charge i t ws) i)
unfolding server_at charge
server_at-charge ss [] i t w h e = cc
server_at-charge ss (none ∷ ws) zero t w h e = cc
server_at-charge ss (some y ∷ ws) zero t w (d, h) e = (y.server, refl, inr d)
server_at-charge ss (none ∷ ws) (suc i) t w h e = server_at-charge ss ws i t w h e
server_at-charge ss (some y ∷ ws) (suc i) t w (d, h) e = server_at-charge ss ws i t w h e

-- What Select makes of the outcome of nextWeighted.
abbrev server_of : Option ℕ × List (Option Weighted) → Option Bytes
server_of r = elim r.0 [ none ↦ some [] | some i ↦ server_at r.1 i ]

Chosen-Picked :
    (ss : List Bytes) (ws : List (Option Weighted)) (r : Option ℕ × List (Option Weighted))
    → Chosen ws r
    → AllOf ss ws
    → Picked ss (server_of r)
Chosen-Picked ss ws _ (nothing f) h = ([], refl, inl refl)
Chosen-Picked ss ws _ (chosen i c (w, at, e) m) h =
    server_at-charge ss (advance_all ws) i _ w (AllOf-advance_all ss ws h) at

pub select_weighted-Picked :
    (ss : List Bytes) (ws : List (Option Weighted))
    → AllOf ss ws
    → Picked ss (select_weighted ws).0 × AllOf ss (select_weighted ws).1
unfolding select_weighted
select_weighted-Picked ss [] h = (([], refl, inl refl), tt)
select_weighted-Picked ss (w ∷ ws) h = (
  Chosen-Picked ss (w ∷ ws) _ (next_weighted-Chosen (w ∷ ws)) h,
  AllOf-next_weighted ss (w ∷ ws) _ (next_weighted-Chosen (w ∷ ws)) h,
)
