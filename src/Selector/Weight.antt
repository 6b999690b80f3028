-- ===== src/Selector/Weight.antt =====
-- nextWeighted of selector/weight.go: smooth weighted round robin, as in nginx. An int of 64 bits is
-- an integer: the weights are taken to be so small that no sum wraps.
pub mod Step
use frpc.Base.{
  ℕ, suc, zero, ◌+◌, Bool, true, false, List, [], ◌∷◌, Option, none, some, if◌then◌else◌,
}
use frpc.Base.Int.{ℤ, pos, ◌+ℤ◌, ◌-ℤ◌, ltb_ℤ}
use frpc.Base.Bytes.{Bytes}

pub record Weighted : Type 0 where
  pub server : Bytes
  pub weight : ℤ
  pub current : ℤ
  pub effective : ℤ

-- What a round does to every server that is not nil.
unfoldable pub advance : Weighted → Weighted
advance w = record w {
  current = w.current +ℤ w.effective;
  effective = if ltb_ℤ w.effective w.weight then w.effective +ℤ pos 1 else w.effective;
}

-- The best server so far: its place, and its current weight.
unfoldable pub better : Option (ℕ × ℤ) → ℕ → ℤ → Option (ℕ × ℤ)
better none i c = some (i, c)
better (some (j, d)) i c = if ltb_ℤ d c then some (i, c) else some (j, d)

-- The loop from the place `i` on: the servers as it leaves them, the best one, and the total. A nil
-- pointer is `none`.
unfoldable pub next_loop :
    List (Option Weighted) → ℕ → Option (ℕ × ℤ) → ℤ → List (Option Weighted) × Option (ℕ × ℤ) × ℤ
unfolding advance better
next_loop [] i best total = ([], best, total)
next_loop (none ∷ ws) i best total =
    let (ws', best', total') = next_loop ws (suc i) best total in (none ∷ ws', best', total')
next_loop (some w ∷ ws) i best total =
    let (ws', best', total') =
      next_loop ws (suc i) (better best i (advance w).current) (total +ℤ w.effective) in
    (some (advance w) ∷ ws', best', total')

-- best.CurrentWeight -= total
unfoldable pub charge : ℕ → ℤ → List (Option Weighted) → List (Option Weighted)
charge i t [] = []
charge zero t (none ∷ ws) = none ∷ ws
charge zero t (some w ∷ ws) = some (record w { current = w.current -ℤ t }) ∷ ws
charge (suc i) t (w ∷ ws) = w ∷ charge i t ws

-- The place of the chosen server, and the servers afterwards.
unfoldable pub next_weighted : List (Option Weighted) → Option ℕ × List (Option Weighted)
unfolding next_loop charge
next_weighted ws =
    let (ws', best, total) = next_loop ws 0 none (pos 0) in
    elim best [ none ↦ (none, ws') | some (i, c) ↦ (some i, charge i total ws') ]
