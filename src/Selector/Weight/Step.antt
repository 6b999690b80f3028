-- ===== src/Selector/Weight/Step.antt =====
-- One round of nextWeighted of selector/weight.go.
use frpc.Base.{
  ℕ, zero, suc, ◌+◌, ◌≡◌, refl, sym, ap, subst, ◌∙◌, List, [], ◌∷◌, Option, none, some, arith,
  get_elem?, ◌⊎◌, inl, inr, Bool-cases,
}
use frpc.Base.Int.{ℤ, pos, ◌+ℤ◌, ◌≤ℤ◌, ltb_ℤ, int_laws}
use frpc.Selector.Weight.{Weighted, advance, better, next_loop, charge, next_weighted}

abbrev pub advance_all : List (Option Weighted) → List (Option Weighted)
advance_all [] = []
advance_all (none ∷ ws) = none ∷ advance_all ws
advance_all (some w ∷ ws) = some (advance w) ∷ advance_all ws

abbrev pub total_effective : List (Option Weighted) → ℤ
total_effective [] = pos 0
total_effective (none ∷ ws) = total_effective ws
total_effective (some w ∷ ws) = w.effective +ℤ total_effective ws

next_loop-servers :
    (ws : List (Option Weighted)) (i : ℕ) (b : Option (ℕ × ℤ)) (t : ℤ)
    → (next_loop ws i b t).0 ≡ advance_all ws
unfolding next_loop
next_loop-servers [] i b t = refl
next_loop-servers (none ∷ ws) i b t = ap (◌∷◌ none) (next_loop-servers ws (suc i) b t)
next_loop-servers (some w ∷ ws) i b t =
    ap (◌∷◌ (some (advance w))) (next_loop-servers ws (suc i) _ _)

next_loop-total :
    (ws : List (Option Weighted)) (i : ℕ) (b : Option (ℕ × ℤ)) (t : ℤ)
    → (next_loop ws i b t).2 ≡ t +ℤ total_effective ws
unfolding next_loop
next_loop-total [] i b t = omega int_laws
next_loop-total (none ∷ ws) i b t = next_loop-total ws (suc i) b t
next_loop-total (some w ∷ ws) i b t =
    next_loop-total ws (suc i) _ (t +ℤ w.effective) ∙ omega int_laws

-- No server that is not nil is above `c`.
abbrev pub AllAtMost : ℤ → List (Option Weighted) → Type 0
AllAtMost c [] = Unit {0}
AllAtMost c (none ∷ ws) = AllAtMost c ws
AllAtMost c (some w ∷ ws) = (w.current ≤ℤ c) × AllAtMost c ws

abbrev pub StandsAt : List (Option Weighted) → ℕ → ℤ → Type 0
StandsAt ws i c = (w : Weighted) × (get_elem? ws i ≡ some (some w)) × (w.current ≡ c)

-- The loop's best: what it was given, or a server of the list; at least what it was given; and no
-- server of the list is above it.
abbrev Best : List (Option Weighted) → ℕ → Option (ℕ × ℤ) → Option (ℕ × ℤ) → Type 0
Best ws i none none = (k : ℕ) (w : Weighted) → get_elem? ws k ≡ some (some w) → ⊥
Best ws i (some b) none = ⊥
Best ws i none (some (j, c)) = AllAtMost c ws × ((k : ℕ) × (j ≡ i + k) × StandsAt ws k c)
Best ws i (some (a, d)) (some (j, c)) =
    AllAtMost c ws × (d ≤ℤ c) × (((j ≡ a) × (c ≡ d)) ⊎ ((k : ℕ) × (j ≡ i + k) × StandsAt ws k c))

StandsAt-later :
    (ws : List (Option Weighted)) (j i : ℕ) (c : ℤ) (x : Option Weighted)
    → (k : ℕ) × (j ≡ suc i + k) × StandsAt ws k c
    → (k : ℕ) × (j ≡ i + k) × StandsAt (x ∷ ws) k c
StandsAt-later ws j i c x (k, e, s) = (suc k, omega arith, s)

Best-nil :
    (ws : List (Option Weighted)) (i : ℕ) (b r : Option (ℕ × ℤ))
    → Best ws (suc i) b r
    → Best (none ∷ ws) i b r
Best-nil ws i none none h = λ k w e. later k w e
  where
    later : (k : ℕ) (w : Weighted) → get_elem? (none ∷ ws) k ≡ some (some w) → ⊥
    later zero w e = cc
    later (suc k) w e = h k w e
Best-nil ws i (some b) none h = h
Best-nil ws i none (some (j, c)) h = (h.0, StandsAt-later ws j i c none h.1)
Best-nil ws i (some (a, d)) (some (j, c)) h =
    (h.0, h.1, elim h.2 [ inl x ↦ inl x | inr x ↦ inr (StandsAt-later ws j i c none x) ])

-- The new server becomes the best one.
Best-taken :
    (ws : List (Option Weighted)) (i : ℕ) (w : Weighted) (b r : Option (ℕ × ℤ))
    → (b ≡ none) ⊎ ((a : ℕ) × (d : ℤ) × (b ≡ some (a, d)) × (d ≤ℤ w.current))
    → Best ws (suc i) (some (i, w.current)) r
    → Best (some w ∷ ws) i b r
Best-taken ws i w b none p h = absurd h
Best-taken ws i w none (some (j, c)) p h = (
  (h.1, h.0),
  elim h.2 [
    | inl (e, f) ↦ (0, omega arith, (w, refl, sym f))
    | inr x ↦ StandsAt-later ws j i c (some w) x
  ],
)
Best-taken ws i w (some (a, d)) (some (j, c)) (inl e) h = cc
Best-taken ws i w (some (a, d)) (some (j, c)) (inr (a', d', e, l)) h = (
  (h.1, h.0),
  ground (arith, e, l, h.1),
  elim h.2 [
    | inl (q, f) ↦ inr (0, omega arith, (w, refl, sym f))
    | inr x ↦ inr (StandsAt-later ws j i c (some w) x)
  ],
)

-- The best one so far stays.
Best-kept :
    (ws : List (Option Weighted)) (i : ℕ) (w : Weighted) (a : ℕ) (d : ℤ) (r : Option (ℕ × ℤ))
    → w.current ≤ℤ d
    → Best ws (suc i) (some (a, d)) r
    → Best (some w ∷ ws) i (some (a, d)) r
Best-kept ws i w a d none l h = absurd h
Best-kept ws i w a d (some (j, c)) l h = (
  (omega (arith, l, h.1), h.0),
  h.1,
  elim h.2 [ inl x ↦ inl x | inr x ↦ inr (StandsAt-later ws j i c (some w) x) ],
)

next_loop-Best :
    (ws : List (Option Weighted)) (i : ℕ) (b : Option (ℕ × ℤ)) (t : ℤ)
    → Best (advance_all ws) i b (next_loop ws i b t).1
unfolding next_loop
next_loop-Best [] i none t = λ k w e. cc
next_loop-Best [] i (some (a, d)) t = (tt, omega arith, inl (refl, refl))
next_loop-Best (none ∷ ws) i b t = Best-nil (advance_all ws) i b _ (next_loop-Best ws (suc i) b t)
next_loop-Best (some w ∷ ws) i none t =
    unfold better in
    Best-taken (advance_all ws) i (advance w) none _ (inl refl)
      (next_loop-Best ws (suc i) (some (i, (advance w).current)) (t +ℤ w.effective))
next_loop-Best (some w ∷ ws) i (some (a, d)) t = elim (Bool-cases (ltb_ℤ d (advance w).current)) [
  | inl e ↦
      rw (e, better)
        (Best-taken (advance_all ws) i (advance w) (some (a, d)) _
          (inr (a, d, refl, ground (arith, e)))
          (next_loop-Best ws (suc i) (some (i, (advance w).current)) (t +ℤ w.effective)))
  | inr e ↦
      rw (e, better)
        (Best-kept (advance_all ws) i (advance w) a d _ (ground (arith, e))
          (next_loop-Best ws (suc i) (some (a, d)) (t +ℤ w.effective)))
]

-- nextWeighted, as one step: every server advances, and the chosen one, which had the greatest
-- current weight, is charged with the total. Only where all servers are nil is there none.
pub data Chosen (ws : List (Option Weighted)) : Option ℕ × List (Option Weighted) → Type 0 where
  nothing :
      ((k : ℕ) (w : Weighted) → get_elem? (advance_all ws) k ≡ some (some w) → ⊥)
      → Chosen ws (none, advance_all ws)
  chosen :
      (i : ℕ) (c : ℤ)
      → StandsAt (advance_all ws) i c
      → AllAtMost c (advance_all ws)
      → Chosen ws (some i, charge i (total_effective ws) (advance_all ws))

-- nextWeighted advances every server and either finds only nil pointers, or chooses a server whose
-- advanced current weight no other exceeds and takes the total of the effective weights off it.
pub next_weighted-Chosen : (ws : List (Option Weighted)) → Chosen ws (next_weighted ws)
unfolding next_weighted
next_weighted-Chosen ws = by_best (next_loop ws 0 none (pos 0)).1 refl
  where
    total : (next_loop ws 0 none (pos 0)).2 ≡ total_effective ws
    total = next_loop-total ws 0 none (pos 0) ∙ omega int_laws

    placed :
        (i : ℕ) (c : ℤ)
        → Best (advance_all ws) 0 none (some (i, c))
        → Chosen ws (some i, charge i (total_effective ws) (advance_all ws))
    placed i c (le, (k, e, s)) =
        chosen i c (subst (λ j. StandsAt (advance_all ws) j c) (omega arith) s) le

    by_best :
        (r : Option (ℕ × ℤ)) → (next_loop ws 0 none (pos 0)).1 ≡ r → Chosen ws (next_weighted ws)
    by_best none e =
        rw (e, next_weighted)
          (rw (next_loop-servers ws 0 none (pos 0))
            (nothing (rw e at (next_loop-Best ws 0 none (pos 0)))))
    by_best (some (i, c)) e =
        rw (e, next_weighted)
          (rw (next_loop-servers ws 0 none (pos 0), total)
            (placed i c (rw e at (next_loop-Best ws 0 none (pos 0)))))
