-- ===== src/Selector/Hash/Jump.antt =====
-- The jump hash of selector/hash.go: it ends, stays below the number of buckets, and is consistent.
use frpc.Base.{
  ℕ, zero, suc, ◌+◌, ◌*◌, ◌/◌, ◌%◌, ◌^◌, ◌≤◌, ◌<◌, ◌≡◌, ◌⊎◌, inl, inr, refl, sym, ap, ◌∙◌,
  Bool-cases, true, false, List, [], ◌∷◌, ◌++◌, some, arith, ltb, ◌==◌, length, length-append,
  get_elem?,
}
use frpc.Base.Bytes.{Bytes}
use frpc.Selector.Hash.{hash_loop, hash, hash_string, key_string, jump_consistent_hash, hash_select}

-- The step moves forward: 2 ^ 31 / k is at least 1 for the divisors that come up, and the product
-- with b, which float64 holds exactly, is not rounded below b.
abbrev pub Forward : (ℕ → ℕ → ℕ) → Type 0
Forward jump = (b k : ℕ) → 1 ≤ k → k ≤ 2 ^ 31 → b ≤ jump b k

module _ (jump : ℕ → ℕ → ℕ) (forward : Forward jump) where
  -- The divisor of a round, and the next place.
  divisor : ℕ → ℕ
  divisor key = ((key * 2862933555777941757 + 1) % 2 ^ 64) / 2 ^ 33 + 1

  divisor_bounds : (key : ℕ) → (1 ≤ divisor key) × (divisor key ≤ 2 ^ 31)
  unfolding divisor
  divisor_bounds key = (omega arith, omega arith)

  step_forward : (key j : ℕ) → j < jump (j + 1) (divisor key)
  step_forward key j =
      let (low, high) = divisor_bounds key in omega (arith, forward (j + 1) (divisor key) low high)

  hash_loop_ends :
      (fuel n key b j : ℕ)
      → 0 < fuel
      → n < j + fuel
      → b < n
      → (r : ℕ) × (hash_loop jump fuel n key b j ≡ some r) × (r < n)
  unfolding hash_loop divisor
  hash_loop_ends zero n key b j p f l = absurd (omega arith)
  hash_loop_ends (suc fuel) n key b j p f l = elim (Bool-cases (ltb j n)) [
    | inl e ↦ rw e (
        hash_loop_ends fuel n _ j _ (ground (arith, e)) (ground (arith, e, step_forward key j))
          (ground (arith, e)))
    | inr e ↦ rw e (b, refl, l)
  ]

  hash_loop_next :
      (fuel n key b j r : ℕ)
      → hash_loop jump fuel n key b j ≡ some r
      → (hash_loop jump (suc fuel) (suc n) key b j ≡ some r)
        ⊎ (hash_loop jump (suc fuel) (suc n) key b j ≡ some n)
  unfolding hash_loop divisor
  hash_loop_next zero n key b j r e = absurd (cc)
  hash_loop_next (suc fuel) n key b j r e = elim (Bool-cases (ltb j n)) [
    | inl l ↦ rw (below_next l) (hash_loop_next fuel n _ j _ r (rw l at e))
    | inr l ↦ elim (Bool-cases (ltb j (suc n))) [
      | inl m ↦ rw m (rw (past l) (inr (ap some (ground (arith, l, m)))))
      | inr m ↦ rw m (inl (rw l at e))
    ]
  ]
    where
      below_next : ltb j n ≡ true → ltb j (suc n) ≡ true
      below_next l = ground (arith, l)

      past : ltb j n ≡ false → ltb (jump (j + 1) (divisor key)) (suc n) ≡ false
      past l = ground (arith, l, step_forward key j)

  hash-hash_loop : (key n : ℕ) → 0 < n → hash jump key n ≡ hash_loop jump (suc n) n key 0 0
  unfolding hash
  hash-hash_loop key n p = rw (n_positive, hash) refl
    where
      n_positive : (n == 0) ≡ false
      n_positive = ground arith

  -- A hash exists and is a bucket.
  hash_ends : (key n : ℕ) → 0 < n → (r : ℕ) × (hash jump key n ≡ some r) × (r < n)
  hash_ends key n p =
      let (r, e, l) = hash_loop_ends (suc n) n key 0 0 (omega arith) (omega arith) p in
      (r, hash-hash_loop key n p ∙ e, l)

  hash_next :
      (key n : ℕ)
      → 0 < n
      → (hash jump key (suc n) ≡ hash jump key n) ⊎ (hash jump key (suc n) ≡ some n)
  hash_next key n p =
      let (r, e, l) = hash_loop_ends (suc n) n key 0 0 (omega arith) (omega arith) p in
      let grown = hash-hash_loop key (suc n) (omega arith) in
      elim (hash_loop_next (suc n) n key 0 0 r e) [
        | inl x ↦ inl (grown ∙ x ∙ sym (hash-hash_loop key n p ∙ e))
        | inr x ↦ inr (grown ∙ x)
      ]

get_elem?-below :
    (servers : List Bytes) (i : ℕ)
    → i < length servers
    → (x : Bytes) × (get_elem? servers i ≡ some x)
get_elem?-below [] i h = absurd (omega arith)
get_elem?-below (x ∷ servers) zero h = (x, refl)
get_elem?-below (x ∷ servers) (suc i) h = get_elem?-below servers i (omega (arith, h))

get_elem?-front :
    (servers more : List Bytes) (i : ℕ)
    → i < length servers
    → get_elem? (servers ++ more) i ≡ get_elem? servers i
get_elem?-front [] more i h = absurd (omega arith)
get_elem?-front (x ∷ servers) more zero h = refl
get_elem?-front (x ∷ servers) more (suc i) h = get_elem?-front servers more i (omega (arith, h))

get_elem?-last :
    (servers : List Bytes) (x : Bytes) → get_elem? (servers ++ (x ∷ [])) (length servers) ≡ some x
get_elem?-last [] x = refl
get_elem?-last (y ∷ servers) x = get_elem?-last servers x

module _ (jump : ℕ → ℕ → ℕ) (forward : Forward jump) (servers : List Bytes)
    (path method args : Bytes) where
  -- The hash of the selector.
  key : ℕ
  key = hash_string (key_string (path ∷ method ∷ args ∷ []))

  hash_select_at :
      (servers : List Bytes) (i : ℕ)
      → 0 < length servers
      → hash jump key (length servers) ≡ some i
      → hash_select jump servers path method args ≡ get_elem? servers i
  unfolding hash_select jump_consistent_hash key
  hash_select_at servers i p e = rw (not_empty, e, hash_select) refl
    where
      not_empty : (length servers == 0) ≡ false
      not_empty = ground arith

  -- Select of the hash selector ends, its index is never out of range, and it gives one of the
  -- servers. Conditions: there is a server, and the step of the hash in float64 does not go back.
  pub hash_select_member :
      0 < length servers
      → (i : ℕ) × (x : Bytes) × (hash_select jump servers path method args ≡ some x)
        × (get_elem? servers i ≡ some x)
  hash_select_member p =
      let (i, e, l) = hash_ends jump forward key (length servers) p in
      let (x, q) = get_elem?-below servers i l in (i, x, hash_select_at servers i p e ∙ q, q)

  -- The hash selector is consistent: when one server is added behind the others, a request goes to
  -- the same server as before or to the new one. Conditions: there was a server, and the step of
  -- the hash in float64 does not go back.
  pub hash_select_consistent :
      (new : Bytes)
      → 0 < length servers
      → (hash_select jump (servers ++ (new ∷ [])) path method args
          ≡ hash_select jump servers path method args)
        ⊎ (hash_select jump (servers ++ (new ∷ [])) path method args ≡ some new)
  hash_select_consistent new p =
      let (i, e, l) = hash_ends jump forward key (length servers) p in
      elim (hash_next jump forward key (length servers) p) [
        | inl x ↦ inl (
            hash_select_at (servers ++ (new ∷ [])) i grown_positive
              (ap (hash jump key) grown ∙ x ∙ e)
            ∙ get_elem?-front servers (new ∷ []) i l
            ∙ sym (hash_select_at servers i p e))
        | inr x ↦ inr (
            hash_select_at (servers ++ (new ∷ [])) (length servers) grown_positive
              (ap (hash jump key) grown ∙ x)
            ∙ get_elem?-last servers new)
      ]
    where
      grown : length (servers ++ (new ∷ [])) ≡ suc (length servers)
      grown = omega (arith, length-append servers (new ∷ []))

      grown_positive : 0 < length (servers ++ (new ∷ []))
      grown_positive = omega (arith, grown)
