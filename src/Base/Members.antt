-- ===== src/Base/Members.antt =====
-- Membership in a list, and the list without the element at one place.
use Prim.Native.Nat.{ℕ, zero, suc, ◌<◌}
use mathlib.Core.Path.{◌≡◌, refl, ap}
use mathlib.Core.Logic.{◌⊎◌, inl, inr}
use mathlib.Core.List.{List, [], ◌∷◌, ◌++◌, Memᴰ}
use mathlib.Core.Option.{some}
use native.Mathlib.Omega.{arith}
use frpc.Base.Lists.{length, get_elem?}

module _ {ℓ} {A : Type ℓ} where
  abbrev pub remove_at : ℕ → List A → List A
  remove_at i [] = []
  remove_at zero (x ∷ xs) = xs
  remove_at (suc i) (x ∷ xs) = x ∷ remove_at i xs

  pub Memᴰ-append : (y : A) (xs ys : List A) → Memᴰ y xs → Memᴰ y (xs ++ ys)
  Memᴰ-append y [] ys h = elim h [ ]
  Memᴰ-append y (x ∷ xs) ys (Memᴰ.head e) = Memᴰ.head e
  Memᴰ-append y (x ∷ xs) ys (Memᴰ.tail h) = Memᴰ.tail (Memᴰ-append y xs ys h)

  pub Memᴰ-new : (y : A) (xs : List A) → Memᴰ y (xs ++ (y ∷ []))
  Memᴰ-new y [] = Memᴰ.head refl
  Memᴰ-new y (x ∷ xs) = Memᴰ.tail (Memᴰ-new y xs)

  pub Memᴰ-cases : (y x : A) (xs : List A) → Memᴰ y (xs ++ (x ∷ [])) → Memᴰ y xs ⊎ (y ≡ x)
  Memᴰ-cases y x [] (Memᴰ.head e) = inr e
  Memᴰ-cases y x [] (Memᴰ.tail h) = elim h [ ]
  Memᴰ-cases y x (z ∷ xs) (Memᴰ.head e) = inl (Memᴰ.head e)
  Memᴰ-cases y x (z ∷ xs) (Memᴰ.tail h) = elim (Memᴰ-cases y x xs h) [
    | inl old ↦ inl (Memᴰ.tail old)
    | inr e ↦ inr e
  ]

  pub Memᴰ-get_elem? : (x : A) (xs : List A) (i : ℕ) → get_elem? xs i ≡ some x → Memᴰ x xs
  Memᴰ-get_elem? x [] i e = cc
  Memᴰ-get_elem? x (y ∷ xs) zero e = Memᴰ.head (cc)
  Memᴰ-get_elem? x (y ∷ xs) (suc i) e = Memᴰ.tail (Memᴰ-get_elem? x xs i e)

  pub Memᴰ-remove_at : (y : A) (i : ℕ) (xs : List A) → Memᴰ y (remove_at i xs) → Memᴰ y xs
  Memᴰ-remove_at y i [] h = h
  Memᴰ-remove_at y zero (x ∷ xs) h = Memᴰ.tail h
  Memᴰ-remove_at y (suc i) (x ∷ xs) (Memᴰ.head e) = Memᴰ.head e
  Memᴰ-remove_at y (suc i) (x ∷ xs) (Memᴰ.tail h) = Memᴰ.tail (Memᴰ-remove_at y i xs h)

  -- An element is the one taken out, or is still there.
  pub remove_at-cases :
      (y x : A) (i : ℕ) (xs : List A)
      → get_elem? xs i ≡ some x
      → Memᴰ y xs
      → (y ≡ x) ⊎ Memᴰ y (remove_at i xs)
  remove_at-cases y x i [] e h = inr h
  remove_at-cases y x zero (z ∷ xs) e (Memᴰ.head q) = inl (cc)
  remove_at-cases y x zero (z ∷ xs) e (Memᴰ.tail h) = inr h
  remove_at-cases y x (suc i) (z ∷ xs) e (Memᴰ.head q) = inr (Memᴰ.head q)
  remove_at-cases y x (suc i) (z ∷ xs) e (Memᴰ.tail h) = elim (remove_at-cases y x i xs e h) [
    | inl q ↦ inl q
    | inr rest ↦ inr (Memᴰ.tail rest)
  ]

  pub get_elem?-append :
      (xs ys : List A) (i : ℕ) (x : A) → get_elem? xs i ≡ some x → get_elem? (xs ++ ys) i ≡ some x
  get_elem?-append [] ys i x e = cc
  get_elem?-append (z ∷ xs) ys zero x e = e
  get_elem?-append (z ∷ xs) ys (suc i) x e = get_elem?-append xs ys i x e

  pub get_elem?-new : (xs : List A) (x : A) → get_elem? (xs ++ (x ∷ [])) (length xs) ≡ some x
  get_elem?-new [] x = refl
  get_elem?-new (y ∷ xs) x = get_elem?-new xs x

  pub get_elem?-cases :
      (xs : List A) (x y : A) (i : ℕ)
      → get_elem? (xs ++ (x ∷ [])) i ≡ some y
      → (get_elem? xs i ≡ some y) ⊎ ((i ≡ length xs) × (y ≡ x))
  get_elem?-cases [] x y zero e = inr (refl, cc)
  get_elem?-cases [] x y (suc i) e = cc
  get_elem?-cases (z ∷ xs) x y zero e = inl e
  get_elem?-cases (z ∷ xs) x y (suc i) e = elim (get_elem?-cases xs x y i e) [
    | inl old ↦ inl old
    | inr (at, q) ↦ inr (ap suc at, q)
  ]

  pub get_elem?-in_bounds : (xs : List A) (i : ℕ) (x : A) → get_elem? xs i ≡ some x → i < length xs
  get_elem?-in_bounds [] i x e = cc
  get_elem?-in_bounds (z ∷ xs) zero x e = omega arith
  get_elem?-in_bounds (z ∷ xs) (suc i) x e = omega (arith, get_elem?-in_bounds xs i x e)

  pub in_bounds : (xs : List A) (i : ℕ) → i < length xs → (x : A) × (get_elem? xs i ≡ some x)
  in_bounds [] i h = absurd (omega arith)
  in_bounds (z ∷ xs) zero h = (z, refl)
  in_bounds (z ∷ xs) (suc i) h = in_bounds xs i (omega arith)
