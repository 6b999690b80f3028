-- ===== src/Base/Dict.antt =====
-- Go's maps as association lists in the order in which `range` visits them: an order that the
-- run time chooses, so the theorems hold for every order.
use frpc.Base.{◌≡◌, refl, false, List, [], ◌∷◌, ◌++◌, Option, none, some, arith, if◌then◌else◌}
use frpc.Base.Bytes.{Bytes, eq, eq_iff}

abbrev pub Dict {ℓ} : Type ℓ → Type ℓ
Dict V = List (Bytes × V)

module _ {ℓ} {V : Type ℓ} where
  -- `m[k]`; `none` where the key is missing.
  unfoldable pub lookup : Bytes → Dict V → Option V
  lookup k [] = none
  lookup k ((j, v) ∷ m) = if eq j k then some v else lookup k m

  -- `delete(m, k)`.
  unfoldable pub erase : Bytes → Dict V → Dict V
  erase k [] = []
  erase k ((j, w) ∷ m) = if eq j k then erase k m else (j, w) ∷ erase k m

  -- `m[k] = v`.
  unfoldable pub insert : Bytes → V → Dict V → Dict V
  insert k v [] = (k, v) ∷ []
  insert k v ((j, w) ∷ m) = if eq j k then (k, v) ∷ m else (j, w) ∷ insert k v m

  abbrev pub Missing : Bytes → Dict V → Type 0
  Missing k [] = Unit {0}
  Missing k ((j, w) ∷ m) = (eq j k ≡ false) × Missing k m

  -- The keys differ from one another, as the keys of a Go map do.
  abbrev pub Distinct : Dict V → Type 0
  Distinct [] = Unit {0}
  Distinct ((j, w) ∷ m) = Missing j m × Distinct m

  Missing-middle :
      (k j : Bytes) (v : V) (m n : Dict V) → Missing j (m ++ ((k, v) ∷ n)) → eq k j ≡ false
  Missing-middle k j v [] n h = h.0
  Missing-middle k j v ((i, w) ∷ m) n h = Missing-middle k j v m n h.1

  -- No key of the front stands again behind it.
  pub Distinct-middle :
      (k : Bytes) (v : V) (m n : Dict V) → Distinct (m ++ ((k, v) ∷ n)) → Missing k m
  Distinct-middle k v [] n h = tt
  Distinct-middle k v ((j, w) ∷ m) n h = (
    ground (arith, Missing-middle k j v m n h.0, eq_iff k j, eq_iff j k),
    Distinct-middle k v m n h.1,
  )

  pub lookup-insert :
      (key asked : Bytes) (v : V) (rest : Dict V)
      → lookup asked (insert key v rest) ≡ (if eq key asked then some v else lookup asked rest)
  unfolding lookup insert
  lookup-insert key asked v [] = refl
  lookup-insert key asked v ((i, old) ∷ rest) =
      ground (arith, eq_iff key asked, eq_iff i key, eq_iff i asked, lookup-insert key asked v rest)

  pub lookup-erase :
      (k j : Bytes) (m : Dict V) → lookup j (erase k m) ≡ (if eq k j then none else lookup j m)
  unfolding lookup erase
  lookup-erase k j [] = ground arith
  lookup-erase k j ((i, w) ∷ m) =
      ground (arith, eq_iff k j, eq_iff i k, eq_iff i j, lookup-erase k j m)

  -- A new key goes to the end.
  pub insert_new : (k : Bytes) (v : V) (m : Dict V) → Missing k m → insert k v m ≡ m ++ (k, v) ∷ []
  unfolding insert
  insert_new k v [] h = refl
  insert_new k v ((j, w) ∷ m) h = ground (arith, insert_new k v m h.1)

  pub lookup-Missing : (k : Bytes) (m : Dict V) → Missing k m → lookup k m ≡ none
  unfolding lookup
  lookup-Missing k [] h = refl
  lookup-Missing k ((j, w) ∷ m) h = ground (arith, lookup-Missing k m h.1)
