-- ===== src/Base/Tables.antt =====
-- Facts about single bytes, checked over all of their values.
use Prim.Native.Nat.{ℕ, zero, suc, ◌<◌}
use mathlib.Core.Path.{◌≡◌}
use mathlib.Core.Bool.{Bool, true, ◌&&◌}
use native.Mathlib.Omega.{arith}
use frpc.Base.Tests.{◌==◌, ==_iff}

unfoldable pub holds_below : (ℕ → Bool) → ℕ → Bool
holds_below p zero = true
holds_below p (suc n) = holds_below p n && p n

pub holds_below_sound : (p : ℕ → Bool) (n x : ℕ) → holds_below p n ≡ true → x < n → p x ≡ true
unfolding holds_below
holds_below_sound p zero x h lt = absurd (omega arith)
holds_below_sound p (suc n) x h lt = ground (arith, holds_below_sound p n x)

-- Two functions that agree on every number below `n`.
pub table :
    (n : ℕ) (f g : ℕ → ℕ) → holds_below (λ x. f x == g x) n ≡ true → (x : ℕ) → x < n → f x ≡ g x
table n f g h x lt = (==_iff (f x) (g x)).0 (holds_below_sound (λ x. f x == g x) n x h lt)

-- The same of two arguments.
pub table₂ :
    (n m : ℕ) (f g : ℕ → ℕ → ℕ)
    → holds_below (λ x. holds_below (λ y. f x y == g x y) m) n ≡ true
    → (x y : ℕ) → x < n
    → y < m
    → f x y ≡ g x y
table₂ n m f g h x y lt lt' =
    table m (f x) (g x) (holds_below_sound (λ a. holds_below (λ b. f a b == g a b) m) n x h lt) y
      lt'
