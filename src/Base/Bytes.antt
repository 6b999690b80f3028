-- ===== src/Base/Bytes.antt =====
-- Go's strings and byte slices: lists of bytes. Slicing with its run-time check, `copy`, zeroes.
use Prim.Native.Char.{code}
use Prim.Native.String.{String}
use frpc.Base.{
  ℕ, zero, suc, ◌+◌, ◌-◌, ◌≤◌, ◌<◌, ◌≡◌, refl, sym, ap, ◌∙◌, Bool, true, false, ◌&&◌, ◌↔◌, List, [],
  ◌∷◌, ◌++◌, Option, none, some, arith, ◌==◌, leb, if◌then◌else◌, length, length-append, take, drop,
  replicate, append_assoc,
}

abbrev pub Bytes : Type 0
Bytes = List ℕ

-- The bytes of an ASCII literal.
abbrev pub text : String → Bytes
text String.[] = []
text (String.◌∷◌ c s) = code c ∷ text s

abbrev pub IsByte : ℕ → Type 0
IsByte b = b < 256

abbrev pub AllBytes : Bytes → Type 0
AllBytes [] = Unit {0}
AllBytes (b ∷ bs) = IsByte b × AllBytes bs

-- `a == b` on strings.
unfoldable pub eq : Bytes → Bytes → Bool
eq [] [] = true
eq [] (b ∷ bs) = false
eq (a ∷ as') [] = false
eq (a ∷ as') (b ∷ bs) = a == b && eq as' bs

pub eq_iff : (a b : Bytes) → (eq a b ≡ true) ↔ (a ≡ b)
unfolding eq
eq_iff [] [] = ground arith
eq_iff [] (b ∷ bs) = ground arith
eq_iff (a ∷ as') [] = ground arith
eq_iff (a ∷ as') (b ∷ bs) = ground (arith, eq_iff as' bs)

pub eq_refl : (a : Bytes) → eq a a ≡ true
eq_refl a = (eq_iff a a).1 refl

-- `s[low:high]` on a slice whose backing array goes on to the end of the list; `none` is the
-- run-time panic.
unfoldable pub slice : Bytes → ℕ → ℕ → Option Bytes
slice s low high =
    if leb low high && leb high (length s) then some (take (high - low) (drop low s)) else none

-- `copy(dst[off:], src)`: as many bytes as fit.
unfoldable pub copy_at : Bytes → ℕ → Bytes → Bytes
copy_at dst off src = take off dst ++ (take (length dst - off) src ++ drop (off + length src) dst)

abbrev pub zeros : ℕ → Bytes
zeros n = replicate n 0

pub take_all {ℓ} : {A : Type ℓ} (xs ys : List A) → take (length xs) (xs ++ ys) ≡ xs
take_all [] ys = refl
take_all (x ∷ xs) ys = ap (◌∷◌ x) (take_all xs ys)

pub drop_all {ℓ} : {A : Type ℓ} (xs ys : List A) → drop (length xs) (xs ++ ys) ≡ ys
drop_all [] ys = refl
drop_all (x ∷ xs) ys = drop_all xs ys

pub take_long {ℓ} : {A : Type ℓ} (n : ℕ) (xs : List A) → length xs ≤ n → take n xs ≡ xs
take_long zero [] h = refl
take_long zero (x ∷ xs) h = absurd (omega arith)
take_long (suc n) [] h = refl
take_long (suc n) (x ∷ xs) h = ap (◌∷◌ x) (take_long n xs (omega arith))

pub drop_past {ℓ} :
    {A : Type ℓ} (xs ys : List A) (n : ℕ) → drop (length xs + n) (xs ++ ys) ≡ drop n ys
drop_past [] ys n = ap (λ k. drop k ys) (omega arith)
drop_past {A} (x ∷ xs) ys n = ap (λ k. drop k (x ∷ (xs ++ ys))) k_eq ∙ drop_past xs ys n
  where
    k_eq : length (x ∷ xs) + n ≡ suc (length xs + n)
    k_eq = omega arith

drop-zeros : (n k : ℕ) → drop n (zeros (n + k)) ≡ zeros k
drop-zeros zero k = ap zeros (omega arith)
drop-zeros (suc n) k = ap (λ m. drop (suc n) (zeros m)) k_eq ∙ drop-zeros n k
  where
    k_eq : suc n + k ≡ suc (n + k)
    k_eq = omega arith

pub length-zeros : (n : ℕ) → length (zeros n) ≡ n
length-zeros zero = refl
length-zeros (suc n) = ap suc (length-zeros n)

-- Copying into a buffer of zeroes behind what is already written appends.
pub copy_at-zeros :
    (front src : Bytes) (off n : ℕ)
    → off ≡ length front
    → copy_at (front ++ zeros (length src + n)) off src ≡ (front ++ src) ++ zeros n
unfolding copy_at
copy_at-zeros front src off n h =
    rw (h, take_all front, take_long _ src room, tail) (sym (append_assoc front src (zeros n)))
  where
    room : length src ≤ length (front ++ zeros (length src + n)) - length front
    room =
        omega (arith, length-append front (zeros (length src + n)), length-zeros (length src + n))

    tail : drop (length front + length src) (front ++ zeros (length src + n)) ≡ zeros n
    tail = drop_past front (zeros (length src + n)) (length src) ∙ drop-zeros (length src) n

-- The slice between a front and a back.
pub slice-append :
    (front mid back : Bytes) (low high : ℕ)
    → low ≡ length front
    → high ≡ length front + length mid
    → slice (front ++ (mid ++ back)) low high ≡ some mid
unfolding slice
slice-append front mid back low high h k = ground (arith, total, part)
  where
    total : length (front ++ (mid ++ back)) ≡ length front + (length mid + length back)
    total = length-append front (mid ++ back) ∙ ap (◌+◌ (length front)) (length-append mid back)

    part : take (high - low) (drop low (front ++ (mid ++ back))) ≡ mid
    part = rw (h, drop_all front) (ap (λ n. take n (mid ++ back)) (omega arith) ∙ take_all mid back)
